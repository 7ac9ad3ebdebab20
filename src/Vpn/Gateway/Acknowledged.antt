-- ===== src/Vpn/Gateway/Acknowledged.antt =====
-- What a tick of internal/vpn/gateway.go acknowledges.
use game_server_dashboard.Go.Text.{Text, is_blank, text_eq, text_eq_iff}
use game_server_dashboard.Prelude.{
  ==_iff, Bool-cases, List, Option, Result, ap, append_row, arith, err, false, if◌then◌else◌, inl,
  inr, none, not, ok, refl, some, sym, true, ℕ, ◌==◌, ◌||◌, ◌∙◌, ◌≡◌,
}
use game_server_dashboard.Vpn.Gateway.{Visit, has_token}
use game_server_dashboard.Vpn.Gateway.InForce.{
  IsHonest, IsIdle, IsInstalled, IsInstalledOf, apply-IsInstalled,
}
use game_server_dashboard.Vpn.Gateway.Reached.{renew-Honest}
use game_server_dashboard.Vpn.Gateway.Tick.{acknowledge, adopt, offered, tick}
use game_server_dashboard.Vpn.Host.{Failure, Machine, World}
use game_server_dashboard.Vpn.Outcomes.{Ends, bind-Ends, check-Ends, ok-Ends, require-Ends}
use game_server_dashboard.Vpn.Policy.{Ack, Peer, Snapshot}
use game_server_dashboard.Vpn.Validity.{validate}

module _ (m : Machine) (parse_time : Text → Option ℕ) (hash_of : List Peer → Text)
    (marshal : Snapshot → Text) (unmarshal : Text → Option Snapshot) where
  abbrev pub IsAnything : World → Type 0
  IsAnything _ = Unit

  -- The policy that the portal has offered, and that is valid.
  abbrev pub IsOffered : Visit → Snapshot → Type 0
  IsOffered v next = (validate parse_time hash_of next ≡ true) × (v.offer ≡ some (200, some next))

  offered-IsOffered :
      (v : Visit) (w : World)
      → Ends IsAnything (IsOffered v) (offered m parse_time hash_of marshal unmarshal v w)
  unfolding offered
  offered-IsOffered v w =
      require-Ends IsAnything {A = ℕ × Option Snapshot} {B = Snapshot} (IsOffered v)
        (if has_token v.token then v.offer else none) _ w _ tt
        (λ answer given.
          check-Ends IsAnything {B = Snapshot} (IsOffered v) (answer.0 == 200) _ w _ tt (λ fine.
            require-Ends IsAnything {A = Snapshot} {B = Snapshot} (IsOffered v) answer.1 _ w _ tt
              (λ next decoded.
                check-Ends IsAnything {B = Snapshot} (IsOffered v)
                  (validate parse_time hash_of next) _ w _ tt
                  (λ valid. (valid, offer_of answer next given fine decoded)))))
    where
      offer_of :
          (answer : ℕ × Option Snapshot) (next : Snapshot)
          → (if has_token v.token then v.offer else none) ≡ some answer
          → (answer.0 == 200) ≡ true
          → answer.1 ≡ some next
          → v.offer ≡ some (200, some next)
      offer_of (status, body) next given fine decoded =
          let is_200 : status ≡ 200 = (==_iff _ _).0 fine in
          let same : v.offer ≡ some (status, body) = ground arith in
          same ∙ ap (λ n. some (n, body)) is_200 ∙ ap (λ b. some (200, b)) decoded

  -- The policy of that revision is installed.
  abbrev pub IsInForceAs : Snapshot → World → Type 0
  IsInForceAs next w =
      IsInstalled m parse_time hash_of marshal unmarshal w × (w.applied ≡ next.revision)

  installed-now :
      (next : Snapshot) (r : Result Failure World)
      → Ends
          (IsIdle m parse_time hash_of marshal unmarshal)
          (IsInstalledOf m parse_time hash_of marshal unmarshal next)
          r
      → Ends IsAnything (IsInForceAs next) r
  installed-now next (ok w) (held, same) = (held, held.1 ∙ ap (λ (s : Snapshot). s.revision) same)
  installed-now next (err e) h = tt

  adopt-IsInForce :
      (next : Snapshot) (w : World)
      → validate parse_time hash_of next ≡ true
      → is_blank next.revision ≡ false
      → IsHonest m parse_time hash_of marshal unmarshal w
      → Ends IsAnything (IsInForceAs next) (adopt m parse_time hash_of marshal unmarshal next w)
  unfolding adopt is_blank
  adopt-IsInForce next w valid filled h =
      elim (Bool-cases (not w.has_policy || not (text_eq next.revision w.applied))) [
        | inl changed ↦
            rw (Ends, changed)
              (installed-now next _ (
                apply-IsInstalled m parse_time hash_of marshal unmarshal
                  (record w { desired = next; has_policy = true }) refl valid))
        | inr current ↦
            let same : next.revision ≡ w.applied = (text_eq_iff _ _).0 (ground arith) in
            rw (Ends, current)
              (elim h [
                | inr held ↦ (held, sym same)
                | inl idle ↦
                    absurd (cc (let b : is_blank next.revision ≡ true = rw (same, idle) refl in b))
              ])
      ]

  -- The answer to a tick that succeeds, with the policy that it is about.
  abbrev pub IsAcknowledged : Visit → World → Type 0
  IsAcknowledged v w =
      IsInstalled m parse_time hash_of marshal unmarshal w
      × ((next : Snapshot) × (v.offer ≡ some (200, some next)) × (w.applied ≡ next.revision))
      × ((earlier : List Ack) × (w.acks
            ≡ append_row earlier (record { revision = w.applied; public_key = w.public_key })))

  acknowledge-IsAcknowledged :
      (v : Visit) (next : Snapshot) (w : World)
      → v.offer ≡ some (200, some next)
      → IsInForceAs next w
      → Ends IsAnything (IsAcknowledged v) (acknowledge m parse_time hash_of marshal unmarshal v w)
  unfolding acknowledge
  acknowledge-IsAcknowledged v next w given (held, same) =
      check-Ends IsAnything (IsAcknowledged v) (has_token v.token_again) _ w _ tt (λ _.
        require-Ends IsAnything (IsAcknowledged v) v.ack_status _ _ _ tt (λ status _.
          check-Ends IsAnything (IsAcknowledged v) (status == 204) _ _ _ tt
            (λ _. (held, (next, given, same), (w.acks, refl)))))

  -- A tick that succeeds sends, as its last acknowledgment, the revision of the policy that the
  -- portal has just offered, and the policy that is installed by then, with its rules loaded, has
  -- that revision. It is assumed that no hash is empty.
  pub tick_acknowledges :
      (filled : (ps : List Peer) → is_blank (hash_of ps) ≡ false) (v : Visit) (w : World)
      {w' : World}
      → IsHonest m parse_time hash_of marshal unmarshal w
      → tick m parse_time hash_of marshal unmarshal v w ≡ ok w'
      → IsAcknowledged v w'
  unfolding tick validate
  tick_acknowledges filled v w {w'} h e =
      ok-Ends IsAnything (IsAcknowledged v) (tick m parse_time hash_of marshal unmarshal v w)
        (bind-Ends IsAnything (IsHonest m parse_time hash_of marshal unmarshal) (IsAcknowledged v) _
          _ (still_honest _ (renew-Honest m parse_time hash_of marshal unmarshal w h))
          (λ w1 h1.
            bind-Ends IsAnything (IsOffered v) (IsAcknowledged v) _ _ (offered-IsOffered v w1)
              (λ next (valid, given).
                bind-Ends IsAnything (IsInForceAs next) (IsAcknowledged v) _ _
                  (adopt-IsInForce next w1 valid (filled_revision next valid) h1)
                  (λ w2 held. acknowledge-IsAcknowledged v next w2 given held))))
        e
    where
      still_honest :
          (r : Result Failure World)
          → Ends
              (IsHonest m parse_time hash_of marshal unmarshal)
              (IsHonest m parse_time hash_of marshal unmarshal)
              r
          → Ends IsAnything (IsHonest m parse_time hash_of marshal unmarshal) r
      still_honest (ok x) h = h
      still_honest (err e) h = tt

      filled_revision :
          (s : Snapshot) → validate parse_time hash_of s ≡ true → is_blank s.revision ≡ false
      filled_revision s valid =
          let same : s.revision ≡ hash_of s.peers = (text_eq_iff _ _).0 (ground arith) in
          rw same (filled s.peers)
