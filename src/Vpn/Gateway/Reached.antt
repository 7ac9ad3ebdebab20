-- ===== src/Vpn/Gateway/Reached.antt =====
-- The states that the gateway of internal/vpn/gateway.go reaches: a process starts with nothing in
-- memory, `Init` runs, and then `Tick` after `Tick`, whose errors are logged.
use game_server_dashboard.Go.Text.{Text, text_eq}
use game_server_dashboard.Go.Time.{unset}
use game_server_dashboard.Prelude.{
  Bool-cases, List, Option, Result, [], arith, err, false, if◌then◌else◌, inl, inr, leb, none, not,
  ok, refl, some, true, ℕ, ◌&&◌, ◌==◌, ◌>>◌, ◌||◌, ◌≡◌,
}
use game_server_dashboard.Vpn.Gateway.{Visit, apply, deny_all, has_token, no_policy}
use game_server_dashboard.Vpn.Gateway.Idle.{bring_up-Idle, denied-Idle, either-Idle, execute-Idle}
use game_server_dashboard.Vpn.Gateway.InForce.{
  IsHonest, IsIdle, IsInstalled, IsInstalledOf, IsQuiet, apply-IsInstalled, deny_all-IsQuiet,
}
use game_server_dashboard.Vpn.Gateway.Start.{init, resume}
use game_server_dashboard.Vpn.Gateway.Tick.{acknowledge, adopt, is_due, offered, renew, tick}
use game_server_dashboard.Vpn.Host.{
  Failure, Machine, Reading, World, add_table, check, contents, counted, list_table, make_directory,
  missing, read_file, unreadable, world_of,
}
use game_server_dashboard.Vpn.Outcomes.{Ends, bind-Ends, check-Ends, require-Ends, world_of-Ends}
use game_server_dashboard.Vpn.Policy.{Peer, Snapshot}
use game_server_dashboard.Vpn.Validity.{validate}

module _ (m : Machine) (parse_time : Text → Option ℕ) (hash_of : List Peer → Text)
    (marshal : Snapshot → Text) (unmarshal : Text → Option Snapshot) where
  -- The memory of a process that starts; the kernel and the files are as they were left.
  abbrev pub restarted : World → World
  restarted w = record w {
    public_key = [];
    desired = no_policy;
    applied = [];
    applied_until = unset;
    has_policy = false;
  }

  pub data Step : World → World → Type 0 where
    started :
        (w : World) → Step w (world_of (init m parse_time hash_of marshal unmarshal (restarted w)))
    ticked :
        (v : Visit) (w : World)
        → Step w (world_of (tick m parse_time hash_of marshal unmarshal v w))

  -- Any number of steps from a state.
  pub data Reaches (first : World) : World → Type 0 where
    at_once : Reaches first first
    then_step : {w w' : World} → Reaches first w → Step w w' → Reaches first w'

  abbrev pub Honest : World → Type 0
  Honest = IsHonest m parse_time hash_of marshal unmarshal

  abbrev pub Installed : World → Type 0
  Installed = IsInstalled m parse_time hash_of marshal unmarshal

  idle-Honest :
      (d : Snapshot) (r : Result Failure World)
      → Ends
          (λ (x : World). x.applied ≡ [])
          (IsInstalledOf m parse_time hash_of marshal unmarshal d)
          r
      → Ends Honest Honest r
  idle-Honest d (ok w) h = inr (h.0)
  idle-Honest d (err e) h = inl h

  denied-Honest :
      (w : World) → Ends Honest Honest (deny_all m parse_time hash_of marshal unmarshal w)
  denied-Honest w =
      by_case (deny_all m parse_time hash_of marshal unmarshal w)
        (deny_all-IsQuiet m parse_time hash_of marshal unmarshal w)
    where
      by_case :
          (r : Result Failure World)
          → Ends
              (λ (x : World). x.applied ≡ [])
              (IsQuiet m parse_time hash_of marshal unmarshal w)
              r
          → Ends Honest Honest r
      by_case (ok x) h = inl (h.0)
      by_case (err e) h = inl h

  apply-Honest :
      (w : World) → Honest w → Ends Honest Honest (apply m parse_time hash_of marshal unmarshal w)
  unfolding apply
  apply-Honest w h = elim (Bool-cases w.has_policy) [
    | inr no_policy_yet ↦
        let same : apply m parse_time hash_of marshal unmarshal w
            ≡ deny_all m parse_time hash_of marshal unmarshal w =
          ground arith in
        rw same (denied-Honest w)
    | inl held ↦ elim (Bool-cases (validate parse_time hash_of w.desired)) [
      | inl valid ↦
          idle-Honest _ _ (apply-IsInstalled m parse_time hash_of marshal unmarshal w held valid)
      | inr bad ↦
          let same : apply m parse_time hash_of marshal unmarshal w
              ≡ err (record { message = "invalid policy"; world = w }) =
            ground arith in
          rw same h
    ]
  ]

  pub renew-Honest :
      (w : World) → Honest w → Ends Honest Honest (renew m parse_time hash_of marshal unmarshal w)
  unfolding renew
  renew-Honest w h = elim (Bool-cases (is_due m parse_time hash_of marshal unmarshal w)) [
    | inl due ↦ rw (Ends, due) (apply-Honest w h)
    | inr not_due ↦ rw (Ends, not_due) h
  ]

  adopt-Honest :
      (next : Snapshot) (w : World)
      → validate parse_time hash_of next ≡ true
      → Honest w
      → Ends Honest Honest (adopt m parse_time hash_of marshal unmarshal next w)
  unfolding adopt
  adopt-Honest next w valid h =
      elim (Bool-cases (not w.has_policy || not (text_eq next.revision w.applied))) [
        | inr current ↦ rw (Ends, current) h
        | inl changed ↦
            rw (Ends, changed)
              (idle-Honest _ _ (
                apply-IsInstalled m parse_time hash_of marshal unmarshal
                  (record w { desired = next; has_policy = true }) refl valid))
      ]

  abbrev pub Valid : Snapshot → Type 0
  Valid s = validate parse_time hash_of s ≡ true

  offered-valid :
      (v : Visit) (w : World)
      → Honest w
      → Ends Honest
          (λ (next : Snapshot). validate parse_time hash_of next ≡ true)
          (offered m parse_time hash_of marshal unmarshal v w)
  unfolding offered
  offered-valid v w h =
      require-Ends Honest {A = ℕ × Option Snapshot} {B = Snapshot} Valid
        (if has_token v.token then v.offer else none) _ w _ h
        (λ answer _. check-Ends Honest {B = Snapshot} Valid (answer.0 == 200) _ w _ h (λ _.
          require-Ends Honest {A = Snapshot} {B = Snapshot} Valid answer.1 _ w _ h (λ next _.
            check-Ends Honest {B = Snapshot} Valid (validate parse_time hash_of next) _ w _ h
              (λ valid. valid))))

  acknowledge-Honest :
      (v : Visit) (w : World)
      → Honest w
      → Ends Honest Honest (acknowledge m parse_time hash_of marshal unmarshal v w)
  unfolding acknowledge
  acknowledge-Honest v w h = check-Ends Honest Honest (has_token v.token_again) _ w _ h (λ _.
      require-Ends Honest Honest v.ack_status _ _ _ h
        (λ status _. check-Ends Honest Honest (status == 204) _ _ _ h (λ _. h)))

  tick-Honest :
      (v : Visit) (w : World)
      → Honest w
      → Ends Honest Honest (tick m parse_time hash_of marshal unmarshal v w)
  unfolding tick
  tick-Honest v w h = bind-Ends Honest Honest Honest _ _ (renew-Honest w h) (λ w1 h1.
      bind-Ends Honest _ Honest _ _ (offered-valid v w1 h1) (λ next valid.
        bind-Ends Honest Honest Honest _ _ (adopt-Honest next w1 valid h1)
          (λ w2 h2. acknowledge-Honest v w2 h2)))

  resume-Honest :
      (w : World)
      → IsIdle m parse_time hash_of marshal unmarshal w
      → Ends Honest Honest (resume m parse_time hash_of marshal unmarshal w)
  unfolding resume
  resume-Honest w h = by_case (read_file m w.policy_file (counted w))
    where
      with_policy : Snapshot → World
      with_policy p = record (counted w) { desired = p }

      decoded :
          (p : Option Snapshot)
          → Ends Honest Honest (elim p [
            | none ↦ err (record {
              message = "invalid saved gateway policy; forwarding remains blocked";
              world = counted w;
            })
            | some p ↦ (do
              let w2 = record (counted w) { desired = p }
              check (validate parse_time hash_of p) "invalid policy" w2
              apply m parse_time hash_of marshal unmarshal (record w2 { has_policy = true }))
          ])
      decoded none = inl h
      decoded (some p) =
          check-Ends Honest Honest (validate parse_time hash_of p) _ (with_policy p) _ (inl h)
            (λ valid. apply-Honest (record (with_policy p) { has_policy = true }) (inl h))

      by_case :
          (x : Reading)
          → Ends Honest Honest (elim x [
            | missing ↦ ok (counted w)
            | unreadable ↦ err (record { message = "unreadable policy"; world = counted w })
            | contents s ↦ elim (unmarshal s) [
              | none ↦ err (record {
                message = "invalid saved gateway policy; forwarding remains blocked";
                world = counted w;
              })
              | some p ↦ (do
                let w2 = record (counted w) { desired = p }
                check (validate parse_time hash_of p) "invalid policy" w2
                apply m parse_time hash_of marshal unmarshal (record w2 { has_policy = true }))
            ]
          ])
      by_case missing = inl h
      by_case unreadable = inl h
      by_case (contents s) = decoded (unmarshal s)

  init-Honest :
      (w : World)
      → IsIdle m parse_time hash_of marshal unmarshal w
      → Ends Honest Honest (init m parse_time hash_of marshal unmarshal w)
  unfolding init
  init-Honest w h = check-Ends Honest Honest (leb 1 w.port && leb w.port 65535) _ w _ (inl h) (λ _.
      bind-Ends Honest (IsIdle m parse_time hash_of marshal unmarshal) Honest _ _
        (weaker _ (execute-Idle m parse_time hash_of marshal unmarshal make_directory w h))
        (λ w1 h1.
          bind-Ends Honest (IsIdle m parse_time hash_of marshal unmarshal) Honest _ _
            (weaker _
              (either-Idle m parse_time hash_of marshal unmarshal list_table add_table w1 h1))
            (λ w2 h2.
              bind-Ends Honest (IsIdle m parse_time hash_of marshal unmarshal) Honest _ _
                (weaker _ (denied-Idle m parse_time hash_of marshal unmarshal w2))
                (λ w3 h3.
                  bind-Ends Honest (IsIdle m parse_time hash_of marshal unmarshal) Honest _ _
                    (weaker _ (bring_up-Idle m parse_time hash_of marshal unmarshal w3 h3))
                    (λ w4 h4. resume-Honest w4 h4)))))
    where
      weaker :
          (r : Result Failure World)
          → Ends
              (IsIdle m parse_time hash_of marshal unmarshal)
              (IsIdle m parse_time hash_of marshal unmarshal)
              r
          → Ends Honest (IsIdle m parse_time hash_of marshal unmarshal) r
      weaker (ok x) h = h
      weaker (err e) h = inl h

  -- In whatever state the gateway is reached, after any failures, a revision counts as applied only
  -- if the policy of that revision is valid and stored, and nft has its rules as of the clock at the
  -- call that loaded them, of the part of it that was in force at the clock at an earlier call; they
  -- are due for renewal when the first rule of that part runs out. Nothing counts as applied at first.
  pub reached-IsHonest :
      (first last : World) → first.applied ≡ [] → Reaches first last → Honest last
  reached-IsHonest first last h at_once = inl h
  reached-IsHonest first last h (then_step earlier (started w)) =
      world_of-Ends Honest Honest _ (init-Honest (restarted w) refl) (λ x held. held)
  reached-IsHonest first last h (then_step earlier (ticked v w)) =
      world_of-Ends Honest Honest _ (tick-Honest v w (reached-IsHonest first w h earlier))
        (λ x held. held)
