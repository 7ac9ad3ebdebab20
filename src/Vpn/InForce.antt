-- ===== src/Vpn/InForce.antt =====
-- What `Active` of internal/vpn/policy.go keeps of a policy.
use game_server_dashboard.Go.Text.{Text}
use game_server_dashboard.Prelude.{
  All, Bool, Bool-cases, List, Option, Option-cases, [], arith, exists_where, false, inl, inr, leb,
  none, refl, select, some, sym, true, ℕ, ◌&&◌, ◌+◌, ◌<◌, ◌∙◌, ◌∷◌, ◌≡◌,
}
use game_server_dashboard.Vpn.Policy.{
  Peer, Rule, Snapshot, active_peers, active_snapshot, has_rules, is_unexpired,
}

-- Some peer that the first test takes, by its id, key and address, has a rule that the second takes.
unfoldable pub offers : (ℕ → Text → Text → Bool) → (Rule → Bool) → List Peer → Bool
unfolding exists_where
offers is_of q ps =
    exists_where (λ (p : Peer). is_of p.id p.public_key p.address && exists_where q p.rules) ps

module _ (parse_time : Text → Option ℕ) where
  -- The rule has an expiry, and it is later than the time.
  abbrev pub IsLasting : ℕ → Rule → Type 0
  IsLasting at_time r = (t : ℕ) × (parse_time r.expires ≡ some t) × (at_time < t)

  abbrev pub IsInForce : ℕ → Peer → Type 0
  IsInForce at_time p = (has_rules p.rules ≡ true) × All (IsLasting at_time) p.rules

  -- The test behind `IsLasting`.
  abbrev pub lasts : ℕ → Rule → Bool
  lasts at_time r = elim (parse_time r.expires) [ none ↦ false | some t ↦ leb (at_time + 1) t ]

  is_unexpired-lasts :
      (at_time : ℕ) (r : Rule) → is_unexpired parse_time at_time r ≡ lasts at_time r
  unfolding is_unexpired
  is_unexpired-lasts at_time r = ground arith

  is_unexpired-IsLasting :
      (at_time : ℕ) (r : Rule) → is_unexpired parse_time at_time r ≡ true → IsLasting at_time r
  unfolding is_unexpired
  is_unexpired-IsLasting at_time r h = elim (Option-cases (parse_time r.expires)) [
    | inl e ↦ absurd (ground arith)
    | inr (t, e) ↦ (t, e, ground arith)
  ]

  select-IsLasting :
      (at_time : ℕ) (rs : List Rule)
      → All (IsLasting at_time) (select (is_unexpired parse_time at_time) rs)
  unfolding select
  select-IsLasting at_time [] = tt
  select-IsLasting at_time (r ∷ rs) = elim (Bool-cases (is_unexpired parse_time at_time r)) [
    | inl e ↦ rw e (is_unexpired-IsLasting at_time r e, select-IsLasting at_time rs)
    | inr e ↦ rw e (select-IsLasting at_time rs)
  ]

  active_peers-IsInForce :
      (at_time : ℕ) (ps : List Peer) → All (IsInForce at_time) (active_peers parse_time at_time ps)
  unfolding active_peers
  active_peers-IsInForce at_time [] = tt
  active_peers-IsInForce at_time (p ∷ ps) =
      elim (Bool-cases (has_rules (select (is_unexpired parse_time at_time) p.rules))) [
        | inl e ↦ rw e ((e, select-IsLasting at_time p.rules), active_peers-IsInForce at_time ps)
        | inr e ↦ rw e (active_peers-IsInForce at_time ps)
      ]

  -- A rule that passes a test is among the unexpired ones where it lasts.
  exists_where-select :
      (at_time : ℕ) (q : Rule → Bool) (rs : List Rule)
      → exists_where q (select (is_unexpired parse_time at_time) rs)
        ≡ exists_where (λ r. q r && lasts at_time r) rs
  unfolding exists_where select
  exists_where-select at_time q [] = refl
  exists_where-select at_time q (r ∷ rs) =
      let same = is_unexpired-lasts at_time r in
      elim (Bool-cases (is_unexpired parse_time at_time r)) [
        | inl e ↦
            let e' : lasts at_time r ≡ true = sym same ∙ e in
            rw (e, e', exists_where-select at_time q rs) (ground arith)
        | inr e ↦
            let e' : lasts at_time r ≡ false = sym same ∙ e in
            rw (e, e', exists_where-select at_time q rs) (ground arith)
      ]

  exists_where-no_rules :
      (q : Rule → Bool) (rs : List Rule) → has_rules rs ≡ false → exists_where q rs ≡ false
  unfolding exists_where
  exists_where-no_rules q [] h = refl
  exists_where-no_rules q (r ∷ rs) h = absurd (cc)

  offers-active_peers :
      (at_time : ℕ) (is_of : ℕ → Text → Text → Bool) (q : Rule → Bool) (ps : List Peer)
      → offers is_of q (active_peers parse_time at_time ps)
        ≡ offers is_of (λ r. q r && lasts at_time r) ps
  unfolding offers active_peers exists_where
  offers-active_peers at_time is_of q [] = refl
  offers-active_peers at_time is_of q (p ∷ ps) =
      let same = exists_where-select at_time q p.rules in
      elim (Bool-cases (has_rules (select (is_unexpired parse_time at_time) p.rules))) [
        | inl e ↦ rw (e, same, offers-active_peers at_time is_of q ps) refl
        | inr e ↦
            let gone : exists_where (λ r. q r && lasts at_time r) p.rules ≡ false =
              sym same ∙ exists_where-no_rules q _ e in
            rw (e, gone, offers-active_peers at_time is_of q ps) (ground arith)
      ]

  -- Every peer of the active policy has a rule, and every rule of it has an expiry later than the
  -- time. A peer of some id, key and address has a rule of some kind in the active policy exactly where
  -- it has one in the policy that expires later than the time.
  pub active-IsInForce :
      (hash_of : List Peer → Text) (at_time : ℕ) (s : Snapshot) (is_of : ℕ → Text → Text → Bool)
      (q : Rule → Bool)
      → All (IsInForce at_time) (active_snapshot parse_time hash_of at_time s).peers
        × (offers is_of q (active_snapshot parse_time hash_of at_time s).peers
            ≡ offers is_of (λ r. q r && lasts at_time r) s.peers)
  unfolding active_snapshot
  active-IsInForce hash_of at_time s is_of q =
      (active_peers-IsInForce at_time s.peers, offers-active_peers at_time is_of q s.peers)
