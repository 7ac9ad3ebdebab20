-- ===== src/Vpn/Gateway/InForce.antt =====
-- What the gateway enforces, and when: the laws of internal/vpn/gateway.go.
use game_server_dashboard.Go.Text.{Text}
use game_server_dashboard.Go.Time.{Stamp, unset}
use game_server_dashboard.Prelude.{
  List, Option, Result, [], ap, arith, err, ok, refl, some, subst, true, ℕ, ◌+◌, ◌<◌, ◌∙◌, ◌≡◌, ◌⊎◌,
}
use game_server_dashboard.Vpn.Gateway.{
  apply, deny_all, enable, first_expiry, install, persist, place_config, place_policy,
}
use game_server_dashboard.Vpn.Host.{
  Failure, Machine, Reading, World, atomic_file, contents, counted, execute, load_rules, missing,
  read_file, unreadable, world_of,
}
use game_server_dashboard.Vpn.Outcomes.{
  Ends, atomic_file-Ends, bind-Ends, execute-Ends, finally-Ends, world_of-Ends,
}
use game_server_dashboard.Vpn.Policy.{Peer, Snapshot, active_snapshot}
use game_server_dashboard.Vpn.Ruleset.{ruleset_text}
use game_server_dashboard.Vpn.Validity.{validate}

module _ (m : Machine) (parse_time : Text → Option ℕ) (hash_of : List Peer → Text)
    (marshal : Snapshot → Text) (unmarshal : Text → Option Snapshot) where
  -- The rules that nft has are the text of the policy `d` as of the clock at the call that has loaded
  -- them, of the part of it that was in force at the clock at an earlier call; that part sets the
  -- time at which the rules are renewed.
  abbrev pub IsEnforced : Snapshot → Text → ℕ → Stamp → Type 0
  IsEnforced d loaded call until =
      (earlier : ℕ) × (earlier < call)
      × (loaded
          ≡ ruleset_text parse_time (m.clock call)
              (active_snapshot parse_time hash_of (m.clock earlier) d))
      × (until
          ≡ first_expiry m parse_time hash_of marshal unmarshal
              (active_snapshot parse_time hash_of (m.clock earlier) d).peers unset)

  -- What is applied is valid, stored and enforced.
  abbrev pub IsInstalled : World → Type 0
  IsInstalled w =
      (w.has_policy ≡ true)
      × (w.applied ≡ w.desired.revision)
      × (validate parse_time hash_of w.desired ≡ true)
      × (w.policy_file ≡ some (marshal w.desired))
      × IsEnforced w.desired w.loaded w.loaded_call w.applied_until

  -- The policy `d` is installed.
  abbrev pub IsInstalledOf : Snapshot → World → Type 0
  IsInstalledOf d w = IsInstalled w × (w.desired ≡ d)

  -- Nothing counts as applied that is not installed.
  abbrev pub IsHonest : World → Type 0
  IsHonest w = (w.applied ≡ []) ⊎ IsInstalled w

  abbrev pub IsSamePolicy : World → World → Type 0
  IsSamePolicy w x =
      (x.desired ≡ w.desired) × (x.policy_file ≡ w.policy_file) × (x.has_policy ≡ w.has_policy)

  -- Nothing is applied, and the policy is as it is in `w`.
  abbrev pub IsQuiet : World → World → Type 0
  IsQuiet w x = (x.applied ≡ []) × IsSamePolicy w x

  abbrev pub IsIdle : World → Type 0
  IsIdle w = w.applied ≡ []

  pub deny_all-IsQuiet :
      (w : World) → Ends IsIdle (IsQuiet w) (deny_all m parse_time hash_of marshal unmarshal w)
  unfolding deny_all
  deny_all-IsQuiet w =
      finally-Ends (λ _. Unit)
        (λ x.
          (x.desired ≡ w.desired) × (x.policy_file ≡ w.policy_file) × (x.has_policy ≡ w.has_policy))
        IsIdle (IsQuiet w) _ _ (execute-Ends _ m _ _ w (refl, refl, refl) tt) (λ x h. (refl, h))
        (λ x h. refl)

  -- Nothing is applied, the policy is as it is in `w`, and calls have been made since.
  abbrev pub IsLater : World → World → Type 0
  IsLater w x = IsQuiet w x × (w.calls < x.calls)

  -- Nothing is applied yet, and nft has the rules of the policy of `w`, of the part of it that is in
  -- force in `w`, as of a later call.
  abbrev pub IsLoaded : World → World → Type 0
  IsLoaded w x =
      IsQuiet w x
      × (w.calls < x.loaded_call)
      × (x.loaded
          ≡ ruleset_text parse_time (m.clock x.loaded_call)
              (active_snapshot parse_time hash_of (m.clock w.calls) w.desired))

  loaded-IsInstalled :
      (w : World)
      → w.has_policy ≡ true
      → validate parse_time hash_of w.desired ≡ true
      → w.policy_file ≡ some (marshal w.desired)
      → (x : World) → IsLoaded w x
      → IsInstalledOf w.desired (record x {
        applied = x.desired.revision;
        applied_until =
            first_expiry m parse_time hash_of marshal unmarshal
              (active_snapshot parse_time hash_of (m.clock w.calls) w.desired).peers
              unset;
      })
  loaded-IsInstalled w held valid kept x ((_, (same, file, policy_held)), later, rules) = (
    (
      policy_held ∙ held,
      refl,
      rw same valid,
      rw (file, same) kept,
      rw same (w.calls, later, rules, refl),
    ),
    same,
  )

  -- The last part of Apply: an idle gateway whose policy is valid and stored ends with it installed,
  -- or idle.
  enable-IsInstalled :
      (w : World)
      → w.has_policy ≡ true
      → w.applied ≡ []
      → validate parse_time hash_of w.desired ≡ true
      → w.policy_file ≡ some (marshal w.desired)
      → Ends IsIdle (IsInstalledOf w.desired) (enable m parse_time hash_of marshal unmarshal w)
  unfolding enable
  enable-IsInstalled w held idle valid kept =
      bind-Ends IsIdle (λ _. Unit) (IsInstalledOf w.desired) _ _
        (read_key (read_file m w.server_key (counted w)))
        (λ private_key _.
          bind-Ends IsIdle (IsLater w) (IsInstalledOf w.desired) _ _
            (atomic_file-Ends IsIdle m (IsLater w) place_config _ (counted w)
              ((idle, (refl, refl, refl)), omega arith) idle idle)
            (λ w2 later2.
              finally-Ends IsIdle (IsInstalledOf w.desired) IsIdle (IsInstalledOf w.desired) _ _
                (bind-Ends IsIdle (IsLater w) (IsInstalledOf w.desired) _ _
                  (execute-Ends IsIdle m (IsLater w) _ w2 (later2.0, one_more _ _ later2.1)
                    (later2.0.0))
                  (λ w3 later3.
                    let rules =
                      ruleset_text parse_time (m.clock w3.calls)
                        (active_snapshot parse_time hash_of (m.clock w.calls) w.desired) in
                    bind-Ends IsIdle (IsLoaded w) (IsInstalledOf w.desired)
                      (execute m (load_rules rules) w3) _
                      (execute-Ends IsIdle m (IsLoaded w) (load_rules rules) w3
                        (later3.0, later3.1, refl) (later3.0.0))
                      (loaded-IsInstalled w held valid kept)))
                (λ x h. h) (λ x h. h)))
    where
      one_more : (a b : ℕ) → a < b → a < b + 1
      one_more a b h = omega arith

      read_key :
          (x : Reading)
          → Ends IsIdle
              (λ (_ : Text). Unit)
              (elim x [
                | contents s ↦ ok s
                | missing ↦ err (record { message = "no server key"; world = counted w })
                | unreadable ↦ err (record { message = "no server key"; world = counted w })
              ])
      read_key (contents s) = tt
      read_key missing = idle
      read_key unreadable = idle

  persist-stored :
      (w : World)
      → Ends IsIdle
          (λ x. x ≡ place_policy (marshal w.desired) (counted w))
          (persist m parse_time hash_of marshal unmarshal w)
  unfolding persist
  persist-stored w = by_case (atomic_file m place_policy (marshal w.desired) w) (
      atomic_file-Ends (λ _. Unit) m (λ x. x ≡ place_policy (marshal w.desired) (counted w))
        place_policy (marshal w.desired) w refl tt tt)
    where
      by_case :
          (r : Result Failure World)
          → Ends (λ _. Unit) (λ x. x ≡ place_policy (marshal w.desired) (counted w)) r
          → Ends IsIdle
              (λ x. x ≡ place_policy (marshal w.desired) (counted w))
              (elim r [
                | ok x ↦ ok x
                | err e ↦ err (record e {
                  world = world_of (deny_all m parse_time hash_of marshal unmarshal e.world);
                })
              ])
      by_case (ok x) h = h
      by_case (err e) h =
          world_of-Ends IsIdle (IsQuiet e.world) _ (deny_all-IsQuiet e.world) (λ x quiet. quiet.0)

  install-IsInstalled :
      (w : World)
      → w.has_policy ≡ true
      → validate parse_time hash_of w.desired ≡ true
      → Ends IsIdle (IsInstalledOf w.desired) (install m parse_time hash_of marshal unmarshal w)
  unfolding install
  install-IsInstalled w held valid =
      bind-Ends IsIdle (λ x. x ≡ place_policy (marshal w.desired) (counted w))
        (IsInstalledOf w.desired) _ _ (persist-stored w)
        (λ w1 same1.
          bind-Ends IsIdle (IsQuiet w1) (IsInstalledOf w.desired) _ _ (deny_all-IsQuiet w1)
            (λ w2 (idle, (same, file, policy_held)).
              let kept : w2.desired ≡ w.desired = same ∙ ap (λ (x : World). x.desired) same1 in
              subst
                (λ (d : Snapshot).
                  Ends IsIdle (IsInstalledOf d) (enable m parse_time hash_of marshal unmarshal w2))
                kept
                (enable-IsInstalled w2 (policy_held ∙ ap (λ (x : World). x.has_policy) same1 ∙ held)
                  idle (rw kept valid) (rw kept (file ∙ ap (λ (x : World). x.policy_file) same1)))))

  -- Apply of a policy that is valid ends with that policy installed, or with nothing applied.
  pub apply-IsInstalled :
      (w : World)
      → w.has_policy ≡ true
      → validate parse_time hash_of w.desired ≡ true
      → Ends IsIdle (IsInstalledOf w.desired) (apply m parse_time hash_of marshal unmarshal w)
  unfolding apply
  apply-IsInstalled w held valid =
      let same : apply m parse_time hash_of marshal unmarshal w
          ≡ install m parse_time hash_of marshal unmarshal w =
        ground arith in
      rw same (install-IsInstalled w held valid)
