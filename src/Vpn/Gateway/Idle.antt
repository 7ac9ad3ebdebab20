-- ===== src/Vpn/Gateway/Idle.antt =====
-- The steps of `Init` in internal/vpn/gateway.go that enable nothing.
use game_server_dashboard.Go.Text.{Text, trim_space}
use game_server_dashboard.Prelude.{
  List, Option, Option-cases, Result, err, inl, inr, ok, refl, ℕ, ◌>>=◌, ◌∙◌, ◌≡◌,
}
use game_server_dashboard.Vpn.Destination.{key}
use game_server_dashboard.Vpn.Gateway.{deny_all, place_key}
use game_server_dashboard.Vpn.Gateway.InForce.{IsIdle, IsQuiet, deny_all-IsQuiet}
use game_server_dashboard.Vpn.Gateway.Start.{bring_up, either_command, server_key_of}
use game_server_dashboard.Vpn.Host.{
  Command, Failure, Machine, Reading, World, add_link, add_table, after_command, atomic_file,
  command, contents, counted, derive_key, execute, generate_key, list_table, load_rules,
  make_directory, missing, read_file, set_address, set_link, show_link, sync_peers, unreadable,
}
use game_server_dashboard.Vpn.Outcomes.{Ends, atomic_file-Ends, bind-Ends, check-Ends, execute-Ends}
use game_server_dashboard.Vpn.Policy.{Peer, Snapshot}

module _ (m : Machine) (parse_time : Text → Option ℕ) (hash_of : List Peer → Text)
    (marshal : Snapshot → Text) (unmarshal : Text → Option Snapshot) where
  abbrev pub Idle : World → Type 0
  Idle = IsIdle m parse_time hash_of marshal unmarshal

  after_command-applied : (c : Command) (w : World) → (after_command c w).applied ≡ w.applied
  after_command-applied make_directory w = refl
  after_command-applied list_table w = refl
  after_command-applied add_table w = refl
  after_command-applied generate_key w = refl
  after_command-applied show_link w = refl
  after_command-applied add_link w = refl
  after_command-applied set_address w = refl
  after_command-applied set_link w = refl
  after_command-applied (derive_key s) w = refl
  after_command-applied (load_rules s) w = refl
  after_command-applied (sync_peers s) w = refl

  pub execute-Idle : (c : Command) (w : World) → Idle w → Ends Idle Idle (execute m c w)
  execute-Idle c w h = execute-Ends Idle m Idle c w (after_command-applied c w ∙ h) h

  pub either-Idle :
      (c d : Command) (w : World)
      → Idle w
      → Ends Idle Idle (either_command m parse_time hash_of marshal unmarshal c d w)
  unfolding either_command
  either-Idle c d w h = by_case (execute m c w) (execute-Idle c w h)
    where
      by_case :
          (r : Result Failure World)
          → Ends Idle Idle r
          → Ends Idle Idle (elim r [ ok x ↦ ok x | err e ↦ execute m d e.world ])
      by_case (ok x) h = h
      by_case (err e) h = execute-Idle d e.world h

  abbrev pub IdleWith : (Text × World) → Type 0
  IdleWith p = Idle p.1

  command-Idle : (c : Command) (w : World) → Idle w → Ends Idle IdleWith (command m c w)
  unfolding command
  command-Idle c w h = elim (Option-cases (m.run w.calls c)) [
    | inl e ↦ rw (Ends, e) h
    | inr (out, e) ↦ rw (Ends, e) (after_command-applied c w ∙ h)
  ]

  server_key-Idle :
      (w : World)
      → Idle w
      → Ends Idle IdleWith (server_key_of m parse_time hash_of marshal unmarshal w)
  unfolding server_key_of
  server_key-Idle w h = by_case (read_file m w.server_key (counted w))
    where
      by_case :
          (x : Reading)
          → Ends Idle IdleWith (elim x [
            | contents s ↦ ok (s, counted w)
            | unreadable ↦ err (record { message = "unreadable server key"; world = counted w })
            | missing ↦ (do
              made ← command m generate_key (counted w)
              w2 ← atomic_file m place_key made.0 made.1
              ok (made.0, w2))
          ])
      by_case (contents s) = h
      by_case unreadable = h
      by_case missing =
          bind-Ends Idle IdleWith IdleWith _ _ (command-Idle generate_key (counted w) h)
            (λ made idle.
              bind-Ends Idle Idle IdleWith _ _
                (atomic_file-Ends Idle m Idle place_key made.0 made.1 idle idle idle) (λ w2 h2. h2))

  pub bring_up-Idle :
      (w : World) → Idle w → Ends Idle Idle (bring_up m parse_time hash_of marshal unmarshal w)
  unfolding bring_up
  bring_up-Idle w h = bind-Ends Idle IdleWith Idle _ _ (server_key-Idle w h) (λ made h1.
      bind-Ends Idle IdleWith Idle _ _ (command-Idle (derive_key made.0) made.1 h1) (λ derived h2.
        check-Ends Idle Idle (key (trim_space derived.0)) _ _ _ h2 (λ _.
          bind-Ends Idle Idle Idle _ _ (either-Idle show_link add_link _ h2) (λ w2 h3.
            bind-Ends Idle Idle Idle _ _ (execute-Idle set_address w2 h3)
              (λ w3 h4. execute-Idle set_link w3 h4)))))

  pub denied-Idle : (w : World) → Ends Idle Idle (deny_all m parse_time hash_of marshal unmarshal w)
  denied-Idle w =
      by_case (deny_all m parse_time hash_of marshal unmarshal w)
        (deny_all-IsQuiet m parse_time hash_of marshal unmarshal w)
    where
      by_case :
          (r : Result Failure World)
          → Ends Idle (IsQuiet m parse_time hash_of marshal unmarshal w) r
          → Ends Idle Idle r
      by_case (ok x) h = h.0
      by_case (err e) h = h
