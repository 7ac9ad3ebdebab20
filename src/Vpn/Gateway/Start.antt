-- ===== src/Vpn/Gateway/Start.antt =====
-- internal/vpn/gateway.go: `Init`.
use game_server_dashboard.Go.Text.{Text, trim_space}
use game_server_dashboard.Prelude.{
  List, Option, Result, err, leb, none, ok, some, true, ℕ, ◌&&◌, ◌>>=◌, ◌>>◌,
}
use game_server_dashboard.Vpn.Destination.{key}
use game_server_dashboard.Vpn.Gateway.{apply, deny_all, place_key}
use game_server_dashboard.Vpn.Host.{
  Command, Failure, Machine, World, add_link, add_table, atomic_file, check, command, contents,
  counted, derive_key, execute, generate_key, list_table, make_directory, missing, read_file,
  set_address, set_link, show_link, unreadable,
}
use game_server_dashboard.Vpn.Policy.{Peer, Snapshot}
use game_server_dashboard.Vpn.Validity.{validate}

module _ (m : Machine) (parse_time : Text → Option ℕ) (hash_of : List Peer → Text)
    (marshal : Snapshot → Text) (unmarshal : Text → Option Snapshot) where
  -- A command that is tried first and, where it fails, another one in its place.
  unfoldable pub either_command : Command → Command → World → Result Failure World
  unfolding execute
  either_command first second w = elim (execute m first w) [
    | ok x ↦ ok x
    | err e ↦ execute m second e.world
  ]

  -- The private key, which is made where there is none.
  unfoldable pub server_key_of : World → Result Failure (Text × World)
  unfolding command atomic_file read_file
  server_key_of w =
      let w1 = counted w in
      elim (read_file m w1.server_key w1) [
        | contents s ↦ ok (s, w1)
        | unreadable ↦ err (record { message = "unreadable server key"; world = w1 })
        | missing ↦ (do
          made ← command m generate_key w1
          w2 ← atomic_file m place_key made.0 made.1
          ok (made.0, w2))
      ]

  -- The policy of the last run, if there is one, is validated and applied.
  unfoldable pub resume : World → Result Failure World
  unfolding apply read_file
  resume w =
      let w1 = counted w in
      elim (read_file m w1.policy_file w1) [
        | missing ↦ ok w1
        | unreadable ↦ err (record { message = "unreadable policy"; world = w1 })
        | contents s ↦ elim (unmarshal s) [
          | none ↦ err (record {
            message = "invalid saved gateway policy; forwarding remains blocked";
            world = w1;
          })
          | some p ↦ (do
            let w2 = record w1 { desired = p }
            check (validate parse_time hash_of p) "invalid policy" w2
            apply m parse_time hash_of marshal unmarshal (record w2 { has_policy = true }))
        ]
      ]

  -- The interface: the key of the gateway, the link with its address.
  unfoldable pub bring_up : World → Result Failure World
  unfolding server_key_of either_command command execute
  bring_up w = do
    private_key ← server_key_of w
    public_key ← command m (derive_key private_key.0) private_key.1
    let w1 = record (public_key.1) { public_key = trim_space public_key.0 }
    check (key w1.public_key) "invalid gateway public key" w1
    w2 ← either_command show_link add_link w1
    w3 ← execute m set_address w2
    execute m set_link w3

  -- Init
  unfoldable pub init : World → Result Failure World
  unfolding execute either_command deny_all bring_up resume
  init w = do
    check (leb 1 w.port && leb w.port 65535) "invalid WireGuard port" w
    w1 ← execute m make_directory w
    w2 ← either_command list_table add_table w1
    w3 ← deny_all m parse_time hash_of marshal unmarshal w2
    w4 ← bring_up w3
    resume w4
