-- ===== src/Vpn/Gateway.antt =====
-- internal/vpn/gateway.go: `deny` and `Apply`. `marshal` and `unmarshal` are
-- encoding/json on a policy; what `unmarshal` leaves of a text that it refuses is not read.
pub mod Start
pub mod Tick
pub mod InForce
pub mod Idle
pub mod Reached
pub mod Acknowledged
use game_server_dashboard.Go.Numbers.{itoa}
use game_server_dashboard.Go.Text.{Text, text, trim_space, written}
use game_server_dashboard.Go.Time.{Stamp, at, unset}
use game_server_dashboard.Portal.Types.{active}
use game_server_dashboard.Prelude.{
  Bool, List, Option, Result, [], err, false, if◌then◌else◌, length, ltb, none, not, ok, some, ℕ,
  ◌==◌, ◌>>=◌, ◌>>◌, ◌∷◌,
}
use game_server_dashboard.Vpn.Host.{
  Failure, Machine, World, atomic_file, check, contents, counted, execute, finally, load_rules,
  missing, read_file, sync_peers, unreadable, world_of,
}
use game_server_dashboard.Vpn.Policy.{Peer, Rule, Snapshot, active_snapshot}
use game_server_dashboard.Vpn.Ruleset.{line_end, ruleset_text}
use game_server_dashboard.Vpn.Validity.{validate}

-- The answers of the portal to one tick: the token of either request, the answer to the first with
-- its status and the policy decoded, and the status of the second.
pub record Visit : Type 0 where
  pub token : Option Text
  pub offer : Option (ℕ × Option Snapshot)
  pub token_again : Option Text
  pub ack_status : Option ℕ

-- request: whether there is a token to send it with.
unfoldable pub has_token : Option Text → Bool
has_token none = false
has_token (some token) = length token == 64

abbrev pub no_policy : Snapshot
no_policy = record { revision = []; peers = [] }

abbrev pub place_key : Text → World → World
place_key s w = record w { server_key = some s }

abbrev pub place_policy : Text → World → World
place_policy s w = record w { policy_file = some s }

abbrev pub place_config : Text → World → World
place_config s w = record w { config_file = some s }

unfoldable pub peer_sections : List Peer → Text
unfolding written
peer_sections [] = []
peer_sections (p ∷ ps) = written (
    line_end
    ∷ text "[Peer]"
    ∷ line_end
    ∷ text "PublicKey = "
    ∷ p.public_key
    ∷ line_end
    ∷ text "AllowedIPs = "
    ∷ p.address
    ∷ line_end
    ∷ peer_sections ps
    ∷ [])

unfoldable pub peer_config : Text → ℕ → List Peer → Text
unfolding peer_sections written
peer_config private_key port ps = written (
    text "[Interface]"
    ∷ line_end
    ∷ text "PrivateKey = "
    ∷ trim_space private_key
    ∷ line_end
    ∷ text "ListenPort = "
    ∷ itoa port
    ∷ line_end
    ∷ peer_sections ps
    ∷ [])

module _ (m : Machine) (parse_time : Text → Option ℕ) (hash_of : List Peer → Text)
    (marshal : Snapshot → Text) (unmarshal : Text → Option Snapshot) where
  abbrev pub now_of : World → ℕ
  now_of w = m.clock w.calls

  -- The loop that finds when the first rule runs out; a time that does not parse is the zero time.
  unfoldable pub earliest : List Rule → Stamp → Stamp
  earliest [] until = until
  earliest (r ∷ rs) until = earliest rs (elim (parse_time r.expires) [
    | none ↦ unset
    | some t ↦ elim until [ unset ↦ at t | at u ↦ if ltb t u then at t else at u ]
  ])

  unfoldable pub first_expiry : List Peer → Stamp → Stamp
  unfolding earliest
  first_expiry [] until = until
  first_expiry (p ∷ ps) until = first_expiry ps (earliest p.rules until)

  unfoldable pub deny_all : World → Result Failure World
  unfolding execute
  deny_all w =
      finally (λ x. record x { applied = [] })
        (execute m (load_rules (ruleset_text parse_time (now_of w) no_policy)) w)

  -- The part of Apply behind the denial, from `active` on.
  unfoldable pub enable : World → Result Failure World
  unfolding execute atomic_file read_file peer_config first_expiry
  enable w = do
    let active = active_snapshot parse_time hash_of (now_of w) w.desired
    let w1 = counted w
    private_key ← (elim (read_file m w1.server_key w1) [
      | contents s ↦ ok s
      | missing ↦ err (record { message = "no server key"; world = w1 })
      | unreadable ↦ err (record { message = "no server key"; world = w1 })
    ])
    let config = peer_config private_key w.port active.peers
    w2 ← atomic_file m place_config config w1
    finally (λ x. record x { config_file = none })
        (do
          w3 ← execute m (sync_peers config) w2
          w4 ← execute m (load_rules (ruleset_text parse_time (now_of w3) active)) w3
          ok (record w4 {
            applied = w4.desired.revision;
            applied_until = first_expiry active.peers unset;
          }))

  -- The policy is stored before it is enabled; where that fails, everything is denied.
  unfoldable pub persist : World → Result Failure World
  unfolding deny_all atomic_file
  persist w = elim (atomic_file m place_policy (marshal w.desired) w) [
    | ok x ↦ ok x
    | err e ↦ err (record e { world = world_of (deny_all e.world) })
  ]

  unfoldable pub install : World → Result Failure World
  unfolding persist deny_all enable
  install w = do w1 ← persist w; w2 ← deny_all w1; enable w2

  -- Apply
  unfoldable pub apply : World → Result Failure World
  unfolding deny_all install
  apply w =
      if not w.has_policy
      then deny_all w
      else check (validate parse_time hash_of w.desired) "invalid policy" w >> install w
