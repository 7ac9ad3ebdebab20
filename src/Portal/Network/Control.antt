-- ===== src/Portal/Network/Control.antt =====
-- internal/portal/vpn.go: `VPNSnapshot` as the gateway receives it, and `VPNControlHandler`, which
-- serves the policy and takes its acknowledgment. `parse_time`, `stamp` and `hash_of` are as in the
-- policy, and the JSON decoder's result is an argument.
use game_server_dashboard.Go.Text.{Text, text, text_eq}
use game_server_dashboard.Go.Time.{Stamp, at}
use game_server_dashboard.Portal.Db.{Db, audit, insert_notification}
use game_server_dashboard.Portal.Devices.{snapshot_peers}
use game_server_dashboard.Portal.Rows.{UserRow, policy}
use game_server_dashboard.Portal.VpnTypes.{Device, NetworkGrant}
use game_server_dashboard.Prelude.{
  Bool, List, Option, [], exists_where, if◌then◌else◌, none, not, some, ℕ, ◌&&◌, ◌++◌, ◌==◌, ◌||◌,
  ◌∷◌,
}
use game_server_dashboard.Vpn.Destination.{key}
use game_server_dashboard.Vpn.Endpoint.{endpoint}
use game_server_dashboard.Vpn.Policy.{Ack, Peer, Snapshot}
use game_server_dashboard.Vpn.Validity.{validate}

-- What the gateway's request names.
pub data Endpoint : Type 0 where
  get_policy post_applied unknown_path : Endpoint

-- The status, and the policy where the body holds one.
pub record Reply : Type 0 where
  pub status : ℕ
  pub body : Option Snapshot

abbrev pub plain_reply : ℕ → Reply
plain_reply n = record { status = n; body = none }

-- The notice to the owners of the devices that have a request.
unfoldable pub applied_notices : ℕ → Db → List Device → Db → Db
applied_notices now db0 [] db = db
applied_notices now db0 (d ∷ ds) db = applied_notices now db0 ds (
    if exists_where (λ (u : UserRow). u.id == d.user_id && u.enabled) db0.users
      && exists_where (λ (g : NetworkGrant). g.device_id == d.id) db0.vpn_grants
    then insert_notification now d.user_id 0 0 d.id
        "The gateway confirmed the current network policy. Review My Devices." db
    else db)

unfoldable pub record_applied : ℕ → Ack → Db → Db
unfolding applied_notices
record_applied now ack db =
    let db1 : Db =
      if text_eq db.vpn_status.revision ack.revision
      then db
      else audit now 0 "vpn.gateway.applied" (policy ack.revision)
          (applied_notices now db db.vpn_devices db) in
    record db1 {
      vpn_status = record { revision = ack.revision; public_key = ack.public_key; seen = at now };
    }

module _ (parse_time : Text → Option ℕ) (stamp : Stamp → Text) (hash_of : List Peer → Text) where
  -- vpnSnapshot, `none` where `Validate` refuses it.
  unfoldable pub vpn_snapshot : Db → ℕ → Option Snapshot
  vpn_snapshot db now =
      let peers = snapshot_peers stamp db now in
      let s : Snapshot = record { revision = hash_of peers; peers = peers } in
      if validate parse_time hash_of s then some s else none

  unfoldable pub take_ack : ℕ → Option Ack → Db → Reply × Db
  unfolding vpn_snapshot record_applied
  take_ack now none db = (plain_reply 400, db)
  take_ack now (some ack) db =
      if not (key ack.public_key) then (plain_reply 400, db) else elim (vpn_snapshot db now) [
        | none ↦ (plain_reply 409, db)
        | some s ↦
            if text_eq s.revision ack.revision
            then (plain_reply 204, record_applied now ack db)
            else (plain_reply 409, db)
      ]

  unfoldable pub give_policy : ℕ → Db → Reply
  unfolding vpn_snapshot
  give_policy now db = elim (vpn_snapshot db now) [
    | none ↦ plain_reply 503
    | some s ↦ record { status = 200; body = some s }
  ]

  -- VPNControlHandler
  unfoldable pub control : Bool → Text → Text → Endpoint → Option Ack → ℕ → Db → Reply × Db
  unfolding take_ack give_policy
  control enabled token authorization endpoint ack now db =
      if not enabled || not (text_eq authorization (text "Bearer " ++ token))
      then (plain_reply 401, db)
      else elim endpoint [
        | get_policy ↦ (give_policy now db, db)
        | post_applied ↦ take_ack now ack db
        | unknown_path ↦ (plain_reply 404, db)
      ]
