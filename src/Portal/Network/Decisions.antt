-- ===== src/Portal/Network/Decisions.antt =====
-- internal/portal/vpn.go: `DecideNetwork`. `parse_day` stands for time.Parse of a date.
use Prim.Native.String.{String}
use game_server_dashboard.Go.Text.{Text, trim_space}
use game_server_dashboard.Go.Time.{Stamp, at, day, unset, upcoming}
use game_server_dashboard.Portal.Db.{Db, Error, audit, insert_notification, refused, write}
use game_server_dashboard.Portal.Devices.{is_device}
use game_server_dashboard.Portal.Network.Requests.{vpn_history_entry}
use game_server_dashboard.Portal.Rows.{UserRow, item}
use game_server_dashboard.Portal.Types.{ServiceRow, User, is_admin}
use game_server_dashboard.Portal.VpnTypes.{
  Device, DeviceState, GrantState, NetworkGrant, NetworkTarget, is_approved_grant,
  is_revoked_device,
}
use game_server_dashboard.Prelude.{
  Bool, List, Option, Result, [], count_where, false, find_where, guard, if◌then◌else◌, leb, length,
  ltb, not, ok, require, true, update_where, ℕ, ◌&&◌, ◌*◌, ◌+◌, ◌==◌, ◌>>=◌, ◌>>◌,
}
use game_server_dashboard.Vpn.Destination.{destination}

-- "Approved", "Denied", "Revoked"
pub data Decision : Type 0 where
  approve deny revoke : Decision

abbrev pub is_approve : Decision → Bool
is_approve approve = true
is_approve _ = false

abbrev pub decided_state : Decision → GrantState
decided_state approve = GrantState.approved
decided_state deny = GrantState.denied
decided_state revoke = GrantState.revoked

abbrev pub decide_action : Decision → String
decide_action approve = "vpn.network.approved"
decide_action deny = "vpn.network.denied"
decide_action revoke = "vpn.network.revoked"

-- The moves from a state.
unfoldable pub is_legal_decision : GrantState → Decision → Bool
is_legal_decision GrantState.pending approve = true
is_legal_decision GrantState.pending deny = true
is_legal_decision GrantState.approved revoke = true
is_legal_decision _ _ = false

abbrev pub year : ℕ
year = 365 * day

module _ (parse_day : Text → Option ℕ) where
  -- The expiry of an approval; the time is that of the call, in seconds.
  unfoldable pub decision_expiry : ℕ → Decision → Text → Bool → Result Error Stamp
  decision_expiry now decision expiry confirmed =
      if is_approve decision
      then (do
        t ← require (parse_day expiry) (
            refused
              "Confirm device and route approval and choose an expiry within one year (00:00 UTC)")
        guard (ltb now t && leb t (now + year) && confirmed) (
            refused
              "Confirm device and route approval and choose an expiry within one year (00:00 UTC)")
        ok (at t))
      else ok unset

-- The rows of the query's joins.
pub record Case : Type 0 where
  pub grant : NetworkGrant
  pub device : Device
  pub user : UserRow
  pub target : NetworkTarget
  pub service : ServiceRow

unfoldable pub find_case : ℕ → ℕ → Db → Result Error Case
find_case id version db = do
  g ←
      require (find_where (λ (g : NetworkGrant). g.id == id && g.version == version) db.vpn_grants)
        (refused "Request changed; reload before deciding")
  d ←
      require (find_where (λ (d : Device). d.id == g.device_id) db.vpn_devices)
        (refused "Request changed; reload before deciding")
  u ←
      require (find_where (λ (u : UserRow). u.id == d.user_id) db.users)
        (refused "Request changed; reload before deciding")
  t ←
      require (find_where (λ (t : NetworkTarget). t.id == g.target_id) db.vpn_targets)
        (refused "Request changed; reload before deciding")
  s ←
      require (find_where (λ (s : ServiceRow). s.id == t.service_id) db.services)
        (refused "Request changed; reload before deciding")
  ok (record { grant = g; device = d; user = u; target = t; service = s })

abbrev pub is_active_grant : ℕ → NetworkGrant → Bool
is_active_grant now g = is_approved_grant g.state && upcoming g.expires now

unfoldable pub approval_checks : ℕ → ℕ → Case → Db → Result Error (Unit {0})
approval_checks now target_version c db = do
  guard (ltb (count_where (is_active_grant now) db.vpn_grants) 1024)
      (refused "Gateway policy limit reached (1024 active grants)")
  guard (c.target.version == target_version)
      (refused "Destination changed since review; reload before approving")
  guard
      (c.user.enabled
        && c.service.published
        && not c.service.archived
        && c.target.enabled
        && not (is_revoked_device c.device.state))
      (refused "Member, device or destination unavailable")
  guard (destination c.target.cidr c.target.protocol c.target.ports) (refused "invalid destination")

-- The UPDATE of the grant: an approval keeps the route of the target as it was decided on, any other
-- decision clears it.
unfoldable pub decided_grants :
    ℕ → ℕ → Decision → NetworkTarget → Stamp → Text → List NetworkGrant → List NetworkGrant
decided_grants id version decision target expiry explanation grants =
    update_where (λ (g : NetworkGrant). g.id == id && g.version == version)
      (λ g. record g {
        state = decided_state decision;
        cidr = if is_approve decision then target.cidr else [];
        protocol = if is_approve decision then target.protocol else [];
        ports = if is_approve decision then target.ports else [];
        expires = expiry;
        explanation = explanation;
        version = g.version + 1;
      })
      grants

unfoldable pub decision_writes : ℕ → User → ℕ → ℕ → Decision → Case → Stamp → Text → Db → Db
unfolding vpn_history_entry
decision_writes now u id version decision c expiry explanation db =
    let db1 : Db =
      if is_approve decision
      then record db {
        vpn_devices =
            update_where (is_device c.device.id)
              (λ d. record d { state = DeviceState.approved; version = d.version + 1 })
              db.vpn_devices;
      }
      else vpn_history_entry now u.id id db in
    let db2 = record db1 {
      vpn_grants = decided_grants id version decision c.target expiry explanation db1.vpn_grants;
    } in
    let db3 = vpn_history_entry now u.id id db2 in
    let db4 =
      insert_notification now c.device.user_id 0 0 c.device.id
        "Your device network request was updated. Open My Devices for details." db3 in
    audit now u.id (decide_action decision) (item "network-request" id) db4

unfoldable pub decide_tx : ℕ → User → ℕ → ℕ → ℕ → Decision → Stamp → Text → Db → Result Error Db
decide_tx now u id version target_version decision expiry explanation db = do
  c ← find_case id version db
  guard (is_legal_decision c.grant.state decision) (refused "Illegal network request transition")
  (if is_approve decision then approval_checks now target_version c db else ok tt)
  ok (decision_writes now u id version decision c expiry explanation db)

module _ (parse_day : Text → Option ℕ) where
  -- DecideNetwork; `decision` is `none` for a text that is none of the three.
  unfoldable pub decide_network :
      ℕ
      → User
      → ℕ
      → ℕ
      → ℕ
      → Option Decision
      → Text
      → Text
      → Bool
      → Db
      → Result Error (Unit {0}) × Db
  decide_network now u id version target_version decision expiry explanation confirmed db =
      write db (do
        guard (is_admin u.role) (refused "Administrator required")
        decision ← require decision (refused "Invalid decision")
        let explanation' = trim_space explanation
        guard (leb 3 (length explanation') && leb (length explanation') 2000)
            (refused "Provide a non-secret explanation (3–2000 characters)")
        expiry' ← decision_expiry parse_day now decision expiry confirmed
        decide_tx now u id version target_version decision expiry' explanation' db)
