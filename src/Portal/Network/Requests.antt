-- ===== src/Portal/Network/Requests.antt =====
-- internal/portal/vpn.go: `RequestNetwork`.
use game_server_dashboard.Go.Text.{Text, trim_space}
use game_server_dashboard.Go.Time.{unset}
use game_server_dashboard.Portal.Db.{
  Db, Error, audit, insert_notifications, is_enabled_admin, refused, write,
}
use game_server_dashboard.Portal.Devices.Expiry.{expire_vpn}
use game_server_dashboard.Portal.Policy.Audiences.{discover, find_service}
use game_server_dashboard.Portal.Rows.{UserRow, item}
use game_server_dashboard.Portal.Types.{ServiceRow, User}
use game_server_dashboard.Portal.VpnTypes.{
  Device, GrantState, NetworkGrant, NetworkTarget, is_live_grant, is_revoked_device,
}
use game_server_dashboard.Prelude.{
  Bool, List, Result, [], append_row, count_where, exists_where, find_where, guard, leb, length,
  next_id, none, not, ok, require, some, ℕ, ◌&&◌, ◌==◌, ◌>>=◌, ◌>>◌,
}

-- vpnHistory: a copy of the grant as it is now.
unfoldable pub vpn_history_entry : ℕ → ℕ → ℕ → Db → Db
vpn_history_entry now actor id db =
    elim (find_where (λ (g : NetworkGrant). g.id == id) db.vpn_grants) [
      | none ↦ db
      | some g ↦ record db {
        vpn_history = append_row db.vpn_history (record {
          grant_id = id;
          actor_id = actor;
          state = g.state;
          cidr = g.cidr;
          protocol = g.protocol;
          ports = g.ports;
          expires = g.expires;
          created = now;
        });
      }
    ]

unfoldable pub new_grant : ℕ → ℕ → ℕ → Text → Text → Text → List NetworkGrant → NetworkGrant
new_grant now device target reason label svc_name grants = record {
  id = next_id (λ (g : NetworkGrant). g.id) grants;
  device_id = device;
  target_id = target;
  state = GrantState.pending;
  reason = reason;
  target_label = label;
  service_name = svc_name;
  explanation = [];
  cidr = [];
  protocol = [];
  ports = [];
  expires = unset;
  created = now;
  version = 1;
}

-- The unique index vpn_active_grant.
abbrev pub is_live_for_target : ℕ → ℕ → NetworkGrant → Bool
is_live_for_target device target g =
    g.device_id == device && g.target_id == target && is_live_grant g.state

-- The offering and its service, as the caller reads them before the transaction.
unfoldable pub offering : User → ℕ → ℕ → Db → Result Error (NetworkTarget × ServiceRow)
offering u now target seen = do
  t ←
      require
        (find_where
          (λ (t : NetworkTarget).
            t.id == target && exists_where (λ (s : ServiceRow). s.id == t.service_id) seen.services)
          seen.vpn_targets)
        (refused "Network offering unavailable")
  guard t.enabled (refused "Network offering unavailable")
  s ← require (find_service t.service_id seen) (refused "Network offering unavailable")
  guard (discover seen now (some u) (some s)) (refused "Network offering unavailable")
  ok (t, s)

abbrev pub owns_device : Db → ℕ → ℕ → Device → Bool
owns_device db user id d =
    d.id == id
    && d.user_id == user
    && not (is_revoked_device d.state)
    && exists_where (λ (x : UserRow). x.id == d.user_id && x.enabled) db.users

unfoldable pub request_network_tx : ℕ → User → ℕ → ℕ → Text → Text → Text → Db → Result Error Db
unfolding vpn_history_entry
request_network_tx now u device target reason label svc_name db0 = do
  guard (count_where (owns_device db0 u.id device) db0.vpn_devices == 1)
      (refused "Device unavailable")
  let db = expire_vpn now db0
  guard (not (exists_where (is_live_for_target device target) db.vpn_grants))
      (refused "There is already a pending or approved request for this device and destination")
  let g = new_grant now device target reason label svc_name db.vpn_grants
  let db1 = record db { vpn_grants = append_row db.vpn_grants g }
  let db2 =
      insert_notifications now is_enabled_admin 0 0 device "A device network request needs review."
        db1.users db1
  let db3 = vpn_history_entry now u.id g.id db2
  ok (audit now u.id "vpn.network.request" (item "network-request" g.id) db3)

-- RequestNetwork
unfoldable pub request_network : ℕ → User → ℕ → ℕ → Text → Db → Db → Result Error (Unit {0}) × Db
unfolding offering
request_network now u device target reason seen db = write db (do
  let reason' = trim_space reason
  guard (leb 3 (length reason') && leb (length reason') 2000)
      (refused "Explain the intended use in 3–2000 characters; omit secrets")
  chosen ← offering u now target seen
  request_network_tx now u device target reason' chosen.0.label chosen.1.name db)
