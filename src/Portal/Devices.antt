-- ===== src/Portal/Devices.antt =====
-- internal/portal/vpn.go: the network policy that the database stands for, the revocation of a
-- device and the expiry of network grants. A table keeps its rows in the order of their ids, so
-- the ORDER BY of the policy query is the order of the tables.
pub mod Revocation
pub mod Expiry
use mathlib.Core.List.{reverse}
use game_server_dashboard.Vpn.Policy.{Rule, Peer}
use game_server_dashboard.Prelude.{
  ℕ, ◌+◌, Bool, not, ◌&&◌, ◌||◌, none, List, [], ◌∷◌, ◌++◌, ◌==◌, if◌then◌else◌, Result, ok, ◌>>=◌,
  ◌>>◌, guard, require, find_where, update_where, exists_where, append_row,
}
use game_server_dashboard.Go.Text.{Text, text}
use game_server_dashboard.Go.Time.{Stamp, upcoming}
use game_server_dashboard.Portal.Types.{is_admin, User, service, ServiceRow, revoked}
use game_server_dashboard.Portal.VpnTypes.{
  DeviceState, is_approved_device, is_revoked_device, Device, NetworkTarget, GrantState,
  is_approved_grant, is_live_grant, NetworkGrant, Delivery, VpnHistory,
}
use game_server_dashboard.Portal.Db.{Db, Error, refused, write, audit, insert_notification}
use game_server_dashboard.Portal.Rows.{UserRow, item}

abbrev pub is_device : ℕ → Device → Bool
is_device id d = d.id == id

-- The conditions of the query on the device and its user.
unfoldable pub device_in_force : Db → Device → Bool
device_in_force db d =
    is_approved_device d.state
    && exists_where (λ (u : UserRow). u.id == d.user_id && u.enabled) db.users

-- Those on the grant, its target and the target's service.
unfoldable pub target_open : Db → ℕ → Bool
target_open db id =
    exists_where
      (λ (t : NetworkTarget).
        t.id == id
        && t.enabled
        && exists_where (λ (s : ServiceRow). s.id == t.service_id && s.published && not s.archived)
            db.services)
      db.vpn_targets

unfoldable pub grant_in_force : Db → ℕ → ℕ → NetworkGrant → Bool
grant_in_force db now device g =
    g.device_id == device
    && is_approved_grant g.state
    && upcoming g.expires now
    && target_open db g.target_id

-- `stamp` stands for the text of a stored time.
module _ (stamp : Stamp → Text) where
  unfoldable pub rule_of : NetworkGrant → Rule
  rule_of g = record {
    id = g.id;
    cidr = g.cidr;
    protocol = g.protocol;
    ports = g.ports;
    expires = stamp g.expires;
  }

  -- The rows of the query for one device.
  unfoldable pub device_rows : Db → ℕ → Device → List NetworkGrant → List (Device × Rule)
  unfolding rule_of
  device_rows db now d [] = []
  device_rows db now d (g ∷ gs) =
      let rest = device_rows db now d gs in
      if grant_in_force db now d.id g then (d, rule_of g) ∷ rest else rest

  unfoldable pub policy_rows : Db → ℕ → List Device → List (Device × Rule)
  unfolding device_rows
  policy_rows db now [] = []
  policy_rows db now (d ∷ ds) =
      let rest = policy_rows db now ds in
      if device_in_force db d then device_rows db now d db.vpn_grants ++ rest else rest

-- One round of the loop over the rows; the peers so far stand last first.
unfoldable pub add_row : List Peer → Device × Rule → List Peer
add_row [] (d, r) =
    record { id = d.id; public_key = d.public_key; address = d.address; rules = r ∷ [] } ∷ []
add_row (p ∷ ps) (d, r) =
    if p.id == d.id
    then record p { rules = append_row p.rules r } ∷ ps
    else record { id = d.id; public_key = d.public_key; address = d.address; rules = r ∷ [] }
      ∷ p
      ∷ ps

unfoldable pub group_rows : List Peer → List (Device × Rule) → List Peer
group_rows ps [] = ps
group_rows ps (x ∷ xs) = group_rows (add_row ps x) xs

-- The peers of `vpnSnapshot`.
unfoldable pub snapshot_peers : (Stamp → Text) → Db → ℕ → List Peer
snapshot_peers stamp db now = reverse (group_rows [] (policy_rows stamp db now db.vpn_devices))

unfoldable pub revoke_grants : ℕ → Text → List NetworkGrant → List NetworkGrant
revoke_grants device explanation grants =
    update_where (λ (g : NetworkGrant). g.device_id == device && is_live_grant g.state)
      (λ g. record g {
        state = GrantState.revoked;
        explanation = explanation;
        version = g.version + 1;
      })
      grants

-- The history rows of the live grants of a device.
unfoldable pub revoked_history : ℕ → ℕ → ℕ → List NetworkGrant → List VpnHistory
revoked_history now actor device [] = []
revoked_history now actor device (g ∷ gs) =
    let rest = revoked_history now actor device gs in
    if g.device_id == device && is_live_grant g.state
    then record {
      grant_id = g.id;
      actor_id = actor;
      state = GrantState.revoked;
      cidr = g.cidr;
      protocol = g.protocol;
      ports = g.ports;
      expires = g.expires;
      created = now;
    }
      ∷ rest
    else rest

unfoldable pub revoke_checks : User → ℕ → ℕ → Db → Result Error Device
revoke_checks u id version db = do
  d ←
      require (find_where (λ (d : Device). d.id == id && d.version == version) db.vpn_devices)
        (refused "Device unavailable or changed; reload")
  guard (not (is_revoked_device d.state) && (is_admin u.role || d.user_id == u.id))
      (refused "Device unavailable or changed; reload")
  ok d

unfoldable pub revoke_writes : ℕ → User → ℕ → Db → Db
revoke_writes now u id db = record db {
  vpn_devices =
      update_where (is_device id)
        (λ x. record x { state = DeviceState.revoked; version = x.version + 1 }) db.vpn_devices;
  vpn_history = db.vpn_history ++ revoked_history now u.id id db.vpn_grants;
  vpn_grants = revoke_grants id (text "Device revoked.") db.vpn_grants;
  vpn_deliveries =
      update_where (λ (p : Delivery). p.device_id == id) (λ p. record p { encrypted_key = none })
        db.vpn_deliveries;
}

unfoldable pub revoke_notices : ℕ → User → ℕ → Device → Db → Db
revoke_notices now u id d db = audit now u.id "vpn.device.revoke" (item "device" id) (
    insert_notification now d.user_id 0 0 id
      "Device revocation requested. My Devices shows gateway confirmation." db)

-- RevokeDevice
unfoldable pub revoke_device : ℕ → User → ℕ → ℕ → Db → Result Error (Unit {0}) × Db
revoke_device now u id version db = write db (do
  d ← revoke_checks u id version db
  ok (revoke_notices now u id d (revoke_writes now u id db)))
