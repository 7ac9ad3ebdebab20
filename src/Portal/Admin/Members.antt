-- ===== src/Portal/Admin/Members.antt =====
-- internal/portal/admin.go: `saveMember`, which changes a member's role or disables the account.
use game_server_dashboard.Go.Text.{text}
use game_server_dashboard.Portal.Accounts.Factors.{revoke_tokens}
use game_server_dashboard.Portal.Admin.Followups.{add_followups}
use game_server_dashboard.Portal.Db.{
  Db, Error, audit, insert_notifications, is_enabled_admin, refused, update_users, write,
}
use game_server_dashboard.Portal.Rows.{AccessHistory, UserRow, item}
use game_server_dashboard.Portal.Types.{Access, Role, User, is_active, is_admin, revoked}
use game_server_dashboard.Portal.VpnTypes.{
  Delivery, Device, DeviceState, GrantState, NetworkGrant, VpnHistory, is_live_grant,
  is_revoked_device,
}
use game_server_dashboard.Prelude.{
  Bool, List, Option, Result, [], count_where, exists_where, find_where, guard, if◌then◌else◌, ltb,
  none, not, ok, require, update_where, ℕ, ◌&&◌, ◌++◌, ◌+◌, ◌==◌, ◌>>=◌, ◌>>◌, ◌||◌, ◌∷◌,
}

-- A device of the member.
abbrev pub owns_any : Db → ℕ → ℕ → Bool
owns_any db user device =
    exists_where (λ (d : Device). d.id == device && d.user_id == user) db.vpn_devices

abbrev pub is_member_grant : Db → ℕ → NetworkGrant → Bool
is_member_grant db user g = owns_any db user g.device_id && is_live_grant g.state

-- The history rows of the live grants of a member's devices.
unfoldable pub member_history : ℕ → ℕ → ℕ → Db → List NetworkGrant → List VpnHistory
member_history now actor user db [] = []
member_history now actor user db (g ∷ gs) =
    let rest = member_history now actor user db gs in
    if is_member_grant db user g
    then record {
      grant_id = g.id;
      actor_id = actor;
      state = GrantState.revoked;
      cidr = g.cidr;
      protocol = g.protocol;
      ports = g.ports;
      expires = g.expires;
      created = now;
    }
      ∷ rest
    else rest

-- The member's network side: keys erased, grants and devices revoked.
unfoldable pub cut_network : ℕ → ℕ → ℕ → Db → Db
unfolding member_history
cut_network now actor user db = record db {
  vpn_deliveries =
      update_where (λ (p : Delivery). owns_any db user p.device_id)
        (λ p. record p { encrypted_key = none }) db.vpn_deliveries;
  vpn_history = db.vpn_history ++ member_history now actor user db db.vpn_grants;
  vpn_grants =
      update_where (is_member_grant db user)
        (λ g. record g {
          state = GrantState.revoked;
          explanation = text "Member disabled.";
          version = g.version + 1;
        })
        db.vpn_grants;
  vpn_devices =
      update_where (λ (d : Device). d.user_id == user && not (is_revoked_device d.state))
        (λ d. record d { state = DeviceState.revoked; version = d.version + 1 }) db.vpn_devices;
}

-- A notice to each enabled administrator for each device of the member.
unfoldable pub cut_notices : ℕ → ℕ → List Device → Db → Db
cut_notices now user [] db = db
cut_notices now user (d ∷ ds) db = cut_notices now user ds (
    if d.user_id == user
    then insert_notifications now is_enabled_admin 0 0 d.id
        "Disabled member: device revocation awaits gateway confirmation." db.users db
    else db)

abbrev pub is_active_of : ℕ → Access → Bool
is_active_of user a = a.user_id == user && is_active a.state

unfoldable pub cut_access_history : ℕ → ℕ → ℕ → List Access → List AccessHistory
cut_access_history now actor user [] = []
cut_access_history now actor user (a ∷ more) =
    let rest = cut_access_history now actor user more in
    if is_active_of user a
    then record {
      access_id = a.id;
      actor_id = actor;
      state = revoked;
      granted = a.granted;
      expires = a.expires;
      created = now;
    }
      ∷ rest
    else rest

-- The member's portal side: links retired, access records revoked with a reminder for each.
unfoldable pub cut_access : ℕ → ℕ → ℕ → Db → Db
unfolding cut_access_history
cut_access now actor user db = record db {
  tokens = revoke_tokens now user db.tokens;
  followups =
      add_followups now (is_active_of user) "Member disabled; remove external permissions manually."
        db.access_records db.followups;
  access_history = db.access_history ++ cut_access_history now actor user db.access_records;
  access_records =
      update_where (is_active_of user) (λ a. record a { state = revoked; version = a.version + 1 })
        db.access_records;
}

unfoldable pub disable_effects : ℕ → ℕ → ℕ → Db → Db
unfolding cut_network cut_notices cut_access
disable_effects now actor user db =
    let db1 = cut_network now actor user db in
    cut_access now actor user (cut_notices now user db1.vpn_devices db1)

-- The last usable administrator stays.
unfoldable pub member_checks : ℕ → Role → Bool → Db → Result Error (Unit {0})
member_checks id role enabled db = do
  old ← require (find_where (λ (x : UserRow). x.id == id) db.users) (refused "no such member")
  guard
      (not (is_enabled_admin old && (not enabled || not (is_admin role)))
        || ltb 1 (count_where is_enabled_admin db.users))
      (refused "The last usable administrator cannot be disabled or demoted.")

unfoldable pub set_role : ℕ → ℕ → Role → Bool → Db → Db
set_role now id role enabled db =
    update_users now (λ (x : UserRow). x.id == id)
      (λ x. record x { role = role; enabled = enabled; generation = x.generation + 1 }) db

-- saveMember
unfoldable pub save_member :
    ℕ → User → ℕ → Option Role → Bool → Bool → Db → Result Error (Unit {0}) × Db
unfolding member_checks set_role
save_member now u id role enabled confirmed db = write db (do
  role ← require role (refused "Invalid role")
  guard (enabled && is_admin role || confirmed) (refused "Confirm member permission changes")
  member_checks id role enabled db
  let db1 = set_role now id role enabled db
  let db2 = if enabled then db1 else disable_effects now u.id id db1
  ok (audit now u.id "member role/status change" (item "user" id) db2))
