-- ===== src/Portal/Admin/Cuts.antt =====
-- What disabling a member in internal/portal/admin.go cuts off.
use game_server_dashboard.Go.Time.{is_unset}
use game_server_dashboard.Portal.Accounts.Factors.{revoke_tokens}
use game_server_dashboard.Portal.Admin.Members.{
  cut_access, cut_network, disable_effects, is_active_of, save_member, set_role,
}
use game_server_dashboard.Portal.Admin.Usable.{cut_notices-SameTables, save_member_outcome}
use game_server_dashboard.Portal.Db.{Db, audit}
use game_server_dashboard.Portal.Rows.{Token}
use game_server_dashboard.Portal.Types.{Access, Role, User}
use game_server_dashboard.Portal.VpnTypes.{Device, is_revoked_device}
use game_server_dashboard.Prelude.{
  All, Bool, Option, arith, false, inr, ok, refl, true, update_where-All, ℕ, ◌==◌, ◌≡◌, ◌⊎◌,
}

-- An access record that is not one of the member's in force.
abbrev pub IsNoAccess : ℕ → Access → Type 0
IsNoAccess user a = is_active_of user a ≡ false

-- A device that is not one of the member's or is revoked.
abbrev pub IsNoDevice : ℕ → Device → Type 0
IsNoDevice user d = ((d.user_id == user) ≡ false) ⊎ (is_revoked_device d.state ≡ true)

abbrev pub IsNoLink : ℕ → Token → Type 0
IsNoLink user t = ((t.user_id == user) ≡ false) ⊎ (is_unset t.consumed ≡ false)

disabled_devices :
    (now actor user : ℕ) (db : Db)
    → All (IsNoDevice user) (disable_effects now actor user db).vpn_devices
unfolding disable_effects cut_access cut_network
disabled_devices now actor user db =
    rw
      ((cut_notices-SameTables now user (cut_network now actor user db).vpn_devices
        (cut_network now actor user db)).vpn_devices)
      (update_where-All (IsNoDevice user) _ _ db.vpn_devices (λ d h. inr refl)
        (λ d h. ground arith))

disabled_access :
    (now actor user : ℕ) (db : Db)
    → All (IsNoAccess user) (disable_effects now actor user db).access_records
unfolding disable_effects cut_access
disabled_access now actor user db =
    update_where-All (IsNoAccess user) _ _ _ (λ a h. ground arith) (λ a h. h)

disabled_links :
    (now actor user : ℕ) (db : Db) → All (IsNoLink user) (disable_effects now actor user db).tokens
unfolding disable_effects cut_access revoke_tokens
disabled_links now actor user db =
    update_where-All (IsNoLink user) _ _ _ (λ t h. inr refl) (λ t h. ground arith)

-- Once a member has been disabled, no access record of the member is in force, every device of the
-- member is revoked and every link for the member is used up.
pub save_member_cuts :
    (now : ℕ) (u : User) (id : ℕ) (chosen : Option Role) (confirmed : Bool) (db : Db) {db' : Db}
    → save_member now u id chosen false confirmed db ≡ (ok tt, db')
    → All (IsNoAccess id) db'.access_records
      × All (IsNoDevice id) db'.vpn_devices
      × All (IsNoLink id) db'.tokens
unfolding audit
save_member_cuts now u id chosen confirmed db {db'} e =
    let (role, _, checked, done) = save_member_outcome now u id chosen false confirmed db e in
    rw done (
      disabled_access now u.id id (set_role now id role false db),
      disabled_devices now u.id id (set_role now id role false db),
      disabled_links now u.id id (set_role now id role false db),
    )
