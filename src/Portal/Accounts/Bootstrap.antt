-- ===== src/Portal/Accounts/Bootstrap.antt =====
-- internal/portal/auth.go: the administrator that the command line creates or recovers.
use game_server_dashboard.Portal.Accounts.Names.{
  valid_username, password_hash, names_user, new_user,
}
use game_server_dashboard.Portal.Accounts.Factors.{clear_factors, revoke_tokens}
use game_server_dashboard.Prelude.{
  ℕ, ◌+◌, Bool, true, false, not, ◌&&◌, Option, [], ◌==◌, if◌then◌else◌, Result, ok, ◌>>=◌, ◌>>◌,
  guard, require, find_where, count_where, exists_where, append_row,
}
use game_server_dashboard.Go.Text.{Text}
use game_server_dashboard.Portal.Types.{admin, is_admin}
use game_server_dashboard.Portal.Db.{
  is_enabled_admin, Db, Error, refused, write, audit, update_users,
}
use game_server_dashboard.Portal.Rows.{UserRow, item}

module _ (create_hash : Text → Option Text) where
  -- CreateAdmin
  unfoldable pub create_admin : ℕ → Text → Text → Db → Result Error (Unit {0}) × Db
  create_admin now username password db = write db (do
    guard (valid_username username)
        (refused "Username must contain 3–40 letters, digits, dots, hyphens or underscores.")
    h ← password_hash create_hash password
    guard (count_where is_enabled_admin db.users == 0) (
        refused
          "An administrator already exists; use the authenticated member editor or local recovery.")
    guard (not (exists_where (names_user username) db.users))
        (refused "UNIQUE constraint failed: users.username")
    let u = new_user now username [] h admin db
    ok (
        audit now 0 "bootstrap administrator" (item "user" u.id)
          (record db { users = append_row db.users u })))

  -- recoverAccount
  unfoldable pub recover_account : ℕ → Text → Text → Bool → Db → Result Error (Unit {0}) × Db
  recover_account now username password reset_factors db = write db (do
    h ← password_hash create_hash password
    found ←
        require (find_where (λ (u : UserRow). names_user username u && is_admin u.role) db.users)
          (refused "Administrator not found")
    let is_it = λ (u : UserRow). u.id == found.id
    let db1 =
        update_users now is_it
          (λ u. record u { password = h; enabled = true; generation = u.generation + 1 }) db
    let db2 = record db1 { tokens = revoke_tokens now found.id db1.tokens }
    let db3 =
        if reset_factors
        then update_users now is_it (λ u. record u { enrollment_locked = false })
            (clear_factors now found.id db2)
        else db2
    ok (audit now 0 "local administrator recovery" (item "user" found.id) db3))
