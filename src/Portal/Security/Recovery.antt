-- ===== src/Portal/Security/Recovery.antt =====
-- internal/portal/security.go: `recoveryLogin`, up to the session that it leaves pending.
use Prim.Native.Char.{code}
use game_server_dashboard.Go.Text.{Text, text_eq, trim_space}
use game_server_dashboard.Portal.Accounts.Factors.{clear_factors}
use game_server_dashboard.Portal.Accounts.Names.{names_user}
use game_server_dashboard.Portal.Db.{Db, Error, audit, conflict, find_user, refused}
use game_server_dashboard.Portal.Rows.{RecoveryCode, UserRow, item}
use game_server_dashboard.Portal.Types.{User}
use game_server_dashboard.Prelude.{
  List, Option, Result, [], err, find_where, guard, if◌then◌else◌, none, ok, require, some, ℕ, ◌&&◌,
  ◌+◌, ◌==◌, ◌>>=◌, ◌>>◌, ◌∷◌,
}

module _ (hash_token : Text → Text) where
  -- The row of the join: a code of an enabled user of that name.
  unfoldable pub find_code : Text → Text → Db → List RecoveryCode → Option UserRow
  find_code username code db [] = none
  find_code username code db (c ∷ cs) =
      let rest = find_code username code db cs in
      if text_eq c.hash (hash_token (trim_space code))
      then elim (find_where
          (λ (u : UserRow). u.id == c.user_id && names_user (trim_space username) u && u.enabled)
          db.users) [ some u ↦ some u | none ↦ rest ]
      else rest

  unfoldable pub recovery_tx : ℕ → Text → Text → Db → Result Error (UserRow × Db)
  unfolding find_code
  recovery_tx now username code db = do
    u ← require (find_code username code db db.recovery_codes) (refused "Invalid recovery details")
    ok (
      u,
      audit now u.id "recovery code used; factors reset" (item "user" u.id)
          (clear_factors now u.id db),
    )

  -- recoveryLogin: the user whose sign-in is pending, with the generation that the reset left.
  unfoldable pub recovery_login : ℕ → Text → Text → Db → Result Error User × Db
  unfolding recovery_tx
  recovery_login now username code db = elim (recovery_tx now username code db) [
    | err e ↦ (err e, db)
    | ok (old, db') ↦ (
      (do
        u ← require (find_user old.id db') conflict
        guard (u.enabled && u.generation == old.generation + 1) conflict
        ok u),
      db',
    )
  ]
