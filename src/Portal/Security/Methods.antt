-- ===== src/Portal/Security/Methods.antt =====
-- internal/portal/security.go: the transactions of the security page that add and remove login
-- methods. Ten secrets for new recovery codes are an argument.
use Prim.Native.String.{String}
use game_server_dashboard.Go.Text.{Text, text_eq}
use game_server_dashboard.Portal.Accounts.Factors.{bumped}
use game_server_dashboard.Portal.Db.{Db, Error, audit, conflict, refused, update_users, write}
use game_server_dashboard.Portal.Rows.{AccountSecurity, Passkey, RecoveryCode, UserRow, item}
use game_server_dashboard.Portal.Security.Codes.{has_totp_of, security_identity}
use game_server_dashboard.Portal.Types.{User}
use game_server_dashboard.Prelude.{
  Bool, List, Result, [], append_row, count_where, delete_where, exists_where, guard, if◌then◌else◌,
  leb, none, not, ok, some, update_where, ℕ, ◌&&◌, ◌+◌, ◌==◌, ◌>>=◌, ◌>>◌, ◌∷◌,
}

abbrev pub security_mutation : ℕ → User → String → Db → Db
security_mutation now u action db =
    audit now u.id action (item "user" u.id)
      (update_users now (λ (x : UserRow). x.id == u.id) bumped db)

-- ensureSecurity
unfoldable pub ensure_security : ℕ → List AccountSecurity → List AccountSecurity
ensure_security user rows =
    if exists_where (λ (s : AccountSecurity). s.user_id == user) rows
    then rows
    else append_row rows (record { user_id = user; totp = none; last_step = 0 })

module _ (hash_token : Text → Text) where
  -- The loop that inserts the codes.
  unfoldable pub insert_codes : ℕ → List Text → List RecoveryCode → Result Error (List RecoveryCode)
  insert_codes user [] rows = ok rows
  insert_codes user (c ∷ cs) rows = do
    guard (not (exists_where (λ (r : RecoveryCode). text_eq r.hash (hash_token c)) rows))
        (refused "UNIQUE constraint failed: recovery_codes.hash")
    insert_codes user cs (append_row rows (record { hash = hash_token c; user_id = user }))

  -- newCodes
  unfoldable pub new_codes : ℕ → List Text → Db → Result Error Db
  unfolding insert_codes
  new_codes user secrets db = do
    rows ←
        insert_codes user secrets
          (delete_where (λ (r : RecoveryCode). r.user_id == user) db.recovery_codes)
    ok (record db { recovery_codes = rows })

  -- "totp-confirm", from the accepted step on; `sealed` is the encrypted key.
  unfoldable pub enroll_totp : ℕ → User → Text → ℕ → List Text → Db → Result Error (Unit {0}) × Db
  unfolding security_identity ensure_security new_codes
  enroll_totp now u sealed step secrets db = write db (do
    security_identity u db
    let db1 = record db {
      account_security =
          update_where (λ (s : AccountSecurity). s.user_id == u.id)
            (λ s. record s { totp = some sealed; last_step = step })
            (ensure_security u.id db.account_security);
    }
    db2 ← new_codes u.id secrets db1
    ok (security_mutation now u "enroll authenticator" db2))

  -- "codes"
  unfoldable pub renew_codes : ℕ → User → List Text → Db → Result Error (Unit {0}) × Db
  unfolding security_identity new_codes
  renew_codes now u secrets db = write db (do
    security_identity u db
    db1 ← new_codes u.id secrets db
    ok (security_mutation now u "regenerate recovery codes" db1))

abbrev pub is_key_of : ℕ → Passkey → Bool
is_key_of user k = k.user_id == user

-- "totp-remove"
unfoldable pub remove_totp : ℕ → User → Db → Result Error (Unit {0}) × Db
unfolding security_identity
remove_totp now u db = write db (do
  security_identity u db
  guard (exists_where (is_key_of u.id) db.passkeys)
      (refused "Add a passkey before removing your authenticator")
  ok (
      security_mutation now u "remove authenticator" (record db {
        account_security =
            update_where (λ (s : AccountSecurity). s.user_id == u.id)
              (λ s. record s { totp = none; last_step = 0 }) db.account_security;
      })))

-- The login methods of a user.
unfoldable pub method_count : ℕ → Db → ℕ
method_count user db =
    count_where (is_key_of user) db.passkeys + count_where (has_totp_of user) db.account_security

abbrev pub is_key : Text → ℕ → Passkey → Bool
is_key id user k = text_eq k.id id && k.user_id == user

-- "key-remove"
unfoldable pub remove_key : ℕ → User → Text → Db → Result Error (Unit {0}) × Db
unfolding security_identity method_count
remove_key now u id db = write db (do
  security_identity u db
  guard (leb 2 (method_count u.id db))
      (refused "Add another login method before removing your last passkey")
  guard (count_where (is_key id u.id) db.passkeys == 1) conflict
  ok (
      security_mutation now u "remove passkey"
        (record db { passkeys = delete_where (is_key id u.id) db.passkeys })))
