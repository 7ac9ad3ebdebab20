-- ===== src/Portal/Security/Codes.antt =====
-- internal/portal/security.go: `validStep` and `checkTOTP`. A step is counted from 1, since the
-- column `last_step` has -1 for none; `valid` is the library's test of a code for a key at a step,
-- `unseal` the decryption for a purpose.
-- securityIdentity
use Prim.Native.Char.{code}
use game_server_dashboard.Go.Text.{Text}
use game_server_dashboard.Portal.Db.{Db, Error, conflict, refused, write}
use game_server_dashboard.Portal.Rows.{AccountSecurity, UserRow}
use game_server_dashboard.Portal.Types.{User}
use game_server_dashboard.Prelude.{
  Bool, Option, Result, exists_where, false, find_where, guard, if◌then◌else◌, ltb, none, not, ok,
  require, some, true, update_where, ℕ, ◌&&◌, ◌+◌, ◌/◌, ◌==◌, ◌>>=◌, ◌>>◌,
}

unfoldable pub security_identity : User → Db → Result Error (Unit {0})
security_identity u db =
    guard
      (exists_where (λ (x : UserRow). x.id == u.id && x.enabled && x.generation == u.generation)
        db.users)
      conflict

-- int64 of the seconds by 30, counted from 1.
abbrev pub step_at : ℕ → ℕ
step_at now = now / 30 + 1

-- One round of the loop over the offsets.
abbrev pub is_good_step : (Text → Text → ℕ → Bool) → Text → Text → ℕ → ℕ → Bool
is_good_step valid private code last step = ltb last step && valid private code step

-- validStep: the offsets 0, -1 and 1 in this order.
unfoldable pub valid_step : (Text → Text → ℕ → Bool) → ℕ → Text → Text → ℕ → Option ℕ
valid_step valid now private code last =
    if is_good_step valid private code last (step_at now)
    then some (step_at now)
    else if is_good_step valid private code last (now / 30)
    then some (now / 30)
    else if is_good_step valid private code last (step_at now + 1)
    then some (step_at now + 1)
    else none

abbrev pub has_totp_of : ℕ → AccountSecurity → Bool
has_totp_of user s = s.user_id == user && not (is_none s.totp)
  where
    is_none : Option Text → Bool
    is_none none = true
    is_none (some _) = false

-- checkTOTP
unfoldable pub check_totp :
    (Text → Text → ℕ → Bool)
    → (ℕ → Text → Option Text)
    → ℕ
    → User
    → Text
    → Db
    → Result Error (Unit {0}) × Db
unfolding security_identity valid_step
check_totp valid unseal now u code db = write db (do
  security_identity u db
  s ←
      require (find_where (has_totp_of u.id) db.account_security)
        (refused "Invalid authenticator code")
  sealed ← require s.totp (refused "Invalid authenticator code")
  private ← require (unseal u.id sealed) (refused "message authentication failed")
  step ←
      require (valid_step valid now private code s.last_step)
        (refused "Invalid or already used authenticator code. Try the next code.")
  ok (record db {
    account_security =
        update_where (λ (x : AccountSecurity). x.user_id == u.id)
          (λ x. record x { last_step = step }) db.account_security;
  }))
