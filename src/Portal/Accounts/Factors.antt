-- ===== src/Portal/Accounts/Factors.antt =====
-- internal/portal/security.go: `clearFactors`, which a recovery and a factor reset end with.
use game_server_dashboard.Prelude.{ℕ, ◌+◌, ◌&&◌, none, List, ◌==◌, delete_where, update_where}
use game_server_dashboard.Go.Time.{at, is_unset}
use game_server_dashboard.Portal.Db.{Db, update_users}
use game_server_dashboard.Portal.Rows.{
  UserRow, Token, AccountSecurity, RecoveryCode, Passkey, Challenge, EmailToken,
}

-- UPDATE tokens SET consumed=? WHERE user_id=? AND consumed IS NULL
unfoldable pub revoke_tokens : ℕ → ℕ → List Token → List Token
revoke_tokens now user tokens =
    update_where (λ (t : Token). t.user_id == user && is_unset t.consumed)
      (λ t. record t { consumed = at now }) tokens

abbrev pub bumped : UserRow → UserRow
bumped u = record u { generation = u.generation + 1 }

unfoldable pub clear_factors : ℕ → ℕ → Db → Db
unfolding revoke_tokens
clear_factors now id db =
    update_users now (λ (u : UserRow). u.id == id) bumped
      (record db {
        passkeys = delete_where (λ (k : Passkey). k.user_id == id) db.passkeys;
        recovery_codes = delete_where (λ (c : RecoveryCode). c.user_id == id) db.recovery_codes;
        auth_challenges = delete_where (λ (c : Challenge). c.user_id == id) db.auth_challenges;
        email_tokens = delete_where (λ (t : EmailToken). t.user_id == id) db.email_tokens;
        account_security =
            update_where (λ (s : AccountSecurity). s.user_id == id)
              (λ s. record s { totp = none; last_step = 0 }) db.account_security;
        tokens = revoke_tokens now id db.tokens;
      })
