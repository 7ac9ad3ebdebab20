-- ===== src/Portal/Mail/Addresses.antt =====
-- internal/portal/email.go: `updateEmail` and the transaction of `verifyEmail`.
use game_server_dashboard.Go.Text.{Text, text_eq, trim_space}
use game_server_dashboard.Go.Time.{at, hour, upcoming}
use game_server_dashboard.Portal.Db.{Db, Error, audit, notify, refused, update_users, write}
use game_server_dashboard.Portal.Mail.Queue.{queue_mail, valid_email}
use game_server_dashboard.Portal.Rows.{EmailToken, MailKind, UserRow, item}
use game_server_dashboard.Portal.Security.Codes.{security_identity}
use game_server_dashboard.Portal.Types.{User}
use game_server_dashboard.Prelude.{
  Bool, Option, Result, append_row, delete_where, exists_where, find_where, guard, if◌then◌else◌,
  not, ok, require, true, ℕ, ◌&&◌, ◌+◌, ◌==◌, ◌>>=◌, ◌>>◌,
}

module _ (parse_address : Text → Option Text) (hash_token : Text → Text) where
  abbrev pub set_notifications : ℕ → Bool → UserRow → UserRow
  set_notifications user notify u = record u { email_notifications = notify }

  -- updateEmail; a new address takes effect only when its link has been used.
  unfoldable pub update_email :
      ℕ → User → Text → Bool → Text → Text → Db → Result Error (Unit {0}) × Db
  unfolding security_identity queue_mail valid_email
  update_email now u form notify token payload db =
      let email = trim_space form in
      write db (do
        guard (valid_email parse_address email) (refused "Enter a valid email address")
        security_identity u db
        old ← require (find_where (λ (x : UserRow). x.id == u.id) db.users) (refused "no such user")
        if text_eq old.email email && old.email_verified
            then ok (
                update_users now (λ (x : UserRow). x.id == u.id) (set_notifications u.id notify) db)
            else (do
              let tokens = delete_where (λ (t : EmailToken). t.user_id == u.id) db.email_tokens
              guard
                  (not
                    (exists_where (λ (t : EmailToken). text_eq t.hash (hash_token token)) tokens))
                  (refused "UNIQUE constraint failed: email_tokens.hash")
              let db1 = record db {
                email_tokens = append_row tokens (record {
                  hash = hash_token token;
                  user_id = u.id;
                  email = email;
                  expires = at (now + hour);
                });
              }
              let db2 =
                  update_users now (λ (x : UserRow). x.id == u.id) (set_notifications u.id notify)
                    db1
              queue_mail parse_address now u.id MailKind.verify email (hash_token token) payload
                  db2))

  abbrev pub is_email_token : ℕ → ℕ → Text → EmailToken → Bool
  is_email_token now user hash t =
      text_eq t.hash hash && t.user_id == user && upcoming t.expires now

  -- verifyEmail
  unfoldable pub verify_email : ℕ → User → Text → Db → Result Error (Unit {0}) × Db
  unfolding security_identity
  verify_email now u token db = write db (do
    security_identity u db
    t ←
        require (find_where (is_email_token now u.id (hash_token token)) db.email_tokens)
          (refused "This verification link is invalid or expired")
    let db1 =
        update_users now (λ (x : UserRow). x.id == u.id)
          (λ x. record x { email = t.email; email_verified = true }) db
    ok (
        audit now u.id "verify email" (item "user" u.id) (record db1 {
          email_tokens = delete_where (λ (x : EmailToken). x.user_id == u.id) db.email_tokens;
        })))
