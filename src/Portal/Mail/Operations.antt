-- ===== src/Portal/Mail/Operations.antt =====
-- internal/portal/email.go: the mail operations of an administrator, and `factorReset`.
-- The form of the SMTP settings; `password` is the new one sealed, if there is one, with its length.
use game_server_dashboard.Go.Text.{Text, is_blank, text, text_eq, trim_space}
use game_server_dashboard.Go.Time.{at, hour, unset}
use game_server_dashboard.Portal.Accounts.Factors.{clear_factors}
use game_server_dashboard.Portal.Db.{Db, Error, audit, refused, update_users, write}
use game_server_dashboard.Portal.Mail.Queue.{valid_email}
use game_server_dashboard.Portal.Policy.Links.{contains_any}
use game_server_dashboard.Portal.Rows.{MailState, Outbox, Token, TokenKind, UserRow, item, named}
use game_server_dashboard.Portal.Security.Codes.{security_identity}
use game_server_dashboard.Portal.Types.{User, is_admin}
use game_server_dashboard.Prelude.{
  Bool, Option, Result, [], append_row, exists_where, false, find_where, guard, if◌then◌else◌, leb,
  length, none, not, ok, require, some, true, update_where, ℕ, ◌&&◌, ◌++◌, ◌+◌, ◌==◌, ◌>>=◌, ◌>>◌,
  ◌||◌, ◌∷◌,
}

pub record SmtpForm : Type 0 where
  pub enabled : Bool
  pub host : Text
  pub port : ℕ
  pub mode : Text
  pub username : Text
  pub sender : Text
  pub name : Text
  pub clear_password : Bool
  pub password : Option (ℕ × Text)

abbrev pub host_marks : Text
host_marks = b'/' ∷ b':' ∷ b'\\' ∷ b' ' ∷ 13 ∷ 10 ∷ 9 ∷ []

module _ (parse_address : Text → Option Text) (is_ip : Text → Bool) where
  unfoldable pub smtp_checks : SmtpForm → Result Error (Unit {0})
  unfolding valid_email
  smtp_checks form = do
    guard
        ((not (contains_any host_marks form.host) || is_ip form.host)
          && leb (length form.host) 253
          && leb 1 form.port
          && leb form.port 65535
          && (text_eq form.mode (text "starttls") || text_eq form.mode (text "tls"))
          && not (contains_any (13 ∷ 10 ∷ []) (form.name ++ form.username))
          && leb (length form.name) 120
          && leb (length form.username) 256)
        (refused "Check SMTP host, port, TLS mode, and sender fields")
    guard (not form.enabled || not (is_blank form.host) && valid_email parse_address form.sender)
        (refused "SMTP host and a valid sender address are required")

  -- The password that is stored.
  unfoldable pub smtp_password : SmtpForm → Option Text → Result Error (Option Text)
  smtp_password form old = elim form.password [
    | none ↦ ok (if form.clear_password then none else old)
    | some (size, sealed) ↦ (do
      guard (leb size 4096) (refused "SMTP password too long")
      ok (some sealed))
  ]

  -- "save"
  unfoldable pub save_smtp : ℕ → User → SmtpForm → Db → Result Error (Unit {0}) × Db
  unfolding smtp_checks smtp_password security_identity
  save_smtp now u raw db =
      let form = record raw {
        host = trim_space raw.host;
        sender = trim_space raw.sender;
        name = trim_space raw.name;
      } in
      write db (do
        smtp_checks form
        password ← smtp_password form db.mail_settings.password
        security_identity u db
        ok (
            audit now u.id "update SMTP settings" (named "email") (record db {
              mail_settings = record {
                enabled = form.enabled;
                host = form.host;
                port = form.port;
                mode = form.mode;
                username = form.username;
                password = password;
                sender = form.sender;
                name = form.name;
              };
            })))

abbrev pub is_failed : MailState → Bool
is_failed MailState.failed = true
is_failed _ = false

-- "retry"
unfoldable pub retry_mail : ℕ → ℕ → Db → Db
retry_mail now id db = record db {
  mail_outbox =
      update_where (λ (m : Outbox). m.id == id && is_failed m.state)
        (λ m. record m {
          state = MailState.queued;
          attempts = 0;
          available = now;
          status = "Queued for retry";
        })
        db.mail_outbox;
}

-- factorReset, behind the checks of the session and the rate limit
unfoldable pub factor_reset :
    (Text → Text) → ℕ → User → ℕ → Bool → Text → Db → Result Error (Unit {0}) × Db
unfolding security_identity
factor_reset hash_token now u id confirmed token db = write db (do
  guard (is_admin u.role && not (id == u.id) && confirmed)
      (refused "Confirm identity verification for another member.")
  security_identity u db
  found ←
      require (find_where (λ (x : UserRow). x.id == id && x.enabled) db.users)
        (refused "Enabled member required")
  let db1 =
      update_users now (λ (x : UserRow). x.id == id) (λ x. record x { enrollment_locked = true })
        (clear_factors now id db)
  guard (not (exists_where (λ (t : Token). text_eq t.hash (hash_token token)) db1.tokens))
      (refused "UNIQUE constraint failed: tokens.hash")
  ok (
      audit now u.id "administrator reset of login factors" (item "user" id) (record db1 {
        tokens = append_row db1.tokens (record {
          hash = hash_token token;
          kind = TokenKind.factor;
          username = found.username;
          email = found.email;
          user_id = id;
          expires = at (now + hour);
          consumed = unset;
        });
      })))
