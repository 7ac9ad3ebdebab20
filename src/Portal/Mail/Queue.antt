-- ===== src/Portal/Mail/Queue.antt =====
-- internal/portal/email.go: `validEmail` and `queueMail`. The text of a mail stands as the sealed
-- payload, an argument.
use game_server_dashboard.Go.Text.{Text, text_eq}
use game_server_dashboard.Portal.Db.{Db, Error, queued_mail, refused}
use game_server_dashboard.Portal.Policy.Links.{contains_any}
use game_server_dashboard.Portal.Rows.{MailKind}
use game_server_dashboard.Prelude.{
  Bool, Option, Result, [], append_row, false, guard, leb, length, none, not, ok, some, ℕ, ◌&&◌,
  ◌>>◌, ◌∷◌,
}

module _ (parse_address : Text → Option Text) where
  -- validEmail
  unfoldable pub valid_email : Text → Bool
  valid_email s =
      (elim (parse_address s) [ none ↦ false | some a ↦ text_eq a s ])
      && leb (length s) 254
      && not (contains_any (13 ∷ 10 ∷ []) s)

  -- queueMail
  unfoldable pub queue_mail : ℕ → ℕ → MailKind → Text → Text → Text → Db → Result Error Db
  unfolding valid_email
  queue_mail now user kind to hash payload db = do
    guard db.mail_settings.enabled (refused "Configure and enable SMTP first")
    guard (valid_email to) (refused "A valid email address is required")
    ok (record db {
      mail_outbox =
          append_row db.mail_outbox
            (queued_mail now kind user 0 to (some payload) hash db.mail_outbox);
    })
