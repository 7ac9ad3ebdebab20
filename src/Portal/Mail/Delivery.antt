-- ===== src/Portal/Mail/Delivery.antt =====
-- internal/portal/email.go: `deliverOneUsing`, one round of the mail queue: a mail is leased, judged
-- and sent. The judgment and the result use the database that the lease has left, as if no other
-- transaction came between. `open_mail` is the decryption and the decoding of a payload: `none` where
-- the first fails, `some none` where the second does. `send` tells whether the SMTP server accepted.
use Prim.Native.String.{String}
use game_server_dashboard.Go.Text.{Text, is_blank, text_eq}
use game_server_dashboard.Go.Time.{is_unset, minute, upcoming}
use game_server_dashboard.Portal.Db.{Db, Error, find_user, refused}
use game_server_dashboard.Portal.Policy.Links.{Url}
use game_server_dashboard.Portal.Requests.Inbox.{visible_notifications}
use game_server_dashboard.Portal.Rows.{
  EmailToken, MailKind, MailState, Notification, Outbox, Token, UserRow,
}
use game_server_dashboard.Prelude.{
  Bool, List, Option, Result, [], count_where, err, exists_where, false, find_where, guard,
  if◌then◌else◌, leb, ltb, none, not, ok, require, some, true, update_where, ℕ, ◌&&◌, ◌*◌, ◌+◌,
  ◌==◌, ◌>>=◌, ◌>>◌, ◌^◌, ◌||◌,
}

abbrev pub is_queued : MailState → Bool
is_queued MailState.queued = true
is_queued _ = false

abbrev pub is_sending : MailState → Bool
is_sending MailState.sending = true
is_sending _ = false

abbrev pub is_notification : MailKind → Bool
is_notification MailKind.notification = true
is_notification _ = false

abbrev pub is_security : MailKind → Bool
is_security MailKind.security = true
is_security _ = false

abbrev pub is_verify : MailKind → Bool
is_verify MailKind.verify = true
is_verify _ = false

-- Leases that have run out are given up.
unfoldable pub released : ℕ → List Outbox → List Outbox
released now rows =
    update_where (λ (m : Outbox). is_sending m.state && ltb m.available now)
      (λ m. record m { state = MailState.queued; lease = [] }) rows

abbrev pub leased : ℕ → Text → Outbox → Outbox
leased now lease m = record m {
  state = MailState.sending;
  lease = lease;
  available = now + 2 * minute;
}

-- The first transaction.
unfoldable pub claim : ℕ → Text → Db → Result Error (Outbox × Db)
unfolding released
claim now lease db =
    let rows = released now db.mail_outbox in
    (do
      m ←
          require (find_where (λ (x : Outbox). is_queued x.state && leb x.available now) rows)
            (refused "no mail is due")
      ok (
        m,
        record db {
          mail_outbox = update_where (λ (x : Outbox). x.id == m.id) (leased now lease) rows;
        },
      ))

-- How a round ends: the state, the status, and whether the payload goes.
pub record Outcome : Type 0 where
  pub state : MailState
  pub status : String
  pub clear : Bool

-- The delay of the next attempt: 1 << min(attempts, 8) minutes.
abbrev pub delay : ℕ → ℕ
delay attempts = 2 ^ (if ltb attempts 8 then attempts else 8) * minute

-- finish, on the row as it was claimed
unfoldable pub finish : ℕ → Outbox → Text → Outcome → Db → Db
finish now m lease o db = record db {
  mail_outbox =
      update_where (λ (x : Outbox). x.id == m.id && text_eq x.lease lease)
        (λ x. record x {
          state = o.state;
          status = o.status;
          payload = if o.clear then none else m.payload;
          attempts = x.attempts + 1;
          available = now + delay m.attempts;
          lease = [];
        })
        db.mail_outbox;
}

abbrev pub cancelled_as : String → Outcome
cancelled_as status = record { state = MailState.cancelled; status = status; clear = true }

-- The recipient is still the verified address of the account.
unfoldable pub is_eligible : Db → Outbox → Bool
is_eligible db m =
    exists_where
      (λ (u : UserRow).
        u.id == m.user_id
        && u.email_verified
        && text_eq u.email m.recipient
        && (not (is_notification m.kind) || u.email_notifications))
      db.users

-- The link of a mail can still be used.
unfoldable pub has_live_link : ℕ → Db → Outbox → Bool
has_live_link now db m =
    if is_verify m.kind
    then count_where (λ (t : EmailToken). text_eq t.hash m.token_hash && upcoming t.expires now)
        db.email_tokens
      == 1
    else count_where
        (λ (t : Token).
          text_eq t.hash m.token_hash && is_unset t.consumed && upcoming t.expires now)
        db.tokens
      == 1

module _ (parse_url : Text → Option Url) (markdown : Text → Text) (vpn_enabled : Bool)
    (open_mail : MailKind → Option Text → Option (Option Text))
    (send : Text → Option Text → Bool) where
  unfoldable pub is_still_visible : ℕ → Db → Outbox → Bool
  is_still_visible now db m = elim (find_user m.user_id db) [
    | none ↦ false
    | some u ↦
        exists_where (λ (n : Notification). n.id == m.notification_id)
          (visible_notifications parse_url markdown vpn_enabled db now u false)
  ]

  -- The text of a mail; a mail about the account has a fixed one.
  unfoldable pub mail_body : Outbox → Result Outcome (Option Text)
  mail_body m =
      if is_notification m.kind || is_security m.kind
      then ok none
      else elim (open_mail m.kind m.payload) [
        | none ↦ err (record {
          state = MailState.failed;
          status = "Cannot decrypt queued message";
          clear = false;
        })
        | some none ↦
            err
              (record { state = MailState.failed; status = "Invalid queued message"; clear = true })
        | some (some body) ↦ ok (some body)
      ]

  -- The checks before a mail is sent.
  unfoldable pub judge : ℕ → Db → Outbox → Result Outcome (Option Text)
  unfolding is_eligible is_still_visible mail_body has_live_link
  judge now db m = do
    guard
        (m.user_id == 0 || exists_where (λ (u : UserRow). u.id == m.user_id && u.enabled) db.users)
        (cancelled_as "Account unavailable")
    guard (not (is_notification m.kind || is_security m.kind) || is_eligible db m)
        (cancelled_as "Recipient no longer eligible")
    guard (not (is_notification m.kind) || is_still_visible now db m)
        (cancelled_as "Update no longer visible")
    body ← mail_body m
    guard (is_blank m.token_hash || has_live_link now db m)
        (cancelled_as "Link expired or already consumed")
    ok body

  -- A fifth attempt that fails is the last.
  unfoldable pub outcome_of : ℕ → Db → Outbox → Outcome
  unfolding judge
  outcome_of now db m = elim (judge now db m) [
    | err o ↦ o
    | ok body ↦
        if send m.recipient body
        then record { state = MailState.sent; status = "Accepted by SMTP server"; clear = true }
        else record {
          state = if leb 4 m.attempts then MailState.failed else MailState.queued;
          status = "SMTP delivery failed; check connection, TLS and credentials";
          clear = false;
        }
  ]

  -- deliverOneUsing
  unfoldable pub deliver_one : ℕ → Text → Db → Db
  deliver_one now lease db =
      if not db.mail_settings.enabled then db else elim (claim now lease db) [
        | err e ↦ db
        | ok (m, db1) ↦ finish now m lease (outcome_of now db1 m) db1
      ]
