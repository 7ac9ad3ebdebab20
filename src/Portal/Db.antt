-- ===== src/Portal/Db.antt =====
-- internal/portal/db.go with the triggers of security.sql: the database, `Write` as a function
-- from one database to the next, the audit log, and notifications with the mail that they queue.
--
-- Not modelled: failures of SQLite itself (I/O, locks), and foreign keys that always hold here,
-- because no code deletes a user, a request, an access record or a device. Each operation reads
-- the clock once.
use Prim.Native.String.{String}
use game_server_dashboard.Prelude.{
  ℕ, Bool, not, ◌&&◌, Option, none, some, List, [], ◌∷◌, ◌==◌, if◌then◌else◌, Result, ok, err,
  find_where, update_where, append_row, next_id,
}
use game_server_dashboard.Go.Text.{Text}
use game_server_dashboard.Go.Time.{unset}
use game_server_dashboard.Portal.Types.{
  is_admin, User, Category, Link, ServiceRow, Announcement, Request, Message, Transition, Access,
}
use game_server_dashboard.Portal.VpnTypes.{
  Device, NetworkTarget, NetworkGrant, Delivery, VpnHistory, VpnStatus,
}
use game_server_dashboard.Portal.Rows.{
  UserRow, Settings, AccessHistory, Followup, Notification, Target, AuditEntry, MailKind, MailState,
  Outbox, MailSettings, Token, TokenRecommendation, Recommendation, Limit, Media, AccountSecurity,
  RecoveryCode, Passkey, Challenge, EmailToken,
}

pub record Db : Type 0 where
  pub users : List UserRow
  pub settings : Settings
  pub categories : List Category
  pub services : List ServiceRow
  pub links : List Link
  pub announcements : List Announcement
  pub media : List Media
  pub requests : List Request
  pub messages : List Message
  pub private_notes : List Message
  pub transitions : List Transition
  pub access_records : List Access
  pub access_history : List AccessHistory
  pub followups : List Followup
  pub notifications : List Notification
  pub audit_log : List AuditEntry
  pub mail_settings : MailSettings
  pub mail_outbox : List Outbox
  pub tokens : List Token
  pub token_recommendations : List TokenRecommendation
  pub recommendations : List Recommendation
  pub limits : List Limit
  pub account_security : List AccountSecurity
  pub recovery_codes : List RecoveryCode
  pub passkeys : List Passkey
  pub auth_challenges : List Challenge
  pub email_tokens : List EmailToken
  pub vpn_devices : List Device
  pub vpn_targets : List NetworkTarget
  pub vpn_grants : List NetworkGrant
  pub vpn_deliveries : List Delivery
  pub vpn_history : List VpnHistory
  pub vpn_status : VpnStatus

-- `ErrConflict`, and every other refusal by what its message is about.
pub data Error : Type 0 where
  conflict : Error
  refused : String → Error

-- Write: the transaction's database is kept if the function succeeds, and dropped if it fails.
abbrev pub write : Db → Result Error Db → Result Error (Unit {0}) × Db
write db (ok db') = (ok tt, db')
write db (err e) = (err e, db)

-- The same where the function also yields a value.
abbrev pub write_value : {A : Type 0} → Db → Result Error (A × Db) → Result Error A × Db
write_value db (ok (a, db')) = (ok a, db')
write_value db (err e) = (err e, db)

unfoldable pub audit : ℕ → ℕ → String → Target → Db → Db
audit now actor action target db = record db {
  audit_log =
      append_row db.audit_log
        (record { actor_id = actor; action = action; target = target; created = now });
}

-- A row of `mail_outbox` with the columns that the inserts leave to their defaults.
unfoldable pub queued_mail : ℕ → MailKind → ℕ → ℕ → Text → Option Text → Text → List Outbox → Outbox
queued_mail now kind user notification recipient payload hash box = record {
  id = next_id (λ (m : Outbox). m.id) box;
  user_id = user;
  notification_id = notification;
  kind = kind;
  recipient = recipient;
  payload = payload;
  token_hash = hash;
  state = MailState.queued;
  attempts = 0;
  available = now;
  created = now;
  status = "Queued";
  lease = [];
}

-- An insert into `notifications`, and the trigger `notification_email`.
unfoldable pub insert_notification : ℕ → ℕ → ℕ → ℕ → ℕ → String → Db → Db
unfolding queued_mail
insert_notification now user req acc device text db =
    let n = next_id (λ (x : Notification). x.id) db.notifications in
    let row : Notification = record {
      id = n;
      user_id = user;
      request_id = req;
      access_id = acc;
      device_id = device;
      text = text;
      created = now;
      read_at = unset;
    } in
    let mails : List Outbox =
      elim (find_where
        (λ (u : UserRow).
          u.id == user
          && u.enabled
          && u.email_verified
          && u.email_notifications
          && db.mail_settings.enabled)
        db.users) [
          | some u ↦
              append_row db.mail_outbox
                (queued_mail now MailKind.notification user n u.email none [] db.mail_outbox)
          | none ↦ db.mail_outbox
        ] in
    record db { notifications = append_row db.notifications row; mail_outbox = mails }

-- INSERT INTO notifications ... SELECT id FROM users WHERE p, a row for each.
unfoldable pub insert_notifications :
    ℕ → (UserRow → Bool) → ℕ → ℕ → ℕ → String → List UserRow → Db → Db
insert_notifications now p req acc device text [] db = db
insert_notifications now p req acc device text (u ∷ us) db =
    insert_notifications now p req acc device text us
      (if p u then insert_notification now u.id req acc device text db else db)

unfoldable pub notify : ℕ → ℕ → ℕ → ℕ → String → Db → Db
notify now user req acc text db = insert_notification now user req acc 0 text db

abbrev pub is_enabled_admin : UserRow → Bool
is_enabled_admin u = is_admin u.role && u.enabled

unfoldable pub notify_admins : ℕ → ℕ → String → Db → Db
notify_admins now req text db = insert_notifications now is_enabled_admin req 0 0 text db.users db

-- The trigger `account_security_email`, for one updated row.
unfoldable pub security_mail : ℕ → Bool → UserRow → UserRow → List Outbox → List Outbox
unfolding queued_mail
security_mail now enabled old new box =
    if not (new.generation == old.generation) && enabled && new.enabled && new.email_verified
    then append_row box (queued_mail now MailKind.security new.id 0 new.email none [] box)
    else box

unfoldable pub security_mails :
    ℕ → Bool → (UserRow → Bool) → (UserRow → UserRow) → List UserRow → List Outbox → List Outbox
security_mails now enabled p f [] box = box
security_mails now enabled p f (u ∷ us) box =
    security_mails now enabled p f us (if p u then security_mail now enabled u (f u) box else box)

-- UPDATE users SET f WHERE p
unfoldable pub update_users : ℕ → (UserRow → Bool) → (UserRow → UserRow) → Db → Db
update_users now p f db = record db {
  users = update_where p f db.users;
  mail_outbox = security_mails now db.mail_settings.enabled p f db.users db.mail_outbox;
}

-- User: the session's copy of a row.
unfoldable pub user_of_row : UserRow → User
user_of_row u = record {
  preview_service = 0;
  id = u.id;
  username = u.username;
  email = u.email;
  role = u.role;
  enabled = u.enabled;
  generation = u.generation;
}

unfoldable pub find_user : ℕ → Db → Option User
unfolding user_of_row
find_user id db = elim (find_where (λ (u : UserRow). u.id == id) db.users) [
  | some u ↦ some (user_of_row u)
  | none ↦ none
]
