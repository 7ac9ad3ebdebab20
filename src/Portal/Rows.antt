-- ===== src/Portal/Rows.antt =====
-- internal/portal/db.go, schema.sql, vpn.sql, packs.sql and security.sql: the tables as lists of
-- rows, `Write` as a function from one database to the next, and the two triggers.
--
-- Not modelled: failures of SQLite itself (I/O, locks), and foreign keys that always hold here,
-- because no code deletes a user, a request, an access record or a device. Each operation reads
-- the clock once.
use Prim.Native.String.{String}
use game_server_dashboard.Go.Text.{Text}
use game_server_dashboard.Go.Time.{Stamp}
use game_server_dashboard.Portal.Types.{AccessState, Role}
use game_server_dashboard.Prelude.{Bool, Option, ℕ}

pub record UserRow : Type 0 where
  pub id : ℕ
  pub username : Text
  pub email : Text
  pub password : Text
  pub role : Role
  pub enabled : Bool
  pub generation : ℕ
  pub created : ℕ
  pub enrollment_locked : Bool
  pub email_verified : Bool
  pub email_notifications : Bool

pub record Settings : Type 0 where
  pub name : Text
  pub description : Text
  pub accent : Text
  pub public : Bool
  pub logo : Text

pub record AccessHistory : Type 0 where
  pub access_id : ℕ
  pub actor_id : ℕ
  pub state : AccessState
  pub granted : ℕ
  pub expires : Stamp
  pub created : ℕ

pub record Followup : Type 0 where
  pub id : ℕ
  pub access_id : ℕ
  pub reason : String
  pub created : ℕ
  pub completed : Stamp
  pub actor_id : ℕ

pub record Notification : Type 0 where
  pub id : ℕ
  pub user_id : ℕ
  pub request_id : ℕ
  pub access_id : ℕ
  pub device_id : ℕ
  pub text : String
  pub created : ℕ
  pub read_at : Stamp

-- The `target` column of an audit entry: the text `kind:id` of `idTarget`, a fixed text, or a
-- policy revision.
pub data Target : Type 0 where
  item : String → ℕ → Target
  named : String → Target
  policy : Text → Target

pub record AuditEntry : Type 0 where
  pub actor_id : ℕ
  pub action : String
  pub target : Target
  pub created : ℕ

-- "notification", "security", "invite", "reset", "verify", "test"
pub data MailKind : Type 0 where
  notification security invite reset factor verify test : MailKind

pub data MailState : Type 0 where
  queued sending sent failed cancelled : MailState

pub record Outbox : Type 0 where
  pub id : ℕ
  pub user_id : ℕ
  pub notification_id : ℕ
  pub kind : MailKind
  pub recipient : Text
  pub payload : Option Text
  pub token_hash : Text
  pub state : MailState
  pub attempts : ℕ
  pub available : ℕ
  pub created : ℕ
  pub status : String
  pub lease : Text

pub record MailSettings : Type 0 where
  pub enabled : Bool
  pub host : Text
  pub port : ℕ
  pub mode : Text
  pub username : Text
  pub password : Option Text
  pub sender : Text
  pub name : Text

pub data TokenKind : Type 0 where
  invite reset factor : TokenKind

pub record Token : Type 0 where
  pub hash : Text
  pub kind : TokenKind
  pub username : Text
  pub email : Text
  pub user_id : ℕ
  pub expires : Stamp
  pub consumed : Stamp

pub record TokenRecommendation : Type 0 where
  pub token_hash : Text
  pub service_id : ℕ

pub record Recommendation : Type 0 where
  pub user_id : ℕ
  pub service_id : ℕ

pub record Limit : Type 0 where
  pub key : Text
  pub count : ℕ
  pub reset : ℕ

pub record Media : Type 0 where
  pub id : Text
  pub service_id : ℕ
  pub filename : Text
  pub created : ℕ

-- `last_step` is the column plus one: its default -1 is 0 here.
pub record AccountSecurity : Type 0 where
  pub user_id : ℕ
  pub totp : Option Text
  pub last_step : ℕ

pub record RecoveryCode : Type 0 where
  pub hash : Text
  pub user_id : ℕ

pub record Passkey : Type 0 where
  pub id : Text
  pub user_id : ℕ
  pub rp_id : Text
  pub credential : Text
  pub name : Text
  pub created : ℕ
  pub used : Stamp

pub record Challenge : Type 0 where
  pub id : Text
  pub user_id : ℕ
  pub generation : ℕ
  pub purpose : Text
  pub payload : Text
  pub expires : Stamp

pub record EmailToken : Type 0 where
  pub hash : Text
  pub user_id : ℕ
  pub email : Text
  pub expires : Stamp
