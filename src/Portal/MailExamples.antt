-- ===== src/Portal/MailExamples.antt =====
-- The theorems of the mail queue and of the access list at small databases.
use game_server_dashboard.Go.Text.{Text}
use game_server_dashboard.Go.Time.{at}
use game_server_dashboard.Portal.Db.{Db}
use game_server_dashboard.Portal.Fixtures.{desk, friend, note}
use game_server_dashboard.Portal.Policy.Links.{Url}
use game_server_dashboard.Portal.Requests.Inbox.{accesses}
use game_server_dashboard.Portal.Requests.Shown.{IsOwnAccess, accesses-All}
use game_server_dashboard.Portal.Rows.{MailKind, MailState, Outbox}
use game_server_dashboard.Portal.Types.{Access, AccessState}
use game_server_dashboard.Prelude.{All, Bool, Option, [], none, refl, some, true, ◌∷◌}

abbrev no_url : Text → Option Url
no_url _ = none

abbrev same_markdown : Text → Text
same_markdown s = s

abbrev active_record : Access
active_record = record {
  id = 1;
  user_id = 2;
  service_id = 5;
  service_name = [];
  state = AccessState.active;
  granted = 10;
  expires = at 60;
  next_steps = note;
  version = 1;
}

abbrev recorded : Db
recorded = record desk { access_records = active_record ∷ [] }

accesses-All_example :
    All (IsOwnAccess 100 friend) (accesses no_url same_markdown recorded 100 friend)
accesses-All_example = accesses-All no_url same_markdown recorded 100 friend refl

abbrev hello : Outbox
hello = record {
  id = 3;
  user_id = 2;
  notification_id = 0;
  kind = MailKind.test;
  recipient = note;
  payload = some note;
  token_hash = [];
  state = MailState.sending;
  attempts = 0;
  available = 40;
  created = 10;
  status = "";
  lease = note;
}

abbrev posting : Db
posting = record desk {
  mail_settings = record desk.mail_settings { enabled = true };
  mail_outbox = hello ∷ [];
}

abbrev lease : Text
lease = b'n' ∷ []

abbrev opens : MailKind → Option Text → Option (Option Text)
opens _ payload = some payload

abbrev accepts : Text → Option Text → Bool
accepts _ _ = true
