-- ===== src/Portal/Fixtures.antt =====
-- Small databases of the portal and the rows in them, for the tests.
use game_server_dashboard.Go.Text.{Text}
use game_server_dashboard.Go.Time.{Stamp, at, unset}
use game_server_dashboard.Portal.Db.{Db}
use game_server_dashboard.Portal.Rows.{UserRow}
use game_server_dashboard.Portal.Types.{
  Audience, Request, ServiceConfig, ServiceRow, User, access, admin, approved, member, request,
}
use game_server_dashboard.Portal.VpnTypes.{Device, DeviceState, GrantState, NetworkGrant}
use game_server_dashboard.Prelude.{Option, [], false, none, true, ℕ, ◌∷◌}

abbrev pub no_text : Text
no_text = []

abbrev pub owner_row : UserRow
owner_row = record {
  id = 1;
  username = [];
  email = [];
  password = [];
  role = admin;
  enabled = true;
  generation = 1;
  created = 0;
  enrollment_locked = false;
  email_verified = false;
  email_notifications = false;
}

abbrev pub friend_row : UserRow
friend_row = record owner_row { id = 2; role = member }

abbrev pub owner : User
owner = record {
  preview_service = 0;
  id = 1;
  username = [];
  email = [];
  role = admin;
  enabled = true;
  generation = 1;
}

abbrev pub friend : User
friend = record owner { id = 2; role = member }

abbrev pub empty_config : ServiceConfig
empty_config = record {
  external_portal_url = [];
  external_portal_label = [];
  external_portal_audience = none;
  external_portal_new_tab = false;
  type = [];
  game = [];
  summary = [];
  description = [];
  tags = [];
  artwork = [];
  focal_x = 0;
  focal_y = 0;
  host = [];
  port = [];
  version = [];
  platform = [];
  connection = [];
  custom = [];
  guide = [];
  status = [];
  status_at = [];
  direct_link = 0;
  fields = [];
  duration = false;
}

abbrev pub plex : ServiceRow
plex = record {
  id = 5;
  slug = [];
  name = [];
  category_id = 0;
  published = true;
  archived = false;
  audience = Audience.members;
  details_audience = Audience.grantees;
  access_service = 0;
  mode = request;
  position = 0;
  featured = false;
  config = empty_config;
}

abbrev pub asked : Request
asked = record {
  id = 7;
  user_id = 2;
  service_id = 5;
  service_name = [];
  kind = access;
  state = approved;
  reason = [];
  fields = [];
  requested_end = unset;
  created = 0;
  updated = 0;
  version = 3;
}

abbrev pub laptop : Device
laptop = record {
  id = 4;
  user_id = 2;
  name = [];
  public_key = [];
  address = [];
  state = DeviceState.approved;
  created = 0;
  version = 2;
}

abbrev pub desk : Db
desk = record {
  users = owner_row ∷ friend_row ∷ [];
  settings = record { name = no_text; description = []; accent = []; public = false; logo = [] };
  categories = [];
  services = plex ∷ [];
  links = [];
  announcements = [];
  media = [];
  requests = asked ∷ [];
  messages = [];
  private_notes = [];
  transitions = [];
  access_records = [];
  access_history = [];
  followups = [];
  notifications = [];
  audit_log = [];
  mail_settings = record {
    enabled = false;
    host = [];
    port = 587;
    mode = [];
    username = [];
    password = none;
    sender = [];
    name = [];
  };
  mail_outbox = [];
  tokens = [];
  token_recommendations = [];
  recommendations = [];
  limits = [];
  account_security = [];
  recovery_codes = [];
  passkeys = [];
  auth_challenges = [];
  email_tokens = [];
  vpn_devices = laptop ∷ [];
  vpn_targets = [];
  vpn_grants = [];
  vpn_deliveries = [];
  vpn_history = [];
  vpn_status = record { revision = []; public_key = []; seen = unset };
}

abbrev pub no_dates : Text → Option ℕ
no_dates _ = none

abbrev pub note : Text
note = b'o' ∷ b'k' ∷ []

abbrev pub no_stamps : Stamp → Text
no_stamps _ = []

abbrev pub permit : NetworkGrant
permit = record {
  id = 1;
  device_id = 1;
  target_id = 1;
  state = GrantState.approved;
  reason = note;
  target_label = note;
  service_name = note;
  explanation = [];
  cidr = note;
  protocol = note;
  ports = note;
  expires = at 60;
  created = 10;
  version = 2;
}
