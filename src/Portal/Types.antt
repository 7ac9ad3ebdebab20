-- ===== src/Portal/Types.antt =====
-- internal/portal/types.go, with the enumerations that the source writes as text: a column with a
-- CHECK constraint ranges over the listed values, and an audience may also be any other text.
-- The id 0 stands for a NULL reference, as in the `coalesce(..., 0)` of the queries.
use game_server_dashboard.Prelude.{ℕ, Bool, true, false, Option, List, ◌==◌}
use game_server_dashboard.Go.Text.{Text}
use game_server_dashboard.Go.Time.{Stamp}

pub data Role : Type 0 where
  member admin : Role

abbrev pub is_admin : Role → Bool
is_admin admin = true
is_admin member = false

-- "public", "member", "access", "admin" and any other text.
pub data Audience : Type 0 where
  public members grantees admins unknown : Audience

-- "info", "request", "external"
pub data Mode : Type 0 where
  info request external : Mode

abbrev pub is_request_mode : Mode → Bool
is_request_mode request = true
is_request_mode _ = false

abbrev pub is_external_mode : Mode → Bool
is_external_mode external = true
is_external_mode _ = false

-- "access", "support"
pub data Kind : Type 0 where
  access support : Kind

abbrev pub is_access_kind : Kind → Bool
is_access_kind access = true
is_access_kind support = false

-- "Pending", "Needs Information", "Approved - Setup Pending", "Fulfilled", "Denied", "Cancelled",
-- "Open", "Waiting for Member", "Resolved"
pub data State : Type 0 where
  pending needs_information approved fulfilled denied cancelled : State
  opened waiting_for_member resolved : State

abbrev pub state_code : State → ℕ
state_code pending = 0
state_code needs_information = 1
state_code approved = 2
state_code fulfilled = 3
state_code denied = 4
state_code cancelled = 5
state_code opened = 6
state_code waiting_for_member = 7
state_code resolved = 8

abbrev pub state_eq : State → State → Bool
state_eq a b = state_code a == state_code b

-- The id of the viewer that an administrator previews, -1 in the source: no row has it.
abbrev pub preview_id : ℕ
preview_id = 0

pub record User : Type 0 where
  pub preview_service : ℕ
  pub id : ℕ
  pub username : Text
  pub email : Text
  pub role : Role
  pub enabled : Bool
  pub generation : ℕ

pub record Category : Type 0 where
  pub id : ℕ
  pub name : Text
  pub audience : Audience
  pub access_service : ℕ
  pub position : ℕ

-- "short", "long", "email", "select"
pub data FieldType : Type 0 where
  short long email_field select_field : FieldType

pub record Field : Type 0 where
  pub key : Text
  pub label : Text
  pub type : FieldType
  pub required : Bool
  pub options : List Text

pub record Value : Type 0 where
  pub label : Text
  pub value : Text

-- `external_portal_audience` is `none` where the source has the empty text.
pub record ServiceConfig : Type 0 where
  pub external_portal_url : Text
  pub external_portal_label : Text
  pub external_portal_audience : Option Audience
  pub external_portal_new_tab : Bool
  pub type : Text
  pub game : Text
  pub summary : Text
  pub description : Text
  pub tags : Text
  pub artwork : Text
  pub focal_x : ℕ
  pub focal_y : ℕ
  pub host : Text
  pub port : Text
  pub version : Text
  pub platform : Text
  pub connection : Text
  pub custom : List Value
  pub guide : Text
  pub status : Text
  pub status_at : Text
  pub direct_link : ℕ
  pub fields : List Field
  pub duration : Bool

-- "global", "category", "service" and any other text.
pub data Placement : Type 0 where
  global category service elsewhere : Placement

abbrev pub placement_code : Placement → ℕ
placement_code global = 0
placement_code category = 1
placement_code service = 2
placement_code elsewhere = 3

abbrev pub placement_eq : Placement → Placement → Bool
placement_eq a b = placement_code a == placement_code b

pub record Link : Type 0 where
  pub id : ℕ
  pub label : Text
  pub url : Text
  pub placement : Placement
  pub parent_id : ℕ
  pub access_service : ℕ
  pub audience : Audience
  pub position : ℕ
  pub enabled : Bool
  pub style : Text
  pub new_tab : Bool
  pub icon : Text
  pub description : Text

-- A row of `services`.
pub record ServiceRow : Type 0 where
  pub id : ℕ
  pub slug : Text
  pub name : Text
  pub category_id : ℕ
  pub published : Bool
  pub archived : Bool
  pub audience : Audience
  pub details_audience : Audience
  pub access_service : ℕ
  pub mode : Mode
  pub position : ℕ
  pub featured : Bool
  pub config : ServiceConfig

-- `Service`: the row and what `permitted` adds for one viewer.
pub record Service : Type 0 where
  pub row : ServiceRow
  pub external_portal : Option Link
  pub supportable : Bool
  pub recommended : Bool
  pub requestable : Bool
  pub details : Bool
  pub links : List Link
  pub html : Text
  pub guide_html : Text

pub record Announcement : Type 0 where
  pub id : ℕ
  pub title : Text
  pub body : Text
  pub placement : Placement
  pub parent_id : ℕ
  pub audience : Audience
  pub access_service : ℕ
  pub starts : Stamp
  pub ends : Stamp
  pub enabled : Bool

pub record Request : Type 0 where
  pub id : ℕ
  pub user_id : ℕ
  pub service_id : ℕ
  pub service_name : Text
  pub kind : Kind
  pub state : State
  pub reason : Text
  pub fields : List Value
  pub requested_end : Stamp
  pub created : ℕ
  pub updated : ℕ
  pub version : ℕ

pub record Message : Type 0 where
  pub id : ℕ
  pub request_id : ℕ
  pub actor_id : ℕ
  pub body : Text
  pub created : ℕ

-- `from_state` is `none` for the empty text of a first entry.
pub record Transition : Type 0 where
  pub id : ℕ
  pub request_id : ℕ
  pub actor_id : ℕ
  pub from_state : Option State
  pub to_state : State
  pub created : ℕ

pub data AccessState : Type 0 where
  active expired revoked : AccessState

abbrev pub is_active : AccessState → Bool
is_active active = true
is_active _ = false

pub record Access : Type 0 where
  pub id : ℕ
  pub user_id : ℕ
  pub service_id : ℕ
  pub service_name : Text
  pub state : AccessState
  pub granted : ℕ
  pub expires : Stamp
  pub next_steps : Text
  pub version : ℕ
