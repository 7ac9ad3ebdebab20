-- ===== src/Portal/Admin/Services.antt =====
-- internal/portal/admin.go: `saveService`. `seen` is the database that the checks before the
-- transaction read, `stamp` writes the time as text.
use game_server_dashboard.Go.Numbers.{atoi}
use game_server_dashboard.Go.Text.{Text, includes_text, is_blank, text, text_eq, trim_space}
use game_server_dashboard.Portal.Admin.Checks.{has_category, has_service, is_valid_audience}
use game_server_dashboard.Portal.Admin.ServiceForms.{
  ServiceForm, custom_values, fields_from, is_slug,
}
use game_server_dashboard.Portal.Admin.Settings.{after_prefix}
use game_server_dashboard.Portal.Db.{Db, Error, audit, refused, write_value}
use game_server_dashboard.Portal.Policy.Audiences.{find_service}
use game_server_dashboard.Portal.Policy.Links.{Url, valid_url}
use game_server_dashboard.Portal.Rows.{Media, item}
use game_server_dashboard.Portal.Types.{
  Audience, Link, Mode, Placement, ServiceConfig, ServiceRow, User, placement_eq,
}
use game_server_dashboard.Prelude.{
  Bool, List, Option, Result, [], append_row, count_where, exists_where, false, find_where, guard,
  if◌then◌else◌, leb, length, next_id, none, not, ok, require, some, update_where, ℕ, ◌&&◌, ◌==◌,
  ◌>>=◌, ◌>>◌, ◌||◌, ◌∷◌,
}

abbrev pub service_types : List Text
service_types = text "game" ∷ text "application" ∷ text "network" ∷ text "destination" ∷ []

abbrev pub statuses : List Text
statuses = [] ∷ text "Unknown" ∷ text "Online" ∷ text "Offline" ∷ text "Maintenance" ∷ []

-- The identity of the service: its name, slug, audiences, category and mode.
unfoldable pub row_checks : ServiceForm → Db → Result Error Mode
row_checks form seen = do
  guard
      (not (is_blank (trim_space form.row.name))
        && leb (length (trim_space form.row.name)) 120
        && is_slug form.row.slug
        && leb (length form.row.slug) 100)
      (refused "Provide a name and a lowercase URL slug using letters, numbers, and hyphens.")
  guard (is_valid_audience form.row.audience && is_valid_audience form.row.details_audience)
      (refused "Invalid audience")
  guard (form.row.access_service == 0 || has_service form.row.access_service seen)
      (refused "Associated access service does not exist")
  guard (form.row.category_id == 0 || has_category form.row.category_id seen)
      (refused "Category does not exist")
  require form.mode (refused "Invalid access mode")

-- The empty audience of the sign-up portal is "member".
unfoldable pub portal_audience : Option Audience → Audience
portal_audience none = Audience.members
portal_audience (some aud) = aud

unfoldable pub is_port : Text → Bool
is_port s = elim (atoi s) [ none ↦ false | some n ↦ leb 1 n && leb n 65535 ]

-- A medium of the service itself, or a valid URL.
unfoldable pub is_artwork : (Text → Option Url) → ℕ → Text → Db → Bool
is_artwork parse_url id artwork seen = elim (after_prefix (text "/media/") artwork) [
  | none ↦ valid_url parse_url artwork false
  | some name ↦ elim (find_where (λ (x : Media). text_eq x.id name) seen.media) [
    | none ↦ false
    | some x ↦ not (x.service_id == 0) && x.service_id == id
  ]
]

-- The lengths and the ranges of the configuration.
unfoldable pub config_checks :
    (Text → Option Url) → ℕ → ServiceConfig → Db → Result Error (Unit {0})
unfolding is_artwork is_port portal_audience
config_checks parse_url id c seen = do
  guard (is_valid_audience (portal_audience c.external_portal_audience))
      (refused "Invalid signup portal audience")
  guard
      (leb (length (trim_space c.external_portal_url)) 2048
        && leb (length (trim_space c.external_portal_label)) 80)
      (refused "Signup portal URL or button label is too long")
  guard (valid_url parse_url (trim_space c.external_portal_url) false)
      (refused "Signup portal: invalid URL")
  guard (includes_text service_types c.type) (refused "Invalid service type")
  guard
      (leb (length c.game) 255
        && leb (length c.host) 255
        && leb (length c.version) 255
        && leb (length c.platform) 255)
      (refused "A text must be under 256 characters")
  guard (leb (length c.connection) 1000 && leb (length c.artwork) 2048)
      (refused "Connection string or artwork URL is too long")
  guard
      (leb (length c.summary) 240
        && leb (length c.description) 20000
        && leb (length c.guide) 20000
        && leb (length c.tags) 300)
      (refused "Description or tags exceed their length limit.")
  guard (leb c.focal_x 100 && leb c.focal_y 100) (refused "Focal point must be between 0 and 100.")
  guard (is_blank c.port || is_port c.port) (refused "Port must be 1–65535.")
  guard (is_blank c.artwork || is_artwork parse_url id c.artwork seen)
      (refused "Artwork must belong to this service")
  guard (includes_text statuses c.status) (refused "Invalid manual status")

-- StatusAt: the time of the last change of the status.
unfoldable pub status_time : (ℕ → Text) → ℕ → Text → Option ServiceRow → Text
status_time stamp now status none = if is_blank status then [] else stamp now
status_time stamp now status (some old) =
    if not (is_blank status) && not (text_eq status old.config.status)
    then stamp now
    else old.config.status_at

abbrev pub is_own_link : ℕ → ℕ → Link → Bool
is_own_link id link l =
    l.id == link && placement_eq l.placement Placement.service && l.parent_id == id

-- The configuration that is stored.
unfoldable pub config_of :
    (Text → Option Url) → (ℕ → Text) → ℕ → ServiceForm → Db → Result Error ServiceConfig
unfolding config_checks status_time fields_from custom_values
config_of parse_url stamp now form seen =
    let c = form.row.config in
    let id = form.row.id in
    (do
      config_checks parse_url id c seen
      guard (c.direct_link == 0 || exists_where (is_own_link id c.direct_link) seen.links)
          (refused "Choose a link belonging to this service for the direct card action.")
      fields ← fields_from 0 form.inputs
      custom ← custom_values form.custom
      ok (record c {
        external_portal_url = trim_space c.external_portal_url;
        external_portal_label = trim_space c.external_portal_label;
        external_portal_audience = some (portal_audience c.external_portal_audience);
        status_at = status_time stamp now c.status (find_service id seen);
        fields = fields;
        custom = custom;
      }))

-- The INSERT or the UPDATE, of the row as it is to be stored, and the id.
unfoldable pub store_service : ServiceRow → Db → Result Error (ℕ × Db)
store_service row db = do
  guard
      (not (
        exists_where (λ (v : ServiceRow). text_eq v.slug row.slug && not (v.id == row.id))
          db.services
        && (row.id == 0
            || exists_where (λ (v : ServiceRow). v.id == row.id && not v.archived) db.services)))
      (refused "UNIQUE constraint failed: services.slug")
  guard
      (row.id == 0
        || count_where (λ (v : ServiceRow). v.id == row.id && not v.archived) db.services == 1)
      (refused "Archived services cannot be edited.")
  let new = next_id (λ (v : ServiceRow). v.id) db.services
  if row.id == 0
      then ok (new, record db { services = append_row db.services (record row { id = new }) })
      else ok (
        row.id,
        record db {
          services =
              update_where (λ (v : ServiceRow). v.id == row.id && not v.archived) (λ _. row)
                db.services;
        },
      )

-- saveService; a row that is stored is not archived.
unfoldable pub save_service :
    (Text → Option Url) → (ℕ → Text) → ℕ → User → ServiceForm → Db → Db → Result Error ℕ × Db
unfolding row_checks config_of store_service
save_service parse_url stamp now u form seen db = write_value db (do
  mode ← row_checks form seen
  config ← config_of parse_url stamp now form seen
  let row = record (form.row) {
    name = trim_space form.row.name;
    archived = false;
    mode = mode;
    config = config;
  }
  stored ← store_service row db
  ok (stored.0, audit now u.id "save catalog and visibility" (item "service" stored.0) stored.1))
