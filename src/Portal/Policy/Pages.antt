-- ===== src/Portal/Policy/Pages.antt =====
-- internal/portal/policy.go: `permitted`, what a viewer is shown of a service.
use game_server_dashboard.Go.Text.{Text, is_blank, text}
use game_server_dashboard.Portal.Db.{Db}
use game_server_dashboard.Portal.Policy.Audiences.{
  access_id, audience_allows, discover, has_access, is_enabled,
}
use game_server_dashboard.Portal.Policy.Links.{Url, link_allowed, links_for, valid_url}
use game_server_dashboard.Portal.Requests.Handlers.{is_active_access}
use game_server_dashboard.Portal.Rows.{Recommendation}
use game_server_dashboard.Portal.Types.{
  Audience, Link, Placement, Service, ServiceConfig, ServiceRow, User, is_external_mode,
  is_request_mode,
}
use game_server_dashboard.Prelude.{
  Bool, Option, [], exists_where, false, if◌then◌else◌, none, not, some, true, ℕ, ◌&&◌, ◌==◌,
}

abbrev pub or_text : Text → Text → Text
or_text s t = if is_blank s then t else s

abbrev pub or_members : Option Audience → Audience
or_members none = Audience.members
or_members (some a) = a

-- What is blanked where the viewer may not see the details.
unfoldable pub without_details : ServiceConfig → ServiceConfig
without_details c = record c {
  host = [];
  port = [];
  version = [];
  platform = [];
  connection = [];
  custom = [];
  guide = [];
}

unfoldable pub without_portal : ServiceConfig → ServiceConfig
without_portal c = record c {
  external_portal_url = [];
  external_portal_label = [];
  external_portal_audience = none;
  external_portal_new_tab = false;
}

unfoldable pub portal_link : ServiceRow → Link
portal_link v = record {
  id = 0;
  label = or_text v.config.external_portal_label (text "Open signup portal");
  url = v.config.external_portal_url;
  placement = Placement.service;
  parent_id = v.id;
  access_service = access_id v;
  audience = or_members v.config.external_portal_audience;
  position = 0;
  enabled = true;
  style = text "primary";
  new_tab = v.config.external_portal_new_tab;
  icon = [];
  description = [];
}

module _ (parse_url : Text → Option Url) (markdown : Text → Text) (db : Db) (now : ℕ) where
  unfoldable pub external_portal : Option User → ServiceRow → Option Link
  unfolding portal_link
  external_portal u v =
      if is_external_mode v.mode
        && not (is_blank v.config.external_portal_url)
        && valid_url parse_url v.config.external_portal_url false
        && link_allowed db now u (portal_link v)
      then some (portal_link v)
      else none

  unfoldable pub is_requestable : Option User → ServiceRow → Bool
  is_requestable none v = false
  is_requestable (some u) v =
      u.enabled
      && is_request_mode v.mode
      && v.published
      && not v.archived
      && not (has_access db now (some u) v.id)
      && not (exists_where (is_active_access u.id v.id) db.requests)

  abbrev pub is_recommended : Option User → ServiceRow → Bool
  is_recommended none v = false
  is_recommended (some u) v =
      exists_where (λ (r : Recommendation). r.user_id == u.id && r.service_id == v.id)
        db.recommendations

  unfoldable pub shown_config : Bool → ServiceConfig → ServiceConfig
  unfolding without_details without_portal
  shown_config details c = without_portal (if details then c else without_details c)

  unfoldable pub shown_service : Option User → ServiceRow → Service
  unfolding external_portal is_requestable shown_config
  shown_service u v =
      let details = audience_allows db now u v.details_audience (access_id v) in
      let config = shown_config details v.config in
      record {
        row = record v { config = config };
        external_portal = external_portal u v;
        supportable = is_enabled u && v.published && not v.archived;
        recommended = is_recommended u v;
        requestable = is_requestable u v;
        details = details;
        links = links_for db now u Placement.service v.id;
        html = markdown config.description;
        guide_html = markdown config.guide;
      }

  -- permitted
  unfoldable pub permitted : Option User → ServiceRow → Option Service
  unfolding shown_service
  permitted u v = if discover db now u (some v) then some (shown_service u v) else none
