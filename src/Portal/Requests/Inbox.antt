-- ===== src/Portal/Requests/Inbox.antt =====
-- internal/portal/requests.go: `Accesses` and `visibleNotifications`, what a user is shown.
use game_server_dashboard.Go.Text.{Text}
use game_server_dashboard.Go.Time.{elapsed, is_unset}
use game_server_dashboard.Portal.Db.{Db}
use game_server_dashboard.Portal.Policy.Audiences.{find_service}
use game_server_dashboard.Portal.Policy.Links.{Url}
use game_server_dashboard.Portal.Policy.Pages.{permitted}
use game_server_dashboard.Portal.Requests.Handlers.{find_request}
use game_server_dashboard.Portal.Rows.{Notification, UserRow}
use game_server_dashboard.Portal.Types.{
  Access, AccessState, Request, Service, ServiceRow, User, is_active, is_admin,
}
use game_server_dashboard.Portal.VpnTypes.{Device}
use game_server_dashboard.Prelude.{
  Bool, List, Option, [], exists_where, false, if◌then◌else◌, none, not, select, some, suc, true,
  zero, ℕ, ◌&&◌, ◌==◌, ◌||◌, ◌∷◌,
}
use mathlib.Core.List.{reverse}

pub record AccessView : Type 0 where
  pub access : Access
  pub service : Option Service

abbrev pub view_details : Option Service → Bool
view_details none = false
view_details (some s) = s.details

-- An active record past its expiry is shown as expired.
unfoldable pub shown_access : ℕ → Access → Access
shown_access now a =
    if is_active a.state && not (is_unset a.expires) && elapsed a.expires now
    then record a { state = AccessState.expired }
    else a

-- The next steps stay only with an active record of a service whose details are shown.
unfoldable pub with_steps : AccessView → AccessView
with_steps v =
    if is_active v.access.state && view_details v.service
    then v
    else record v { access = record (v.access) { next_steps = [] } }

module _ (parse_url : Text → Option Url) (markdown : Text → Text) where
  unfoldable pub service_of : Db → ℕ → User → ℕ → Option Service
  service_of db now u id = elim (find_service id db) [
    | none ↦ none
    | some v ↦ permitted parse_url markdown db now (some u) v
  ]

  unfoldable pub view_of : Db → ℕ → User → Access → AccessView
  unfolding with_steps shown_access service_of
  view_of db now u a =
      with_steps
        (record { access = shown_access now a; service = service_of db now u a.service_id })

  -- The rows of the query, in the order of the list, with what is shown of each.
  unfoldable pub access_views : Db → ℕ → User → List Access → List AccessView
  unfolding view_of
  access_views db now u [] = []
  access_views db now u (a ∷ more) =
      let rest = access_views db now u more in
      if (is_admin u.role || a.user_id == u.id)
        && exists_where (λ (x : UserRow). x.id == a.user_id) db.users
        && exists_where (λ (v : ServiceRow). v.id == a.service_id) db.services
      then view_of db now u a ∷ rest
      else rest

  -- Accesses, of a user who is signed in
  unfoldable pub accesses : Db → ℕ → User → List AccessView
  unfolding access_views
  accesses db now u = access_views db now u (reverse db.access_records)

  -- The three tests of a notification.
  unfoldable pub is_visible : Bool → Db → ℕ → User → Notification → Bool
  unfolding accesses
  is_visible vpn_enabled db now u n =
      (n.device_id == 0
        || vpn_enabled
          && exists_where
              (λ (d : Device). d.id == n.device_id && (is_admin u.role || d.user_id == u.id))
              db.vpn_devices)
      && (n.request_id == 0 || is_found (find_request u n.request_id db))
      && (n.access_id == 0
          || exists_where (λ (v : AccessView). v.access.id == n.access_id) (accesses db now u))
    where
      is_found : Option Request → Bool
      is_found none = false
      is_found (some _) = true

  -- LIMIT
  unfoldable pub first_rows : ℕ → List Notification → List Notification
  first_rows zero rows = []
  first_rows (suc n) [] = []
  first_rows (suc n) (x ∷ rows) = x ∷ first_rows n rows

  -- visibleNotifications
  unfoldable pub visible_notifications : Bool → Db → ℕ → User → Bool → List Notification
  unfolding is_visible first_rows
  visible_notifications vpn_enabled db now u unread = select (is_visible vpn_enabled db now u) (
      first_rows 100 (
        select (λ (n : Notification). n.user_id == u.id && (not unread || is_unset n.read_at))
          (reverse db.notifications)))
