-- ===== src/Portal/Policy/Audiences.antt =====
-- internal/portal/policy.go: access records, audiences, categories and the discovery of services.
-- A viewer is `none` for a visitor who is not signed in.
use game_server_dashboard.Prelude.{
  ℕ, Bool, true, false, not, ◌&&◌, ◌||◌, Option, none, some, ◌==◌, if◌then◌else◌, find_where,
  exists_where,
}
use game_server_dashboard.Go.Time.{upcoming, is_unset}
use game_server_dashboard.Portal.Types.{
  is_admin, Audience, preview_id, User, Category, ServiceRow, is_active, Access,
}
use game_server_dashboard.Portal.Db.{Db}

abbrev pub is_enabled : Option User → Bool
is_enabled none = false
is_enabled (some u) = u.enabled

abbrev pub is_enabled_admin_user : Option User → Bool
is_enabled_admin_user none = false
is_enabled_admin_user (some u) = u.enabled && is_admin u.role

-- The condition on a row in `hasAccess`: state='active' AND (expires='' OR expires>now).
unfoldable pub grants_access : ℕ → ℕ → ℕ → Access → Bool
grants_access now user svc a =
    a.user_id == user
    && a.service_id == svc
    && is_active a.state
    && (is_unset a.expires || upcoming a.expires now)

-- The service whose access records count for `v`.
abbrev pub access_id : ServiceRow → ℕ
access_id v = if v.access_service == 0 then v.id else v.access_service

module _ (db : Db) (now : ℕ) where
  unfoldable pub has_access : Option User → ℕ → Bool
  has_access none svc = false
  has_access (some u) svc =
      if not u.enabled
      then false
      else if u.id == preview_id && u.preview_service == svc
      then true
      else exists_where (grants_access now u.id svc) db.access_records

  unfoldable pub audience_allows : Option User → Audience → ℕ → Bool
  unfolding has_access
  audience_allows u aud svc = if is_enabled_admin_user u then true else elim aud [
    | Audience.public ↦ is_enabled u || db.settings.public
    | Audience.members ↦ is_enabled u
    | Audience.grantees ↦ has_access u svc
    | Audience.admins ↦ false
    | Audience.unknown ↦ false
  ]

  unfoldable pub category_allowed : Option User → ℕ → Bool
  unfolding audience_allows
  category_allowed u id =
      if id == 0 then true else elim (find_where (λ (c : Category). c.id == id) db.categories) [
        | some c ↦ audience_allows u c.audience c.access_service
        | none ↦ false
      ]

  unfoldable pub discover : Option User → Option ServiceRow → Bool
  unfolding category_allowed audience_allows
  discover u none = false
  discover u (some v) =
      if is_enabled_admin_user u
      then true
      else v.published
        && not v.archived
        && category_allowed u v.category_id
        && audience_allows u v.audience (access_id v)

-- Store.service: the row of an id.
unfoldable pub find_service : ℕ → Db → Option ServiceRow
find_service id db = find_where (λ (v : ServiceRow). v.id == id) db.services
