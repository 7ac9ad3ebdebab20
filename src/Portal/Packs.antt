-- ===== src/Portal/Packs.antt =====
-- internal/portal/packs.go: `packServiceAllowed`, the rule inside the transactions that create and
-- deliver a connection pack, against the discovery of internal/portal/policy.go.
pub mod Catalog
pub mod Creation
pub mod Files
pub mod Consumption
pub mod Once
use game_server_dashboard.Portal.Db.{Db}
use game_server_dashboard.Portal.Policy.Audiences.{access_id, grants_access}
use game_server_dashboard.Portal.Types.{Audience, Category, ServiceRow, User, is_admin}
use game_server_dashboard.Prelude.{
  Bool, exists_where, false, find_where, if◌then◌else◌, none, not, some, true, ℕ, ◌&&◌, ◌==◌,
}

-- The closure `allowed`.
unfoldable pub pack_audience_allowed : Db → ℕ → User → Audience → ℕ → Bool
pack_audience_allowed db now u aud svc = if is_admin u.role then true else elim aud [
  | Audience.members ↦ true
  | Audience.public ↦ true
  | Audience.grantees ↦ exists_where (grants_access now u.id svc) db.access_records
  | Audience.admins ↦ false
  | Audience.unknown ↦ false
]

-- The columns of the LEFT JOIN: a service without a category counts as one for members.
unfoldable pub pack_category_allowed : Db → ℕ → User → ℕ → Bool
pack_category_allowed db now u id =
    elim (find_where (λ (c : Category). not (id == 0) && c.id == id) db.categories) [
      | some c ↦ pack_audience_allowed db now u c.audience c.access_service
      | none ↦ pack_audience_allowed db now u Audience.members 0
    ]

-- packServiceAllowed
unfoldable pub pack_service_allowed : Db → ℕ → User → ℕ → Bool
pack_service_allowed db now u id =
    elim (find_where (λ (v : ServiceRow). v.id == id && v.published && not v.archived)
      db.services) [
        | some v ↦
            pack_audience_allowed db now u v.audience (access_id v)
            && pack_category_allowed db now u v.category_id
        | none ↦ false
      ]
