-- ===== src/Portal/Policy/Viewers.antt =====
-- What the decisions of internal/portal/policy.go make of a viewer.
use game_server_dashboard.Portal.Db.{Db}
use game_server_dashboard.Portal.Policy.Audiences.{
  access_id, audience_allows, category_allowed, discover, has_access, is_enabled,
  is_enabled_admin_user,
}
use game_server_dashboard.Portal.Types.{Audience, Category, ServiceRow, User}
use game_server_dashboard.Prelude.{
  Option, Option-cases, arith, false, find_where, inl, inr, none, not, refl, some, true, ℕ, ◌&&◌,
  ◌==◌, ◌≡◌,
}

module _ (db : Db) (now : ℕ) where
  audience_allows_signed_out :
      (u : Option User) (aud : Audience) (svc : ℕ)
      → is_enabled u ≡ false
      → audience_allows db now u aud svc ≡ audience_allows db now none aud svc
  unfolding audience_allows has_access
  audience_allows_signed_out none aud svc h = refl
  audience_allows_signed_out (some u) aud svc h = ground arith

  category_allowed_signed_out :
      (u : Option User) (id : ℕ)
      → is_enabled u ≡ false
      → category_allowed db now u id ≡ category_allowed db now none id
  unfolding category_allowed
  category_allowed_signed_out u id h =
      elim (Option-cases (find_where (λ (c : Category). c.id == id) db.categories)) [
        | inl n ↦ ground arith
        | inr (c, s) ↦ ground (arith, audience_allows_signed_out u c.audience c.access_service h)
      ]

  -- A disabled account sees exactly the services that a visitor without an account sees.
  pub discover_disabled :
      (u : User) (v : Option ServiceRow)
      → u.enabled ≡ false
      → discover db now (some u) v ≡ discover db now none v
  unfolding discover
  discover_disabled u none h = refl
  discover_disabled u (some v) h = ground (
    arith,
    category_allowed_signed_out (some u) v.category_id h,
    audience_allows_signed_out (some u) v.audience (access_id v) h,
  )

  audience_allows_public :
      (u : User) (aud : Audience) (svc : ℕ)
      → audience_allows db now none aud svc ≡ true
      → audience_allows db now (some u) aud svc ≡ true
  unfolding audience_allows has_access
  audience_allows_public u Audience.public svc h = ground arith
  audience_allows_public u Audience.members svc h = absurd (cc)
  audience_allows_public u Audience.grantees svc h = absurd (cc)
  audience_allows_public u Audience.admins svc h = absurd (cc)
  audience_allows_public u Audience.unknown svc h = absurd (cc)

  category_allowed_public :
      (u : User) (id : ℕ)
      → category_allowed db now none id ≡ true
      → category_allowed db now (some u) id ≡ true
  unfolding category_allowed
  category_allowed_public u id h =
      elim (Option-cases (find_where (λ (c : Category). c.id == id) db.categories)) [
        | inl n ↦ ground arith
        | inr (c, s) ↦ ground (arith, audience_allows_public u c.audience c.access_service)
      ]

  -- What a visitor without an account discovers, every account discovers.
  pub discover_public :
      (u : User) (v : Option ServiceRow)
      → discover db now none v ≡ true
      → discover db now (some u) v ≡ true
  unfolding discover
  discover_public u none h = h
  discover_public u (some v) h = ground (
    arith,
    category_allowed_public u v.category_id,
    audience_allows_public u v.audience (access_id v),
  )

  pub discover_hidden :
      (u : Option User) (v : ServiceRow)
      → is_enabled_admin_user u ≡ false
      → (v.published && not v.archived) ≡ false
      → discover db now u (some v) ≡ false
  unfolding discover
  discover_hidden u v plain hidden = ground arith
