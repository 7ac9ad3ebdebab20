-- ===== src/Portal/Packs/Catalog.antt =====
-- packServiceAllowed of internal/portal/packs.go against the discovery of internal/portal/policy.go.
use game_server_dashboard.Portal.Db.{Db}
use game_server_dashboard.Portal.Packs.{
  pack_audience_allowed, pack_category_allowed, pack_service_allowed,
}
use game_server_dashboard.Portal.Policy.Audiences.{
  access_id, audience_allows, category_allowed, discover, find_service, has_access,
}
use game_server_dashboard.Portal.Types.{Audience, Category, ServiceRow, User, is_admin, preview_id}
use game_server_dashboard.Prelude.{
  Bool, Bool-cases, List, Option, [], arith, count_where, false, find_where, if◌then◌else◌, inl,
  inr, none, not, refl, some, true, ℕ, ◌&&◌, ◌==◌, ◌∷◌, ◌≡◌, ◌≤◌, ◌⊎◌,
}

module _ (db : Db) (now : ℕ) (u : User) (able : u.enabled ≡ true)
    (real : (u.id == preview_id) ≡ false) where
  pack_audience-audience :
      (aud : Audience) (svc : ℕ)
      → pack_audience_allowed db now u aud svc ≡ audience_allows db now (some u) aud svc
  unfolding pack_audience_allowed audience_allows has_access
  pack_audience-audience aud svc = ground arith

  find_where-and_not :
      (id : ℕ) (cs : List Category)
      → (id == 0) ≡ false
      → find_where (λ (c : Category). not (id == 0) && c.id == id) cs
        ≡ find_where (λ (c : Category). c.id == id) cs
  unfolding find_where
  find_where-and_not id [] h = refl
  find_where-and_not id (c ∷ cs) h = ground (arith, find_where-and_not id cs h)

  find_where-null :
      (id : ℕ) (cs : List Category)
      → (id == 0) ≡ true
      → find_where (λ (c : Category). not (id == 0) && c.id == id) cs ≡ none
  unfolding find_where
  find_where-null id [] h = refl
  find_where-null id (c ∷ cs) h = ground (arith, find_where-null id cs h)

  pack_category-category :
      (id : ℕ)
      → ((id == 0) ≡ true)
        ⊎ ((c : Category) × (find_where (λ (c : Category). c.id == id) db.categories ≡ some c))
      → pack_category_allowed db now u id ≡ category_allowed db now (some u) id
  unfolding pack_category_allowed category_allowed pack_audience_allowed
  pack_category-category id (inl zero_id) = ground (arith, find_where-null id db.categories zero_id)
  pack_category-category id (inr (c, found)) = elim (Bool-cases (id == 0)) [
    | inl zero_id ↦ ground (arith, find_where-null id db.categories zero_id)
    | inr other ↦ ground (
      arith,
      find_where-and_not id db.categories other,
      pack_audience-audience c.audience c.access_service,
    )
  ]

  find_absent :
      (p : ServiceRow → Bool) (q : ServiceRow → Bool) (vs : List ServiceRow)
      → count_where p vs ≡ 0
      → find_where (λ x. p x && q x) vs ≡ none
  unfolding count_where find_where
  find_absent p q [] h = refl
  find_absent p q (x ∷ vs) h = ground (arith, find_absent p q vs)

  count_where-find :
      (p : ServiceRow → Bool) (q : ServiceRow → Bool) (vs : List ServiceRow) {v : ServiceRow}
      → count_where p vs ≤ 1
      → find_where p vs ≡ some v
      → find_where (λ x. p x && q x) vs ≡ (if q v then some v else none)
  unfolding count_where find_where
  count_where-find p q [] one e = absurd (cc)
  count_where-find p q (x ∷ vs) {v} one e = elim (Bool-cases (p x)) [
    | inl t ↦
        let h : ◌≡◌ {A = Option ServiceRow} (some x) (some v) = rw t at e in
        let same : x ≡ v = cc in
        let none_left : count_where p vs ≡ 0 = ground arith in
        rw (t, find_absent p q vs none_left, same)
    | inr t ↦ rw t (count_where-find p q vs {v = v} (ground arith) (rw t at e))
  ]

  assoc_find :
      (id : ℕ) (vs : List ServiceRow)
      → find_where (λ (x : ServiceRow). x.id == id && x.published && not x.archived) vs
        ≡ find_where (λ (x : ServiceRow). x.id == id && (x.published && not x.archived)) vs
  unfolding find_where
  assoc_find id [] = refl
  assoc_find id (x ∷ vs) = ground (arith, assoc_find id vs)

  find_where-open :
      (id : ℕ) (vs : List ServiceRow) {v : ServiceRow}
      → count_where (λ (x : ServiceRow). x.id == id) vs ≤ 1
      → find_where (λ (x : ServiceRow). x.id == id) vs ≡ some v
      → find_where (λ (x : ServiceRow). x.id == id && x.published && not x.archived) vs
        ≡ (if v.published && not v.archived then some v else none)
  find_where-open id vs {v} one found =
      rw (assoc_find id vs)
        (count_where-find (λ x. x.id == id) (λ x. x.published && not x.archived) vs one found)

  -- For a caller who is not an administrator, a service whose id one row at most holds, and whose
  -- category is unset or present, `packServiceAllowed` answers what catalog discovery answers.
  pub pack_service-discover :
      (id : ℕ) (v : ServiceRow)
      → is_admin u.role ≡ false
      → count_where (λ (x : ServiceRow). x.id == id) db.services ≤ 1
      → find_service id db ≡ some v
      → ((v.category_id == 0) ≡ true)
        ⊎ ((c : Category) × (find_where (λ (c : Category). c.id == v.category_id) db.categories
              ≡ some c))
      → pack_service_allowed db now u id ≡ discover db now (some u) (some v)
  unfolding pack_service_allowed discover find_service
  pack_service-discover id v plain one found cat = ground (
    arith,
    find_where-open id db.services {v = v} one found,
    pack_audience-audience v.audience (access_id v),
    pack_category-category v.category_id cat,
  )
