-- ===== src/Portal/Policy/Withheld.antt =====
-- What the service page of internal/portal/policy.go withholds.
use game_server_dashboard.Go.Text.{Text}
use game_server_dashboard.Portal.Db.{Db}
use game_server_dashboard.Portal.Policy.Audiences.{
  access_id, audience_allows, discover, has_access, is_enabled,
}
use game_server_dashboard.Portal.Policy.Links.{
  Url, link_allowed, links_for, links_in_order, valid_url,
}
use game_server_dashboard.Portal.Policy.Pages.{
  external_portal, is_requestable, permitted, portal_link, shown_config, shown_service,
  without_details, without_portal,
}
use game_server_dashboard.Portal.Types.{Link, Placement, Service, ServiceConfig, ServiceRow, User}
use game_server_dashboard.Prelude.{
  All, All-map, Bool, Bool-cases, List, Option, Option-cases, [], ap, arith, false, inl, inr, none,
  refl, select, some, subst, true, ℕ, ◌∷◌, ◌≡◌, ◌⊎◌,
}
use game_server_dashboard.Vpn.Gateway.Tick.{offered}

-- The texts of a service that only viewers of its details may read.
abbrev pub HidesDetails : ServiceConfig → Type 0
HidesDetails c =
    (c.host ≡ [])
    × (c.port ≡ [])
    × (c.version ≡ [])
    × (c.platform ≡ [])
    × (c.connection ≡ [])
    × (c.custom ≡ [])
    × (c.guide ≡ [])

select-true : {A : Type 0} (p : A → Bool) (xs : List A) → All (λ x. p x ≡ true) (select p xs)
unfolding select
select-true p [] = tt
select-true p (x ∷ xs) = elim (Bool-cases (p x)) [
  | inl e ↦ rw e (e, select-true p xs)
  | inr e ↦ rw e (select-true p xs)
]

module _ (parse_url : Text → Option Url) (markdown : Text → Text) (db : Db) (now : ℕ) where
  shown_config-hides :
      (details : Bool) (c : ServiceConfig)
      → (details ≡ true) ⊎ HidesDetails (shown_config parse_url markdown db now details c)
  unfolding shown_config without_details without_portal
  shown_config-hides true c = inl refl
  shown_config-hides false c = inr (refl, refl, refl, refl, refl, refl, refl)

  external_portal-allowed :
      (u : Option User) (v : ServiceRow) {l : Link}
      → external_portal parse_url markdown db now u v ≡ some l
      → (link_allowed db now u l ≡ true) × (valid_url parse_url l.url false ≡ true)
  unfolding external_portal portal_link
  external_portal-allowed u v {l} e = ground arith

  links_for-allowed :
      (u : Option User) (parent : ℕ)
      → All
          (λ (l : Link). link_allowed db now u l ≡ true)
          (links_for db now u Placement.service parent)
  unfolding links_for
  links_for-allowed u parent =
      All-map _ _ _ (λ l h. ground arith) (select-true _ (links_in_order db.links))

  is_requestable-cases :
      (u : Option User) (v : ServiceRow)
      → (is_requestable parse_url markdown db now u v ≡ false)
        ⊎ ((is_enabled u ≡ true) × (v.published ≡ true) × (has_access db now u v.id ≡ false))
  unfolding is_requestable
  is_requestable-cases none v = inl refl
  is_requestable-cases (some u) v =
      elim (Bool-cases (is_requestable parse_url markdown db now (some u) v)) [
        | inr no_request ↦ inl no_request
        | inl offered ↦ inr (ground arith, ground arith, ground arith)
      ]

  -- What a service page keeps to, for a viewer.
  abbrev pub Withholds : Option User → ServiceRow → Service → Type 0
  Withholds u v s =
      ((audience_allows db now u v.details_audience (access_id v) ≡ true)
        ⊎ (HidesDetails s.row.config × (s.guide_html ≡ markdown [])))
      × (s.html ≡ markdown s.row.config.description)
      × (s.row.config.external_portal_url ≡ [])
      × All (λ (l : Link). link_allowed db now u l ≡ true) s.links
      × ((s.external_portal ≡ none)
          ⊎ ((l : Link) × (s.external_portal ≡ some l)
              × (link_allowed db now u l ≡ true)
              × (valid_url parse_url l.url false ≡ true)))
      × ((s.requestable ≡ false)
          ⊎ ((is_enabled u ≡ true) × (v.published ≡ true) × (has_access db now u v.id ≡ false)))

  shown_service-Withholds :
      (u : Option User) (v : ServiceRow)
      → Withholds u v (shown_service parse_url markdown db now u v)
  unfolding shown_service shown_config without_portal
  shown_service-Withholds u v = (
    hidden_guide
        (shown_config parse_url markdown db now
          (audience_allows db now u v.details_audience (access_id v)) v.config)
        (shown_config-hides (audience_allows db now u v.details_audience (access_id v)) v.config),
    refl,
    refl,
    links_for-allowed u v.id,
    elim (Option-cases (external_portal parse_url markdown db now u v)) [
      | inl no_link ↦ inl no_link
      | inr (l, found) ↦
          let (seen, valid) = external_portal-allowed u v {l = l} found in
          inr (l, found, seen, valid)
    ],
    is_requestable-cases u v,
  )
    where
      hidden_guide :
          {P : Type 0} (c : ServiceConfig)
          → P ⊎ HidesDetails c
          → P ⊎ (HidesDetails c × (markdown c.guide ≡ markdown []))
      hidden_guide c (inl allowed) = inl allowed
      hidden_guide c (inr hides) = inr (hides, ap markdown hides.6)

  -- A service page is shown only of a service that the viewer discovers. It holds the address, the
  -- connection and the guide, as text or rendered, only where the viewer passes the details
  -- audience of the service, its other rendered text is the description that it shows, it never holds
  -- the configured sign-up address, and its links are ones that the viewer may see. The
  -- sign-up link, where there is one, is valid and one that the viewer may see, and a request is
  -- offered only to an enabled member without access to the published service.
  pub permitted-Withholds :
      (u : Option User) (v : ServiceRow) {s : Service}
      → permitted parse_url markdown db now u v ≡ some s
      → (discover db now u (some v) ≡ true) × Withholds u v s
  unfolding permitted
  permitted-Withholds u v {s} e = elim (Bool-cases (discover db now u (some v))) [
    | inr hidden ↦ absurd (cc (let h : none ≡ some s = rw hidden at e in h))
    | inl seen ↦
        let h : some (shown_service parse_url markdown db now u v) ≡ some s = rw seen at e in
        let same : shown_service parse_url markdown db now u v ≡ s = cc in
        (seen, subst (Withholds u v) same (shown_service-Withholds u v))
  ]
