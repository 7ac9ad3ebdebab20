-- ===== src/Portal/Policy/Links.antt =====
-- internal/portal/policy.go: `validURL`, links and announcements. `parse_url` stands for url.Parse,
-- with the parts that the portal looks at, and `markdown` for the rendering of a text.
use game_server_dashboard.Go.Text.{Text, is_blank, text, text_eq, trim_space}
use game_server_dashboard.Go.Time.{elapsed, is_unset, upcoming}
use game_server_dashboard.Portal.Db.{Db}
use game_server_dashboard.Portal.Policy.Audiences.{
  audience_allows, category_allowed, discover, find_service,
}
use game_server_dashboard.Portal.Types.{
  Announcement, Link, Placement, User, category, elsewhere, global, placement_eq, service,
}
use game_server_dashboard.Prelude.{
  Bool, List, Option, [], false, if◌then◌else◌, leb, map, none, not, select, some, true, ℕ, ◌&&◌,
  ◌==◌, ◌||◌, ◌∷◌,
}
use mathlib.Core.List.{reverse}

pub record Url : Type 0 where
  pub scheme : Text
  pub host : Text
  pub has_user : Bool

unfoldable pub is_one_of : ℕ → List ℕ → Bool
is_one_of c [] = false
is_one_of c (d ∷ ds) = c == d || is_one_of c ds

unfoldable pub contains_any : List ℕ → Text → Bool
unfolding is_one_of
contains_any cs [] = false
contains_any cs (c ∷ s) = is_one_of c cs || contains_any cs s

abbrev pub is_web_scheme : Text → Bool
is_web_scheme s = text_eq s (text "http") || text_eq s (text "https")

-- validURL: whether it returns no error.
unfoldable pub valid_url : (Text → Option Url) → Text → Bool → Bool
unfolding contains_any
valid_url parse_url raw launch =
    is_blank raw
    || not (contains_any (13 ∷ 10 ∷ 9 ∷ []) raw)
      && text_eq (trim_space raw) raw
      && (elim (parse_url raw) [
        | none ↦ false
        | some u ↦
            not u.has_user
            && not (is_blank u.host)
            && (is_web_scheme u.scheme || launch && text_eq u.scheme (text "steam"))
      ])

-- ORDER BY position,id, for a table in the order of its ids.
unfoldable pub insert_link : Link → List Link → List Link
insert_link l [] = l ∷ []
insert_link l (m ∷ ms) =
    let rest = insert_link l ms in if leb l.position m.position then l ∷ m ∷ ms else m ∷ rest

unfoldable pub links_in_order : List Link → List Link
unfolding insert_link
links_in_order [] = []
links_in_order (l ∷ ls) = insert_link l (links_in_order ls)

module _ (db : Db) (now : ℕ) where
  -- parentAllowed
  unfoldable pub parent_allowed : Option User → Placement → ℕ → ℕ → Bool
  parent_allowed u placement parent acc =
      (elim placement [
        | global ↦ true
        | category ↦ category_allowed db now u parent
        | service ↦ discover db now u (find_service parent db)
        | elsewhere ↦ false
      ])
      && (acc == 0 || discover db now u (find_service acc db))

  -- linkAllowed
  unfoldable pub link_allowed : Option User → Link → Bool
  unfolding parent_allowed
  link_allowed u l =
      l.enabled
      && not (is_blank l.url)
      && parent_allowed u l.placement l.parent_id l.access_service
      && audience_allows db now u l.audience l.access_service

  -- LinksFor
  unfoldable pub links_for : Option User → Placement → ℕ → List Link
  unfolding link_allowed
  links_for u placement parent =
      select
        (λ (l : Link).
          placement_eq l.placement placement && l.parent_id == parent && link_allowed u l)
        (links_in_order db.links)

  abbrev pub is_current : Announcement → Bool
  is_current a =
      a.enabled
      && (is_unset a.starts || elapsed a.starts now)
      && (is_unset a.ends || upcoming a.ends now)

  -- announcements; the rendered text stands with each.
  unfoldable pub announcements :
      (Text → Text) → Option User → Placement → ℕ → List (Announcement × Text)
  unfolding parent_allowed
  announcements markdown u placement parent =
      map (λ (a : Announcement). (a, markdown a.body))
        (select
          (λ (a : Announcement).
            placement_eq a.placement placement
            && a.parent_id == parent
            && is_current a
            && parent_allowed u a.placement a.parent_id a.access_service
            && audience_allows db now u a.audience a.access_service)
          (reverse db.announcements))
