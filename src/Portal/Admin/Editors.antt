-- ===== src/Portal/Admin/Editors.antt =====
-- internal/portal/admin.go: `saveCategory`, `saveLink` and `saveAnnouncement`. A form is a row with
-- the values of its fields; its id is 0 for a new row. `seen` is the database that the checks before
-- the transaction read.
-- saveCategory
use game_server_dashboard.Go.Text.{Text, includes_text, is_blank, text, text_eq, trim_space}
use game_server_dashboard.Go.Time.{Stamp, at}
use game_server_dashboard.Portal.Admin.Checks.{parse_moment, validate_audience, validate_parent}
use game_server_dashboard.Portal.Db.{Db, Error, audit, refused, write}
use game_server_dashboard.Portal.Policy.Links.{Url, valid_url}
use game_server_dashboard.Portal.Rows.{item}
use game_server_dashboard.Portal.Types.{Announcement, Category, Link, Placement, User, placement_eq}
use game_server_dashboard.Prelude.{
  Bool, List, Option, Result, [], append_row, exists_where, false, guard, if◌then◌else◌, leb,
  length, next_id, not, ok, update_where, ℕ, ◌&&◌, ◌==◌, ◌>>=◌, ◌>>◌, ◌∷◌,
}

unfoldable pub save_category : ℕ → User → Category → Db → Db → Result Error (Unit {0}) × Db
unfolding validate_audience
save_category now u form seen db =
    let name = trim_space form.name in
    write db (do
      guard (not (is_blank name) && leb (length name) 80)
          (refused "Category name is required (up to 80 characters).")
      validate_audience form.audience form.access_service seen
      guard
          (not (
            exists_where (λ (c : Category). text_eq c.name name && not (c.id == form.id))
              db.categories))
          (refused "UNIQUE constraint failed: categories.name")
      let new = next_id (λ (c : Category). c.id) db.categories
      let id = if form.id == 0 then new else form.id
      let row = record form { id = id; name = name }
      ok (
          audit now u.id "save category and visibility" (item "category" id) (record db {
            categories =
                if form.id == 0
                then append_row db.categories row
                else update_where (λ (c : Category). c.id == id) (λ _. row) db.categories;
          })))

abbrev pub icons : List Text
icons =
    text "link"
    ∷ text "game"
    ∷ text "play"
    ∷ text "book"
    ∷ text "status"
    ∷ text "download"
    ∷ text "community"
    ∷ []

abbrev pub styles : List Text
styles = text "primary" ∷ text "secondary" ∷ []

-- The checks of saveLink.
unfoldable pub link_checks : (Text → Option Url) → Link → Db → Result Error (Unit {0})
unfolding validate_parent validate_audience
link_checks parse_url form db = do
  guard
      (not (is_blank form.label)
        && leb (length form.label) 100
        && leb (length form.url) 2048
        && leb (length form.description) 300)
      (refused "Provide a short label and valid URL length")
  validate_parent form.placement form.parent_id db
  validate_audience form.audience form.access_service db
  guard
      (valid_url parse_url form.url
        (placement_eq form.placement Placement.service && text_eq form.icon (text "game")))
      (refused "Invalid URL")
  guard (includes_text icons form.icon) (refused "Choose a supported icon")
  guard (includes_text styles form.style) (refused "Choose primary action or secondary resource")

-- saveLink
unfoldable pub save_link :
    (Text → Option Url) → ℕ → User → Link → Db → Db → Result Error (Unit {0}) × Db
unfolding link_checks
save_link parse_url now u form seen db =
    let link : Link = record form { label = trim_space form.label } in
    write db (do
      link_checks parse_url link seen
      let new = next_id (λ (l : Link). l.id) db.links
      let id = if form.id == 0 then new else form.id
      let row : Link = record link { id = id }
      ok (
          audit now u.id "save contextual link" (item "link" id) (record db {
            links =
                if form.id == 0
                then append_row db.links row
                else update_where (λ (l : Link). l.id == id) (λ _. row) db.links;
          })))

-- start >= end, of two times that are given
abbrev pub ends_first : Stamp → Stamp → Bool
ends_first (at start) (at end) = leb end start
ends_first _ _ = false

-- saveAnnouncement
unfoldable pub save_announcement :
    (Text → Option ℕ)
    → ℕ
    → User
    → Announcement
    → Text
    → Text
    → Db
    → Db
    → Result Error (Unit {0}) × Db
unfolding validate_parent validate_audience parse_moment
save_announcement parse now u form starts ends seen db = write db (do
  guard (not (is_blank form.title) && leb (length form.title) 120 && leb (length form.body) 4000)
      (refused "Provide a title and concise announcement (up to 4,000 characters).")
  validate_parent form.placement form.parent_id seen
  validate_audience form.audience form.access_service seen
  start ← parse_moment parse starts
  end ← parse_moment parse ends
  guard (not (ends_first start end)) (refused "End must be after start")
  let new = next_id (λ (a : Announcement). a.id) db.announcements
  let id = if form.id == 0 then new else form.id
  let row : Announcement = record form { id = id; starts = start; ends = end }
  ok (
      audit now u.id "save announcement" (item "announcement" id) (record db {
        announcements =
            if form.id == 0
            then append_row db.announcements row
            else update_where (λ (a : Announcement). a.id == id) (λ _. row) db.announcements;
      })))
