-- ===== src/Portal/Admin/Destruction.antt =====
-- internal/portal/admin.go: what an administrator deletes. A service that anything refers to is
-- archived in place of deleted.
use game_server_dashboard.Go.Text.{Text}
use game_server_dashboard.Portal.Accounts.Tokens.{retire_tokens}
use game_server_dashboard.Portal.Db.{Db, Error, audit, refused, write}
use game_server_dashboard.Portal.Rows.{
  Media, Recommendation, TokenKind, TokenRecommendation, item, named,
}
use game_server_dashboard.Portal.Types.{
  Access, Announcement, Category, Link, Placement, Request, ServiceRow, User, placement_eq,
}
use game_server_dashboard.Portal.VpnTypes.{NetworkTarget}
use game_server_dashboard.Prelude.{
  Bool, Result, delete_where, exists_where, false, guard, if◌then◌else◌, not, ok, true,
  update_where, ℕ, ◌&&◌, ◌==◌, ◌>>◌, ◌||◌,
}

pub data Removal : Type 0 where
  delete archive : Removal

abbrev pub is_delete : Removal → Bool
is_delete delete = true
is_delete archive = false

-- The sum of the seven counts is not 0.
unfoldable pub is_referenced : ℕ → Db → Bool
is_referenced id db =
    exists_where (λ (r : Request). r.service_id == id) db.requests
    || exists_where (λ (a : Access). a.service_id == id) db.access_records
    || exists_where (λ (l : Link). l.access_service == id) db.links
    || exists_where (λ (v : ServiceRow). v.access_service == id) db.services
    || exists_where (λ (c : Category). c.access_service == id) db.categories
    || exists_where (λ (a : Announcement). a.access_service == id) db.announcements
    || exists_where (λ (t : NetworkTarget). t.service_id == id) db.vpn_targets

-- The four DELETE statements, and the two foreign keys that cascade.
unfoldable pub delete_service : ℕ → Db → Db
delete_service id db = record db {
  links =
      delete_where (λ (l : Link). placement_eq l.placement Placement.service && l.parent_id == id)
        db.links;
  announcements =
      delete_where
        (λ (a : Announcement). placement_eq a.placement Placement.service && a.parent_id == id)
        db.announcements;
  media = delete_where (λ (x : Media). x.service_id == id) db.media;
  services = delete_where (λ (v : ServiceRow). v.id == id) db.services;
  recommendations = delete_where (λ (r : Recommendation). r.service_id == id) db.recommendations;
  token_recommendations =
      delete_where (λ (r : TokenRecommendation). r.service_id == id) db.token_recommendations;
}

unfoldable pub archive_service : ℕ → Db → Db
archive_service id db = record db {
  services =
      update_where (λ (v : ServiceRow). v.id == id)
        (λ v. record v { archived = true; published = false }) db.services;
}

-- destroyService
unfoldable pub destroy_service : ℕ → User → ℕ → Removal → Bool → Db → Result Error (Unit {0}) × Db
unfolding is_referenced delete_service archive_service
destroy_service now u id removal confirmed db = write db (do
  guard confirmed (refused "Confirm this destructive action.")
  ok (
      if is_delete removal && not (is_referenced id db)
      then audit now u.id "delete" (item "service" id) (delete_service id db)
      else audit now u.id "archive" (item "service" id) (archive_service id db)))

-- saveCategory, where its action is "delete"
unfoldable pub delete_category : ℕ → User → ℕ → Bool → Db → Result Error (Unit {0}) × Db
delete_category now u id confirmed db = write db (do
  guard confirmed (refused "Confirm deletion")
  guard
      (not (
        exists_where (λ (v : ServiceRow). v.category_id == id) db.services
        || exists_where
            (λ (l : Link). placement_eq l.placement Placement.category && l.parent_id == id)
            db.links
        || exists_where
            (λ (a : Announcement). placement_eq a.placement Placement.category && a.parent_id == id)
            db.announcements))
      (refused "Reassign this category's services, links and announcements before deleting it.")
  ok (
      audit now u.id "delete category" (item "category" id)
        (record db { categories = delete_where (λ (c : Category). c.id == id) db.categories })))

-- deleteSimple, of either table
unfoldable pub delete_link : ℕ → User → ℕ → Bool → Db → Result Error (Unit {0}) × Db
delete_link now u id confirmed db = write db (do
  guard confirmed (refused "Confirm deletion")
  ok (
      audit now u.id "delete links" (item "links" id)
        (record db { links = delete_where (λ (l : Link). l.id == id) db.links })))

unfoldable pub delete_announcement : ℕ → User → ℕ → Bool → Db → Result Error (Unit {0}) × Db
delete_announcement now u id confirmed db = write db (do
  guard confirmed (refused "Confirm deletion")
  ok (
      audit now u.id "delete announcements" (item "announcements" id) (record db {
        announcements = delete_where (λ (a : Announcement). a.id == id) db.announcements;
      })))

-- "revoke-token": the links of a kind and name that are still live are used up.
unfoldable pub revoke_links : ℕ → User → TokenKind → Text → Bool → Db → Result Error (Unit {0}) × Db
revoke_links now u kind username confirmed db = write db (do
  guard confirmed (refused "Confirm invitation/recovery link revocation")
  ok (
      audit now u.id "revoke delivery link" (named "membership")
        (record db { tokens = retire_tokens now kind username db.tokens })))
