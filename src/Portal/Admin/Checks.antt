-- ===== src/Portal/Admin/Checks.antt =====
-- internal/portal/admin.go: what the editors of the catalogue check of a form. A number of a form
-- is 0 where the text is none, as `number` has it.
use game_server_dashboard.Go.Text.{Text, is_blank}
use game_server_dashboard.Go.Time.{Stamp, at, unset}
use game_server_dashboard.Portal.Db.{Db, Error, refused}
use game_server_dashboard.Portal.Types.{Audience, Category, Placement, ServiceRow}
use game_server_dashboard.Prelude.{
  Bool, Option, Result, err, exists_where, false, guard, if◌then◌else◌, none, not, ok, require,
  some, true, ℕ, ◌==◌, ◌>>=◌, ◌>>◌, ◌||◌,
}

abbrev pub is_valid_audience : Audience → Bool
is_valid_audience Audience.unknown = false
is_valid_audience _ = true

abbrev pub is_access_audience : Audience → Bool
is_access_audience Audience.grantees = true
is_access_audience _ = false

abbrev pub has_service : ℕ → Db → Bool
has_service id db = exists_where (λ (v : ServiceRow). v.id == id) db.services

abbrev pub has_category : ℕ → Db → Bool
has_category id db = exists_where (λ (c : Category). c.id == id) db.categories

-- validateAudience
unfoldable pub validate_audience : Audience → ℕ → Db → Result Error (Unit {0})
validate_audience aud svc db = do
  guard (is_valid_audience aud) (refused "Choose a valid audience.")
  guard (not (is_access_audience aud) || has_service svc db)
      (refused "Access audience requires an associated service.")
  guard (svc == 0 || has_service svc db) (refused "Associated service does not exist.")

-- validateParent
unfoldable pub validate_parent : Placement → ℕ → Db → Result Error (Unit {0})
validate_parent Placement.global parent db =
    guard (parent == 0) (refused "Global placement has no parent")
validate_parent Placement.service parent db =
    guard (has_service parent db) (refused "Choose an existing parent service")
validate_parent Placement.category parent db =
    guard (has_category parent db) (refused "Choose an existing parent category")
validate_parent Placement.elsewhere parent db =
    err (refused "Choose global, category or service placement")

-- placementParent; a parent field of the form is `none` where the form lacks it.
unfoldable pub placement_parent : Placement → Option ℕ → Option ℕ → ℕ → ℕ
placement_parent Placement.global of_category of_service parent = 0
placement_parent Placement.category (some c) of_service parent = c
placement_parent Placement.category none of_service parent = parent
placement_parent Placement.service of_category (some s) parent = s
placement_parent Placement.service of_category none parent = parent
placement_parent Placement.elsewhere of_category of_service parent = parent

-- parseTime; `parse` tries both layouts.
unfoldable pub parse_moment : (Text → Option ℕ) → Text → Result Error Stamp
parse_moment parse v =
    if is_blank v
    then ok unset
    else (do t ← require (parse v) (refused "Enter a valid UTC date and time."); ok (at t))
