-- ===== src/Portal/Admin/Followups.antt =====
-- internal/portal/admin.go and requests.go: the reminders to remove permissions by hand, of which a
-- partial unique index keeps one open for each access record.
use Prim.Native.String.{String}
use game_server_dashboard.Go.Time.{at, is_unset, unset}
use game_server_dashboard.Portal.Db.{Db, Error, audit, conflict, refused, write}
use game_server_dashboard.Portal.Rows.{Followup, item}
use game_server_dashboard.Portal.Types.{Access, User}
use game_server_dashboard.Prelude.{
  Bool, List, Result, [], append_row, count_where, exists_where, guard, if◌then◌else◌, next_id, ok,
  update_where, ℕ, ◌&&◌, ◌==◌, ◌>>◌, ◌∷◌,
}

abbrev pub is_open_followup : ℕ → Followup → Bool
is_open_followup acc f = f.access_id == acc && is_unset f.completed

-- INSERT OR IGNORE INTO followups
unfoldable pub add_followup : ℕ → ℕ → String → List Followup → List Followup
add_followup now acc reason rows =
    if exists_where (is_open_followup acc) rows
    then rows
    else append_row rows (record {
      id = next_id (λ (f : Followup). f.id) rows;
      access_id = acc;
      reason = reason;
      created = now;
      completed = unset;
      actor_id = 0;
    })

-- The same for each access record that passes a test.
unfoldable pub add_followups :
    ℕ → (Access → Bool) → String → List Access → List Followup → List Followup
unfolding add_followup
add_followups now p reason [] rows = rows
add_followups now p reason (a ∷ more) rows =
    add_followups now p reason more (if p a then add_followup now a.id reason rows else rows)

-- The administrator's confirmation that the permission is gone.
unfoldable pub complete_followup : ℕ → User → ℕ → Bool → Db → Result Error (Unit {0}) × Db
complete_followup now u id confirmed db = write db (do
  guard confirmed (refused "Confirm that external removal was performed.")
  guard (count_where (λ (f : Followup). f.id == id && is_unset f.completed) db.followups == 1)
      conflict
  ok (
      audit now u.id "record manual external removal" (item "followup" id) (record db {
        followups =
            update_where (λ (f : Followup). f.id == id && is_unset f.completed)
              (λ f. record f { completed = at now; actor_id = u.id }) db.followups;
      })))
