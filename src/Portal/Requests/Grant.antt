-- ===== src/Portal/Requests/Grant.antt =====
-- internal/portal/requests.go: `grant` and `accessHistory`.
use game_server_dashboard.Prelude.{
  ℕ, ◌+◌, Bool, not, ◌&&◌, Option, none, some, List, ◌==◌, if◌then◌else◌, Result, ok, ◌>>=◌, ◌>>◌,
  guard, require, find_where, update_where, exists_where, append_row, next_id,
}
use game_server_dashboard.Go.Text.{Text}
use game_server_dashboard.Go.Time.{Stamp}
use game_server_dashboard.Portal.Types.{ServiceRow, active, Access}
use game_server_dashboard.Portal.Db.{Db, Error, refused, audit, notify}
use game_server_dashboard.Portal.Rows.{UserRow, AccessHistory, item}

copied_record : ℕ → ℕ → Option Access → List AccessHistory → List AccessHistory
copied_record now actor none rows = rows
copied_record now actor (some a) rows = append_row rows (record {
  access_id = a.id;
  actor_id = actor;
  state = a.state;
  granted = a.granted;
  expires = a.expires;
  created = now;
})

-- accessHistory: a copy of the record as it is now.
unfoldable pub access_history_entry : ℕ → ℕ → ℕ → Db → Db
unfolding copied_record
access_history_entry now actor id db = record db {
  access_history =
      copied_record now actor (find_where (λ (a : Access). a.id == id) db.access_records)
        db.access_history;
}

abbrev pub owns : ℕ → ℕ → Access → Bool
owns user svc a = a.user_id == user && a.service_id == svc

-- INSERT ... ON CONFLICT(user_id, service_id) DO UPDATE
unfoldable pub upsert_access : ℕ → ℕ → ℕ → Text → Text → Stamp → List Access → List Access
upsert_access now user svc name steps expiry rows =
    if exists_where (owns user svc) rows
    then update_where (owns user svc)
        (λ a. record a {
          state = active;
          service_name = name;
          granted = now;
          expires = expiry;
          next_steps = steps;
          version = a.version + 1;
        })
        rows
    else append_row rows (record {
      id = next_id (λ (a : Access). a.id) rows;
      user_id = user;
      service_id = svc;
      service_name = name;
      state = active;
      granted = now;
      expires = expiry;
      next_steps = steps;
      version = 1;
    })

unfoldable pub granted_id : ℕ → ℕ → Db → ℕ
granted_id user svc db = elim (find_where (owns user svc) db.access_records) [
  | some a ↦ a.id
  | none ↦ 0
]

-- The guards of `grant`; the result is the name of the service.
unfoldable pub grant_checks : ℕ → ℕ → Db → Result Error Text
grant_checks user svc db = do
  x ←
      require (find_where (λ (x : UserRow). x.id == user) db.users)
        (refused "Cannot grant portal access to a disabled member.")
  guard x.enabled (refused "Cannot grant portal access to a disabled member.")
  s ←
      require (find_where (λ (v : ServiceRow). v.id == svc) db.services)
        (refused "Publish the service before recording access.")
  guard (s.published && not s.archived) (refused "Publish the service before recording access.")
  ok s.name

unfoldable pub grant_access : ℕ → ℕ → ℕ → Text → Text → Stamp → Db → Db
grant_access now user svc name steps expiry db = record db {
  access_records = upsert_access now user svc name steps expiry db.access_records;
}

-- The notice, the history entry and the audit entry of a grant.
unfoldable pub grant_notices : ℕ → ℕ → ℕ → ℕ → Db → Db
grant_notices now actor user id db = audit now actor "record active access" (item "access" id) (
    access_history_entry now actor id
      (notify now user 0 id "Your portal access record has been updated." db))

unfoldable pub grant : ℕ → ℕ → ℕ → ℕ → Text → Stamp → Db → Result Error (ℕ × Db)
grant now actor user svc steps expiry db = do
  name ← grant_checks user svc db
  let db1 = grant_access now user svc name steps expiry db
  let id = granted_id user svc db1
  ok (id, grant_notices now actor user id db1)
