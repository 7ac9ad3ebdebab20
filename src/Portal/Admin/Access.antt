-- ===== src/Portal/Admin/Access.antt =====
-- internal/portal/admin.go: `saveAccess`, and `Reconcile` of requests.go, which lets access expire.
use Prim.Native.String.{String}
use game_server_dashboard.Go.Text.{Text, is_blank, trim_space}
use game_server_dashboard.Go.Time.{day, elapsed, is_unset}
use game_server_dashboard.Portal.Admin.Followups.{add_followup}
use game_server_dashboard.Portal.Db.{Db, Error, audit, conflict, notify, refused, write}
use game_server_dashboard.Portal.Devices.Expiry.{expire_vpn}
use game_server_dashboard.Portal.Requests.Grant.{access_history_entry, grant, owns}
use game_server_dashboard.Portal.Requests.Handlers.{date_input}
use game_server_dashboard.Portal.Requests.Updates.{granted_db}
use game_server_dashboard.Portal.Rows.{Limit, item}
use game_server_dashboard.Portal.Types.{Access, AccessState, User, expired, is_active, revoked}
use game_server_dashboard.Prelude.{
  Bool, List, Option, Result, [], count_where, delete_where, find_where, guard, if◌then◌else◌, leb,
  length, ltb, none, not, ok, select, some, update_where, ℕ, ◌&&◌, ◌+◌, ◌==◌, ◌>>=◌, ◌>>◌, ◌∷◌,
}

abbrev pub record_version : ℕ → ℕ → Db → ℕ
record_version user svc db = elim (find_where (owns user svc) db.access_records) [
  | none ↦ 0
  | some a ↦ a.version
]

module _ (parse_date : Text → Option ℕ) where
  -- The form's action "grant".
  unfoldable pub grant_by_hand :
      ℕ → User → ℕ → ℕ → ℕ → Text → Text → Bool → Db → Result Error (Unit {0}) × Db
  grant_by_hand now u user svc version next_steps expires confirmed db = write db (do
    guard confirmed (refused "Confirm the manual access change")
    let steps = trim_space next_steps
    guard (not (is_blank steps) && leb (length steps) 6000)
        (refused "Provide non-secret next steps (up to 6,000 characters).")
    expiry ← date_input parse_date now expires
    guard (record_version user svc db == version) (
        refused
          "An access record already exists or changed. Use its Update form below after reloading.")
    granted_db (grant now u.id user svc steps expiry db))

-- The actions "revoke" and "expire".
unfoldable pub ended_state : Bool → AccessState
ended_state by_expiry = if by_expiry then expired else revoked

abbrev pub followup_reason : Bool → String
followup_reason by_expiry =
    if by_expiry
    then "Portal record expired; remove external permissions manually."
    else "Portal record revoked; remove external permissions manually."

abbrev pub end_action : Bool → String
end_action by_expiry = if by_expiry then "access expired" else "access revoked"

abbrev pub is_active_at : ℕ → ℕ → Access → Bool
is_active_at id version a = a.id == id && a.version == version && is_active a.state

abbrev pub owner_of : ℕ → Db → ℕ
owner_of id db = elim (find_where (λ (a : Access). a.id == id) db.access_records) [
  | none ↦ 0
  | some a ↦ a.user_id
]

unfoldable pub end_access : ℕ → User → ℕ → ℕ → Bool → Bool → Db → Result Error (Unit {0}) × Db
unfolding ended_state
end_access now u id version by_expiry confirmed db = write db (do
  guard confirmed (refused "Confirm the manual access change")
  guard (count_where (is_active_at id version) db.access_records == 1) conflict
  let db1 = record db {
    access_records =
        update_where (is_active_at id version)
          (λ a. record a { state = ended_state by_expiry; version = a.version + 1 })
          db.access_records;
    followups = add_followup now id (followup_reason by_expiry) db.followups;
  }
  let db2 = notify now (owner_of id db1) 0 id "Your portal access record has changed." db1
  let db3 = access_history_entry now u.id id db2
  ok (audit now u.id (end_action by_expiry) (item "access" id) db3))

-- state='active' AND expires<>'' AND expires<=?
abbrev pub has_run_out : ℕ → Access → Bool
has_run_out now a = is_active a.state && not (is_unset a.expires) && elapsed a.expires now

-- One round of the loop over the records that have run out.
unfoldable pub expire_access : ℕ → Access → Db → Db
expire_access now a db =
    let db1 = record db {
      access_records =
          update_where (λ (x : Access). x.id == a.id)
            (λ x. record x { state = expired; version = x.version + 1 }) db.access_records;
      followups =
          add_followup now a.id "Portal access expired; remove external permissions manually."
            db.followups;
    } in
    let db2 = notify now a.user_id 0 a.id "Your portal access record has expired." db1 in
    audit now 0 "portal access expired" (item "access" a.id) (access_history_entry now 0 a.id db2)

unfoldable pub expire_all : ℕ → List Access → Db → Db
unfolding expire_access
expire_all now [] db = db
expire_all now (a ∷ more) db = expire_all now more (expire_access now a db)

-- Reconcile
unfoldable pub reconcile : ℕ → Db → Db
unfolding expire_all
reconcile now db =
    let db1 = expire_vpn now db in
    let db2 = expire_all now (select (has_run_out now) db1.access_records) db1 in
    record db2 { limits = delete_where (λ (l : Limit). ltb (l.reset + day) now) db2.limits }
