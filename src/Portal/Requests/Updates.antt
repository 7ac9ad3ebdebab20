-- ===== src/Portal/Requests/Updates.antt =====
-- internal/portal/requests.go: `Reply` and `Transition`. Both read the request before their
-- transaction begins: `seen` is the database of that read, and `db` the one at the transaction,
-- after what others may have written in between. `parse_date` is time.Parse for the layout
-- 2006-01-02, as the second at which the day begins.
use game_server_dashboard.Portal.Requests.Machine.{active_state, actions, includes}
use game_server_dashboard.Portal.Requests.Grant.{grant}
use game_server_dashboard.Portal.Requests.Handlers.{
  find_request, log_transition, new_message, date_input,
}
use Prim.Native.String.{String}
use game_server_dashboard.Prelude.{
  ℕ, ◌+◌, Bool, not, ◌&&◌, ◌||◌, Option, none, some, List, leb, ◌==◌, if◌then◌else◌, Result, ok,
  err, ◌>>=◌, ◌>>◌, guard, require, length, update_where, count_where,
}
use game_server_dashboard.Go.Text.{Text, trim_space, is_blank}
use game_server_dashboard.Go.Time.{Stamp}
use game_server_dashboard.Portal.Types.{
  is_admin, State, pending, needs_information, approved, fulfilled, denied, cancelled, opened,
  waiting_for_member, resolved, state_eq, User, Request,
}
use game_server_dashboard.Portal.Db.{
  Db, Error, conflict, refused, write, audit, notify, notify_admins,
}
use game_server_dashboard.Portal.Rows.{item}

-- The rows of UPDATE requests ... WHERE id=? AND version=?
abbrev pub at_version : ℕ → ℕ → Request → Bool
at_version id version r = r.id == id && r.version == version

-- A member's reply answers a question: the state that it moves the request to.
abbrev pub reply_target : State → Option State
reply_target needs_information = some pending
reply_target waiting_for_member = some opened
reply_target _ = none

unfoldable pub reply_effects : ℕ → User → Request → ℕ → Bool → Db → Db
unfolding log_transition
reply_effects now u r id private db =
    if private
    then db
    else if is_admin u.role
    then notify now r.user_id id 0 "There is a new reply to your request." db
    else let db1 = notify_admins now id "A member replied to a request." db in
      elim (reply_target r.state) [
        | some target ↦ log_transition now id u.id (some r.state) target (record db1 {
          requests = update_where (λ x. x.id == id) (λ x. record x { state = target }) db1.requests;
        })
        | none ↦ db1
      ]

unfoldable pub reply_tx : ℕ → User → Request → ℕ → ℕ → Text → Bool → Db → Result Error Db
unfolding new_message reply_effects
reply_tx now u r id version body private db = do
  guard (count_where (at_version id version) db.requests == 1) conflict
  let db1 = record db {
    requests =
        update_where (at_version id version)
          (λ x. record x { version = x.version + 1; updated = now }) db.requests;
  }
  let db2 =
      if private
      then record db1 { private_notes = new_message now id u.id body db1.private_notes }
      else record db1 { messages = new_message now id u.id body db1.messages }
  let db3 = reply_effects now u r id private db2
  ok (audit now u.id (if private then "private note" else "reply") (item "request" id) db3)

-- Reply
unfoldable pub reply : ℕ → User → ℕ → ℕ → Text → Bool → Db → Db → Result Error (Unit {0}) × Db
unfolding reply_tx
reply now u id version body private seen db = write db (do
  r ← require (find_request u id seen) (refused "Request unavailable")
  guard (not private || is_admin u.role) (refused "Administrator permission required")
  let body' = trim_space body
  guard (leb 1 (length body') && leb (length body') 6000)
      (refused "Write a message between 1 and 6,000 characters.")
  guard (private || active_state r.kind r.state)
      (refused "This request is closed. Create a new request for further help.")
  reply_tx now u r id version body' private db)

abbrev pub needs_explanation : State → Bool
needs_explanation s =
    state_eq s denied || state_eq s needs_information || state_eq s waiting_for_member

-- The rows of UPDATE requests ... WHERE id=? AND version=? AND state=?
abbrev pub at_version_and_state : ℕ → ℕ → State → Request → Bool
at_version_and_state id version s r = r.id == id && r.version == version && state_eq r.state s

abbrev pub granted_db : Result Error (ℕ × Db) → Result Error Db
granted_db (ok (id, db)) = ok db
granted_db (err e) = err e

unfoldable pub fulfil : ℕ → User → Request → State → Text → Stamp → Db → Result Error Db
fulfil now u r target next_steps expiry db =
    if state_eq target fulfilled
    then granted_db (grant now u.id r.user_id r.service_id next_steps expiry db)
    else ok db

abbrev pub transition_action : State → String
transition_action pending = "request state: Pending"
transition_action needs_information = "request state: Needs Information"
transition_action approved = "request state: Approved - Setup Pending"
transition_action fulfilled = "request state: Fulfilled"
transition_action denied = "request state: Denied"
transition_action cancelled = "request state: Cancelled"
transition_action opened = "request state: Open"
transition_action waiting_for_member = "request state: Waiting for Member"
transition_action resolved = "request state: Resolved"

unfoldable pub moved_requests : ℕ → ℕ → ℕ → State → State → List Request → List Request
moved_requests now id version from target rows =
    update_where (at_version_and_state id version from)
      (λ x. record x { state = target; updated = now; version = x.version + 1 }) rows

-- The writes before the grant: the move, its explanation and its log entry.
unfoldable pub transition_moves : ℕ → User → Request → ℕ → ℕ → State → Text → Db → Db
unfolding new_message log_transition
transition_moves now u r id version target explanation db =
    let db1 = record db { requests = moved_requests now id version r.state target db.requests } in
    let db2 =
      if is_blank explanation
      then db1
      else record db1 { messages = new_message now id u.id explanation db1.messages } in
    log_transition now id u.id (some r.state) target db2

unfoldable pub transition_notices : ℕ → User → Request → ℕ → State → Db → Db
transition_notices now u r id target db =
    let db1 = notify now r.user_id id 0 "Your request status has changed." db in
    let db2 =
      if is_admin u.role then db1 else notify_admins now id "A member updated a request." db1 in
    audit now u.id (transition_action target) (item "request" id) db2

unfoldable pub transition_tx :
    ℕ → User → Request → ℕ → ℕ → State → Text → Text → Stamp → Db → Result Error Db
transition_tx now u r id version target explanation next_steps expiry db = do
  guard (count_where (at_version_and_state id version r.state) db.requests == 1) conflict
  db1 ←
      fulfil now u r target next_steps expiry
        (transition_moves now u r id version target explanation db)
  ok (transition_notices now u r id target db1)

-- Transition; `target` is `none` for a text that names no state.
module _ (parse_date : Text → Option ℕ) where
  unfoldable pub transition_checks :
      ℕ
      → User
      → ℕ
      → Option State
      → Text
      → Text
      → Text
      → Bool
      → Db
      → Result Error (Request × State × Stamp)
  unfolding date_input
  transition_checks now u id target explanation next_steps expires confirmed seen = do
    r ← require (find_request u id seen) (refused "Request unavailable")
    target ← require target (refused "That state transition is not allowed.")
    guard (includes (actions r.kind r.state (is_admin u.role)) target)
        (refused "That state transition is not allowed.")
    guard (not (needs_explanation target && is_blank (trim_space explanation)))
        (refused "A member-visible explanation is required.")
    guard (leb (length explanation) 6000 && leb (length next_steps) 6000)
        (refused "Keep text under 6,000 characters.")
    guard (not (state_eq target fulfilled && (not confirmed || is_blank (trim_space next_steps))))
        (refused "Confirm external setup and provide non-secret next steps before fulfillment.")
    expiry ← date_input parse_date now expires
    ok (r, target, expiry)

  unfoldable pub transition :
      ℕ
      → User
      → ℕ
      → ℕ
      → Option State
      → Text
      → Text
      → Text
      → Bool
      → Db
      → Db
      → Result Error (Unit {0}) × Db
  transition now u id version target explanation next_steps expires confirmed seen db = write db (do
    checked ← transition_checks now u id target explanation next_steps expires confirmed seen
    transition_tx now u checked.0 id version checked.1 explanation next_steps checked.2 db)
