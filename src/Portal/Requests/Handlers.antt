-- ===== src/Portal/Requests/Handlers.antt =====
-- internal/portal/requests.go: `Submit`, `Reply` and `Transition`. `Reply` and `Transition` read
-- the request before their transaction begins: `seen` is the database of that read, and `db` the
-- one at the transaction, after what others may have written in between. `parse_date` is time.Parse
-- for the layout 2006-01-02, as the second at which the day begins, and `is_address` tells whether
-- mail.ParseAddress reads a text as exactly that address.
use game_server_dashboard.Portal.Requests.Machine.{active_state}
use game_server_dashboard.Portal.Policy.Audiences.{has_access, discover}
use Prim.Native.String.{String}
use game_server_dashboard.Prelude.{
  ℕ, ◌+◌, Bool, true, not, ◌&&◌, ◌||◌, Option, none, some, List, [], ◌∷◌, ltb, leb, ◌==◌,
  if◌then◌else◌, Result, ok, err, ◌>>=◌, ◌>>◌, guard, require, length, find_where, exists_where,
  append_row, next_id,
}
use game_server_dashboard.Go.Text.{Text, trim_space, is_blank, includes_text}
use game_server_dashboard.Go.Time.{Stamp, unset, at, day}
use game_server_dashboard.Portal.Types.{
  is_admin, is_request_mode, Kind, access, support, is_access_kind, State, pending, opened, User,
  FieldType, short, long, email_field, select_field, Field, Value, ServiceRow, Request, Message,
  Transition,
}
use game_server_dashboard.Portal.Db.{Db, Error, refused, audit, notify_admins}
use game_server_dashboard.Portal.Rows.{UserRow, item}

abbrev pub has_id : ℕ → UserRow → Bool
has_id id x = x.id == id

-- Store.request: among all requests for an administrator, among their own for a member.
unfoldable pub find_request : User → ℕ → Db → Option Request
find_request u id db =
    find_where
      (λ (r : Request).
        r.id == id
        && (is_admin u.role || r.user_id == u.id)
        && exists_where (has_id r.user_id) db.users)
      db.requests

unfoldable pub log_transition : ℕ → ℕ → ℕ → Option State → State → Db → Db
log_transition now req actor from to db = record db {
  transitions = append_row db.transitions (record {
    id = next_id (λ (t : Transition). t.id) db.transitions;
    request_id = req;
    actor_id = actor;
    from_state = from;
    to_state = to;
    created = now;
  });
}

unfoldable pub new_message : ℕ → ℕ → ℕ → Text → List Message → List Message
new_message now req actor body rows = append_row rows (record {
  id = next_id (λ (m : Message). m.id) rows;
  request_id = req;
  actor_id = actor;
  body = body;
  created = now;
})

module _ (parse_date : Text → Option ℕ) where
  -- dateInput: the end of the day that was entered.
  unfoldable pub date_input : ℕ → Text → Result Error Stamp
  date_input now v = if is_blank v then ok unset else do
    t ← require (parse_date v) (refused "Use a valid end date.")
    guard (ltb now (t + day)) (refused "End date must be in the future.")
    ok (at (t + day))

abbrev pub max_length : FieldType → ℕ
max_length long = 2000
max_length _ = 300

module _ (is_address : Text → Bool) where
  unfoldable pub check_type : Field → Text → Bool
  check_type f value = elim f.type [
    | email_field ↦ is_blank value || is_address value
    | select_field ↦ is_blank value || includes_text f.options value
    | short ↦ true
    | long ↦ true
  ]

  -- The loop of `Submit` over the fields of the service.
  unfoldable pub collect_fields : (Text → Text) → List Field → Result Error (List Value)
  unfolding check_type
  collect_fields values [] = ok []
  collect_fields values (f ∷ fs) = do
    let value = trim_space (values f.key)
    guard (not (f.required && is_blank value)) (refused "is required")
    guard (leb (length value) (max_length f.type)) (refused "is too long")
    guard (check_type f value) (refused "is not of its type")
    rest ← collect_fields values fs
    ok (record { label = f.label; value = value } ∷ rest)

-- The unique index one_active_request.
abbrev pub is_active_access : ℕ → ℕ → Request → Bool
is_active_access user svc r =
    r.user_id == user && r.service_id == svc && is_access_kind r.kind && active_state access r.state

abbrev pub first_state : Kind → State
first_state access = pending
first_state support = opened

abbrev pub submit_action : Kind → String
submit_action access = "submit access"
submit_action support = "submit support"

module _ (parse_date : Text → Option ℕ) (is_address : Text → Bool) where
  unfoldable pub access_details :
      ℕ → Kind → ServiceRow → Text → (Text → Text) → Result Error (List Value × Stamp)
  unfolding date_input collect_fields
  access_details now support v end values = ok ([], unset)
  access_details now access v end values = do
    fields ← collect_fields is_address values v.config.fields
    requested_end ← if v.config.duration then date_input parse_date now end else ok unset
    ok (fields, requested_end)

  unfoldable pub submit_tx :
      ℕ → User → ServiceRow → Kind → Text → List Value → Stamp → Db → Result Error (ℕ × Db)
  unfolding log_transition active_state
  submit_tx now u v kind reason fields requested_end db = do
    s ←
        require (find_where (λ (x : ServiceRow). x.id == v.id) db.services)
          (refused "This service is no longer accepting requests.")
    guard (s.published && not s.archived) (refused "This service is no longer accepting requests.")
    guard (not (is_access_kind kind && exists_where (is_active_access u.id v.id) db.requests))
        (refused "You already have an active access request for this service.")
    let id = next_id (λ (r : Request). r.id) db.requests
    let db1 = record db {
      requests = append_row db.requests (record {
        id = id;
        user_id = u.id;
        service_id = v.id;
        service_name = v.name;
        kind = kind;
        state = first_state kind;
        reason = reason;
        fields = fields;
        requested_end = requested_end;
        created = now;
        updated = now;
        version = 1;
      });
    }
    let db2 = log_transition now id u.id none (first_state kind) db1
    let db3 = notify_admins now id "A new request needs review." db2
    ok (id, audit now u.id (submit_action kind) (item "request" id) db3)

  -- Submit; `kind` is `none` for a text that is neither "access" nor "support".
  unfoldable pub submit :
      ℕ
      → User
      → Option ServiceRow
      → Option Kind
      → Text
      → Text
      → (Text → Text)
      → Db
      → Db
      → Result Error ℕ × Db
  unfolding access_details submit_tx
  submit now u v kind reason end values seen db =
      elim (do
        v ← require v (refused "Service unavailable")
        guard (u.enabled && discover seen now (some u) (some v)) (refused "Service unavailable")
        kind ← require kind (refused "Invalid request type")
        guard
            (not (
              is_access_kind kind
              && (not (is_request_mode v.mode) || has_access seen now (some u) v.id)))
            (refused "This service does not need a new access request.")
        let reason' = trim_space reason
        guard (leb 3 (length reason') && leb (length reason') 4000)
            (refused "Provide a reason between 3 and 4,000 characters.")
        details ← access_details now kind v end values
        submit_tx now u v kind reason' details.0 details.1 db) [
          | ok (id, db') ↦ (ok id, db')
          | err e ↦ (err e, db)
        ]
