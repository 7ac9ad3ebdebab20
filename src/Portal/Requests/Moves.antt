-- ===== src/Portal/Requests/Moves.antt =====
-- What `Transition` of internal/portal/requests.go guarantees: which moves it makes, that a version
-- is good for one of them, and that portal access comes from fulfilment alone.
use game_server_dashboard.Portal.Frame.{IsUnchanged, write-ok}
use game_server_dashboard.Portal.Requests.Machine.{active_state, actions, includes, FitsKind}
use game_server_dashboard.Portal.Requests.Rules.{includes-actions}
use game_server_dashboard.Portal.Requests.Handlers.{find_request}
use game_server_dashboard.Portal.Policy.Audiences.{has_access, grants_access}
use game_server_dashboard.Portal.Requests.Access.{upsert_access-grants}
use game_server_dashboard.Portal.Requests.Updates.{
  at_version, moved_requests, transition_tx, transition_checks, transition,
}
use game_server_dashboard.Prelude.{
  ℕ, ◌≤◌, ◌≡◌, Bool, true, false, Option, some, arith, ◌==◌, ok, >>=-ok, count_where, exists_where,
}
use game_server_dashboard.Go.Text.{Text}
use game_server_dashboard.Go.Time.{Stamp}
use game_server_dashboard.Portal.Types.{is_admin, State, fulfilled, state_eq, User, Request}
use game_server_dashboard.Portal.Db.{Db}
use game_server_dashboard.Portal.Requests.Effects.{
  transition_checks_ok, transition_tx_outcome, transition_requests, transition_access,
  transition_granted,
}
use game_server_dashboard.Portal.Requests.Stale.{count_moved, transition_tx_stale, bind_stale}

module _ (parse_date : Text → Option ℕ) where
  -- All that a successful transition is known by.
  transition_outcome :
      (now : ℕ) (u : User) (id version : ℕ) (target : Option State)
      (explanation next_steps expires : Text) (confirmed : Bool) (seen db : Db) {db' : Db}
      → transition parse_date now u id version target explanation next_steps expires confirmed seen
          db
        ≡ (ok tt, db')
      → (r : Request) × (t : State) × (expiry : Stamp) × (transition_checks parse_date now u id
            target explanation next_steps expires confirmed seen
          ≡ ok (r, t, expiry))
        × (transition_tx now u r id version t explanation next_steps expiry db ≡ ok db')
  unfolding transition
  transition_outcome now u id version target explanation next_steps expires confirmed seen db e =
      let (c, checked, done) =
        >>=-ok
          (transition_checks parse_date now u id target explanation next_steps expires confirmed
            seen)
          (λ c. transition_tx now u c.0 id version c.1 explanation next_steps c.2 db)
          (write-ok db _ e) in
      (c.0, c.1, c.2, checked, done)

  -- A version is good for one transition: once it has succeeded, every further call with that
  -- version fails and changes nothing, whoever makes it and whatever it had read. The id of the
  -- request is not that of two rows.
  pub transition_once :
      (now later : ℕ) (u w : User) (id version : ℕ) (target target2 : Option State)
      (explanation next_steps expires explanation2 next_steps2 expires2 : Text)
      (confirmed confirmed2 : Bool) (seen seen2 db : Db) {db' : Db}
      → count_where (λ (x : Request). x.id == id) db.requests ≤ 1
      → transition parse_date now u id version target explanation next_steps expires confirmed seen
          db
        ≡ (ok tt, db')
      → IsUnchanged db' (
          transition parse_date later w id version target2 explanation2 next_steps2 expires2
            confirmed2 seen2 db')
  unfolding transition
  transition_once now later u w id version target target2 explanation next_steps expires
        explanation2 next_steps2 expires2 confirmed confirmed2 seen seen2 db {db'} one e =
      let (r, t, expiry, checked, done) =
        transition_outcome now u id version target explanation next_steps expires confirmed seen db
          e in
      let (found, _, _, _) =
        transition_tx_outcome now u r id version t explanation next_steps expiry db done in
      let gone : count_where (at_version id version) db'.requests ≡ 0 =
        rw (transition_requests now u r id version t explanation next_steps expiry db done)
          (count_moved now id version r.state t db.requests one found) in
      bind_stale db' _ _
        (λ c. transition_tx_stale later w c.0 id version c.1 explanation2 next_steps2 c.2 db' gone)

  -- A transition that succeeds moves a request that its user may see, out of an open state, to
  -- another state of the same kind that the user may choose; the request rows are those of before
  -- with the rows of that id, version and state moved. The kind and state of the request that was
  -- read fit together.
  pub transition_legal :
      (now : ℕ) (u : User) (id version : ℕ) (target : Option State)
      (explanation next_steps expires : Text) (confirmed : Bool) (seen db : Db) {db' : Db}
      → ((r : Request) → find_request u id seen ≡ some r → FitsKind r.kind r.state)
      → transition parse_date now u id version target explanation next_steps expires confirmed seen
          db
        ≡ (ok tt, db')
      → (r : Request) × (t : State) × (find_request u id seen ≡ some r)
        × (target ≡ some t)
        × (includes (actions r.kind r.state (is_admin u.role)) t ≡ true)
        × FitsKind r.kind t
        × (active_state r.kind r.state ≡ true)
        × (state_eq r.state t ≡ false)
        × (db'.requests ≡ moved_requests now id version r.state t db.requests)
  transition_legal now u id version target explanation next_steps expires confirmed seen db fits e =
      let (r, t, expiry, checked, done) =
        transition_outcome now u id version target explanation next_steps expires confirmed seen db
          e in
      let (found, chosen, allowed, _) =
        transition_checks_ok parse_date now u id target explanation next_steps expires confirmed
          seen checked in
      let (fit, open_before, differs) =
        includes-actions r.kind r.state t (is_admin u.role) (fits r found) allowed in
      (
        r,
        t,
        found,
        chosen,
        allowed,
        fit,
        open_before,
        differs,
        transition_requests now u r id version t explanation next_steps expiry db done,
      )

  -- A transition that succeeds, to any state but Fulfilled, leaves the access records as they were:
  -- approval alone grants nothing.
  pub transition_keeps_access :
      (now : ℕ) (u : User) (id version : ℕ) (target : State) (explanation next_steps expires : Text)
      (confirmed : Bool) (seen db : Db) {db' : Db}
      → state_eq target fulfilled ≡ false
      → transition parse_date now u id version
          (some target)
          explanation
          next_steps
          expires
          confirmed
          seen
          db
        ≡ (ok tt, db')
      → db'.access_records ≡ db.access_records
  transition_keeps_access now u id version target explanation next_steps expires confirmed seen db k
        e =
      let (r, t, expiry, checked, done) =
        transition_outcome now u id version (some target) explanation next_steps expires confirmed
          seen db e in
      let (_, chosen, _, _) =
        transition_checks_ok parse_date now u id (some target) explanation next_steps expires
          confirmed seen checked in
      let same : target ≡ t = cc in
      transition_access now u r id version t explanation next_steps expiry db done (rw (← same) k)

  -- A transition to Fulfilled that succeeds gives the member who made the request, if enabled, access
  -- to the requested service, in force at once.
  pub transition_grants_access :
      (now : ℕ) (u m : User) (id version : ℕ) (explanation next_steps expires : Text)
      (confirmed : Bool) (seen db : Db) {db' : Db} {r : Request}
      → find_request u id seen ≡ some r
      → m.id ≡ r.user_id
      → m.enabled ≡ true
      → transition parse_date now u id version
          (some fulfilled)
          explanation
          next_steps
          expires
          confirmed
          seen
          db
        ≡ (ok tt, db')
      → has_access db' now (some m) r.service_id ≡ true
  unfolding has_access
  transition_grants_access now u m id version explanation next_steps expires confirmed seen db {db'}
        {r} found owner able e =
      let (q, t, expiry, checked, done) =
        transition_outcome now u id version (some fulfilled) explanation next_steps expires
          confirmed seen db e in
      let (read, chosen, _, lasting) =
        transition_checks_ok parse_date now u id (some fulfilled) explanation next_steps expires
          confirmed seen checked in
      let same : q ≡ r = cc in
      let is_fulfilled : t ≡ fulfilled = cc in
      let moved : transition_tx now u r id version fulfilled explanation next_steps expiry db
          ≡ ok db' =
        cc in
      let (name, records) =
        transition_granted now u r id version explanation next_steps expiry db moved in
      let granted : exists_where (grants_access now m.id r.service_id) db'.access_records ≡ true =
        rw (records, owner)
          (upsert_access-grants now r.user_id r.service_id name next_steps expiry db.access_records
            lasting) in
      ground arith
