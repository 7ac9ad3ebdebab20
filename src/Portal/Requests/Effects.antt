-- ===== src/Portal/Requests/Effects.antt =====
-- What one `Transition` of internal/portal/requests.go has checked and written once it succeeds.
use game_server_dashboard.Portal.Frame.{ok-injective}
use game_server_dashboard.Portal.Requests.Machine.{actions, includes}
use game_server_dashboard.Portal.Requests.Grant.{grant_access, upsert_access}
use game_server_dashboard.Portal.Requests.Handlers.{find_request}
use game_server_dashboard.Portal.Requests.Updates.{
  at_version_and_state, fulfil, moved_requests, transition_moves, transition_notices, transition_tx,
  transition_checks,
}
use game_server_dashboard.Portal.Requests.Outcome.{
  fulfil_outcome, transition_moves-access_records, transition_moves-requests,
  transition_notices-SameTables,
}
use game_server_dashboard.Prelude.{
  ℕ, ◌≡◌, sym, ap, ◌∙◌, inl, inr, Bool, true, false, ◌||◌, Option, some, arith, ◌==◌, ==_iff,
  Bool-cases, Result, ok, err, >>=-ok, count_where,
}
use game_server_dashboard.Go.Text.{Text}
use game_server_dashboard.Go.Time.{Stamp, upcoming, is_unset}
use game_server_dashboard.Portal.Types.{is_admin, State, fulfilled, state_eq, User, Request}
use game_server_dashboard.Portal.Db.{Db, Error, conflict}

module _ (parse_date : Text → Option ℕ) where
  -- The checks pass on what they have looked up.
  pub transition_checks_ok :
      (now : ℕ) (u : User) (id : ℕ) (target : Option State) (explanation next_steps expires : Text)
      (confirmed : Bool) (seen : Db) {r : Request} {t : State} {expiry : Stamp}
      → transition_checks parse_date now u id target explanation next_steps expires confirmed seen
        ≡ ok (r, t, expiry)
      → (find_request u id seen ≡ some r)
        × (target ≡ some t)
        × (includes (actions r.kind r.state (is_admin u.role)) t ≡ true)
        × (is_unset expiry || upcoming expiry now ≡ true)
  unfolding transition_checks
  transition_checks_ok now u id target explanation next_steps expires confirmed seen {r} {t}
        {expiry} e =
      ground arith

-- The transaction's writes, in order.
pub transition_tx_outcome :
    (now : ℕ) (u : User) (r : Request) (id version : ℕ) (target : State)
    (explanation next_steps : Text) (expiry : Stamp) (db : Db) {db' : Db}
    → transition_tx now u r id version target explanation next_steps expiry db ≡ ok db'
    → (count_where (at_version_and_state id version r.state) db.requests ≡ 1)
      × (mid : Db) × (fulfil now u r target next_steps expiry
            (transition_moves now u r id version target explanation db)
          ≡ ok mid)
      × (db' ≡ transition_notices now u r id target mid)
unfolding transition_tx
transition_tx_outcome now u r id version target explanation next_steps expiry db {db'} e =
    elim (Bool-cases (count_where (at_version_and_state id version r.state) db.requests == 1)) [
      | inl c ↦
          let (mid, f, n) =
            >>=-ok
              (fulfil now u r target next_steps expiry
                (transition_moves now u r id version target explanation db))
              (λ mid. ok (transition_notices now u r id target mid)) (rw c at e) in
          ((==_iff _ _).0 c, mid, f, sym (ok-injective n))
      | inr c ↦
          absurd (cc (let h : ◌≡◌ {A = Result Error Db} (err conflict) (ok db') = rw c at e in h))
    ]

pub transition_requests :
    (now : ℕ) (u : User) (r : Request) (id version : ℕ) (target : State)
    (explanation next_steps : Text) (expiry : Stamp) (db : Db) {db' : Db}
    → transition_tx now u r id version target explanation next_steps expiry db ≡ ok db'
    → db'.requests ≡ moved_requests now id version r.state target db.requests
unfolding grant_access
transition_requests now u r id version target explanation next_steps expiry db {db'} e =
    let (one, mid, f, n) =
      transition_tx_outcome now u r id version target explanation next_steps expiry db e in
    let last : db'.requests ≡ mid.requests =
      ap (λ (d : Db). d.requests) n
      ∙ (transition_notices-SameTables now u r id target mid).requests in
    let moved = transition_moves-requests now u r id version target explanation db in
    elim (fulfil_outcome now u r target next_steps expiry _ f) [
      | inl (_, same) ↦ last ∙ ap (λ (d : Db). d.requests) same ∙ moved
      | inr (name, _, _, same) ↦ last ∙ same.requests ∙ moved
    ]

pub transition_access :
    (now : ℕ) (u : User) (r : Request) (id version : ℕ) (target : State)
    (explanation next_steps : Text) (expiry : Stamp) (db : Db) {db' : Db}
    → transition_tx now u r id version target explanation next_steps expiry db ≡ ok db'
    → state_eq target fulfilled ≡ false
    → db'.access_records ≡ db.access_records
transition_access now u r id version target explanation next_steps expiry db {db'} e k =
    let (one, mid, f, n) =
      transition_tx_outcome now u r id version target explanation next_steps expiry db e in
    let last : db'.access_records ≡ mid.access_records =
      ap (λ (d : Db). d.access_records) n
      ∙ (transition_notices-SameTables now u r id target mid).access_records in
    let moved = transition_moves-access_records now u r id version target explanation db in
    elim (fulfil_outcome now u r target next_steps expiry _ f) [
      | inl (_, same) ↦ last ∙ ap (λ (d : Db). d.access_records) same ∙ moved
      | inr (_, hit, _, _) ↦ absurd (cc)
    ]

pub transition_granted :
    (now : ℕ) (u : User) (r : Request) (id version : ℕ) (explanation next_steps : Text)
    (expiry : Stamp) (db : Db) {db' : Db}
    → transition_tx now u r id version fulfilled explanation next_steps expiry db ≡ ok db'
    → (name : Text) × (db'.access_records
        ≡ upsert_access now r.user_id r.service_id name next_steps expiry db.access_records)
unfolding grant_access
transition_granted now u r id version explanation next_steps expiry db {db'} e =
    let (one, mid, f, n) =
      transition_tx_outcome now u r id version fulfilled explanation next_steps expiry db e in
    let last : db'.access_records ≡ mid.access_records =
      ap (λ (d : Db). d.access_records) n
      ∙ (transition_notices-SameTables now u r id fulfilled mid).access_records in
    let moved = transition_moves-access_records now u r id version fulfilled explanation db in
    elim (fulfil_outcome now u r fulfilled next_steps expiry _ f) [
      | inl (miss, _) ↦ absurd (cc)
      | inr (name, _, _, same) ↦ (
        name,
        last
            ∙ same.access_records
            ∙ ap (upsert_access now r.user_id r.service_id name next_steps expiry) moved,
      )
    ]
