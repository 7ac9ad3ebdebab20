-- ===== src/Portal/Requests/Outcome.antt =====
-- What a successful `Transition` of internal/portal/requests.go has done.
use game_server_dashboard.Portal.Frame.{
  ok-injective, SameTables, SameTables-trans, notify-SameTables, notify_admins-SameTables,
  audit-SameTables,
}
use game_server_dashboard.Portal.Requests.Grant.{
  access_history_entry, grant, grant_checks, grant_access, grant_notices, granted_id,
}
use game_server_dashboard.Portal.Requests.Updates.{
  fulfil, granted_db, moved_requests, transition_moves, transition_notices,
}
use game_server_dashboard.Prelude.{
  ℕ, ◌≡◌, refl, sym, ap, subst, ◌⊎◌, inl, inr, true, false, arith, Bool-cases, Result, ok, err,
  >>=-ok,
}
use game_server_dashboard.Go.Text.{Text}
use game_server_dashboard.Go.Time.{Stamp}
use game_server_dashboard.Portal.Types.{is_admin, State, fulfilled, state_eq, User, Request}
use game_server_dashboard.Portal.Db.{Db, Error}

-- A successful grant writes one table, beside the history and the notices.
pub access_history_entry-SameTables :
    (now actor id : ℕ) (db : Db) → SameTables db (access_history_entry now actor id db)
unfolding access_history_entry
access_history_entry-SameTables now actor id db = record {
  users = refl;
  categories = refl;
  services = refl;
  requests = refl;
  transitions = refl;
  access_records = refl;
  tokens = refl;
  vpn_devices = refl;
  vpn_targets = refl;
  vpn_grants = refl;
  vpn_deliveries = refl;
}

pub grant_notices-SameTables :
    (now actor user id : ℕ) (db : Db) → SameTables db (grant_notices now actor user id db)
unfolding grant_notices
grant_notices-SameTables now actor user id db =
    SameTables-trans (notify-SameTables _ _ _ _ _ _)
      (SameTables-trans (access_history_entry-SameTables _ _ _ _) (audit-SameTables _ _ _ _ _))

-- A successful grant has passed its checks, and writes one access record beside the notices.
pub grant_outcome :
    (now actor user svc : ℕ) (steps : Text) (expiry : Stamp) (db : Db) {id : ℕ} {db' : Db}
    → grant now actor user svc steps expiry db ≡ ok (id, db')
    → (name : Text) × (grant_checks user svc db ≡ ok name)
      × SameTables (grant_access now user svc name steps expiry db) db'
unfolding grant
grant_outcome now actor user svc steps expiry db {id} {db'} e =
    let (name, checked, e1) =
      >>=-ok (grant_checks user svc db)
        (λ name.
          let db1 = grant_access now user svc name steps expiry db in
          ok (granted_id user svc db1, grant_notices now actor user (granted_id user svc db1) db1))
        e in
    let same : grant_notices now actor user _ (grant_access now user svc name steps expiry db)
        ≡ db' =
      ap (λ (p : ℕ × Db). p.1) (ok-injective e1) in
    (name, checked, subst (SameTables _) same (grant_notices-SameTables now actor user _ _))

granted_db-ok :
    (x : Result Error (ℕ × Db)) {d : Db} → granted_db x ≡ ok d → (id : ℕ) × (x ≡ ok (id, d))
granted_db-ok (ok (id, d')) h = (id, cc)
granted_db-ok (err e) h = absurd (cc)

pub fulfil_outcome :
    (now : ℕ) (u : User) (r : Request) (target : State) (steps : Text) (expiry : Stamp) (db : Db)
    {db' : Db}
    → fulfil now u r target steps expiry db ≡ ok db'
    → ((state_eq target fulfilled ≡ false) × (db' ≡ db))
      ⊎ ((name : Text) × (state_eq target fulfilled ≡ true)
          × (grant_checks r.user_id r.service_id db ≡ ok name)
          × SameTables (grant_access now r.user_id r.service_id name steps expiry db) db')
unfolding fulfil
fulfil_outcome now u r target steps expiry db {db'} e =
    elim (Bool-cases (state_eq target fulfilled)) [
      | inl t ↦
          let (id, g) = granted_db-ok _ (rw t at e) in
          let (name, checked, same) =
            grant_outcome now u.id r.user_id r.service_id steps expiry db g in
          inr (name, t, checked, same)
      | inr t ↦ inl (t, sym (ok-injective (rw t at e)))
    ]

pub transition_moves-access_records :
    (now : ℕ) (u : User) (r : Request) (id version : ℕ) (target : State) (body : Text) (db : Db)
    → (transition_moves now u r id version target body db).access_records ≡ db.access_records
unfolding transition_moves
transition_moves-access_records now u r id version target body db = ground arith

pub transition_moves-requests :
    (now : ℕ) (u : User) (r : Request) (id version : ℕ) (target : State) (body : Text) (db : Db)
    → (transition_moves now u r id version target body db).requests
      ≡ moved_requests now id version r.state target db.requests
unfolding transition_moves
transition_moves-requests now u r id version target body db = ground arith

pub transition_notices-SameTables :
    (now : ℕ) (u : User) (r : Request) (id : ℕ) (target : State) (db : Db)
    → SameTables db (transition_notices now u r id target db)
unfolding transition_notices
transition_notices-SameTables now u r id target db = elim (Bool-cases (is_admin u.role)) [
  | inl e ↦ rw e (SameTables-trans (notify-SameTables _ _ _ _ _ _) (audit-SameTables _ _ _ _ _))
  | inr e ↦ rw e (
      SameTables-trans (notify-SameTables _ _ _ _ _ _)
        (SameTables-trans (notify_admins-SameTables _ _ _ _) (audit-SameTables _ _ _ _ _)))
]
