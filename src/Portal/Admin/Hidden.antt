-- ===== src/Portal/Admin/Hidden.antt =====
-- What `destroyService` of internal/portal/admin.go keeps from the members.
use game_server_dashboard.Portal.Admin.Destruction.{
  Removal, archive_service, delete_service, destroy_service, is_delete, is_referenced,
}
use game_server_dashboard.Portal.Db.{Db, audit}
use game_server_dashboard.Portal.Frame.{ok-injective, write-ok}
use game_server_dashboard.Portal.Policy.Audiences.{discover, find_service, is_enabled_admin_user}
use game_server_dashboard.Portal.Policy.Viewers.{discover_hidden}
use game_server_dashboard.Portal.Rows.{item}
use game_server_dashboard.Portal.Types.{ServiceRow, User}
use game_server_dashboard.Prelude.{
  Bool, Bool-cases, List, Option, Option-cases, [], delete_where, false, find_where, guard-ok, inl,
  inr, none, not, ok, refl, some, sym, true, update_where, ℕ, ◌&&◌, ◌∙◌, ◌∷◌, ◌≡◌,
}

delete_where-find_where :
    {A : Type 0} (p : A → Bool) (xs : List A) → find_where p (delete_where p xs) ≡ none
unfolding delete_where find_where
delete_where-find_where p [] = refl
delete_where-find_where p (x ∷ xs) = elim (Bool-cases (p x)) [
  | inl e ↦ rw e (delete_where-find_where p xs)
  | inr e ↦ rw (e, e) (delete_where-find_where p xs)
]

updated-where :
    {A : Type 0} (p : A → Bool) (f : A → A) (xs : List A) {y : A}
    → ((x : A) → p x ≡ true → p (f x) ≡ true)
    → find_where p (update_where p f xs) ≡ some y
    → (x : A) × (y ≡ f x)
unfolding find_where update_where
updated-where p f [] keeps e = absurd (cc)
updated-where p f (x ∷ xs) {y} keeps e = elim (Bool-cases (p x)) [
  | inl hit ↦ let h : some (f x) ≡ some y = rw (hit, keeps x hit) at e in (x, cc)
  | inr not_hit ↦
      let h : find_where p (update_where p f xs) ≡ some y = rw (not_hit, not_hit) at e in
      updated-where p f xs {y = y} keeps h
]

deleted-service : (id : ℕ) (db : Db) → find_service id (delete_service id db) ≡ none
unfolding find_service delete_service
deleted-service id db = delete_where-find_where _ db.services

archived-service :
    (id : ℕ) (db : Db) {v : ServiceRow}
    → find_service id (archive_service id db) ≡ some v
    → (v.published && not v.archived) ≡ false
unfolding find_service archive_service
archived-service id db {v} e =
    let (x, same) = updated-where _ _ db.services {y = v} (λ x h. h) e in rw same refl

hidden-service :
    (d : Db) (later : ℕ) (viewer : Option User) (id : ℕ)
    → is_enabled_admin_user viewer ≡ false
    → ((v : ServiceRow) → find_service id d ≡ some v → (v.published && not v.archived) ≡ false)
    → discover d later viewer (find_service id d) ≡ false
unfolding discover
hidden-service d later viewer id plain hidden = elim (Option-cases (find_service id d)) [
  | inl no_row ↦ rw no_row refl
  | inr (v, found) ↦ rw found (discover_hidden d later viewer v plain (hidden v found))
]

-- Once a service has been deleted or archived, nobody but an enabled administrator finds it, at any
-- time, and the requests, the access records and the network side keep their rows.
pub destroy_service_hides :
    (now later : ℕ) (u : User) (viewer : Option User) (id : ℕ) (removal : Removal)
    (confirmed : Bool) (db : Db) {db' : Db}
    → is_enabled_admin_user viewer ≡ false
    → destroy_service now u id removal confirmed db ≡ (ok tt, db')
    → (discover db' later viewer (find_service id db') ≡ false)
      × (db'.requests ≡ db.requests)
      × (db'.access_records ≡ db.access_records)
      × (db'.vpn_grants ≡ db.vpn_grants)
unfolding destroy_service audit find_service delete_service archive_service
destroy_service_hides now later u viewer id removal confirmed db {db'} plain e =
    let (_, e1) = guard-ok confirmed _ _ (write-ok db _ e) in
    elim (Bool-cases (is_delete removal && not (is_referenced id db))) [
      | inl gone ↦
          let same : audit now u.id "delete" (item "service" id) (delete_service id db) ≡ db' =
            ok-injective (rw gone at e1) in
          rw (sym same) (
            hidden-service _ later viewer id plain (λ v found.
                absurd (cc (let h : none ≡ some v = sym (deleted-service id db) ∙ found in h))),
            refl,
            refl,
            refl,
          )
      | inr kept ↦
          let same : audit now u.id "archive" (item "service" id) (archive_service id db) ≡ db' =
            ok-injective (rw kept at e1) in
          rw (sym same) (
            hidden-service _ later viewer id plain
                (λ v found. archived-service id db {v = v} found),
            refl,
            refl,
            refl,
          )
    ]
