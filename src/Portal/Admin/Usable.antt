-- ===== src/Portal/Admin/Usable.antt =====
-- What the member form of internal/portal/admin.go guarantees.
use game_server_dashboard.Portal.Admin.Members.{
  cut_access, cut_network, cut_notices, disable_effects, member_checks, save_member, set_role,
}
use game_server_dashboard.Portal.Db.{Db, Error, audit, is_enabled_admin, update_users}
use game_server_dashboard.Portal.Frame.{
  SameTables, SameTables-refl, SameTables-trans, insert_notifications-SameTables, ok-injective,
  write-ok,
}
use game_server_dashboard.Portal.Rows.{UserRow, item}
use game_server_dashboard.Portal.Types.{Role, User, is_admin}
use game_server_dashboard.Portal.VpnTypes.{Device}
use game_server_dashboard.Prelude.{
  >>=-ok, Bool, Bool-cases, List, Option, [], ap, arith, count_where, false, find_where, guard,
  guard-ok, if◌then◌else◌, inl, inr, ltb, not, ok, refl, require-ok, some, sym, true, update_where,
  ℕ, ◌&&◌, ◌+◌, ◌<◌, ◌==◌, ◌||◌, ◌∙◌, ◌∷◌, ◌≡◌, ◌≤◌,
}

module _ {A : Type 0} (p q : A → Bool) where
  -- An update takes out of a test at most the rows that it touches and that pass it.
  count_where-update_where_ge :
      (f : A → A) (xs : List A)
      → count_where p xs ≤ count_where p (update_where q f xs) + count_where (λ x. p x && q x) xs
  unfolding count_where update_where
  count_where-update_where_ge f [] = omega arith
  count_where-update_where_ge f (x ∷ xs) = elim (Bool-cases (q x)) [
    | inl e ↦ rw e (ground (arith, count_where-update_where_ge f xs))
    | inr e ↦ rw e (ground (arith, count_where-update_where_ge f xs))
  ]

  count_where-le_hit :
      (f : A → A) (xs : List A)
      → ((y : A) → p (f y) ≡ true)
      → count_where p xs ≤ count_where p (update_where q f xs)
  unfolding count_where update_where
  count_where-le_hit f [] hit = omega arith
  count_where-le_hit f (x ∷ xs) hit = elim (Bool-cases (q x)) [
    | inl e ↦ rw (e, hit x) (ground (arith, count_where-le_hit f xs hit))
    | inr e ↦ rw e (ground (arith, count_where-le_hit f xs hit))
  ]

  count_both-none : (xs : List A) → count_where q xs ≡ 0 → count_where (λ x. p x && q x) xs ≡ 0
  unfolding count_where
  count_both-none [] h = refl
  count_both-none (x ∷ xs) h = ground (arith, count_both-none xs)

  -- Of the one row that an update touches, the test tells whether it counts.
  count_both-found :
      (xs : List A) {old : A}
      → count_where q xs ≤ 1
      → find_where q xs ≡ some old
      → count_where (λ x. p x && q x) xs ≡ (if p old then 1 else 0)
  unfolding count_where find_where
  count_both-found [] one e = absurd (cc)
  count_both-found (x ∷ xs) {old} one e = elim (Bool-cases (q x)) [
    | inl t ↦
        let h : ◌≡◌ {A = Option A} (some x) (some old) = rw t at e in
        let same : x ≡ old = cc in
        let none_left : count_where q xs ≡ 0 = ground arith in
        rw (t, count_both-none xs none_left, same) (ground arith)
    | inr t ↦
        rw t (let rest = count_both-found xs {old = old} (ground arith) (rw t at e) in ground arith)
  ]

pub cut_notices-SameTables :
    (now : ℕ) (user : ℕ) (ds : List Device) (db : Db) → SameTables db (cut_notices now user ds db)
unfolding cut_notices
cut_notices-SameTables now user [] db = SameTables-refl db
cut_notices-SameTables now user (d ∷ ds) db = elim (Bool-cases (d.user_id == user)) [
  | inl e ↦ rw e (
      SameTables-trans (insert_notifications-SameTables now is_enabled_admin 0 0 d.id _ db.users db)
        (cut_notices-SameTables now user ds _))
  | inr e ↦ rw e (cut_notices-SameTables now user ds db)
]

-- Disabling touches no row of the users.
disable_effects-users :
    (now actor user : ℕ) (db : Db) → (disable_effects now actor user db).users ≡ db.users
unfolding disable_effects cut_access cut_network
disable_effects-users now actor user db =
    (cut_notices-SameTables now user ((cut_network now actor user db).vpn_devices)
      (cut_network now actor user db)).users

pub save_member_outcome :
    (now : ℕ) (u : User) (id : ℕ) (chosen : Option Role) (enabled confirmed : Bool) (db : Db)
    {db' : Db}
    → save_member now u id chosen enabled confirmed db ≡ (ok tt, db')
    → (role : Role) × (chosen ≡ some role)
      × (member_checks id role enabled db ≡ ok tt)
      × (db'
          ≡ audit now u.id "member role/status change" (item "user" id) (
              if enabled
              then set_role now id role enabled db
              else disable_effects now u.id id (set_role now id role enabled db)))
unfolding save_member
save_member_outcome now u id chosen enabled confirmed db {db'} e =
    let (role, is_chosen, e1) = require-ok chosen _ _ (write-ok db _ e) in
    let (_, e2) = guard-ok (enabled && is_admin role || confirmed) _ _ e1 in
    let (x, checked, e3) = >>=-ok (member_checks id role enabled db) _ e2 in
    (role, is_chosen, checked, sym (ok-injective e3))

member_checks-found :
    (id : ℕ) (role : Role) (enabled : Bool) (db : Db)
    → member_checks id role enabled db ≡ ok tt
    → (old : UserRow) × (find_where (λ (x : UserRow). x.id == id) db.users ≡ some old)
      × ((not (is_enabled_admin old && (not enabled || not (is_admin role)))
            || ltb 1 (count_where is_enabled_admin db.users))
          ≡ true)
unfolding member_checks
member_checks-found id role enabled db e =
    let (old, found, e1) = require-ok (find_where (λ (x : UserRow). x.id == id) db.users) _ _ e in
    (old, found, guard-only _ _ e1)
  where
    guard-only : (c : Bool) (x : Error) → guard c x ≡ ok tt → c ≡ true
    guard-only true x h = refl
    guard-only false x h = cc

-- The users after a successful change: the row of that id, and no other, has the new role and
-- state, and every session of it is void.
saved_users :
    (now : ℕ) (u : User) (id : ℕ) (role : Role) (enabled : Bool) (db : Db)
    → (if enabled
        then set_role now id role enabled db
        else disable_effects now u.id id (set_role now id role enabled db)).users
      ≡ update_where
          (λ (x : UserRow). x.id == id)
          (λ x. record x { role = role; enabled = enabled; generation = x.generation + 1 })
          db.users
unfolding set_role update_users
saved_users now u id role true db = refl
saved_users now u id role false db =
    disable_effects-users now u.id id (set_role now id role false db)

-- Where there is an enabled administrator before a change of a member, there is one after it, if
-- no two users have the member's id.
pub save_member_keeps_admin :
    (now : ℕ) (u : User) (id : ℕ) (chosen : Option Role) (enabled confirmed : Bool) (db : Db)
    {db' : Db}
    → count_where (λ (x : UserRow). x.id == id) db.users ≤ 1
    → 0 < count_where is_enabled_admin db.users
    → save_member now u id chosen enabled confirmed db ≡ (ok tt, db')
    → 0 < count_where is_enabled_admin db'.users
unfolding audit
save_member_keeps_admin now u id chosen enabled confirmed db {db'} one some_admin e =
    let (role, _, checked, done) = save_member_outcome now u id chosen enabled confirmed db e in
    let (old, found, kept) = member_checks-found id role enabled db checked in
    let f : UserRow → UserRow =
      λ x. record x { role = role; enabled = enabled; generation = x.generation + 1 } in
    let rows : db'.users ≡ update_where (λ (x : UserRow). x.id == id) f db.users =
      ap (λ (d : Db). d.users) done ∙ saved_users now u id role enabled db in
    let at_most =
      count_where-update_where_ge is_enabled_admin (λ (x : UserRow). x.id == id) f db.users in
    let touched =
      count_both-found is_enabled_admin (λ (x : UserRow). x.id == id) db.users {old = old} one
        found in
    rw rows (elim (Bool-cases (is_admin role && enabled)) [
      | inl stays ↦ omega (
        arith,
        count_where-le_hit is_enabled_admin (λ (x : UserRow). x.id == id) f db.users (λ y. stays),
      )
      | inr goes ↦ ground arith
    ])
