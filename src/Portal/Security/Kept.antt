-- ===== src/Portal/Security/Kept.antt =====
-- What the changes of internal/portal/security.go leave of the login methods of a user.
-- Removing a passkey leaves its user with a login method.
use Prim.Native.Char.{code}
use game_server_dashboard.Go.Text.{Text}
use game_server_dashboard.Portal.Accounts.Factors.{clear_factors}
use game_server_dashboard.Portal.Db.{
  Db, Error, audit, conflict, find_user, update_users, user_of_row,
}
use game_server_dashboard.Portal.Fixtures.{owner}
use game_server_dashboard.Portal.Frame.{ok-injective, write-ok}
use game_server_dashboard.Portal.Rows.{AccountSecurity, Passkey, RecoveryCode, UserRow, item}
use game_server_dashboard.Portal.Security.Methods.{is_key, is_key_of, method_count, remove_key}
use game_server_dashboard.Portal.Security.Recovery.{find_code, recovery_login, recovery_tx}
use game_server_dashboard.Portal.Types.{User}
use game_server_dashboard.Prelude.{
  ==_iff, All, Option-cases, Result, Result-cases, and-true, ap, arith, count_where,
  count_where-delete_where, delete_where, delete_where-All, err, exists_where, false, find_where,
  find_where-true, guard, guard-ok, inl, inr, leb, none, ok, refl, require, require-ok, some, sym,
  update_where-All, ℕ, ◌&&◌, ◌+◌, ◌==◌, ◌>>=◌, ◌>>◌, ◌∙◌, ◌≡◌, ◌≤◌, ◌⊎◌,
}

pub remove_key_keeps_method :
    (now : ℕ) (u : User) (id : Text) (db : Db) {db' : Db}
    → remove_key now u id db ≡ (ok tt, db')
    → 1 ≤ method_count u.id db'
unfolding remove_key method_count audit update_users
remove_key_keeps_method now u id db {db'} e =
    let (_, e1) =
      guard-ok
        (exists_where (λ (x : UserRow). x.id == u.id && x.enabled && x.generation == u.generation)
          db.users)
        _ _ (write-ok db _ e) in
    let (two, e2) = guard-ok (leb 2 (method_count u.id db)) _ _ e1 in
    let (one, e3) = guard-ok (count_where (is_key id u.id) db.passkeys == 1) _ _ e2 in
    let keys : db'.passkeys ≡ delete_where (is_key id u.id) db.passkeys =
      sym (ap (λ (d : Db). d.passkeys) (ok-injective e3)) in
    let codes : db'.account_security ≡ db.account_security =
      sym (ap (λ (d : Db). d.account_security) (ok-injective e3)) in
    let left = count_where-delete_where (is_key id u.id) (is_key_of u.id) db.passkeys in
    rw (keys, codes) (ground (arith, left))

find_user-id : (id : ℕ) (d : Db) {u : User} → find_user id d ≡ some u → u.id ≡ id
unfolding find_user user_of_row
find_user-id id d {u} e = elim (Option-cases (find_where (λ (x : UserRow). x.id == id) d.users)) [
  | inl gone ↦ absurd (cc (let h : none ≡ some u = rw (find_user, gone) at e in h))
  | inr (x, found) ↦
      let h : some (user_of_row x) ≡ some u = rw (find_user, found) at e in
      let same : user_of_row x ≡ u = cc in
      let is_it : x.id ≡ id = (==_iff x.id id).0 (find_where-true _ d.users found) in
      sym (ap (λ (y : User). y.id) same) ∙ is_it
]

-- After the reset of its factors a user has no login method and no recovery code.
abbrev pub IsCleared : ℕ → Db → Type 0
IsCleared user d =
    All (λ (c : RecoveryCode). (c.user_id == user) ≡ false) d.recovery_codes
    × All (λ (k : Passkey). (k.user_id == user) ≡ false) d.passkeys
    × All (λ (s : AccountSecurity). ((s.user_id == user) ≡ false) ⊎ (s.totp ≡ none))
        d.account_security

clear_factors-IsCleared : (now id : ℕ) (d : Db) → IsCleared id (clear_factors now id d)
unfolding clear_factors update_users
clear_factors-IsCleared now id d = (
  delete_where-All (λ (c : RecoveryCode). c.user_id == id) d.recovery_codes,
  delete_where-All (λ (k : Passkey). k.user_id == id) d.passkeys,
  update_where-All (λ (s : AccountSecurity). ((s.user_id == id) ≡ false) ⊎ (s.totp ≡ none)) _ _
      d.account_security (λ s h. inr refl) (λ s h. inl h),
)

-- After a recovery the user has no login method and no recovery code left, and the generation is a
-- new one, so the sessions of the user end.
pub recovery_login-IsCleared :
    (hash_token : Text → Text) (now : ℕ) (username code : Text) (db : Db) {u : User} {db' : Db}
    → recovery_login hash_token now username code db ≡ (ok u, db')
    → IsCleared u.id db'
      × ((old : UserRow) × (find_code hash_token username code db db.recovery_codes ≡ some old)
          × (u.generation ≡ old.generation + 1))
unfolding recovery_login recovery_tx audit
recovery_login-IsCleared hash_token now username code db {u} {db'} e =
    elim (Result-cases (recovery_tx hash_token now username code db)) [
      | inr (refusal, same) ↦
          let h : (err refusal, db) ≡ (ok u, db') = rw (recovery_login, same) at e in
          absurd (cc (ap (λ (p : Result Error User × Db). p.0) h))
      | inl ((old, db2), same) ↦
          let (row, found, e1) =
            require-ok (find_code hash_token username code db db.recovery_codes) _ _ same in
          let is_row : row ≡ old = ap (λ (p : UserRow × Db). p.0) (ok-injective e1) in
          let is_db : audit now row.id "recovery code used; factors reset" (item "user" row.id)
                (clear_factors now row.id db)
              ≡ db2 =
            ap (λ (p : UserRow × Db). p.1) (ok-injective e1) in
          let h : (
            require (find_user old.id db2) conflict >>= λ (v : User).
                guard (v.enabled && v.generation == old.generation + 1) conflict >> ok v,
            db2,
          )
              ≡ (ok u, db') =
            rw (recovery_login, same) at e in
          let (v, owner, e2) =
            require-ok (find_user old.id db2) _ _ (ap (λ (p : Result Error User × Db). p.0) h) in
          let (fresh, e3) = guard-ok (v.enabled && v.generation == old.generation + 1) _ _ e2 in
          let is_user : v ≡ u = ok-injective e3 in
          let same_id : u.id ≡ row.id =
            ap (λ (x : User). x.id) (sym is_user)
            ∙ find_user-id old.id db2 {u = v} owner
            ∙ ap (λ (x : UserRow). x.id) (sym is_row) in
          let same_db : db'
              ≡ audit now row.id "recovery code used; factors reset" (item "user" row.id)
                  (clear_factors now row.id db) =
            sym (is_db ∙ ap (λ (p : Result Error User × Db). p.1) h) in
          let bumped_to : u.generation ≡ row.generation + 1 =
            ap (λ (x : User). x.generation) (sym is_user)
            ∙ (==_iff _ _).0 (and-true v.enabled (v.generation == old.generation + 1) fresh).1
            ∙ ap (λ (x : UserRow). x.generation + 1) (sym is_row) in
          (rw (same_id, same_db) (clear_factors-IsCleared now row.id db), (row, found, bumped_to))
    ]
