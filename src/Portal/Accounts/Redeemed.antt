-- ===== src/Portal/Accounts/Redeemed.antt =====
-- What a link of internal/portal/auth.go is good for: one redemption, and no administrator by it.
use game_server_dashboard.Go.Text.{Text}
use game_server_dashboard.Go.Time.{at}
use game_server_dashboard.Portal.Accounts.Names.{new_user, password_hash}
use game_server_dashboard.Portal.Accounts.Tokens.{
  accept_invite, is_invite, is_redeemable, is_unspent, redeem, redeem_action, reset_password,
}
use game_server_dashboard.Portal.Db.{Db, Error, audit, refused, update_users}
use game_server_dashboard.Portal.Frame.{IsUnchanged, ok-injective, pair-injective, write-ok}
use game_server_dashboard.Portal.Rows.{Token, UserRow, named}
use game_server_dashboard.Portal.Types.{is_admin, member}
use game_server_dashboard.Prelude.{
  >>=-ok, All-false-update_where, Bool, Bool-cases, Option, Result, Result-cases, ap, append_row,
  arith, count_where, count_where-append_row, count_where-update_where_same, find_where,
  find_where-All-false, guard-ok, if◌then◌else◌, inl, inr, none, ok, refl, require-ok, sym,
  update_where, ℕ, ◌==◌, ◌∙◌, ◌≡◌,
}

module _ (hash_token : Text → Text) where
  -- What a redemption has done: the account it is about, then the token.
  abbrev redeemed_account : ℕ → Text → Text → Token → Db → Result Error (ℕ × Db)
  redeemed_account now token h t db =
      if is_invite t.kind
      then accept_invite hash_token now token h t db
      else reset_password hash_token now h t db

  abbrev spent_db : ℕ → Text → Token → ℕ → Db → Db
  spent_db now token t user db =
      audit now user (redeem_action t.kind) (named "membership") (record db {
        tokens =
            update_where (is_unspent hash_token token) (λ x. record x { consumed = at now })
              db.tokens;
      })

  redeem_outcome :
      (create_hash : Text → Option Text) (now : ℕ) (token password : Text) (db : Db) {db' : Db}
      → redeem hash_token create_hash now token password db ≡ (ok tt, db')
      → (h : Text) × (t : Token) × (user : ℕ) × (mid : Db) × (redeemed_account now token h t db
          ≡ ok (user, mid))
        × (db' ≡ spent_db now token t user mid)
  unfolding redeem
  redeem_outcome create_hash now token password db {db'} e =
      let (h, _, e1) = >>=-ok (password_hash create_hash password) _ (write-ok db _ e) in
      let (t, _, e2) =
        require-ok (find_where (is_redeemable hash_token now token) db.tokens) _ _ e1 in
      let (done, account, e3) = >>=-ok (redeemed_account now token h t db) _ e2 in
      let (_, e4) =
        guard-ok (count_where (is_unspent hash_token token) done.1.tokens == 1) _ _ e3 in
      (h, t, done.0, done.1, account, sym (ok-injective e4))

  spent_db-unredeemable :
      (now later : ℕ) (token : Text) (t : Token) (user : ℕ) (db : Db)
      → find_where (is_redeemable hash_token later token) (spent_db now token t user db).tokens
        ≡ none
  unfolding audit
  spent_db-unredeemable now later token t user db = find_where-All-false _ _ (
      All-false-update_where (is_redeemable hash_token later token) (is_unspent hash_token token) _
        db.tokens (λ y h. ground arith) (λ y h. ground arith))

  redeem-gone :
      (create_hash : Text → Option Text) (now : ℕ) (token password : Text) (db : Db)
      → find_where (is_redeemable hash_token now token) db.tokens ≡ none
      → IsUnchanged db (redeem hash_token create_hash now token password db)
  unfolding redeem
  redeem-gone create_hash now token password db gone =
      elim (Result-cases (password_hash create_hash password)) [
        | inl (h, e) ↦ (refused "This link is invalid, expired, or already used.", rw (e, gone))
        | inr (x, e) ↦ (x, rw e)
      ]

  -- A link is good for one redemption: once it has been redeemed, every later attempt with it, with
  -- any password and at any time, fails and changes nothing.
  pub redeem_once :
      (create_hash : Text → Option Text) (now later : ℕ) (token password password2 : Text) (db : Db)
      {db' : Db}
      → redeem hash_token create_hash now token password db ≡ (ok tt, db')
      → IsUnchanged db' (redeem hash_token create_hash later token password2 db')
  redeem_once create_hash now later token password password2 db {db'} e =
      let (h, t, user, mid, _, same) = redeem_outcome create_hash now token password db e in
      redeem-gone create_hash later token password2 db'
        (rw same (spent_db-unredeemable now later token t user mid))

  abbrev is_admin_row : UserRow → Bool
  is_admin_row u = is_admin u.role

  redeemed-admins :
      (now : ℕ) (token h : Text) (t : Token) (db mid : Db) {user : ℕ}
      → redeemed_account now token h t db ≡ ok (user, mid)
      → count_where is_admin_row mid.users ≡ count_where is_admin_row db.users
  unfolding accept_invite reset_password new_user update_users
  redeemed-admins now token h t db mid {user} e = elim (Bool-cases (is_invite t.kind)) [
    | inl k ↦
        let e1 : accept_invite hash_token now token h t db ≡ ok (user, mid) = rw k at e in
        let (_, e2) = guard-ok _ _ _ e1 in
        let u = new_user now t.username t.email h member db in
        let rows : mid.users ≡ append_row db.users u =
          sym (ap (λ (p : ℕ × Db). p.1.users) (pair-injective e2)) in
        rw rows (count_where-append_row is_admin_row db.users u ∙ omega arith)
    | inr k ↦
        let e1 : reset_password hash_token now h t db ≡ ok (user, mid) = rw k at e in
        let (_, e2) = guard-ok _ _ _ e1 in
        let rows = sym (ap (λ (p : ℕ × Db). p.1.users) (pair-injective e2)) in
        rw rows (count_where-update_where_same is_admin_row _ _ db.users (λ y h. refl))
  ]

  -- Redeeming a link makes nobody an administrator and takes the role from none.
  pub redeem_keeps_admins :
      (create_hash : Text → Option Text) (now : ℕ) (token password : Text) (db : Db) {db' : Db}
      → redeem hash_token create_hash now token password db ≡ (ok tt, db')
      → count_where is_admin_row db'.users ≡ count_where is_admin_row db.users
  unfolding audit
  redeem_keeps_admins create_hash now token password db {db'} e =
      let (h, t, user, mid, done, same) = redeem_outcome create_hash now token password db e in
      rw same (redeemed-admins now token h t db mid done)
