-- ===== src/Portal/Accounts/Issued.antt =====
-- What the accounts of internal/portal/auth.go start from: the first administrator, and links of
-- which at most one of a kind is alive for a name.
use game_server_dashboard.Go.Text.{Text, text_eq, text_eq_iff}
use game_server_dashboard.Portal.Accounts.Bootstrap.{create_admin}
use game_server_dashboard.Portal.Accounts.Names.{
  names_user, new_user, password_hash, valid_username,
}
use game_server_dashboard.Portal.Accounts.Tokens.{
  add_token, is_factor, is_invite, is_live_for, is_recommendation, issue_token, recommend,
  recommend_all, retire_tokens, same_kind, token_owner,
}
use game_server_dashboard.Portal.Admin.Deliveries.{link_delivery, link_delivery-tokens}
use game_server_dashboard.Portal.Db.{Db, Error, audit, is_enabled_admin, refused}
use game_server_dashboard.Portal.Fixtures.{owner}
use game_server_dashboard.Portal.Frame.{ok-injective, pair-injective, write-ok, write_value-ok}
use game_server_dashboard.Portal.Rows.{Token, TokenKind, UserRow}
use game_server_dashboard.Portal.Types.{ServiceRow, admin}
use game_server_dashboard.Prelude.{
  ==_iff, >>=-ok, Bool, Bool-cases, List, Option, Result, [], ap, append_row, arith, count_where,
  count_where-append_row, count_where-update_where_none, exists_where, guard, guard-ok, inl, inr,
  leb, length, not, ok, refl, some, sym, true, ℕ, ◌==◌, ◌>>◌, ◌||◌, ◌∙◌, ◌∷◌, ◌≡◌,
}

-- CreateAdmin succeeds only where no administrator is enabled, and leaves exactly one, whose name
-- is valid; the users before it keep their rows.
pub create_admin_sole :
    (create_hash : Text → Option Text) (now : ℕ) (username password : Text) (db : Db) {db' : Db}
    → create_admin create_hash now username password db ≡ (ok tt, db')
    → (count_where is_enabled_admin db.users ≡ 0)
      × (count_where is_enabled_admin db'.users ≡ 1)
      × (valid_username username ≡ true)
      × ((u : UserRow) × (db'.users ≡ append_row db.users u) × (u.username ≡ username))
unfolding create_admin audit new_user
create_admin_sole create_hash now username password db {db'} e =
    let (valid, e1) = guard-ok (valid_username username) _ _ (write-ok db _ e) in
    let (h, _, e2) = >>=-ok (password_hash create_hash password) _ e1 in
    let (none_yet, e3) = guard-ok (count_where is_enabled_admin db.users == 0) _ _ e2 in
    let (_, e4) = guard-ok (not (exists_where (names_user username) db.users)) _ _ e3 in
    let zero_before : count_where is_enabled_admin db.users ≡ 0 = (==_iff _ _).0 none_yet in
    let u = new_user now username [] h admin db in
    let rows : db'.users ≡ append_row db.users u =
      sym (ap (λ (d : Db). d.users) (ok-injective e4)) in
    (
      zero_before,
      rw (rows, count_where-append_row is_enabled_admin db.users u, zero_before),
      valid,
      (u, rows, refl),
    )

recommend-tokens :
    (hash : Text) (svcs : List ℕ) (db : Db) {db' : Db}
    → recommend hash svcs db ≡ ok db'
    → db'.tokens ≡ db.tokens
unfolding recommend
recommend-tokens hash [] db e = sym (ap (λ (d : Db). d.tokens) (ok-injective e))
recommend-tokens hash (svc ∷ svcs) db {db'} e =
    let (_, e1) = guard-ok (exists_where (λ (s : ServiceRow). s.id == svc) db.services) _ _ e in
    elim (Bool-cases (exists_where (is_recommendation hash svc) db.token_recommendations)) [
      | inl t ↦ recommend-tokens hash svcs db (rw t at e1)
      | inr t ↦ recommend-tokens hash svcs _ (rw t at e1)
    ]

recommend_all-tokens :
    (kind : TokenKind) (hash : Text) (svcs : List ℕ) (db : Db) {db' : Db}
    → recommend_all kind hash svcs db ≡ ok db'
    → db'.tokens ≡ db.tokens
unfolding recommend_all
recommend_all-tokens kind hash svcs db {db'} e = elim (Bool-cases (is_invite kind)) [
  | inl t ↦
      let e0 : guard (leb (length svcs) 12) (refused "Recommend at most 12 services")
            >> recommend hash svcs db
          ≡ ok db' =
        rw t at e in
      recommend-tokens hash svcs db (guard-ok _ _ _ e0).1
  | inr t ↦
      let e0 : ◌≡◌ {A = Result Error Db} (ok db) (ok db') = rw t at e in
      sym (ap (λ (d : Db). d.tokens) (ok-injective e0))
]

same_kind_refl : (k : TokenKind) → same_kind k k ≡ true
same_kind_refl TokenKind.invite = refl
same_kind_refl TokenKind.reset = refl
same_kind_refl TokenKind.factor = refl

count_where-retire_tokens :
    (now : ℕ) (kind : TokenKind) (username : Text) (tokens : List Token)
    → count_where (is_live_for kind username) (retire_tokens now kind username tokens) ≡ 0
unfolding retire_tokens
count_where-retire_tokens now kind username tokens =
    count_where-update_where_none _ _ _ tokens (λ y h. ground arith) (λ y h. h)

-- Issuing a link, by mail or for the page, leaves exactly one live link of that kind for that name;
-- the name is the one asked for or, for a reset, that of the enabled member.
pub issue_token_sole :
    (parse_address : Text → Option Text) (seal : TokenKind → Text → Text) (by_mail : Bool)
    (hash_token : Text → Text) (now actor : ℕ) (kind : TokenKind) (username email : Text) (user : ℕ)
    (svcs : List ℕ) (token : Text) (db : Db) {secret : Text} {db' : Db}
    → issue_token hash_token
        (link_delivery parse_address seal hash_token by_mail now kind)
        now
        actor
        (some kind)
        username
        email
        user
        svcs
        token
        db
      ≡ (ok secret, db')
    → (owner : Text × Text) × (token_owner kind username email user db ≡ ok owner)
      × (count_where (is_live_for kind owner.0) db'.tokens ≡ 1)
unfolding issue_token add_token audit
issue_token_sole parse_address seal by_mail hash_token now actor kind username email user svcs token
      db {secret} {db'} e =
    let (_, e1) = guard-ok (not (is_factor kind)) _ _ (write_value-ok db _ e) in
    let (_, e2) = guard-ok (not (is_invite kind) || valid_username username) _ _ e1 in
    let (owner, owned, e3) = >>=-ok (token_owner kind username email user db) _ e2 in
    let (_, e4) =
      guard-ok (not (exists_where (λ (t : Token). text_eq t.hash (hash_token token)) db.tokens)) _ _
        e3 in
    let (db2, recommended, e5) =
      >>=-ok
        (recommend_all kind (hash_token token) svcs
          (add_token hash_token now kind owner.0 owner.1 user token db))
        _ e4 in
    let (db3, delivered, e6) =
      >>=-ok (link_delivery parse_address seal hash_token by_mail now kind token owner.1 user db2) _
        e5 in
    let rows : db'.tokens ≡ db2.tokens =
      sym (ap (λ (p : Text × Db). p.1.tokens) (pair-injective e6))
      ∙ link_delivery-tokens parse_address seal hash_token by_mail now kind token owner.1 user db2
          delivered in
    let all_rows : db'.tokens
        ≡ (add_token hash_token now kind owner.0 owner.1 user token db).tokens =
      rows ∙ recommend_all-tokens kind (hash_token token) svcs _ recommended in
    (
      owner,
      owned,
      rw (
        all_rows,
        count_where-append_row (is_live_for kind owner.0) (retire_tokens now kind owner.0 db.tokens)
            _,
        count_where-retire_tokens now kind owner.0 db.tokens,
        same_kind_refl kind,
        (text_eq_iff owner.0 owner.0).1 refl,
      ),
    )
