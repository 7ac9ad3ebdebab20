-- ===== src/Portal/Accounts/Tokens.antt =====
-- internal/portal/auth.go: the links that invite a member or reset a password. `hash_token` stands
-- for the SHA-256 of a token in hexadecimal, and the token of `issue_token` is drawn at random.
use game_server_dashboard.Portal.Accounts.Names.{
  valid_username, password_hash, names_user, new_user,
}
use Prim.Native.String.{String}
use game_server_dashboard.Prelude.{
  ℕ, ◌+◌, ◌*◌, Bool, true, false, not, ◌&&◌, ◌||◌, Option, List, [], ◌∷◌, ◌++◌, leb, ◌==◌,
  if◌then◌else◌, Result, ok, ◌>>=◌, ◌>>◌, guard, require, length, find_where, update_where,
  count_where, exists_where, append_row,
}
use game_server_dashboard.Go.Text.{Text, text_eq}
use game_server_dashboard.Go.Time.{unset, at, upcoming, is_unset, hour}
use game_server_dashboard.Portal.Types.{member, ServiceRow}
use game_server_dashboard.Portal.Db.{
  Db, Error, conflict, refused, write, write_value, audit, update_users,
}
use game_server_dashboard.Portal.Rows.{
  UserRow, named, TokenKind, Token, TokenRecommendation, Recommendation,
}

-- "invite", "reset", "factor"
abbrev pub is_invite : TokenKind → Bool
is_invite TokenKind.invite = true
is_invite _ = false

abbrev pub is_reset : TokenKind → Bool
is_reset TokenKind.reset = true
is_reset _ = false

abbrev pub is_factor : TokenKind → Bool
is_factor TokenKind.factor = true
is_factor _ = false

abbrev pub same_kind : TokenKind → TokenKind → Bool
same_kind a b = is_invite a && is_invite b || is_reset a && is_reset b || is_factor a && is_factor b

-- kind=? AND username=? AND consumed IS NULL
abbrev pub is_live_for : TokenKind → Text → Token → Bool
is_live_for kind username t =
    same_kind t.kind kind && text_eq t.username username && is_unset t.consumed

unfoldable pub retire_tokens : ℕ → TokenKind → Text → List Token → List Token
retire_tokens now kind username tokens =
    update_where (is_live_for kind username) (λ t. record t { consumed = at now }) tokens

abbrev pub token_duration : TokenKind → ℕ
token_duration TokenKind.reset = hour
token_duration _ = 48 * hour

-- The name and address that a token is issued for.
unfoldable pub token_owner : TokenKind → Text → Text → ℕ → Db → Result Error (Text × Text)
token_owner kind username email user db =
    if is_reset kind
    then (do
      u ←
          require (find_where (λ (u : UserRow). u.id == user && u.enabled) db.users)
            (refused "Choose an enabled member.")
      ok (u.username, u.email))
    else (do
      guard (not (exists_where (names_user username) db.users))
          (refused "That username already exists.")
      ok (username, email))

-- INSERT OR IGNORE INTO token_recommendations, for a service that exists.
abbrev pub is_recommendation : Text → ℕ → TokenRecommendation → Bool
is_recommendation hash svc r = text_eq r.token_hash hash && r.service_id == svc

unfoldable pub recommend : Text → List ℕ → Db → Result Error Db
recommend hash [] db = ok db
recommend hash (svc ∷ svcs) db = do
  guard (exists_where (λ (s : ServiceRow). s.id == svc) db.services)
      (refused "FOREIGN KEY constraint failed")
  recommend hash svcs (
      if exists_where (is_recommendation hash svc) db.token_recommendations then db else record db {
        token_recommendations =
            append_row db.token_recommendations (record { token_hash = hash; service_id = svc });
      })

unfoldable pub recommend_all : TokenKind → Text → List ℕ → Db → Result Error Db
recommend_all kind hash svcs db =
    if is_invite kind
    then (do
      guard (leb (length svcs) 12) (refused "Recommend at most 12 services")
      recommend hash svcs db)
    else ok db

abbrev pub issue_action : TokenKind → String
issue_action TokenKind.invite = "issue invite"
issue_action TokenKind.reset = "issue reset"
issue_action TokenKind.factor = "issue factor"

abbrev pub redeem_action : TokenKind → String
redeem_action TokenKind.invite = "redeem invite"
redeem_action TokenKind.reset = "redeem reset"
redeem_action TokenKind.factor = "redeem factor"

module _ (hash_token : Text → Text) where
  -- The two statements on `tokens`: older links of the same kind and name are retired.
  unfoldable pub add_token : ℕ → TokenKind → Text → Text → ℕ → Text → Db → Db
  add_token now kind username email user token db = record db {
    tokens = append_row (retire_tokens now kind username db.tokens) (record {
      hash = hash_token token;
      kind = kind;
      username = username;
      email = email;
      user_id = if is_reset kind then user else 0;
      expires = at (now + token_duration kind);
      consumed = unset;
    });
  }

  -- issueToken; `delivery` is the mail that the caller queues with it, `ok` where there is none.
  unfoldable pub issue_token :
      (Text → Text → ℕ → Db → Result Error Db)
      → ℕ
      → ℕ
      → Option TokenKind
      → Text
      → Text
      → ℕ
      → List ℕ
      → Text
      → Db
      → Result Error Text × Db
  issue_token delivery now actor kind username email user svcs token db = write_value db (do
    kind ← require kind (refused "Invalid token type")
    guard (not (is_factor kind)) (refused "Invalid token type")
    guard (not (is_invite kind) || valid_username username)
        (refused "Choose a valid username (3–40 letters, digits, dots, hyphens or underscores).")
    owner ← token_owner kind username email user db
    guard (not (exists_where (λ (t : Token). text_eq t.hash (hash_token token)) db.tokens))
        (refused "UNIQUE constraint failed: tokens.hash")
    db2 ←
        recommend_all kind (hash_token token) svcs
          (add_token now kind owner.0 owner.1 user token db)
    db3 ← delivery token owner.1 user db2
    ok (token, audit now actor (issue_action kind) (named "membership") db3))

  abbrev pub is_redeemable : ℕ → Text → Token → Bool
  is_redeemable now token t =
      text_eq t.hash (hash_token token) && is_unset t.consumed && upcoming t.expires now

  abbrev pub is_unspent : Text → Token → Bool
  is_unspent token t = text_eq t.hash (hash_token token) && is_unset t.consumed

  -- The rows that an accepted invitation copies.
  unfoldable pub copied_recommendations : ℕ → Text → List TokenRecommendation → List Recommendation
  copied_recommendations user token [] = []
  copied_recommendations user token (r ∷ rs) =
      let rest = copied_recommendations user token rs in
      if text_eq r.token_hash (hash_token token)
      then record { user_id = user; service_id = r.service_id } ∷ rest
      else rest

  unfoldable pub accept_invite : ℕ → Text → Text → Token → Db → Result Error (ℕ × Db)
  unfolding copied_recommendations
  accept_invite now token h t db = do
    guard (not (exists_where (names_user t.username) db.users))
        (refused "This invitation cannot be redeemed.")
    let u = new_user now t.username t.email h member db
    ok (
      u.id,
      record db {
        users = append_row db.users u;
        recommendations =
            db.recommendations ++ copied_recommendations u.id token db.token_recommendations;
      },
    )

  unfoldable pub reset_password : ℕ → Text → Token → Db → Result Error (ℕ × Db)
  reset_password now h t db = do
    guard (exists_where (λ (u : UserRow). u.id == t.user_id && u.enabled) db.users)
        (refused "Account unavailable")
    ok (
      t.user_id,
      update_users now (λ (u : UserRow). u.id == t.user_id && u.enabled)
          (λ u. record u {
            password = h;
            generation = u.generation + 1;
            enrollment_locked = if is_factor t.kind then false else u.enrollment_locked;
          })
          db,
    )

  -- Redeem
  unfoldable pub redeem : (Text → Option Text) → ℕ → Text → Text → Db → Result Error (Unit {0}) × Db
  redeem create_hash now token password db = write db (do
    h ← password_hash create_hash password
    t ←
        require (find_where (is_redeemable now token) db.tokens)
          (refused "This link is invalid, expired, or already used.")
    done ← (if is_invite t.kind then accept_invite now token h t db else reset_password now h t db)
    guard (count_where (is_unspent token) done.1.tokens == 1) conflict
    let db2 = record done.1 {
      tokens = update_where (is_unspent token) (λ x. record x { consumed = at now }) done.1.tokens;
    }
    ok (audit now done.0 (redeem_action t.kind) (named "membership") db2))
