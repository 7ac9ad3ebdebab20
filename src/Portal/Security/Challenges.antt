-- ===== src/Portal/Security/Challenges.antt =====
-- internal/portal/security.go: `challenge` and `takeChallenge`. The id of a challenge stands in the
-- session, from which `takeChallenge` removes it. A challenge of no user has user 0.
use game_server_dashboard.Go.Text.{Text, text_eq}
use game_server_dashboard.Go.Time.{at, elapsed, minute, upcoming}
use game_server_dashboard.Portal.Db.{Db, Error, conflict, refused, write}
use game_server_dashboard.Portal.Rows.{Challenge}
use game_server_dashboard.Portal.Types.{User}
use game_server_dashboard.Prelude.{
  Bool, Option, Result, append_row, delete_where, err, exists_where, find_where, guard, none, not,
  ok, require, some, true, ℕ, ◌&&◌, ◌*◌, ◌+◌, ◌==◌, ◌>>=◌, ◌>>◌, ◌||◌,
}

abbrev pub is_challenge : Text → Text → ℕ → Challenge → Bool
is_challenge hash purpose now c =
    text_eq c.id hash && text_eq c.purpose purpose && upcoming c.expires now

abbrev pub user_key : Option User → ℕ × ℕ
user_key none = (0, 0)
user_key (some u) = (u.id, u.generation)

module _ (hash_token : Text → Text) (seal : Text → Text → Text)
    (unseal : Text → Text → Option Text) where
  -- challenge: the one of the session and what has expired go, the new one is stored.
  unfoldable pub challenge :
      ℕ → Option User → Text → Text → Text → Text → Db → Result Error (Unit {0}) × Db
  challenge now u purpose payload id old db = write db (do
    let kept =
        delete_where (λ (c : Challenge). text_eq c.id (hash_token old) || elapsed c.expires now)
          db.auth_challenges
    guard (not (exists_where (λ (c : Challenge). text_eq c.id (hash_token id)) kept))
        (refused "UNIQUE constraint failed: auth_challenges.id")
    let owner = user_key u
    ok (record db {
      auth_challenges = append_row kept (record {
        id = hash_token id;
        user_id = owner.0;
        generation = owner.1;
        purpose = purpose;
        payload = seal purpose payload;
        expires = at (now + 5 * minute);
      });
    }))

  abbrev pub is_owner : Option User → Challenge → Bool
  is_owner none c = true
  is_owner (some u) c = not (c.user_id == 0) && c.user_id == u.id && c.generation == u.generation

  unfoldable pub take_challenge_tx :
      ℕ → Option User → Text → Text → Db → Result Error (Challenge × Db)
  take_challenge_tx now u purpose id db = do
    c ←
        require (find_where (is_challenge (hash_token id) purpose now) db.auth_challenges)
          (refused "This security step expired. Start again.")
    guard (is_owner u c) conflict
    ok (
      c,
      record db {
        auth_challenges =
            delete_where (λ (x : Challenge). text_eq x.id (hash_token id)) db.auth_challenges;
      },
    )

  -- takeChallenge: the payload is opened after the transaction.
  unfoldable pub take_challenge : ℕ → Option User → Text → Text → Db → Result Error Text × Db
  unfolding take_challenge_tx
  take_challenge now u purpose id db = elim (take_challenge_tx now u purpose id db) [
    | err e ↦ (err e, db)
    | ok (c, db') ↦
        (require (unseal purpose c.payload) (refused "message authentication failed"), db')
  ]
