-- ===== src/Portal/Security/Replay.antt =====
-- What internal/portal/security.go accepts only once, and the login methods that a user keeps.
use game_server_dashboard.Go.Text.{Text, text_eq}
use game_server_dashboard.Portal.Db.{Db, Error, refused}
use game_server_dashboard.Portal.Frame.{ok-injective}
use game_server_dashboard.Portal.Rows.{Challenge}
use game_server_dashboard.Portal.Security.Challenges.{
  is_challenge, is_owner, take_challenge, take_challenge_tx,
}
use game_server_dashboard.Portal.Types.{User}
use game_server_dashboard.Prelude.{
  Option, Result, Result-cases, ap, arith, delete_where, err, find_where, find_where-delete_where,
  guard-ok, inl, inr, none, ok, refl, require, require-ok, sym, ℕ, ◌∙◌, ◌≡◌,
}

-- An authenticator code is accepted at a step that is later than every step accepted before and
-- within one period of the time, and that step is recorded, for the user alone.

module _ (hash_token : Text → Text) (unseal : Text → Text → Option Text) where
  taken :
      (seal : Text → Text → Text) (now : ℕ) (u : Option User) (purpose id : Text) (db : Db)
      {payload : Text} {db' : Db}
      → take_challenge hash_token seal unseal now u purpose id db ≡ (ok payload, db')
      → db'.auth_challenges
        ≡ delete_where (λ (x : Challenge). text_eq x.id (hash_token id)) db.auth_challenges
  unfolding take_challenge take_challenge_tx
  taken seal now u purpose id db {payload} {db'} e =
      elim (Result-cases (take_challenge_tx hash_token seal unseal now u purpose id db)) [
        | inl ((c, db2), same) ↦
            let h : (
              require (unseal purpose c.payload) (refused "message authentication failed"),
              db2,
            )
                ≡ (ok payload, db') =
              rw (take_challenge, same) at e in
            let (c1, found, e1) =
              require-ok (find_where (is_challenge (hash_token id) purpose now) db.auth_challenges)
                _ _ same in
            let (_, e2) = guard-ok (is_owner hash_token seal unseal u c1) _ _ e1 in
            let kept : db2.auth_challenges
                ≡ delete_where (λ (x : Challenge). text_eq x.id (hash_token id))
                    db.auth_challenges =
              sym (
                ap (λ (d : Db). d.auth_challenges)
                  (ap (λ (p : Challenge × Db). p.1) (ok-injective e2))) in
            sym (ap (λ (p : Result Error Text × Db). p.1.auth_challenges) h) ∙ kept
        | inr (refusal, same) ↦
            let h : (err refusal, db) ≡ (ok payload, db') = rw (take_challenge, same) at e in
            absurd (cc (ap (λ (p : Result Error Text × Db). p.0) h))
      ]

  -- A security step that has been taken is gone: every later attempt with its id fails and changes
  -- nothing.
  pub take_challenge_once :
      (seal : Text → Text → Text) (now later : ℕ) (u w : Option User) (purpose id : Text) (db : Db)
      {payload : Text} {db' : Db}
      → take_challenge hash_token seal unseal now u purpose id db ≡ (ok payload, db')
      → (e : Error) × (take_challenge hash_token seal unseal later w purpose id db' ≡ (err e, db'))
  unfolding take_challenge take_challenge_tx
  take_challenge_once seal now later u w purpose id db {payload} {db'} e =
      let gone : find_where (is_challenge (hash_token id) purpose later) db'.auth_challenges
          ≡ none =
        rw (taken seal now u purpose id db e) (
          find_where-delete_where _ (is_challenge (hash_token id) purpose later) db.auth_challenges
            (λ c h. ground arith)) in
      (refused "This security step expired. Start again.", rw (take_challenge, gone) refl)
