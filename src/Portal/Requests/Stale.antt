-- ===== src/Portal/Requests/Stale.antt =====
-- The version check of internal/portal/requests.go: a call with a version that is gone.
use game_server_dashboard.Portal.Frame.{IsUnchanged}
use game_server_dashboard.Portal.Requests.Updates.{
  at_version, at_version_and_state, moved_requests, transition_tx,
}
use game_server_dashboard.Prelude.{
  ℕ, ◌≤◌, ◌≡◌, refl, inl, inr, List, [], ◌∷◌, arith, ◌==◌, Bool-cases, Result, ok, err, ◌>>=◌,
  update_where, count_where,
}
use game_server_dashboard.Go.Text.{Text}
use game_server_dashboard.Go.Time.{Stamp}
use game_server_dashboard.Portal.Types.{State, User, Request}
use game_server_dashboard.Portal.Db.{Db, Error, conflict, write}

-- Rows of an id and a version that have already been moved on.
count_moved-le :
    (now id version : ℕ) (from target : State) (rows : List Request)
    → count_where (at_version id version) (moved_requests now id version from target rows)
      ≤ count_where (λ (x : Request). x.id == id) rows
unfolding count_where moved_requests update_where
count_moved-le now id version from target [] = omega arith
count_moved-le now id version from target (x ∷ rows) =
    elim (Bool-cases (at_version_and_state id version from x)) [
      | inl e ↦ rw e (ground (arith, count_moved-le now id version from target rows))
      | inr e ↦ rw e (ground (arith, count_moved-le now id version from target rows))
    ]

count_at-le :
    (id version : ℕ) (from : State) (rows : List Request)
    → count_where (at_version_and_state id version from) rows
      ≤ count_where (λ (x : Request). x.id == id) rows
unfolding count_where
count_at-le id version from [] = omega arith
count_at-le id version from (x ∷ rows) = ground (arith, count_at-le id version from rows)

pub count_moved :
    (now id version : ℕ) (from target : State) (rows : List Request)
    → count_where (λ (x : Request). x.id == id) rows ≤ 1
    → count_where (at_version_and_state id version from) rows ≡ 1
    → count_where (at_version id version) (moved_requests now id version from target rows) ≡ 0
unfolding count_where moved_requests update_where
count_moved now id version from target [] u c = absurd (omega arith)
count_moved now id version from target (x ∷ rows) u c =
    elim (Bool-cases (at_version_and_state id version from x)) [
      | inl e ↦ rw e (ground (arith, count_moved-le now id version from target rows))
      | inr e ↦ rw e (
          ground
            (arith, count_at-le id version from rows, count_moved now id version from target rows))
    ]

count_at_of_version :
    (id version : ℕ) (from : State) (rows : List Request)
    → count_where (at_version id version) rows ≡ 0
    → count_where (at_version_and_state id version from) rows ≡ 0
unfolding count_where
count_at_of_version id version from [] c = refl
count_at_of_version id version from (x ∷ rows) c =
    ground (arith, count_at_of_version id version from rows)

pub transition_tx_stale :
    (now : ℕ) (u : User) (r : Request) (id version : ℕ) (target : State)
    (explanation next_steps : Text) (expiry : Stamp) (db : Db)
    → count_where (at_version id version) db.requests ≡ 0
    → transition_tx now u r id version target explanation next_steps expiry db ≡ err conflict
unfolding transition_tx
transition_tx_stale now u r id version target explanation next_steps expiry db c =
    rw (count_at_of_version id version r.state db.requests c)

pub bind_stale :
    {A : Type 0} (db : Db) (m : Result Error A) (f : A → Result Error Db)
    → ((a : A) → f a ≡ err conflict)
    → IsUnchanged db (write db (m >>= f))
bind_stale db (ok a) f h = (conflict, rw (h a))
bind_stale db (err e) f h = (e, refl)
