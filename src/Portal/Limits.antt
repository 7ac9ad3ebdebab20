-- ===== src/Portal/Limits.antt =====
-- internal/portal/auth.go: `Limited`, the counter behind every rate limit.
use game_server_dashboard.Go.Text.{Text, text_eq, text_eq_iff}
use game_server_dashboard.Portal.Db.{Db}
use game_server_dashboard.Portal.Rows.{Limit}
use game_server_dashboard.Prelude.{
  Bool, Bool-cases, List, [], append_row, arith, exists_where, false, find_where,
  find_where-update_where, if◌then◌else◌, inl, inr, leb, ltb, none, not, refl, some, true,
  update_where, ℕ, ◌+◌, ◌∷◌, ◌≡◌,
}
use game_server_dashboard.Vpn.Destination.{key}

abbrev pub has_key : Text → Limit → Bool
has_key key l = text_eq l.key key

-- INSERT INTO limits ... ON CONFLICT(key) DO UPDATE
unfoldable pub bump_limit : ℕ → Text → ℕ → List Limit → List Limit
bump_limit now key window rows =
    if exists_where (has_key key) rows
    then update_where (has_key key)
        (λ l. record l {
          count = if leb l.reset now then 1 else l.count + 1;
          reset = if leb l.reset now then now + window else l.reset;
        })
        rows
    else append_row rows (record { key = key; count = 1; reset = now + window })

unfoldable pub limit_count : Text → List Limit → ℕ
limit_count key rows = elim (find_where (has_key key) rows) [ some l ↦ l.count | none ↦ 0 ]

-- Limited: true where the attempt is refused.
unfoldable pub limited : ℕ → Text → ℕ → ℕ → Db → Bool × Db
limited now key max window db =
    let rows = bump_limit now key window db.limits in
    (not (leb (limit_count key rows) max), record db { limits = rows })

-- The window in which an attempt falls: how many attempts it has seen.
unfoldable pub used : ℕ → Text → Db → ℕ
used now key db = elim (find_where (has_key key) db.limits) [
  | some l ↦ if leb l.reset now then 0 else l.count
  | none ↦ 0
]

find_where-none {ℓ} :
    {A : Type ℓ} (p : A → Bool) (xs : List A) → exists_where p xs ≡ false → find_where p xs ≡ none
unfolding find_where exists_where
find_where-none p [] h = refl
find_where-none p (x ∷ xs) h = ground (arith, find_where-none p xs)

find_where-some {ℓ} :
    {A : Type ℓ} (p : A → Bool) (xs : List A)
    → exists_where p xs ≡ true
    → (x : A) × (find_where p xs ≡ some x)
unfolding find_where exists_where
find_where-some p [] h = absurd (cc)
find_where-some p (x ∷ xs) h = elim (Bool-cases (p x)) [
  | inl e ↦ (x, rw e)
  | inr e ↦ rw e (find_where-some p xs (rw e at h))
]

find_where-append_row {ℓ} :
    {A : Type ℓ} (p : A → Bool) (xs : List A) (x : A)
    → exists_where p xs ≡ false
    → p x ≡ true
    → find_where p (append_row xs x) ≡ some x
unfolding find_where exists_where append_row
find_where-append_row p [] x h e = rw e
find_where-append_row p (y ∷ xs) x h e = ground (arith, find_where-append_row p xs x)

-- When the window ends in which an attempt falls: as the running one does, or after a whole window.
unfoldable pub window_end : ℕ → Text → ℕ → Db → ℕ
window_end now key window db = elim (find_where (has_key key) db.limits) [
  | some l ↦ if ltb now l.reset then l.reset else now + window
  | none ↦ now + window
]

-- An attempt is refused exactly when the attempts of the running window, this one included, exceed
-- the maximum. Either way it counts until its window ends, at the end of the running window or, where
-- none is running, a whole window later; from then on the count is zero.
pub limited_counts :
    (now : ℕ) (key : Text) (max window : ℕ) (db : Db) (later : ℕ)
    → let (refusal, db') = limited now key max window db in
      (refusal ≡ not (leb (used now key db + 1) max))
      × (used later key db'
          ≡ (if ltb later (window_end now key window db) then used now key db + 1 else 0))
unfolding limited used bump_limit limit_count window_end
limited_counts now key max window db later =
    elim (Bool-cases (exists_where (has_key key) db.limits)) [
      | inl e ↦
          let (l, found) = find_where-some (has_key key) db.limits e in
          ground (
            arith,
            find_where-update_where (has_key key)
                (λ (x : Limit). record x {
                  count = if leb x.reset now then 1 else x.count + 1;
                  reset = if leb x.reset now then now + window else x.reset;
                })
                db.limits {x = l} (λ y h. h) found,
          )
      | inr e ↦ ground (
        arith,
        find_where-none (has_key key) db.limits e,
        find_where-append_row (has_key key) db.limits
            (record { key = key; count = 1; reset = now + window }) e
            ((text_eq_iff key key).1 refl),
      )
    ]
