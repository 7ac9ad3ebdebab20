-- ===== src/Prelude/Tables.antt =====
-- A table is the list of its rows in insertion order; these are the SQL statements on it.
use Prim.Native.Nat.{ℕ, suc, ◌+◌, max}
use mathlib.Core.Bool.{Bool, false, ◌||◌}
use mathlib.Core.Option.{Option, none, some}
use mathlib.Core.List.{List, [], ◌∷◌, ◌++◌}
use game_server_dashboard.Prelude.Tests.{if◌then◌else◌}

-- What every row of a table satisfies.
module _ {ℓ κ} {A : Type ℓ} (holds : A → Type κ) where
  abbrev pub All : List A → Type κ
  All [] = Unit
  All (row ∷ rows) = holds row × All rows

module _ {ℓ} {A : Type ℓ} where
  abbrev pub length : List A → ℕ
  length [] = 0
  length (_ ∷ xs) = suc (length xs)

  -- SELECT ... WHERE p
  unfoldable pub select : (A → Bool) → List A → List A
  select p [] = []
  select p (x ∷ xs) = if p x then x ∷ select p xs else select p xs

  -- DELETE ... WHERE p
  unfoldable pub delete_where : (A → Bool) → List A → List A
  delete_where p [] = []
  delete_where p (x ∷ xs) = if p x then delete_where p xs else x ∷ delete_where p xs

  -- The first row of SELECT ... WHERE p, as QueryRow reads it.
  unfoldable pub find_where : (A → Bool) → List A → Option A
  find_where p [] = none
  find_where p (x ∷ xs) = if p x then some x else find_where p xs

  -- UPDATE ... SET f WHERE p
  unfoldable pub update_where : (A → Bool) → (A → A) → List A → List A
  update_where p f [] = []
  update_where p f (x ∷ xs) = (if p x then f x else x) ∷ update_where p f xs

  -- SELECT count(*) ... WHERE p, and the rows that an UPDATE affects.
  unfoldable pub count_where : (A → Bool) → List A → ℕ
  count_where p [] = 0
  count_where p (x ∷ xs) = (if p x then 1 else 0) + count_where p xs

  -- EXISTS (SELECT ... WHERE p)
  unfoldable pub exists_where : (A → Bool) → List A → Bool
  exists_where p [] = false
  exists_where p (x ∷ xs) = p x || exists_where p xs

  -- INSERT: rows keep their order.
  unfoldable pub append_row : List A → A → List A
  append_row xs x = xs ++ (x ∷ [])

  -- The id that SQLite gives a new row of an INTEGER PRIMARY KEY table: the largest plus one.
  unfoldable pub max_id : (A → ℕ) → List A → ℕ
  max_id id [] = 0
  max_id id (x ∷ xs) = max (id x) (max_id id xs)

  unfoldable pub next_id : (A → ℕ) → List A → ℕ
  next_id id xs = suc (max_id id xs)
