-- ===== src/Prelude/Rows.antt =====
-- Laws of the table statements.
use mathlib.Core.List.{List, [], ◌∷◌}
use mathlib.Core.Path.{◌≡◌, refl}
use mathlib.Core.Logic.{inl, inr}
use mathlib.Core.Bool.{Bool, true, false}
use mathlib.Core.Option.{none, some}
use Prim.Native.Nat.{ℕ, ◌+◌, ◌<◌, ◌≤◌}
use native.Mathlib.Omega.{arith}
use game_server_dashboard.Prelude.Tests.{if◌then◌else◌, Bool-cases}
use game_server_dashboard.Prelude.Tables.{
  All, select, delete_where, find_where, update_where, count_where, append_row, max_id, next_id,
}

module _ {ℓ κ} {A : Type ℓ} (P : A → Type κ) where
  pub All-append_row : (xs : List A) (x : A) → All P xs → P x → All P (append_row xs x)
  unfolding append_row
  All-append_row [] x h hx = (hx, tt)
  All-append_row (y ∷ xs) x h hx = (h.0, All-append_row xs x h.1 hx)

  pub All-select : (p : A → Bool) (xs : List A) → All P xs → All P (select p xs)
  unfolding select
  All-select p [] h = tt
  All-select p (x ∷ xs) h = elim (Bool-cases (p x)) [
    | inl e ↦ rw e (h.0, All-select p xs h.1)
    | inr e ↦ rw e (All-select p xs h.1)
  ]

  pub find_where-All :
      (p : A → Bool) (xs : List A) {x : A} → All P xs → find_where p xs ≡ some x → P x
  unfolding find_where
  find_where-All p [] h e = absurd (cc)
  find_where-All p (y ∷ xs) {x} h e = elim (Bool-cases (p y)) [
    | inl t ↦ let q : some y ≡ some x = rw t at e in let r : y ≡ x = cc in rw (← r) h.0
    | inr t ↦ find_where-All p xs h.1 (rw t at e)
  ]

module _ {ℓ κ μ} {A : Type ℓ} (P : A → Type κ) (Q : A → Type μ) where
  pub All-update_where :
      (p : A → Bool) (f : A → A) (xs : List A)
      → ((x : A) → P x → p x ≡ true → Q (f x))
      → ((x : A) → P x → p x ≡ false → Q x)
      → All P xs
      → All Q (update_where p f xs)
  unfolding update_where
  All-update_where p f [] hit miss h = tt
  All-update_where p f (x ∷ xs) hit miss h = elim (Bool-cases (p x)) [
    | inl e ↦ rw e (hit x h.0 e, All-update_where p f xs hit miss h.1)
    | inr e ↦ rw e (miss x h.0 e, All-update_where p f xs hit miss h.1)
  ]

  pub All-map : (xs : List A) → ((x : A) → P x → Q x) → All P xs → All Q xs
  All-map [] f h = tt
  All-map (x ∷ xs) f h = (f x h.0, All-map xs f h.1)

module _ {ℓ} {A : Type ℓ} where
  pub find_where-true : (p : A → Bool) (xs : List A) {x : A} → find_where p xs ≡ some x → p x ≡ true
  unfolding find_where
  find_where-true p [] e = absurd (cc)
  find_where-true p (y ∷ xs) {x} e = ground (arith, find_where-true p xs {x = x})

  -- An update that keeps the test finds the updated row.
  pub find_where-update_where :
      (p : A → Bool) (f : A → A) (xs : List A) {x : A}
      → ((y : A) → p y ≡ true → p (f y) ≡ true)
      → find_where p xs ≡ some x
      → find_where p (update_where p f xs) ≡ some (f x)
  unfolding find_where update_where
  find_where-update_where p f [] keep e = absurd (cc)
  find_where-update_where p f (y ∷ xs) {x} keep e = elim (Bool-cases (p y)) [
    | inl t ↦ rw t (ground (arith, keep y t))
    | inr t ↦ rw (t, t) (find_where-update_where p f xs keep (rw t at e))
  ]

  -- An update of rows that neither before nor after pass the test is not seen by it.
  pub find_where-update_where_other :
      (p q : A → Bool) (f : A → A) (xs : List A)
      → ((y : A) → q y ≡ true → p y ≡ false)
      → ((y : A) → q y ≡ true → p (f y) ≡ false)
      → find_where p (update_where q f xs) ≡ find_where p xs
  unfolding find_where update_where
  find_where-update_where_other p q f [] b a = refl
  find_where-update_where_other p q f (y ∷ xs) b a = elim (Bool-cases (q y)) [
    | inl t ↦ rw (t, b y t, a y t) (find_where-update_where_other p q f xs b a)
    | inr t ↦ rw (t, find_where-update_where_other p q f xs b a)
  ]

  pub count_where-update_where_none :
      (p q : A → Bool) (f : A → A) (xs : List A)
      → ((y : A) → q y ≡ true → p (f y) ≡ false)
      → ((y : A) → q y ≡ false → p y ≡ false)
      → count_where p (update_where q f xs) ≡ 0
  unfolding count_where update_where
  count_where-update_where_none p q f [] hit miss = refl
  count_where-update_where_none p q f (y ∷ xs) hit miss = elim (Bool-cases (q y)) [
    | inl t ↦ rw (t, hit y t) (omega (arith, count_where-update_where_none p q f xs hit miss))
    | inr t ↦ rw (t, miss y t) (omega (arith, count_where-update_where_none p q f xs hit miss))
  ]

  pub count_where-append_row :
      (p : A → Bool) (xs : List A) (x : A)
      → count_where p (append_row xs x) ≡ count_where p xs + (if p x then 1 else 0)
  unfolding count_where append_row
  count_where-append_row p [] x = ground arith
  count_where-append_row p (y ∷ xs) x = omega (arith, count_where-append_row p xs x)

  -- A new id is above every id of the table.
  pub Below-max_id : (id : A → ℕ) (xs : List A) → All (λ x. id x < next_id id xs) xs
  unfolding max_id next_id
  Below-max_id id [] = tt
  Below-max_id id (x ∷ xs) = (omega arith, All-map _ _ xs (λ y h. omega arith) (Below-max_id id xs))

  pub find_where-append_row_new :
      (p : A → Bool) (xs : List A) (x : A)
      → All (λ y. p y ≡ false) xs
      → p x ≡ true
      → find_where p (append_row xs x) ≡ some x
  unfolding find_where append_row
  find_where-append_row_new p [] x h t = rw t
  find_where-append_row_new p (y ∷ xs) x h t = rw (h.0) (find_where-append_row_new p xs x h.1 t)

  -- No row passes a test that every row fails.
  pub find_where-All-false :
      (p : A → Bool) (xs : List A) → All (λ x. p x ≡ false) xs → find_where p xs ≡ none
  unfolding find_where
  find_where-All-false p [] h = refl
  find_where-All-false p (y ∷ xs) h = rw (h.0) (find_where-All-false p xs h.1)

  -- An update that takes every row that passes out of the test leaves none.
  pub All-false-update_where :
      (p q : A → Bool) (f : A → A) (xs : List A)
      → ((y : A) → q y ≡ true → p (f y) ≡ false)
      → ((y : A) → q y ≡ false → p y ≡ false)
      → All (λ x. p x ≡ false) (update_where q f xs)
  unfolding update_where
  All-false-update_where p q f [] hit miss = tt
  All-false-update_where p q f (y ∷ xs) hit miss = elim (Bool-cases (q y)) [
    | inl e ↦ rw e (hit y e, All-false-update_where p q f xs hit miss)
    | inr e ↦ rw e (miss y e, All-false-update_where p q f xs hit miss)
  ]

  -- An update that the test does not see keeps the count.
  pub count_where-update_where_same :
      (p q : A → Bool) (f : A → A) (xs : List A)
      → ((y : A) → q y ≡ true → p (f y) ≡ p y)
      → count_where p (update_where q f xs) ≡ count_where p xs
  unfolding count_where update_where
  count_where-update_where_same p q f [] same = refl
  count_where-update_where_same p q f (y ∷ xs) same = elim (Bool-cases (q y)) [
    | inl e ↦ rw (e, same y e, count_where-update_where_same p q f xs same)
    | inr e ↦ rw (e, count_where-update_where_same p q f xs same)
  ]

  pub count_where-All-false :
      (p : A → Bool) (xs : List A) → All (λ x. p x ≡ false) xs → count_where p xs ≡ 0
  unfolding count_where
  count_where-All-false p [] h = refl
  count_where-All-false p (y ∷ xs) h = rw (h.0) (omega (arith, count_where-All-false p xs h.1))

-- What has been deleted is not found, by any narrower test.
pub find_where-delete_where :
    {A : Type 0} (p q : A → Bool) (xs : List A)
    → ((x : A) → q x ≡ true → p x ≡ true)
    → find_where q (delete_where p xs) ≡ none
unfolding delete_where find_where
find_where-delete_where p q [] h = refl
find_where-delete_where p q (x ∷ xs) h = elim (Bool-cases (p x)) [
  | inl e ↦ rw e (find_where-delete_where p q xs h)
  | inr e ↦ elim (Bool-cases (q x)) [
    | inl f ↦ absurd (cc (h x f))
    | inr f ↦ rw (e, f) (find_where-delete_where p q xs h)
  ]
]

pub delete_where-All :
    {A : Type 0} (p : A → Bool) (xs : List A) → All (λ x. p x ≡ false) (delete_where p xs)
unfolding delete_where
delete_where-All p [] = tt
delete_where-All p (x ∷ xs) = elim (Bool-cases (p x)) [
  | inl e ↦ rw e (delete_where-All p xs)
  | inr e ↦ rw e (e, delete_where-All p xs)
]

-- A deletion takes away at most the rows that it is about.
pub count_where-delete_where :
    {A : Type 0} (p q : A → Bool) (xs : List A)
    → count_where q xs ≤ count_where q (delete_where p xs) + count_where p xs
unfolding delete_where count_where
count_where-delete_where p q [] = omega arith
count_where-delete_where p q (x ∷ xs) =
    let rest = count_where-delete_where p q xs in
    elim (Bool-cases (p x)) [
      | inl e ↦ elim (Bool-cases (q x)) [
        | inl f ↦ rw (e, f) (omega (arith, rest))
        | inr f ↦ rw (e, f) (omega (arith, rest))
      ]
      | inr e ↦ elim (Bool-cases (q x)) [
        | inl f ↦ rw (e, f) (omega (arith, rest))
        | inr f ↦ rw (e, f) (omega (arith, rest))
      ]
    ]

pub update_where-All :
    {A : Type 0} (P : A → Type 0) (q : A → Bool) (f : A → A) (xs : List A)
    → ((x : A) → q x ≡ true → P (f x))
    → ((x : A) → q x ≡ false → P x)
    → All P (update_where q f xs)
unfolding update_where
update_where-All P q f [] hit miss = tt
update_where-All P q f (x ∷ xs) hit miss = elim (Bool-cases (q x)) [
  | inl e ↦ rw e (hit x e, update_where-All P q f xs hit miss)
  | inr e ↦ rw e (miss x e, update_where-All P q f xs hit miss)
]
