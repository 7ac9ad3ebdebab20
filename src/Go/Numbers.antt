-- ===== src/Go/Numbers.antt =====
-- strconv and strings: decimal texts, and Split.
use game_server_dashboard.Go.Text.{Text}
use game_server_dashboard.Prelude.{
  Bool, Bool-cases, List, Option, [], ap, arith, false, if◌then◌else◌, inl, inr, leb, ltb, none,
  some, suc, sym, true, zero, ℕ, ◌%◌, ◌&&◌, ◌*◌, ◌+◌, ◌-◌, ◌/◌, ◌<◌, ◌==◌, ◌∙◌, ◌∷◌, ◌≡◌,
}

abbrev pub is_digit : ℕ → Bool
is_digit c = leb 48 c && leb c 57

-- The value of a text of digits after those that gave `n`.
unfoldable pub digits_from : ℕ → Text → Option ℕ
digits_from n [] = some n
digits_from n (c ∷ s) =
    let rest = digits_from (n * 10 + (c - 48)) s in if is_digit c then rest else none

unfoldable pub digits : Text → Option ℕ
unfolding digits_from
digits [] = none
digits (c ∷ s) = digits_from 0 (c ∷ s)

-- strconv.Atoi, `none` for an error and for a negative number, which no caller accepts. A number
-- out of the range of an int is a number above every bound that the callers set.
unfoldable pub atoi : Text → Option ℕ
unfolding digits
atoi [] = none
atoi (c ∷ s) = if c == 43 then digits s else digits (c ∷ s)

-- The digits of `n` before those of `s`, for `n < fuel`.
unfoldable pub itoa_from : ℕ → ℕ → Text → Text
itoa_from zero n s = s
itoa_from (suc fuel) n s =
    let rest = itoa_from fuel (n / 10) ((48 + n % 10) ∷ s) in
    if ltb n 10 then (48 + n) ∷ s else rest

-- strconv.Itoa
unfoldable pub itoa : ℕ → Text
unfolding itoa_from
itoa n = itoa_from (suc n) n []

-- strings.Split by one byte: the first part, and the parts after it.
unfoldable pub split_parts : ℕ → Text → Text × List Text
split_parts sep [] = ([], [])
split_parts sep (c ∷ s) =
    let (part, parts) = split_parts sep s in
    if c == sep then ([], part ∷ parts) else (c ∷ part, parts)

unfoldable pub split : ℕ → Text → List Text
unfolding split_parts
split sep s = let (part, parts) = split_parts sep s in part ∷ parts

digits_from-itoa_from :
    (fuel n : ℕ) (s : Text) → n < fuel → digits_from 0 (itoa_from fuel n s) ≡ digits_from n s
unfolding digits_from itoa_from
digits_from-itoa_from zero n s h = absurd (omega arith)
digits_from-itoa_from (suc fuel) n s h = elim (Bool-cases (ltb n 10)) [
  | inl small ↦ rw small (
      let low : leb 48 (48 + n) ≡ true = ground arith in
      let high : leb (48 + n) 57 ≡ true = ground arith in
      let value : 0 * 10 + (48 + n - 48) ≡ n = omega arith in rw (low, high, value))
  | inr large ↦ rw large (
      let low : leb 48 (48 + n % 10) ≡ true = ground arith in
      let high : leb (48 + n % 10) 57 ≡ true = ground arith in
      let value : n / 10 * 10 + (48 + n % 10 - 48) ≡ n = omega arith in
      digits_from-itoa_from fuel (n / 10) ((48 + n % 10) ∷ s) (ground arith)
      ∙ rw (low, high, value))
]

-- The first character of a printed number is a digit.
itoa_from-digit :
    (fuel n : ℕ) (s : Text)
    → n < fuel
    → (c : ℕ) × (t : Text) × (itoa_from fuel n s ≡ c ∷ t) × (is_digit c ≡ true)
unfolding itoa_from
itoa_from-digit zero n s h = absurd (omega arith)
itoa_from-digit (suc fuel) n s h = elim (Bool-cases (ltb n 10)) [
  | inl small ↦ (48 + n, s, rw small, ground arith)
  | inr large ↦ rw large (itoa_from-digit fuel (n / 10) ((48 + n % 10) ∷ s) (ground arith))
]

-- Every number is read back from what it is printed as.
pub atoi-itoa : (n : ℕ) → atoi (itoa n) ≡ some n
unfolding atoi itoa digits
atoi-itoa n =
    let (c, t, shape, digit) = itoa_from-digit (suc n) n [] (omega arith) in
    let plain : (c == 43) ≡ false = ground arith in
    let read : digits_from 0 (c ∷ t) ≡ some n =
      ap (digits_from 0) (sym shape) ∙ digits_from-itoa_from (suc n) n [] (omega arith) in
    rw (shape, plain) read
