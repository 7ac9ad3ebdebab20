-- ===== src/Go/Text.antt =====
-- Go strings as their bytes, with the functions of the `strings` package that the portal calls.
use Prim.Native.Char.{code}
use Prim.Native.String.{String}
use game_server_dashboard.Prelude.{
  Bool, List, [], arith, false, if◌then◌else◌, leb, refl, true, ℕ, ◌&&◌, ◌++◌, ◌+◌, ◌==◌, ◌||◌, ◌↔◌,
  ◌∷◌, ◌≡◌,
}
use mathlib.Core.List.{reverse}

abbrev pub Text : Type 0
Text = List ℕ

-- A literal of the source, as bytes (all literals used here are ASCII).
unfoldable pub text : String → Text
text String.[] = []
text (String.◌∷◌ c s) = code c ∷ text s

unfoldable pub text_eq : Text → Text → Bool
text_eq [] [] = true
text_eq [] (_ ∷ _) = false
text_eq (_ ∷ _) [] = false
text_eq (a ∷ s) (b ∷ t) = a == b && text_eq s t

pub text_eq_iff : (s t : Text) → (text_eq s t ≡ true) ↔ (s ≡ t)
unfolding text_eq
text_eq_iff [] [] = ((λ _. refl), (λ _. refl))
text_eq_iff [] (b ∷ t) = ground arith
text_eq_iff (a ∷ s) [] = ground arith
text_eq_iff (a ∷ s) (b ∷ t) = ground (arith, text_eq_iff s t)

-- COLLATE NOCASE of SQLite: the letters of ASCII without their case.
unfoldable pub fold_case : ℕ → ℕ
fold_case c = if leb 65 c && leb c 90 then c + 32 else c

unfoldable pub text_fold_eq : Text → Text → Bool
unfolding fold_case
text_fold_eq [] [] = true
text_fold_eq [] (_ ∷ _) = false
text_fold_eq (_ ∷ _) [] = false
text_fold_eq (a ∷ s) (b ∷ t) = fold_case a == fold_case b && text_fold_eq s t

-- unicode.IsSpace of a one byte character.
is_space : ℕ → Bool
is_space c = leb 9 c && leb c 13 || c == 32

-- U+0085 and U+00A0.
is_space2 : ℕ → ℕ → Bool
is_space2 a b = a == 0xc2 && (b == 0x85 || b == 0xa0)

-- U+1680, U+2000 to U+200A, U+2028, U+2029, U+202F, U+205F and U+3000.
is_space3 : ℕ → ℕ → ℕ → Bool
is_space3 a b c =
    a == 0xe1 && b == 0x9a && c == 0x80
    || a == 0xe2
      && (b == 0x80 && (leb 0x80 c && leb c 0x8a || c == 0xa8 || c == 0xa9 || c == 0xaf)
          || b == 0x81 && c == 0x9f)
    || a == 0xe3 && b == 0x80 && c == 0x80

-- One pass over the bytes; `w2` and `w3` test characters of two and three bytes, in reading order.
strip : (ℕ → ℕ → Bool) → (ℕ → ℕ → ℕ → Bool) → Text → Text
strip w2 w3 [] = []
strip w2 w3 (a ∷ []) = if is_space a then [] else a ∷ []
strip w2 w3 (a ∷ b ∷ []) =
    let rest = strip w2 w3 (b ∷ []) in
    if is_space a then rest else if w2 a b then [] else a ∷ b ∷ []
strip w2 w3 (a ∷ b ∷ c ∷ s) =
    let rest1 = strip w2 w3 (b ∷ c ∷ s) in
    let rest2 = strip w2 w3 (c ∷ s) in
    let rest3 = strip w2 w3 s in
    if is_space a
    then rest1
    else if w2 a b
    then rest2
    else if w3 a b c
    then rest3
    else a ∷ b ∷ c ∷ s

-- strings.TrimSpace
unfoldable pub trim_space : Text → Text
unfolding is_space is_space2 is_space3 strip
trim_space s = reverse (
    strip (λ b a. is_space2 a b) (λ c b a. is_space3 a b c) (reverse (strip is_space2 is_space3 s)))

unfoldable pub is_blank : Text → Bool
is_blank [] = true
is_blank (_ ∷ _) = false

-- The library's slice test `includes`.
unfoldable pub includes_text : List Text → Text → Bool
includes_text [] v = false
includes_text (s ∷ ss) v = text_eq s v || includes_text ss v

trim_example : trim_space (text " \thello there \n") ≡ text "hello there"
unfolding trim_space text
trim_example = refl

trim_nbsp : trim_space (0xc2 ∷ 0xa0 ∷ b'x' ∷ 0xe2 ∷ 0x80 ∷ 0x83 ∷ []) ≡ b'x' ∷ []
unfolding trim_space
trim_nbsp = refl

-- The fragments of a text that is written piece by piece.
unfoldable pub written : List Text → Text
written [] = []
written (s ∷ fragments) = s ++ written fragments
