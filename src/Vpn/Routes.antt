-- ===== src/Vpn/Routes.antt =====
-- internal/vpn/policy.go: `Routes`, the networks of a peer in the order of their texts.
use game_server_dashboard.Go.Text.{Text, includes_text, text, text_eq, text_eq_iff}
use game_server_dashboard.Prelude.{
  Bool, Bool-cases, List, [], arith, exists_where, false, if◌then◌else◌, inl, inr, ltb, refl, true,
  ◌&&◌, ◌++◌, ◌==◌, ◌||◌, ◌∷◌, ◌≡◌,
}
use game_server_dashboard.Vpn.Policy.{Peer, Rule}

-- a < b, byte by byte.
unfoldable pub text_lt : Text → Text → Bool
text_lt [] [] = false
text_lt [] (_ ∷ _) = true
text_lt (_ ∷ _) [] = false
text_lt (a ∷ s) (b ∷ t) = ltb a b || a == b && text_lt s t

-- A set of texts, kept in order: the keys of the map, as sort.Strings leaves them.
unfoldable pub insert_text : Text → List Text → List Text
insert_text x [] = x ∷ []
insert_text x (y ∷ ys) =
    let rest = insert_text x ys in
    if text_eq x y then y ∷ ys else if text_lt x y then x ∷ y ∷ ys else y ∷ rest

unfoldable pub route_set : List Rule → List Text
unfolding insert_text
route_set [] = []
route_set (r ∷ rs) = insert_text r.cidr (route_set rs)

-- strings.Join(v, ", ")
unfoldable pub join_routes : List Text → Text
join_routes [] = []
join_routes (s ∷ []) = s
join_routes (s ∷ t ∷ ts) = s ++ (text ", " ++ join_routes (t ∷ ts))

unfoldable pub routes : Peer → Text
unfolding route_set join_routes
routes p = join_routes (route_set p.rules)

-- Each text is below the next.
abbrev pub IsAscending : List Text → Type 0
IsAscending [] = Unit
IsAscending (_ ∷ []) = Unit
IsAscending (s ∷ t ∷ ts) = (text_lt s t ≡ true) × IsAscending (t ∷ ts)

text_lt_total : (s t : Text) → text_eq s t ≡ false → text_lt s t ≡ false → text_lt t s ≡ true
unfolding text_lt text_eq
text_lt_total [] [] e l = absurd (cc)
text_lt_total [] (b ∷ t) e l = absurd (cc)
text_lt_total (a ∷ s) [] e l = refl
text_lt_total (a ∷ s) (b ∷ t) e l = ground (arith, text_lt_total s t)

-- The text that an insertion leaves in front.
insert_text-IsAscending :
    (x : Text) (ys : List Text) → IsAscending ys → IsAscending (insert_text x ys)
unfolding insert_text
insert_text-IsAscending x [] h = tt
insert_text-IsAscending x (y ∷ []) h = elim (Bool-cases (text_eq x y)) [
  | inl same ↦ rw same tt
  | inr differs ↦ elim (Bool-cases (text_lt x y)) [
    | inl less ↦ rw (differs, less) (less, tt)
    | inr more ↦ rw (differs, more) (text_lt_total x y differs more, tt)
  ]
]
insert_text-IsAscending x (y ∷ z ∷ zs) h = elim (Bool-cases (text_eq x y)) [
  | inl same ↦ rw same h
  | inr differs ↦ elim (Bool-cases (text_lt x y)) [
    | inl less ↦ rw (differs, less) (less, h)
    | inr more ↦
        rw (differs, more)
          (elim (Bool-cases (text_eq x z)) [
            | inl same_z ↦ rw same_z h
            | inr differs_z ↦ elim (Bool-cases (text_lt x z)) [
              | inl less_z ↦ rw (differs_z, less_z) (text_lt_total x y differs more, (less_z, h.1))
              | inr more_z ↦
                  let deeper : IsAscending (insert_text x (z ∷ zs)) =
                    insert_text-IsAscending x (z ∷ zs) h.1 in
                  rw (differs_z, more_z) (h.0, rw (differs_z, more_z) at deeper)
            ]
          ])
  ]
]

insert_text-includes :
    (x v : Text) (ys : List Text)
    → includes_text (insert_text x ys) v ≡ (text_eq x v || includes_text ys v)
unfolding insert_text includes_text
insert_text-includes x v [] = ground arith
insert_text-includes x v (y ∷ ys) = elim (Bool-cases (text_eq x y)) [
  | inl same ↦ let e : x ≡ y = (text_eq_iff x y).0 same in rw (same, e) (ground arith)
  | inr differs ↦ elim (Bool-cases (text_lt x y)) [
    | inl less ↦ rw (differs, less)
    | inr more ↦ rw (differs, more, insert_text-includes x v ys) (ground arith)
  ]
]

-- The routes of a peer stand in strictly ascending order, so none stands twice, and they are the
-- networks of its rules and no others.
pub route_set-IsAscending :
    (p : Peer) (v : Text)
    → IsAscending (route_set p.rules)
      × (includes_text (route_set p.rules) v
          ≡ exists_where (λ (r : Rule). text_eq r.cidr v) p.rules)
unfolding route_set exists_where includes_text
route_set-IsAscending p v = (ascending p.rules, members p.rules)
  where
    ascending : (rs : List Rule) → IsAscending (route_set rs)
    ascending [] = tt
    ascending (r ∷ rs) = insert_text-IsAscending r.cidr (route_set rs) (ascending rs)

    members :
        (rs : List Rule)
        → includes_text (route_set rs) v ≡ exists_where (λ (r : Rule). text_eq r.cidr v) rs
    members [] = refl
    members (r ∷ rs) = rw (insert_text-includes r.cidr v (route_set rs), members rs)
