-- ===== src/Portal/Requests/Access.antt =====
-- The access record that `grant` of internal/portal/requests.go writes is one that `hasAccess` of
-- internal/portal/policy.go accepts.
use game_server_dashboard.Portal.Policy.Audiences.{grants_access}
use game_server_dashboard.Portal.Requests.Grant.{owns, upsert_access}
use game_server_dashboard.Prelude.{
  ℕ, ◌≡◌, inl, inr, Bool, true, ◌||◌, List, [], ◌∷◌, arith, Bool-cases, update_where, exists_where,
  append_row,
}
use game_server_dashboard.Go.Text.{Text}
use game_server_dashboard.Go.Time.{Stamp, upcoming, is_unset}
use game_server_dashboard.Portal.Types.{Access}

exists_where-update_where {ℓ} :
    {A : Type ℓ} (p q : A → Bool) (f : A → A) (xs : List A)
    → ((x : A) → p x ≡ true → q (f x) ≡ true)
    → exists_where p xs ≡ true
    → exists_where q (update_where p f xs) ≡ true
unfolding exists_where update_where
exists_where-update_where p q f [] keep h = absurd (cc)
exists_where-update_where p q f (x ∷ xs) keep h = elim (Bool-cases (p x)) [
  | inl e ↦ rw (e, keep x e)
  | inr e ↦ rw e (ground (arith, exists_where-update_where p q f xs keep (rw e at h)))
]

exists_where-append_row {ℓ} :
    {A : Type ℓ} (q : A → Bool) (xs : List A) (x : A)
    → q x ≡ true
    → exists_where q (append_row xs x) ≡ true
unfolding exists_where append_row
exists_where-append_row q [] x h = rw h
exists_where-append_row q (y ∷ xs) x h = ground (arith, exists_where-append_row q xs x h)

-- Whether the record is new or renewed, it is in force if its expiry lies ahead or is not set.
pub upsert_access-grants :
    (now user svc : ℕ) (name steps : Text) (expiry : Stamp) (rows : List Access)
    → (is_unset expiry || upcoming expiry now) ≡ true
    → exists_where (grants_access now user svc) (upsert_access now user svc name steps expiry rows)
      ≡ true
unfolding upsert_access grants_access
upsert_access-grants now user svc name steps expiry rows h =
    elim (Bool-cases (exists_where (owns user svc) rows)) [
      | inl e ↦ rw e (
          exists_where-update_where (owns user svc) (grants_access now user svc) _ rows
            (λ a o. ground arith) e)
      | inr e ↦ rw e (exists_where-append_row (grants_access now user svc) rows _ (ground arith))
    ]
