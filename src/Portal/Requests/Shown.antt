-- ===== src/Portal/Requests/Shown.antt =====
-- What the lists of internal/portal/requests.go show of access records.
-- A record of the viewer's own, with next steps only while it is active and in force and the
-- viewer passes the details audience of the service.
use game_server_dashboard.Go.Text.{Text}
use game_server_dashboard.Go.Time.{elapsed, is_unset, upcoming}
use game_server_dashboard.Portal.Db.{Db}
use game_server_dashboard.Portal.Policy.Links.{Url}
use game_server_dashboard.Portal.Requests.Inbox.{
  AccessView, access_views, accesses, service_of, shown_access, view_details, view_of, with_steps,
}
use game_server_dashboard.Portal.Rows.{UserRow}
use game_server_dashboard.Portal.Types.{
  Access, AccessState, Service, ServiceRow, User, is_active, is_admin,
}
use game_server_dashboard.Prelude.{
  All, Bool-cases, List, Option, [], and-true, arith, exists_where, false, inl, inr, not, refl,
  true, ℕ, ◌&&◌, ◌==◌, ◌||◌, ◌∷◌, ◌≡◌, ◌⊎◌,
}
use mathlib.Core.List.{reverse}

abbrev pub IsOwnAccess : ℕ → User → AccessView → Type 0
IsOwnAccess now u v =
    ((v.access.user_id == u.id) ≡ true)
    × ((v.access.next_steps ≡ [])
        ⊎ ((is_active v.access.state ≡ true)
            × (view_details v.service ≡ true)
            × ((is_unset v.access.expires ≡ true) ⊎ (upcoming v.access.expires now ≡ true))))

shown_access_user : (now : ℕ) (a : Access) → (shown_access now a).user_id ≡ a.user_id
unfolding shown_access
shown_access_user now a =
    elim (Bool-cases (is_active a.state && not (is_unset a.expires) && elapsed a.expires now)) [
      | inl over ↦ rw over refl
      | inr runs ↦ rw runs refl
    ]

shown_access_live :
    (now : ℕ) (a : Access)
    → is_active (shown_access now a).state ≡ true
    → (is_unset (shown_access now a).expires ≡ true)
      ⊎ (upcoming (shown_access now a).expires now ≡ true)
unfolding shown_access
shown_access_live now a live =
    elim (Bool-cases (is_active a.state && not (is_unset a.expires) && elapsed a.expires now)) [
      | inl over ↦ absurd (cc (let h : is_active AccessState.expired ≡ true = rw over at live in h))
      | inr runs ↦
          let active_row : is_active a.state ≡ true = rw runs at live in
          rw runs (elim (Bool-cases (is_unset a.expires)) [
            | inl open_ended ↦ inl open_ended
            | inr dated ↦ inr (ground arith)
          ])
    ]

with_steps-IsOwnAccess :
    (now : ℕ) (u : User) (a : Access) (s : Option Service)
    → (a.user_id == u.id) ≡ true
    → (is_active a.state ≡ true → (is_unset a.expires ≡ true) ⊎ (upcoming a.expires now ≡ true))
    → IsOwnAccess now u (with_steps (record { access = a; service = s }))
unfolding with_steps
with_steps-IsOwnAccess now u a s own live =
    elim (Bool-cases (is_active a.state && view_details s)) [
      | inl both ↦
          let (running, seen) = and-true (is_active a.state) (view_details s) both in
          rw (IsOwnAccess, both) (own, inr (running, seen, live running))
      | inr hidden ↦ rw (IsOwnAccess, hidden) (own, inl refl)
    ]

module _ (parse_url : Text → Option Url) (markdown : Text → Text) (db : Db) (now : ℕ) (u : User)
    (plain : is_admin u.role ≡ false) where
  access_views-All :
      (rows : List Access) → All (IsOwnAccess now u) (access_views parse_url markdown db now u rows)
  unfolding access_views view_of
  access_views-All [] = tt
  access_views-All (a ∷ rows) =
      elim (Bool-cases (
        (is_admin u.role || a.user_id == u.id)
        && exists_where (λ (x : UserRow). x.id == a.user_id) db.users
        && exists_where (λ (v : ServiceRow). v.id == a.service_id) db.services)) [
          | inr hidden ↦ rw hidden (access_views-All rows)
          | inl shown ↦
              let own : (a.user_id == u.id) ≡ true = ground arith in
              rw shown (
                with_steps-IsOwnAccess now u (shown_access now a)
                    (service_of parse_url markdown db now u a.service_id)
                    (rw (shown_access_user now a) own) (shown_access_live now a),
                access_views-All rows,
              )
        ]

  -- A member is shown the member's own access records only, and the next steps of a record only
  -- while it is active and has not run out, where the details of its service are shown too.
  pub accesses-All : All (IsOwnAccess now u) (accesses parse_url markdown db now u)
  unfolding accesses
  accesses-All = access_views-All (reverse db.access_records)
