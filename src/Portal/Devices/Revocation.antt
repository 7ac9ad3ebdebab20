-- ===== src/Portal/Devices/Revocation.antt =====
-- What the revocation of a device in internal/portal/vpn.go means for the network policy.
use mathlib.Core.List.{reverse, reverse-cons}
use game_server_dashboard.Vpn.Policy.{Rule, Peer}
use game_server_dashboard.Portal.Devices.{
  is_device, device_in_force, grant_in_force, device_rows, policy_rows, add_row, group_rows,
  snapshot_peers, revoke_device, revoke_checks, revoke_writes, revoke_notices,
}
use game_server_dashboard.Portal.Frame.{
  SameTables-trans, insert_notification-SameTables, audit-SameTables, write-ok, ok-injective,
}
use game_server_dashboard.Prelude.{
  ℕ, ◌+◌, ◌≡◌, refl, sym, ap, ◌∙◌, ◌⊎◌, inl, inr, true, false, List, [], ◌∷◌, ◌++◌, arith, ◌==◌,
  Bool-cases, ok, >>=-ok, All, update_where,
}
use game_server_dashboard.Go.Text.{Text}
use game_server_dashboard.Go.Time.{Stamp}
use game_server_dashboard.Portal.Types.{User}
use game_server_dashboard.Portal.VpnTypes.{DeviceState, is_revoked_device, Device, NetworkGrant}
use game_server_dashboard.Portal.Db.{Db}
use game_server_dashboard.Portal.Rows.{item}

abbrev pub IsOther : ℕ → Peer → Type 0
IsOther id p = (p.id == id) ≡ false

abbrev IsOtherRow : ℕ → Device × Rule → Type 0
IsOtherRow id x = (x.0.id == id) ≡ false

-- A device that is revoked gives no row.
abbrev IsOut : ℕ → Device → Type 0
IsOut id d = ((d.id == id) ≡ false) ⊎ (is_revoked_device d.state ≡ true)

module _ {ℓ κ} {A : Type ℓ} (holds : A → Type κ) where
  All-append : (front back : List A) → All holds front → All holds back → All holds (front ++ back)
  All-append [] back _ rest = rest
  All-append (x ∷ front) back (first, others) rest = (first, All-append front back others rest)

  All-reverse : (rows : List A) → All holds rows → All holds (reverse rows)
  All-reverse [] _ = tt
  All-reverse (x ∷ rows) (first, others) =
      rw (reverse-cons x rows)
        (All-append (reverse rows) (x ∷ []) (All-reverse rows others) (first, tt))

in_force-other :
    (db : Db) (id : ℕ) (d : Device)
    → IsOut id d
    → device_in_force db d ≡ true
    → (d.id == id) ≡ false
unfolding device_in_force
in_force-other db id d (inl h) e = h
in_force-other db id d (inr h) e = ground arith

module _ (stamp : Stamp → Text) (db : Db) (now id : ℕ) where
  device_rows_other :
      (d : Device) (gs : List NetworkGrant)
      → (d.id == id) ≡ false
      → All (IsOtherRow id) (device_rows stamp db now d gs)
  unfolding device_rows
  device_rows_other d [] h = tt
  device_rows_other d (g ∷ gs) h = elim (Bool-cases (grant_in_force db now d.id g)) [
    | inl e ↦ rw e (h, device_rows_other d gs h)
    | inr e ↦ rw e (device_rows_other d gs h)
  ]

  policy_rows_other :
      (ds : List Device) → All (IsOut id) ds → All (IsOtherRow id) (policy_rows stamp db now ds)
  unfolding policy_rows
  policy_rows_other [] h = tt
  policy_rows_other (d ∷ ds) h = elim (Bool-cases (device_in_force db d)) [
    | inl e ↦ rw e (
        All-append (IsOtherRow id) (device_rows stamp db now d db.vpn_grants) _
          (device_rows_other d db.vpn_grants (in_force-other db id d h.0 e))
          (policy_rows_other ds h.1))
    | inr e ↦ rw e (policy_rows_other ds h.1)
  ]

add_row-IsOther :
    (id : ℕ) (ps : List Peer) (x : Device × Rule)
    → All (IsOther id) ps
    → IsOtherRow id x
    → All (IsOther id) (add_row ps x)
unfolding add_row
add_row-IsOther id [] (d, r) hp hx = (hx, tt)
add_row-IsOther id (p ∷ ps) (d, r) hp hx = elim (Bool-cases (p.id == d.id)) [
  | inl e ↦ rw e hp
  | inr e ↦ rw e (hx, hp)
]

group_rows-IsOther :
    (id : ℕ) (xs : List (Device × Rule)) (ps : List Peer)
    → All (IsOther id) ps
    → All (IsOtherRow id) xs
    → All (IsOther id) (group_rows ps xs)
unfolding group_rows
group_rows-IsOther id [] ps hp hx = hp
group_rows-IsOther id (x ∷ xs) ps hp hx =
    group_rows-IsOther id xs (add_row ps x) (add_row-IsOther id ps x hp hx.0) hx.1

update_where-IsOut :
    (id : ℕ) (f : Device → Device) (ds : List Device)
    → ((d : Device) → is_revoked_device (f d).state ≡ true)
    → All (IsOut id) (update_where (is_device id) f ds)
unfolding update_where
update_where-IsOut id f [] h = tt
update_where-IsOut id f (d ∷ ds) h = elim (Bool-cases (is_device id d)) [
  | inl e ↦ rw e (inr (h d), update_where-IsOut id f ds h)
  | inr e ↦ rw e (inl e, update_where-IsOut id f ds h)
]

revoke_device-devices :
    (now : ℕ) (u : User) (id version : ℕ) (db : Db) {db' : Db}
    → revoke_device now u id version db ≡ (ok tt, db')
    → db'.vpn_devices
      ≡ update_where
          (is_device id)
          (λ x. record x { state = DeviceState.revoked; version = x.version + 1 })
          db.vpn_devices
unfolding revoke_device revoke_writes revoke_notices
revoke_device-devices now u id version db {db'} e =
    let (d, checked, done) =
      >>=-ok (revoke_checks u id version db)
        (λ d. ok (revoke_notices now u id d (revoke_writes now u id db))) (write-ok db _ e) in
    let same : revoke_notices now u id d (revoke_writes now u id db) ≡ db' = ok-injective done in
    sym (ap (λ (x : Db). x.vpn_devices) same)
    ∙ (SameTables-trans (insert_notification-SameTables now d.user_id 0 0 id _ _)
        (audit-SameTables now u.id "vpn.device.revoke" (item "device" id) _)).vpn_devices

revoke_device-IsOut :
    (now : ℕ) (u : User) (id version : ℕ) (db : Db) {db' : Db}
    → revoke_device now u id version db ≡ (ok tt, db')
    → All (IsOut id) db'.vpn_devices
revoke_device-IsOut now u id version db e =
    rw (revoke_device-devices now u id version db e)
      (update_where-IsOut id _ db.vpn_devices (λ d. refl))

-- Once the revocation of a device has succeeded, the network policy has no peer of its id, at any
-- time.
pub revoke_device_removes_peer :
    (now later : ℕ) (stamp : Stamp → Text) (u : User) (id version : ℕ) (db : Db) {db' : Db}
    → revoke_device now u id version db ≡ (ok tt, db')
    → All (IsOther id) (snapshot_peers stamp db' later)
unfolding snapshot_peers
revoke_device_removes_peer now later stamp u id version db {db'} e = All-reverse (IsOther id) _ (
    group_rows-IsOther id _ [] tt (
      policy_rows_other stamp db' later id db'.vpn_devices
        (revoke_device-IsOut now u id version db e)))
