-- ===== src/Portal/Network/Addresses.antt =====
-- What `enrollDevice` of internal/portal/vpn.go gives a device.
use game_server_dashboard.Go.Numbers.{digits, digits_from, itoa, itoa_from, split, split_parts}
use game_server_dashboard.Go.Prefixes.{address_of, holds_address, octet, parse_prefix, prefix_of}
use game_server_dashboard.Go.Text.{Text, text, text_eq}
use game_server_dashboard.Portal.Db.{Db, audit}
use game_server_dashboard.Portal.Frame.{pair-injective}
use game_server_dashboard.Portal.Network.Enrolment.{
  enroll_device_tx, free_address, has_address, is_current_of, new_device, pool_address,
}
use game_server_dashboard.Portal.Rows.{UserRow, item}
use game_server_dashboard.Portal.Types.{User}
use game_server_dashboard.Portal.VpnTypes.{Device, DeviceState}
use game_server_dashboard.Prelude.{
  ==_iff, Bool, Bool-cases, List, Option-cases, ap, append_row, arith, count_where,
  count_where-append_row, exists_where, false, guard-ok, inl, inr, ltb, lt→ltb, none, not, ok, refl,
  require-ok, some, suc, sym, true, zero, ℕ, ◌&&◌, ◌+◌, ◌<◌, ◌==◌, ◌≡◌, ◌≤◌,
}
use game_server_dashboard.Vpn.Validity.{is_peer_address}

-- Over a range of numbers, every one passes the test.
all_from : ℕ → ℕ → (ℕ → Bool) → Bool
all_from i zero p = true
all_from i (suc n) p = p i && all_from (i + 1) n p

all_from-true : (i n k : ℕ) (p : ℕ → Bool) → all_from i n p ≡ true → i ≤ k → k < i + n → p k ≡ true
unfolding all_from
all_from-true i zero k p h low high = absurd (omega arith)
all_from-true i (suc n) k p h low high = elim (Bool-cases (k == i)) [
  | inl e ↦ let same : k ≡ i = (==_iff k i).0 e in rw same (ground arith)
  | inr e ↦ all_from-true (i + 1) n k p (ground arith) (ground arith) (omega arith)
]

pool_table : all_from 2 253 (λ i. is_peer_address (pool_address i)) ≡ true
unfolding all_from pool_address parse_prefix holds_address split split_parts prefix_of address_of
    octet digits digits_from itoa itoa_from text_eq text
pool_table = refl

free_address-first :
    (rounds i : ℕ) (devices : List Device) {a : Text}
    → free_address rounds i devices ≡ some a
    → (k : ℕ) × (i ≤ k)
      × (k < i + rounds)
      × (a ≡ pool_address k)
      × (exists_where (has_address a) devices ≡ false)
unfolding free_address
free_address-first zero i devices e = absurd (cc)
free_address-first (suc rounds) i devices {a} e =
    elim (Bool-cases (exists_where (has_address (pool_address i)) devices)) [
      | inl taken ↦
          let (k, low, high, same, free) =
            free_address-first rounds (i + 1) devices {a = a} (rw taken at e) in
          (k, omega arith, omega arith, same, free)
      | inr free ↦
          let same : a ≡ pool_address i =
            cc (let h : some (pool_address i) ≡ some a = rw free at e in h) in
          (i, omega arith, omega arith, same, rw same free)
    ]

-- The pool runs out only when every address of it is taken.
free_address-none :
    (rounds i k : ℕ) (devices : List Device)
    → free_address rounds i devices ≡ none
    → i ≤ k
    → k < i + rounds
    → exists_where (has_address (pool_address k)) devices ≡ true
unfolding free_address
free_address-none zero i k devices e low high = absurd (omega arith)
free_address-none (suc rounds) i k devices e low high =
    elim (Bool-cases (exists_where (has_address (pool_address i)) devices)) [
      | inr free ↦ absurd (cc (let h : some (pool_address i) ≡ none = rw free at e in h))
      | inl taken ↦ elim (Bool-cases (k == i)) [
        | inl same ↦ let h : k ≡ i = (==_iff k i).0 same in rw h taken
        | inr beyond ↦
            free_address-none rounds (i + 1) k devices (rw taken at e) (ground arith) (omega arith)
      ]
    ]

-- A device that is enrolled is the member's, with the name and the key that were asked for; no
-- device before it has that key or the address that it gets, which the policy validator takes as a
-- peer's. It has an id of its own and the state in which it must be approved; the other devices keep their rows and the member has at most ten that are current.
pub enroll_device-address :
    (now : ℕ) (u : User) (name public_key : Text) (db : Db) {id : ℕ} {db' : Db}
    → enroll_device_tx now u name public_key db ≡ ok (id, db')
    → (d : Device) × (db'.vpn_devices ≡ append_row db.vpn_devices d)
      × (d.id ≡ id)
      × (d.user_id ≡ u.id)
      × (d.name ≡ name)
      × (d.public_key ≡ public_key)
      × (d.state ≡ DeviceState.requested)
      × (is_peer_address d.address ≡ true)
      × (exists_where (has_address d.address) db.vpn_devices ≡ false)
      × (exists_where (λ (x : Device). text_eq x.public_key public_key) db.vpn_devices ≡ false)
      × (count_where (is_current_of u.id) db'.vpn_devices ≤ 10)
unfolding enroll_device_tx new_device audit
enroll_device-address now u name public_key db {id} {db'} e =
    let (_, e1) =
      guard-ok (exists_where (λ (x : UserRow). x.id == u.id && x.enabled) db.users) _ _ e in
    let (few, e2) = guard-ok (ltb (count_where (is_current_of u.id) db.vpn_devices) 10) _ _ e1 in
    let (a, found, e3) = require-ok (free_address 253 2 db.vpn_devices) _ _ e2 in
    let (fresh, e4) =
      guard-ok (not (exists_where (λ (x : Device). text_eq x.public_key public_key) db.vpn_devices))
        _ _ e3 in
    let d = new_device now u.id name public_key a db.vpn_devices in
    let rows : db'.vpn_devices ≡ append_row db.vpn_devices d =
      sym (ap (λ (p : ℕ × Db). p.1.vpn_devices) (pair-injective e4)) in
    let (k, low, high, same, free) = free_address-first 253 2 db.vpn_devices {a = a} found in
    (
      d,
      rows,
      ap (λ (p : ℕ × Db). p.0) (pair-injective e4),
      refl,
      refl,
      refl,
      refl,
      rw same (all_from-true 2 253 k (λ i. is_peer_address (pool_address i)) pool_table low high),
      free,
      ground arith,
      rw (rows, count_where-append_row (is_current_of u.id) db.vpn_devices d) (ground arith),
    )

-- An enabled member with fewer than ten current devices can enrol one whenever the key is new and
-- some address of the pool is free.
pub enroll_device_succeeds :
    (now : ℕ) (u : User) (name public_key : Text) (db : Db) (k : ℕ)
    → exists_where (λ (x : UserRow). x.id == u.id && x.enabled) db.users ≡ true
    → count_where (is_current_of u.id) db.vpn_devices < 10
    → exists_where (λ (x : Device). text_eq x.public_key public_key) db.vpn_devices ≡ false
    → 2 ≤ k
    → k < 255
    → exists_where (has_address (pool_address k)) db.vpn_devices ≡ false
    → (id : ℕ) × (db' : Db) × (enroll_device_tx now u name public_key db ≡ ok (id, db'))
unfolding enroll_device_tx
enroll_device_succeeds now u name public_key db k able few fresh low high free =
    elim (Option-cases (free_address 253 2 db.vpn_devices)) [
      | inl gone ↦ absurd (
          cc (
            let h : exists_where (has_address (pool_address k)) db.vpn_devices ≡ true =
              free_address-none 253 2 k db.vpn_devices gone low (omega arith) in
            h))
      | inr (a, found) ↦
          let d = new_device now u.id name public_key a db.vpn_devices in
          (
            d.id,
            audit now u.id "vpn.device.enroll" (item "device" d.id)
                (record db { vpn_devices = append_row db.vpn_devices d }),
            rw (able, lt→ltb _ _ few, found, fresh),
          )
    ]
