-- ===== src/Portal/Devices/Expiry.antt =====
-- internal/portal/vpn.go: `expireVPN`, which the portal runs before it hands out a policy.
use mathlib.Core.List.{reverse}
use game_server_dashboard.Portal.Devices.{
  device_in_force, target_open, grant_in_force, device_rows, policy_rows, group_rows,
  snapshot_peers,
}
use game_server_dashboard.Portal.Frame.{
  SameTables, SameTables-refl, SameTables-trans, audit-SameTables, insert_notification-SameTables,
}
use game_server_dashboard.Prelude.{
  ℕ, ◌+◌, ◌≤◌, ◌≡◌, refl, ap, ◌∙◌, inl, inr, Bool, true, false, not, ◌&&◌, ◌||◌, none, some, List,
  [], ◌∷◌, ◌++◌, arith, ◌==◌, if◌then◌else◌, All, Bool-cases, Option-cases, find_where,
  update_where, exists_where,
}
use game_server_dashboard.Go.Text.{Text}
use game_server_dashboard.Go.Time.{Stamp, elapsed, elapsed_mono}
use game_server_dashboard.Portal.VpnTypes.{
  is_revoked_device, Device, GrantState, is_approved_grant, NetworkGrant, Delivery, VpnHistory,
}
use game_server_dashboard.Portal.Db.{Db, audit, insert_notification}
use game_server_dashboard.Portal.Rows.{UserRow, item}

-- state='Approved' AND expires<=?
unfoldable pub is_expired_grant : ℕ → NetworkGrant → Bool
is_expired_grant now g = is_approved_grant g.state && elapsed g.expires now

-- The deliveries whose key is erased.
unfoldable pub is_dead_delivery : Db → ℕ → Delivery → Bool
is_dead_delivery db now p =
    elapsed p.expires now
    || exists_where
        (λ (d : Device).
          d.id == p.device_id
          && exists_where
              (λ (u : UserRow). u.id == d.user_id && (is_revoked_device d.state || not u.enabled))
              db.users)
        db.vpn_devices

unfoldable pub expired_history : ℕ → List NetworkGrant → List VpnHistory
unfolding is_expired_grant
expired_history now [] = []
expired_history now (g ∷ gs) =
    let rest = expired_history now gs in
    if is_expired_grant now g
    then record {
      grant_id = g.id;
      actor_id = 0;
      state = GrantState.expired;
      cidr = g.cidr;
      protocol = g.protocol;
      ports = g.ports;
      expires = g.expires;
      created = now;
    }
      ∷ rest
    else rest

-- The notice to the owner of the device of each expired grant.
unfoldable pub expiry_notices : ℕ → List NetworkGrant → Db → Db
unfolding is_expired_grant
expiry_notices now [] db = db
expiry_notices now (g ∷ gs) db = expiry_notices now gs (
    if is_expired_grant now g
    then elim (find_where (λ (d : Device). d.id == g.device_id) db.vpn_devices) [
      | some d ↦
          insert_notification now d.user_id 0 0 d.id
            "Your device network permission has expired. Review My Devices." db
      | none ↦ db
    ]
    else db)

unfoldable pub expiry_audit : ℕ → List NetworkGrant → Db → Db
unfolding is_expired_grant
expiry_audit now [] db = db
expiry_audit now (g ∷ gs) db = expiry_audit now gs (
    if is_expired_grant now g
    then audit now 0 "vpn.network.expired" (item "network-request" g.id) db
    else db)

unfoldable pub expire_grants : ℕ → List NetworkGrant → List NetworkGrant
unfolding is_expired_grant
expire_grants now grants =
    update_where (is_expired_grant now)
      (λ g. record g { state = GrantState.expired; version = g.version + 1 }) grants

-- expireVPN
unfoldable pub expire_vpn : ℕ → Db → Db
expire_vpn now db =
    let db1 = record db {
      vpn_deliveries =
          update_where (is_dead_delivery db now) (λ p. record p { encrypted_key = none })
            db.vpn_deliveries;
      vpn_history = db.vpn_history ++ expired_history now db.vpn_grants;
    } in
    let db2 = expiry_audit now db.vpn_grants (expiry_notices now db.vpn_grants db1) in
    record db2 { vpn_grants = expire_grants now db2.vpn_grants }

expiry_notices-SameTables :
    (now : ℕ) (gs : List NetworkGrant) (db : Db) → SameTables db (expiry_notices now gs db)
unfolding expiry_notices
expiry_notices-SameTables now [] db = SameTables-refl db
expiry_notices-SameTables now (g ∷ gs) db = elim (Bool-cases (is_expired_grant now g)) [
  | inl e ↦ elim (Option-cases (find_where (λ (d : Device). d.id == g.device_id) db.vpn_devices)) [
    | inl n ↦ rw (e, n) (expiry_notices-SameTables now gs db)
    | inr (d, s) ↦
        rw (e, s)
          (SameTables-trans (insert_notification-SameTables now d.user_id 0 0 d.id _ db)
            (expiry_notices-SameTables now gs _))
  ]
  | inr e ↦ rw e (expiry_notices-SameTables now gs db)
]

expiry_audit-SameTables :
    (now : ℕ) (gs : List NetworkGrant) (db : Db) → SameTables db (expiry_audit now gs db)
unfolding expiry_audit
expiry_audit-SameTables now [] db = SameTables-refl db
expiry_audit-SameTables now (g ∷ gs) db = elim (Bool-cases (is_expired_grant now g)) [
  | inl e ↦
      rw e (SameTables-trans (audit-SameTables now 0 _ _ db) (expiry_audit-SameTables now gs _))
  | inr e ↦ rw e (expiry_audit-SameTables now gs db)
]

-- The tables beside the grants and devices that the policy is read from.
record SamePolicy (a b : Db) : Type 0 where
  users : b.users ≡ a.users
  services : b.services ≡ a.services
  vpn_targets : b.vpn_targets ≡ a.vpn_targets

module _ (stamp : Stamp → Text) (now later : ℕ) where
  target_open-SamePolicy :
      {a b : Db} → SamePolicy a b → (id : ℕ) → target_open b id ≡ target_open a id
  unfolding target_open
  target_open-SamePolicy same id = rw (same.vpn_targets, same.services)

  grant_in_force-SamePolicy :
      {a b : Db}
      → SamePolicy a b
      → (d : ℕ) (g : NetworkGrant) → grant_in_force b later d g ≡ grant_in_force a later d g
  unfolding grant_in_force
  grant_in_force-SamePolicy same d g = rw (target_open-SamePolicy same g.target_id)

  -- A grant that has expired is in force neither before the update nor after it.
  grant_in_force-expired :
      (a : Db) (d : ℕ) (g : NetworkGrant)
      → now ≤ later
      → is_expired_grant now g ≡ true
      → (grant_in_force a later d g ≡ false)
        × (grant_in_force a later d
              (record g { state = GrantState.expired; version = g.version + 1 })
            ≡ false)
  unfolding grant_in_force is_expired_grant
  grant_in_force-expired a d g after e = ground (arith, elapsed_mono g.expires now later after)

  device_rows-expire :
      {a b : Db}
      → now ≤ later
      → SamePolicy a b
      → (d : Device) (gs : List NetworkGrant)
      → device_rows stamp b later d (expire_grants now gs) ≡ device_rows stamp a later d gs
  unfolding device_rows expire_grants update_where
  device_rows-expire after same d [] = refl
  device_rows-expire {a} {b} after same d (g ∷ gs) = elim (Bool-cases (is_expired_grant now g)) [
    | inl e ↦
        let (old, _) = grant_in_force-expired a d.id g after e in
        let (_, new) = grant_in_force-expired b d.id g after e in
        rw (e, old, new) (device_rows-expire after same d gs)
    | inr e ↦ rw (e, grant_in_force-SamePolicy same d.id g, device_rows-expire after same d gs)
  ]

  device_in_force-SamePolicy :
      {a b : Db} → SamePolicy a b → (d : Device) → device_in_force b d ≡ device_in_force a d
  unfolding device_in_force
  device_in_force-SamePolicy same d = rw same.users

  policy_rows-expire :
      {a b : Db}
      → now ≤ later
      → SamePolicy a b
      → b.vpn_grants ≡ expire_grants now a.vpn_grants
      → (ds : List Device) → policy_rows stamp b later ds ≡ policy_rows stamp a later ds
  unfolding policy_rows
  policy_rows-expire after same moved [] = refl
  policy_rows-expire {a} {b} after same moved (d ∷ ds) =
      let rows : device_rows stamp b later d b.vpn_grants
          ≡ device_rows stamp a later d a.vpn_grants =
        ap (device_rows stamp b later d) moved ∙ device_rows-expire after same d a.vpn_grants in
      rw (device_in_force-SamePolicy same d, rows, policy_rows-expire after same moved ds)

expire_grants-All :
    (now : ℕ) (gs : List NetworkGrant)
    → All (λ (g : NetworkGrant). is_expired_grant now g ≡ false) (expire_grants now gs)
unfolding expire_grants is_expired_grant update_where
expire_grants-All now [] = tt
expire_grants-All now (g ∷ gs) = elim (Bool-cases (is_expired_grant now g)) [
  | inl e ↦ rw e (refl, expire_grants-All now gs)
  | inr e ↦ rw e (e, expire_grants-All now gs)
]

-- After `expireVPN` no approved grant is past its expiry, and the network policy is at that time
-- and at any later time what it would have been without it: only the records change.
pub expire_vpn-policy :
    (stamp : Stamp → Text) (now later : ℕ) (db : Db)
    → now ≤ later
    → All (λ (g : NetworkGrant). is_expired_grant now g ≡ false) (expire_vpn now db).vpn_grants
      × (snapshot_peers stamp (expire_vpn now db) later ≡ snapshot_peers stamp db later)
unfolding expire_vpn snapshot_peers
expire_vpn-policy stamp now later db after =
    let db1 : Db = record db {
      vpn_deliveries =
          update_where (is_dead_delivery db now) (λ p. record p { encrypted_key = none })
            db.vpn_deliveries;
      vpn_history = db.vpn_history ++ expired_history now db.vpn_grants;
    } in
    let db2 : Db = expiry_audit now db.vpn_grants (expiry_notices now db.vpn_grants db1) in
    let db3 : Db = record db2 { vpn_grants = expire_grants now db2.vpn_grants } in
    let same : SameTables db1 db2 =
      SameTables-trans (expiry_notices-SameTables now db.vpn_grants db1)
        (expiry_audit-SameTables now db.vpn_grants _) in
    (
      expire_grants-All now _,
      ap (λ rows. reverse (group_rows [] rows))
          (ap (policy_rows stamp db3 later) same.vpn_devices
            ∙ policy_rows-expire stamp now later {a = db} {b = db3} after
                (record {
                  users = same.users;
                  services = same.services;
                  vpn_targets = same.vpn_targets;
                })
                (ap (expire_grants now) same.vpn_grants) db.vpn_devices),
    )
