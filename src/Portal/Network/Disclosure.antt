-- ===== src/Portal/Network/Disclosure.antt =====
-- What internal/portal/vpn.go shows to whom.
use game_server_dashboard.Go.Text.{Text, text, text_eq}
use game_server_dashboard.Go.Time.{Stamp, upcoming}
use game_server_dashboard.Portal.Db.{Db}
use game_server_dashboard.Portal.Devices.{snapshot_peers}
use game_server_dashboard.Portal.Network.Control.{
  Endpoint, Reply, control, get_policy, give_policy, post_applied, record_applied, take_ack,
  unknown_path, vpn_snapshot,
}
use game_server_dashboard.Portal.Network.Views.{
  DeviceView, may_see_route, redacted, shown_grant, view_devices, view_grants, vpn_devices_for,
}
use game_server_dashboard.Portal.Policy.Audiences.{discover, find_service}
use game_server_dashboard.Portal.Types.{ServiceRow, User, is_admin}
use game_server_dashboard.Portal.VpnTypes.{
  Device, DeviceState, GrantState, NetworkGrant, NetworkTarget, is_approved_device,
  is_approved_grant,
}
use game_server_dashboard.Prelude.{
  All, Bool, Bool-cases, List, Option, Option-cases, [], ap, arith, false, find_where, inl, inr,
  none, refl, some, true, ℕ, ◌++◌, ◌==◌, ◌∙◌, ◌∷◌, ◌≡◌, ◌⊎◌,
}
use game_server_dashboard.Vpn.Destination.{key}
use game_server_dashboard.Vpn.Gateway.Tick.{offered}
use game_server_dashboard.Vpn.Policy.{Ack, Peer, Snapshot}
use game_server_dashboard.Vpn.Validity.{validate}
use mathlib.Core.List.{reverse}

-- The destination of a grant is enabled and belongs to a service that the viewer discovers.
abbrev pub IsReachable : Db → ℕ → User → NetworkGrant → Type 0
IsReachable db now u g =
    (t : NetworkTarget) × (v : ServiceRow) × (find_where
        (λ (x : NetworkTarget). x.id == g.target_id) db.vpn_targets
      ≡ some t)
    × (t.enabled ≡ true)
    × (find_service t.service_id db ≡ some v)
    × (discover db now (some u) (some v) ≡ true)

-- A grant whose route is blank, or that is in force on an approved device, to a destination that the
-- viewer may reach.
abbrev pub IsCovered : Db → ℕ → User → Device → NetworkGrant → Type 0
IsCovered db now u d g =
    ((g.cidr ≡ []) × (g.protocol ≡ []) × (g.ports ≡ []))
    ⊎ ((g.state ≡ GrantState.approved)
        × (upcoming g.expires now ≡ true)
        × (d.state ≡ DeviceState.approved)
        × IsReachable db now u g)

approved_grant : (s : GrantState) → is_approved_grant s ≡ true → s ≡ GrantState.approved
approved_grant GrantState.pending h = absurd (cc)
approved_grant GrantState.approved h = refl
approved_grant GrantState.denied h = absurd (cc)
approved_grant GrantState.revoked h = absurd (cc)
approved_grant GrantState.expired h = absurd (cc)

approved_device : (s : DeviceState) → is_approved_device s ≡ true → s ≡ DeviceState.approved
approved_device DeviceState.requested h = absurd (cc)
approved_device DeviceState.approved h = refl
approved_device DeviceState.revoked h = absurd (cc)

abbrev pub IsOwnView : Db → ℕ → User → DeviceView → Type 0
IsOwnView db now u v =
    ((v.device.user_id == u.id) ≡ true) × All (IsCovered db now u v.device) v.grants

may_see_route-IsReachable :
    (db : Db) (now : ℕ) (u : User) (d : Device) (g : NetworkGrant)
    → may_see_route db now u d g ≡ true
    → (g.state ≡ GrantState.approved) × (d.state ≡ DeviceState.approved) × IsReachable db now u g
unfolding may_see_route discover
may_see_route-IsReachable db now u d g seen =
    elim (Option-cases (find_where (λ (x : NetworkTarget). x.id == g.target_id) db.vpn_targets)) [
      | inl no_target ↦ absurd (ground arith)
      | inr (t, found) ↦ elim (Option-cases (find_service t.service_id db)) [
        | inl no_service ↦ absurd (ground arith)
        | inr (v, offered) ↦ (
          approved_grant g.state (ground arith),
          approved_device d.state (ground arith),
          (t, v, found, ground arith, offered, ground arith),
        )
      ]
    ]

module _ (db : Db) (now : ℕ) (u : User) (plain : is_admin u.role ≡ false) where
  redacted-IsCovered :
      (d : Device) (g : NetworkGrant)
      → IsCovered db now u d (redacted db now u d (shown_grant now g))
  unfolding redacted shown_grant may_see_route
  redacted-IsCovered d g = elim (Bool-cases (may_see_route db now u d (shown_grant now g))) [
    | inl seen ↦
        let (granted, ready, reach) =
          may_see_route-IsReachable db now u d (shown_grant now g) seen in
        rw (plain, seen) (inr (granted, upcoming_of_seen seen, ready, reach))
    | inr hidden ↦ rw (plain, hidden) (inl (refl, refl, refl))
  ]
    where
      upcoming_of_seen :
          may_see_route db now u d (shown_grant now g) ≡ true
          → upcoming (shown_grant now g).expires now ≡ true
      upcoming_of_seen seen = ground arith

  view_grants-All :
      (d : Device) (gs : List NetworkGrant) → All (IsCovered db now u d) (view_grants db now u d gs)
  unfolding view_grants
  view_grants-All d [] = tt
  view_grants-All d (g ∷ gs) = elim (Bool-cases (g.device_id == d.id)) [
    | inl e ↦ rw e (redacted-IsCovered d g, view_grants-All d gs)
    | inr e ↦ rw e (view_grants-All d gs)
  ]

  view_devices-All : (ds : List Device) → All (IsOwnView db now u) (view_devices db now u ds)
  unfolding view_devices
  view_devices-All [] = tt
  view_devices-All (d ∷ ds) = elim (Bool-cases (d.user_id == u.id)) [
    | inl e ↦ rw (plain, e) ((e, view_grants-All d (reverse db.vpn_grants)), view_devices-All ds)
    | inr e ↦ rw (plain, e) (view_devices-All ds)
  ]

  -- A member is shown the member's own devices only, and of a network permission the route only
  -- while it is approved and unexpired, the device is approved, the destination is enabled and the
  -- member discovers its service.
  pub vpn_devices_for-All : All (IsOwnView db now u) (vpn_devices_for db now u)
  unfolding vpn_devices_for
  vpn_devices_for-All = view_devices-All (reverse db.vpn_devices)

module _ (parse_time : Text → Option ℕ) (stamp : Stamp → Text) (hash_of : List Peer → Text) where
  vpn_snapshot-validate :
      (db : Db) (now : ℕ) {s : Snapshot}
      → vpn_snapshot parse_time stamp hash_of db now ≡ some s
      → (validate parse_time hash_of s ≡ true) × (s.peers ≡ snapshot_peers stamp db now)
  unfolding vpn_snapshot
  vpn_snapshot-validate db now {s} e = ground arith

  -- A policy is given out only where the gateway is enabled, to a request with the token, and it is
  -- the policy of the database at that time and valid; the database stays as it is.
  pub control_policy :
      (enabled : Bool) (token authorization : Text) (e : Endpoint) (ack : Option Ack) (now : ℕ)
      (db : Db) {s : Snapshot}
      → (control parse_time stamp hash_of enabled token authorization e ack now db).0.body ≡ some s
      → (enabled ≡ true)
        × (text_eq authorization (text "Bearer " ++ token) ≡ true)
        × (validate parse_time hash_of s ≡ true)
        × (s.peers ≡ snapshot_peers stamp db now)
        × ((control parse_time stamp hash_of enabled token authorization e ack now db).1 ≡ db)
  unfolding control give_policy take_ack
  control_policy enabled token authorization get_policy ack now db {s} h =
      ground (arith, vpn_snapshot-validate db now {s = s})
  control_policy enabled token authorization post_applied none now db {s} h = ground arith
  control_policy enabled token authorization post_applied (some a) now db {s} h = ground arith
  control_policy enabled token authorization unknown_path ack now db {s} h = ground arith

  -- An acknowledgment with a valid key, of the revision that the policy has at that time; the
  -- answer is 204 and the database that of `record_applied`.
  abbrev pub IsRecorded : Option Ack → ℕ → Db → Reply × Db → Type 0
  IsRecorded ack now db out =
      (a : Ack) × (s : Snapshot) × (ack ≡ some a)
      × (key a.public_key ≡ true)
      × (vpn_snapshot parse_time stamp hash_of db now ≡ some s)
      × (text_eq s.revision a.revision ≡ true)
      × (out.0.status ≡ 204)
      × (out.1 ≡ record_applied now a db)

  take_ack-IsRecorded :
      (ack : Option Ack) (now : ℕ) (db : Db)
      → IsRecorded ack now db (take_ack parse_time stamp hash_of now ack db)
        ⊎ ((take_ack parse_time stamp hash_of now ack db).1 ≡ db)
  unfolding take_ack
  take_ack-IsRecorded none now db = inr refl
  take_ack-IsRecorded (some a) now db = elim (Bool-cases (key a.public_key)) [
    | inr bad ↦ rw bad (inr refl)
    | inl good ↦ elim (Option-cases (vpn_snapshot parse_time stamp hash_of db now)) [
      | inl refused_now ↦ inr (ground arith)
      | inr (s, found) ↦ elim (Bool-cases (text_eq s.revision a.revision)) [
        | inr changed ↦ inr (ground arith)
        | inl current ↦ inl (a, s, refl, good, found, current, ground arith, ground arith)
      ]
    ]
  ]

  -- The control handler changes the database only for an acknowledgment with the token, with a
  -- valid key and of the revision that the policy has at that time.
  pub control_records :
      (enabled : Bool) (token authorization : Text) (e : Endpoint) (ack : Option Ack) (now : ℕ)
      (db : Db)
      → let out = control parse_time stamp hash_of enabled token authorization e ack now db in
        ((text_eq authorization (text "Bearer " ++ token) ≡ true) × IsRecorded ack now db out)
        ⊎ (out.1 ≡ db)
  unfolding control
  control_records false token authorization e ack now db = inr refl
  control_records true token authorization get_policy ack now db = inr (ground arith)
  control_records true token authorization unknown_path ack now db = inr (ground arith)
  control_records true token authorization post_applied ack now db =
      elim (Bool-cases (text_eq authorization (text "Bearer " ++ token))) [
        | inr no_token ↦ inr (ground arith)
        | inl granted ↦
            let same : control parse_time stamp hash_of true token authorization post_applied ack
                  now db
                ≡ take_ack parse_time stamp hash_of now ack db =
              ground arith in
            elim (take_ack-IsRecorded ack now db) [
              | inr kept ↦ inr (ap (λ (out : Reply × Db). out.1) same ∙ kept)
              | inl (a, s, given, good, found, current, status, done) ↦ inl (
                granted,
                (
                  a,
                  s,
                  given,
                  good,
                  found,
                  current,
                  ap (λ (out : Reply × Db). out.0.status) same ∙ status,
                  ap (λ (out : Reply × Db). out.1) same ∙ done,
                ),
              )
            ]
      ]
