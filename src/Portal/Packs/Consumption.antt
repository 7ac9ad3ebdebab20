-- ===== src/Portal/Packs/Consumption.antt =====
-- internal/portal/packs.go: `consumePack`. `open_sealed` stands for the delivery cipher, by sealed
-- key and additional data, and `public_of` for the base64 public key of an X25519 private key, `none`
-- where the bytes are no such key. `pack_of` is `connectionPack` with its own parameters. The clock
-- is read in whole seconds.
use game_server_dashboard.Go.Text.{Text, text_eq}
use game_server_dashboard.Go.Time.{Stamp, at, is_unset, unset, upcoming}
use game_server_dashboard.Portal.Db.{Db, Error, audit, refused, write_value}
use game_server_dashboard.Portal.Network.Control.{vpn_snapshot}
use game_server_dashboard.Portal.Packs.{pack_service_allowed}
use game_server_dashboard.Portal.Packs.Creation.{delivery_aad, pack_owner}
use game_server_dashboard.Portal.Rows.{item}
use game_server_dashboard.Portal.Types.{User}
use game_server_dashboard.Portal.VpnTypes.{
  Delivery, Device, NetworkGrant, NetworkTarget, VpnStatus, is_approved_device,
}
use game_server_dashboard.Prelude.{
  Bool, List, Option, Result, [], false, find_where, guard, leb, none, ok, require, select, some,
  update_where, ℕ, ◌&&◌, ◌+◌, ◌==◌, ◌>>=◌, ◌>>◌,
}
use game_server_dashboard.Vpn.Destination.{key}
use game_server_dashboard.Vpn.Policy.{Peer, Rule, Snapshot, has_rules}
use game_server_dashboard.Vpn.Routes.{join_routes, route_set}

-- The device and its undelivered key, as the first query joins them.
unfoldable pub undelivered : ℕ → User → ℕ → Db → Result Error (Device × Text)
undelivered now u id db = do
  d ← require (find_where (λ (d : Device). d.id == id && d.user_id == u.id) db.vpn_devices) (
      refused
        "This pack is unavailable, expired, or already downloaded. Open My Devices for next steps.")
  p ←
      require
        (find_where (λ (p : Delivery). p.device_id == id && is_unset p.consumed) db.vpn_deliveries)
        (refused
          "This pack is unavailable, expired, or already downloaded. Open My Devices for next steps.")
  k ← require p.encrypted_key (
      refused
        "This pack is unavailable, expired, or already downloaded. Open My Devices for next steps.")
  guard (is_approved_device d.state && upcoming p.expires now) (
      refused
        "This pack is unavailable, expired, or already downloaded. Open My Devices for next steps.")
  ok (d, k)

-- The gateway has confirmed this policy within the last twenty seconds.
unfoldable pub is_confirmed : ℕ → VpnStatus → Snapshot → Bool
is_confirmed now st s =
    (elim st.seen [ unset ↦ false | at t ↦ leb t now && leb now (t + 20) ])
    && text_eq st.revision s.revision
    && key st.public_key

-- The service of the grant behind a rule is one that the caller may still use.
unfoldable pub is_permitted_rule : Db → ℕ → User → Rule → Bool
is_permitted_rule db now u r =
    elim (find_where (λ (g : NetworkGrant). g.id == r.id) db.vpn_grants) [
      | none ↦ false
      | some g ↦ elim (find_where (λ (t : NetworkTarget). t.id == g.target_id) db.vpn_targets) [
        | none ↦ false
        | some t ↦ pack_service_allowed db now u t.service_id
      ]
    ]

-- The rules of the device's peer in the confirmed policy that are permitted.
unfoldable pub pack_rules : ℕ → User → ℕ → Snapshot → Db → Result Error (List Rule)
unfolding is_permitted_rule
pack_rules now u id s db = do
  guard (is_confirmed now db.vpn_status s)
      (refused "Your connection is awaiting gateway confirmation. Refresh My Devices in a moment.")
  let rules : List Rule = elim (find_where (λ (p : Peer). p.id == id) s.peers) [
    | none ↦ []
    | some p ↦ select (is_permitted_rule db now u) p.rules
  ]
  guard (has_rules rules) (refused "There are no current approved connections for this device")
  ok rules

unfoldable pub deliver : ℕ → User → ℕ → Db → Db
deliver now u id db = audit now u.id "vpn.pack.download" (item "device" id) (record db {
  vpn_deliveries =
      update_where (λ (p : Delivery). p.device_id == id)
        (λ p. record p { encrypted_key = none; consumed = at now }) db.vpn_deliveries;
})

-- The private key is opened and is the one of the device's public key.
unfoldable pub opened_key :
    (Text → Text → Option Text) → (Text → Option Text) → User → Device → Text → Result Error Text
opened_key open_sealed public_of u d sealed = do
  private_key ←
      require (open_sealed sealed (delivery_aad u.id d.id d.public_key))
        (refused "This pack could not be opened; ask the administrator to check delivery storage")
  derived ← require (public_of private_key) (refused "Device key verification failed")
  guard (text_eq derived d.public_key) (refused "Device key verification failed")
  ok private_key

module _ (parse_time : Text → Option ℕ) (stamp : Stamp → Text) (hash_of : List Peer → Text) where
  -- consumePack
  unfoldable pub consume_pack :
      (Text → Text → Option Text)
      → (Text → Option Text)
      → (ℕ → Text → Text → Text → Text → Result Error Text)
      → Bool
      → ℕ
      → User
      → ℕ
      → Db
      → Result Error Text × Db
  unfolding undelivered pack_rules deliver opened_key
  consume_pack open_sealed public_of pack_of configured now u id db = write_value db (do
    guard configured (refused "Connection packs are unavailable")
    pack_owner u db
    waiting ← undelivered now u id db
    s ←
        require (vpn_snapshot parse_time stamp hash_of db now)
          (refused "Gateway policy unavailable")
    rules ← pack_rules now u id s db
    private_key ← opened_key open_sealed public_of u waiting.0 waiting.1
    pack ←
        pack_of id private_key waiting.0.address db.vpn_status.public_key
          (join_routes (route_set rules))
    ok (pack, deliver now u id db))
