-- ===== src/Portal/Packs/Creation.antt =====
-- internal/portal/packs.go: `createPackDevice`. The key pair is drawn at random; `seal` stands for
-- the delivery cipher, by key and additional data.
use game_server_dashboard.Go.Numbers.{itoa}
use game_server_dashboard.Go.Text.{Text, is_blank, text, text_fold_eq, trim_space}
use game_server_dashboard.Go.Time.{at, day, unset}
use game_server_dashboard.Portal.Db.{
  Db, Error, audit, insert_notifications, is_enabled_admin, refused, write_value,
}
use game_server_dashboard.Portal.Devices.{is_device, revoke_grants, revoked_history}
use game_server_dashboard.Portal.Network.Enrolment.{enroll_device_tx, is_current_of}
use game_server_dashboard.Portal.Network.Requests.{new_grant, vpn_history_entry}
use game_server_dashboard.Portal.Packs.{pack_service_allowed}
use game_server_dashboard.Portal.Rows.{UserRow, item}
use game_server_dashboard.Portal.Types.{ServiceRow, User, is_admin}
use game_server_dashboard.Portal.VpnTypes.{
  Delivery, Device, DeviceState, NetworkTarget, is_revoked_device,
}
use game_server_dashboard.Prelude.{
  Bool, Result, append_row, count_where, find_where, guard, if◌then◌else◌, leb, length, none, not,
  ok, require, some, update_where, ℕ, ◌&&◌, ◌*◌, ◌++◌, ◌+◌, ◌==◌, ◌>>=◌, ◌>>◌, ◌||◌,
}

-- packOwner: the session's copy of the account is that of the row.
unfoldable pub pack_owner : User → Db → Result Error (Unit {0})
pack_owner u db = do
  x ←
      require (find_where (λ (x : UserRow). x.id == u.id && x.enabled) db.users)
        (refused "Your account changed; sign in again")
  guard
      ((is_admin x.role && is_admin u.role || not (is_admin x.role) && not (is_admin u.role))
        && x.generation == u.generation)
      (refused "Your account changed; sign in again")

-- deliveryAAD
unfoldable pub delivery_aad : ℕ → ℕ → Text → Text
delivery_aad owner device pub_key =
    text "waypoint-pack-v1:" ++ (itoa owner ++ (text ":" ++ (itoa device ++ (text ":" ++ pub_key))))

-- The target of the request, with its service.
unfoldable pub pack_target : ℕ → User → ℕ → Db → Result Error (NetworkTarget × ServiceRow)
pack_target now u target db = do
  t ←
      require (find_where (λ (t : NetworkTarget). t.id == target && t.enabled) db.vpn_targets)
        (refused "That service is unavailable for a connection request")
  s ←
      require (find_where (λ (s : ServiceRow). s.id == t.service_id) db.services)
        (refused "That service is unavailable for a connection request")
  guard (pack_service_allowed db now u t.service_id)
      (refused "That service is unavailable for a connection request")
  ok (t, s)

-- The old device is retired.
unfoldable pub retire_device : ℕ → User → ℕ → Db → Db
retire_device now u old db = audit now u.id "vpn.pack.replace" (item "device" old) (record db {
  vpn_history = db.vpn_history ++ revoked_history now u.id old db.vpn_grants;
  vpn_grants =
      revoke_grants old (text "Connection pack replaced; new approval required.") db.vpn_grants;
  vpn_devices =
      update_where (is_device old)
        (λ x. record x { state = DeviceState.revoked; version = x.version + 1 }) db.vpn_devices;
  vpn_deliveries =
      update_where (λ (p : Delivery). p.device_id == old) (λ p. record p { encrypted_key = none })
        db.vpn_deliveries;
})

unfoldable pub replace_device : ℕ → User → ℕ → ℕ → Db → Result Error Db
unfolding retire_device
replace_device now u old version db = if old == 0 then ok db else (do
  d ←
      require (find_where (is_device old) db.vpn_devices)
        (refused "This device changed or is unavailable; reload before replacing it")
  guard (d.user_id == u.id && d.version == version && not (is_revoked_device d.state))
      (refused "This device changed or is unavailable; reload before replacing it")
  ok (retire_device now u old db))

module _ (seal : Text → Text → Text) where
  unfoldable pub prepare_pack : ℕ → User → ℕ → ℕ → Text → Text → Text → Text → Text → Db → Db
  prepare_pack now u id target reason label svc_name private_key pub_key db =
      let g = new_grant now id target reason label svc_name db.vpn_grants in
      let db1 = record db {
        vpn_deliveries = append_row db.vpn_deliveries (record {
          device_id = id;
          encrypted_key = some (seal private_key (delivery_aad u.id id pub_key));
          expires = at (now + 30 * day);
          created = now;
          consumed = unset;
        });
        vpn_grants = append_row db.vpn_grants g;
      } in
      let db2 = vpn_history_entry now u.id g.id db1 in
      let db3 =
        insert_notifications now is_enabled_admin 0 0 id "A device connection request needs review."
          db2.users db2 in
      audit now u.id "vpn.pack.prepare" (item "device" id) db3

  unfoldable pub create_pack_tx :
      ℕ → User → Text → ℕ → Text → ℕ → ℕ → Text → Text → Db → Result Error (ℕ × Db)
  unfolding pack_owner pack_target replace_device
  create_pack_tx now u name target reason old version private_key pub_key db = do
    pack_owner u db
    chosen ← pack_target now u target db
    db1 ← replace_device now u old version db
    guard
        (count_where (λ (d : Device). is_current_of u.id d && text_fold_eq d.name name)
            db1.vpn_devices
          == 0)
        (refused "A device already uses that name. Open it below or choose a different name.")
    enrolled ← enroll_device_tx now u name pub_key db1
    ok (
      enrolled.0,
      prepare_pack now u enrolled.0 target reason chosen.0.label chosen.1.name private_key pub_key
          enrolled.1,
    )

  -- createPackDevice; `configured` is whether there is a delivery cipher.
  unfoldable pub create_pack :
      Bool → ℕ → User → Text → ℕ → Text → ℕ → ℕ → Bool → Text → Text → Db → Result Error ℕ × Db
  unfolding create_pack_tx
  create_pack configured now u name target reason old version confirmed private_key pub_key db =
      write_value db (do
        guard configured (refused "Automatic connection packs are not configured")
        let name' = trim_space name
        let reason' = trim_space reason
        guard
            (not (is_blank name')
              && leb (length name') 80
              && leb 3 (length reason')
              && leb (length reason') 2000)
            (refused "Enter a device name and a short explanation of what you want to use")
        guard (old == 0 || confirmed)
            (refused "Confirm replacing this device; its old connection will be retired")
        create_pack_tx now u name' target reason' old version private_key pub_key db)
