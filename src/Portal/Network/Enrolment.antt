-- ===== src/Portal/Network/Enrolment.antt =====
-- internal/portal/vpn.go: `EnrollDevice` and `enrollDevice`, which gives a device its address.
use game_server_dashboard.Go.Numbers.{itoa}
use game_server_dashboard.Go.Text.{Text, is_blank, text, text_eq, trim_space}
use game_server_dashboard.Portal.Db.{Db, Error, audit, refused, write}
use game_server_dashboard.Portal.Rows.{UserRow, item}
use game_server_dashboard.Portal.Types.{User}
use game_server_dashboard.Portal.VpnTypes.{Device, DeviceState, is_revoked_device}
use game_server_dashboard.Prelude.{
  Bool, List, Option, Result, append_row, count_where, err, exists_where, guard, if◌then◌else◌, leb,
  length, ltb, next_id, none, not, ok, require, some, suc, zero, ℕ, ◌&&◌, ◌++◌, ◌+◌, ◌==◌, ◌>>=◌,
  ◌>>◌,
}
use game_server_dashboard.Vpn.Destination.{key}

-- fmt.Sprintf("10.77.0.%d/32", i)
unfoldable pub pool_address : ℕ → Text
pool_address i = text "10.77.0." ++ (itoa i ++ text "/32")

abbrev pub has_address : Text → Device → Bool
has_address a d = text_eq d.address a

-- The loop `for i := 2; i < 255; i++`: `rounds` are left, from `i` on.
unfoldable pub free_address : ℕ → ℕ → List Device → Option Text
unfolding pool_address
free_address zero i devices = none
free_address (suc rounds) i devices =
    let rest = free_address rounds (i + 1) devices in
    if exists_where (has_address (pool_address i)) devices then rest else some (pool_address i)

abbrev pub is_current_of : ℕ → Device → Bool
is_current_of user d = d.user_id == user && not (is_revoked_device d.state)

unfoldable pub new_device : ℕ → ℕ → Text → Text → Text → List Device → Device
new_device now user name public_key address devices = record {
  id = next_id (λ (d : Device). d.id) devices;
  user_id = user;
  name = name;
  public_key = public_key;
  address = address;
  state = DeviceState.requested;
  created = now;
  version = 1;
}

-- enrollDevice
unfoldable pub enroll_device_tx : ℕ → User → Text → Text → Db → Result Error (ℕ × Db)
enroll_device_tx now u name public_key db = do
  guard (exists_where (λ (x : UserRow). x.id == u.id && x.enabled) db.users)
      (refused "Member unavailable")
  guard (ltb (count_where (is_current_of u.id) db.vpn_devices) 10)
      (refused "At most 10 current devices per member")
  address ←
      require (free_address 253 2 db.vpn_devices)
        (refused "Device address pool exhausted; ask the administrator")
  guard (not (exists_where (λ (d : Device). text_eq d.public_key public_key) db.vpn_devices))
      (refused "This public key is already enrolled or the device could not be saved")
  let d = new_device now u.id name public_key address db.vpn_devices
  ok (
    d.id,
    audit now u.id "vpn.device.enroll" (item "device" d.id)
        (record db { vpn_devices = append_row db.vpn_devices d }),
  )

abbrev pub dropped_value : {A : Type 0} → Result Error (A × Db) → Result Error Db
dropped_value (ok (a, db)) = ok db
dropped_value (err e) = err e

-- EnrollDevice
unfoldable pub enroll_device : ℕ → User → Text → Text → Db → Result Error (Unit {0}) × Db
unfolding enroll_device_tx
enroll_device now u name public_key db = write db (do
  let name' = trim_space name
  let key' = trim_space public_key
  guard (not (is_blank name') && leb (length name') 80 && key key') (
      refused
        "Enter a device name (up to 80 characters) and a valid WireGuard public key. Never submit its private key.")
  dropped_value (enroll_device_tx now u name' key' db))
