-- ===== src/Portal/Network/Views.antt =====
-- internal/portal/vpn.go: `VPNDevices`, what a member or an administrator is shown of the devices.
use game_server_dashboard.Go.Time.{elapsed}
use game_server_dashboard.Portal.Db.{Db}
use game_server_dashboard.Portal.Policy.Audiences.{discover, find_service}
use game_server_dashboard.Portal.Types.{User, is_admin}
use game_server_dashboard.Portal.VpnTypes.{
  Device, GrantState, NetworkGrant, NetworkTarget, is_approved_device, is_approved_grant,
}
use game_server_dashboard.Prelude.{
  Bool, List, [], false, find_where, if◌then◌else◌, none, some, ℕ, ◌&&◌, ◌==◌, ◌||◌, ◌∷◌,
}
use mathlib.Core.List.{reverse}

pub record DeviceView : Type 0 where
  pub device : Device
  pub grants : List NetworkGrant

-- An approval that has run out is shown as expired.
unfoldable pub shown_grant : ℕ → NetworkGrant → NetworkGrant
shown_grant now g =
    if is_approved_grant g.state && elapsed g.expires now
    then record g { state = GrantState.expired }
    else g

-- The service of a target, for the viewer who discovers it.
unfoldable pub may_see_route : Db → ℕ → User → Device → NetworkGrant → Bool
may_see_route db now u d g =
    is_approved_grant g.state
    && is_approved_device d.state
    && (elim (find_where (λ (t : NetworkTarget). t.id == g.target_id) db.vpn_targets) [
      | none ↦ false
      | some t ↦ t.enabled && discover db now (some u) (find_service t.service_id db)
    ])

unfoldable pub redacted : Db → ℕ → User → Device → NetworkGrant → NetworkGrant
unfolding may_see_route
redacted db now u d g =
    if is_admin u.role || may_see_route db now u d g
    then g
    else record g { cidr = []; protocol = []; ports = [] }

unfoldable pub view_grants : Db → ℕ → User → Device → List NetworkGrant → List NetworkGrant
unfolding redacted shown_grant
view_grants db now u d [] = []
view_grants db now u d (g ∷ gs) =
    let rest = view_grants db now u d gs in
    if g.device_id == d.id then redacted db now u d (shown_grant now g) ∷ rest else rest

unfoldable pub view_devices : Db → ℕ → User → List Device → List DeviceView
unfolding view_grants
view_devices db now u [] = []
view_devices db now u (d ∷ ds) =
    let rest = view_devices db now u ds in
    if is_admin u.role || d.user_id == u.id
    then record { device = d; grants = view_grants db now u d (reverse db.vpn_grants) } ∷ rest
    else rest

-- VPNDevices: the last device and the last grant first.
unfoldable pub vpn_devices_for : Db → ℕ → User → List DeviceView
unfolding view_devices
vpn_devices_for db now u = view_devices db now u (reverse db.vpn_devices)
