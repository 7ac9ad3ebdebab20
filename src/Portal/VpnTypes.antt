-- ===== src/Portal/VpnTypes.antt =====
-- The rows behind internal/portal/vpn.go and packs.go (vpn.sql, packs.sql).
use game_server_dashboard.Prelude.{ℕ, Bool, true, false, Option}
use game_server_dashboard.Go.Text.{Text}
use game_server_dashboard.Go.Time.{Stamp}

pub data DeviceState : Type 0 where
  requested approved revoked : DeviceState

abbrev pub is_approved_device : DeviceState → Bool
is_approved_device DeviceState.approved = true
is_approved_device _ = false

abbrev pub is_revoked_device : DeviceState → Bool
is_revoked_device DeviceState.revoked = true
is_revoked_device _ = false

pub record Device : Type 0 where
  pub id : ℕ
  pub user_id : ℕ
  pub name : Text
  pub public_key : Text
  pub address : Text
  pub state : DeviceState
  pub created : ℕ
  pub version : ℕ

pub record NetworkTarget : Type 0 where
  pub id : ℕ
  pub service_id : ℕ
  pub label : Text
  pub cidr : Text
  pub protocol : Text
  pub ports : Text
  pub enabled : Bool
  pub version : ℕ

-- "Pending", "Approved", "Denied", "Revoked", "Expired"
pub data GrantState : Type 0 where
  pending approved denied revoked expired : GrantState

abbrev pub is_approved_grant : GrantState → Bool
is_approved_grant GrantState.approved = true
is_approved_grant _ = false

-- state IN ('Pending','Approved')
abbrev pub is_live_grant : GrantState → Bool
is_live_grant GrantState.pending = true
is_live_grant GrantState.approved = true
is_live_grant _ = false

pub record NetworkGrant : Type 0 where
  pub id : ℕ
  pub device_id : ℕ
  pub target_id : ℕ
  pub state : GrantState
  pub reason : Text
  pub target_label : Text
  pub service_name : Text
  pub explanation : Text
  pub cidr : Text
  pub protocol : Text
  pub ports : Text
  pub expires : Stamp
  pub created : ℕ
  pub version : ℕ

pub record Delivery : Type 0 where
  pub device_id : ℕ
  pub encrypted_key : Option Text
  pub expires : Stamp
  pub created : ℕ
  pub consumed : Stamp

pub record VpnHistory : Type 0 where
  pub grant_id : ℕ
  pub actor_id : ℕ
  pub state : GrantState
  pub cidr : Text
  pub protocol : Text
  pub ports : Text
  pub expires : Stamp
  pub created : ℕ

pub record VpnStatus : Type 0 where
  pub revision : Text
  pub public_key : Text
  pub seen : Stamp
