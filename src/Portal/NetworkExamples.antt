-- ===== src/Portal/NetworkExamples.antt =====
-- The theorems of the network side at a small database.
use game_server_dashboard.Go.Numbers.{
  atoi, digits, digits_from, itoa, itoa_from, split, split_parts,
}
use game_server_dashboard.Go.Prefixes.{
  address_of, holds_address, is_masked, octet, overlaps, parse_prefix, prefix_of,
}
use game_server_dashboard.Go.Text.{Text, includes_text, is_blank, text, text_eq, trim_space}
use game_server_dashboard.Go.Time.{Stamp, at, unset}
use game_server_dashboard.Portal.Db.{Db, Error, audit}
use game_server_dashboard.Portal.Devices.{
  add_row, device_in_force, device_rows, grant_in_force, group_rows, policy_rows, rule_of,
  snapshot_peers, target_open,
}
use game_server_dashboard.Portal.Fixtures.{desk, friend, laptop, note, owner, permit}
use game_server_dashboard.Portal.Frame.{IsUnchanged}
use game_server_dashboard.Portal.Network.Addresses.{enroll_device-address, enroll_device_succeeds}
use game_server_dashboard.Portal.Network.Control.{
  Reply, control, get_policy, give_policy, post_applied, vpn_snapshot,
}
use game_server_dashboard.Portal.Network.Decisions.{
  Decision, approval_checks, approve, decide_network, decide_tx, decided_grants, decision_expiry,
  deny, find_case, is_approve, is_legal_decision, year,
}
use game_server_dashboard.Portal.Network.Disclosure.{
  IsOwnView, IsRecorded, control_policy, control_records, vpn_devices_for-All,
}
use game_server_dashboard.Portal.Network.Enrolment.{
  enroll_device_tx, free_address, has_address, is_current_of, new_device, pool_address,
}
use game_server_dashboard.Portal.Network.Legality.{
  decide_network_legal, decide_network_once, is_grant_at,
}
use game_server_dashboard.Portal.Network.Views.{vpn_devices_for}
use game_server_dashboard.Portal.Packs.{
  pack_audience_allowed, pack_category_allowed, pack_service_allowed,
}
use game_server_dashboard.Portal.Packs.Consumption.{
  consume_pack, deliver, is_confirmed, is_permitted_rule, opened_key, pack_rules, undelivered,
}
use game_server_dashboard.Portal.Packs.Creation.{pack_owner}
use game_server_dashboard.Portal.Packs.Once.{consume_pack_once}
use game_server_dashboard.Portal.Rows.{item}
use game_server_dashboard.Portal.Types.{is_admin}
use game_server_dashboard.Portal.VpnTypes.{
  Delivery, Device, DeviceState, GrantState, NetworkGrant, NetworkTarget, is_approved_device,
}
use game_server_dashboard.Prelude.{
  All, List, Option, Result, [], append_row, arith, count_where, err, exists_where, false,
  find_where, max_id, next_id, none, ok, refl, select, some, true, ℕ, ◌&&◌, ◌++◌, ◌+◌, ◌<◌, ◌==◌,
  ◌∷◌, ◌≡◌, ◌≤◌, ◌⊎◌,
}
use game_server_dashboard.Vpn.Destination.{
  base64_tail, destination, is_destination_network, key, overlaps_any, port_bounds, port_list,
  port_parts, repeat,
}
use game_server_dashboard.Vpn.Policy.{Peer, Snapshot}
use game_server_dashboard.Vpn.Routes.{insert_text, join_routes, route_set}
use game_server_dashboard.Vpn.Validity.{
  check_peers, check_rules, includes_number, is_peer_address, validate,
}

abbrev wg_key : Text
wg_key = text "QUFBQUFBQUFBQUFBQUFBQUFBQUFBQUFBQUFBQUFBQUE="

abbrev nas : NetworkTarget
nas = record {
  id = 1;
  service_id = 5;
  label = note;
  cidr = text "192.168.1.10/32";
  protocol = text "tcp";
  ports = text "80";
  enabled = true;
  version = 1;
}

abbrev asked_grant : NetworkGrant
asked_grant = record permit { device_id = 4; state = GrantState.pending; expires = unset }

-- The friend's laptop has a pending request for the target.
abbrev asked_desk : Db
asked_desk = record desk {
  vpn_devices =
      record laptop {
        name = note;
        public_key = wg_key;
        address = text "10.77.0.2/32";
        state = DeviceState.requested;
      }
      ∷ [];
  vpn_targets = nas ∷ [];
  vpn_grants = asked_grant ∷ [];
  vpn_deliveries =
      record {
        device_id = 4;
        encrypted_key = some note;
        expires = at 900;
        created = 0;
        consumed = unset;
      }
      ∷ [];
  vpn_status = record { revision = note; public_key = wg_key; seen = at 290 };
}

abbrev why : Text
why = text "fine"

abbrev some_day : Text → Option ℕ
some_day _ = some 500

abbrev after_approve : Result Error (Unit {0}) × Db
after_approve = decide_network some_day 100 owner 1 2 1 (some approve) note why true asked_desk

decided_ok : after_approve ≡ (ok tt, after_approve.1)
unfolding decide_network trim_space is_blank find_case find_where approval_checks count_where
    destination parse_prefix is_masked overlaps overlaps_any is_destination_network split
    split_parts prefix_of address_of octet digits digits_from itoa itoa_from text_eq text atoi
    port_list port_parts port_bounds decision_expiry is_legal_decision decide_tx
decided_ok = refl

decide_network_once_example :
    IsUnchanged after_approve.1
      (decide_network some_day 110 owner 1 2 1 (some deny) note why true after_approve.1)
decide_network_once_example =
    decide_network_once some_day 100 110 owner owner 1 2 1 1 (some approve) (some deny) note why
      note why true true asked_desk decided_ok

decide_network_legal_example :
    (decision : Decision) × (until : Stamp) × (g : NetworkGrant) × (t : NetworkTarget) × (some
        approve
      ≡ some decision)
    × (is_admin owner.role ≡ true)
    × (find_where (is_grant_at 1 2) asked_desk.vpn_grants ≡ some g)
    × (find_where (λ (x : NetworkTarget). x.id == g.target_id) asked_desk.vpn_targets ≡ some t)
    × (is_legal_decision g.state decision ≡ true)
    × (after_approve.1.vpn_grants
        ≡ decided_grants 1 2 decision t until (trim_space why) asked_desk.vpn_grants)
    × ((is_approve decision ≡ false)
        ⊎ ((t.version ≡ 1)
            × (t.enabled ≡ true)
            × (destination t.cidr t.protocol t.ports ≡ true)
            × (true ≡ true)
            × ((end : ℕ) × (until ≡ at end) × (100 < end) × (end ≤ 100 + year))))
decide_network_legal_example =
    decide_network_legal some_day 100 owner 1 2 1 (some approve) note why true asked_desk decided_ok

vpn_devices_for-All_example :
    All (IsOwnView after_approve.1 200 friend) (vpn_devices_for after_approve.1 200 friend)
vpn_devices_for-All_example = vpn_devices_for-All after_approve.1 200 friend refl

abbrev a_time : Text → Option ℕ
a_time _ = some 500

abbrev a_stamp : Stamp → Text
a_stamp _ = note

abbrev a_hash : List Peer → Text
a_hash _ = note

-- The device and the request are approved.
abbrev approved_desk : Db
approved_desk = record asked_desk {
  vpn_devices =
      record laptop {
        name = note;
        public_key = wg_key;
        address = text "10.77.0.2/32";
        state = DeviceState.approved;
      }
      ∷ [];
  vpn_grants =
      record asked_grant {
        state = GrantState.approved;
        cidr = nas.cidr;
        protocol = nas.protocol;
        ports = nas.ports;
        expires = at 500;
      }
      ∷ [];
}

abbrev policy_now : Snapshot
policy_now = record { revision = note; peers = snapshot_peers a_stamp approved_desk 300 }

abbrev given : Reply × Db
given = control a_time a_stamp a_hash true note (text "Bearer ok") get_policy none 300 approved_desk

given_ok : given.0.body ≡ some policy_now
unfolding control give_policy vpn_snapshot validate check_peers check_rules key snapshot_peers
    group_rows add_row policy_rows device_rows device_in_force exists_where grant_in_force
    target_open find_where text text_eq base64_tail repeat includes_number destination rule_of
    parse_prefix is_masked overlaps overlaps_any is_destination_network split split_parts prefix_of
    address_of octet digits digits_from itoa itoa_from atoi port_list port_parts port_bounds
    holds_address includes_text
given_ok = refl

control_policy_example :
    (true ≡ true)
    × (text_eq (text "Bearer ok") (text "Bearer " ++ note) ≡ true)
    × (validate a_time a_hash policy_now ≡ true)
    × (policy_now.peers ≡ snapshot_peers a_stamp approved_desk 300)
    × (given.1 ≡ approved_desk)
control_policy_example =
    control_policy a_time a_stamp a_hash true note (text "Bearer ok") get_policy none 300
      approved_desk given_ok

control_records_example :
    ((text_eq (text "Bearer ok") (text "Bearer " ++ note) ≡ true)
      × IsRecorded a_time a_stamp a_hash
          (some (record { revision = note; public_key = wg_key }))
          300
          after_approve.1
          (control a_time a_stamp a_hash true note
            (text "Bearer ok")
            post_applied
            (some (record { revision = note; public_key = wg_key }))
            300
            after_approve.1))
    ⊎ ((control a_time a_stamp a_hash true note
          (text "Bearer ok")
          post_applied
          (some (record { revision = note; public_key = wg_key }))
          300
          after_approve.1).1
        ≡ after_approve.1)
control_records_example =
    control_records a_time a_stamp a_hash true note (text "Bearer ok") post_applied
      (some (record { revision = note; public_key = wg_key })) 300 after_approve.1

abbrev after_enroll : Result Error (ℕ × Db)
after_enroll = enroll_device_tx 100 friend note wg_key desk

abbrev new_desk : Db
new_desk = audit 100 2 "vpn.device.enroll" (item "device" 5) (record desk {
  vpn_devices =
      append_row desk.vpn_devices
        (new_device 100 2 note wg_key (text "10.77.0.2/32") desk.vpn_devices);
})

enrolled_ok : after_enroll ≡ ok (5, new_desk)
unfolding enroll_device_tx exists_where count_where free_address pool_address text_eq text itoa
    itoa_from new_device audit append_row next_id max_id trim_space
enrolled_ok = refl

enroll_device-address_example :
    (d : Device) × (new_desk.vpn_devices ≡ append_row desk.vpn_devices d)
    × (d.id ≡ 5)
    × (d.user_id ≡ 2)
    × (d.name ≡ note)
    × (d.public_key ≡ wg_key)
    × (d.state ≡ DeviceState.requested)
    × (is_peer_address d.address ≡ true)
    × (exists_where (has_address d.address) desk.vpn_devices ≡ false)
    × (exists_where (λ (x : Device). text_eq x.public_key wg_key) desk.vpn_devices ≡ false)
    × (count_where (is_current_of 2) new_desk.vpn_devices ≤ 10)
enroll_device-address_example = enroll_device-address 100 friend note wg_key desk enrolled_ok

enroll_device_succeeds_example :
    (id : ℕ) × (db' : Db) × (enroll_device_tx 100 friend note wg_key desk ≡ ok (id, db'))
unfolding exists_where count_where text_eq text pool_address
enroll_device_succeeds_example =
    enroll_device_succeeds 100 friend note wg_key desk 2 refl (omega arith) refl (omega arith)
      (omega arith) refl

abbrev open_text : Text → Text → Option Text
open_text s _ = some s

abbrev public_of_any : Text → Option Text
public_of_any _ = some wg_key

abbrev pack_of_key : ℕ → Text → Text → Text → Text → Result Error Text
pack_of_key _ k _ _ _ = ok k

abbrev after_pack : Result Error Text × Db
after_pack =
    consume_pack a_time a_stamp a_hash open_text public_of_any pack_of_key true 300 friend 4
      approved_desk

packed_ok : after_pack ≡ (ok note, after_pack.1)
unfolding consume_pack pack_owner undelivered is_confirmed is_permitted_rule pack_rules opened_key
    deliver pack_service_allowed pack_audience_allowed pack_category_allowed select join_routes
    route_set insert_text vpn_snapshot validate check_peers check_rules key snapshot_peers
    group_rows add_row policy_rows device_rows device_in_force exists_where grant_in_force
    target_open find_where text text_eq base64_tail repeat includes_number destination rule_of
    count_where parse_prefix is_masked overlaps overlaps_any is_destination_network split
    split_parts prefix_of address_of octet digits digits_from itoa itoa_from atoi port_list
    port_parts port_bounds holds_address includes_text
packed_ok = refl

consume_pack_once_example :
    ((e : Error) × (consume_pack a_time a_stamp a_hash open_text public_of_any pack_of_key true 310
          friend 4 after_pack.1
        ≡ (err e, after_pack.1)))
    × ((d : Device) × (find_where
            (λ (d : Device). d.id == 4 && d.user_id == 2)
            approved_desk.vpn_devices
          ≡ some d)
        × (is_approved_device d.state ≡ true))
    × All
        (λ (p : Delivery). ((p.device_id == 4) ≡ false) ⊎ (p.encrypted_key ≡ none))
        after_pack.1.vpn_deliveries
consume_pack_once_example =
    consume_pack_once a_time a_stamp a_hash open_text public_of_any pack_of_key true true 300 310
      friend friend 4 approved_desk packed_ok
