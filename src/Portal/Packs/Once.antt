-- ===== src/Portal/Packs/Once.antt =====
-- What a connection pack of internal/portal/packs.go is good for.
use game_server_dashboard.Go.Text.{Text}
use game_server_dashboard.Go.Time.{Stamp, is_unset, upcoming}
use game_server_dashboard.Portal.Db.{Db, Error, audit}
use game_server_dashboard.Portal.Frame.{pair-injective, write_value-ok, write_value-refused}
use game_server_dashboard.Portal.Network.Control.{vpn_snapshot}
use game_server_dashboard.Portal.Packs.Consumption.{
  consume_pack, deliver, opened_key, pack_rules, undelivered,
}
use game_server_dashboard.Portal.Packs.Creation.{pack_owner}
use game_server_dashboard.Portal.Types.{User}
use game_server_dashboard.Portal.VpnTypes.{Delivery, Device, is_approved_device}
use game_server_dashboard.Prelude.{
  >>=-ok, All, All-update_where, All-false-update_where, Bool, List, Option, Result, [], and-true,
  ap, arith, err, false, find_where, find_where-All-false, guard-ok, inl, inr, none, ok, refl,
  require-ok, some, sym, true, ℕ, ◌&&◌, ◌==◌, ◌∙◌, ◌∷◌, ◌≡◌, ◌⊎◌,
}
use game_server_dashboard.Vpn.Policy.{Peer, Rule, Snapshot}
use game_server_dashboard.Vpn.Routes.{join_routes, route_set}

undelivered-gone :
    (now : ℕ) (u : User) (id : ℕ) (db : Db) {x : Device × Text}
    → find_where (λ (p : Delivery). p.device_id == id && is_unset p.consumed) db.vpn_deliveries
      ≡ none
    → undelivered now u id db ≡ ok x
    → ⊥
unfolding undelivered
undelivered-gone now u id db {x} gone e =
    let (d, _, e1) =
      require-ok (find_where (λ (d : Device). d.id == id && d.user_id == u.id) db.vpn_devices) _ _
        e in
    let (p, found, _) =
      require-ok
        (find_where (λ (p : Delivery). p.device_id == id && is_unset p.consumed) db.vpn_deliveries)
        _ _ e1 in
    cc (let h : none ≡ some p = sym gone ∙ found in h)

undelivered-device :
    (now : ℕ) (u : User) (id : ℕ) (db : Db) {x : Device × Text}
    → undelivered now u id db ≡ ok x
    → (d : Device) × (find_where (λ (d : Device). d.id == id && d.user_id == u.id) db.vpn_devices
        ≡ some d)
      × (is_approved_device d.state ≡ true)
unfolding undelivered
undelivered-device now u id db {x} e =
    let (d, found, e1) =
      require-ok (find_where (λ (d : Device). d.id == id && d.user_id == u.id) db.vpn_devices) _ _
        e in
    let (p, _, e2) =
      require-ok
        (find_where (λ (p : Delivery). p.device_id == id && is_unset p.consumed) db.vpn_deliveries)
        _ _ e1 in
    let (k, _, e3) = require-ok p.encrypted_key _ _ e2 in
    let (good, _) = guard-ok (is_approved_device d.state && upcoming p.expires now) _ _ e3 in
    (d, found, (and-true _ _ good).0)

All-Unit : {A : Type 0} (xs : List A) → All (λ _. Unit {0}) xs
All-Unit [] = tt
All-Unit (x ∷ xs) = (tt, All-Unit xs)

module _ (parse_time : Text → Option ℕ) (stamp : Stamp → Text) (hash_of : List Peer → Text)
    (open_sealed : Text → Text → Option Text) (public_of : Text → Option Text)
    (pack_of : ℕ → Text → Text → Text → Text → Result Error Text) where
  consume_outcome :
      (configured : Bool) (now : ℕ) (u : User) (id : ℕ) (db : Db) {pack : Text} {db' : Db}
      → consume_pack parse_time stamp hash_of open_sealed public_of pack_of configured now u id db
        ≡ (ok pack, db')
      → (d : Device) × (sealed : Text) × (s : Snapshot) × (rules : List Rule) × (private_key : Text)
        × (pack_owner u db ≡ ok tt)
        × (undelivered now u id db ≡ ok (d, sealed))
        × (vpn_snapshot parse_time stamp hash_of db now ≡ some s)
        × (pack_rules now u id s db ≡ ok rules)
        × (opened_key open_sealed public_of u d sealed ≡ ok private_key)
        × (pack_of id private_key d.address db.vpn_status.public_key (join_routes (route_set rules))
            ≡ ok pack)
        × (db' ≡ deliver now u id db)
  unfolding consume_pack
  consume_outcome configured now u id db {pack} {db'} e =
      let (_, e1) = guard-ok configured _ _ (write_value-ok db _ e) in
      let (x, owner, e2) = >>=-ok (pack_owner u db) _ e1 in
      let (waiting, ready, e3) = >>=-ok (undelivered now u id db) _ e2 in
      let (s, current, e4) = require-ok (vpn_snapshot parse_time stamp hash_of db now) _ _ e3 in
      let (rules, allowed, e5) = >>=-ok (pack_rules now u id s db) _ e4 in
      let (private_key, unsealed, e6) =
        >>=-ok (opened_key open_sealed public_of u waiting.0 waiting.1) _ e5 in
      let (built, packed, e7) =
        >>=-ok
          (pack_of id private_key waiting.0.address db.vpn_status.public_key
            (join_routes (route_set rules)))
          _ e6 in
      let same = pair-injective e7 in
      (
        waiting.0,
        waiting.1,
        s,
        rules,
        private_key,
        owner,
        ready,
        current,
        allowed,
        unsealed,
        packed ∙ ap ok (ap (λ (p : Text × Db). p.0) same),
        sym (ap (λ (p : Text × Db). p.1) same),
      )

  -- A pack is delivered once: after a download has succeeded, every further download of it fails
  -- and changes nothing. What was delivered was for an approved device of the
  -- caller's, and the portal keeps no key of that device.
  pub consume_pack_once :
      (configured configured2 : Bool) (now later : ℕ) (u w : User) (id : ℕ) (db : Db) {pack : Text}
      {db' : Db}
      → consume_pack parse_time stamp hash_of open_sealed public_of pack_of configured now u id db
        ≡ (ok pack, db')
      → ((e : Error) × (consume_pack parse_time stamp hash_of open_sealed public_of pack_of
              configured2 later w id db'
            ≡ (err e, db')))
        × ((d : Device) × (find_where
                (λ (d : Device). d.id == id && d.user_id == u.id)
                db.vpn_devices
              ≡ some d)
            × (is_approved_device d.state ≡ true))
        × All
            (λ (p : Delivery). ((p.device_id == id) ≡ false) ⊎ (p.encrypted_key ≡ none))
            db'.vpn_deliveries
  unfolding consume_pack deliver audit
  consume_pack_once configured configured2 now later u w id db {pack} {db'} e =
      let (d, sealed, s, rules, private_key, owner, ready, _, _, _, _, done) =
        consume_outcome configured now u id db e in
      let rows : db'.vpn_deliveries ≡ (deliver now u id db).vpn_deliveries =
        ap (λ (d : Db). d.vpn_deliveries) done in
      let gone : find_where (λ (p : Delivery). p.device_id == id && is_unset p.consumed)
            db'.vpn_deliveries
          ≡ none =
        rw rows (
          find_where-All-false _ _ (
            All-false-update_where (λ (p : Delivery). p.device_id == id && is_unset p.consumed)
              (λ (p : Delivery). p.device_id == id) _ db.vpn_deliveries (λ y h. ground arith)
              (λ y h. ground arith))) in
      (
        write_value-refused db' _ (λ x d2 again.
            let (_, _, _, _, _, _, ready3, _, _, _, _, _) =
              consume_outcome configured2 later w id db' {pack = x} {db' = d2} again in
            undelivered-gone later w id db' gone ready3),
        undelivered-device now u id db ready,
        rw rows (
            All-update_where (λ _. Unit) _ _ _ db.vpn_deliveries (λ y _ h. inr refl)
              (λ y _ h. inl h) (All-Unit db.vpn_deliveries)),
      )
