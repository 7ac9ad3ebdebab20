-- ===== src/Portal/Network/Legality.antt =====
-- What the decisions of internal/portal/vpn.go guarantee.
use game_server_dashboard.Go.Text.{Text, trim_space}
use game_server_dashboard.Go.Time.{Stamp, at}
use game_server_dashboard.Portal.Db.{Db, Error}
use game_server_dashboard.Portal.Frame.{
  IsUnchanged, SameTables, SameTables-refl, audit-SameTables, insert_notification-SameTables,
  ok-injective, write-IsUnchanged, write-ok,
}
use game_server_dashboard.Portal.Network.Decisions.{
  Case, Decision, approval_checks, approve, decide_network, decide_tx, decided_grants,
  decision_expiry, decision_writes, deny, find_case, is_approve, is_legal_decision, revoke, year,
}
use game_server_dashboard.Portal.Network.Requests.{vpn_history_entry}
use game_server_dashboard.Portal.Rows.{UserRow}
use game_server_dashboard.Portal.Types.{ServiceRow, User, is_admin}
use game_server_dashboard.Portal.VpnTypes.{Device, NetworkGrant, NetworkTarget}
use game_server_dashboard.Prelude.{
  >>=-ok, All-false-update_where, Bool, Bool-cases, List, Option, Option-cases, Result, ap, arith,
  false, find_where, find_where-All-false, guard-ok, if◌then◌else◌, inl, inr, leb, ltb, none, ok,
  refl, require-ok, some, subst, sym, true, ℕ, ◌&&◌, ◌+◌, ◌<◌, ◌==◌, ◌∙◌, ◌≡◌, ◌≤◌, ◌⊎◌,
}
use game_server_dashboard.Vpn.Destination.{destination}

abbrev pub is_grant_at : ℕ → ℕ → NetworkGrant → Bool
is_grant_at id version g = g.id == id && g.version == version

find_case-rows :
    (id version : ℕ) (db : Db) {c : Case}
    → find_case id version db ≡ ok c
    → (find_where (is_grant_at id version) db.vpn_grants ≡ some c.grant)
      × (find_where (λ (d : Device). d.id == c.grant.device_id) db.vpn_devices ≡ some c.device)
      × (find_where (λ (t : NetworkTarget). t.id == c.grant.target_id) db.vpn_targets
          ≡ some c.target)
unfolding find_case
find_case-rows id version db {c} e =
    let (g, found_g, e1) = require-ok (find_where (is_grant_at id version) db.vpn_grants) _ _ e in
    let (d, found_d, e2) =
      require-ok (find_where (λ (d : Device). d.id == g.device_id) db.vpn_devices) _ _ e1 in
    let (u, found_u, e3) =
      require-ok (find_where (λ (u : UserRow). u.id == d.user_id) db.users) _ _ e2 in
    let (t, found_t, e4) =
      require-ok (find_where (λ (t : NetworkTarget). t.id == g.target_id) db.vpn_targets) _ _ e3 in
    let (s, found_s, e5) =
      require-ok (find_where (λ (s : ServiceRow). s.id == t.service_id) db.services) _ _ e4 in
    let same : ◌≡◌ {A = Case} (record { grant = g; device = d; user = u; target = t; service = s })
        c =
      case-injective e5 in
    subst
      (λ (c : Case).
        (find_where (is_grant_at id version) db.vpn_grants ≡ some c.grant)
        × (find_where (λ (d : Device). d.id == c.grant.device_id) db.vpn_devices ≡ some c.device)
        × (find_where (λ (t : NetworkTarget). t.id == c.grant.target_id) db.vpn_targets
            ≡ some c.target))
      same (found_g, found_d, found_t)
  where
    case-injective : {a b : Case} → ◌≡◌ {A = Result Error Case} (ok a) (ok b) → a ≡ b
    case-injective h = cc

vpn_history_entry-SameTables :
    (now actor id : ℕ) (db : Db) → SameTables db (vpn_history_entry now actor id db)
unfolding vpn_history_entry
vpn_history_entry-SameTables now actor id db =
    elim (Option-cases (find_where (λ (g : NetworkGrant). g.id == id) db.vpn_grants)) [
      | inl gone ↦ rw (gone, vpn_history_entry) (SameTables-refl db)
      | inr (g, found) ↦
          rw (found, vpn_history_entry)
            (record {
              users = refl;
              categories = refl;
              services = refl;
              requests = refl;
              transitions = refl;
              access_records = refl;
              tokens = refl;
              vpn_devices = refl;
              vpn_targets = refl;
              vpn_grants = refl;
              vpn_deliveries = refl;
            })
    ]

decision_writes-vpn_grants :
    (now : ℕ) (u : User) (id version : ℕ) (decision : Decision) (c : Case) (expiry : Stamp)
    (explanation : Text) (db : Db)
    → (decision_writes now u id version decision c expiry explanation db).vpn_grants
      ≡ decided_grants id version decision c.target expiry explanation db.vpn_grants
unfolding decision_writes
decision_writes-vpn_grants now u id version approve c expiry explanation db =
    ((audit-SameTables now u.id _ _ _).vpn_grants
      ∙ (insert_notification-SameTables now c.device.user_id 0 0 c.device.id _ _).vpn_grants)
    ∙ (vpn_history_entry-SameTables now u.id id _).vpn_grants
decision_writes-vpn_grants now u id version deny c expiry explanation db =
    (((audit-SameTables now u.id _ _ _).vpn_grants
        ∙ (insert_notification-SameTables now c.device.user_id 0 0 c.device.id _ _).vpn_grants)
      ∙ (vpn_history_entry-SameTables now u.id id _).vpn_grants)
    ∙ ap (decided_grants id version deny c.target expiry explanation)
        (vpn_history_entry-SameTables now u.id id db).vpn_grants
decision_writes-vpn_grants now u id version revoke c expiry explanation db =
    (((audit-SameTables now u.id _ _ _).vpn_grants
        ∙ (insert_notification-SameTables now c.device.user_id 0 0 c.device.id _ _).vpn_grants)
      ∙ (vpn_history_entry-SameTables now u.id id _).vpn_grants)
    ∙ ap (decided_grants id version revoke c.target expiry explanation)
        (vpn_history_entry-SameTables now u.id id db).vpn_grants

-- What is known of a decision that has succeeded.
decide_outcome :
    (parse_day : Text → Option ℕ) (now : ℕ) (u : User) (id version target_version : ℕ)
    (chosen : Option Decision) (expiry explanation : Text) (confirmed : Bool) (db : Db) {db' : Db}
    → decide_network parse_day now u id version target_version chosen expiry explanation confirmed
        db
      ≡ (ok tt, db')
    → (decision : Decision) × (until : Stamp) × (c : Case) × (chosen ≡ some decision)
      × (is_admin u.role ≡ true)
      × (decision_expiry parse_day now decision expiry confirmed ≡ ok until)
      × (find_case id version db ≡ ok c)
      × (is_legal_decision c.grant.state decision ≡ true)
      × ((if is_approve decision then approval_checks now target_version c db else ok tt) ≡ ok tt)
      × (db' ≡ decision_writes now u id version decision c until (trim_space explanation) db)
unfolding decide_network decide_tx
decide_outcome parse_day now u id version target_version chosen expiry explanation confirmed db
      {db'} e =
    let (by_admin, e1) = guard-ok (is_admin u.role) _ _ (write-ok db _ e) in
    let (decision, is_chosen, e2) = require-ok chosen _ _ e1 in
    let (_, e3) = guard-ok _ _ _ e2 in
    let (until, lasting, e4) =
      >>=-ok (decision_expiry parse_day now decision expiry confirmed) _ e3 in
    let (c, found, e5) = >>=-ok (find_case id version db) _ e4 in
    let (legal, e6) = guard-ok (is_legal_decision c.grant.state decision) _ _ e5 in
    let (x, checked, e7) =
      >>=-ok (if is_approve decision then approval_checks now target_version c db else ok tt) _
        e6 in
    (decision, until, c, is_chosen, by_admin, lasting, found, legal, checked, sym (ok-injective e7))

approval_checks-ok :
    (now target_version : ℕ) (c : Case) (db : Db)
    → approval_checks now target_version c db ≡ ok tt
    → (c.target.version ≡ target_version)
      × (c.target.enabled ≡ true)
      × (destination c.target.cidr c.target.protocol c.target.ports ≡ true)
unfolding approval_checks
approval_checks-ok now target_version c db e = ground arith

decision_expiry-ok :
    (parse_day : Text → Option ℕ) (now : ℕ) (decision : Decision) (expiry : Text) (confirmed : Bool)
    {until : Stamp}
    → is_approve decision ≡ true
    → decision_expiry parse_day now decision expiry confirmed ≡ ok until
    → (confirmed ≡ true) × ((end : ℕ) × (until ≡ at end) × (now < end) × (end ≤ now + year))
unfolding decision_expiry
decision_expiry-ok parse_day now approve expiry confirmed {until} a e =
    let (end, parsed, e1) = require-ok (parse_day expiry) _ _ e in
    let (bounds, e2) = guard-ok (ltb now end && leb end (now + year) && confirmed) _ _ e1 in
    (ground arith, (end, cc, ground arith, ground arith))
decision_expiry-ok parse_day now deny expiry confirmed a e = absurd (cc)
decision_expiry-ok parse_day now revoke expiry confirmed a e = absurd (cc)

-- A decision that succeeds is an administrator's and a legal move of the request that has that id
-- and version: a pending one is approved or denied, an approved one revoked. The grants change as
-- `decided_grants` says. An approval is of the destination as it was reviewed, which is one that
-- the policy may contain, and runs out after now and within a year.
pub decide_network_legal :
    (parse_day : Text → Option ℕ) (now : ℕ) (u : User) (id version target_version : ℕ)
    (chosen : Option Decision) (expiry explanation : Text) (confirmed : Bool) (db : Db) {db' : Db}
    → decide_network parse_day now u id version target_version chosen expiry explanation confirmed
        db
      ≡ (ok tt, db')
    → (decision : Decision) × (until : Stamp) × (g : NetworkGrant) × (t : NetworkTarget) × (chosen
        ≡ some decision)
      × (is_admin u.role ≡ true)
      × (find_where (is_grant_at id version) db.vpn_grants ≡ some g)
      × (find_where (λ (x : NetworkTarget). x.id == g.target_id) db.vpn_targets ≡ some t)
      × (is_legal_decision g.state decision ≡ true)
      × (db'.vpn_grants
          ≡ decided_grants id version decision t until (trim_space explanation) db.vpn_grants)
      × ((is_approve decision ≡ false)
          ⊎ ((t.version ≡ target_version)
              × (t.enabled ≡ true)
              × (destination t.cidr t.protocol t.ports ≡ true)
              × (confirmed ≡ true)
              × ((end : ℕ) × (until ≡ at end) × (now < end) × (end ≤ now + year))))
decide_network_legal parse_day now u id version target_version chosen expiry explanation confirmed
      db {db'} e =
    let (decision, until, c, is_chosen, by_admin, lasting, found, legal, checked, done) =
      decide_outcome parse_day now u id version target_version chosen expiry explanation confirmed
        db e in
    let (found_g, _, found_t) = find_case-rows id version db found in
    let rows : db'.vpn_grants
        ≡ decided_grants id version decision c.target until (trim_space explanation) db.vpn_grants =
      ap (λ (d : Db). d.vpn_grants) done
      ∙ decision_writes-vpn_grants now u id version decision c until (trim_space explanation) db in
    (
      decision,
      until,
      c.grant,
      c.target,
      is_chosen,
      by_admin,
      found_g,
      found_t,
      legal,
      rows,
      elim (Bool-cases (is_approve decision)) [
        | inr no_approval ↦ inl no_approval
        | inl approval ↦
            let e1 : approval_checks now target_version c db ≡ ok tt = rw approval at checked in
            let (reviewed, open_now, valid) =
              approval_checks-ok now target_version c db (rw approval at checked) in
            let (sure, lasts) =
              decision_expiry-ok parse_day now decision expiry confirmed approval lasting in
            inr (reviewed, open_now, valid, sure, lasts)
      ],
    )

-- Rows of a version that has been decided on are gone from it.
decided_grants-stale :
    (id version : ℕ) (decision : Decision) (t : NetworkTarget) (expiry : Stamp) (explanation : Text)
    (grants : List NetworkGrant)
    → find_where
        (is_grant_at id version)
        (decided_grants id version decision t expiry explanation grants)
      ≡ none
unfolding decided_grants
decided_grants-stale id version decision t expiry explanation grants = find_where-All-false _ _ (
    All-false-update_where (is_grant_at id version) (is_grant_at id version) _ grants
      (λ y h. ground arith) (λ y h. h))

-- A version of a request is good for one decision: once it has succeeded, every further decision
-- with that version fails and changes nothing, whoever makes it.
pub decide_network_once :
    (parse_day : Text → Option ℕ) (now later : ℕ) (u w : User)
    (id version target_version target_version2 : ℕ) (chosen chosen2 : Option Decision)
    (expiry explanation expiry2 explanation2 : Text) (confirmed confirmed2 : Bool) (db : Db)
    {db' : Db}
    → decide_network parse_day now u id version target_version chosen expiry explanation confirmed
        db
      ≡ (ok tt, db')
    → IsUnchanged db' (
        decide_network parse_day later w id version target_version2 chosen2 expiry2 explanation2
          confirmed2 db')
unfolding decide_network
decide_network_once parse_day now later u w id version target_version target_version2 chosen chosen2
      expiry explanation expiry2 explanation2 confirmed confirmed2 db {db'} e =
    let (decision, until, g, t, _, _, _, _, _, rows, _) =
      decide_network_legal parse_day now u id version target_version chosen expiry explanation
        confirmed db e in
    let gone : find_where (is_grant_at id version) db'.vpn_grants ≡ none =
      rw rows
        (decided_grants-stale id version decision t until (trim_space explanation) db.vpn_grants) in
    write-IsUnchanged db' _ (λ d again.
      let (_, _, g2, _, _, _, found, _, _, _, _) =
        decide_network_legal parse_day later w id version target_version2 chosen2 expiry2
          explanation2 confirmed2 db' {db' = d} again in
      cc (let h : none ≡ some g2 = sym gone ∙ found in h))
