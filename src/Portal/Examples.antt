-- ===== src/Portal/Examples.antt =====
-- The theorems of the request desk, the policy and the vpn desk at small databases.
use game_server_dashboard.Go.Text.{is_blank, trim_space}
use game_server_dashboard.Go.Time.{at, hour}
use game_server_dashboard.Portal.Db.{Db, Error}
use game_server_dashboard.Portal.Devices.{revoke_checks, revoke_device, snapshot_peers}
use game_server_dashboard.Portal.Devices.Expiry.{expire_vpn, expire_vpn-policy, is_expired_grant}
use game_server_dashboard.Portal.Devices.Revocation.{IsOther, revoke_device_removes_peer}
use game_server_dashboard.Portal.Fixtures.{
  asked, desk, friend, no_dates, no_stamps, note, owner, permit, plex,
}
use game_server_dashboard.Portal.Frame.{IsUnchanged}
use game_server_dashboard.Portal.Limits.{limited, limited_counts, used, window_end}
use game_server_dashboard.Portal.Packs.{pack_service_allowed}
use game_server_dashboard.Portal.Packs.Catalog.{pack_service-discover}
use game_server_dashboard.Portal.Policy.Audiences.{
  audience_allows, category_allowed, discover, find_service, has_access,
}
use game_server_dashboard.Portal.Policy.Viewers.{discover_disabled, discover_public}
use game_server_dashboard.Portal.Requests.Grant.{grant, grant_checks}
use game_server_dashboard.Portal.Requests.Handlers.{date_input, find_request}
use game_server_dashboard.Portal.Requests.Machine.{FitsKind, actions, active_state, includes}
use game_server_dashboard.Portal.Requests.Moves.{
  transition_grants_access, transition_keeps_access, transition_legal, transition_once,
}
use game_server_dashboard.Portal.Requests.Rules.{includes-actions}
use game_server_dashboard.Portal.Requests.Updates.{
  fulfil, moved_requests, transition, transition_checks, transition_moves, transition_tx,
}
use game_server_dashboard.Portal.Types.{
  Audience, Request, State, access, approved, fulfilled, is_admin, state_eq,
}
use game_server_dashboard.Portal.VpnTypes.{NetworkGrant}
use game_server_dashboard.Prelude.{
  All, Result, [], arith, count_where, exists_where, false, find_where, if◌then◌else◌, inl, leb,
  ltb, none, not, ok, refl, some, subst, true, ◌+◌, ◌∷◌, ◌≡◌,
}

abbrev after_fulfil : Result Error (Unit {0}) × Db
after_fulfil = transition no_dates 100 owner 7 3 (some fulfilled) [] note [] true desk desk

-- The owner fulfils the approved request.
fulfilled_ok : after_fulfil ≡ (ok tt, after_fulfil.1)
unfolding transition transition_checks transition_tx find_request find_where exists_where
    count_where actions includes trim_space is_blank date_input fulfil grant grant_checks
    transition_moves
fulfilled_ok = refl

transition_grants_access_example : has_access after_fulfil.1 100 (some friend) 5 ≡ true
unfolding find_request find_where exists_where
transition_grants_access_example =
    transition_grants_access no_dates 100 owner friend 7 3 [] note [] true desk desk {r = asked}
      refl refl refl fulfilled_ok

transition_once_example :
    IsUnchanged after_fulfil.1
      (transition no_dates 105 owner 7 3 (some State.cancelled) [] [] [] false desk after_fulfil.1)
unfolding count_where
transition_once_example =
    transition_once no_dates 100 105 owner owner 7 3 (some fulfilled) (some State.cancelled) [] note
      [] [] [] [] true false desk desk desk (omega arith) fulfilled_ok

abbrev after_cancel : Result Error (Unit {0}) × Db
after_cancel = transition no_dates 100 friend 7 3 (some State.cancelled) [] [] [] false desk desk

cancelled_ok : after_cancel ≡ (ok tt, after_cancel.1)
unfolding transition transition_checks transition_tx find_request find_where exists_where
    count_where actions includes trim_space is_blank date_input fulfil
cancelled_ok = refl

transition_keeps_access_example : after_cancel.1.access_records ≡ desk.access_records
transition_keeps_access_example =
    transition_keeps_access no_dates 100 friend 7 3 State.cancelled [] [] [] false desk desk refl
      cancelled_ok

desk_fits : (r : Request) → find_request friend 7 desk ≡ some r → FitsKind r.kind r.state
unfolding find_request find_where exists_where
desk_fits r h = subst (λ (x : Request). FitsKind x.kind x.state) (found r h) tt
  where
    found : (q : Request) → some asked ≡ some q → asked ≡ q
    found q e = cc

transition_legal_example :
    (r : Request) × (t : State) × (find_request friend 7 desk ≡ some r)
    × (some State.cancelled ≡ some t)
    × (includes (actions r.kind r.state (is_admin friend.role)) t ≡ true)
    × FitsKind r.kind t
    × (active_state r.kind r.state ≡ true)
    × (state_eq r.state t ≡ false)
    × (after_cancel.1.requests ≡ moved_requests 100 7 3 r.state t desk.requests)
transition_legal_example =
    transition_legal no_dates 100 friend 7 3 (some State.cancelled) [] [] [] false desk desk
      desk_fits cancelled_ok

abbrev after_revoke : Result Error (Unit {0}) × Db
after_revoke = revoke_device 100 friend 4 2 desk

revoked_ok : after_revoke ≡ (ok tt, after_revoke.1)
unfolding revoke_device revoke_checks find_where
revoked_ok = refl

revoke_device_removes_peer_example : All (IsOther 4) (snapshot_peers no_stamps after_revoke.1 200)
revoke_device_removes_peer_example =
    revoke_device_removes_peer 100 200 no_stamps friend 4 2 desk revoked_ok

discover_disabled_example :
    discover desk 100 (some (record friend { enabled = false })) (some plex)
    ≡ discover desk 100 none (some plex)
discover_disabled_example =
    discover_disabled desk 100 (record friend { enabled = false }) (some plex) refl

abbrev open_desk : Db
open_desk = record desk { settings = record desk.settings { public = true } }

discover_public_example :
    discover open_desk 100 (some friend) (some (record plex { audience = Audience.public })) ≡ true
unfolding discover category_allowed audience_allows
discover_public_example =
    discover_public open_desk 100 friend (some (record plex { audience = Audience.public })) refl

pack_service-discover_example :
    pack_service_allowed desk 100 friend 5 ≡ discover desk 100 (some friend) (some plex)
unfolding find_service find_where count_where
pack_service-discover_example =
    pack_service-discover desk 100 friend refl refl 5 plex refl (omega arith) refl (inl refl)

limited_counts_example :
    let (refusal, db') = limited 100 note 10 hour desk in
    (refusal ≡ not (leb (used 100 note desk + 1) 10))
    × (used 200 note db'
        ≡ (if ltb 200 (window_end 100 note hour desk) then used 100 note desk + 1 else 0))
limited_counts_example = limited_counts 100 note 10 hour desk 200

includes-actions_example :
    FitsKind access fulfilled
    × (active_state access approved ≡ true)
    × (state_eq approved fulfilled ≡ false)
unfolding includes actions
includes-actions_example = includes-actions access approved fulfilled true tt refl

-- One permission has run out at 100 and one runs on.
abbrev permitted : Db
permitted = record desk { vpn_grants = permit ∷ record permit { id = 2; expires = at 200 } ∷ [] }

expire_vpn-policy_example :
    All (λ (g : NetworkGrant). is_expired_grant 100 g ≡ false) (expire_vpn 100 permitted).vpn_grants
    × (snapshot_peers no_stamps (expire_vpn 100 permitted) 105
        ≡ snapshot_peers no_stamps permitted 105)
expire_vpn-policy_example = expire_vpn-policy no_stamps 100 105 permitted (omega arith)
