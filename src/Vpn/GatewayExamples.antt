-- ===== src/Vpn/GatewayExamples.antt =====
-- The theorems of the gateway on a machine on which all calls succeed.
use game_server_dashboard.Go.Text.{Text, is_blank, text, text_eq}
use game_server_dashboard.Go.Time.{unset}
use game_server_dashboard.Prelude.{
  List, Option, [], arith, false, inl, none, ok, refl, some, true, ℕ, ◌∷◌, ◌≡◌,
}
use game_server_dashboard.Vpn.Destination.{repeat}
use game_server_dashboard.Vpn.Gateway.{
  Visit, apply, deny_all, enable, has_token, install, no_policy, persist,
}
use game_server_dashboard.Vpn.Gateway.Acknowledged.{IsAcknowledged, tick_acknowledges}
use game_server_dashboard.Vpn.Gateway.InForce.{IsHonest}
use game_server_dashboard.Vpn.Gateway.Reached.{
  at_once, reached-IsHonest, restarted, started, then_step,
}
use game_server_dashboard.Vpn.Gateway.Start.{init}
use game_server_dashboard.Vpn.Gateway.Tick.{acknowledge, adopt, is_due, offered, renew, tick}
use game_server_dashboard.Vpn.Host.{
  Machine, World, atomic_file, command, execute, read_file, saved, world_of,
}
use game_server_dashboard.Vpn.Policy.{Peer, Snapshot, active_peers, active_snapshot}
use game_server_dashboard.Vpn.Ruleset.{ruleset_text, ruleset_text-active}
use game_server_dashboard.Vpn.Validity.{check_peers, validate}

abbrev gateway_key : Text
gateway_key = text "QUFBQUFBQUFBQUFBQUFBQUFBQUFBQUFBQUFBQUFBQUE="

abbrev working : Machine
working = record {
  run = λ _ _. some gateway_key;
  stored = λ _. saved;
  readable = λ _. true;
  clock = λ n. n;
}

abbrev fresh : World
fresh = record {
  calls = 0;
  port = 51820;
  public_key = [];
  desired = no_policy;
  applied = [];
  applied_until = unset;
  has_policy = false;
  loaded = [];
  loaded_call = 0;
  peers = [];
  server_key = some gateway_key;
  policy_file = none;
  config_file = none;
  acks = [];
}

abbrev no_times : Text → Option ℕ
no_times _ = none

abbrev one_hash : List Peer → Text
one_hash _ = 97 ∷ []

abbrev to_text : Snapshot → Text
to_text s = s.revision

abbrev of_text : Text → Option Snapshot
of_text _ = none

abbrev empty_policy : Snapshot
empty_policy = record { revision = 97 ∷ []; peers = [] }

abbrev token_text : Text
token_text = repeat 64 97

abbrev visit : Visit
visit = record {
  token = some token_text;
  offer = some (200, some empty_policy);
  token_again = some token_text;
  ack_status = some 204;
}

abbrev after_tick : World
after_tick = world_of (tick working no_times one_hash to_text of_text visit fresh)

ticked_ok : tick working no_times one_hash to_text of_text visit fresh ≡ ok after_tick
unfolding tick renew is_due offered has_token adopt validate check_peers text_eq apply install
    persist atomic_file deny_all execute command enable read_file active_snapshot active_peers
    acknowledge repeat
ticked_ok = refl

tick_acknowledges_example :
    IsAcknowledged working no_times one_hash to_text of_text visit after_tick
unfolding is_blank
tick_acknowledges_example =
    tick_acknowledges working no_times one_hash to_text of_text (λ _. refl) visit fresh (inl refl)
      ticked_ok

reached-IsHonest_example : IsHonest working no_times one_hash to_text of_text (
    world_of (
      init working no_times one_hash to_text of_text
        (restarted working no_times one_hash to_text of_text fresh)))
reached-IsHonest_example =
    reached-IsHonest working no_times one_hash to_text of_text fresh
      (world_of (
        init working no_times one_hash to_text of_text
          (restarted working no_times one_hash to_text of_text fresh)))
      refl (then_step at_once (started fresh))

ruleset_text-active_example :
    ruleset_text no_times 20 (active_snapshot no_times one_hash 10 empty_policy)
    ≡ ruleset_text no_times 20 empty_policy
ruleset_text-active_example = ruleset_text-active no_times one_hash 10 20 empty_policy (omega arith)
