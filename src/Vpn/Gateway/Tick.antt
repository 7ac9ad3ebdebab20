-- ===== src/Vpn/Gateway/Tick.antt =====
-- internal/vpn/gateway.go: `Tick`.
use game_server_dashboard.Go.Text.{Text, is_blank, text_eq}
use game_server_dashboard.Go.Time.{at, unset}
use game_server_dashboard.Prelude.{
  Bool, List, Option, Result, append_row, false, if◌then◌else◌, leb, none, not, ok, require, true,
  ℕ, ◌&&◌, ◌==◌, ◌>>=◌, ◌>>◌, ◌||◌,
}
use game_server_dashboard.Vpn.Gateway.{Visit, apply, has_token, now_of}
use game_server_dashboard.Vpn.Host.{Failure, Machine, World, check}
use game_server_dashboard.Vpn.Policy.{Peer, Snapshot}
use game_server_dashboard.Vpn.Validity.{validate}

module _ (m : Machine) (parse_time : Text → Option ℕ) (hash_of : List Peer → Text)
    (marshal : Snapshot → Text) (unmarshal : Text → Option Snapshot) where
  -- Nothing is applied, or the first rule of what is applied has run out.
  unfoldable pub is_due : World → Bool
  is_due w =
      w.has_policy
      && (is_blank w.applied || (elim w.applied_until [
        | unset ↦ false
        | at t ↦ leb t (now_of m parse_time hash_of marshal unmarshal w)
      ]))

  unfoldable pub renew : World → Result Failure World
  unfolding is_due apply
  renew w = if is_due w then apply m parse_time hash_of marshal unmarshal w else ok w

  -- The policy that the portal offers, where it is valid.
  unfoldable pub offered : Visit → World → Result Failure Snapshot
  unfolding has_token
  offered v w = do
    answer ←
        require (if has_token v.token then v.offer else none)
          (record { message = "portal unavailable; existing policy retains its expiry"; world = w })
    check (answer.0 == 200) "portal did not provide a policy" w
    next ← require answer.1 (record { message = "invalid policy response"; world = w })
    check (validate parse_time hash_of next) "invalid policy" w
    ok next

  -- A policy whose revision is not the one applied takes its place.
  unfoldable pub adopt : Snapshot → World → Result Failure World
  unfolding apply
  adopt next w =
      if not w.has_policy || not (text_eq next.revision w.applied)
      then apply m parse_time hash_of marshal unmarshal
          (record w { desired = next; has_policy = true })
      else ok w

  unfoldable pub acknowledge : Visit → World → Result Failure World
  unfolding has_token
  acknowledge v w = do
    check (has_token v.token_again) "gateway applied policy; acknowledgment pending" w
    let w1 = record w {
      acks = append_row w.acks (record { revision = w.applied; public_key = w.public_key });
    }
    status ←
        require v.ack_status
          (record { message = "gateway applied policy; acknowledgment pending"; world = w1 })
    check (status == 204) "gateway acknowledgment rejected" w1
    ok w1

  -- Tick
  unfoldable pub tick : Visit → World → Result Failure World
  unfolding renew offered adopt acknowledge
  tick v w = do w1 ← renew w; next ← offered v w1; w2 ← adopt next w1; acknowledge v w2
