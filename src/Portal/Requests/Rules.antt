-- ===== src/Portal/Requests/Rules.antt =====
-- What the moves of internal/portal/requests.go guarantee.
use game_server_dashboard.Portal.Requests.Machine.{active_state, actions, includes, FitsKind}
use game_server_dashboard.Prelude.{◌≡◌, Bool, true, false, arith}
use game_server_dashboard.Portal.Types.{
  Kind, access, support, State, pending, needs_information, approved, opened, waiting_for_member,
  state_eq,
}

-- A target that the table of actions offers for a state that fits the kind fits it too and differs
-- from the state, which is open.
pub includes-actions :
    (kind : Kind) (s t : State) (by_admin : Bool)
    → FitsKind kind s
    → includes (actions kind s by_admin) t ≡ true
    → FitsKind kind t × (active_state kind s ≡ true) × (state_eq s t ≡ false)
unfolding includes actions active_state
includes-actions access pending t b f h = ground arith
includes-actions access needs_information t b f h = ground arith
includes-actions access approved t b f h = ground arith
includes-actions access _ t b f h = ground arith
includes-actions support opened t b f h = ground arith
includes-actions support waiting_for_member t b f h = ground arith
includes-actions support _ t b f h = ground arith
