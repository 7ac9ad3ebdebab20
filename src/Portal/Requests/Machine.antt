-- ===== src/Portal/Requests/Machine.antt =====
-- internal/portal/requests.go: the states of a request and the moves that each side may make.
use game_server_dashboard.Prelude.{Bool, false, not, ◌||◌, List, [], ◌∷◌, if◌then◌else◌}
use game_server_dashboard.Portal.Types.{
  Kind, access, support, State, pending, needs_information, approved, fulfilled, denied, cancelled,
  opened, waiting_for_member, resolved, state_eq,
}

-- activeState
unfoldable pub active_state : Kind → State → Bool
active_state access s = state_eq s pending || state_eq s needs_information || state_eq s approved
active_state support s = state_eq s opened || state_eq s waiting_for_member

admin_access_actions : State → List State
admin_access_actions pending = needs_information ∷ approved ∷ denied ∷ cancelled ∷ []
admin_access_actions needs_information = pending ∷ approved ∷ denied ∷ cancelled ∷ []
admin_access_actions approved = needs_information ∷ fulfilled ∷ denied ∷ cancelled ∷ []
admin_access_actions _ = []

-- actions: the targets that a member or an administrator may choose.
unfoldable pub actions : Kind → State → Bool → List State
unfolding active_state admin_access_actions
actions kind s by_admin =
    if not (active_state kind s) then [] else if not by_admin then cancelled ∷ [] else elim kind [
      | support ↦
          if state_eq s opened
          then waiting_for_member ∷ resolved ∷ cancelled ∷ []
          else opened ∷ resolved ∷ cancelled ∷ []
      | access ↦ admin_access_actions s
    ]

unfoldable pub includes : List State → State → Bool
includes [] v = false
includes (s ∷ ss) v = state_eq s v || includes ss v

-- The CHECK constraint of `requests`: the states of each kind.
abbrev pub FitsKind : Kind → State → Type 0
FitsKind access opened = ⊥
FitsKind access waiting_for_member = ⊥
FitsKind access resolved = ⊥
FitsKind access _ = Unit {0}
FitsKind support opened = Unit {0}
FitsKind support waiting_for_member = Unit {0}
FitsKind support resolved = Unit {0}
FitsKind support cancelled = Unit {0}
FitsKind support _ = ⊥
