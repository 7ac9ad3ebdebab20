-- ===== src/Portal/Requests.antt =====
-- internal/portal/requests.go: the request desk.
pub mod Machine
pub mod Grant
pub mod Handlers
pub mod Updates
pub mod Rules
pub mod Outcome
pub mod Effects
pub mod Stale
pub mod Moves
pub mod Inbox
pub mod Shown
pub mod Access
