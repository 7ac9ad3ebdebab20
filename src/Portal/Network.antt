-- ===== src/Portal/Network.antt =====
-- internal/portal/vpn.go: the desk where members enrol devices and ask for network permissions,
-- and administrators decide.
pub mod Enrolment
pub mod Requests
pub mod Decisions
pub mod Targets
pub mod Control
pub mod Views
pub mod Disclosure
pub mod Legality
pub mod Addresses
