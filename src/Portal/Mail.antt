-- ===== src/Portal/Mail.antt =====
-- internal/portal/email.go: the mail queue and verified addresses. `parse_address` is
-- mail.ParseAddress, as the address that it finds; sending is a parameter.
pub mod Queue
pub mod Addresses
pub mod Operations
pub mod Delivery
pub mod Outcomes
pub mod Waiting
pub mod Settled
