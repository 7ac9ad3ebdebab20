-- ===== src/Vpn.antt =====
-- internal/vpn: the protocol of the portal and the gateway.
pub mod Policy
pub mod InForce
pub mod Destination
pub mod Validity
pub mod Endpoint
pub mod Routes
pub mod Ruleset
pub mod Host
pub mod Outcomes
pub mod Gateway
mod Examples
mod GatewayExamples
