-- ===== src/Portal/Security.antt =====
-- internal/portal/security.go: authenticator codes, security steps, login methods and recovery.
pub mod Codes
pub mod Challenges
pub mod Methods
pub mod Recovery
pub mod Replay
pub mod Kept
