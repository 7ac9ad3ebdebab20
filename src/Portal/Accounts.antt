-- ===== src/Portal/Accounts.antt =====
-- internal/portal/auth.go: accounts, invitations and recovery.
pub mod Names
pub mod Factors
pub mod Bootstrap
pub mod Tokens
pub mod Redeemed
pub mod Issued
