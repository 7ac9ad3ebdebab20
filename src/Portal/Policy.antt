-- ===== src/Portal/Policy.antt =====
-- internal/portal/policy.go: who may see what.
pub mod Audiences
pub mod Viewers
pub mod Links
pub mod Pages
pub mod Withheld
