-- ===== src/Portal.antt =====
-- internal/portal: the web portal.
pub mod Types
pub mod VpnTypes
pub mod Rows
pub mod Db
pub mod Policy
pub mod Requests
pub mod Frame
pub mod Accounts
pub mod Security
pub mod Mail
pub mod Admin
pub mod Limits
pub mod Packs
pub mod Devices
pub mod Network
pub mod Fixtures
mod Examples
mod AccountExamples
mod NetworkExamples
mod AdminExamples
mod SecurityExamples
mod MailExamples
