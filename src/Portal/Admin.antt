-- ===== src/Portal/Admin.antt =====
-- internal/portal/admin.go: the administration forms. A form's numbers stand as the numbers that
-- `number` reads, and a field of a fixed choice is `none` for a text that is no choice.
pub mod Followups
pub mod Checks
pub mod Deliveries
pub mod Destruction
pub mod Editors
pub mod ServiceForms
pub mod Services
pub mod Settings
pub mod Hidden
pub mod Members
pub mod Access
pub mod Usable
pub mod Cuts
