-- ===== src/Go.antt =====
-- The parts of Go's standard library that the modelled code computes with.
pub mod Text
pub mod Time
pub mod Numbers
pub mod Prefixes
