-- ===== src/Planning.antt =====
-- The builders of transaction plans.
pub mod Names
pub mod Manifest
pub mod Items
pub mod Lanes
pub mod Plan
mod Tests
