-- ===== src/Coordinator.antt =====
-- src/candidate_production_coordinator.py: the lease that one transaction holds on the library.
pub mod State
pub mod Drive
pub mod Transitions
mod Tests
