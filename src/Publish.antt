-- ===== src/Publish.antt =====
-- src/candidate_controlled_publish.py.
pub mod Seal
pub mod Restored
pub mod Release
mod Tests
mod ReleaseTests
