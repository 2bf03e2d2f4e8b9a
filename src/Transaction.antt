-- ===== src/Transaction.antt =====
-- The canonical transaction: src/candidate_canonical_index_rebuild.py and
-- src/candidate_canonical_transaction_engine.py.
pub mod Indexes
pub mod Engine
mod Tests
