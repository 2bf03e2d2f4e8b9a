-- ===== src/Settlement.antt =====
-- After a transaction: the receipt of src/candidate_transaction_receipt.py, and the committed journal
-- of src/candidate_transaction_commit_engine.py.
pub mod Receipt
pub mod Commit
mod Tests
