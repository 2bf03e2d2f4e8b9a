-- ===== src/Lib.antt =====
-- A verification library for the canonical write path of the Technology Library Ingestor: how a
-- planned transaction becomes records and index files under 00_LIBRARY, what protects it (the
-- lease, the gates, the journal) and how it is undone.
--
-- Parts, and the files that model them (paths from the repository's root):
--
-- - Planning.*: src/candidate_transaction_plan.py, which makes the transaction that the other parts
--   carry out, with parse_candidate_manifest of src/candidate_publish_index.py and derive_target of
--   src/library_publish.py. Names has the regular expressions as Boolean tests, Lanes the two
--   lanes of items, Plan the plan of both.
-- - Mutation.*: src/candidate_canonical_record_mutation.py. validate_transaction_for_mutation,
--   preflight_record_mutations and execute_record_mutations keep their names; put_item is the
--   write with its readback, mutate_item one item, mutate the loop.
-- - Transaction.Indexes: src/candidate_canonical_index_rebuild.py. Transaction.Engine:
--   src/candidate_canonical_transaction_engine.py, which calls Mutation and Indexes.
-- - Recovery.*: src/candidate_production_recovery_engine.py. Journal is the validation and the
--   rows, Execute the preconditions, the rollback and execute_recovery.
-- - Coordinator.*: src/candidate_production_coordinator.py with its drive lease. State is the
--   document, Drive the backend (_drive_ls, _drive_read_state, _drive_ensure_initialized,
--   _drive_prepare, _drive_push), Transitions acquire, the three releases and
--   mark_canonical_write_started. An operation answers its error codes and the new drive; the
--   token and the state that acquire returns as well are dropped, as an empty list of codes says
--   that the lease is held.
-- - Settlement.*: Receipt is src/candidate_transaction_receipt.py, Commit is
--   src/candidate_transaction_commit_engine.py.
-- - Gates.*: Policies is src/candidate_remote_coordination_policy.py and
--   src/candidate_remote_recovery_policy.py, Acceptance src/candidate_batch_editorial_acceptance.py,
--   Readiness src/candidate_executor_readiness.py, Authorization
--   src/candidate_publish_authorization.py.
-- - Prewrite.*: src/candidate_transaction_prewrite_arm.py. Capture reads the state before the
--   transaction, Arm builds the journal, persists it with its snapshots, and aborts it.
-- - Publish.*: src/candidate_controlled_publish.py. Seal computes the expected digests, Release is the
--   recovery with the release of the lease, over the canonical writer that it is given; a raise of the
--   writer or of canonical_delete ends it. Restored composes the steps of a publication.
-- - Restart.*: src/candidate_production_recover.py. Classify chooses the action for an interrupted
--   publication, Verify reads the canonical state again after a recovery.
-- - Reconcile.*: src/candidate_committed_reconciliation.py. Proof is the check of a committed journal
--   against its receipt and the canonical bytes, Release the release of the lease that it allows,
--   Restart the route of a restart.
-- - Json, Paths, Storage and Samples carry what these share: JSON values with Python's equality
--   and truth, PurePosixPath, a storage, and sample data.
--
-- How state and errors are modelled. A storage is a record of a state type with read, write and
-- delete; an operation takes the state and returns its answer with the new state. IsFramed says
-- that a write or delete of one path leaves the other paths alone, IsReliable that operations
-- succeed; only the theorems that name them use them. A Python exception is the value raised of
-- Result, so an operation that raises after a write still has its storage. Sets of error codes are
-- sorted lists without duplicates, as the code returns them.
--
-- Bounds and fuel. Every loop is structural recursion over the list that the code iterates. Only
-- the decimal digits of an index use fuel: n + 1 steps for n, and a number has no more digits.
--
-- Parameters. SHA-256, the JSON encoders and parser, the UTF-8 test, the coordinator that
-- Reconcile.Release calls, the canonical writer of Publish.Release, rclone (a drive file that reads and writes), the record
-- parser and index renderer of src/library_index_build.py and str.casefold
-- are parameters. A read does not change the storage.
--
-- Not modelled. JSON numbers are integers. str() of a list or an object keeps only its brackets:
-- the code tests the beginning of such texts, puts them into an error code, or sorts rows by them
-- before it rejects them. The
-- git backend of the coordinator, the command lines (main), the ingest pipelines, the language-
-- model stages and the fixtures are left out: they are input and output around the modelled
-- functions.
pub mod Base
pub mod Json
pub mod Paths
pub mod Planning
pub mod Prewrite
pub mod Publish
pub mod Storage
pub mod Mutation
pub mod Recovery
pub mod Reconcile
pub mod Restart
pub mod Samples
pub mod Coordinator
pub mod Transaction
pub mod Settlement
pub mod Gates
