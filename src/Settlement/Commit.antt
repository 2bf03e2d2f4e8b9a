-- ===== src/Settlement/Commit.antt =====
-- src/candidate_transaction_commit_engine.py: the terminal journal.
pub mod Contract
pub mod Accepts
use technology_library_inges.Base.{
  ℕ, String, ◌≡◌, refl, Bool, true, false, not, ◌&&◌, ◌||◌, Option, none, some, List, [], ◌∷◌,
  if◌then◌else◌, is_empty, sorted_set, Check, plain, failures, Result, ok, raised, ◌>>=◌,
}
use technology_library_inges.Json.{
  Value, bool, str, get, update, is_dict, is_true, in_set, eq_str, nonempty_str, value_eq,
}
use technology_library_inges.Storage.{Bytes, Sha256}

abbrev pub commit_engine_version : String
commit_engine_version = "0.1.0"

abbrev pub Answer : Type 0
Answer = Result (Option Value × List String)

pub commit_checks : Value → Value → Bytes → List Check
commit_checks journal receipt raw =
    (
      in_set (get "state" journal) ("VERIFYING" ∷ "COMMITTED_PENDING_RECEIPT" ∷ []),
      "journal_not_commit_ready",
    )
    ∷ plain (is_true (get "canonical_write_performed" journal)) "journal_write_boundary_not_crossed"
    ∷ plain (is_true (get "snapshots_verified" journal)) "journal_snapshots_not_verified"
    ∷ plain (is_true (get "live_preconditions_verified_under_ownership" journal))
        "journal_live_preconditions_not_verified"
    ∷ plain (nonempty_str (get "transaction_id" journal)) "journal_transaction_id"
    ∷ plain (nonempty_str (get "batch_id" journal)) "journal_batch_id"
    ∷ plain (nonempty_str (get "owner" journal)) "journal_owner"
    ∷ plain (nonempty_str (get "journal_path" journal)) "journal_path"
    ∷ plain (eq_str (get "state" receipt) "VERIFIED_COMMITTED_STATE") "receipt_state"
    ∷ plain (is_true (get "candidate_settlement_eligible" receipt))
        "receipt_not_settlement_eligible"
    ∷ plain (value_eq (get "transaction_id" receipt) (get "transaction_id" journal))
        "receipt_transaction_mismatch"
    ∷ plain (is_true (get "verification_only" receipt)) "receipt_verification_flag"
    ∷ plain (not (is_empty raw)) "receipt_bytes_missing"
    ∷ []

-- What `terminal.update` writes.
pub terminal_fields : Value → String → List (String × Value)
terminal_fields receipt digest =
    ("commit_engine_version", str commit_engine_version)
    ∷ ("state", str "COMMITTED")
    ∷ ("receipt_sha256", str digest)
    ∷ ("receipt_state", get "state" receipt)
    ∷ ("candidate_settlement_eligible", bool true)
    ∷ ("coordinator_release_allowed", bool true)
    ∷ ("safe_abort_verified", bool false)
    ∷ ("canonical_write_performed", bool true)
    ∷ []

module _ (sha256 : Sha256) where
  terminal : Value → Value → Bytes → List String → Option Value × List String
  terminal journal receipt raw (code ∷ codes) = (none, sorted_set (code ∷ codes))
  terminal journal receipt raw [] =
      (some (update journal (terminal_fields receipt (sha256 raw))), [])

  unfoldable pub build_committed_journal : Value → Value → Bytes → Answer
  unfolding terminal commit_checks terminal_fields failures sorted_set
  build_committed_journal journal receipt raw =
      if not (is_dict journal)
      then ok (none, "journal_invalid" ∷ [])
      else if not (is_dict receipt)
      then ok (none, "receipt_invalid" ∷ [])
      else (do
        codes ← failures (commit_checks journal receipt raw)
        ok (terminal journal receipt raw codes))
