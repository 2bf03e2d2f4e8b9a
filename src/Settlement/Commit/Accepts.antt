-- ===== src/Settlement/Commit/Accepts.antt =====
-- A receipt of src/candidate_transaction_receipt.py before the commit of
-- src/candidate_transaction_commit_engine.py.
use technology_library_inges.Base.{
  String, ◌≡◌, refl, ap, true, false, not, Option, some, List, [], ◌∷◌, is_empty, Passes,
  Passes-failures, ok, str_eq,
}
use technology_library_inges.Json.{
  Value, get, update, is_dict, is_true, in_set, nonempty_str, value_eq, find_field,
}
use technology_library_inges.Storage.{Bytes, Sha256}
use technology_library_inges.Settlement.Receipt.{receipt_of, build_receipt}
use technology_library_inges.Settlement.Receipt.Verified.{build_receipt-Receipted}
use technology_library_inges.Settlement.Commit.{
  commit_checks, terminal_fields, build_committed_journal,
}

-- A journal that can be committed.
pub record IsReady (journal : Value) : Type 0 where
  pub a_dict : is_dict journal ≡ true
  pub in_commit :
      in_set (get "state" journal) ("VERIFYING" ∷ "COMMITTED_PENDING_RECEIPT" ∷ []) ≡ ok true
  pub past_boundary : is_true (get "canonical_write_performed" journal) ≡ true
  pub with_snapshots : is_true (get "snapshots_verified" journal) ≡ true
  pub with_preconditions :
      is_true (get "live_preconditions_verified_under_ownership" journal) ≡ true
  pub has_transaction : nonempty_str (get "transaction_id" journal) ≡ true
  pub has_batch : nonempty_str (get "batch_id" journal) ≡ true
  pub has_owner : nonempty_str (get "owner" journal) ≡ true
  pub has_path : nonempty_str (get "journal_path" journal) ≡ true

module _ (sha256 : Sha256) (read : String → Option Bytes) where
  receipt-Passes :
      (plan : Value) (before after : Bytes) (rows : List Value) (journal : Value) (raw : Bytes)
      → IsReady journal
      → value_eq (get "transaction_id" plan) (get "transaction_id" journal) ≡ true
      → is_empty raw ≡ false
      → Passes (commit_checks journal (receipt_of sha256 read plan before after rows) raw)
  unfolding commit_checks receipt_of get find_field str_eq
  receipt-Passes plan before after rows journal raw ready same filled = (
    ready.in_commit,
    (
      ap ok ready.past_boundary,
      (
        ap ok ready.with_snapshots,
        (
          ap ok ready.with_preconditions,
          (
            ap ok ready.has_transaction,
            (
              ap ok ready.has_batch,
              (
                ap ok ready.has_owner,
                (
                  ap ok ready.has_path,
                  (refl, (refl, (ap ok same, (refl, (ap (λ b. ok (not b)) filled, tt))))),
                ),
              ),
            ),
          ),
        ),
      ),
    ),
  )

  receipt_of-is_dict :
      (plan : Value) (before after : Bytes) (rows : List Value)
      → is_dict (receipt_of sha256 read plan before after rows) ≡ true
  unfolding receipt_of
  receipt_of-is_dict plan before after rows = refl

  build-accepts :
      (journal receipt : Value) (raw : Bytes)
      → is_dict journal ≡ true
      → is_dict receipt ≡ true
      → Passes (commit_checks journal receipt raw)
      → build_committed_journal sha256 journal receipt raw
        ≡ ok (some (update journal (terminal_fields receipt (sha256 raw))), [])
  unfolding build_committed_journal
  build-accepts journal receipt raw d r passes =
      rw d (rw r (rw (Passes-failures (commit_checks journal receipt raw) passes) refl))

  -- The receipt that `build_receipt` returns is accepted: a journal that can be committed, of the same
  -- transaction, becomes a committed journal, if the bytes that the receipt is stored as are not
  -- empty, whatever else they are.
  pub build_committed_journal-receipt :
      (plan : Value) (before after : Bytes) (r journal : Value) (raw : Bytes)
      → build_receipt sha256 read plan before after ≡ ok (some r, [])
      → IsReady journal
      → value_eq (get "transaction_id" plan) (get "transaction_id" journal) ≡ true
      → is_empty raw ≡ false
      → build_committed_journal sha256 journal r raw
        ≡ ok (some (update journal (terminal_fields r (sha256 raw))), [])
  build_committed_journal-receipt plan before after r journal raw h ready same filled =
      let receipted = build_receipt-Receipted sha256 read plan before after r h in
      let (items, listed, settled, (rows, long, is)) = receipted.1 in
      rw is (
        build-accepts journal _ raw ready.a_dict (receipt_of-is_dict plan before after rows)
          (receipt-Passes plan before after rows journal raw ready same filled))
