-- ===== src/Settlement/Tests.antt =====
-- A receipt, the journal that commits it, and the theorems at these inputs.
use technology_library_inges.Base.{
  String, ◌≡◌, refl, true, false, Option, none, some, [], ◌∷◌, str_eq, ok, starts_with, decimal,
}
use technology_library_inges.Json.{
  pos, Value, bool, int, str, arr, obj, fields, list_items, get, update, find_field, str_of_length,
  value_eq,
}
use technology_library_inges.Storage.{Bytes}
use technology_library_inges.Samples.{
  ones, twos, sample_sha, healthy, no_files, with_file, one_byte, two_bytes,
}
use technology_library_inges.Recovery.Execute.{execute_recovery}
use technology_library_inges.Recovery.Execute.Refusal.{Refused}
use technology_library_inges.Settlement.Receipt.{receipt_of, build_receipt}
use technology_library_inges.Settlement.Receipt.Verified.{Receipted, build_receipt-Receipted}
use technology_library_inges.Settlement.Commit.{build_committed_journal, terminal_fields}
use technology_library_inges.Settlement.Commit.Contract.{Terminal, build_committed_journal-Terminal}
use technology_library_inges.Settlement.Commit.Accepts.{IsReady, build_committed_journal-receipt}

abbrev id : String
id = "0123456789abcdef0123"

abbrev plan : Value
plan = obj (
    fields (
      ("schema_version", int (pos 1))
      ∷ ("transaction_plan_version", str "0.2.0")
      ∷ ("transaction_id", str "t1")
      ∷ ("canonical_write_performed", bool false)
      ∷ ("master_index_sha256", str ones)
      ∷ (
        "items",
        arr (
            list_items (
              obj (
                fields (
                  ("lane", str "UPDATE")
                  ∷ ("action", str "UPDATE")
                  ∷ ("record_id", str id)
                  ∷ ("target_path", str "00_LIBRARY/a.md")
                  ∷ ("content_path", str "99_INBOX/CANDIDATES/a.md")
                  ∷ ("content_sha256", str twos)
                  ∷ ("candidate_id", str id)
                  ∷ []))
              ∷ [])),
      )
      ∷ []))

abbrev files : String → Option Bytes
files =
    with_file "00_LIBRARY/a.md" two_bytes (with_file "99_INBOX/CANDIDATES/a.md" two_bytes no_files)

abbrev row : Value
row = obj (
    fields (
      ("lane", str "UPDATE")
      ∷ ("action", str "UPDATE")
      ∷ ("record_id", str id)
      ∷ ("target_path", str "00_LIBRARY/a.md")
      ∷ ("content_sha256", str twos)
      ∷ ("candidate_id", str id)
      ∷ []))

receipt : Value
receipt = receipt_of sample_sha files plan one_byte two_bytes (row ∷ [])

run_receipt : build_receipt sample_sha files plan one_byte two_bytes ≡ ok (some receipt, [])
unfolding build_receipt receipt get find_field str_of_length str_eq starts_with
run_receipt = refl

-- The target still holds other bytes.
run_mismatch :
    build_receipt sample_sha (with_file "00_LIBRARY/a.md" one_byte files) plan one_byte two_bytes
    ≡ ok (none, "item_0_target_bytes_mismatch" ∷ [])
unfolding build_receipt get find_field str_of_length str_eq starts_with decimal
run_mismatch = refl

build_receipt-Receipted_example : Receipted sample_sha files plan one_byte two_bytes receipt
build_receipt-Receipted_example =
    build_receipt-Receipted sample_sha files plan one_byte two_bytes receipt run_receipt

abbrev journal : Value
journal = obj (
    fields (
      ("state", str "VERIFYING")
      ∷ ("canonical_write_performed", bool true)
      ∷ ("snapshots_verified", bool true)
      ∷ ("live_preconditions_verified_under_ownership", bool true)
      ∷ ("transaction_id", str "t1")
      ∷ ("batch_id", str "b1")
      ∷ ("owner", str "w1")
      ∷ ("journal_path", str "99_INBOX/j.json")
      ∷ []))

ready : IsReady journal
unfolding get find_field str_eq
ready = record {
  a_dict = refl;
  in_commit = refl;
  past_boundary = refl;
  with_snapshots = refl;
  with_preconditions = refl;
  has_transaction = refl;
  has_batch = refl;
  has_owner = refl;
  has_path = refl;
}

same_transaction : value_eq (get "transaction_id" plan) (get "transaction_id" journal) ≡ true
unfolding get find_field str_eq value_eq
same_transaction = refl

committed : Value
committed = update journal (terminal_fields receipt (sample_sha one_byte))

build_committed_journal-receipt_example :
    build_committed_journal sample_sha journal receipt one_byte ≡ ok (some committed, [])
unfolding committed
build_committed_journal-receipt_example =
    build_committed_journal-receipt sample_sha files plan one_byte two_bytes receipt journal
      one_byte run_receipt ready same_transaction refl

run_committed :
    build_committed_journal sample_sha journal receipt one_byte ≡ ok (some committed, [])
unfolding build_committed_journal committed receipt receipt_of get find_field str_eq value_eq
run_committed = refl

build_committed_journal-Terminal_example :
    Terminal sample_sha journal receipt one_byte committed
    × (get "receipt_sha256" committed ≡ str (sample_sha one_byte))
    × Refused healthy no_files (execute_recovery healthy sample_sha committed true no_files)
build_committed_journal-Terminal_example =
    build_committed_journal-Terminal sample_sha healthy journal receipt one_byte committed true
      no_files run_committed
