-- ===== src/Transaction/Tests.antt =====
-- Runs of the transaction engine, and its theorems at concrete inputs.
use mathlib.Core.Option.{some-injective}
use technology_library_inges.Base.{
  String, ◌≡◌, ◌≢◌, refl, sym, ap, ◌∙◌, subst, true, false, Option, none, some, List, [], ◌∷◌,
  str_eq, ok, ok-injective, starts_with, ends_with,
}
use technology_library_inges.Json.{
  Value, null, str, get, index, truthy, text_or_empty, text_of, str_of_length, update,
}
use technology_library_inges.Storage.{Bytes, memory-IsFramed}
use technology_library_inges.Samples.{
  twos, sample_sha, healthy, no_files, with_file, one_byte, two_bytes, item, plan_of, journal,
}
use technology_library_inges.Mutation.Validate.{create, Item, validate_transaction_for_mutation}
use technology_library_inges.Mutation.Validate.Targets.{Fresh}
use technology_library_inges.Mutation.Execute.{
  Report, records_verified, prewrite_abort, execute_record_mutations,
}
use technology_library_inges.Recovery.Journal.{
  rows_of, row_path, existed_before, before_sha, snapshot_of,
}
use technology_library_inges.Recovery.Execute.{execute_recovery, recovered_journal}
use technology_library_inges.Transaction.Indexes.{
  IndexBuilder, Indexes, LibraryRecord, valid, indexes_verified, build_index_plan, is_index_target,
  sorted_items,
}
use technology_library_inges.Transaction.Indexes.Contract.{Untouched}
use technology_library_inges.Transaction.Engine.{
  TransactionReport, stopped, canonical_state_verified, execute_canonical_transaction,
  post_transaction_record_paths,
}
use technology_library_inges.Transaction.Engine.Contract.{
  Committed, execute_canonical_transaction-Committed,
}
use technology_library_inges.Transaction.Engine.Contract.Frame.{
  execute_canonical_transaction_unchanged,
}
use technology_library_inges.Transaction.Engine.Contract.Restored.{
  Covers, execute_recovery-after_transaction,
}

abbrev record_at : String → LibraryRecord
record_at path = record {
  record_id = path;
  record_type = "solution";
  title = path;
  domain = "general";
  category = "general";
}

-- A builder that plans the master index alone, and one that plans an unsafe path too.
abbrev builder : IndexBuilder
builder = record {
  validate_record = λ path raw. valid (record_at path);
  casefold = λ t. t;
  planned_indexes = λ records. ("00_LIBRARY/MASTER_INDEX.md", two_bytes) ∷ [];
}

abbrev unsafe_builder : IndexBuilder
unsafe_builder = record {
  validate_record = λ path raw. valid (record_at path);
  casefold = λ t. t;
  planned_indexes =
      λ records. ("00_LIBRARY/MASTER_INDEX.md", two_bytes) ∷ ("00_LIBRARY/other.md", one_byte) ∷ [];
}

abbrev create_one : Value
create_one =
    plan_of
      (item "CREATE" "00_LIBRARY/a.md" "99_INBOX/CANDIDATES/a.md" twos null "TARGET_ABSENT" ∷ [])

abbrev library : String → Option Bytes
library = with_file "00_LIBRARY/MASTER_INDEX.md" one_byte (
    with_file "99_INBOX/CANDIDATES/a.md" two_bytes
      (with_file "99_INBOX/CANDIDATES/PRODUCTION_RECOVERY/t1/m" one_byte no_files))

record_report : Report
record_report = record {
  transaction_id = str "t1";
  state = records_verified;
  writes_completed = 1;
  verified_items = 1;
  canonical_mutation_started = true;
}

committed_report : TransactionReport
unfolding record_report
committed_report = record {
  state = canonical_state_verified;
  record_report = some record_report;
  index_report =
      some (record { state = indexes_verified; indexes = 1; updated = 1; unchanged = 0 });
  records_after = some 1;
  generated_indexes = some ("00_LIBRARY/MASTER_INDEX.md" ∷ []);
  final_verification = true;
}

run_committed :
    (execute_canonical_transaction healthy sample_sha builder create_one [] library).0
    ≡ ok (committed_report, [])
unfolding execute_canonical_transaction committed_report get index truthy text_or_empty
    str_of_length str_eq starts_with ends_with
run_committed = refl

execute_canonical_transaction-Committed_example :
    Committed healthy
      (memory-IsFramed [])
      sample_sha
      builder
      create_one
      []
      library
      (execute_canonical_transaction healthy sample_sha builder create_one [] library).1
      committed_report
execute_canonical_transaction-Committed_example =
    execute_canonical_transaction-Committed healthy (memory-IsFramed []) sample_sha builder
      create_one [] library committed_report run_committed

aborted_report : TransactionReport
aborted_report = record {
  state = stopped prewrite_abort;
  record_report = none;
  index_report = none;
  records_after = none;
  generated_indexes = none;
  final_verification = false;
}

abbrev occupied : String → Option Bytes
occupied = with_file "00_LIBRARY/a.md" one_byte library

run_aborted :
    (execute_canonical_transaction healthy sample_sha builder create_one [] occupied).0
    ≡ ok (aborted_report, "item_0_create_target_exists" ∷ [])
unfolding execute_canonical_transaction aborted_report get index truthy text_or_empty str_of_length
    str_eq starts_with
run_aborted = refl

aborted_state : aborted_report.state ≡ stopped prewrite_abort
unfolding aborted_report
aborted_state = refl

execute_canonical_transaction_unchanged_example :
    (execute_canonical_transaction healthy sample_sha builder create_one [] occupied).1 ≡ occupied
execute_canonical_transaction_unchanged_example =
    execute_canonical_transaction_unchanged healthy sample_sha builder create_one [] occupied
      ("item_0_create_target_exists" ∷ []) aborted_report run_aborted aborted_state

-- The unsafe index path is reported after the master index was written.
abbrev failed : String → Option Bytes
failed = (execute_canonical_transaction healthy sample_sha unsafe_builder create_one [] library).1

run_failed :
    (r : TransactionReport) × ((execute_canonical_transaction healthy sample_sha unsafe_builder
        create_one [] library).0
      ≡ ok (r, "unsafe_index_target:00_LIBRARY/other.md" ∷ []))
unfolding execute_canonical_transaction get index truthy text_or_empty str_of_length str_eq
    starts_with ends_with
run_failed = (_, refl)

restored : Value
restored =
    recovered_journal healthy sample_sha journal
      (record { restored = 1; removed = 1; verified = 2 })

run_restored : (execute_recovery healthy sample_sha journal true failed).0 ≡ ok (some restored, [])
unfolding execute_canonical_transaction execute_recovery restored get index truthy text_or_empty
    text_of str_of_length str_eq starts_with ends_with update
run_restored = refl

-- The journal covers the plan.
created_item : Item
created_item = record {
  action = create;
  target_path = "00_LIBRARY/a.md";
  content_path = "99_INBOX/CANDIDATES/a.md";
  content_sha256 = str twos;
  base_sha256 = null;
}

validated : validate_transaction_for_mutation create_one ≡ ok (created_item ∷ [], [])
unfolding validate_transaction_for_mutation created_item get truthy text_or_empty str_of_length
    str_eq starts_with
validated = refl

planned_files : Indexes
planned_files = ("00_LIBRARY/MASTER_INDEX.md", two_bytes) ∷ ("00_LIBRARY/other.md", one_byte) ∷ []

paths_after : post_transaction_record_paths create_one [] ≡ ok ("00_LIBRARY/a.md" ∷ [])
unfolding post_transaction_record_paths get index str_eq
paths_after = refl

planned :
    (build_index_plan unsafe_builder
      ("00_LIBRARY/a.md" ∷ [])
      (healthy.read (execute_record_mutations healthy sample_sha create_one library).1)).0
    ≡ some planned_files
unfolding build_index_plan planned_files execute_record_mutations get index truthy text_or_empty
    str_of_length str_eq starts_with ends_with
planned = refl

not_a_target : is_index_target "00_LIBRARY/other.md" ≡ false
unfolding is_index_target starts_with ends_with str_eq
not_a_target = refl

target_free : (q : String) → q ≢ "00_LIBRARY/a.md" → Fresh q (created_item ∷ [])
unfolding created_item
target_free q a = (a, tt)

planned_free :
    (q : String) → q ≢ "00_LIBRARY/MASTER_INDEX.md" → Untouched q (sorted_items planned_files)
unfolding planned_files sorted_items
planned_free q m = ((λ h e. m (sym e)), ((λ h e. cc (h, not_a_target)), tt))

plan_is :
    (paths : List String) (indexes : Indexes) (records : List LibraryRecord)
    → post_transaction_record_paths create_one [] ≡ ok paths
    → build_index_plan unsafe_builder paths
        (healthy.read (execute_record_mutations healthy sample_sha create_one library).1)
      ≡ (some indexes, records, [])
    → planned_files ≡ indexes
plan_is paths indexes records e p =
    let at =
      subst
        (λ (x : List String).
          build_index_plan unsafe_builder x
            (healthy.read (execute_record_mutations healthy sample_sha create_one library).1)
          ≡ (some indexes, records, []))
        (ok-injective (sym e ∙ paths_after)) p in
    some-injective _ _
      (sym planned ∙ ap (λ (x : Option Indexes × List LibraryRecord × List String). x.0) at)

covers : Covers healthy (memory-IsFramed []) sample_sha unsafe_builder journal create_one [] library
unfolding rows_of row_path get text_of str_eq
covers q (a, (m, _)) = (
  λ items v.
      subst (λ (x : List Item). Fresh q x)
        (ap (λ (x : List Item × List String). x.0) (ok-injective (sym validated ∙ v)))
        (target_free q a),
  λ indexes plans.
      let (paths, records, e, p) = plans in
      subst (λ (x : Indexes). Untouched q (sorted_items x)) (plan_is paths indexes records e p)
        (planned_free q m),
)

execute_recovery-after_transaction_example :
    healthy.read (execute_recovery healthy sample_sha journal true failed).1 "00_LIBRARY/a.md"
    ≡ healthy.read library "00_LIBRARY/a.md"
unfolding rows_of row_path existed_before before_sha snapshot_of execute_canonical_transaction get
    index truthy text_or_empty text_of str_of_length str_eq starts_with ends_with
execute_recovery-after_transaction_example =
    execute_recovery-after_transaction healthy (memory-IsFramed []) sample_sha unsafe_builder
      create_one journal restored [] true library covers (refl, ((one_byte, refl, refl), tt))
      run_restored "00_LIBRARY/a.md"
