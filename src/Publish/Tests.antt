-- ===== src/Publish/Tests.antt =====
-- Runs of the arming of a transaction and of its recovery, and their theorems at concrete inputs.
use mathlib.Core.Option.{some-injective}
use technology_library_inges.Base.{
  String, ◌≡◌, ◌≢◌, refl, sym, ap, ◌∙◌, subst, true, false, Option, none, some, List, [], ◌∷◌,
  if◌then◌else◌, str_eq, str_eq-false, All, Result, ok, raised, ok-injective, starts_with,
  ends_with,
}
use technology_library_inges.Json.{
  Value, null, bool, str, get, index, truthy, text_or_empty, text_of, str_of_length, update,
  set_key, find_field, value_eq,
}
use technology_library_inges.Storage.{Bytes, memory-IsFramed}
use technology_library_inges.Samples.{
  ones, twos, sample_sha, healthy, no_files, with_file, one_byte, two_bytes, item, plan_of,
}
use technology_library_inges.Coordinator.Drive.{Codec}
use technology_library_inges.Recovery.Journal.{rows_of, row_path, snapshot_of}
use technology_library_inges.Recovery.Execute.{execute_recovery}
use technology_library_inges.Transaction.Indexes.{IndexBuilder, Indexes, LibraryRecord, valid}
use technology_library_inges.Transaction.Indexes.{build_index_plan, sorted_items}
use technology_library_inges.Transaction.Indexes.Contract.{Untouched}
use technology_library_inges.Transaction.Engine.{
  TransactionReport, items_at, plan_items, execute_canonical_transaction,
  post_transaction_record_paths,
}
use technology_library_inges.Transaction.Engine.Contract.Restored.{Covers}
use technology_library_inges.Mutation.Validate.{create, Item, validate_transaction_for_mutation}
use technology_library_inges.Mutation.Validate.Targets.{Fresh}
use technology_library_inges.Mutation.Execute.{execute_record_mutations}
use technology_library_inges.Transaction.Engine.Contract.Outside.{
  execute_canonical_transaction-outside,
}
use technology_library_inges.Prewrite.Capture.{Captured, capture_canonical_state, recovery_prefix}
use technology_library_inges.Prewrite.Arm.{
  build_prepared_journal, persist_and_verify_recovery, mark_aborted_prewrite, item_rows, index_rows,
}
use technology_library_inges.Prewrite.Arm.Snapshots.{HasSnapshot, Agree}
use technology_library_inges.Prewrite.Arm.Verified.{HasTargets}
use technology_library_inges.Prewrite.Arm.Persisted.{Armed, Listed}
use technology_library_inges.Prewrite.Arm.Armed.{persist_and_verify_recovery-Armed}
use technology_library_inges.Prewrite.Arm.Frame.{prewrite_keeps_outside}
use technology_library_inges.Publish.Restored.{started, publish_recovers}
use technology_library_inges.Publish.Seal.Truthful.{
  Agrees, SameContents, bind_expected_post_hashes-truthful,
}
use technology_library_inges.Publish.Seal.{bind_expected_post_hashes}

abbrev record_at : String → LibraryRecord
record_at path = record {
  record_id = path;
  record_type = "solution";
  title = path;
  domain = "general";
  category = "general";
}

abbrev builder : IndexBuilder
builder = record {
  validate_record = λ path raw. valid (record_at path);
  casefold = λ t. t;
  planned_indexes = λ records. ("00_LIBRARY/MASTER_INDEX.md", two_bytes) ∷ [];
}

abbrev created : Value
created = item "CREATE" "00_LIBRARY/a.md" "99_INBOX/CANDIDATES/a.md" twos null "TARGET_ABSENT"

abbrev transaction : Value
transaction =
    update (plan_of (created ∷ []))
      (("finalize_batch_id", str "b1") ∷ ("master_index_sha256", str ones) ∷ [])

abbrev library : String → Option Bytes
library =
    with_file "00_LIBRARY/MASTER_INDEX.md" one_byte
      (with_file "99_INBOX/CANDIDATES/a.md" two_bytes no_files)

abbrev run_root : String
run_root = "99_INBOX/CANDIDATES/PRODUCTION_RECOVERY/t1/w1"

abbrev text_bytes : String → Bytes
text_bytes path = if str_eq path "00_LIBRARY/MASTER_INDEX.md" then one_byte else two_bytes

before : Captured
before = ("00_LIBRARY/MASTER_INDEX.md", some one_byte) ∷ ("00_LIBRARY/a.md", none) ∷ []

captured : capture_canonical_state (healthy.read library) transaction ≡ ok before
unfolding capture_canonical_state before get index update str_eq starts_with
captured = refl

abbrev value_of : Result Value → Value
value_of (ok v) = v
value_of (raised x) = null

prepared : Value
prepared = value_of (
    build_prepared_journal sample_sha text_bytes transaction one_byte one_byte one_byte "w1"
      run_root before)

built :
    build_prepared_journal sample_sha text_bytes transaction one_byte one_byte one_byte "w1"
      run_root before
    ≡ ok prepared
unfolding build_prepared_journal prepared before get index update str_eq starts_with
built = refl

abbrev document_of : Result (Value × List String) → Value
document_of (ok (v, codes)) = v
document_of (raised x) = null

bound : Value
bound =
    document_of
      (bind_expected_post_hashes healthy sample_sha builder prepared transaction [] library)

sealed :
    bind_expected_post_hashes healthy sample_sha builder prepared transaction [] library
    ≡ ok (bound, [])
unfolding bind_expected_post_hashes build_prepared_journal bound prepared before get index update
    truthy text_or_empty str_of_length str_eq starts_with ends_with
sealed = refl

-- A codec of this one document.
persisted : Value
persisted = set_key "snapshots_verified" (bool true) bound

codec : Codec
codec = record { encode = λ v. one_byte; decode = λ raw. some persisted }

armed : (persist_and_verify_recovery healthy codec before bound library).0 ≡ ok (persisted, [])
unfolding persist_and_verify_recovery codec persisted bind_expected_post_hashes
    build_prepared_journal bound prepared before get index update truthy text_or_empty text_of
    str_of_length str_eq starts_with ends_with value_eq find_field
armed = refl

-- After the run that creates the record, and with the master index written anew.
armed_library : String → Option Bytes
armed_library = (persist_and_verify_recovery healthy codec before bound library).1

published : String → Option Bytes
published =
    (execute_canonical_transaction healthy sample_sha builder transaction [] armed_library).1

abbrev journal_found : Result (Option Value × List String) → Value
journal_found (ok (some v, codes)) = v
journal_found (ok (none, codes)) = null
journal_found (raised x) = null

recovered : Value
recovered =
    journal_found
      (execute_recovery healthy sample_sha (started "REBUILDING_INDEXES" persisted) true
        published).0

run_recovered :
    (execute_recovery healthy sample_sha (started "REBUILDING_INDEXES" persisted) true published).0
    ≡ ok (some recovered, [])
unfolding execute_recovery started recovered execute_canonical_transaction published armed_library
    persist_and_verify_recovery codec persisted bind_expected_post_hashes build_prepared_journal
    bound prepared before get index update truthy text_or_empty text_of str_of_length str_eq
    starts_with ends_with value_eq find_field
run_recovered = refl

-- The journal covers the transaction.
created_item : Item
created_item = record {
  action = create;
  target_path = "00_LIBRARY/a.md";
  content_path = "99_INBOX/CANDIDATES/a.md";
  content_sha256 = str twos;
  base_sha256 = null;
}

validated : validate_transaction_for_mutation transaction ≡ ok (created_item ∷ [], [])
unfolding validate_transaction_for_mutation created_item get update truthy text_or_empty
    str_of_length str_eq starts_with
validated = refl

paths_after : post_transaction_record_paths transaction [] ≡ ok ("00_LIBRARY/a.md" ∷ [])
unfolding post_transaction_record_paths get index update str_eq
paths_after = refl

abbrev index_files : Indexes
index_files = ("00_LIBRARY/MASTER_INDEX.md", two_bytes) ∷ []

mutated : String → Option Bytes
mutated = (execute_record_mutations healthy sample_sha transaction armed_library).1

index_planned :
    (build_index_plan builder ("00_LIBRARY/a.md" ∷ []) (healthy.read mutated)).0 ≡ some index_files
unfolding build_index_plan mutated execute_record_mutations armed_library
    persist_and_verify_recovery codec persisted bind_expected_post_hashes build_prepared_journal
    bound prepared before get index update truthy text_or_empty text_of str_of_length str_eq
    starts_with ends_with value_eq find_field
index_planned = refl

mutated_lem : (execute_record_mutations healthy sample_sha transaction armed_library).1 ≡ mutated
unfolding mutated
mutated_lem = refl

index_files_free :
    (q : String) → q ≢ "00_LIBRARY/MASTER_INDEX.md" → Untouched q (sorted_items index_files)
unfolding sorted_items
index_files_free q m = (λ h e. m (sym e), tt)

planned_is :
    (paths : List String) (indexes : Indexes) (records : List LibraryRecord)
    → post_transaction_record_paths transaction [] ≡ ok paths
    → build_index_plan builder paths (healthy.read mutated) ≡ (some indexes, records, [])
    → index_files ≡ indexes
planned_is paths indexes records e p =
    let at =
      subst
        (λ (x : List String).
          build_index_plan builder x (healthy.read mutated) ≡ (some indexes, records, []))
        (ok-injective (sym e ∙ paths_after)) p in
    some-injective _ _
      (sym index_planned ∙ ap (λ (x : Option Indexes × List LibraryRecord × List String). x.0) at)

target_free : (q : String) → q ≢ "00_LIBRARY/a.md" → Fresh q (created_item ∷ [])
unfolding created_item
target_free q a = (a, tt)

covers :
    Covers healthy
      (memory-IsFramed [])
      sample_sha
      builder
      (started "REBUILDING_INDEXES" persisted)
      transaction
      []
      armed_library
unfolding started persisted bind_expected_post_hashes build_prepared_journal bound prepared before
    rows_of row_path get index update truthy text_or_empty text_of str_of_length str_eq starts_with
    ends_with
covers q (a, (m, _)) = (
  λ items v.
      subst (λ (x : List Item). Fresh q x)
        (ap (λ (x : List Item × List String). x.0) (ok-injective (sym validated ∙ v)))
        (target_free q a),
  λ indexes plans.
      let (paths, records, e, p) = plans in
      subst (λ (x : Indexes). Untouched q (sorted_items x))
        (planned_is paths indexes records e (rw mutated_lem at p)) (index_files_free q m),
)

items_are : plan_items transaction ≡ ok (created ∷ [])
unfolding plan_items index update str_eq
items_are = refl

named : HasTargets (created ∷ [])
unfolding get str_eq
named = (λ h. refl, tt)

agreeing : Agree (rows_of bound)
unfolding bound bind_expected_post_hashes build_prepared_journal prepared before rows_of row_path
    snapshot_of get index update truthy text_or_empty text_of str_of_length str_eq starts_with
    ends_with
agreeing = ((λ h k e. cc, tt), (tt, tt))

own_file :
    All
      (λ row. HasSnapshot row → text_of (get "journal_path" bound) ≢ snapshot_of row)
      (rows_of bound)
unfolding bound bind_expected_post_hashes build_prepared_journal prepared before rows_of row_path
    snapshot_of get index update truthy text_or_empty text_of str_of_length str_eq starts_with
    ends_with
own_file = (λ h. cc, (λ h. str_eq-false _ _ refl, tt))

outside_root : starts_with "00_LIBRARY/a.md" recovery_prefix ≡ false
unfolding starts_with
outside_root = refl

other_file : text_of (get "journal_path" bound) ≢ "00_LIBRARY/a.md"
unfolding bound bind_expected_post_hashes build_prepared_journal prepared before get index update
    truthy text_or_empty text_of str_of_length str_eq starts_with ends_with
other_file = str_eq-false _ _ refl

armed_same :
    (q : String)
    → healthy.read armed_library q
      ≡ healthy.read (persist_and_verify_recovery healthy codec before bound library).1 q
unfolding armed_library
armed_same q = refl

published_same :
    (q : String)
    → healthy.read published q
      ≡ healthy.read
          (execute_canonical_transaction healthy sample_sha builder transaction [] armed_library).1
          q
unfolding published
published_same q = refl

publish_recovers_example :
    healthy.read
      (execute_recovery healthy sample_sha
        (started "REBUILDING_INDEXES" persisted)
        true
        published).1
      "00_LIBRARY/a.md"
    ≡ healthy.read library "00_LIBRARY/a.md"
publish_recovers_example =
    publish_recovers healthy (memory-IsFramed []) sample_sha text_bytes builder codec transaction
      (created ∷ []) one_byte one_byte one_byte "w1" run_root "REBUILDING_INDEXES" [] before
      prepared bound persisted recovered library armed_library published items_are named
      (captured, built, sealed, armed) agreeing own_file (λ q ne. armed_same q) covers
      (λ q ne. published_same q) run_recovered "00_LIBRARY/a.md" outside_root other_file

prewrite_keeps_outside_example :
    (healthy.read armed_library "00_LIBRARY/a.md" ≡ healthy.read library "00_LIBRARY/a.md")
    × (healthy.read (mark_aborted_prewrite healthy codec bound library).1 "00_LIBRARY/a.md"
        ≡ healthy.read library "00_LIBRARY/a.md")
unfolding armed_library
prewrite_keeps_outside_example =
    prewrite_keeps_outside healthy (memory-IsFramed []) "00_LIBRARY/a.md" outside_root codec before
      bound library

outside_library : starts_with "99_INBOX/CANDIDATES/a.md" "00_LIBRARY/" ≡ false
unfolding starts_with
outside_library = refl

execute_canonical_transaction-outside_example :
    healthy.read published "99_INBOX/CANDIDATES/a.md"
    ≡ healthy.read armed_library "99_INBOX/CANDIDATES/a.md"
unfolding published
execute_canonical_transaction-outside_example =
    execute_canonical_transaction-outside healthy (memory-IsFramed []) sample_sha builder
      transaction [] armed_library "99_INBOX/CANDIDATES/a.md" outside_library

-- The run of the arming alone, which does not seal the journal.
unsealed : Value
unsealed = set_key "snapshots_verified" (bool true) prepared

unsealed_codec : Codec
unsealed_codec = record { encode = λ v. one_byte; decode = λ raw. some unsealed }

armed_alone :
    (persist_and_verify_recovery healthy unsealed_codec before prepared library).0
    ≡ ok (unsealed, [])
unfolding persist_and_verify_recovery unsealed_codec unsealed build_prepared_journal prepared before
    get index update truthy text_or_empty text_of str_of_length str_eq starts_with value_eq
    find_field
armed_alone = refl

agreeing_alone : Agree (rows_of prepared)
unfolding build_prepared_journal prepared before rows_of row_path snapshot_of get index update
    truthy text_of str_eq starts_with
agreeing_alone = ((λ h k e. cc, tt), (tt, tt))

own_file_alone :
    All
      (λ row. HasSnapshot row → text_of (get "journal_path" prepared) ≢ snapshot_of row)
      (rows_of prepared)
unfolding build_prepared_journal prepared before rows_of row_path snapshot_of get index update
    truthy text_of str_eq starts_with
own_file_alone = (λ h. cc, (λ h. str_eq-false _ _ refl, tt))

persist_and_verify_recovery-Armed_example :
    Armed healthy unsealed_codec sample_sha
      (memory-IsFramed [])
      prepared
      unsealed
      library
      (persist_and_verify_recovery healthy unsealed_codec before prepared library).1
persist_and_verify_recovery-Armed_example =
    persist_and_verify_recovery-Armed healthy sample_sha text_bytes transaction one_byte one_byte
      one_byte "w1" run_root (created ∷ []) library unsealed_codec (memory-IsFramed []) before
      prepared unsealed items_are named captured built agreeing_alone own_file_alone armed_alone

-- The run from the library as it was.
run_published :
    (r : TransactionReport) × ((execute_canonical_transaction healthy sample_sha builder transaction
        [] library).0
      ≡ ok (r, []))
unfolding execute_canonical_transaction get index update truthy text_or_empty str_of_length str_eq
    starts_with ends_with
run_published = (_, refl)

agreeing_library :
    Agrees healthy (memory-IsFramed []) sample_sha builder transaction [] library library
agreeing_library = (
  λ p h. refl,
  λ items v.
      subst
        (λ (x : List Item). SameContents healthy (memory-IsFramed []) sample_sha library library x)
        (ap (λ (x : List Item × List String). x.0) (ok-injective (sym validated ∙ v))) (refl, tt),
)

abbrev prepared_items : List Value
prepared_items = item_rows sample_sha text_bytes run_root before (created ∷ [])

abbrev prepared_indexes : List Value
prepared_indexes =
    index_rows sample_sha text_bytes run_root before ("00_LIBRARY/MASTER_INDEX.md" ∷ [])

listed : Listed prepared prepared_items prepared_indexes
unfolding build_prepared_journal prepared before items_at rows_of get index update text_of str_eq
    starts_with
listed = (refl, refl, refl, refl)

bind_expected_post_hashes-truthful_example :
    All
      (λ row.
        (b : Bytes) × (healthy.read
            (execute_canonical_transaction healthy sample_sha builder transaction [] library).1
            (row_path row)
          ≡ some b)
        × (get "after_sha256" row.1 ≡ str (sample_sha b)))
      (rows_of bound)
bind_expected_post_hashes-truthful_example =
    bind_expected_post_hashes-truthful healthy (memory-IsFramed []) sample_sha builder transaction
      [] library library prepared bound prepared_items prepared_indexes run_published.0 listed
      sealed agreeing_library run_published.1
