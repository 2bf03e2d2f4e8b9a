-- ===== src/Recovery/Journal.antt =====
-- `_safe_canonical`, `_valid_sha`, `validate_recovery_journal` and `verify_rollback_preconditions`
-- of src/candidate_production_recovery_engine.py.
pub mod Rows
pub mod States
pub mod Shape
use technology_library_inges.Base.{
  ℕ, zero, suc, String, ◌<>◌, ◌≡◌, refl, Bool, true, false, not, ◌&&◌, ◌||◌, Option, none, some,
  List, [], ◌∷◌, ◌++◌, str_eq, if◌then◌else◌, contains, starts_with, decimal, all_hex, sorted_set,
  Check, plain, failures, Result, ok, raised, ◌>>=◌,
}
use technology_library_inges.Json.{
  Value, null, bool, int, str, arr, obj, get, index, is_dict, is_true, is_null, in_set,
  nonempty_str, eq_str, str_of_length, items_list, text_of, truthy,
}
use technology_library_inges.Paths.{forward_slashes, posix_path, is_absolute, parts}
use technology_library_inges.Storage.{Bytes, Storage, Sha256}

abbrev pub snapshot_root : String
snapshot_root = "99_INBOX/CANDIDATES/PRODUCTION_RECOVERY/"

abbrev pub master_path : String
master_path = "00_LIBRARY/MASTER_INDEX.md"

pub safe_canonical : String → Bool
safe_canonical path =
    let p = posix_path (forward_slashes path) in
    not (is_absolute p) && not (contains (parts p) "..") && starts_with path "00_LIBRARY/"

unfoldable pub valid_sha : Value → Bool
valid_sha (str s) = str_of_length 64 (str s) && all_hex s
valid_sha v = false

snapshot_path_ok : Value → Bool
snapshot_path_ok (str s) = starts_with s snapshot_root
snapshot_path_ok v = false

-- `f"{group}_{index}_{what}"`
row_code : String → ℕ → String → String
row_code group i what = group <> ("_" <> (decimal i <> ("_" <> what)))

abbrev unless : Bool → String → List String
unless passed code = if passed then [] else code ∷ []

existed_errors : String → ℕ → Value → Value → List String
existed_errors group i entry (bool true) =
    unless (valid_sha (get "before_sha256" entry)) (row_code group i "before_sha")
    ++ unless (snapshot_path_ok (get "snapshot_path" entry)) (row_code group i "snapshot_path")
existed_errors group i entry (bool false) =
    unless (is_null (get "before_sha256" entry)) (row_code group i "unexpected_before_sha")
    ++ unless (is_null (get "snapshot_path" entry)) (row_code group i "unexpected_snapshot")
existed_errors group i entry v = row_code group i "existed_before" ∷ []

path_errors : String → ℕ → List String → Value → Value → List String × List String
path_errors group i seen entry (str path) =
    if safe_canonical path
    then (
      unless (not (contains seen path)) ("duplicate_recovery_path:" <> path)
          ++ existed_errors group i entry (get "existed_before" entry),
      path ∷ seen,
    )
    else (row_code group i "path" ∷ [], seen)
path_errors group i seen entry v = (row_code group i "path" ∷ [], seen)

-- The errors of one row, and the paths seen after it.
row_errors : String → String → ℕ → List String → Value → List String × List String
row_errors group key i seen entry =
    if is_dict entry
    then path_errors group i seen entry (get key entry)
    else (row_code group i "invalid" ∷ [], seen)

rows_errors : String → String → ℕ → List String → List Value → List String × List String
rows_errors group key i seen [] = ([], seen)
rows_errors group key i seen (entry ∷ rest) =
    let (codes, seen') = row_errors group key i seen entry in
    let (more, seen'') = rows_errors group key (suc i) seen' rest in (codes ++ more, seen'')

group_errors : String → String → List String → Value → List String × List String
group_errors group key seen (arr vs) = rows_errors group key 0 seen (items_list vs)
group_errors group key seen v = (("journal_" <> group) ∷ [], seen)

both_groups : Value → List String
both_groups journal =
    let (items, seen) = group_errors "items" "target_path" [] (get "items" journal) in
    items ++ (group_errors "indexes" "path" seen (get "indexes" journal)).0

abbrev pub recoverable_states : List String
recoverable_states =
    "WRITING_RECORDS" ∷ "REBUILDING_INDEXES" ∷ "VERIFYING" ∷ "COMMITTED_PENDING_RECEIPT"
    ∷ "RECOVERY_REQUIRED" ∷ []

pub journal_checks : Value → List Check
journal_checks journal =
    plain (is_true (get "canonical_write_performed" journal)) "journal_write_boundary_not_crossed"
    ∷ plain (is_true (get "snapshots_verified" journal)) "journal_snapshots_not_verified"
    ∷ plain (is_true (get "live_preconditions_verified_under_ownership" journal))
        "journal_live_preconditions_not_verified"
    ∷ (in_set (get "state" journal) recoverable_states, "journal_state_not_recoverable")
    ∷ plain (nonempty_str (get "transaction_id" journal)) "journal_transaction_id"
    ∷ plain (nonempty_str (get "batch_id" journal)) "journal_batch_id"
    ∷ plain (nonempty_str (get "owner" journal)) "journal_owner"
    ∷ plain (nonempty_str (get "journal_path" journal)) "journal_journal_path"
    ∷ plain (valid_sha (get "master_index_before_sha256" journal)) "journal_master_before_sha"
    ∷ []

validate_fields : Value → Result (List String)
validate_fields journal = do
  codes ← failures (journal_checks journal)
  ok (sorted_set (codes ++ both_groups journal))

unfoldable pub validate_recovery_journal : Value → Result (List String)
unfolding validate_fields journal_checks both_groups group_errors rows_errors row_errors path_errors
    existed_errors row_code safe_canonical valid_sha snapshot_path_ok failures sorted_set decimal
    all_hex posix_path forward_slashes is_absolute parts
validate_recovery_journal journal =
    if is_dict journal then validate_fields journal else ok ("journal_invalid" ∷ [])

-- A row of the journal with the key that holds its path; records come before indexes.
abbrev pub Row : Type 0
Row = String × Value

abbrev pub keyed : String → List Value → List Row
keyed key [] = []
keyed key (v ∷ vs) = (key, v) ∷ keyed key vs

abbrev pub list_of : Value → List Value
list_of (arr vs) = items_list vs
list_of v = []

unfoldable pub rows_of : Value → List Row
rows_of journal =
    keyed "target_path" (list_of (get "items" journal))
    ++ keyed "path" (list_of (get "indexes" journal))

-- `str(entry[path_key])`, `entry["existed_before"]`, `str(entry["snapshot_path"])`
unfoldable pub row_path : Row → String
row_path (key, entry) = text_of (get key entry)

unfoldable pub existed_before : Row → Bool
existed_before (key, entry) = truthy (get "existed_before" entry)

unfoldable pub snapshot_of : Row → String
snapshot_of (key, entry) = text_of (get "snapshot_path" entry)

unfoldable pub before_sha : Row → Value
before_sha (key, entry) = get "before_sha256" entry
