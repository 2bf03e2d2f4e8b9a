-- ===== src/Restart/Classify.antt =====
-- `validate_identity` and `classify_restart_action` of src/candidate_production_recover.py.
pub mod Routes
use technology_library_inges.Base.{
  String, ◌<>◌, Bool, true, false, not, ◌&&◌, Option, none, some, List, [], ◌∷◌, is_empty,
  sorted_set, str_eq, if◌then◌else◌, Result, ok, raised, ◌>>=◌,
}
use technology_library_inges.Json.{Value, get, is_dict, is_true, eq_str, in_set, value_eq, text_of}

abbrev pub identity_keys : List String
identity_keys = "transaction_id" ∷ "batch_id" ∷ "owner" ∷ "journal_path" ∷ []

pub mismatches : Value → Value → List String → List String
mismatches coordinator journal [] = []
mismatches coordinator journal (key ∷ keys) =
    let rest = mismatches coordinator journal keys in
    if value_eq (get key coordinator) (get key journal)
    then rest
    else ("identity_mismatch:" <> key) ∷ rest

-- `None` is `null`.
unfoldable pub validate_identity : Value → Value → List String
unfolding mismatches sorted_set
validate_identity coordinator journal =
    if not (is_dict coordinator && eq_str (get "state" coordinator) "ACTIVE")
    then "coordinator_not_active" ∷ []
    else if not (is_dict journal)
    then "journal_invalid" ∷ []
    else sorted_set (mismatches coordinator journal identity_keys)

abbrev pub Route : Type 0
Route = Option String × List String

abbrev pub recover_states : List String
recover_states =
    "WRITING_RECORDS" ∷ "REBUILDING_INDEXES" ∷ "VERIFYING" ∷ "COMMITTED_PENDING_RECEIPT"
    ∷ "RECOVERY_REQUIRED" ∷ []

-- The journal's fields that the tests read.
abbrev pub write_started : Value → Bool
write_started document = is_true (get "canonical_write_performed" document)

abbrev pub state_is : Value → String → Bool
state_is journal state = eq_str (get "state" journal) state

pub prewrite_route : Value → Route
prewrite_route journal =
    if state_is journal "PREPARED" && not (write_started journal)
    then (some "PREWRITE_ABORT", [])
    else if state_is journal "WRITING_RECORDS" && write_started journal
    then (some "PREWRITE_ABORT", [])
    else if state_is journal "ABORTED_PREWRITE"
        && is_true (get "safe_abort_verified" journal)
        && is_true (get "coordinator_release_allowed" journal)
    then (some "RELEASE_PREWRITE", [])
    else (none, ("prewrite_journal_state_invalid:" <> text_of (get "state" journal)) ∷ [])

pub recovery_route : Value → Bool → Route
recovery_route journal recoverable =
    if recoverable
    then (some "RECOVER", [])
    else if state_is journal "COMMITTED"
    then (none, "committed_journal_must_not_be_recovered" ∷ [])
    else (none, ("recovery_journal_state_invalid:" <> text_of (get "state" journal)) ∷ [])

pub started_route : Value → Result Route
started_route journal =
    if not (write_started journal)
    then ok (none, "write_boundary_mismatch" ∷ [])
    else if state_is journal "RECOVERED"
        && is_true (get "rollback_verified" journal)
        && is_true (get "coordinator_release_allowed" journal)
    then ok (some "RELEASE_RECOVERED", [])
    else (do
      recoverable ← in_set (get "state" journal) recover_states
      ok (recovery_route journal recoverable))

classify_identified : Value → Value → List String → Result Route
classify_identified coordinator journal (code ∷ codes) = ok (none, code ∷ codes)
classify_identified coordinator journal [] =
    if not (is_dict coordinator && is_dict journal)
    then ok (none, "restart_state_invalid" ∷ [])
    else if not (write_started coordinator)
    then ok (prewrite_route journal)
    else started_route journal

unfoldable pub classify_restart_action : Value → Value → Result Route
unfolding classify_identified prewrite_route started_route recovery_route validate_identity text_of
classify_restart_action coordinator journal =
    classify_identified coordinator journal (validate_identity coordinator journal)
