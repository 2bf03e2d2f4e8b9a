-- ===== src/Gates/Tests.antt =====
-- The gates on sample documents, and their theorems at these inputs.
use technology_library_inges.Base.{
  String, ◌≡◌, refl, true, false, Option, none, some, List, [], ◌∷◌, str_eq, ok,
}
use technology_library_inges.Json.{
  pos, Value, null, bool, int, str, arr, obj, nil, fields, list_items, get, index, find_field,
  value_eq, text_of, str_of_length, truthy, eq_str,
}
use technology_library_inges.Storage.{Bytes}
use technology_library_inges.Samples.{ones, twos, sample_sha, one_byte}
use technology_library_inges.Gates.Policies.{
  ready_state, evaluate_coordination, evaluate_recovery, coordination_guarantees,
  recovery_guarantees, drive_profile, acquires,
}
use technology_library_inges.Gates.Policies.Proven.{
  Guaranteed, evaluate_coordination-Guaranteed, evaluate_recovery-Guaranteed,
}
use technology_library_inges.Gates.Readiness.{
  Evidence, evaluate_readiness, readiness_report, checked, check_names, wiring_true, restart_true,
}
use technology_library_inges.Gates.Readiness.Ready.{IsBound, evaluate_readiness-IsBound}
use technology_library_inges.Gates.Authorization.{
  build_authorization, validate_authorization, authorization_fields,
}
use technology_library_inges.Gates.Authorization.Bound.{
  IsReadiness, Authorizes, validate_authorization-Authorizes,
}
use technology_library_inges.Gates.Authorization.Valid.{Confirmed, build_authorization-valid}

abbrev id : String
id = "0123456789abcdef0123"

abbrev dict : List (String × Value) → Value
dict entries = obj (fields entries)

-- A coordinator with compare-and-swap and every guarantee.
abbrev coordinator : Value
coordinator = dict (
    ("schema_version", int (pos 1))
    ∷ ("coordinator_id", str "lease")
    ∷ ("coordination_kind", str "CAS")
    ∷ ("evidence", arr (list_items (str "probe" ∷ [])))
    ∷ ("guarantees", dict (("compare_and_swap", bool true) ∷ checked coordination_guarantees))
    ∷ [])

coordination_report : Value
coordination_report = dict (
    ("schema_version", int (pos 1))
    ∷ ("policy_version", str "0.1.0")
    ∷ ("coordinator_id", str "lease")
    ∷ ("coordination_kind", str "CAS")
    ∷ ("state", str ready_state)
    ∷ ("exclusive_acquire_proven", bool true)
    ∷ ("reasons", arr nil)
    ∷ ("evidence", arr (list_items (str "probe" ∷ [])))
    ∷ ("production_publish_authorized", bool false)
    ∷ ("canonical_write_performed", bool false)
    ∷ [])

run_coordination : evaluate_coordination coordinator ≡ ok (some coordination_report, [])
unfolding evaluate_coordination coordination_report get find_field str_eq truthy
run_coordination = refl

coordination_state : eq_str (get "state" coordination_report) ready_state ≡ true
unfolding coordination_report get find_field str_eq
coordination_state = refl

evaluate_coordination-Guaranteed_example :
    (acquires (get "guarantees" coordinator) ≡ true)
    × Guaranteed coordination_guarantees (get "guarantees" coordinator)
evaluate_coordination-Guaranteed_example =
    evaluate_coordination-Guaranteed coordinator coordination_report run_coordination
      coordination_state

-- The path lock on Google Drive is blocked.
run_profile :
    (r : Value) × (evaluate_coordination drive_profile ≡ ok (some r, []))
    × (eq_str (get "state" r) "BLOCKED" ≡ true)
unfolding evaluate_coordination get find_field str_eq truthy
run_profile = (_, refl, refl)

abbrev recovery_storage : Value
recovery_storage = dict (
    ("schema_version", int (pos 1))
    ∷ ("storage_id", str "drive")
    ∷ ("recovery_kind", str "SNAPSHOT")
    ∷ ("evidence", arr (list_items (str "probe" ∷ [])))
    ∷ ("guarantees", dict (checked recovery_guarantees))
    ∷ ("production_publish_authorized", bool false)
    ∷ ("canonical_write_performed", bool false)
    ∷ [])

recovery_report : Value
recovery_report = dict (
    ("schema_version", int (pos 1))
    ∷ ("policy_version", str "0.1.0")
    ∷ ("storage_id", str "drive")
    ∷ ("recovery_kind", str "SNAPSHOT")
    ∷ ("state", str ready_state)
    ∷ ("recovery_capability_proven", bool true)
    ∷ ("reasons", arr nil)
    ∷ ("evidence", arr (list_items (str "probe" ∷ [])))
    ∷ ("production_publish_authorized", bool false)
    ∷ ("canonical_write_performed", bool false)
    ∷ [])

run_recovery : evaluate_recovery recovery_storage ≡ ok (some recovery_report, [])
unfolding evaluate_recovery recovery_report get find_field str_eq
run_recovery = refl

recovery_state : eq_str (get "state" recovery_report) ready_state ≡ true
unfolding recovery_report get find_field str_eq
recovery_state = refl

evaluate_recovery-Guaranteed_example :
    Guaranteed recovery_guarantees (get "guarantees" recovery_storage)
evaluate_recovery-Guaranteed_example =
    evaluate_recovery-Guaranteed recovery_storage recovery_report run_recovery recovery_state

-- The evidence of one batch.
abbrev row : Value
row = dict (
    ("title", str "A")
    ∷ ("record_id", str id)
    ∷ ("action", str "CREATE")
    ∷ ("target_path", str "00_LIBRARY/a.md")
    ∷ ("content_sha256", str twos)
    ∷ [])

abbrev safe : List (String × Value) → Value
safe entries = dict (
    ("production_publish_authorized", bool false)
    ∷ ("canonical_write_performed", bool false)
    ∷ entries)

abbrev evidence : Evidence
evidence = record {
  batch_report = safe (
      ("state", str "READY_FOR_EDITORIAL_REVIEW")
      ∷ ("live_preconditions_verified", bool true)
      ∷ ("batch_id", str id)
      ∷ ("master_index_sha256", str ones)
      ∷ ("items", arr (list_items (row ∷ [])))
      ∷ []);
  acceptance = safe (
      ("schema_version", int (pos 1))
      ∷ ("acceptance_version", str "0.1.0")
      ∷ ("state", str "EDITORIALLY_ACCEPTED")
      ∷ ("batch_id", str id)
      ∷ ("master_index_sha256", str ones)
      ∷ (
        "counts",
        dict (("items", null) ∷ ("create", null) ∷ ("update", null) ∷ ("unchanged", null) ∷ []),
      )
      ∷ ("items", arr (list_items (row ∷ [])))
      ∷ ("editorial_review_complete", bool true)
      ∷ ("all_current_items_accepted", bool true)
      ∷ []);
  preflight =
      safe (("state", str "PASS") ∷ ("batch_id", str id) ∷ ("failed_case_ids", arr nil) ∷ []);
  stored_transaction = safe (
      ("finalize_batch_id", str id)
      ∷ ("live_preconditions_verified", bool true)
      ∷ ("transaction_id", str id)
      ∷ []);
  recomputed_transaction = safe (
      ("finalize_batch_id", str id)
      ∷ ("live_preconditions_verified", bool true)
      ∷ ("transaction_id", str id)
      ∷ []);
  routing = safe (
      ("state", str "PASS")
      ∷ ("batch_id", str id)
      ∷ ("routing_quality_proven", bool true)
      ∷ ("failed_case_ids", arr nil)
      ∷ ("virtual_record_count", int (pos 3))
      ∷ []);
  routing_virtual_record_count = int (pos 3);
  coordination_policy =
      safe (("state", str ready_state) ∷ ("exclusive_acquire_proven", bool true) ∷ []);
  recovery_policy =
      safe (("state", str ready_state) ∷ ("recovery_capability_proven", bool true) ∷ []);
  wiring_fixture =
      safe (("state", str "PASS") ∷ ("cleanup_required", bool false) ∷ checked wiring_true);
  restart_recovery_fixture =
      safe (("state", str "PASS") ∷ ("cleanup_required", bool false) ∷ checked restart_true);
}

readiness : Value
readiness = readiness_report evidence

run_readiness : evaluate_readiness evidence ≡ ok (some readiness, [])
unfolding evaluate_readiness readiness get index find_field str_eq value_eq text_of str_of_length
run_readiness = refl

evaluate_readiness-IsBound_example :
    IsBound evidence
    × (get "production_publish_authorized" readiness ≡ bool false)
    × (readiness ≡ readiness_report evidence)
evaluate_readiness-IsBound_example = evaluate_readiness-IsBound evidence readiness run_readiness

-- A parser that reads one file.
abbrev parser : Bytes → Option Value
parser [] = none
parser (b ∷ bytes) = some (
    safe (
      ("schema_version", int (pos 1))
      ∷ ("state", str "READY_FOR_PRODUCTION_EXECUTOR_IMPLEMENTATION")
      ∷ ("batch_id", str id)
      ∷ ("transaction_id", str id)
      ∷ ("checks", dict (checked check_names))
      ∷ []))

authorization : Value
authorization = dict (authorization_fields ones (str id) (str id))

run_authorization :
    build_authorization parser sample_sha one_byte id id "AUTHORIZE_CANONICAL_WRITE"
    ≡ ok (some authorization, [])
unfolding build_authorization authorization get find_field str_eq text_of
run_authorization = refl

-- Another phrase is refused.
run_refused :
    build_authorization parser sample_sha one_byte id id "authorize"
    ≡ ok (none, "confirmation_phrase_mismatch" ∷ [])
unfolding build_authorization get find_field str_eq text_of
run_refused = refl

build_authorization-valid_example :
    ((readiness : Value) × IsReadiness parser sample_sha one_byte readiness
      × Confirmed parser sample_sha readiness id id "AUTHORIZE_CANONICAL_WRITE")
    × (validate_authorization parser sample_sha authorization one_byte ≡ ok [])
build_authorization-valid_example =
    build_authorization-valid parser sample_sha one_byte id id "AUTHORIZE_CANONICAL_WRITE"
      authorization run_authorization

run_valid : validate_authorization parser sample_sha authorization one_byte ≡ ok []
unfolding validate_authorization authorization get find_field str_eq value_eq
run_valid = refl

validate_authorization-Authorizes_example : Authorizes parser sample_sha authorization one_byte
validate_authorization-Authorizes_example =
    validate_authorization-Authorizes parser sample_sha authorization one_byte run_valid
