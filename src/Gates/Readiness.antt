-- ===== src/Gates/Readiness.antt =====
-- `evaluate_readiness` of src/candidate_executor_readiness.py: the evidence that the executor needs.
pub mod Ready
use technology_library_inges.Base.{
  ℕ, String, ◌<>◌, ◌≡◌, refl, Bool, true, false, not, ◌&&◌, ◌||◌, Option, none, some, List, [], ◌∷◌,
  ◌++◌, if◌then◌else◌, is_empty, sorted_set, Check, plain, failures, Result, ok, raised, ◌>>=◌,
}
use technology_library_inges.Json.{
  ℤ, pos, negsuc, Value, null, bool, int, str, arr, obj, nil, fields, get, is_dict, is_true,
  is_false, eq_str, str_of_length, value_eq, text_of,
}
use technology_library_inges.Gates.Policies.{ready_state}
use technology_library_inges.Gates.Acceptance.{validate_acceptance}

abbrev pub implementation_state : String
implementation_state = "READY_FOR_PRODUCTION_EXECUTOR_IMPLEMENTATION"

-- The keyword arguments.
pub record Evidence : Type 0 where
  pub batch_report : Value
  pub acceptance : Value
  pub preflight : Value
  pub stored_transaction : Value
  pub recomputed_transaction : Value
  pub routing : Value
  pub routing_virtual_record_count : Value
  pub coordination_policy : Value
  pub recovery_policy : Value
  pub wiring_fixture : Value
  pub restart_recovery_fixture : Value

-- `_false_safety_flags` of a dict.
pub false_safety_flags : String → Value → List Check
false_safety_flags prefix payload =
    plain (is_false (get "production_publish_authorized" payload)) (prefix <> "_authorization_flag")
    ∷ plain (is_false (get "canonical_write_performed" payload)) (prefix <> "_write_flag")
    ∷ []

-- The checks of a part, or one code where the part is no dict.
pub part : Bool → String → List Check → List Check
part true code checks = checks
part false code checks = plain false code ∷ []

pub batch_checks : Value → List Check
batch_checks batch =
    plain (eq_str (get "state" batch) "READY_FOR_EDITORIAL_REVIEW") "batch_state"
    ∷ plain (is_true (get "live_preconditions_verified" batch)) "batch_live_preconditions"
    ∷ plain (is_false (get "canonical_write_performed" batch)) "batch_write_flag"
    ∷ []

pub preflight_checks : Value → Value → List Check
preflight_checks batch_id preflight =
    plain (eq_str (get "state" preflight) "PASS") "preflight_state"
    ∷ plain (value_eq (get "batch_id" preflight) batch_id) "preflight_batch_binding"
    ∷ plain (value_eq (get "failed_case_ids" preflight) (arr nil)) "preflight_failed_cases"
    ∷ plain (is_false (get "canonical_write_performed" preflight)) "preflight_write_flag"
    ∷ []

pub transaction_checks : Value → Value → Value → List Check
transaction_checks batch_id stored recomputed =
    plain (value_eq stored recomputed) "transaction_live_recompute_mismatch"
    ∷ plain (value_eq (get "finalize_batch_id" stored) batch_id) "transaction_batch_binding"
    ∷ plain (is_true (get "live_preconditions_verified" stored)) "transaction_live_preconditions"
    ∷ plain (is_false (get "canonical_write_performed" stored)) "transaction_write_flag"
    ∷ plain (str_of_length 20 (get "transaction_id" stored)) "transaction_id"
    ∷ []

-- `isinstance(count, int) and count >= 0`
is_count : Value → Bool
is_count (int (pos n)) = true
is_count (bool b) = true
is_count v = false

count_check : Value → Value → Check
count_check expected found =
    if is_count expected
    then plain (value_eq found expected) "routing_virtual_count_binding"
    else plain false "routing_virtual_count_expected_invalid"

pub routing_checks : Value → Value → Value → List Check
unfolding count_check is_count
routing_checks batch_id expected routing =
    plain (eq_str (get "state" routing) "PASS") "routing_state"
    ∷ plain (value_eq (get "batch_id" routing) batch_id) "routing_batch_binding"
    ∷ plain (is_true (get "routing_quality_proven" routing)) "routing_not_proven"
    ∷ plain (value_eq (get "failed_case_ids" routing) (arr nil)) "routing_failed_cases"
    ∷ count_check expected (get "virtual_record_count" routing)
    ∷ false_safety_flags "routing" routing

pub policy_checks : String → String → String → String → Value → List Check
policy_checks state_code proven_key proven_code prefix policy =
    plain (eq_str (get "state" policy) ready_state) state_code
    ∷ plain (is_true (get proven_key policy)) proven_code
    ∷ false_safety_flags prefix policy

-- Every field of a fixture's report is `True`.
all_true : String → List String → Value → List Check → List Check
all_true prefix [] fixture rest = rest
all_true prefix (name ∷ names) fixture rest =
    plain (is_true (get name fixture)) (prefix <> ("_missing:" <> name))
    ∷ all_true prefix names fixture rest

pub fixture_checks : String → List String → Value → List Check
unfolding all_true
fixture_checks prefix names fixture =
    plain (eq_str (get "state" fixture) "PASS") (prefix <> "_state")
    ∷ all_true prefix names fixture (
        plain (is_false (get "cleanup_required" fixture)) (prefix <> "_cleanup_required")
        ∷ false_safety_flags prefix fixture)

abbrev pub wiring_true : List String
wiring_true =
    "cleanup_verified" ∷ "coordinator_acquired" ∷ "coordinator_released" ∷ "fixture_seed_verified"
    ∷ "journal_committed" ∷ "live_preconditions_revalidated" ∷ "receipt_verified"
    ∷ "recovery_journal_verified" ∷ "synthetic_transaction_verified" ∷ "write_ready_verified" ∷ []

abbrev pub restart_true : List String
restart_true =
    "cleanup_verified" ∷ "coordinator_acquired" ∷ "coordinator_released_after_recovery"
    ∷ "fresh_process_recovery_verified" ∷ "interrupted_state_verified" ∷ "journal_verified"
    ∷ "preconditions_revalidated" ∷ "rollback_verified" ∷ []

-- Every check but the acceptance, the parts in the order of the code.
pub evidence_checks : Evidence → List (List Check)
evidence_checks e =
    let batch_id = get "batch_id" e.batch_report in
    batch_checks e.batch_report
    ∷ part (is_dict e.preflight) "preflight_invalid" (preflight_checks batch_id e.preflight)
    ∷ part (is_dict e.stored_transaction && is_dict e.recomputed_transaction) "transaction_missing"
        (transaction_checks batch_id e.stored_transaction e.recomputed_transaction)
    ∷ part (is_dict e.routing) "routing_invalid"
        (routing_checks batch_id e.routing_virtual_record_count e.routing)
    ∷ part (is_dict e.coordination_policy) "coordination_policy_invalid" (
        policy_checks "coordination_policy_state" "exclusive_acquire_proven"
          "coordination_exclusive_acquire" "coordination" e.coordination_policy)
    ∷ part (is_dict e.recovery_policy) "recovery_policy_invalid" (
        policy_checks "recovery_policy_state" "recovery_capability_proven" "recovery_capability"
          "recovery_policy" e.recovery_policy)
    ∷ part (is_dict e.wiring_fixture) "wiring_fixture_invalid"
        (fixture_checks "wiring_fixture" wiring_true e.wiring_fixture)
    ∷ part (is_dict e.restart_recovery_fixture) "restart_recovery_fixture_invalid"
        (fixture_checks "restart_recovery_fixture" restart_true e.restart_recovery_fixture)
    ∷ []

pub all_failures : List (List Check) → Result (List String)
all_failures [] = ok []
all_failures (checks ∷ rest) = do
  codes ← failures checks
  more ← all_failures rest
  ok (codes ++ more)

-- The nine checks of the report.
abbrev pub check_names : List String
check_names =
    "live_batch_preconditions" ∷ "editorial_acceptance_bound" ∷ "structural_retrieval_preflight"
    ∷ "semantic_routing_quality" ∷ "transaction_plan_live_recomputed"
    ∷ "remote_coordination_capability" ∷ "remote_recovery_capability"
    ∷ "remote_success_path_fixture" ∷ "remote_restart_recovery_fixture" ∷ []

abbrev pub checked : List String → List (String × Value)
checked [] = []
checked (name ∷ names) = (name, bool true) ∷ checked names

pub readiness_report : Evidence → Value
readiness_report e = obj (
    fields (
      ("schema_version", int (pos 1))
      ∷ ("readiness_version", str "0.1.1")
      ∷ ("state", str implementation_state)
      ∷ ("batch_id", get "batch_id" e.batch_report)
      ∷ ("transaction_id", str (text_of (get "transaction_id" e.stored_transaction)))
      ∷ ("virtual_record_count", get "virtual_record_count" e.preflight)
      ∷ ("routing_virtual_record_count", e.routing_virtual_record_count)
      ∷ ("checks", obj (fields (checked check_names)))
      ∷ ("production_publish_authorized", bool false)
      ∷ ("canonical_write_performed", bool false)
      ∷ []))

readiness_or : Evidence → List String → Option Value × List String
readiness_or e [] = (some (readiness_report e), [])
readiness_or e (code ∷ codes) = (none, sorted_set (code ∷ codes))

evaluate_evidence : Evidence → Result (Option Value × List String)
evaluate_evidence e = do
  accepted ← validate_acceptance e.acceptance e.batch_report
  codes ← all_failures (evidence_checks e)
  ok (readiness_or e (codes ++ accepted))

unfoldable pub evaluate_readiness : Evidence → Result (Option Value × List String)
unfolding evaluate_evidence readiness_or readiness_report evidence_checks all_failures part
    batch_checks preflight_checks transaction_checks routing_checks policy_checks fixture_checks
    false_safety_flags all_true failures sorted_set validate_acceptance value_eq str_of_length
    text_of
evaluate_readiness e =
    if not (is_dict e.batch_report)
    then ok (none, "batch_report_invalid" ∷ [])
    else evaluate_evidence e

evaluate_readiness_lem :
    (e : Evidence)
    → evaluate_readiness e ≡ (
        if not (is_dict e.batch_report)
        then ok (none, "batch_report_invalid" ∷ [])
        else evaluate_evidence e)
unfolding evaluate_readiness
evaluate_readiness_lem e = refl
