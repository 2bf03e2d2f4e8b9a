-- ===== src/Gates/Policies.antt =====
-- `evaluate_descriptor` of src/candidate_remote_coordination_policy.py and of
-- src/candidate_remote_recovery_policy.py.
pub mod Proven
use Prim.Native.Char.{Char, code}
use technology_library_inges.Base.{
  ℕ, String, ◌<>◌, ◌≡◌, refl, Bool, true, false, not, ◌&&◌, ◌||◌, Option, none, some, List, [], ◌∷◌,
  ◌++◌, ◌==◌, leb, if◌then◌else◌, is_empty, sorted_set, Check, plain, failures, Result, ok, raised,
  ◌>>=◌, map,
}
use technology_library_inges.Json.{
  pos, Value, null, bool, int, str, arr, obj, Fields, field, end, Items, nil, cons, fields,
  list_items, get, is_dict, is_bool, is_true, is_false, eq_nat, truthy,
}

abbrev pub policy_version : String
policy_version = "0.1.0"

abbrev pub ready_state : String
ready_state = "READY_FOR_EXECUTOR_DESIGN"

-- `str.isspace` of one character.
unfoldable pub is_space : Char → Bool
is_space c =
    let n = code c in
    (leb 9 n && leb n 13)
    || ((leb 28 n && leb n 32)
        || (n == 133
            || (n == 160
                || (n == 5760
                    || ((leb 8192 n && leb n 8202)
                        || (n == 8232
                            || (n == 8233 || (n == 8239 || (n == 8287 || n == 12288)))))))))

-- `bool(s.strip())`
unfoldable pub has_text : String → Bool
unfolding is_space
has_text String.[] = false
has_text (String.◌∷◌ c s) = not (is_space c) || has_text s

unfoldable pub is_text : Value → Bool
unfolding has_text
is_text (str s) = has_text s
is_text v = false

all_text : Items → Bool
all_text nil = true
all_text (cons v vs) = is_text v && all_text vs

-- A list with an entry, and texts only.
is_evidence : Value → Bool
is_evidence (arr nil) = false
is_evidence (arr vs) = all_text vs
is_evidence v = false

all_bool : Fields → Bool
all_bool end = true
all_bool (field k v fs) = is_bool v && all_bool fs

bool_values : Value → Bool
bool_values (obj fs) = all_bool fs
bool_values v = true

-- `guarantee_missing:…` for each required field that is not `True`.
pub missing : List String → Value → List String
missing [] guarantees = []
missing (name ∷ names) guarantees =
    let rest = missing names guarantees in
    if is_true (get name guarantees) then rest else ("guarantee_missing:" <> name) ∷ rest

-- `sorted(REQUIRED_TRUE)` of the two modules.
abbrev pub coordination_guarantees : List String
coordination_guarantees =
    "conflict_detection" ∷ "durable_owner_identity" ∷ "no_silent_overwrite"
    ∷ "read_after_write_consistency" ∷ "release_requires_owner_or_verified_recovery"
    ∷ "stale_owner_requires_verified_recovery" ∷ "transaction_scoped_ownership" ∷ []

abbrev pub recovery_guarantees : List String
recovery_guarantees =
    "byte_exact_rollback_verified" ∷ "cleanup_verified" ∷ "durable_journal_persistence"
    ∷ "private_recovery_scope" ∷ "restart_independent_recovery" ∷ "snapshot_integrity_verified"
    ∷ "terminal_recovery_state_verified" ∷ []

abbrev pub Answer : Type 0
Answer = Result (Option Value × List String)

identity_checks : String → String → Value → List Check
identity_checks id_key kind_key payload =
    plain (eq_nat (get "schema_version" payload) 1) "descriptor_schema"
    ∷ plain (is_text (get id_key payload)) id_key
    ∷ plain (is_text (get kind_key payload)) kind_key
    ∷ plain (is_evidence (get "evidence" payload)) "evidence_required"
    ∷ []

flag_checks : Value → List Check
flag_checks payload =
    plain (is_false (get "production_publish_authorized" payload)) "descriptor_authorization_flag"
    ∷ plain (is_false (get "canonical_write_performed" payload)) "descriptor_write_flag"
    ∷ []

-- A report, unless there are errors.
report_or : Value → List String → Option Value × List String
report_or report [] = (some report, [])
report_or report (code ∷ codes) = (none, sorted_set (code ∷ codes))

state_of : List String → Value
state_of [] = str ready_state
state_of (reason ∷ reasons) = str "BLOCKED"

policy_report : String → String → String → Bool → Value → List String → Value
policy_report id_key kind_key proven_key proven payload reasons = obj (
    fields (
      ("schema_version", int (pos 1))
      ∷ ("policy_version", str policy_version)
      ∷ (id_key, get id_key payload)
      ∷ (kind_key, get kind_key payload)
      ∷ ("state", state_of reasons)
      ∷ (proven_key, bool proven)
      ∷ ("reasons", arr (list_items (map str reasons)))
      ∷ ("evidence", get "evidence" payload)
      ∷ ("production_publish_authorized", bool false)
      ∷ ("canonical_write_performed", bool false)
      ∷ []))

-- Whether the guarantees prove an exclusive acquisition.
pub acquires : Value → Bool
acquires guarantees =
    truthy (get "atomic_create_if_absent" guarantees) || truthy (get "compare_and_swap" guarantees)

pub coordination_reasons : Value → List String
unfolding acquires missing
coordination_reasons guarantees =
    (if acquires guarantees then [] else "exclusive_acquire_not_proven" ∷ [])
    ++ missing coordination_guarantees guarantees

coordination_from : Value → List String → Option Value × List String
coordination_from payload errors =
    let guarantees = get "guarantees" payload in
    if not (is_dict guarantees)
    then (none, sorted_set (errors ++ "guarantees_invalid" ∷ []))
    else report_or
        (policy_report "coordinator_id" "coordination_kind" "exclusive_acquire_proven"
          (acquires guarantees) payload (coordination_reasons guarantees))
        (errors ++ (if bool_values guarantees then [] else "guarantee_values_must_be_boolean" ∷ []))

evaluate_coordinator : Value → Answer
evaluate_coordinator payload = do
  errors ← failures (identity_checks "coordinator_id" "coordination_kind" payload)
  ok (coordination_from payload errors)

-- `evaluate_descriptor` of the coordination policy.
unfoldable pub evaluate_coordination : Value → Answer
unfolding evaluate_coordinator coordination_from identity_checks report_or policy_report state_of
    coordination_reasons acquires missing bool_values all_bool is_evidence all_text is_text failures
    sorted_set
evaluate_coordination payload =
    if not (is_dict payload)
    then ok (none, "descriptor_invalid" ∷ [])
    else evaluate_coordinator payload

evaluate_coordination_lem :
    (payload : Value)
    → evaluate_coordination payload ≡ (
        if not (is_dict payload)
        then ok (none, "descriptor_invalid" ∷ [])
        else evaluate_coordinator payload)
unfolding evaluate_coordination
evaluate_coordination_lem payload = refl

recovery_from : Value → List String → List String → Option Value × List String
recovery_from payload errors flags =
    let guarantees = get "guarantees" payload in
    let reasons = missing recovery_guarantees guarantees in
    if not (is_dict guarantees)
    then (none, sorted_set (errors ++ "guarantees_invalid" ∷ []))
    else report_or
        (policy_report "storage_id" "recovery_kind" "recovery_capability_proven" (is_empty reasons)
          payload reasons)
        (errors
          ++ (if bool_values guarantees then [] else "guarantee_values_must_be_boolean" ∷ [])
          ++ flags)

evaluate_storage : Value → Answer
evaluate_storage payload = do
  errors ← failures (identity_checks "storage_id" "recovery_kind" payload)
  flags ← failures (flag_checks payload)
  ok (recovery_from payload errors flags)

-- `evaluate_descriptor` of the recovery policy.
unfoldable pub evaluate_recovery : Value → Answer
unfolding evaluate_storage recovery_from identity_checks flag_checks report_or policy_report
    state_of missing bool_values all_bool is_evidence all_text is_text failures sorted_set
evaluate_recovery payload =
    if not (is_dict payload) then ok (none, "descriptor_invalid" ∷ []) else evaluate_storage payload

evaluate_recovery_lem :
    (payload : Value)
    → evaluate_recovery payload ≡ (
        if not (is_dict payload)
        then ok (none, "descriptor_invalid" ∷ [])
        else evaluate_storage payload)
unfolding evaluate_recovery
evaluate_recovery_lem payload = refl

-- `builtin_profile`: the path lock on Google Drive.
abbrev pub drive_profile : Value
drive_profile = obj (
    fields (
      ("schema_version", int (pos 1))
      ∷ ("descriptor_version", str "0.1.0")
      ∷ ("coordinator_id", str "rclone-google-drive-path-lock")
      ∷ ("coordination_kind", str "REMOTE_PATH_SENTINEL")
      ∷ (
        "evidence",
        arr (
            list_items (
              str "https://rclone.org/commands/rclone_copyto/"
              ∷ str "https://rclone.org/commands/rclone_moveto/"
              ∷ str "https://rclone.org/drive/#duplicated-files"
              ∷ [])),
      )
      ∷ (
        "guarantees",
        obj (
            fields (
              ("atomic_create_if_absent", bool false)
              ∷ ("compare_and_swap", bool false)
              ∷ ("read_after_write_consistency", bool false)
              ∷ ("durable_owner_identity", bool true)
              ∷ ("transaction_scoped_ownership", bool true)
              ∷ ("conflict_detection", bool false)
              ∷ ("no_silent_overwrite", bool false)
              ∷ ("stale_owner_requires_verified_recovery", bool true)
              ∷ ("release_requires_owner_or_verified_recovery", bool true)
              ∷ [])),
      )
      ∷ (
        "notes",
        str
            "Ordinary rclone path operations are not a proven exclusive CAS/lease primitive for Google Drive.",
      )
      ∷ []))
