-- ===== src/Mutation/Validate.antt =====
-- `safe_path` and `validate_transaction_for_mutation` of src/candidate_canonical_record_mutation.py.
pub mod Targets
pub mod Accepts
use technology_library_inges.Base.{
  ℕ, zero, suc, String, ◌<>◌, Bool, true, false, not, ◌&&◌, ◌||◌, Option, none, some, List, [], ◌∷◌,
  ◌++◌, ltb, str_eq, if◌then◌else◌, contains, length, is_empty, starts_with, decimal, sorted_set,
  Check, plain, failures, Result, ok, raised, type_error, ◌>>=◌,
}
use technology_library_inges.Json.{
  Value, null, bool, int, str, arr, obj, get, is_dict, is_true, is_false, eq_str, eq_nat,
  str_of_length, in_bools, items_list, text_or_empty,
}
use technology_library_inges.Paths.{
  PosixPath, forward_slashes, posix_path, is_absolute, parts, as_posix, strip_slashes,
}

abbrev pub transaction_plan_version : String
transaction_plan_version = "0.2.0"

abbrev pub max_items : ℕ
max_items = 50

-- `f"item_{index}_{what}"`
unfoldable pub tag : ℕ → String → String
tag i what = "item_" <> (decimal i <> ("_" <> what))

unfoldable pub safe_path : String → String → Option String
unfolding forward_slashes posix_path is_absolute parts as_posix strip_slashes starts_with
safe_path value prefix =
    let path = posix_path (forward_slashes value) in
    let normalized = strip_slashes (as_posix path) in
    if is_absolute path || is_empty (parts path) || contains (parts path) ".."
    then none
    else if starts_with normalized prefix
    then some normalized
    else none

pub data Action : Type 0 where
  create update unchanged : Action

abbrev pub is_update : Action → Bool
is_update update = true
is_update _ = false

-- `action not in {"CREATE", "UPDATE", "UNCHANGED"}` raises on a list or a dict.
unfoldable pub action_of : Value → Result (Option Action)
action_of (arr vs) = raised type_error
action_of (obj fs) = raised type_error
action_of (str s) =
    if str_eq s "CREATE"
    then ok (some create)
    else if str_eq s "UPDATE"
    then ok (some update)
    else if str_eq s "UNCHANGED"
    then ok (some unchanged)
    else ok none
action_of v = ok none

abbrev pub precondition : Action → String
precondition create = "TARGET_ABSENT"
precondition update = "EXACT_BASE_SHA"
precondition unchanged = "EXACT_BYTES_PRESENT"

-- The keys of a normalized item that the engine reads.
pub record Item : Type 0 where
  pub action : Action
  pub target_path : String
  pub content_path : String
  pub content_sha256 : Value
  pub base_sha256 : Value

-- One turn of the loop over the items: the item or its error code, and the targets seen so far.
pub data Verdict : Type 0 where
  rejected : String → List String → Verdict
  accepted : Item → List String → Verdict

-- The tests after `seen_targets.add(target)`.
check_digests : ℕ → List String → Value → Action → String → String → Verdict
check_digests i seen raw action target content_path =
    if not (str_of_length 64 (get "content_sha256" raw))
    then rejected (tag i "content_sha") seen
    else if is_update action && not (str_of_length 64 (get "base_sha256" raw))
    then rejected (tag i "base_sha") seen
    else if not (eq_str (get "precondition" raw) (precondition action))
    then rejected (tag i "precondition") seen
    else accepted
        (record {
          action = action;
          target_path = target;
          content_path = content_path;
          content_sha256 = get "content_sha256" raw;
          base_sha256 = get "base_sha256" raw;
        })
        seen

check_unseen : ℕ → List String → Value → Action → String → String → Verdict
check_unseen i seen raw action target content_path =
    if contains seen target
    then rejected (tag i "duplicate_target") seen
    else check_digests i (target ∷ seen) raw action target content_path

check_content_path : ℕ → List String → Value → Action → String → Option String → Verdict
check_content_path i seen raw action target none = rejected (tag i "content_path") seen
check_content_path i seen raw action target (some content_path) =
    check_unseen i seen raw action target content_path

check_target : ℕ → List String → Value → Action → Option String → Verdict
check_target i seen raw action none = rejected (tag i "target") seen
check_target i seen raw action (some target) =
    check_content_path i seen raw action target
      (safe_path (text_or_empty (get "content_path" raw)) "99_INBOX/CANDIDATES/")

check_paths : ℕ → List String → Value → Option Action → Verdict
check_paths i seen raw none = rejected (tag i "action") seen
check_paths i seen raw (some action) =
    check_target i seen raw action (safe_path (text_or_empty (get "target_path" raw)) "00_LIBRARY/")

pub check_item : ℕ → List String → Value → Result Verdict
check_item i seen raw =
    if not (is_dict raw)
    then ok (rejected (tag i "invalid") seen)
    else do action ← action_of (get "action" raw); ok (check_paths i seen raw action)

abbrev pub Scan : Type 0
Scan = List Item × List String

abbrev add : Verdict → Scan → Scan
add (rejected code seen) (items, codes) = (items, code ∷ codes)
add (accepted item seen) (items, codes) = (item ∷ items, codes)

abbrev pub seen_after : Verdict → List String
seen_after (rejected code seen) = seen
seen_after (accepted item seen) = seen

pub scan : ℕ → List String → List Value → Result Scan
scan i seen [] = ok ([], [])
scan i seen (raw ∷ rest) = do
  verdict ← check_item i seen raw
  more ← scan (suc i) (seen_after verdict) rest
  ok (add verdict more)

unfoldable pub header_checks : Value → List Check
header_checks plan =
    plain (eq_nat (get "schema_version" plan) 1) "transaction_schema"
    ∷ plain (eq_str (get "transaction_plan_version" plan) transaction_plan_version)
        "transaction_version"
    ∷ plain (is_false (get "canonical_write_performed" plan)) "transaction_write_flag"
    ∷ plain (is_true (get "requires_live_revalidation" plan)) "transaction_live_revalidation"
    ∷ (
      in_bools (get "requires_byte_verification_after_write" plan),
      "transaction_byte_verification_flag",
    )
    ∷ (in_bools (get "requires_rollback_on_partial_failure" plan), "transaction_rollback_flag")
    ∷ []

validate_items : List String → Value → Result Scan
validate_items errors (arr vs) =
    let rows = items_list vs in
    if ltb max_items (length rows)
    then ok ([], sorted_set (errors ++ ("transaction_items" ∷ [])))
    else do (items, codes) ← scan 0 [] rows; ok (items, sorted_set (errors ++ codes))
validate_items errors v = ok ([], sorted_set (errors ++ ("transaction_items" ∷ [])))

validate_dict : Value → Result Scan
validate_dict plan = do
  errors ← failures (header_checks plan)
  validate_items errors (get "items" plan)

unfoldable pub validate_transaction_for_mutation : Value → Result Scan
unfolding validate_dict header_checks validate_items failures scan check_item action_of check_paths
    check_target check_content_path check_unseen check_digests safe_path tag decimal sorted_set
validate_transaction_for_mutation plan =
    if not (is_dict plan) then ok ([], "transaction_invalid" ∷ []) else validate_dict plan
