-- ===== src/Planning/Lanes.antt =====
-- `validate_new_lane` and `validate_update_artifact` of src/candidate_transaction_plan.py.
pub mod Formed
pub mod NewFormed
use technology_library_inges.Base.{
  ℕ, zero, suc, ◌+◌, String, ◌<>◌, ◌≡◌, refl, Bool, true, false, not, ◌&&◌, ◌||◌, Option, none,
  some, List, [], ◌∷◌, ◌++◌, map, ltb, leb, ◌==◌, str_eq, if◌then◌else◌, contains, subset, length,
  is_empty, starts_with, ends_with, decimal, first_chars, sorted_set, sort_by, Check, plain,
  failures, Result, ok, raised, ◌>>=◌,
}
use technology_library_inges.Json.{
  pos, Value, null, bool, int, str, arr, obj, fields, get, is_dict, is_null, is_true, is_false,
  eq_str, eq_nat, in_set, items_list, list_items,
}
use technology_library_inges.Storage.{Bytes, Sha256}
use technology_library_inges.Planning.Names.{Parsed, parsed, invalid, matches, is_id, is_sha}
use technology_library_inges.Planning.Manifest.{
  ManifestItem, parse_candidate_manifest, derive_target, text,
}
use technology_library_inges.Planning.Items.{
  UpdateItem, PlanItem, new_item, update_item, target_of, id_of, lane_of, content_of, is_create,
  is_unchanged, is_update, is_write, document,
}

-- `f"{group}_{index}_{what}"`
unfoldable pub code_at : String → ℕ → String → String
code_at group i what = group <> ("_" <> (decimal i <> ("_" <> what)))

abbrev unless : Bool → String → List String
unless passed code = if passed then [] else code ∷ []

-- `by_target[target]`: the last item with a target is the one that the dict keeps.
pub by_target : List ManifestItem → String → Option ManifestItem
by_target [] target = none
by_target (item ∷ items) target =
    let later = by_target items target in
    elim later [
      | some found ↦ some found
      | none ↦ if str_eq (derive_target item) target then some item else none
    ]

-- What one turn of the loop adds: codes, an item, a seen target.
abbrev pub Lane : Type 0
Lane = List PlanItem × List String × List String

pub matched_row : ℕ → List String → Value → Bool → String → ManifestItem → Lane
matched_row i seen raw create target item = (
  new_item create item ∷ [],
  unless (eq_str (get "record_id" raw) item.record_id) (code_at "new_item" i "record_id")
      ++ unless (eq_str (get "content_sha256" raw) item.content_sha256) (code_at "new_item" i "sha")
      ++ unless (not (contains seen target)) (code_at "new_item" i "duplicate_target"),
  target ∷ [],
)

found_row : ℕ → List String → Value → Bool → String → Option ManifestItem → Lane
found_row i seen raw create target none = ([], code_at "new_item" i "target" ∷ [], [])
found_row i seen raw create target (some item) = matched_row i seen raw create target item

target_row : ℕ → List String → List ManifestItem → Value → Bool → Value → Lane
target_row i seen manifest raw create (str target) =
    found_row i seen raw create target (by_target manifest target)
target_row i seen manifest raw create v = ([], code_at "new_item" i "target" ∷ [], [])

action_row : ℕ → List String → List ManifestItem → Value → Bool → Lane
action_row i seen manifest raw allowed =
    if allowed
    then target_row i seen manifest raw (eq_str (get "action" raw) "CREATE") (get "target_path" raw)
    else ([], code_at "new_item" i "action" ∷ [], [])

pub new_row : ℕ → List String → List ManifestItem → Value → Result Lane
new_row i seen manifest raw =
    if is_dict raw
    then (do
      allowed ← in_set (get "action" raw) ("CREATE" ∷ "UNCHANGED" ∷ [])
      ok (action_row i seen manifest raw allowed))
    else ok ([], code_at "new_item" i "invalid" ∷ [], [])

join : Lane → Lane → Lane
join (items, codes, seen) (items', codes', seen') =
    (items ++ items', codes ++ codes', seen ++ seen')

pub new_rows : ℕ → List String → List ManifestItem → List Value → Result Lane
new_rows i seen manifest [] = ok ([], [], [])
new_rows i seen manifest (raw ∷ rest) = do
  here ← new_row i seen manifest raw
  later ← new_rows (suc i) (here.2 ++ seen) manifest rest
  ok (join here later)

abbrev targets : List ManifestItem → List String
targets items = map derive_target items

-- `set(by_target) != seen_targets`
same_set : List String → List String → Bool
same_set xs ys = subset xs ys && subset ys xs

lane_result : List ManifestItem → List Value → Lane → List PlanItem × List String
lane_result manifest rows (items, codes, seen) = (
  items,
  sorted_set (
      codes
      ++ unless (length rows == length manifest) "new_lane_item_count_mismatch"
      ++ unless (same_set (targets manifest) seen) "new_lane_target_set_mismatch"),
)

abbrev pub LaneResult : Type 0
LaneResult = Result (List PlanItem × List String)

refuse : String → LaneResult
refuse code = ok ([], code ∷ [])

lane_items : List ManifestItem → Value → LaneResult
lane_items manifest (arr vs) = do
  lane ← new_rows 0 [] manifest (items_list vs)
  ok (lane_result manifest (items_list vs) lane)
lane_items manifest v = refuse "new_validation_items"

after_manifest : Value → Parsed (List ManifestItem) → LaneResult
after_manifest validation (invalid code) = refuse ("new_manifest_" <> code)
after_manifest validation (parsed manifest) =
    if not (eq_nat (get "schema_version" validation) 1)
    then refuse "new_validation_schema"
    else if not (eq_str (get "validate_version" validation) "0.1.0")
    then refuse "new_validation_version"
    else if not (is_false (get "canonical_write_performed" validation))
    then refuse "new_validation_write_flag"
    else lane_items manifest (get "items" validation)

-- `None` is `null`.
unfoldable pub validate_new_lane : Value → Value → LaneResult
unfolding after_manifest lane_items lane_result same_set subset refuse new_rows new_row action_row
    target_row found_row matched_row join by_target code_at decimal parse_candidate_manifest
    derive_target sorted_set
validate_new_lane manifest validation =
    if is_null manifest && is_null validation
    then ok ([], [])
    else if not (is_dict manifest)
    then refuse "new_manifest_missing"
    else if not (is_dict validation)
    then refuse "new_validation_plan_missing"
    else (do items ← parse_candidate_manifest manifest; after_manifest validation items)

starts_and_ends : String → String → String → Bool
starts_and_ends prefix suffix s = starts_with s prefix && ends_with s suffix

abbrev pub records_prefix : String
records_prefix = "99_INBOX/CANDIDATES/UPDATE_READY/records/"

pub update_checks : ℕ → Value → List Check
update_checks i payload =
    plain (eq_nat (get "schema_version" payload) 1) (code_at "update" i "schema")
    ∷ plain (eq_str (get "update_ready_version" payload) "0.2.0")
        (code_at "update" i "ready_version")
    ∷ plain (eq_str (get "merge_render_version" payload) "0.1.0") (code_at "update" i "version")
    ∷ plain (is_false (get "canonical_write_performed" payload)) (code_at "update" i "write_flag")
    ∷ plain (is_true (get "requires_base_sha_match_before_write" payload))
        (code_at "update" i "base_guard")
    ∷ plain (matches is_id (get "candidate_id" payload)) (code_at "update" i "candidate_id")
    ∷ plain (matches is_id (get "record_id" payload)) (code_at "update" i "record_id")
    ∷ plain (matches (starts_and_ends "00_LIBRARY/" ".md") (get "target_path" payload))
        (code_at "update" i "target")
    ∷ plain (matches is_sha (get "base_sha256" payload)) (code_at "update" i "base_sha")
    ∷ plain (matches is_sha (get "merged_sha256" payload)) (code_at "update" i "merged_sha")
    ∷ plain (matches (λ s. starts_with s records_prefix) (get "content_path" payload))
        (code_at "update" i "content_path")
    ∷ []

pub update_of : Value → UpdateItem
update_of payload = record {
  candidate_id = text (get "candidate_id" payload);
  record_id = text (get "record_id" payload);
  target_path = text (get "target_path" payload);
  content_path = text (get "content_path" payload);
  content_sha256 = text (get "merged_sha256" payload);
  base_sha256 = text (get "base_sha256" payload);
}

update_result : Value → List String → Option PlanItem × List String
update_result payload [] = (some (update_item (update_of payload)), [])
update_result payload (code ∷ codes) = (none, sorted_set (code ∷ codes))

unfoldable pub validate_update_artifact : Value → ℕ → Result (Option PlanItem × List String)
unfolding update_result update_of update_checks starts_and_ends code_at decimal failures is_id
    is_sha starts_with ends_with sorted_set
validate_update_artifact payload i =
    if is_dict payload
    then (do codes ← failures (update_checks i payload); ok (update_result payload codes))
    else ok (none, code_at "update" i "invalid" ∷ [])
