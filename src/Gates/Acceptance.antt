-- ===== src/Gates/Acceptance.antt =====
-- src/candidate_batch_editorial_acceptance.py: the acceptance of one exact batch.
use technology_library_inges.Base.{
  ℕ, suc, String, ◌<>◌, Bool, true, false, not, ◌&&◌, Option, none, some, List, [], ◌∷◌, ◌++◌,
  if◌then◌else◌, is_empty, sorted_set, sort_by, Check, plain, failures, Result, ok, ◌>>=◌, map,
}
use technology_library_inges.Json.{
  pos, Value, bool, int, str, arr, obj, fields, list_items, get, is_dict, is_true, is_false, eq_str,
  nonempty_str, str_of_length, value_eq, text_of,
}
use technology_library_inges.Mutation.Validate.{tag}
use technology_library_inges.Transaction.Engine.{plan_items}

binding : Value → Value
binding item = obj (
    fields (
      ("title", get "title" item)
      ∷ ("record_id", get "record_id" item)
      ∷ ("action", get "action" item)
      ∷ ("target_path", get "target_path" item)
      ∷ ("content_sha256", get "content_sha256" item)
      ∷ []))

rows_of : List Value → List Value
rows_of [] = []
rows_of (item ∷ items) =
    let rest = rows_of items in if is_dict item then binding item ∷ rest else rest

-- `_bindings`
unfoldable pub bindings : Value → Result (List Value)
unfolding rows_of binding plan_items sort_by text_of
bindings report = do
  items ← plan_items report
  ok (
      sort_by
        (λ (row : Value). text_of (get "target_path" row) ∷ text_of (get "record_id" row) ∷ [])
        (rows_of items))

is_bound : Value → Bool
is_bound row =
    nonempty_str (get "title" row)
    && (nonempty_str (get "record_id" row)
        && (nonempty_str (get "action" row)
            && (nonempty_str (get "target_path" row) && nonempty_str (get "content_sha256" row))))

unbound : ℕ → List Value → List String
unbound i [] = []
unbound i (row ∷ rows) =
    let rest = unbound (suc i) rows in if is_bound row then rest else tag i "binding" ∷ rest

batch_checks : Value → List Value → List Check
batch_checks report rows =
    plain (eq_str (get "state" report) "READY_FOR_EDITORIAL_REVIEW")
      "batch_not_ready_for_editorial_review"
    ∷ plain (is_true (get "live_preconditions_verified" report))
        "batch_live_preconditions_not_verified"
    ∷ plain (is_false (get "canonical_write_performed" report)) "batch_write_flag"
    ∷ plain (nonempty_str (get "batch_id" report)) "batch_id"
    ∷ plain (str_of_length 64 (get "master_index_sha256" report)) "master_index_sha256"
    ∷ plain (not (is_empty rows)) "batch_items_empty"
    ∷ []

-- `get` on a value that is no dict answers `null`, as the empty dict does.
counts_of : Value → Value
counts_of counts = obj (
    fields (
      ("items", get "items" counts)
      ∷ ("create", get "create" counts)
      ∷ ("update", get "update" counts)
      ∷ ("unchanged", get "unchanged" counts)
      ∷ []))

acceptance_of : Value → List Value → Value
acceptance_of report rows = obj (
    fields (
      ("schema_version", int (pos 1))
      ∷ ("acceptance_version", str "0.1.0")
      ∷ ("state", str "EDITORIALLY_ACCEPTED")
      ∷ ("batch_id", get "batch_id" report)
      ∷ ("master_index_sha256", get "master_index_sha256" report)
      ∷ ("counts", counts_of (get "counts" report))
      ∷ ("items", arr (list_items rows))
      ∷ ("editorial_review_complete", bool true)
      ∷ ("all_current_items_accepted", bool true)
      ∷ ("production_publish_authorized", bool false)
      ∷ ("canonical_write_performed", bool false)
      ∷ []))

acceptance_or : Value → List Value → List String → Option Value × List String
acceptance_or report rows [] = (some (acceptance_of report rows), [])
acceptance_or report rows (code ∷ codes) = (none, sorted_set (code ∷ codes))

unfoldable pub build_acceptance : Value → Result (Option Value × List String)
unfolding bindings batch_checks unbound is_bound acceptance_or acceptance_of counts_of failures
    sorted_set str_of_length tag
build_acceptance report =
    if not (is_dict report) then ok (none, "batch_report_invalid" ∷ []) else (do
      rows ← bindings report
      codes ← failures (batch_checks report rows)
      ok (acceptance_or report rows (codes ++ unbound 0 rows)))

same_field : Value → Value → String → String → Check
same_field payload expected key code = plain (value_eq (get key payload) (get key expected)) code

pub acceptance_checks : Value → Value → List Check
unfolding same_field
acceptance_checks payload expected =
    same_field payload expected "schema_version" "acceptance_schema_version"
    ∷ same_field payload expected "acceptance_version" "acceptance_acceptance_version"
    ∷ same_field payload expected "state" "acceptance_state"
    ∷ same_field payload expected "batch_id" "acceptance_batch_id"
    ∷ same_field payload expected "master_index_sha256" "acceptance_master_index_sha256"
    ∷ same_field payload expected "editorial_review_complete" "acceptance_editorial_review_complete"
    ∷ same_field payload expected "all_current_items_accepted"
        "acceptance_all_current_items_accepted"
    ∷ same_field payload expected "production_publish_authorized"
        "acceptance_production_publish_authorized"
    ∷ same_field payload expected "canonical_write_performed" "acceptance_canonical_write_performed"
    ∷ same_field payload expected "counts" "acceptance_counts"
    ∷ same_field payload expected "items" "acceptance_item_bindings"
    ∷ []

against : Value → Option Value × List String → Result (List String)
against payload (expected, code ∷ codes) = ok (map (λ c. "batch:" <> c) (code ∷ codes))
against payload (none, []) = ok ("batch:invalid" ∷ [])
against payload (some expected, []) = do
  codes ← failures (acceptance_checks payload expected)
  ok (sorted_set codes)

unfoldable pub validate_acceptance : Value → Value → Result (List String)
unfolding against acceptance_checks build_acceptance failures sorted_set value_eq
validate_acceptance payload report =
    if not (is_dict payload)
    then ok ("acceptance_invalid" ∷ [])
    else (do built ← build_acceptance report; against payload built)
