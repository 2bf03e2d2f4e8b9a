-- ===== src/Publish/Seal.antt =====
-- `planned_index_changes` and `bind_expected_post_hashes` of src/candidate_controlled_publish.py: what
-- the transaction will write, computed before it writes.
pub mod Kept
pub mod Bound
pub mod Truthful
use technology_library_inges.Base.{
  ℕ, String, ◌<>◌, ◌≡◌, refl, Bool, true, false, not, Option, none, some, List, [], ◌∷◌, ◌++◌, map,
  str_eq, if◌then◌else◌, contains, is_empty, sorted_set, Result, ok, raised, type_error, key_error,
  ◌>>=◌,
}
use technology_library_inges.Json.{
  Value, null, bool, int, str, arr, obj, get, index, set_key, items_list, list_items,
}
use technology_library_inges.Storage.{Bytes, Storage, Sha256, holds, bytes_eq}
use technology_library_inges.Mutation.Validate.{Item, validate_transaction_for_mutation}
use technology_library_inges.Mutation.Execute.{
  Expected, Preflight, preflight_record_mutations, preflight_scan, preflight_items, check_content,
  target_errors,
}
use technology_library_inges.Transaction.Indexes.{
  IndexBuilder, Indexes, LibraryRecord, build_index_plan,
}
use technology_library_inges.Transaction.Engine.{post_transaction_record_paths}
use technology_library_inges.Prewrite.Capture.{affected_index_paths}

-- `targets[path] if path in targets else read(path)`
unfoldable pub read_over : Expected → (String → Option Bytes) → String → Option Bytes
read_over targets read path = elim (targets path) [ none ↦ read path | some b ↦ some b ]

-- `predicted = dict(targets); predicted.update(indexes)`
unfoldable pub predict : Indexes → Expected → String → Option Bytes
predict [] targets path = targets path
predict ((p, b) ∷ indexes) targets path =
    if str_eq p path then some b else predict indexes targets path

module _ (S : Storage) (sha256 : Sha256) (B : IndexBuilder) where
  changed_paths : Indexes → S.State → List String
  changed_paths [] s = []
  changed_paths ((path, expected) ∷ indexes) s =
      let rest = changed_paths indexes s in
      if holds (S.read s path) expected then rest else path ∷ rest

  -- `set(changed) - allowed`
  without : List String → List String → List String
  without [] allowed = []
  without (path ∷ paths) allowed =
      let rest = without paths allowed in if contains allowed path then rest else path ∷ rest

  -- The changed paths, with those that the plan does not explain.
  scope : List String → List String → List String × List String
  scope changed allowed =
      let unexpected = sorted_set (without changed allowed) in
      (changed, map (λ (path : String). "unexpected_index_change_scope:" <> path) unexpected)

  in_scope :
      Value
      → S.State
      → Option Indexes × List LibraryRecord × List String
      → Result (List String × List String)
  in_scope plan s (indexes, records, code ∷ codes) = ok ([], code ∷ codes)
  in_scope plan s (none, records, []) = ok ([], "virtual_index_plan_failed" ∷ [])
  in_scope plan s (some indexes, records, []) = do
    allowed ← affected_index_paths plan
    ok (scope (sorted_set (changed_paths indexes s)) allowed)

  changes_after :
      Value → List String → S.State → Preflight S sha256 → Result (List String × List String)
  changes_after plan before s (items, targets, code ∷ codes) =
      ok ([], map (λ (c : String). "record_preflight:" <> c) (code ∷ codes))
  changes_after plan before s (items, targets, []) = do
    paths ← post_transaction_record_paths plan before
    in_scope plan s (build_index_plan B paths (read_over targets (S.read s)))

  unfoldable pub planned_index_changes :
      Value → List String → S.State → Result (List String × List String)
  unfolding changes_after in_scope scope without changed_paths preflight_record_mutations
      validate_transaction_for_mutation preflight_scan preflight_items check_content target_errors
      post_transaction_record_paths build_index_plan affected_index_paths read_over sorted_set holds
      bytes_eq
  planned_index_changes plan before s = do
    preflight ← preflight_record_mutations S sha256 plan s
    changes_after plan before s preflight

  -- `predicted.get(path)` for what a row names: a list or a dict has no hash, and no other value
  -- is the path of a file.
  content_of : (String → Option Bytes) → Value → Result (Option Bytes)
  content_of predicted (str path) = ok (predicted path)
  content_of predicted (arr vs) = raised type_error
  content_of predicted (obj fs) = raised type_error
  content_of predicted v = ok none

  -- The row with its digest, or the row as it is where the content is missing.
  pub seal_row : Value → Option Bytes → Option Value
  seal_row row none = none
  seal_row row (some b) = some (set_key "after_sha256" (str (sha256 b)) row)

  -- The rows of one group, and whether every row was sealed; the first that is not ends the loop.
  sealed_rows :
      Option Value → Value → List Value → Result (List Value × Bool) → Result (List Value × Bool)
  sealed_rows none row rows later = ok (row ∷ rows, false)
  sealed_rows (some sealed) row rows later = do
    (more, complete) ← later
    ok (sealed ∷ more, complete)

  pub seal_rows : (String → Option Bytes) → String → List Value → Result (List Value × Bool)
  seal_rows predicted key [] = ok ([], true)
  seal_rows predicted key (row ∷ rows) =
      let later = seal_rows predicted key rows in
      do
        path ← index key row
        content ← content_of predicted path
        sealed_rows (seal_row row content) row rows later

  -- `for item in journal[group]`; a prepared journal has two lists.
  rows_at : Value → Result (List Value)
  rows_at (arr vs) = ok (items_list vs)
  rows_at v = raised type_error

  -- The journal after one group, and whether it is complete.
  pub seal_group : (String → Option Bytes) → String → String → Value → Result (Value × Bool)
  seal_group predicted group key journal = do
    listed ← index group journal
    rows ← rows_at listed
    (rows', complete) ← seal_rows predicted key rows
    ok (set_key group (arr (list_items rows')) journal, complete)

  sealed_items : (String → Option Bytes) → Value × Bool → Result (Value × Bool)
  sealed_items predicted (journal, false) = ok (journal, false)
  sealed_items predicted (journal, true) = seal_group predicted "indexes" "path" journal

  pub seal : (String → Option Bytes) → Value → Result (Value × Bool)
  seal predicted journal = do
    first ← seal_group predicted "items" "target_path" journal
    sealed_items predicted first

  -- The journal as it is afterwards, and the errors.
  abbrev pub Bound : Type 0
  Bound = Value × List String

  sealed_or_missing : Value × Bool → Bound
  sealed_or_missing (journal, true) = (journal, [])
  sealed_or_missing (journal, false) = (journal, "expected_post_content_missing" ∷ [])

  bind_indexes : Value → Expected → Option Indexes × List LibraryRecord × List String → Result Bound
  bind_indexes journal targets (none, records, codes) =
      ok (journal, "expected_index_preflight_failed" ∷ [])
  bind_indexes journal targets (some indexes, records, code ∷ codes) =
      ok (journal, "expected_index_preflight_failed" ∷ [])
  bind_indexes journal targets (some indexes, records, []) = do
    sealed ← seal (predict indexes targets) journal
    ok (sealed_or_missing sealed)

  bind_targets : Value → Value → List String → S.State → Preflight S sha256 → Result Bound
  bind_targets journal transaction record_paths s (items, targets, code ∷ codes) =
      ok (journal, "expected_record_preflight_failed" ∷ [])
  bind_targets journal transaction record_paths s (items, targets, []) = do
    paths ← post_transaction_record_paths transaction record_paths
    bind_indexes journal targets (build_index_plan B paths (read_over targets (S.read s)))

  unfoldable pub bind_expected_post_hashes : Value → Value → List String → S.State → Result Bound
  unfolding bind_targets bind_indexes sealed_or_missing seal sealed_items seal_group rows_at
      seal_rows sealed_rows seal_row content_of preflight_record_mutations
      validate_transaction_for_mutation preflight_scan preflight_items check_content target_errors
      post_transaction_record_paths build_index_plan read_over predict set_key index
  bind_expected_post_hashes journal transaction record_paths s = do
    preflight ← preflight_record_mutations S sha256 transaction s
    bind_targets journal transaction record_paths s preflight
