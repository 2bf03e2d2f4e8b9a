-- ===== src/Planning/Plan.antt =====
-- `build_transaction_plan` of src/candidate_transaction_plan.py. The digest, the two JSON encodings and
-- the UTF-8 test are parameters.
pub mod Ordered
pub mod Counts
pub mod Formed
pub mod Mutable
use technology_library_inges.Base.{
  ℕ, zero, suc, ◌+◌, String, ◌<>◌, ◌≡◌, refl, Bool, true, false, not, ◌&&◌, ◌||◌, Option, none,
  some, List, [], ◌∷◌, ◌++◌, map, ltb, leb, ◌==◌, str_eq, if◌then◌else◌, contains, length, is_empty,
  starts_with, ends_with, decimal, first_chars, sorted_set, sort_by, Check, plain, failures, Result,
  ok, raised, ◌>>=◌,
}
use technology_library_inges.Json.{
  pos, Value, null, bool, int, str, arr, obj, fields, get, is_dict, is_null, is_true, is_false,
  eq_str, eq_nat, in_set, items_list, list_items,
}
use technology_library_inges.Storage.{Bytes, Sha256}
use technology_library_inges.Planning.Names.{Parsed, parsed, invalid, matches, is_id, is_sha}
use technology_library_inges.Planning.Manifest.{
  ManifestItem, parse_candidate_manifest, derive_target, text,
}
use technology_library_inges.Planning.Items.{
  UpdateItem, PlanItem, new_item, update_item, target_of, id_of, lane_of, content_of, is_create,
  is_unchanged, is_update, is_write, document,
}
use technology_library_inges.Planning.Lanes.{validate_new_lane, validate_update_artifact, code_at}

abbrev pub max_plan_items : ℕ
max_plan_items = 50

abbrev pub max_plan_bytes : ℕ
max_plan_bytes = 262144

add_update :
    Option PlanItem × List String → List PlanItem × List String → List PlanItem × List String
add_update (none, codes) (items, more) = (items, codes ++ more)
add_update (some item, codes) (items, more) = (item ∷ items, codes ++ more)

pub updates : ℕ → List Value → Result (List PlanItem × List String)
updates i [] = ok ([], [])
updates i (payload ∷ rest) = do
  here ← validate_update_artifact payload i
  later ← updates (suc i) rest
  ok (add_update here later)

pub collisions : ℕ → List String → List String → List PlanItem → List String
collisions i targets ids [] = []
collisions i targets ids (item ∷ items) =
    let rest = collisions (suc i) (target_of item ∷ targets) (id_of item ∷ ids) items in
    (if contains targets (target_of item)
      then code_at "transaction_item" i "target_collision" ∷ []
      else [])
    ++ (if contains ids (id_of item)
        then code_at "transaction_item" i "record_id_collision" ∷ []
        else [])
    ++ rest

-- `(row["target_path"], row["record_id"], row["lane"])`
abbrev pub order : PlanItem → List String
order item = target_of item ∷ id_of item ∷ lane_of item ∷ []

-- `sum(1 for row in ordered if …)`
abbrev pub number : (PlanItem → Bool) → List PlanItem → ℕ
number test [] = 0
number test (item ∷ items) = let rest = number test items in if test item then suc rest else rest

module _ (sha256 : Sha256) (is_utf8 : Bytes → Bool)
    (canonical_json compact_json : Value → Bytes) where
  -- The plan of sorted items.
  pub plan_of_items : Bytes → List PlanItem → Value
  plan_of_items master ordered =
      let master_sha = sha256 master in
      let items = arr (list_items (map document ordered)) in
      let writes = number is_write ordered in
      let digest_input = obj (fields (("master_sha256", str master_sha) ∷ ("items", items) ∷ [])) in
      obj (
        fields (
          ("schema_version", int (pos 1))
          ∷ ("transaction_plan_version", str "0.2.0")
          ∷ ("transaction_id", str (first_chars 20 (sha256 (canonical_json digest_input))))
          ∷ ("master_index_sha256", str master_sha)
          ∷ ("canonical_write_performed", bool false)
          ∷ ("requires_live_revalidation", bool true)
          ∷ ("requires_atomic_record_writes", bool true)
          ∷ ("requires_index_rebuild_after_write", bool (ltb 0 writes))
          ∷ ("requires_byte_verification_after_write", bool (ltb 0 writes))
          ∷ ("requires_rollback_on_partial_failure", bool (ltb 0 writes))
          ∷ ("items", items)
          ∷ (
            "counts",
            obj (
                fields (
                  ("create", int (pos (number is_create ordered)))
                  ∷ ("update", int (pos (number is_update ordered)))
                  ∷ ("unchanged", int (pos (number is_unchanged ordered)))
                  ∷ ("writes", int (pos writes))
                  ∷ [])),
          )
          ∷ []))

  abbrev pub Built : Type 0
  Built = Option Value × List String

  sized : Value → Built
  sized plan =
      if ltb max_plan_bytes (length (compact_json plan))
      then (none, "transaction_plan_too_large" ∷ [])
      else (some plan, [])

  pub settle : Bytes → List PlanItem → List String → Built
  settle master items (code ∷ codes) = (none, sorted_set (code ∷ codes))
  settle master items [] = sized (plan_of_items master (sort_by order items))

  combine : Bytes → List PlanItem × List String → List PlanItem × List String → Built
  combine master (new_items, new_codes) (update_items, update_codes) =
      let items = new_items ++ update_items in
      settle master items (
        new_codes
        ++ update_codes
        ++ (if ltb max_plan_items (length items) then "too_many_items" ∷ [] else [])
        ++ collisions 0 [] [] items)

  build_lanes : Bytes → Value → Value → List Value → Result Built
  build_lanes master manifest validation update_artifacts = do
    new_lane ← validate_new_lane manifest validation
    update_lane ← updates 0 update_artifacts
    ok (combine master new_lane update_lane)

  unfoldable pub build_transaction_plan : Bytes → Value → Value → List Value → Result Built
  unfolding build_lanes combine settle sized plan_of_items document updates add_update collisions
      validate_new_lane validate_update_artifact code_at derive_target first_chars sort_by
      sorted_set
  build_transaction_plan master manifest validation update_artifacts =
      if is_empty master
      then ok (none, "master_missing" ∷ [])
      else if not (is_utf8 master)
      then ok (none, "master_utf8" ∷ [])
      else build_lanes master manifest validation update_artifacts
