-- ===== src/Planning/Tests.antt =====
-- Runs of `build_transaction_plan` of src/candidate_transaction_plan.py, and of its two lanes.
use technology_library_inges.Base.{
  String, ◌≡◌, ◌≤◌, refl, Bool, true, false, none, some, List, [], ◌∷◌, ◌++◌, map, length, All,
  IsSorted, Pairwise, sort_by, str_eq, ends_with, ok,
}
use technology_library_inges.Json.{pos, Value, bool, int, str, arr, obj, fields, get, list_items}
use technology_library_inges.Storage.{Bytes}
use technology_library_inges.Samples.{ones, twos, one_byte, two_bytes, sample_sha}
use technology_library_inges.Mutation.Validate.{Item, safe_path, validate_transaction_for_mutation}
use technology_library_inges.Planning.Names.{parsed}
use technology_library_inges.Planning.Manifest.{
  ManifestItem, parse_candidate_manifest, derive_target,
}
use technology_library_inges.Planning.Items.{UpdateItem, PlanItem, new_item, update_item, document}
use technology_library_inges.Planning.Lanes.{validate_new_lane, validate_update_artifact}
use technology_library_inges.Planning.Plan.{
  max_plan_items, max_plan_bytes, order, updates, plan_of_items, build_transaction_plan,
}
use technology_library_inges.Planning.Plan.Ordered.{
  Apart, Apart-swap, plan-items, build_transaction_plan-IsSorted,
}
use technology_library_inges.Planning.Plan.Counts.{Counts, build_transaction_plan-Counts}
use technology_library_inges.Planning.Plan.Mutable.{
  SafeRow, in_item, in_row, build_transaction_plan-validates,
}
use technology_library_inges.Planning.Plan.Formed.{RowFormed, build_transaction_plan-RowFormed}

abbrev id_one : String
id_one = "11111111111111111111"

abbrev id_two : String
id_two = "22222222222222222222"

abbrev record_row : Value
record_row = obj (
    fields (
      ("package_id", str id_one)
      ∷ ("revision_key", str id_one)
      ∷ ("record_id", str id_one)
      ∷ ("record_type", str "SOURCE")
      ∷ ("status", str "TEST")
      ∷ ("domain", str "SOURCES")
      ∷ ("category", str "A")
      ∷ ("slug", str "b")
      ∷ ("title", str "b")
      ∷ ("content_path", str "99_INBOX/CANDIDATES/PUBLISH_READY/records/b.md")
      ∷ ("content_sha256", str ones)
      ∷ []))

abbrev manifest_of : List Value → Value
manifest_of rows = obj (
    fields (
      ("schema_version", int (pos 1))
      ∷ ("publish_version", str "0.2.0")
      ∷ ("items", arr (list_items rows))
      ∷ []))

abbrev validation_of : String → Value
validation_of digest = obj (
    fields (
      ("schema_version", int (pos 1))
      ∷ ("validate_version", str "0.1.0")
      ∷ ("canonical_write_performed", bool false)
      ∷ (
        "items",
        arr (
            list_items (
              obj (
                fields (
                  ("action", str "CREATE")
                  ∷ ("target_path", str "00_LIBRARY/SOURCES/source-b.md")
                  ∷ ("record_id", str id_one)
                  ∷ ("content_sha256", str digest)
                  ∷ []))
              ∷ [])),
      )
      ∷ []))

abbrev artifact_for : String → Value
artifact_for target = obj (
    fields (
      ("schema_version", int (pos 1))
      ∷ ("update_ready_version", str "0.2.0")
      ∷ ("merge_render_version", str "0.1.0")
      ∷ ("canonical_write_performed", bool false)
      ∷ ("requires_base_sha_match_before_write", bool true)
      ∷ ("candidate_id", str id_two)
      ∷ ("record_id", str id_two)
      ∷ ("target_path", str target)
      ∷ ("base_sha256", str ones)
      ∷ ("merged_sha256", str twos)
      ∷ ("content_path", str "99_INBOX/CANDIDATES/UPDATE_READY/records/a.md")
      ∷ []))

abbrev new_record : ManifestItem
new_record = record {
  package_id = id_one;
  revision_key = id_one;
  record_id = id_one;
  record_type = "SOURCE";
  status = "TEST";
  domain = "SOURCES";
  category = "A";
  slug = "b";
  title = "b";
  content_path = "99_INBOX/CANDIDATES/PUBLISH_READY/records/b.md";
  content_sha256 = ones;
}

abbrev update_record : UpdateItem
update_record = record {
  candidate_id = id_two;
  record_id = id_two;
  target_path = "00_LIBRARY/A.md";
  content_path = "99_INBOX/CANDIDATES/UPDATE_READY/records/a.md";
  content_sha256 = twos;
  base_sha256 = ones;
}

test_parse :
    parse_candidate_manifest (manifest_of (record_row ∷ [])) ≡ ok (parsed (new_record ∷ []))
unfolding parse_candidate_manifest str_eq get ends_with
test_parse = refl

test_update :
    validate_update_artifact (artifact_for "00_LIBRARY/A.md") 0
    ≡ ok (some (update_item update_record), [])
unfolding validate_update_artifact str_eq get
test_update = refl

test_lane :
    validate_new_lane (manifest_of (record_row ∷ [])) (validation_of ones)
    ≡ ok (new_item true new_record ∷ [], [])
unfolding validate_new_lane str_eq get ends_with parse_candidate_manifest
test_lane = refl

test_lane_digest :
    validate_new_lane (manifest_of (record_row ∷ [])) (validation_of twos)
    ≡ ok (new_item true new_record ∷ [], "new_item_0_sha" ∷ [])
unfolding validate_new_lane str_eq get ends_with parse_candidate_manifest
test_lane_digest = refl

abbrev encode : Value → Bytes
encode v = two_bytes

abbrev always : Bytes → Bool
always bytes = true

abbrev sample_manifest : Value
sample_manifest = manifest_of (record_row ∷ [])

abbrev sample_artifacts : List Value
sample_artifacts = artifact_for "00_LIBRARY/A.md" ∷ []

-- The update comes first, since its target does.
abbrev built : Value
built =
    plan_of_items sample_sha always encode encode one_byte
      (update_item update_record ∷ new_item true new_record ∷ [])

test_build :
    build_transaction_plan sample_sha always encode encode one_byte sample_manifest
      (validation_of ones)
      sample_artifacts
    ≡ ok (some built, [])
unfolding build_transaction_plan str_eq get ends_with parse_candidate_manifest validate_new_lane
    validate_update_artifact
test_build = refl

test_build_twice :
    build_transaction_plan sample_sha always encode encode one_byte sample_manifest
      (validation_of ones)
      (artifact_for "00_LIBRARY/SOURCES/source-b.md" ∷ [])
    ≡ ok (none, "transaction_item_1_target_collision" ∷ [])
unfolding build_transaction_plan str_eq get ends_with parse_candidate_manifest validate_new_lane
    validate_update_artifact
test_build_twice = refl

test_build_missing :
    build_transaction_plan sample_sha always encode encode [] sample_manifest
      (validation_of ones)
      sample_artifacts
    ≡ ok (none, "master_missing" ∷ [])
unfolding build_transaction_plan
test_build_missing = refl

build_transaction_plan-IsSorted_example :
    (new : List PlanItem) × (ups : List PlanItem) × (items : List PlanItem) × (validate_new_lane
        sample_manifest
        (validation_of ones)
      ≡ ok (new, []))
    × (updates 0 sample_artifacts ≡ ok (ups, []))
    × (items ≡ sort_by order (new ++ ups))
    × (get "items" built ≡ arr (list_items (map document items)))
    × (get "master_index_sha256" built ≡ str (sample_sha one_byte))
    × IsSorted order items
    × Pairwise order Apart Apart-swap items
    × (length items ≤ max_plan_items)
    × (length (encode built) ≤ max_plan_bytes)
build_transaction_plan-IsSorted_example =
    build_transaction_plan-IsSorted sample_sha always encode encode one_byte sample_manifest
      (validation_of ones) built sample_artifacts test_build

build_transaction_plan-Counts_example :
    (documents : List Value) × (get "items" built ≡ arr (list_items documents))
    × Counts built documents
build_transaction_plan-Counts_example =
    build_transaction_plan-Counts sample_sha always encode encode one_byte sample_manifest
      (validation_of ones) built sample_artifacts test_build

build_transaction_plan-RowFormed_example :
    (rows : List Value) × (get "items" built ≡ arr (list_items rows)) × All RowFormed rows
build_transaction_plan-RowFormed_example =
    build_transaction_plan-RowFormed sample_sha always encode encode one_byte sample_manifest
      (validation_of ones) built sample_artifacts test_build

abbrev built_rows : List Value
built_rows = document (update_item update_record) ∷ document (new_item true new_record) ∷ []

built_safe : All SafeRow built_rows
unfolding document get safe_path str_eq derive_target
built_safe = ((refl, refl), ((refl, refl), tt))

built_items : get "items" built ≡ arr (list_items built_rows)
built_items =
    plan-items sample_sha always encode encode one_byte
      (update_item update_record ∷ new_item true new_record ∷ [])

build_transaction_plan-validates_example :
    (items : List Item) × (validate_transaction_for_mutation built ≡ ok (items, []))
    × (map in_item items ≡ map in_row built_rows)
build_transaction_plan-validates_example =
    build_transaction_plan-validates sample_sha always encode encode one_byte sample_manifest
      (validation_of ones) built sample_artifacts built_rows test_build built_items built_safe
