-- ===== src/Planning/Items.antt =====
-- The items of a plan of src/candidate_transaction_plan.py.
use technology_library_inges.Base.{String, Bool, true, false, not, ◌||◌, [], ◌∷◌, if◌then◌else◌}
use technology_library_inges.Json.{Value, str, obj, fields}
use technology_library_inges.Planning.Manifest.{ManifestItem, derive_target}

-- The keys of an accepted update artifact.
pub record UpdateItem : Type 0 where
  pub candidate_id : String
  pub record_id : String
  pub target_path : String
  pub content_path : String
  pub content_sha256 : String
  pub base_sha256 : String

-- An item of the plan, of its lane; a new one says whether it is created or unchanged.
pub data PlanItem : Type 0 where
  new_item : (create : Bool) → ManifestItem → PlanItem
  update_item : UpdateItem → PlanItem

abbrev pub target_of : PlanItem → String
target_of (new_item create item) = derive_target item
target_of (update_item item) = item.target_path

abbrev pub id_of : PlanItem → String
id_of (new_item create item) = item.record_id
id_of (update_item item) = item.record_id

abbrev pub lane_of : PlanItem → String
lane_of (new_item create item) = "NEW"
lane_of (update_item item) = "UPDATE"

abbrev pub content_of : PlanItem → String
content_of (new_item create item) = item.content_path
content_of (update_item item) = item.content_path

-- `row["action"] == "CREATE"`, and the others.
abbrev pub is_create : PlanItem → Bool
is_create (new_item create item) = create
is_create (update_item item) = false

abbrev pub is_unchanged : PlanItem → Bool
is_unchanged (new_item create item) = not create
is_unchanged (update_item item) = false

abbrev pub is_update : PlanItem → Bool
is_update (new_item create item) = false
is_update (update_item item) = true

-- `row["action"] in {"CREATE", "UPDATE"}`
abbrev pub is_write : PlanItem → Bool
is_write item = is_create item || is_update item

unfoldable pub document : PlanItem → Value
document (new_item create item) = obj (
    fields (
      ("lane", str "NEW")
      ∷ ("action", str (if create then "CREATE" else "UNCHANGED"))
      ∷ ("package_id", str item.package_id)
      ∷ ("revision_key", str item.revision_key)
      ∷ ("record_id", str item.record_id)
      ∷ ("record_type", str item.record_type)
      ∷ ("title", str item.title)
      ∷ ("target_path", str (derive_target item))
      ∷ ("content_path", str item.content_path)
      ∷ ("content_sha256", str item.content_sha256)
      ∷ ("precondition", str (if create then "TARGET_ABSENT" else "EXACT_BYTES_PRESENT"))
      ∷ []))
document (update_item item) = obj (
    fields (
      ("lane", str "UPDATE")
      ∷ ("action", str "UPDATE")
      ∷ ("candidate_id", str item.candidate_id)
      ∷ ("record_id", str item.record_id)
      ∷ ("target_path", str item.target_path)
      ∷ ("content_path", str item.content_path)
      ∷ ("content_sha256", str item.content_sha256)
      ∷ ("base_sha256", str item.base_sha256)
      ∷ ("precondition", str "EXACT_BASE_SHA")
      ∷ []))
