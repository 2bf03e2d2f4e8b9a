-- ===== src/Planning/Plan/Mutable.antt =====
-- That `validate_transaction_for_mutation` of src/candidate_canonical_record_mutation.py accepts what
-- `build_transaction_plan` of src/candidate_transaction_plan.py builds.
use technology_library_inges.Base.{
  suc, String, ◌≡◌, refl, sym, ap, ◌∙◌, subst, Bool, true, false, not, some, List, [], ◌∷◌, ◌++◌,
  map, All, All-append, contains, ltb, length, str_eq, str_eq→eq, ok, Passes, sort_by, sort_by-All,
  Pairwise, sort_by-Pairwise, length-sort_by, Bool-cases, inl, inr, arith, ◌==◌, count,
}
use technology_library_inges.Json.{
  Value, str, arr, find_field, get, is_dict, items_list, list_items, items_list-list_items,
  str_of_length,
}
use technology_library_inges.Storage.{Bytes, Sha256}
use technology_library_inges.Mutation.Validate.{
  Action, create, update, unchanged, Item, precondition, action_of, safe_path, header_checks,
  validate_transaction_for_mutation,
}
use technology_library_inges.Mutation.Validate.Accepts.{
  IsMutable, Mutable, normal, AllNew, validate-accepts,
}
use technology_library_inges.Planning.Names.{is_sha}
use technology_library_inges.Planning.Manifest.{text}
use technology_library_inges.Planning.Manifest.Formed.{and-both}
use technology_library_inges.Planning.Items.{
  PlanItem, new_item, update_item, target_of, content_of, document,
}
use technology_library_inges.Planning.Lanes.Formed.{PlanFormed}
use technology_library_inges.Planning.Lanes.NewFormed.{validate_new_lane-PlanFormed}
use technology_library_inges.Planning.Plan.{order, plan_of_items, build_transaction_plan}
use technology_library_inges.Planning.Plan.Ordered.{
  Apart, Apart-swap, plan_over, build-Accepted, plan-items, collisions-Apart,
}
use technology_library_inges.Planning.Plan.Formed.{updates-PlanFormed}

-- The paths of a row are in the normal form that the engine gives them.
abbrev pub SafeRow : Value → Type 0
SafeRow row =
    (safe_path (text (get "target_path" row)) "00_LIBRARY/" ≡ some (text (get "target_path" row)))
    × (safe_path (text (get "content_path" row)) "99_INBOX/CANDIDATES/"
        ≡ some (text (get "content_path" row)))

-- What a row says, and what the engine's item says.
abbrev pub in_row : Value → List Value
in_row row =
    get "target_path" row
    ∷ get "content_path" row
    ∷ get "content_sha256" row
    ∷ get "base_sha256" row
    ∷ get "precondition" row
    ∷ []

abbrev pub in_item : Item → List Value
in_item item =
    str item.target_path
    ∷ str item.content_path
    ∷ item.content_sha256
    ∷ item.base_sha256
    ∷ str (precondition item.action)
    ∷ []

abbrev action_in : PlanItem → Action
action_in (new_item true item) = create
action_in (new_item false item) = unchanged
action_in (update_item item) = update

abbrev engine_item : PlanItem → Item
engine_item = normal document action_in target_of content_of

sha-long : (s : String) → is_sha s ≡ true → str_of_length 64 (str s) ≡ true
unfolding is_sha str_of_length
sha-long s h = (and-both (count s == 64) _ h).0

document-IsMutable :
    (item : PlanItem)
    → PlanFormed item
    → SafeRow (document item)
    → IsMutable (document item) (action_in item) (target_of item) (content_of item)
unfolding document get find_field str_eq action_of
document-IsMutable (new_item true item) (_, sha, _, _, _, _) (t, c) =
    (refl, refl, refl, t, refl, c, sha-long item.content_sha256 sha, refl, refl)
document-IsMutable (new_item false item) (_, sha, _, _, _, _) (t, c) =
    (refl, refl, refl, t, refl, c, sha-long item.content_sha256 sha, refl, refl)
document-IsMutable (update_item item) (_, sha, _, _, _, base) (t, c) = (
  refl,
  refl,
  refl,
  t,
  refl,
  c,
  sha-long item.content_sha256 sha,
  ap not (sha-long item.base_sha256 base),
  refl,
)

documents-Mutable :
    (items : List PlanItem)
    → All PlanFormed items
    → All SafeRow (map document items)
    → All (Mutable document action_in target_of content_of) items
documents-Mutable [] all safe = tt
documents-Mutable (item ∷ items) (one, all) (s, safe) =
    (document-IsMutable item one s, documents-Mutable items all safe)

agree : (item : PlanItem) → in_item (engine_item item) ≡ in_row (document item)
unfolding document get find_field str_eq
agree (new_item true item) = refl
agree (new_item false item) = refl
agree (update_item item) = refl

all_agree :
    (items : List PlanItem) → map in_item (map engine_item items) ≡ map in_row (map document items)
all_agree [] = refl
all_agree (item ∷ items) = rw (agree item, all_agree items) refl

unseen_more :
    (seen : List String) (x : PlanItem) (ys : List PlanItem)
    → All (λ y. contains seen (target_of y) ≡ false) ys
    → All (Apart x) ys
    → All (λ y. contains (target_of x ∷ seen) (target_of y) ≡ false) ys
unseen_more seen x [] all apart = tt
unseen_more seen x (y ∷ ys) (one, all) ((t, i), apart) = (
  elim (Bool-cases (str_eq (target_of y) (target_of x))) [
    | inl same ↦ absurd (t (sym (str_eq→eq (target_of y) (target_of x) same)))
    | inr differ ↦ ground (arith, one, differ)
  ],
  unseen_more seen x ys all apart,
)

Apart-AllNew :
    (seen : List String) (items : List PlanItem)
    → All (λ item. contains seen (target_of item) ≡ false) items
    → Pairwise order Apart Apart-swap items
    → AllNew document action_in target_of content_of seen items
Apart-AllNew seen [] all apart = tt
Apart-AllNew seen (item ∷ items) (one, all) (here, apart) =
    (one, Apart-AllNew (target_of item ∷ seen) items (unseen_more seen item items all here) apart)

none_seen : (items : List PlanItem) → All (λ item. contains [] (target_of item) ≡ false) items
none_seen [] = tt
none_seen (item ∷ items) = (refl, none_seen items)

length-map : (items : List PlanItem) → length (map document items) ≡ length items
length-map [] = refl
length-map (item ∷ items) = ap suc (length-map items)

rows_in : Value → List Value
rows_in (arr vs) = items_list vs
rows_in v = []

module _ (sha256 : Sha256) (is_utf8 : Bytes → Bool)
    (canonical_json compact_json : Value → Bytes) where
  plan-header :
      (master : Bytes) (items : List PlanItem)
      → Passes (header_checks (plan_over sha256 is_utf8 canonical_json compact_json master items))
  unfolding plan_of_items header_checks get find_field str_eq
  plan-header master items = (refl, (refl, (refl, (refl, (refl, (refl, tt))))))

  plan-is_dict :
      (master : Bytes) (items : List PlanItem)
      → is_dict (plan_over sha256 is_utf8 canonical_json compact_json master items) ≡ true
  unfolding plan_of_items
  plan-is_dict master items = refl

  -- A built plan whose paths are in normal form passes the validation of the engine without a code,
  -- and the engine's items are the plan's rows, in their order: the same targets, sources, digests,
  -- base digests and preconditions.
  pub build_transaction_plan-validates :
      (master : Bytes) (manifest validation plan : Value) (artifacts rows : List Value)
      → build_transaction_plan sha256 is_utf8 canonical_json compact_json master manifest validation
          artifacts
        ≡ ok (some plan, [])
      → get "items" plan ≡ arr (list_items rows)
      → All SafeRow rows
      → (items : List Item) × (validate_transaction_for_mutation plan ≡ ok (items, []))
        × (map in_item items ≡ map in_row rows)
  unfolding rows_in
  build_transaction_plan-validates master manifest validation plan artifacts rows h at_items safe =
      let (new, ups, (first, second, few, apart, fits, same)) =
        build-Accepted sha256 is_utf8 canonical_json compact_json master manifest validation plan
          artifacts h in
      let items = sort_by order (new ++ ups) in
      let listed = plan-items sha256 is_utf8 canonical_json compact_json master items in
      let same_rows : rows ≡ map document items =
        sym (items_list-list_items rows)
        ∙ ap rows_in (sym at_items ∙ ap (get "items") same ∙ listed)
        ∙ items_list-list_items (map document items) in
      let formed = sort_by-All order PlanFormed (new ++ ups) (
        All-append PlanFormed new ups
          (validate_new_lane-PlanFormed manifest validation new [] first)
          (updates-PlanFormed 0 artifacts (ups, []) second)) in
      let length_same = length-map items ∙ length-sort_by order (new ++ ups) in
      (
        map engine_item items,
        ap validate_transaction_for_mutation same
            ∙ validate-accepts document action_in target_of content_of
                (plan_over sha256 is_utf8 canonical_json compact_json master items) items
                (plan-is_dict master items) (plan-header master items) listed
                (subst (λ n. ltb 50 n ≡ false) (sym length_same) few)
                (documents-Mutable items formed (subst (All SafeRow) same_rows safe))
                (Apart-AllNew [] items (none_seen items) (
                  sort_by-Pairwise order Apart Apart-swap (new ++ ups)
                    (collisions-Apart 0 [] [] (new ++ ups) apart).1)),
        all_agree items ∙ ap (map in_row) (sym same_rows),
      )
