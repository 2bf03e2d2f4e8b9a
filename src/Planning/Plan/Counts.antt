-- ===== src/Planning/Plan/Counts.antt =====
-- The counts of a plan of `build_transaction_plan` of src/candidate_transaction_plan.py.
use technology_library_inges.Base.{
  ℕ, suc, ◌+◌, String, ◌≡◌, refl, sym, ap, ◌∙◌, subst, Bool, true, false, some, List, [], ◌∷◌, ◌++◌,
  map, ltb, if◌then◌else◌, length, str_eq, sort_by, ok, arith,
}
use technology_library_inges.Json.{pos, Value, bool, int, arr, find_field, get, eq_str, list_items}
use technology_library_inges.Storage.{Bytes, Sha256}
use technology_library_inges.Planning.Items.{
  PlanItem, new_item, update_item, is_create, is_unchanged, is_update, is_write, document,
}
use technology_library_inges.Planning.Plan.{order, number, plan_of_items, build_transaction_plan}
use technology_library_inges.Planning.Plan.Ordered.{plan_over, build-Accepted, plan-items}

-- The documents with an action.
abbrev pub with_action : String → List Value → ℕ
with_action action [] = 0
with_action action (item ∷ items) =
    let rest = with_action action items in
    if eq_str (get "action" item) action then suc rest else rest

action-document :
    (item : PlanItem)
    → (eq_str (get "action" (document item)) "CREATE" ≡ is_create item)
      × (eq_str (get "action" (document item)) "UPDATE" ≡ is_update item)
      × (eq_str (get "action" (document item)) "UNCHANGED" ≡ is_unchanged item)
unfolding get find_field str_eq document
action-document (new_item true item) = (refl, refl, refl)
action-document (new_item false item) = (refl, refl, refl)
action-document (update_item item) = (refl, refl, refl)

actions-number :
    (action : String) (test : PlanItem → Bool)
    → ((item : PlanItem) → eq_str (get "action" (document item)) action ≡ test item)
    → (items : List PlanItem) → with_action action (map document items) ≡ number test items
actions-number action test same [] = refl
actions-number action test same (item ∷ items) =
    rw (same item, actions-number action test same items) refl

-- Every item is of one kind, and the writes are those created or updated.
number-sum :
    (items : List PlanItem)
    → (number is_create items + number is_update items + number is_unchanged items ≡ length items)
      × (number is_create items + number is_update items ≡ number is_write items)
number-sum [] = (refl, refl)
number-sum (new_item true item ∷ items) =
    let (a, b) = number-sum items in (omega arith, omega arith)
number-sum (new_item false item ∷ items) =
    let (a, b) = number-sum items in (omega arith, omega arith)
number-sum (update_item item ∷ items) = let (a, b) = number-sum items in (omega arith, omega arith)

length-map : (items : List PlanItem) → length (map document items) ≡ length items
length-map [] = refl
length-map (item ∷ items) = ap suc (length-map items)

-- The counts of a plan agree with its documents.
abbrev pub Counts : Value → List Value → Type 0
Counts plan documents =
    (get "create" (get "counts" plan) ≡ int (pos (with_action "CREATE" documents)))
    × (get "update" (get "counts" plan) ≡ int (pos (with_action "UPDATE" documents)))
    × (get "unchanged" (get "counts" plan) ≡ int (pos (with_action "UNCHANGED" documents)))
    × (get "writes" (get "counts" plan)
        ≡ int (pos (with_action "CREATE" documents + with_action "UPDATE" documents)))
    × (get "requires_rollback_on_partial_failure" plan
        ≡ bool (ltb 0 (with_action "CREATE" documents + with_action "UPDATE" documents)))
    × (with_action "CREATE" documents
          + with_action "UPDATE" documents
          + with_action "UNCHANGED" documents
        ≡ length documents)

module _ (sha256 : Sha256) (is_utf8 : Bytes → Bool)
    (canonical_json compact_json : Value → Bytes) where
  counted :
      (master : Bytes) (items : List PlanItem)
      → let plan = plan_over sha256 is_utf8 canonical_json compact_json master items in
        (get "create" (get "counts" plan) ≡ int (pos (number is_create items)))
        × (get "update" (get "counts" plan) ≡ int (pos (number is_update items)))
        × (get "unchanged" (get "counts" plan) ≡ int (pos (number is_unchanged items)))
        × (get "writes" (get "counts" plan) ≡ int (pos (number is_write items)))
        × (get "requires_rollback_on_partial_failure" plan ≡ bool (ltb 0 (number is_write items)))
  unfolding get find_field str_eq plan_of_items
  counted master items = (refl, refl, refl, refl, refl)

  plan-Counts :
      (master : Bytes) (items : List PlanItem)
      → Counts
          (plan_over sha256 is_utf8 canonical_json compact_json master items)
          (map document items)
  plan-Counts master items =
      let (c, u, n, w, r) = counted master items in
      let cs = actions-number "CREATE" is_create (λ item. (action-document item).0) items in
      let us = actions-number "UPDATE" is_update (λ item. (action-document item).1) items in
      let ns = actions-number "UNCHANGED" is_unchanged (λ item. (action-document item).2) items in
      let (sum, writes) = number-sum items in
      rw (cs, us, ns) (c, u, n, rw writes w, rw writes r, sum ∙ sym (length-map items))

  -- The counts of a built plan are those of the actions of its items, its writes are the items created
  -- or updated, every item has one of the three actions, and rollback is asked for just when there is
  -- a write.
  pub build_transaction_plan-Counts :
      (master : Bytes) (manifest validation plan : Value) (artifacts : List Value)
      → build_transaction_plan sha256 is_utf8 canonical_json compact_json master manifest validation
          artifacts
        ≡ ok (some plan, [])
      → (documents : List Value) × (get "items" plan ≡ arr (list_items documents))
        × Counts plan documents
  build_transaction_plan-Counts master manifest validation plan artifacts h =
      let (new, ups, accepted) =
        build-Accepted sha256 is_utf8 canonical_json compact_json master manifest validation plan
          artifacts h in
      let same = accepted.5 in
      let items = sort_by order (new ++ ups) in
      (
        map document items,
        ap (get "items") same ∙ plan-items sha256 is_utf8 canonical_json compact_json master items,
        subst (λ p. Counts p (map document items)) (sym same) (plan-Counts master items),
      )
