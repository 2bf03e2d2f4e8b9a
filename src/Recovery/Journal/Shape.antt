-- ===== src/Recovery/Journal/Shape.antt =====
-- The shape of the groups of a journal that passes `validate_recovery_journal`.
use technology_library_inges.Base.{
  ℕ, suc, String, ◌<>◌, ◌≡◌, refl, ap, sym, ◌⊎◌, true, false, not, List, [], ◌∷◌, ◌++◌,
  if◌then◌else◌, contains, sorted_set, sorted_set-eq-nil, All, append-eq-nil, failures, ok, >>=-ok,
  ok-injective, Bool-cases, inl, inr,
}
use technology_library_inges.Json.{
  Value, null, bool, int, obj, str, arr, get, is_dict, items_list, list_items,
  list_items-items_list,
}
use technology_library_inges.Recovery.Journal.{
  safe_canonical, path_errors, existed_errors, row_errors, rows_errors, group_errors, both_groups,
  journal_checks, validate_fields, validate_recovery_journal,
}

-- A row is an object with a path, that says whether the path existed.
abbrev pub HasShape : String → Value → Type 0
HasShape key entry =
    (is_dict entry ≡ true)
    × ((path : String) × (get key entry ≡ str path))
    × ((get "existed_before" entry ≡ bool true) ⊎ (get "existed_before" entry ≡ bool false))

abbrev pub GroupShape : String → Value → Type 0
GroupShape key group = (vs : List Value) × (group ≡ arr (list_items vs)) × All (HasShape key) vs

existed_errors-shape :
    (group : String) (i : ℕ) (entry v : Value)
    → existed_errors group i entry v ≡ []
    → (v ≡ bool true) ⊎ (v ≡ bool false)
unfolding existed_errors
existed_errors-shape group i entry (bool true) h = inl refl
existed_errors-shape group i entry (bool false) h = inr refl
existed_errors-shape group i entry null h = cc h
existed_errors-shape group i entry (int n) h = cc h
existed_errors-shape group i entry (str s) h = cc h
existed_errors-shape group i entry (arr vs) h = cc h
existed_errors-shape group i entry (obj fs) h = cc h

path_errors-shape :
    (group : String) (i : ℕ) (seen : List String) (entry v : Value)
    → (path_errors group i seen entry v).0 ≡ []
    → ((path : String) × (v ≡ str path))
      × ((get "existed_before" entry ≡ bool true) ⊎ (get "existed_before" entry ≡ bool false))
unfolding path_errors
path_errors-shape group i seen entry (str path) h = elim (Bool-cases (safe_canonical path)) [
  | inl safe ↦
      let (once, existed) =
        append-eq-nil
          (if not (contains seen path) then [] else ("duplicate_recovery_path:" <> path) ∷ []) _
          (rw safe at h) in
      ((path, refl), existed_errors-shape group i entry _ existed)
  | inr bad ↦ cc (rw bad at h)
]
path_errors-shape group i seen entry null h = cc h
path_errors-shape group i seen entry (bool b) h = cc h
path_errors-shape group i seen entry (int n) h = cc h
path_errors-shape group i seen entry (arr vs) h = cc h
path_errors-shape group i seen entry (obj fs) h = cc h

row_errors-shape :
    (group key : String) (i : ℕ) (seen : List String) (entry : Value)
    → (row_errors group key i seen entry).0 ≡ []
    → HasShape key entry
unfolding row_errors
row_errors-shape group key i seen entry h = elim (Bool-cases (is_dict entry)) [
  | inl d ↦
      let (path, existed) = path_errors-shape group i seen entry (get key entry) (rw d at h) in
      (d, path, existed)
  | inr bad ↦ cc (rw bad at h)
]

rows_errors-shape :
    (group key : String) (i : ℕ) (seen : List String) (vs : List Value)
    → (rows_errors group key i seen vs).0 ≡ []
    → All (HasShape key) vs
unfolding rows_errors
rows_errors-shape group key i seen [] h = tt
rows_errors-shape group key i seen (entry ∷ rest) h =
    let here = row_errors group key i seen entry in
    let (none_here, none_later) = append-eq-nil here.0 _ h in
    (
      row_errors-shape group key i seen entry none_here,
      rows_errors-shape group key (suc i) here.1 rest none_later,
    )

group_errors-shape :
    (group key : String) (seen : List String) (v : Value)
    → (group_errors group key seen v).0 ≡ []
    → GroupShape key v
unfolding group_errors
group_errors-shape group key seen (arr vs) h = (
  items_list vs,
  ap arr (sym (list_items-items_list vs)),
  rows_errors-shape group key 0 seen (items_list vs) h,
)
group_errors-shape group key seen null h = cc h
group_errors-shape group key seen (bool b) h = cc h
group_errors-shape group key seen (int n) h = cc h
group_errors-shape group key seen (str s) h = cc h
group_errors-shape group key seen (obj fs) h = cc h

groups-shape :
    (journal : Value)
    → both_groups journal ≡ []
    → GroupShape "target_path" (get "items" journal) × GroupShape "path" (get "indexes" journal)
unfolding both_groups
groups-shape journal h =
    let items = group_errors "items" "target_path" [] (get "items" journal) in
    let (first, second) = append-eq-nil items.0 _ h in
    (
      group_errors-shape "items" "target_path" [] _ first,
      group_errors-shape "indexes" "path" items.1 _ second,
    )

pub validate-shape :
    (journal : Value)
    → validate_recovery_journal journal ≡ ok []
    → GroupShape "target_path" (get "items" journal) × GroupShape "path" (get "indexes" journal)
unfolding validate_fields validate_recovery_journal
validate-shape journal h = elim (Bool-cases (is_dict journal)) [
  | inl d ↦
      let (codes, checked, after) =
        >>=-ok (failures (journal_checks journal))
          (λ codes. ok (sorted_set (codes ++ both_groups journal))) (rw d at h) in
      groups-shape journal (append-eq-nil codes _ (sorted_set-eq-nil _ (ok-injective after))).1
  | inr bad ↦ cc (ok-injective (rw bad at h))
]
