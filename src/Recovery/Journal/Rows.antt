-- ===== src/Recovery/Journal/Rows.antt =====
-- The rows of a journal that passes `validate_recovery_journal`: distinct paths of the library, and
-- snapshots below the recovery folder.
use mathlib.Core.List.{append-nil}
use technology_library_inges.Base.{
  ℕ, suc, String, ◌<>◌, ◌≡◌, refl, ap, sym, subst, ◌∙◌, ◌≢◌, true, false, not, List, [], ◌∷◌, ◌++◌,
  if◌then◌else◌, contains, starts_with, sorted_set-eq-nil, All, arith, append-eq-nil, failures,
  failures-Passes, Passes, ok, >>=-ok, ok-injective, Bool-cases, inl, inr,
}
use technology_library_inges.Json.{Value, bool, str, arr, get, is_dict, items_list, text_of, truthy}
use technology_library_inges.Recovery.Journal.{
  Row, keyed, list_of, rows_of, row_path, existed_before, snapshot_of, snapshot_root,
  safe_canonical, path_errors, existed_errors, row_errors, rows_errors, group_errors, both_groups,
  journal_checks, validate_fields, validate_recovery_journal, snapshot_path_ok,
}

pub record IsRow (row : Row) : Type 0 where
  pub in_library : starts_with (row_path row) "00_LIBRARY/" ≡ true
  pub snapshot_in_root :
      existed_before row ≡ true → starts_with (snapshot_of row) snapshot_root ≡ true

-- No path stands twice, nor among those seen before.
abbrev pub DistinctAfter : List String → List Row → Type 0
DistinctAfter seen [] = Unit
DistinctAfter seen (row ∷ rows) =
    (contains seen (row_path row) ≡ false) × DistinctAfter (row_path row ∷ seen) rows

abbrev pub Fresh : String → List Row → Type 0
Fresh q rows = All (λ row. q ≢ row_path row) rows

pub DistinctAfter-Fresh :
    (q : String) (seen : List String) (rows : List Row)
    → contains seen q ≡ true
    → DistinctAfter seen rows
    → Fresh q rows
DistinctAfter-Fresh q seen [] h d = tt
DistinctAfter-Fresh q seen (row ∷ rows) h (new, d) = (
  λ e. cc (ap (contains seen) e),
  DistinctAfter-Fresh q (row_path row ∷ seen) rows (ground arith) d,
)

snapshot_path_ok-root :
    (v : Value) → snapshot_path_ok v ≡ true → starts_with (text_of v) snapshot_root ≡ true
unfolding snapshot_path_ok text_of
snapshot_path_ok-root (str s) h = h
snapshot_path_ok-root v h = cc

existed_errors-root :
    (group : String) (i : ℕ) (entry v : Value)
    → existed_errors group i entry v ≡ []
    → truthy v ≡ true
    → starts_with (text_of (get "snapshot_path" entry)) snapshot_root ≡ true
unfolding existed_errors truthy
existed_errors-root group i entry (bool true) h t =
    ground (arith, snapshot_path_ok-root (get "snapshot_path" entry))
existed_errors-root group i entry (bool false) h t = cc
existed_errors-root group i entry v h t = cc

safe_canonical-library :
    (path : String) → safe_canonical path ≡ true → starts_with path "00_LIBRARY/" ≡ true
unfolding safe_canonical
safe_canonical-library path h = ground arith

-- What a row without errors is.
Sound : List String → List String → Row → Type 0
Sound seen seen' row =
    IsRow row × (contains seen (row_path row) ≡ false) × (seen' ≡ row_path row ∷ seen)

path_errors-Sound :
    (group key : String) (i : ℕ) (seen seen' : List String) (entry v : Value)
    → get key entry ≡ v
    → path_errors group i seen entry v ≡ ([], seen')
    → Sound seen seen' (key, entry)
unfolding Sound path_errors row_path snapshot_of existed_before text_of
path_errors-Sound group key i seen seen' entry (str path) e h =
    elim (Bool-cases (safe_canonical path)) [
      | inl safe ↦
          let h' = rw safe at h in
          let (once, existed) =
            append-eq-nil
              (if not (contains seen path) then [] else ("duplicate_recovery_path:" <> path) ∷ []) _
              (ap (λ (x : List String × List String). x.0) h') in
          (
            record {
              in_library = rw e (safe_canonical-library path safe);
              snapshot_in_root = existed_errors-root group i entry _ existed;
            },
            rw e (ground arith),
            rw e (sym (ap (λ (x : List String × List String). x.1) h')),
          )
      | inr unsafe ↦ cc (ap (λ (x : List String × List String). x.0) (rw unsafe at h))
    ]
path_errors-Sound group key i seen seen' entry v e h =
    cc (ap (λ (x : List String × List String). x.0) h)

row_errors-Sound :
    (group key : String) (i : ℕ) (seen seen' : List String) (entry : Value)
    → row_errors group key i seen entry ≡ ([], seen')
    → Sound seen seen' (key, entry)
unfolding row_errors
row_errors-Sound group key i seen seen' entry h = elim (Bool-cases (is_dict entry)) [
  | inl d ↦ path_errors-Sound group key i seen seen' entry _ refl (rw d at h)
  | inr d ↦ cc (ap (λ (x : List String × List String). x.0) (rw d at h))
]

abbrev Good : List String → List Row → Type 0
Good seen rows = All IsRow rows × DistinctAfter seen rows

-- A group without errors, in front of rows that are good after the paths that it has seen.
rows_errors-Good :
    (group key : String) (i : ℕ) (seen seen' : List String) (vs : List Value) (rest : List Row)
    → rows_errors group key i seen vs ≡ ([], seen')
    → Good seen' rest
    → Good seen (keyed key vs ++ rest)
unfolding rows_errors Sound
rows_errors-Good group key i seen seen' [] rest h g =
    subst (λ (x : List String). Good x rest) (sym (ap (λ (x : List String × List String). x.1) h)) g
rows_errors-Good group key i seen seen' (v ∷ vs) rest h g =
    let here = row_errors group key i seen v in
    let (none_here, none_later) =
      append-eq-nil here.0 _ (ap (λ (x : List String × List String). x.0) h) in
    let (row, new, grown) =
      row_errors-Sound group key i seen here.1 v (λ d. (none_here d, here.1)) in
    let (ws, d) =
      rows_errors-Good group key (suc i) here.1 seen' vs rest
        (λ d. (none_later d, ap (λ (x : List String × List String). x.1) h d)) g in
    ((row, ws), (new, subst (λ (x : List String). DistinctAfter x (keyed key vs ++ rest)) grown d))

group_errors-Good :
    (group key : String) (seen : List String) (v : Value) (rest : List Row)
    → (group_errors group key seen v).0 ≡ []
    → Good (group_errors group key seen v).1 rest
    → Good seen (keyed key (list_of v) ++ rest)
unfolding group_errors
group_errors-Good group key seen (arr vs) rest h g =
    rows_errors-Good group key 0 seen _ (items_list vs) rest
      (λ d. (h d, (rows_errors group key 0 seen (items_list vs)).1)) g
group_errors-Good group key seen v rest h g = cc

both_groups-Good : (journal : Value) → both_groups journal ≡ [] → Good [] (rows_of journal)
unfolding both_groups rows_of
both_groups-Good journal h =
    let items = group_errors "items" "target_path" [] (get "items" journal) in
    let (first, second) = append-eq-nil items.0 _ h in
    group_errors-Good "items" "target_path" [] (get "items" journal) _ first (
      rw (← append-nil (keyed "path" (list_of (get "indexes" journal))))
        (group_errors-Good "indexes" "path" items.1 (get "indexes" journal) [] second (tt, tt)))

validate_recovery_journal_lem :
    (journal : Value)
    → validate_recovery_journal journal
      ≡ (if is_dict journal then validate_fields journal else ok ("journal_invalid" ∷ []))
unfolding validate_recovery_journal
validate_recovery_journal_lem journal = refl

-- A journal that passes its validation passes every check of its header, and its rows are good.
pub validate-Good :
    (journal : Value)
    → validate_recovery_journal journal ≡ ok []
    → Passes (journal_checks journal)
      × All IsRow (rows_of journal)
      × DistinctAfter [] (rows_of journal)
unfolding validate_fields
validate-Good journal h = elim (Bool-cases (is_dict journal)) [
  | inl d ↦
      let (codes, checked, h') =
        >>=-ok (failures (journal_checks journal)) _ (rw (validate_recovery_journal_lem, d) at h) in
      let (no_codes, no_rows) = append-eq-nil codes _ (sorted_set-eq-nil _ (ok-injective h')) in
      let (rows, distinct) = both_groups-Good journal no_rows in
      (failures-Passes (journal_checks journal) (checked ∙ ap ok no_codes), rows, distinct)
  | inr d ↦ cc (ok-injective (rw (validate_recovery_journal_lem, d) at h))
]
