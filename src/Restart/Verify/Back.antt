-- ===== src/Restart/Verify/Back.antt =====
-- What `verify_recovered_state` of src/candidate_production_recover.py finds.
use technology_library_inges.Base.{
  ℕ, suc, String, ◌≡◌, ◌↔◌, refl, sym, ap, Bool, true, false, Option, none, some, List, [], ◌∷◌,
  All, append-eq-nil, sorted_set, sorted_set-eq-nil, str_eq→eq, str_eq_refl, if◌then◌else◌,
  Bool-cases, inl, inr,
}
use technology_library_inges.Json.{
  Value, null, bool, int, str, arr, obj, get, is_dict, is_true, is_false, items_list, list_items,
  items_list-list_items, list_items-items_list,
}
use technology_library_inges.Storage.{Bytes, Sha256}
use technology_library_inges.Restart.Verify.{
  matches_digest, absent_codes, path_codes, row_codes, rows_codes, group_codes,
  verify_recovered_state,
}

pub is_true-bool : (v : Value) → is_true v ≡ true → v ≡ bool true
is_true-bool (bool b) h = ap bool h
is_true-bool null h = cc h
is_true-bool (int n) h = cc h
is_true-bool (str s) h = cc h
is_true-bool (arr vs) h = cc h
is_true-bool (obj fs) h = cc h

pub is_false-bool : (v : Value) → is_false v ≡ true → v ≡ bool false
is_false-bool (bool true) h = cc h
is_false-bool (bool false) h = refl
is_false-bool null h = cc h
is_false-bool (int n) h = cc h
is_false-bool (str s) h = cc h
is_false-bool (arr vs) h = cc h
is_false-bool (obj fs) h = cc h

master_left :
    (passed : Bool)
    → if◌then◌else◌ {A = List String} passed [] ("master_restore_sha_mismatch" ∷ []) ≡ []
    → passed ≡ true
master_left true h = refl
master_left false h = cc h

empty_set : sorted_set [] ≡ []
unfolding sorted_set
empty_set = refl

module _ (sha256 : Sha256) (read : String → Option Bytes) where
  -- The file at a path has the digest.
  abbrev pub HasDigest : String → Value → Type 0
  HasDigest path expected =
      (bytes : Bytes) × (read path ≡ some bytes) × (expected ≡ str (sha256 bytes))

  -- A row's path is as it was before: the file of the digest, or no file.
  pub data IsBack (path_key : String) (entry : Value) : Type 0 where
    kept :
        (path : String)
        → is_dict entry ≡ true
        → get path_key entry ≡ str path
        → get "existed_before" entry ≡ bool true
        → HasDigest path (get "before_sha256" entry)
        → IsBack path_key entry
    removed :
        (path : String)
        → is_dict entry ≡ true
        → get path_key entry ≡ str path
        → get "existed_before" entry ≡ bool false
        → read path ≡ none
        → IsBack path_key entry

  found-HasDigest :
      (path : String) (current : Option Bytes) (expected : Value)
      → read path ≡ current
      → matches_digest sha256 read current expected ≡ true
      → HasDigest path expected
  unfolding matches_digest
  found-HasDigest path (some bytes) (str s) at_path h =
      (bytes, at_path, ap str (sym (str_eq→eq (sha256 bytes) s h)))
  found-HasDigest path (some bytes) null at_path h = cc h
  found-HasDigest path (some bytes) (bool b) at_path h = cc h
  found-HasDigest path (some bytes) (int n) at_path h = cc h
  found-HasDigest path (some bytes) (arr vs) at_path h = cc h
  found-HasDigest path (some bytes) (obj fs) at_path h = cc h
  found-HasDigest path none v at_path h = cc h

  matches-HasDigest :
      (path : String) (expected : Value)
      → matches_digest sha256 read (read path) expected ≡ true
      → HasDigest path expected
  matches-HasDigest path expected h = found-HasDigest path (read path) expected refl h

  HasDigest-matches :
      (path : String) (expected : Value)
      → HasDigest path expected
      → matches_digest sha256 read (read path) expected ≡ true
  unfolding matches_digest
  HasDigest-matches path expected (bytes, at_path, same) =
      rw (at_path, same) (str_eq_refl (sha256 bytes))

  absent-codes :
      (path : String) (current : Option Bytes)
      → absent_codes sha256 read path current ≡ []
      → current ≡ none
  unfolding absent_codes
  absent-codes path none h = refl
  absent-codes path (some bytes) h = cc h

  path-IsBack :
      (group path_key : String) (i : ℕ) (entry v : Value)
      → is_dict entry ≡ true
      → get path_key entry ≡ v
      → path_codes sha256 read group i entry v ≡ []
      → IsBack path_key entry
  unfolding path_codes
  path-IsBack group path_key i entry (str path) d at_key h =
      elim (Bool-cases (is_true (get "existed_before" entry))) [
        | inl existed ↦
            elim (Bool-cases (matches_digest sha256 read (read path) (get "before_sha256" entry))) [
              | inl same ↦
                  kept path d at_key (is_true-bool _ existed) (matches-HasDigest path _ same)
              | inr bad ↦ cc (rw bad at (rw existed at h))
            ]
        | inr other ↦ elim (Bool-cases (is_false (get "existed_before" entry))) [
          | inl fresh ↦
              removed path d at_key (is_false-bool _ fresh)
                (absent-codes path (read path) (rw fresh at (rw other at h)))
          | inr bad ↦ cc (rw bad at (rw other at h))
        ]
      ]
  path-IsBack group path_key i entry null d at_key h = cc h
  path-IsBack group path_key i entry (bool b) d at_key h = cc h
  path-IsBack group path_key i entry (int n) d at_key h = cc h
  path-IsBack group path_key i entry (arr vs) d at_key h = cc h
  path-IsBack group path_key i entry (obj fs) d at_key h = cc h

  row-IsBack :
      (group path_key : String) (i : ℕ) (entry : Value)
      → row_codes sha256 read group path_key i entry ≡ []
      → IsBack path_key entry
  unfolding row_codes
  row-IsBack group path_key i entry h = elim (Bool-cases (is_dict entry)) [
    | inl d ↦ path-IsBack group path_key i entry (get path_key entry) d refl (rw d at h)
    | inr bad ↦ cc (rw bad at h)
  ]

  IsBack-row :
      (group path_key : String) (i : ℕ) (entry : Value)
      → IsBack path_key entry
      → row_codes sha256 read group path_key i entry ≡ []
  unfolding row_codes path_codes absent_codes
  IsBack-row group path_key i entry (kept path d at_key existed digest) =
      rw (d, at_key, HasDigest-matches path (get "before_sha256" entry) digest, existed) refl
  IsBack-row group path_key i entry (removed path d at_key fresh gone) =
      rw (d, at_key, fresh, gone) refl

  rows-IsBack :
      (group path_key : String) (i : ℕ) (rows : List Value)
      → rows_codes sha256 read group path_key i rows ≡ []
      → All (IsBack path_key) rows
  unfolding rows_codes
  rows-IsBack group path_key i [] h = tt
  rows-IsBack group path_key i (entry ∷ rows) h =
      let (here, rest) = append-eq-nil (row_codes sha256 read group path_key i entry) _ h in
      (row-IsBack group path_key i entry here, rows-IsBack group path_key (suc i) rows rest)

  IsBack-rows :
      (group path_key : String) (i : ℕ) (rows : List Value)
      → All (IsBack path_key) rows
      → rows_codes sha256 read group path_key i rows ≡ []
  unfolding rows_codes
  IsBack-rows group path_key i [] all = refl
  IsBack-rows group path_key i (entry ∷ rows) (one, all) =
      rw (IsBack-row group path_key i entry one, IsBack-rows group path_key (suc i) rows all) refl

  -- The rows of one group, if there is a list of them.
  abbrev pub GroupIsBack : String → Value → Type 0
  GroupIsBack path_key rows =
      (vs : List Value) × (rows ≡ arr (list_items vs)) × All (IsBack path_key) vs

  group-IsBack :
      (group path_key : String) (v : Value)
      → group_codes sha256 read group path_key v ≡ []
      → GroupIsBack path_key v
  unfolding group_codes
  group-IsBack group path_key (arr vs) h = (
    items_list vs,
    ap arr (sym (list_items-items_list vs)),
    rows-IsBack group path_key 0 (items_list vs) h,
  )
  group-IsBack group path_key null h = cc h
  group-IsBack group path_key (bool b) h = cc h
  group-IsBack group path_key (int n) h = cc h
  group-IsBack group path_key (str s) h = cc h
  group-IsBack group path_key (obj fs) h = cc h

  IsBack-group :
      (group path_key : String) (v : Value)
      → GroupIsBack path_key v
      → group_codes sha256 read group path_key v ≡ []
  unfolding group_codes
  IsBack-group group path_key v (vs, same, all) =
      rw (same, items_list-list_items vs) (IsBack-rows group path_key 0 vs all)

  -- The canonical state is back as the journal has it from before the transaction.
  abbrev pub StateIsBack : Value → Type 0
  StateIsBack journal =
      GroupIsBack "target_path" (get "items" journal)
      × GroupIsBack "path" (get "indexes" journal)
      × HasDigest "00_LIBRARY/MASTER_INDEX.md" (get "master_index_before_sha256" journal)

  -- The verification names no code exactly if the canonical state is back: the journal lists items and
  -- indexes, each path that existed holds a file of its digest from before, each path that did not
  -- exist holds none, and the master index has its digest from before.
  pub verify_recovered_state_iff :
      (journal : Value) → (verify_recovered_state sha256 read journal ≡ []) ↔ StateIsBack journal
  unfolding verify_recovered_state
  verify_recovered_state_iff journal = (
    λ h.
        let (groups, master) = append-eq-nil _ _ (sorted_set-eq-nil _ h) in
        let (items, indexes) =
          append-eq-nil (group_codes sha256 read "items" "target_path" (get "items" journal)) _
            groups in
        (
          group-IsBack "items" "target_path" _ items,
          group-IsBack "indexes" "path" _ indexes,
          matches-HasDigest _ _ (master_left _ master),
        ),
    λ back.
        rw
          (
            IsBack-group "items" "target_path" _ back.0,
            IsBack-group "indexes" "path" _ back.1,
            HasDigest-matches _ _ back.2,
          )
          empty_set,
  )
