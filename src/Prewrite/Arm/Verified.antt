-- ===== src/Prewrite/Arm/Verified.antt =====
-- The prepared journal of src/candidate_transaction_prewrite_arm.py records the storage that it
-- was captured from.
use technology_library_inges.Base.{
  String, ◌≡◌, refl, sym, ap, ◌∙◌, subst, true, false, not, Option, none, some, List, [], ◌∷◌, All,
  contains, str_eq, str_eq_refl, Bool-cases, inl, inr, ◌⊎◌, arith,
}
use technology_library_inges.Json.{
  Value, get, is_dict, is_str, is_null, text_of, truthy, find_field,
}
use technology_library_inges.Storage.{Bytes, Storage, Sha256, IsFramed}
use technology_library_inges.Recovery.Journal.{Row, keyed, row_path, snapshot_of, existed_before}
use technology_library_inges.Recovery.Execute.Contract.{Records}
use technology_library_inges.Prewrite.Capture.{Captured, recall, targets_of}
use technology_library_inges.Prewrite.Capture.Complete.{targets_of-first, targets_of-later}
use technology_library_inges.Prewrite.Arm.{
  item_row, item_rows, index_row, index_rows, what_was, snapshot_or_null, is_some,
}
use technology_library_inges.Prewrite.Arm.Snapshots.{Saved}

-- The items name their targets by texts.
abbrev pub HasTargets : List Value → Type 0
HasTargets items = All (λ item. is_dict item ≡ true → is_str (get "target_path" item) ≡ true) items

-- A row says of `o` whether there was a file, and has a snapshot exactly then.
abbrev Tells : Option Bytes → Row → Type 0
Tells o row =
    (existed_before row ≡ is_some o) × (is_null (get "snapshot_path" row.1) ≡ not (is_some o))

-- A row of the journal tells what the storage held when the state was captured.
abbrev pub Faithful : (S : Storage) → Captured → S.State → Row → Type 0
Faithful S before s row =
    (recall before (row_path row) ≡ S.read s (row_path row))
    × Tells (recall before (row_path row)) row

module _ (sha256 : Sha256) (utf8 : String → Bytes) (run_root : String) (before : Captured) where
  snapshot_or_null-is_null :
      (path : String) (o : Option Bytes)
      → is_null (snapshot_or_null sha256 utf8 run_root path o) ≡ not (is_some o)
  unfolding snapshot_or_null is_some
  snapshot_or_null-is_null path none = refl
  snapshot_or_null-is_null path (some b) = refl

  item_row-Tells :
      (item : Value)
      → let row : Row = ("target_path", item_row sha256 utf8 run_root before item) in
        (row_path row ≡ text_of (get "target_path" item))
        × Tells (recall before (text_of (get "target_path" item))) row
  unfolding item_row what_was row_path existed_before get truthy text_of find_field str_eq
  item_row-Tells item = (refl, (refl, snapshot_or_null-is_null _ _))

  index_row-Tells :
      (path : String)
      → let row : Row = ("path", index_row sha256 utf8 run_root before path) in
        (row_path row ≡ path) × Tells (recall before path) row
  unfolding index_row what_was row_path existed_before get truthy text_of find_field str_eq
  index_row-Tells path = (refl, (refl, snapshot_or_null-is_null _ _))

  module _ (S : Storage) (s : S.State) where
    -- Every target of the items is captured, as the storage had it.
    pub item_rows-Faithful :
        (items : List Value)
        → HasTargets items
        → ((path : String)
            → contains (targets_of items) path ≡ true
            → recall before path ≡ S.read s path)
        → All
            (Faithful S before s)
            (keyed "target_path" (item_rows sha256 utf8 run_root before items))
    unfolding item_rows
    item_rows-Faithful [] targets captured = tt
    item_rows-Faithful (item ∷ items) (named, targets) captured =
        let rest =
          item_rows-Faithful items targets
            (λ path h. captured path (targets_of-later item items path h)) in
        elim (Bool-cases (is_dict item)) [
          | inl d ↦
              let (path_is, tells) = item_row-Tells item in
              rw d (
                (
                  subst (λ (q : String). recall before q ≡ S.read s q) (sym path_is)
                      (captured _ (targets_of-first item items d (named d))),
                  rw path_is tells,
                ),
                rest,
              )
          | inr d ↦ rw d rest
        ]

    pub index_rows-Faithful :
        (paths : List String)
        → ((path : String) → contains paths path ≡ true → recall before path ≡ S.read s path)
        → All (Faithful S before s) (keyed "path" (index_rows sha256 utf8 run_root before paths))
    unfolding index_rows
    index_rows-Faithful [] captured = tt
    index_rows-Faithful (path ∷ paths) captured =
        let (path_is, tells) = index_row-Tells path in
        (
          (
            subst (λ (q : String). recall before q ≡ S.read s q) (sym path_is)
                (captured path (ground (arith, str_eq_refl path))),
            rw path_is tells,
          ),
          index_rows-Faithful paths (λ q h. captured q (ground (arith, h))),
        )

module _ (S : Storage) (framed : IsFramed S) (sha256 : Sha256) (before : Captured)
    (s0 s : S.State) where
  Saved-by_cases :
      (row : Row) (o : Option Bytes)
      → S.read s0 (row_path row) ≡ o
      → (is_null (get "snapshot_path" row.1) ≡ not (is_some o))
      → ((b : Bytes) × (o ≡ some b) × (S.read s (snapshot_of row) ≡ some b)) ⊎ (is_some o ≡ false)
      → Records S framed sha256 (is_some o) s0 s row
  unfolding is_some
  Saved-by_cases row none e has saved = e
  Saved-by_cases row (some b) e has (inl (b', same, there)) = (b', there, e ∙ same)
  Saved-by_cases row (some b) e has (inr gone) = cc

  -- A saved row that is faithful records the storage.
  Saved-Records :
      (row : Row)
      → Faithful S before s0 row
      → Saved S framed before s row
      → Records S framed sha256 (existed_before row) s0 s row
  Saved-Records row (captured, (told, has)) saved = rw told (
      Saved-by_cases row (recall before (row_path row)) (sym captured) has
        (elim (Bool-cases (is_some (recall before (row_path row)))) [
          | inl there ↦ inl (saved (has ∙ ap not there))
          | inr gone ↦ inr gone
        ]))

  pub All-Records :
      (rows : List Row)
      → All (Faithful S before s0) rows
      → All (Saved S framed before s) rows
      → All (λ row. Records S framed sha256 (existed_before row) s0 s row) rows
  All-Records [] f saved = tt
  All-Records (row ∷ rows) (one, f) (first, saved) =
      (Saved-Records row one first, All-Records rows f saved)
