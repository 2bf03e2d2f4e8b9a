-- ===== src/Transaction/Indexes.antt =====
-- src/candidate_canonical_index_rebuild.py: the records of a set of paths, and the generated index
-- files. The record parser and the renderer of src/library_index_build.py, and `str.casefold`, are
-- the parameter `IndexBuilder`.
pub mod Contract
pub mod Local
use technology_library_inges.Base.{
  ℕ, suc, ◌+◌, String, ◌<>◌, ◌≡◌, refl, Bool, true, false, not, ◌&&◌, ◌||◌, Option, none, some,
  List, [], ◌∷◌, ◌++◌, str_eq, if◌then◌else◌, is_empty, contains, sorted_set, sort_by, starts_with,
  ends_with, length,
}
use technology_library_inges.Storage.{Bytes, Storage, holds}

-- A parsed record file.
pub record LibraryRecord : Type 0 where
  pub record_id : String
  pub record_type : String
  pub title : String
  pub domain : String
  pub category : String

-- `validate_record` returns a record, or raises a `ValueError` with a message.
pub data Validated : Type 0 where
  refused : String → Validated
  valid : LibraryRecord → Validated

pub record IndexBuilder : Type 0 where
  pub validate_record : String → Bytes → Validated
  pub casefold : String → String
  pub planned_indexes : List LibraryRecord → List (String × Bytes)

-- The generated files: a path and its expected bytes.
abbrev pub Indexes : Type 0
Indexes = List (String × Bytes)

abbrev pub index_engine_version : String
index_engine_version = "0.1.0"

pub data IndexState : Type 0 where
  indexes_verified recovery_required : IndexState

pub record IndexReport : Type 0 where
  pub state : IndexState
  pub indexes : ℕ
  pub updated : ℕ
  pub unchanged : ℕ

-- `path == "00_LIBRARY/MASTER_INDEX.md" or …`
unfoldable pub is_index_target : String → Bool
unfolding starts_with ends_with
is_index_target path =
    str_eq path "00_LIBRARY/MASTER_INDEX.md"
    || (starts_with path "00_LIBRARY/" && ends_with path "/INDEX.md")

-- `sorted(indexes.items())`: the keys of a dict differ, so the order is that of the paths.
unfoldable pub sorted_items : Indexes → Indexes
unfolding sort_by
sorted_items indexes = sort_by (λ (entry : String × Bytes). entry.0 ∷ []) indexes

module _ (B : IndexBuilder) where
  -- The two sets of what was seen: identifiers, and types with folded titles.
  abbrev Seen : Type 0
  Seen = List String × List (String × String)

  has_title : List (String × String) → String × String → Bool
  has_title [] key = false
  has_title (seen ∷ rest) key = (str_eq seen.0 key.0 && str_eq seen.1 key.1) || has_title rest key

  title_key : LibraryRecord → String × String
  title_key r = (r.record_type, B.casefold r.title)

  duplicates : LibraryRecord → Seen → List String
  duplicates r (ids, titles) =
      (if contains ids r.record_id then ("duplicate_record_id:" <> r.record_id) ∷ [] else [])
      ++ (if has_title titles (title_key r)
          then ("duplicate_canonical_title:" <> (r.record_type <> (":" <> r.title))) ∷ []
          else [])

  -- What the rest of the loop adds to one turn.
  abbrev Loaded : Type 0
  Loaded = List LibraryRecord × List String

  load_validated : String → Validated → (Seen → Loaded) → Seen → Loaded
  load_validated path (refused code) rest seen =
      let (records, codes) = rest seen in (records, (code <> (":" <> path)) ∷ codes)
  load_validated path (valid r) rest (ids, titles) =
      let (records, codes) = rest (r.record_id ∷ ids, title_key r ∷ titles) in
      (r ∷ records, duplicates r (ids, titles) ++ codes)

  load_bytes : String → Option Bytes → (Seen → Loaded) → Seen → Loaded
  load_bytes path none rest seen =
      let (records, codes) = rest seen in (records, ("record_missing:" <> path) ∷ codes)
  load_bytes path (some raw) rest seen = load_validated path (B.validate_record path raw) rest seen

  load_path : String → (String → Option Bytes) → (Seen → Loaded) → Seen → Loaded
  load_path path read rest seen =
      if starts_with path "00_LIBRARY/" && ends_with path ".md"
      then load_bytes path (read path) rest seen
      else (let (records, codes) = rest seen in (records, ("record_path_invalid:" <> path) ∷ codes))

  load : List String → (String → Option Bytes) → Seen → Loaded
  load [] read seen = ([], [])
  load (path ∷ paths) read seen = load_path path read (load paths read) seen

  order : LibraryRecord → List String
  order r = r.domain ∷ r.category ∷ r.record_type ∷ B.casefold r.title ∷ []

  settle : Loaded → Loaded
  settle (records, []) = (sort_by order records, [])
  settle (records, code ∷ codes) = ([], sorted_set (code ∷ codes))

  unfoldable pub load_records_from_paths :
      List String → (String → Option Bytes) → List LibraryRecord × List String
  unfolding settle load load_path load_bytes load_validated duplicates has_title title_key order
      sort_by sorted_set
  load_records_from_paths paths read = settle (load (sorted_set paths) read ([], []))

  plan_from : List LibraryRecord × List String → Option Indexes × List LibraryRecord × List String
  plan_from (records, code ∷ codes) = (none, [], code ∷ codes)
  plan_from ([], []) = (none, [], "no_canonical_records" ∷ [])
  plan_from (r ∷ records, []) = (some (B.planned_indexes (r ∷ records)), r ∷ records, [])

  unfoldable pub build_index_plan :
      List String → (String → Option Bytes) → Option Indexes × List LibraryRecord × List String
  unfolding plan_from load_records_from_paths
  build_index_plan paths read = plan_from (load_records_from_paths paths read)

module _ (S : Storage) where
  -- The counts so far, the errors of the turns to come, and the storage.
  abbrev pub Applied : Type 0
  Applied = (ℕ × ℕ) × List String × S.State

  after_write : String → Bytes → (ℕ × ℕ) → (ℕ × ℕ → S.State → Applied) → Bool × S.State → Applied
  after_write path expected (updated, unchanged) rest (false, s) =
      ((updated, unchanged), ("index_write_failed:" <> path) ∷ [], s)
  after_write path expected (updated, unchanged) rest (true, s) =
      if holds (S.read s path) expected
      then rest (suc updated, unchanged) s
      else ((suc updated, unchanged), ("index_verify_failed:" <> path) ∷ [], s)

  -- One turn of the loop: an unsafe path is reported and passed over, a failed write ends the loop.
  apply_entry : String → Bytes → (ℕ × ℕ) → (ℕ × ℕ → S.State → Applied) → S.State → Applied
  apply_entry path expected (updated, unchanged) rest s =
      if not (is_index_target path)
      then (let (counts, codes, s') = rest (updated, unchanged) s in
          (counts, ("unsafe_index_target:" <> path) ∷ codes, s'))
      else if holds (S.read s path) expected
      then rest (updated, suc unchanged) s
      else after_write path expected (updated, unchanged) rest (S.write s path expected)

  apply : Indexes → (ℕ × ℕ) → S.State → Applied
  apply [] counts s = (counts, [], s)
  apply ((path, expected) ∷ entries) counts s = apply_entry path expected counts (apply entries) s

  index_report : ℕ → Applied → (IndexReport × List String) × S.State
  index_report n ((updated, unchanged), codes, s) = (
    (
      record {
        state = if is_empty codes then indexes_verified else recovery_required;
        indexes = n;
        updated = updated;
        unchanged = unchanged;
      },
      sorted_set codes,
    ),
    s,
  )

  unfoldable pub apply_index_plan : Indexes → S.State → (IndexReport × List String) × S.State
  unfolding index_report apply apply_entry after_write is_index_target sorted_items holds
  apply_index_plan indexes s = index_report (length indexes) (apply (sorted_items indexes) (0, 0) s)

  mismatches : Indexes → S.State → List String
  mismatches [] s = []
  mismatches ((path, expected) ∷ entries) s =
      let rest = mismatches entries s in
      if holds (S.read s path) expected then rest else ("index_bytes_mismatch:" <> path) ∷ rest

  unfoldable pub verify_index_state : Indexes → S.State → List String
  unfolding mismatches sorted_items holds
  verify_index_state indexes s = sorted_set (mismatches (sorted_items indexes) s)
