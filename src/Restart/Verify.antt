-- ===== src/Restart/Verify.antt =====
-- `verify_recovered_state` of src/candidate_production_recover.py.
pub mod Back
use technology_library_inges.Base.{
  ℕ, suc, String, ◌<>◌, Bool, true, false, not, Option, none, some, List, [], ◌∷◌, ◌++◌, decimal,
  sorted_set, str_eq, if◌then◌else◌,
}
use technology_library_inges.Json.{Value, str, arr, get, is_dict, is_true, is_false, items_list}
use technology_library_inges.Storage.{Bytes, Sha256}

module _ (sha256 : Sha256) (read : String → Option Bytes) where
  -- `current is None or not isinstance(expected, str) or sha256(current) != expected`, negated.
  matches_digest : Option Bytes → Value → Bool
  matches_digest (some bytes) (str expected) = str_eq (sha256 bytes) expected
  matches_digest current expected = false

  absent_codes : String → Option Bytes → List String
  absent_codes path none = []
  absent_codes path (some bytes) = ("recovered_created_path_still_present:" <> path) ∷ []

  -- `f"{group}_{index}_{what}"`
  row_code : String → ℕ → String → String
  row_code group i what = group <> ("_" <> (decimal i <> ("_" <> what)))

  path_codes : String → ℕ → Value → Value → List String
  path_codes group i entry (str path) =
      if is_true (get "existed_before" entry)
      then (if matches_digest (read path) (get "before_sha256" entry)
          then []
          else ("recovered_path_mismatch:" <> path) ∷ [])
      else if is_false (get "existed_before" entry)
      then absent_codes path (read path)
      else row_code group i "existed_before" ∷ []
  path_codes group i entry v = row_code group i "path" ∷ []

  pub row_codes : String → String → ℕ → Value → List String
  row_codes group path_key i entry =
      if is_dict entry
      then path_codes group i entry (get path_key entry)
      else row_code group i "invalid" ∷ []

  pub rows_codes : String → String → ℕ → List Value → List String
  rows_codes group path_key i [] = []
  rows_codes group path_key i (entry ∷ rest) =
      row_codes group path_key i entry ++ rows_codes group path_key (suc i) rest

  pub group_codes : String → String → Value → List String
  group_codes group path_key (arr rows) = rows_codes group path_key 0 (items_list rows)
  group_codes group path_key v = ("journal_" <> group) ∷ []

  unfoldable pub verify_recovered_state : Value → List String
  unfolding group_codes rows_codes row_codes path_codes row_code absent_codes matches_digest decimal
      sorted_set
  verify_recovered_state journal = sorted_set (
      group_codes "items" "target_path" (get "items" journal)
      ++ group_codes "indexes" "path" (get "indexes" journal)
      ++ (if matches_digest (read "00_LIBRARY/MASTER_INDEX.md")
            (get "master_index_before_sha256" journal)
          then []
          else "master_restore_sha_mismatch" ∷ []))
