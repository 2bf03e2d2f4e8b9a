-- ===== src/Recovery/Execute.antt =====
-- `verify_rollback_preconditions` and `execute_recovery` of
-- src/candidate_production_recovery_engine.py. Canonical files and snapshots are read from one
-- storage, as src/candidate_production_recover.py passes them.
pub mod Rollback
pub mod Contract
pub mod Preconditions
pub mod Completion
pub mod Refusal
use technology_library_inges.Base.{
  ℕ, zero, suc, ◌+◌, String, ◌<>◌, ◌≡◌, refl, Bool, true, false, not, ◌&&◌, ◌||◌, Option, none,
  some, List, [], ◌∷◌, str_eq, if◌then◌else◌, Result, ok, raised, ◌>>=◌,
}
use technology_library_inges.Json.{
  ℤ, pos, Value, null, bool, int, str, get, index, update, eq_str, is_null,
}
use technology_library_inges.Storage.{Bytes, Storage, Sha256, holds, bytes_eq}
use technology_library_inges.Recovery.Journal.{
  Row, rows_of, row_path, existed_before, snapshot_of, before_sha, valid_sha, master_path,
  validate_recovery_journal,
}

abbrev pub recovery_engine_version : String
recovery_engine_version = "0.1.0"

pub record Counts : Type 0 where
  pub restored : ℕ
  pub removed : ℕ
  pub verified : ℕ

abbrev pub no_counts : Counts
no_counts = record { restored = 0; removed = 0; verified = 0 }

abbrev pub Answer : Type 0
Answer = Result (Option Value × List String)

abbrev pub fails : String → Answer
fails code = ok (none, code ∷ [])

module _ (S : Storage) (sha256 : Sha256) where
  -- `observed_sha in {before, after}`, where an absent file has the digest `None`.
  digest_in : Option Bytes → Value → Value → Bool
  digest_in none before after = is_null before || is_null after
  digest_in (some b) before after = eq_str before (sha256 b) || eq_str after (sha256 b)

  digest_is : Option Bytes → Value → Bool
  digest_is none digest = false
  digest_is (some b) digest = eq_str digest (sha256 b)

  judge_row : S.State → Row → Value → Option String
  judge_row s (key, entry) before =
      if not (digest_in (S.read s (row_path (key, entry))) before (get "after_sha256" entry))
      then some "recovery_external_conflict"
      else if existed_before (key, entry)
          && not (digest_is (S.read s (snapshot_of (key, entry))) before)
      then some "recovery_snapshot_unverified"
      else none

  -- One row of the check; `none` lets the loop go on. `entry["before_sha256"]` raises where the
  -- key is missing.
  pub check_row : S.State → Row → Result (Option String)
  check_row s (key, entry) =
      if not (valid_sha (get "after_sha256" entry))
      then ok (some "recovery_expected_after_missing")
      else (do before ← index "before_sha256" entry; ok (judge_row s (key, entry) before))

  abbrev pub first_code : Option String → Result (List String) → Result (List String)
  first_code none rest = rest
  first_code (some code) rest = ok (code ∷ [])

  pub check_rows : S.State → List Row → Result (List String)
  check_rows s [] = ok []
  check_rows s (row ∷ rows) = do code ← check_row s row; first_code code (check_rows s rows)

  pub check_valid : Value → S.State → List String → Result (List String)
  check_valid journal s (code ∷ codes) = ok (code ∷ codes)
  check_valid journal s [] = check_rows s (rows_of journal)

  pub verify_rollback_preconditions : Value → S.State → Result (List String)
  verify_rollback_preconditions journal s = do
    errors ← validate_recovery_journal journal
    check_valid journal s errors

  -- One row of the rollback: the error code if it failed, the counts, the storage.
  abbrev pub Step : Type 0
  Step = Option String × Counts × S.State

  put_back : String → Bytes → Counts → S.State → Step
  put_back path snapshot c s =
      let (written, s') = S.write s path snapshot in
      if not written
      then (some ("restore_write_failed:" <> path), c, s')
      else if holds (S.read s' path) snapshot
      then (none, record c { restored = suc c.restored; verified = suc c.verified }, s')
      else (some ("restore_verify_failed:" <> path), c, s')

  restore : String → Value → Counts → S.State → Option Bytes → Step
  restore path before c s none = (some ("snapshot_missing:" <> path), c, s)
  restore path before c s (some snapshot) =
      if eq_str before (sha256 snapshot)
      then put_back path snapshot c s
      else (some ("snapshot_sha_mismatch:" <> path), c, s)

  abbrev pub absent : Option Bytes → Bool
  absent none = true
  absent (some b) = false

  remove : String → Counts → S.State → Step
  remove path c s =
      let (deleted, s') = S.delete s path in
      if not deleted
      then (some ("remove_created_failed:" <> path), c, s')
      else if absent (S.read s' path)
      then (none, record c { removed = suc c.removed; verified = suc c.verified }, s')
      else (some ("remove_created_verify_failed:" <> path), c, s')

  pub roll_back_row : Row → Counts → S.State → Step
  roll_back_row row c s =
      if existed_before row
      then restore (row_path row) (before_sha row) c s (S.read s (snapshot_of row))
      else remove (row_path row) c s

  after_row : (Counts → S.State → Step) → Step → Step
  after_row rest (none, c, s) = rest c s
  after_row rest (some code, c, s) = (some code, c, s)

  pub roll_back : List Row → Counts → S.State → Step
  roll_back [] c s = (none, c, s)
  roll_back (row ∷ rows) c s = after_row (roll_back rows) (roll_back_row row c s)

  abbrev count_value : ℕ → Value
  count_value n = int (pos n)

  pub recovered_journal : Value → Counts → Value
  recovered_journal journal c = update journal (
      ("recovery_engine_version", str recovery_engine_version)
      ∷ ("state", str "RECOVERED")
      ∷ ("rollback_verified", bool true)
      ∷ ("restart_recovery_verified", bool true)
      ∷ ("restored_paths", count_value c.restored)
      ∷ ("removed_created_paths", count_value c.removed)
      ∷ ("verified_paths", count_value c.verified)
      ∷ ("coordinator_release_allowed", bool true)
      ∷ ("candidate_settlement_eligible", bool false)
      ∷ ("canonical_write_performed", bool true)
      ∷ [])

  check_master : Value → Counts → Option Bytes → Answer
  check_master journal c none = fails "master_restore_missing"
  check_master journal c (some master) =
      if eq_str (get "master_index_before_sha256" journal) (sha256 master)
      then ok (some (recovered_journal journal c), [])
      else fails "master_restore_sha_mismatch"

  finish : Value → Step → Answer × S.State
  finish journal (some code, c, s) = (fails code, s)
  finish journal (none, c, s) = (check_master journal c (S.read s master_path), s)

  -- The rollback after the checks, which have reported these errors.
  pub start : Value → S.State → Result (List String) → Answer × S.State
  start journal s (raised x) = (raised x, s)
  start journal s (ok (code ∷ codes)) = (ok (none, code ∷ codes), s)
  start journal s (ok []) = finish journal (roll_back (rows_of journal) no_counts s)

  recheck : Value → Bool → S.State → List String → Result (List String)
  recheck journal verify_current_state s (code ∷ codes) = ok (code ∷ codes)
  recheck journal verify_current_state s [] =
      if verify_current_state then verify_rollback_preconditions journal s else ok []

  pub checks : Value → Bool → S.State → Result (List String)
  checks journal verify_current_state s = do
    errors ← validate_recovery_journal journal
    recheck journal verify_current_state s errors

  unfoldable pub execute_recovery : Value → Bool → S.State → Answer × S.State
  unfolding start checks recheck finish check_master recovered_journal roll_back after_row
      roll_back_row remove restore put_back verify_rollback_preconditions check_valid check_rows
      check_row judge_row digest_in digest_is validate_recovery_journal rows_of row_path
      existed_before snapshot_of before_sha valid_sha holds bytes_eq
  execute_recovery journal verify_current_state s =
      start journal s (checks journal verify_current_state s)

  pub execute_recovery_lem :
      (journal : Value) (verify : Bool) (s : S.State)
      → execute_recovery journal verify s ≡ start journal s (checks journal verify s)
  unfolding execute_recovery
  execute_recovery_lem journal verify s = refl
