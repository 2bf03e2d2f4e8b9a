-- ===== src/Coordinator/Transitions.antt =====
-- `acquire`, `release_prewrite_abort`, `mark_canonical_write_started`, `release_committed` and
-- `release_recovered` of src/candidate_production_coordinator.py, over the drive lease.
pub mod Guards
pub mod Exclusion
pub mod Outcomes
pub mod Boundary
use technology_library_inges.Base.{
  ℕ, String, ◌<>◌, ◌≡◌, refl, Bool, true, false, not, ◌&&◌, ◌||◌, Option, none, some, List, [], ◌∷◌,
  str_eq, if◌then◌else◌, is_empty, count, ◌==◌, all_hex, Result, ok, raised, ◌>>=◌,
}
use technology_library_inges.Json.{
  Value, null, bool, str, get, is_dict, is_true, is_false, eq_str, value_eq,
}
use technology_library_inges.Storage.{Sha256}
use technology_library_inges.Coordinator.State.{
  Identity, payload, same_identity, is_active, acquired, released, write_started, kept_of,
  next_generation,
}
use technology_library_inges.Coordinator.Drive.{
  Drive, Codec, Reading, ls, read_state, ensure_initialized, prepare, push, state_bytes,
}

-- A state that a transition may go on from, or the errors that it returns.
pub data Observed : Type 0 where
  unusable : List String → Observed
  usable : String → Value → Observed

-- `if errors or not base_sha or current is None: return errors or […]`
pub observe : String → Reading → Observed
observe default (token, state, code ∷ codes) = unusable (code ∷ codes)
observe default (none, state, []) = unusable (default ∷ [])
observe default (some token, state, []) =
    if str_eq token "" || not (is_dict state) then unusable (default ∷ []) else usable token state

-- Whether the readback shows the head and the state that were written.
shows : String → List (String × Value) → Reading → Bool
shows head state (none, observed, errors) = false
shows head state (some token, observed, errors) =
    str_eq token head && value_eq (payload state) observed

-- `sha256` arguments: 64 lower case hexadecimal digits.
unfoldable pub is_digest : String → Bool
unfolding all_hex
is_digest s = count s == 64 && all_hex s

module _ (D : Drive) (codec : Codec) (sha256 : Sha256) where
  abbrev pub Answer : Type 0
  Answer = Result (List String) × D.State

  verified : String → String → List (String × Value) → Result Reading → Result (List String)
  verified name head state (raised x) = raised x
  verified name head state (ok (token, observed, code ∷ codes)) = ok (code ∷ codes)
  verified name head state (ok (token, observed, [])) =
      ok (if shows head state (token, observed, []) then [] else (name <> "_verify_failed") ∷ [])

  pushed : String → String → List (String × Value) → Bool × D.State → Answer
  pushed name head state (false, s) = (ok ((name <> "_conflict") ∷ []), s)
  pushed name head state (true, s) = (verified name head state (read_state D codec sha256 s), s)

  -- The second half of every transition: prepare, push, read back.
  pub transition :
      String → String → List (String × Value) → D.State → Option String × List String → Answer
  transition name base state s (head, code ∷ codes) = (ok (code ∷ codes), s)
  transition name base state s (none, []) = (ok ((name <> "_prepare_failed") ∷ []), s)
  transition name base state s (some head, []) =
      pushed name head state (push D codec sha256 base state s)

  abbrev advance : String → String → List (String × Value) → D.State → Answer
  advance name base state s = transition name base state s (prepare D codec sha256 base state s)

  acquire_from : Identity → D.State → Observed → Answer
  acquire_from id s (unusable codes) = (ok codes, s)
  acquire_from id s (usable base current) =
      if is_active current
      then (ok (if same_identity current id then [] else "coordinator_busy" ∷ []), s)
      else if not (eq_str (get "state" current) "FREE")
      then (ok ("coordinator_not_free" ∷ []), s)
      else advance "coordinator_acquire" base (acquired id current) s

  acquire_read : Identity → Result Reading × D.State → Answer
  acquire_read id (raised x, s) = (raised x, s)
  acquire_read id (ok reading, s) =
      acquire_from id s (observe "coordinator_initialize_failed" reading)

  -- `acquire`: an empty list of errors means that the lease is held.
  unfoldable pub acquire : Identity → D.State → Answer
  unfolding acquire_read acquire_from transition pushed verified shows observe ensure_initialized
      read_state ls prepare push state_bytes payload acquired is_active same_identity
  acquire id s = acquire_read id (ensure_initialized D codec sha256 s)

  -- Whether `id` holds the lease, with the write boundary crossed or not.
  unfoldable pub holds : Bool → Value → Identity → Bool
  unfolding is_active same_identity
  holds started current id =
      is_active current
      && (same_identity current id
          && (if started then is_true else is_false) (get "canonical_write_performed" current))

  pub release_from :
      String → Bool → (Value → List (String × Value)) → Identity → D.State → Observed → Answer
  release_from name started next id s (unusable codes) = (ok codes, s)
  release_from name started next id s (usable base current) =
      if holds started current id
      then advance name base (next current) s
      else (ok ((name <> "_identity_mismatch") ∷ []), s)

  pub release_read :
      String → Bool → (Value → List (String × Value)) → Identity → D.State → Result Reading → Answer
  release_read name started next id s (raised x) = (raised x, s)
  release_read name started next id s (ok reading) =
      release_from name started next id s (observe (name <> "_read_failed") reading)

  abbrev release : String → Bool → (Value → List (String × Value)) → Identity → D.State → Answer
  release name started next id s = release_read name started next id s (read_state D codec sha256 s)

  unfoldable pub release_prewrite_abort : Identity → D.State → Answer
  unfolding release_read release_from holds transition pushed verified shows observe read_state ls
      prepare push state_bytes payload released
  release_prewrite_abort id s =
      release "coordinator_release" false (released "PREWRITE_ABORT_VERIFIED" [] id) id s

  pub mark_from : Identity → D.State → Observed → Answer
  mark_from id s (unusable codes) = (ok codes, s)
  mark_from id s (usable base current) =
      if not (is_active current && same_identity current id)
      then (ok ("coordinator_write_start_identity_mismatch" ∷ []), s)
      else if is_true (get "canonical_write_performed" current)
      then (ok [], s)
      else advance "coordinator_write_start" base (write_started current) s

  pub mark_read : Identity → D.State → Result Reading → Answer
  mark_read id s (raised x) = (raised x, s)
  mark_read id s (ok reading) =
      mark_from id s (observe "coordinator_write_start_read_failed" reading)

  unfoldable pub mark_canonical_write_started : Identity → D.State → Answer
  unfolding mark_read mark_from is_active same_identity transition pushed verified shows observe
      read_state ls prepare push state_bytes payload write_started kept_of next_generation
  mark_canonical_write_started id s = mark_read id s (read_state D codec sha256 s)

  unfoldable pub release_committed : String → Identity → D.State → Answer
  unfolding release_read release_from holds transition pushed verified shows observe read_state ls
      prepare push state_bytes payload released
  release_committed receipt_sha256 id s =
      if is_digest receipt_sha256
      then release "coordinator_commit_release" true
          (released "VERIFIED_COMMITTED" (("released_receipt_sha256", str receipt_sha256) ∷ []) id)
          id s
      else (ok ("coordinator_receipt_sha_invalid" ∷ []), s)

  unfoldable pub release_recovered : String → Identity → D.State → Answer
  unfolding release_read release_from holds transition pushed verified shows observe read_state ls
      prepare push state_bytes payload released
  release_recovered journal_sha256 id s =
      if is_digest journal_sha256
      then release "coordinator_recovery_release" true
          (released "VERIFIED_RECOVERED"
            (("released_recovered_journal_sha256", str journal_sha256) ∷ []) id)
          id s
      else (ok ("coordinator_recovered_journal_sha_invalid" ∷ []), s)
