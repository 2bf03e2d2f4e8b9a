-- ===== src/Publish/Release.antt =====
-- `_private_write_exact`, `persist_journal`, `canonical_delete` and `persist_recovered_and_release` of
-- src/candidate_controlled_publish.py. The canonical writer is a parameter, as it is in the code; an
-- outcome that the remote does not confirm raises, and stops the worker where it stands.
pub mod Owned
use technology_library_inges.Base.{
  String, ◌≡◌, refl, Bool, true, false, not, ◌&&◌, ◌||◌, Option, none, some, List, [], ◌∷◌,
  if◌then◌else◌, contains, starts_with, is_empty, sorted_set, Result, ok, raised, Exception,
  remote_uncertain, ◌>>=◌,
}
use technology_library_inges.Json.{
  Value, null, bool, int, str, arr, obj, get, index, is_dict, is_true, eq_str, value_eq, text_of,
  update,
}
use technology_library_inges.Paths.{posix_path, parts}
use technology_library_inges.Storage.{Bytes, Storage, Sha256, holds, bytes_eq}
use technology_library_inges.Coordinator.Drive.{Drive, Codec, Reading, read_state}
use technology_library_inges.Coordinator.State.{Identity}
use technology_library_inges.Coordinator.Transitions.{release_recovered}
use technology_library_inges.Recovery.Execute.{execute_recovery}
use technology_library_inges.Prewrite.Capture.{safe_recovery_path}
use technology_library_inges.Publish.Restored.{started}

-- `isinstance(path, str) and path.startswith("00_LIBRARY/") and ".." not in PurePosixPath(path).parts`
unfoldable pub safe_library_path : String → Bool
unfolding starts_with posix_path parts
safe_library_path path =
    starts_with path "00_LIBRARY/" && not (contains (parts (posix_path path)) "..")

module _ (S : Storage) where
  -- The write is confirmed and read back, or the worker stops.
  confirm : String → Bytes → Bool × S.State → Result Bool × S.State
  confirm path raw (false, s) = (raised remote_uncertain, s)
  confirm path raw (true, s) =
      if holds (S.read s path) raw then (ok true, s) else (raised remote_uncertain, s)

  unfoldable pub private_write_exact : String → Bytes → S.State → Result Bool × S.State
  unfolding confirm safe_recovery_path holds bytes_eq
  private_write_exact path raw s =
      if safe_recovery_path path then confirm path raw (S.write s path raw) else (ok false, s)

  absent : Option Bytes → Bool
  absent none = true
  absent (some raw) = false

  confirm_deleted : String → Bool × S.State → Result Bool × S.State
  confirm_deleted path (false, s) = (raised remote_uncertain, s)
  confirm_deleted path (true, s) = (ok (absent (S.read s path)), s)

  unfoldable pub canonical_delete : String → S.State → Result Bool × S.State
  unfolding confirm_deleted absent safe_library_path
  canonical_delete path s =
      if safe_library_path path then confirm_deleted path (S.delete s path) else (ok false, s)

  -- The callbacks that the recovery engine is given: the canonical writer and `canonical_delete`. The
  -- engine stops at the first callback that does not succeed, so a raise is a failure that the state
  -- remembers, and that is raised again when the engine has returned.
  abbrev pub Writer : Type 0
  Writer = String → Bytes → S.State → Result Bool × S.State

  pub settle : Option Exception → Result Bool × S.State → Bool × (S.State × Option Exception)
  settle pending (raised x, s) = (false, (s, some x))
  settle pending (ok done, s) = (done, (s, pending))

  abbrev pub callbacks : Writer → Storage
  callbacks writer = record {
    State = S.State × Option Exception;
    read = λ state path. S.read state.0 path;
    write = λ state path raw. settle state.1 (writer path raw state.0);
    delete = λ state path. settle state.1 (canonical_delete path state.0);
  }

  module _ (codec : Codec) where
    persist_at : Value → Value → S.State → Result Bool × S.State
    persist_at (str path) journal s = private_write_exact path (codec.encode journal) s
    persist_at v journal s = (ok false, s)

    unfoldable pub persist_journal : Value → S.State → Result Bool × S.State
    unfolding persist_at private_write_exact
    persist_journal journal s = persist_at (get "journal_path" journal) journal s

    module _ (sha256 : Sha256) (D : Drive) (writer : Writer) where
      -- Whether the recovery was released, and the errors.
      abbrev pub Answer : Type 0
      Answer = Result (Bool × List String) × S.State × D.State

      refuse : String → S.State → D.State → Answer
      refuse code s d = (ok (false, code ∷ []), s, d)

      pub identity_of : Value → Result Identity
      identity_of recovered = do
        transaction_id ← index "transaction_id" recovered
        batch_id ← index "batch_id" recovered
        owner ← index "owner" recovered
        journal_path ← index "journal_path" recovered
        ok (record {
          transaction_id = text_of transaction_id;
          batch_id = text_of batch_id;
          owner = text_of owner;
          journal_path = text_of journal_path;
        })

      answer_of : Result (List String) → Result (Bool × List String)
      answer_of (raised x) = raised x
      answer_of (ok codes) = ok (is_empty codes, sorted_set codes)

      -- `release_recovered(…)`, with the digest of the journal as it was persisted.
      release_with : Bytes → Result Identity → S.State → D.State → Answer
      release_with raw (raised x) s d = (raised x, s, d)
      release_with raw (ok id) s d =
          let (codes, d') = release_recovered D codec sha256 (sha256 raw) id d in
          (answer_of codes, s, d')

      after_final : Value → Result Bool × S.State → D.State → Answer
      after_final recovered (raised x, s) d = (raised x, s, d)
      after_final recovered (ok false, s) d = refuse "recovered_journal_persist_failed" s d
      after_final recovered (ok true, s) d =
          release_with (codec.encode recovered) (identity_of recovered) s d

      persist_recovered : Value → Result Value → S.State → D.State → Answer
      persist_recovered recovered (raised x) s d = (raised x, s, d)
      persist_recovered recovered (ok path) s d =
          after_final recovered (private_write_exact (text_of path) (codec.encode recovered) s) d

      after_recovery :
          Result (Option Value × List String) × S.State × Option Exception → D.State → Answer
      after_recovery (r, s, some x) d = (raised x, s, d)
      after_recovery (raised x, s, none) d = (raised x, s, d)
      after_recovery (ok (recovered, code ∷ codes), s, none) d = (ok (false, code ∷ codes), s, d)
      after_recovery (ok (none, []), s, none) d = refuse "recovery_failed" s d
      after_recovery (ok (some recovered, []), s, none) d =
          persist_recovered recovered (index "journal_path" recovered) s d

      -- `execute_recovery` with the callbacks, from a storage where nothing has been raised.
      recover : Value → S.State → Result (Option Value × List String) × S.State × Option Exception
      recover journal s =
          let (r, state) = execute_recovery (callbacks writer) sha256 journal true (s, none) in
          (r, state.0, state.1)

      after_journal : Value → Result Bool × S.State → D.State → Answer
      after_journal journal (raised x, s) d = (raised x, s, d)
      after_journal journal (ok false, s) d = refuse "recovery_required_journal_write_failed" s d
      after_journal journal (ok true, s) d = after_recovery (recover journal s) d

      -- The lease is held, past the write boundary, for this journal.
      pub owns : Value → Value → Bool
      owns active journal =
          eq_str (get "state" active) "ACTIVE"
          && is_true (get "canonical_write_performed" active)
          && value_eq (get "transaction_id" active) (get "transaction_id" journal)
          && value_eq (get "batch_id" active) (get "batch_id" journal)
          && value_eq (get "owner" active) (get "owner" journal)
          && value_eq (get "journal_path" active) (get "journal_path" journal)

      -- A stale worker must not restore files once another one holds the lease.
      with_lease : Value → Result Reading → S.State → D.State → Answer
      with_lease journal (raised x) s d = (raised x, s, d)
      with_lease journal (ok (token, active, code ∷ codes)) s d =
          refuse "recovery_owner_unavailable" s d
      with_lease journal (ok (token, active, [])) s d =
          if not (is_dict active)
          then refuse "recovery_owner_unavailable" s d
          else if not (owns active journal)
          then refuse "recovery_owner_mismatch" s d
          else (let required = started "RECOVERY_REQUIRED" journal in
              after_journal required (persist_journal required s) d)

      unfoldable pub persist_recovered_and_release : Value → S.State → D.State → Answer
      unfolding with_lease owns refuse after_journal after_recovery persist_recovered after_final
          release_with answer_of identity_of persist_journal private_write_exact recover settle
          canonical_delete execute_recovery release_recovered read_state started get index value_eq
          text_of sorted_set
      persist_recovered_and_release journal s d =
          with_lease journal (read_state D codec sha256 d) s d
