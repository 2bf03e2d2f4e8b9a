-- ===== src/Prewrite/Arm.antt =====
-- `build_prepared_journal`, `persist_and_verify_recovery` and `mark_aborted_prewrite` of
-- src/candidate_transaction_prewrite_arm.py. A storage stands for the remote: `remote_cat` reads it
-- and `remote_copy_bytes` writes it.
pub mod Snapshots
pub mod Verified
pub mod Persisted
pub mod Armed
pub mod Frame
use technology_library_inges.Base.{
  ℕ, String, ◌<>◌, ◌≡◌, refl, Bool, true, false, not, Option, none, some, List, [], ◌∷◌, ◌++◌,
  if◌then◌else◌, sorted_set, Result, ok, raised, ◌>>=◌,
}
use technology_library_inges.Json.{
  pos, Value, null, bool, int, str, arr, obj, fields, get, index, set_key, update, is_dict, text_of,
  list_items, value_eq,
}
use technology_library_inges.Paths.{posix_path, joined, as_posix}
use technology_library_inges.Storage.{Bytes, Storage, Sha256, holds, bytes_eq}
use technology_library_inges.Coordinator.Drive.{Codec}
use technology_library_inges.Transaction.Engine.{items_at, plan_items}
use technology_library_inges.Prewrite.Capture.{
  Captured, recall, snapshot_name, affected_paths, safe_recovery_path,
}

abbrev pub coordinator_ref : String
coordinator_ref = "refs/heads/tl-candidate-production-coordinator"

-- `current is not None`
pub is_some : Option Bytes → Bool
is_some none = false
is_some (some raw) = true

module _ (sha256 : Sha256) (utf8 : String → Bytes) where
  digest_or_null : Option Bytes → Value
  digest_or_null none = null
  digest_or_null (some raw) = str (sha256 raw)

  snapshot_or_null : String → String → Option Bytes → Value
  snapshot_or_null run_root path none = null
  snapshot_or_null run_root path (some raw) = str (
      as_posix (joined (joined (posix_path run_root) "snapshots") (snapshot_name sha256 utf8 path)))

  -- The three keys that both groups of rows share.
  what_was : String → String → Option Bytes → List (String × Value)
  what_was run_root path current =
      ("existed_before", bool (is_some current))
      ∷ ("before_sha256", digest_or_null current)
      ∷ ("snapshot_path", snapshot_or_null run_root path current)
      ∷ []

  pub item_row : String → Captured → Value → Value
  item_row run_root before item =
      let target = text_of (get "target_path" item) in
      obj (
        fields (
          ("action", get "action" item)
          ∷ ("record_id", get "record_id" item)
          ∷ ("target_path", str target)
          ∷ what_was run_root target (recall before target)))

  pub item_rows : String → Captured → List Value → List Value
  item_rows run_root before [] = []
  item_rows run_root before (item ∷ items) =
      let rest = item_rows run_root before items in
      if is_dict item then item_row run_root before item ∷ rest else rest

  pub index_row : String → Captured → String → Value
  index_row run_root before path =
      obj (fields (("path", str path) ∷ what_was run_root path (recall before path)))

  pub index_rows : String → Captured → List String → List Value
  index_rows run_root before [] = []
  index_rows run_root before (path ∷ paths) =
      index_row run_root before path ∷ index_rows run_root before paths

  pub prepared_journal :
      Value → Bytes → Bytes → Bytes → String → String → Captured → List Value → Value
  prepared_journal transaction readiness_raw authorization_raw transaction_raw owner run_root before
        items =
      obj (
        fields (
          ("schema_version", int (pos 1))
          ∷ ("prewrite_arm_version", str "0.1.0")
          ∷ ("state", str "PREPARED")
          ∷ ("transaction_id", get "transaction_id" transaction)
          ∷ ("batch_id", get "finalize_batch_id" transaction)
          ∷ ("owner", str owner)
          ∷ ("coordinator_ref", str coordinator_ref)
          ∷ ("run_root", str run_root)
          ∷ ("journal_path", str (as_posix (joined (posix_path run_root) "journal.json")))
          ∷ ("readiness_sha256", str (sha256 readiness_raw))
          ∷ ("authorization_sha256", str (sha256 authorization_raw))
          ∷ ("transaction_plan_sha256", str (sha256 transaction_raw))
          ∷ ("master_index_before_sha256", get "master_index_sha256" transaction)
          ∷ ("live_preconditions_verified_under_ownership", bool true)
          ∷ ("snapshots_verified", bool false)
          ∷ ("safe_abort_verified", bool false)
          ∷ ("coordinator_release_allowed", bool false)
          ∷ ("canonical_write_performed", bool false)
          ∷ ("items", arr (list_items (item_rows run_root before items)))
          ∷ ("indexes", arr (list_items (index_rows run_root before (affected_paths items))))
          ∷ []))

  unfoldable pub build_prepared_journal :
      Value → Bytes → Bytes → Bytes → String → String → Captured → Result Value
  unfolding plan_items prepared_journal item_rows item_row index_rows index_row what_was
      digest_or_null snapshot_or_null is_some recall affected_paths snapshot_name posix_path joined
      as_posix text_of
  build_prepared_journal transaction readiness_raw authorization_raw transaction_raw owner run_root
        before =
      do
        items ← plan_items transaction
        ok (
            prepared_journal transaction readiness_raw authorization_raw transaction_raw owner
              run_root before items)

pub aborted_journal : Value → Value
aborted_journal journal = update journal (
    ("state", str "ABORTED_PREWRITE")
    ∷ ("safe_abort_verified", bool true)
    ∷ ("coordinator_release_allowed", bool true)
    ∷ ("canonical_write_performed", bool false)
    ∷ [])

-- Three answers of the remote in turn: `_private_write_bytes` or `_private_write_json`, and the
-- read that checks it.
module _ (S : Storage) where
  unfoldable pub private_write_bytes : String → Bytes → S.State → Bool × S.State
  unfolding safe_recovery_path
  private_write_bytes relative raw s =
      if safe_recovery_path relative then S.write s relative raw else (false, s)

  pub verify_snapshot : String → String → Bytes → Bool × S.State → List String × S.State
  verify_snapshot source snapshot raw (false, s) = (("snapshot_write_failed:" <> source) ∷ [], s)
  verify_snapshot source snapshot raw (true, s) =
      if holds (S.read s snapshot) raw
      then ([], s)
      else (("snapshot_verify_failed:" <> source) ∷ [], s)

  write_snapshot : String → String → Option Bytes → S.State → List String × S.State
  write_snapshot source snapshot none s = (("snapshot_source_missing:" <> source) ∷ [], s)
  write_snapshot source snapshot (some raw) s =
      verify_snapshot source snapshot raw (private_write_bytes snapshot raw s)

  persist_row : Captured → String → Value → S.State → List String × S.State
  persist_row before source null s = ([], s)
  persist_row before source snapshot s =
      write_snapshot source (text_of snapshot) (recall before source) s

  persist_entry : Captured → String → Value → S.State → List String × S.State
  persist_entry before key entry s =
      if is_dict entry
      then persist_row before (text_of (get key entry)) (get "snapshot_path" entry) s
      else ("journal_entry_invalid" ∷ [], s)

  persist_entries : Captured → String → List Value → S.State → List String × S.State
  persist_entries before key [] s = ([], s)
  persist_entries before key (entry ∷ entries) s =
      let here = persist_entry before key entry s in
      let later = persist_entries before key entries here.1 in (here.0 ++ later.0, later.1)

  persist_group : Captured → String → Result (List Value) → S.State → Result (List String) × S.State
  persist_group before key (raised x) s = (raised x, s)
  persist_group before key (ok entries) s =
      let done = persist_entries before key entries s in (ok done.0, done.1)

  persist_indexes :
      Captured → Value → Result (List String) × S.State → Result (List String) × S.State
  persist_indexes before journal (raised x, s) = (raised x, s)
  persist_indexes before journal (ok codes, s) =
      let (more, s') = persist_group before "path" (items_at "indexes" journal) s in
      (do codes' ← more; ok (codes ++ codes'), s')

  pub persist_snapshots : Captured → Value → S.State → Result (List String) × S.State
  persist_snapshots before journal s =
      persist_indexes before journal
        (persist_group before "target_path" (items_at "items" journal) s)

  module _ (codec : Codec) where
    -- `remote_json(remote, path) != payload`, with `None` for what is no document or no `dict`.
    pub stored_is : Option Bytes → Value → Bool
    stored_is none payload = false
    stored_is (some raw) payload = parsed_is (codec.decode raw)
      where
        parsed_is : Option Value → Bool
        parsed_is none = false
        parsed_is (some v) = if is_dict v then value_eq v payload else false

    -- The journal as it is afterwards, the errors, and the remote.
    abbrev pub Persisted : Type 0
    Persisted = Result (Value × List String) × S.State

    after_json : String → String → Value → Value → String → Bool × S.State → Persisted
    after_json write_code verify_code journal payload path (false, s) =
        (ok (journal, write_code ∷ []), s)
    after_json write_code verify_code journal payload path (true, s) =
        if stored_is (S.read s path) payload
        then (ok (payload, []), s)
        else (ok (journal, verify_code ∷ []), s)

    -- `_private_write_json`, the readback, and the new contents of the caller's journal.
    pub write_journal : String → String → Value → Value → String → S.State → Persisted
    write_journal write_code verify_code journal payload path s =
        after_json write_code verify_code journal payload path
          (private_write_bytes path (codec.encode payload) s)

    persist_journal_at : Value → Value → Result Value → S.State → Persisted
    persist_journal_at journal prepared (raised x) s = (raised x, s)
    persist_journal_at journal prepared (ok path) s =
        write_journal "journal_write_failed" "journal_verify_failed" journal prepared (text_of path)
          s

    pub after_snapshots : Value → Result (List String) × S.State → Persisted
    after_snapshots journal (raised x, s) = (raised x, s)
    after_snapshots journal (ok (code ∷ codes), s) = (ok (journal, sorted_set (code ∷ codes)), s)
    after_snapshots journal (ok [], s) =
        let prepared = set_key "snapshots_verified" (bool true) journal in
        persist_journal_at journal prepared (index "journal_path" prepared) s

    unfoldable pub persist_and_verify_recovery : Captured → Value → S.State → Persisted
    unfolding after_snapshots persist_journal_at write_journal after_json stored_is
        persist_snapshots persist_indexes persist_group persist_entries persist_entry persist_row
        write_snapshot verify_snapshot private_write_bytes safe_recovery_path items_at recall
        set_key value_eq holds bytes_eq text_of sorted_set
    persist_and_verify_recovery before journal s =
        after_snapshots journal (persist_snapshots before journal s)

    unfoldable pub mark_aborted_prewrite : Value → S.State → Persisted
    unfolding aborted_journal write_journal after_json stored_is private_write_bytes
        safe_recovery_path update value_eq text_of
    mark_aborted_prewrite journal s =
        let terminal = aborted_journal journal in
        write_journal "abort_journal_write_failed" "abort_journal_verify_failed" journal terminal
          (text_of (get "journal_path" terminal)) s
