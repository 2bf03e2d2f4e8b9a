-- ===== src/Prewrite/Arm/Frame.antt =====
-- Where `persist_and_verify_recovery` and `mark_aborted_prewrite` of
-- src/candidate_transaction_prewrite_arm.py write: below the recovery folder.
use technology_library_inges.Base.{
  Bool, String, ◌≡◌, refl, ap, ◌∙◌, true, false, Option, none, some, List, [], ◌∷◌, Result, ok,
  raised, Bool-cases, inl, inr, arith, starts_with,
}
use technology_library_inges.Json.{Value, null, get, is_dict, text_of}
use technology_library_inges.Storage.{Bytes, Storage, IsFramed}
use technology_library_inges.Coordinator.Drive.{Codec}
use technology_library_inges.Transaction.Engine.{items_at}
use technology_library_inges.Prewrite.Capture.{
  Captured, recall, safe_recovery_path, recovery_prefix,
}
use technology_library_inges.Prewrite.Arm.{
  private_write_bytes, write_snapshot, persist_row, persist_entry, persist_entries, persist_group,
  persist_indexes, persist_snapshots, Persisted, after_json, write_journal, persist_journal_at,
  after_snapshots, persist_and_verify_recovery, mark_aborted_prewrite, aborted_journal,
}
use technology_library_inges.Prewrite.Arm.Snapshots.{verify_snapshot-state}
use technology_library_inges.Prewrite.Arm.Persisted.{persist_and_verify_recovery_lem}

safe_recovery_path-prefix :
    (p : String) → safe_recovery_path p ≡ true → starts_with p recovery_prefix ≡ true
unfolding safe_recovery_path
safe_recovery_path-prefix p h = ground arith

module _ (S : Storage) (framed : IsFramed S) (q : String)
    (outside : starts_with q recovery_prefix ≡ false) where
  -- The guard refuses a path outside the folder, so a write that happens is elsewhere.
  private_write_bytes-Keeps :
      (path : String) (raw : Bytes) (s : S.State)
      → S.read (private_write_bytes S path raw s).1 q ≡ S.read s q
  unfolding private_write_bytes
  private_write_bytes-Keeps path raw s = elim (Bool-cases (safe_recovery_path path)) [
    | inl safe ↦ rw safe (
        framed.read-write s path q raw (λ e. cc (
          ap (λ (p : String). starts_with p recovery_prefix) e,
          safe_recovery_path-prefix path safe,
          outside,
        )))
    | inr unsafe ↦ rw unsafe refl
  ]

  write_snapshot-Keeps :
      (source snapshot : String) (o : Option Bytes) (s : S.State)
      → S.read (write_snapshot S source snapshot o s).1 q ≡ S.read s q
  unfolding write_snapshot
  write_snapshot-Keeps source snapshot none s = refl
  write_snapshot-Keeps source snapshot (some raw) s =
      ap (λ (t : S.State). S.read t q)
        (verify_snapshot-state S framed source snapshot raw (private_write_bytes S snapshot raw s))
      ∙ private_write_bytes-Keeps snapshot raw s

  persist_row-Keeps :
      (before : Captured) (source : String) (v : Value) (s : S.State)
      → S.read (persist_row S before source v s).1 q ≡ S.read s q
  unfolding persist_row
  persist_row-Keeps before source null s = refl
  persist_row-Keeps before source v s =
      write_snapshot-Keeps source (text_of v) (recall before source) s

  persist_entry-Keeps :
      (before : Captured) (key : String) (entry : Value) (s : S.State)
      → S.read (persist_entry S before key entry s).1 q ≡ S.read s q
  unfolding persist_entry
  persist_entry-Keeps before key entry s = elim (Bool-cases (is_dict entry)) [
    | inl d ↦ rw d (persist_row-Keeps before _ (get "snapshot_path" entry) s)
    | inr d ↦ rw d refl
  ]

  persist_entries-Keeps :
      (before : Captured) (key : String) (entries : List Value) (s : S.State)
      → S.read (persist_entries S before key entries s).1 q ≡ S.read s q
  unfolding persist_entries
  persist_entries-Keeps before key [] s = refl
  persist_entries-Keeps before key (entry ∷ entries) s =
      persist_entries-Keeps before key entries (persist_entry S before key entry s).1
      ∙ persist_entry-Keeps before key entry s

  persist_group-Keeps :
      (before : Captured) (key : String) (entries : Result (List Value)) (s : S.State)
      → S.read (persist_group S before key entries s).1 q ≡ S.read s q
  unfolding persist_group
  persist_group-Keeps before key (raised x) s = refl
  persist_group-Keeps before key (ok entries) s = persist_entries-Keeps before key entries s

  persist_indexes-Keeps :
      (before : Captured) (journal : Value) (a : Result (List String) × S.State)
      → S.read (persist_indexes S before journal a).1 q ≡ S.read a.1 q
  unfolding persist_indexes
  persist_indexes-Keeps before journal (raised x, s) = refl
  persist_indexes-Keeps before journal (ok codes, s) =
      persist_group-Keeps before "path" (items_at "indexes" journal) s

  persist_snapshots-Keeps :
      (before : Captured) (journal : Value) (s : S.State)
      → S.read (persist_snapshots S before journal s).1 q ≡ S.read s q
  unfolding persist_snapshots
  persist_snapshots-Keeps before journal s =
      persist_indexes-Keeps before journal _
      ∙ persist_group-Keeps before "target_path" (items_at "items" journal) s

  module _ (codec : Codec) where
    after_json-state :
        (write_code verify_code : String) (journal payload : Value) (path : String)
        (r : Bool × S.State)
        → S.read (after_json S codec write_code verify_code journal payload path r).1 q
          ≡ S.read r.1 q
    unfolding after_json
    after_json-state write_code verify_code journal payload path (false, s) = refl
    after_json-state write_code verify_code journal payload path (true, s) = ground arith

    write_journal-Keeps :
        (write_code verify_code : String) (journal payload : Value) (path : String) (s : S.State)
        → S.read (write_journal S codec write_code verify_code journal payload path s).1 q
          ≡ S.read s q
    unfolding write_journal
    write_journal-Keeps write_code verify_code journal payload path s =
        after_json-state write_code verify_code journal payload path _
        ∙ private_write_bytes-Keeps path (codec.encode payload) s

    persist_journal_at-Keeps :
        (journal prepared : Value) (path : Result Value) (s : S.State)
        → S.read (persist_journal_at S codec journal prepared path s).1 q ≡ S.read s q
    unfolding persist_journal_at
    persist_journal_at-Keeps journal prepared (raised x) s = refl
    persist_journal_at-Keeps journal prepared (ok path) s =
        write_journal-Keeps "journal_write_failed" "journal_verify_failed" journal prepared
          (text_of path) s

    after_snapshots-Keeps :
        (journal : Value) (a : Result (List String) × S.State)
        → S.read (after_snapshots S codec journal a).1 q ≡ S.read a.1 q
    unfolding after_snapshots
    after_snapshots-Keeps journal (raised x, s) = refl
    after_snapshots-Keeps journal (ok (code ∷ codes), s) = refl
    after_snapshots-Keeps journal (ok [], s) = persist_journal_at-Keeps journal _ _ s

    mark_aborted_prewrite_lem :
        (journal : Value) (s : S.State)
        → mark_aborted_prewrite S codec journal s
          ≡ write_journal S codec "abort_journal_write_failed" "abort_journal_verify_failed" journal
              (aborted_journal journal)
              (text_of (get "journal_path" (aborted_journal journal)))
              s
    unfolding mark_aborted_prewrite
    mark_aborted_prewrite_lem journal s = refl

    -- Over a storage whose writes leave the other paths alone: for any journal and any outcome,
    -- with errors or an exception too, neither arming a transaction nor aborting it changes a
    -- path outside the recovery folder.
    pub prewrite_keeps_outside :
        (before : Captured) (journal : Value) (s : S.State)
        → (S.read (persist_and_verify_recovery S codec before journal s).1 q ≡ S.read s q)
          × (S.read (mark_aborted_prewrite S codec journal s).1 q ≡ S.read s q)
    prewrite_keeps_outside before journal s = (
      ap (λ x. S.read x q)
            (ap (λ (a : Persisted S codec). a.1)
              (persist_and_verify_recovery_lem S codec before journal s))
          ∙ after_snapshots-Keeps journal (persist_snapshots S before journal s)
          ∙ persist_snapshots-Keeps before journal s,
      ap (λ x. S.read x q)
            (ap (λ (a : Persisted S codec). a.1) (mark_aborted_prewrite_lem journal s))
          ∙ write_journal-Keeps "abort_journal_write_failed" "abort_journal_verify_failed" journal
              (aborted_journal journal) _ s,
    )
