-- ===== src/Publish/Restored.antt =====
-- The sequence of src/candidate_controlled_publish.py as far as it protects the library: capture the
-- state, prepare the journal, seal it, persist it, run the transaction, recover.
use technology_library_inges.Base.{
  Bool, String, str_eq, ◌≡◌, ◌≢◌, refl, sym, ap, ◌∙◌, subst, true, false, not, some, List, [], ◌∷◌,
  All, ok, Bool-cases, inl, inr, starts_with, library-ne-inbox,
}
use technology_library_inges.Json.{
  Value, bool, str, get, update, get-update, set_key-is_dict, is_dict, text_of,
}
use technology_library_inges.Storage.{Bytes, Storage, Sha256, IsFramed}
use technology_library_inges.Coordinator.Drive.{Codec}
use technology_library_inges.Recovery.Journal.{Row, rows_of, snapshot_of, existed_before}
use technology_library_inges.Recovery.Journal.Rows.{IsRow, validate-Good}
use technology_library_inges.Recovery.Execute.{execute_recovery}
use technology_library_inges.Recovery.Execute.Contract.{
  Records, execute_recovery-back, execute_recovery-valid,
}
use technology_library_inges.Transaction.Indexes.{IndexBuilder}
use technology_library_inges.Transaction.Engine.{plan_items, execute_canonical_transaction}
use technology_library_inges.Transaction.Engine.Contract.Restored.{Covers}
use technology_library_inges.Transaction.Engine.Contract.Frame.{execute_canonical_transaction-frame}
use technology_library_inges.Transaction.Engine.Contract.Outside.{
  execute_canonical_transaction-outside,
}
use technology_library_inges.Prewrite.Capture.{Captured, capture_canonical_state, recovery_prefix}
use technology_library_inges.Prewrite.Arm.{build_prepared_journal, persist_and_verify_recovery}
use technology_library_inges.Prewrite.Arm.Snapshots.{HasSnapshot, Agree}
use technology_library_inges.Prewrite.Arm.Verified.{HasTargets, Faithful}
use technology_library_inges.Prewrite.Arm.Persisted.{persist-Armed, rows_of-verified}
use technology_library_inges.Prewrite.Arm.Armed.{build_prepared_journal-Prepared}
use technology_library_inges.Prewrite.Arm.Frame.{prewrite_keeps_outside}
use technology_library_inges.Publish.Seal.{bind_expected_post_hashes, predict}
use technology_library_inges.Publish.Seal.Bound.{bind_expected_post_hashes-Listed, Pairs-Faithful}

library-out :
    (q : String) → starts_with q "00_LIBRARY/" ≡ true → starts_with q recovery_prefix ≡ false
library-out q h = elim (Bool-cases (starts_with q recovery_prefix)) [
  | inl inside ↦ absurd (library-ne-inbox q h inside)
  | inr outside ↦ outside
]

recovery-out :
    (q : String) → starts_with q recovery_prefix ≡ true → starts_with q "00_LIBRARY/" ≡ false
recovery-out q h = elim (Bool-cases (starts_with q "00_LIBRARY/")) [
  | inl inside ↦ absurd (library-ne-inbox q inside h)
  | inr outside ↦ outside
]

-- The journal once the write boundary is crossed: `journal["state"] = state`,
-- `journal["canonical_write_performed"] = True`.
unfoldable pub started : String → Value → Value
started state journal =
    update journal (("state", str state) ∷ ("canonical_write_performed", bool true) ∷ [])

rows_of-started :
    (state : String) (journal : Value)
    → is_dict journal ≡ true
    → rows_of (started state journal) ≡ rows_of journal
unfolding rows_of started str_eq
rows_of-started state journal d =
    rw
      (
        get-update "items" journal
            (("state", str state) ∷ ("canonical_write_performed", bool true) ∷ []) d,
        get-update "indexes" journal
            (("state", str state) ∷ ("canonical_write_performed", bool true) ∷ []) d,
      )
      refl

module _ (S : Storage) (framed : IsFramed S) (sha256 : Sha256) where
  -- The two storages differ at most in the file of the journal, which is rewritten between steps.
  abbrev pub ApartFrom : String → S.State → S.State → Type 0
  ApartFrom path s s' = (q : String) → path ≢ q → S.read s' q ≡ S.read s q

  -- A row that records `s0` in `s1` does so as long as its snapshot is there.
  later-Records :
      (old : Bool) (s0 s1 s2 : S.State) (row : Row)
      → (old ≡ true → S.read s2 (snapshot_of row) ≡ S.read s1 (snapshot_of row))
      → Records S framed sha256 old s0 s1 row
      → Records S framed sha256 old s0 s2 row
  later-Records true s0 s1 s2 row snap (b, held, there) = (b, snap refl ∙ held, there)
  later-Records false s0 s1 s2 row snap absent = absent

  -- The snapshots of the rows are no file of the journal.
  abbrev NotJournal : String → List Row → Type 0
  NotJournal path rows = All (λ row. existed_before row ≡ true → path ≢ snapshot_of row) rows

  All-later-Records :
      (path : String) (rows : List Row) (s0 s1 s2 : S.State)
      → ((q : String) → starts_with q recovery_prefix ≡ true → path ≢ q → S.read s2 q ≡ S.read s1 q)
      → All IsRow rows
      → NotJournal path rows
      → All (λ row. Records S framed sha256 (existed_before row) s0 s1 row) rows
      → All (λ row. Records S framed sha256 (existed_before row) s0 s2 row) rows
  All-later-Records path [] s0 s1 s2 same is apart r = tt
  All-later-Records path (row ∷ rows) s0 s1 s2 same (is, iss) (ne, apart) (one, r) = (
    later-Records (existed_before row) s0 s1 s2 row
        (λ e. same (snapshot_of row) (is.snapshot_in_root e) (ne e)) one,
    All-later-Records path rows s0 s1 s2 same iss apart r,
  )

  Faithful-NotJournal :
      (path : String) (before : Captured) (s : S.State) (rows : List Row)
      → All (Faithful S before s) rows
      → All (λ row. HasSnapshot row → path ≢ snapshot_of row) rows
      → NotJournal path rows
  Faithful-NotJournal path before s [] f apart = tt
  Faithful-NotJournal path before s (row ∷ rows) ((captured, (told, has)), f) (ne, apart) =
      (λ e. ne (has ∙ ap not (sym told ∙ e)), Faithful-NotJournal path before s rows f apart)

  module _ (utf8 : String → Bytes) (B : IndexBuilder) (codec : Codec) where
    -- The arming of a transaction, step by step, from the storage `s`; `bound` is persisted, and
    -- `j` is the journal as it is then.
    abbrev pub Arms :
        Value
        → Bytes
        → Bytes
        → Bytes
        → String
        → String
        → List String
        → S.State
        → Captured
        → Value
        → Value
        → Value
        → Type 0
    Arms transaction readiness_raw authorization_raw transaction_raw owner run_root record_paths s
          before prepared bound j =
        (capture_canonical_state (S.read s) transaction ≡ ok before)
        × (build_prepared_journal sha256 utf8 transaction readiness_raw authorization_raw
              transaction_raw owner run_root before
            ≡ ok prepared)
        × (bind_expected_post_hashes S sha256 B prepared transaction record_paths s
            ≡ ok (bound, []))
        × ((persist_and_verify_recovery S codec before bound s).0 ≡ ok (j, []))

    module _ (transaction : Value) (items : List Value)
        (readiness_raw authorization_raw transaction_raw : Bytes) (owner run_root state : String)
        (record_paths : List String) (before : Captured) (prepared bound j r : Value)
        (s s1 s2 : S.State) where
      abbrev pub journal_file : String
      journal_file = text_of (get "journal_path" bound)

      -- Over a storage whose writes and deletes leave the other paths alone, for a transaction
      -- whose items name their targets by texts: the state is captured in `s`, and the journal is
      -- prepared, sealed with the expected digests and persisted without an error. Then the
      -- transaction runs, with whatever outcome, and then the recovery of the same journal, marked
      -- as started, returns a journal. Between the steps only the file of the journal may change.
      -- If rows with one snapshot path have one path, no snapshot path is that of the journal, and
      -- the rows cover what the transaction can write, then every path outside the recovery folder
      -- and other than the journal's is at the end as it was in `s`.
      pub publish_recovers :
          plan_items transaction ≡ ok items
          → HasTargets items
          → Arms transaction readiness_raw authorization_raw transaction_raw owner run_root
              record_paths s before prepared bound j
          → Agree (rows_of bound)
          → All (λ row. HasSnapshot row → journal_file ≢ snapshot_of row) (rows_of bound)
          → ApartFrom journal_file (persist_and_verify_recovery S codec before bound s).1 s1
          → Covers S framed sha256 B (started state j) transaction record_paths s1
          → ApartFrom journal_file
              (execute_canonical_transaction S sha256 B transaction record_paths s1).1
              s2
          → (execute_recovery S sha256 (started state j) true s2).0 ≡ ok (some r, [])
          → (q : String) → starts_with q recovery_prefix ≡ false
          → journal_file ≢ q
          → S.read (execute_recovery S sha256 (started state j) true s2).1 q ≡ S.read s q
      publish_recovers planned targets (captured, built, bound_ok, persisted) agree apart first
            covers second done q out ne =
          let (es, is, listed, faithful) =
            build_prepared_journal-Prepared S sha256 utf8 transaction readiness_raw
              authorization_raw transaction_raw owner run_root items s before prepared planned
              targets captured built in
          let (targets', indexes, predicts, (es', is', listed', pairs)) =
            bind_expected_post_hashes-Listed S sha256 B prepared transaction bound record_paths s es
              is listed bound_ok in
          let faithful' : All (Faithful S before s) (rows_of bound) =
            Pairs-Faithful S sha256 B (predict indexes targets') before s (rows_of prepared)
              (rows_of bound) pairs faithful in
          let (marked, held, records) =
            persist-Armed S codec sha256 framed before bound j es' is' s s listed' faithful' agree
              apart persisted in
          let rows : rows_of (started state j) ≡ rows_of bound =
            rows_of-started state j
              (rw marked (set_key-is_dict "snapshots_verified" (bool true) bound listed'.0))
            ∙ ap rows_of marked
            ∙ rows_of-verified S codec bound (bool true) listed'.0 in
          let valid =
            (validate-Good _
              (execute_recovery-valid S framed sha256 (started state j) r true s2 done)).1 in
          execute_recovery-back S framed sha256 (started state j) r true s s2 q
            (subst
              (λ (xs : List Row).
                All (λ row. Records S framed sha256 (existed_before row) s s2 row) xs)
              (sym rows)
              (All-later-Records journal_file (rows_of bound) s _ s2
                (λ p inside other.
                  second p other
                  ∙ execute_canonical_transaction-outside S framed sha256 B transaction record_paths
                      s1 p (recovery-out p inside)
                  ∙ first p other)
                (subst (λ (xs : List Row). All IsRow xs) rows valid)
                (Faithful-NotJournal journal_file before s (rows_of bound) faithful' apart)
                (subst
                  (λ (xs : List Row).
                    All
                      (λ row.
                        Records S framed sha256 (existed_before row) s
                          (persist_and_verify_recovery S codec before bound s).1 row)
                      xs)
                  (ap rows_of marked ∙ rows_of-verified S codec bound (bool true) listed'.0)
                  records)))
            (λ fresh.
              second q ne
              ∙ execute_canonical_transaction-frame S sha256 B framed q transaction record_paths s1
                  (covers q fresh).0 (covers q fresh).1
              ∙ first q ne
              ∙ (prewrite_keeps_outside S framed q out codec before bound s).0)
            done
