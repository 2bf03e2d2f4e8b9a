-- ===== src/Prewrite/Arm/Armed.antt =====
-- `persist_and_verify_recovery` of src/candidate_transaction_prewrite_arm.py as a whole: the journal
-- that it persists arms the recovery of the transaction.
use technology_library_inges.Base.{
  String, str_eq, ◌≡◌, refl, sym, ap, ◌∙◌, ◌≢◌, true, Option, List, [], ◌++◌, All, All-append, ok,
  ok-injective,
}
use technology_library_inges.Json.{
  Value, get, is_dict, text_of, index, find_field, items_list-list_items,
}
use technology_library_inges.Storage.{Bytes, Storage, Sha256, IsFramed}
use technology_library_inges.Coordinator.Drive.{Codec}
use technology_library_inges.Recovery.Journal.{keyed, rows_of, snapshot_of}
use technology_library_inges.Transaction.Engine.{items_at, plan_items}
use technology_library_inges.Prewrite.Capture.{
  Captured, capture, capture_canonical_state, affected_paths,
}
use technology_library_inges.Prewrite.Capture.Complete.{recall-index, recall-target}
use technology_library_inges.Prewrite.Arm.{
  persist_and_verify_recovery, prepared_journal, item_rows, index_rows, build_prepared_journal,
}
use technology_library_inges.Prewrite.Arm.Snapshots.{HasSnapshot, Agree}
use technology_library_inges.Prewrite.Arm.Verified.{
  HasTargets, Faithful, item_rows-Faithful, index_rows-Faithful,
}
use technology_library_inges.Prewrite.Arm.Persisted.{Listed, Armed, persist-Armed}

module _ (S : Storage) (sha256 : Sha256) (utf8 : String → Bytes) where
  capture_canonical_state_lem :
      (reader : String → Option Bytes) (transaction : Value) (items : List Value)
      → plan_items transaction ≡ ok items
      → capture_canonical_state reader transaction ≡ ok (capture reader items)
  unfolding capture_canonical_state
  capture_canonical_state_lem reader transaction items planned = rw planned refl

  -- The journal of one run, from the items of its transaction and the storage `s`.
  abbrev pub journal_of :
      Value → Bytes → Bytes → Bytes → String → String → List Value → S.State → Value
  journal_of transaction readiness_raw authorization_raw transaction_raw owner run_root items s =
      prepared_journal sha256 utf8 transaction readiness_raw authorization_raw transaction_raw owner
        run_root (capture (S.read s) items) items

  module _ (transaction : Value) (readiness_raw authorization_raw transaction_raw : Bytes)
      (owner run_root : String) (items : List Value) (s : S.State) where
    abbrev journal : Value
    journal =
        journal_of transaction readiness_raw authorization_raw transaction_raw owner run_root items
          s

    journal_rows :
        rows_of journal
        ≡ keyed "target_path" (item_rows sha256 utf8 run_root (capture (S.read s) items) items)
          ++ keyed "path"
              (index_rows sha256 utf8 run_root (capture (S.read s) items) (affected_paths items))
    unfolding rows_of prepared_journal get find_field str_eq
    journal_rows =
        rw
          (
            items_list-list_items (item_rows sha256 utf8 run_root (capture (S.read s) items) items),
            items_list-list_items
                (index_rows sha256 utf8 run_root (capture (S.read s) items) (affected_paths items)),
          )
          refl

    journal_items :
        items_at "items" journal
        ≡ ok (item_rows sha256 utf8 run_root (capture (S.read s) items) items)
    unfolding items_at prepared_journal index find_field str_eq
    journal_items = ap ok (items_list-list_items _)

    journal_indexes :
        items_at "indexes" journal
        ≡ ok (index_rows sha256 utf8 run_root (capture (S.read s) items) (affected_paths items))
    unfolding items_at prepared_journal index find_field str_eq
    journal_indexes = ap ok (items_list-list_items _)

    journal-is_dict : is_dict journal ≡ true
    unfolding prepared_journal
    journal-is_dict = refl

    pub build_prepared_journal_lem :
        plan_items transaction ≡ ok items
        → build_prepared_journal sha256 utf8 transaction readiness_raw authorization_raw
            transaction_raw owner run_root
            (capture (S.read s) items)
          ≡ ok journal
    unfolding build_prepared_journal
    build_prepared_journal_lem planned = rw planned refl

    -- A prepared journal is faithful to the storage that was captured.
    abbrev pub Prepared : Captured → Value → Type 0
    Prepared before journal =
        (es : List Value) × (is : List Value) × Listed journal es is
        × All (Faithful S before s) (rows_of journal)

    journal-Prepared : HasTargets items → Prepared (capture (S.read s) items) journal
    journal-Prepared targets =
        let before = capture (S.read s) items in
        (
          _,
          _,
          (journal-is_dict, journal_items, journal_indexes, journal_rows),
          rw journal_rows (
              All-append (Faithful S before s) _ _
                (item_rows-Faithful sha256 utf8 run_root before S s items targets
                  (λ p h. recall-target (S.read s) items p h))
                (index_rows-Faithful sha256 utf8 run_root before S s (affected_paths items)
                  (λ p h. recall-index (S.read s) items p h))),
        )

    pub build_prepared_journal-Prepared :
        (before : Captured) (prepared : Value)
        → plan_items transaction ≡ ok items
        → HasTargets items
        → capture_canonical_state (S.read s) transaction ≡ ok before
        → build_prepared_journal sha256 utf8 transaction readiness_raw authorization_raw
            transaction_raw owner run_root before
          ≡ ok prepared
        → Prepared before prepared
    build_prepared_journal-Prepared before prepared planned targets captured built =
        let before_is : capture (S.read s) items ≡ before =
          ok-injective
            (sym (capture_canonical_state_lem (S.read s) transaction items planned) ∙ captured) in
        let journal_is : journal ≡ prepared =
          ok-injective (sym (build_prepared_journal_lem planned) ∙ rw before_is built) in
        rw (← before_is) (rw (← journal_is) (journal-Prepared targets))

    module _ (codec : Codec) (framed : IsFramed S) where
      -- Over a storage whose writes leave the other paths alone, for a transaction whose items
      -- name their targets by texts: the state is captured, the prepared journal is built from
      -- it and persisted at once. If rows with one snapshot path have one path, and no snapshot
      -- path is that of the journal, then a run that reports no error returns the journal marked
      -- `snapshots_verified`, which stands at its path as a document equal to it, and every row
      -- of which records the storage: the snapshot of a path that existed holds its bytes, and a
      -- path without a snapshot was absent.
      pub persist_and_verify_recovery-Armed :
          (before : Captured) (prepared j : Value)
          → plan_items transaction ≡ ok items
          → HasTargets items
          → capture_canonical_state (S.read s) transaction ≡ ok before
          → build_prepared_journal sha256 utf8 transaction readiness_raw authorization_raw
              transaction_raw owner run_root before
            ≡ ok prepared
          → Agree (rows_of prepared)
          → All
              (λ row. HasSnapshot row → text_of (get "journal_path" prepared) ≢ snapshot_of row)
              (rows_of prepared)
          → (persist_and_verify_recovery S codec before prepared s).0 ≡ ok (j, [])
          → Armed S codec sha256 framed prepared j s
              (persist_and_verify_recovery S codec before prepared s).1
      persist_and_verify_recovery-Armed before prepared j planned targets captured built agree apart
            h =
          let (es, is, listed, faithful) =
            build_prepared_journal-Prepared before prepared planned targets captured built in
          persist-Armed S codec sha256 framed before prepared j es is s s listed faithful agree
            apart h
