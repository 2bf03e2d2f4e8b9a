-- ===== src/Prewrite/Arm/Persisted.antt =====
-- `persist_and_verify_recovery` of src/candidate_transaction_prewrite_arm.py for any journal whose
-- rows are faithful to the captured state.
use technology_library_inges.Base.{
  Bool, String, str_eq, ◌≡◌, refl, sym, ap, ◌∙◌, subst, ◌≢◌, true, false, List, [], ◌∷◌, ◌++◌, All,
  sorted_set-eq-nil, Result, ok, raised, ok-injective, Bool-cases, inl, inr,
}
use technology_library_inges.Json.{
  Value, bool, get, is_dict, text_of, set_key, get-set, index, index-get,
}
use technology_library_inges.Storage.{Bytes, Storage, Sha256, IsFramed}
use technology_library_inges.Coordinator.Drive.{Codec}
use technology_library_inges.Recovery.Journal.{Row, keyed, rows_of, snapshot_of, existed_before}
use technology_library_inges.Recovery.Execute.Contract.{Records}
use technology_library_inges.Transaction.Engine.{items_at}
use technology_library_inges.Prewrite.Capture.{Captured}
use technology_library_inges.Prewrite.Arm.{
  private_write_bytes, stored_is, after_json, write_journal, persist_journal_at, after_snapshots,
  persist_snapshots, persist_and_verify_recovery,
}
use technology_library_inges.Prewrite.Arm.Snapshots.{
  HasSnapshot, Saved, Agree, persist_snapshots-Saved, private_write_bytes-read,
}
use technology_library_inges.Prewrite.Arm.Verified.{Faithful, All-Records}

-- The rows of a journal stand in its two lists.
abbrev pub Listed : Value → List Value → List Value → Type 0
Listed journal items indexes =
    (is_dict journal ≡ true)
    × (items_at "items" journal ≡ ok items)
    × (items_at "indexes" journal ≡ ok indexes)
    × (rows_of journal ≡ keyed "target_path" items ++ keyed "path" indexes)

All-own :
    {path path' : String}
    → path ≡ path'
    → (rows : List Row) → All (λ row. HasSnapshot row → path ≢ snapshot_of row) rows
    → All (λ row. HasSnapshot row → path' ≢ snapshot_of row) rows
All-own e rows apart =
    subst (λ (x : String). All (λ row. HasSnapshot row → x ≢ snapshot_of row) rows) e apart

module _ (S : Storage) (codec : Codec) where
  -- The file holds a document that is equal to `payload`.
  abbrev pub Holds : S.State → String → Value → Type 0
  Holds s path payload = stored_is S codec (S.read s path) payload ≡ true

  after_json_done :
      (write_code verify_code : String) (journal payload j : Value) (path : String)
      (r : Bool × S.State)
      → (after_json S codec write_code verify_code journal payload path r).0 ≡ ok (j, [])
      → (j ≡ payload)
        × Holds r.1 path payload
        × ((after_json S codec write_code verify_code journal payload path r).1 ≡ r.1)
  unfolding after_json
  after_json_done write_code verify_code journal payload j path (false, s) h =
      cc (ap (λ (x : Value × List String). x.1) (ok-injective h))
  after_json_done write_code verify_code journal payload j path (true, s) h =
      elim (Bool-cases (stored_is S codec (S.read s path) payload)) [
        | inl same ↦ (
          sym (ap (λ (x : Value × List String). x.0) (ok-injective (rw same at h))),
          same,
          rw same refl,
        )
        | inr differ ↦ cc (ap (λ (x : Value × List String). x.1) (ok-injective (rw differ at h)))
      ]

  -- What a persisted journal is, in terms of the run over its snapshots, which left `s`.
  abbrev Ends : Value → Value → S.State → S.State → Type 0
  Ends journal j s s' =
      (path : Value) × (j ≡ set_key "snapshots_verified" (bool true) journal)
      × (index "journal_path" j ≡ ok path)
      × Holds s' (text_of path) j
      × (s' ≡ (private_write_bytes S (text_of path) (codec.encode j) s).1)

  persist_journal_at_done :
      (journal prepared j : Value) (path : Result Value) (s : S.State)
      → (persist_journal_at S codec journal prepared path s).0 ≡ ok (j, [])
      → prepared ≡ set_key "snapshots_verified" (bool true) journal
      → index "journal_path" prepared ≡ path
      → Ends journal j s (persist_journal_at S codec journal prepared path s).1
  unfolding persist_journal_at write_journal
  persist_journal_at_done journal prepared j (raised x) s h e i = cc
  persist_journal_at_done journal prepared j (ok path) s h e i =
      let (is, held, left) =
        after_json_done "journal_write_failed" "journal_verify_failed" journal prepared j
          (text_of path) (private_write_bytes S (text_of path) (codec.encode prepared) s) h in
      rw left (path, is ∙ e, rw is i, rw is held, rw is refl)

  after_snapshots_done :
      (journal j : Value) (a : Result (List String) × S.State)
      → (after_snapshots S codec journal a).0 ≡ ok (j, [])
      → (a.0 ≡ ok []) × Ends journal j a.1 (after_snapshots S codec journal a).1
  unfolding after_snapshots
  after_snapshots_done journal j (raised x, s) h = cc
  after_snapshots_done journal j (ok (code ∷ codes), s) h =
      cc (sorted_set-eq-nil (code ∷ codes) (ap (λ (x : Value × List String). x.1) (ok-injective h)))
  after_snapshots_done journal j (ok [], s) h =
      (refl, persist_journal_at_done journal _ j _ s h refl refl)

  pub persist_and_verify_recovery_lem :
      (before : Captured) (journal : Value) (s : S.State)
      → persist_and_verify_recovery S codec before journal s
        ≡ after_snapshots S codec journal (persist_snapshots S before journal s)
  unfolding persist_and_verify_recovery
  persist_and_verify_recovery_lem before journal s = refl

  pub rows_of-verified :
      (journal : Value) (v : Value)
      → is_dict journal ≡ true
      → rows_of (set_key "snapshots_verified" v journal) ≡ rows_of journal
  unfolding rows_of str_eq
  rows_of-verified journal v d =
      rw
        (
          get-set "snapshots_verified" "items" v journal d,
          get-set "snapshots_verified" "indexes" v journal d,
        )
        refl

  path-verified :
      (journal : Value) (v : Value)
      → is_dict journal ≡ true
      → get "journal_path" (set_key "snapshots_verified" v journal) ≡ get "journal_path" journal
  unfolding str_eq
  path-verified journal v d = get-set "snapshots_verified" "journal_path" v journal d

  module _ (sha256 : Sha256) (framed : IsFramed S) where
    -- The journal write after the snapshots keeps them, since it has a path of its own.
    Saved-after :
        (before : Captured) (path : String) (raw : Bytes) (rows : List Row) (s : S.State)
        → All (λ row. HasSnapshot row → path ≢ snapshot_of row) rows
        → All (Saved S framed before s) rows
        → All (Saved S framed before (private_write_bytes S path raw s).1) rows
    Saved-after before path raw [] s apart saved = tt
    Saved-after before path raw (row ∷ rows) s (one, apart) (first, saved) = (
      λ has.
          let (b, found, there) = first has in
          (b, found, private_write_bytes-read S framed _ path raw s (one has) ∙ there),
      Saved-after before path raw rows s apart saved,
    )

    -- The journal is marked and stands at its own path, and its rows record the storage `s` as
    -- `s'` shows it.
    abbrev pub Armed : Value → Value → S.State → S.State → Type 0
    Armed journal j s s' =
        (j ≡ set_key "snapshots_verified" (bool true) journal)
        × Holds s' (text_of (get "journal_path" j)) j
        × All (λ row. Records S framed sha256 (existed_before row) s s' row) (rows_of j)

    -- The journal `g` is persisted in `s1`, its rows are faithful to `s0`.
    pub persist-Armed :
        (before : Captured) (journal j : Value) (items indexes : List Value) (s0 s : S.State)
        → Listed journal items indexes
        → All (Faithful S before s0) (rows_of journal)
        → Agree (rows_of journal)
        → All
            (λ row. HasSnapshot row → text_of (get "journal_path" journal) ≢ snapshot_of row)
            (rows_of journal)
        → (persist_and_verify_recovery S codec before journal s).0 ≡ ok (j, [])
        → Armed journal j s0 (persist_and_verify_recovery S codec before journal s).1
    persist-Armed before journal j items indexes s0 s (d, its_items, its_indexes, its_rows) faithful
          agree apart h =
        let run = persist_snapshots S before journal s in
        let (none_failed, (path, marked, at_path, held, left)) =
          after_snapshots_done journal j run
            (rw (persist_and_verify_recovery_lem before journal s) at h) in
        let path_is : get "journal_path" j ≡ path = index-get "journal_path" j path at_path in
        let own : text_of (get "journal_path" journal) ≡ text_of path = ap text_of (
          sym (path-verified journal (bool true) d)
          ∙ sym (ap (get "journal_path") marked)
          ∙ path_is) in
        let saved =
          persist_snapshots-Saved S framed before journal items indexes s its_items its_indexes
            (rw its_rows at agree) none_failed in
        let saved' : All (Saved S framed before run.1) (rows_of journal) = rw its_rows saved in
        rw (persist_and_verify_recovery_lem before journal s) (
          marked,
          rw path_is held,
          rw (marked, rows_of-verified journal (bool true) d)
              (All-Records S framed sha256 before s0 _ (rows_of journal) faithful (
                rw left (
                  Saved-after before (text_of path) (codec.encode j) (rows_of journal) run.1
                    (All-own own (rows_of journal) apart) saved'))),
        )
