-- ===== src/Prewrite/Arm/Snapshots.antt =====
-- What a persisted journal of src/candidate_transaction_prewrite_arm.py guarantees of its snapshots.
use technology_library_inges.Base.{
  Bool, String, ◌≡◌, refl, ap, ◌∙◌, ◌≢◌, true, false, Option, none, some, List, [], ◌∷◌, ◌++◌, All,
  str_eq, str_eq→eq, str_eq-false, append-eq-nil, All-append, All-left, All-right, ok, ok-injective,
  Bool-cases, inl, inr, arith,
}
use technology_library_inges.Json.{Value, null, get, is_dict, is_null, text_of}
use technology_library_inges.Storage.{Bytes, Storage, IsFramed, holds→eq}
use technology_library_inges.Recovery.Journal.{Row, keyed, row_path, snapshot_of}
use technology_library_inges.Transaction.Engine.{items_at}
use technology_library_inges.Prewrite.Capture.{Captured, recall}
use technology_library_inges.Prewrite.Arm.{
  private_write_bytes, verify_snapshot, write_snapshot, persist_row, persist_entry, persist_entries,
  persist_group, persist_indexes, persist_snapshots,
}

-- A row has a snapshot, of its path.
abbrev pub HasSnapshot : Row → Type 0
HasSnapshot (key, entry) = is_null (get "snapshot_path" entry) ≡ false

-- Rows with one snapshot have one path.
abbrev pub Shares : Row → Row → Type 0
Shares row row' =
    HasSnapshot row
    → HasSnapshot row'
    → snapshot_of row ≡ snapshot_of row'
    → row_path row ≡ row_path row'

-- Every two rows agree, in one order.
abbrev pub Agree : List Row → Type 0
Agree [] = Unit
Agree (row ∷ rows) = All (λ r. Shares r row) rows × Agree rows

module _ (S : Storage) (framed : IsFramed S) where
  -- The snapshot of a row holds the captured bytes of its path.
  abbrev pub Saved : Captured → S.State → Row → Type 0
  Saved before s row =
      HasSnapshot row
      → (b : Bytes) × (recall before (row_path row) ≡ some b)
        × (S.read s (snapshot_of row) ≡ some b)

  pub private_write_bytes-read :
      (q path : String) (raw : Bytes) (s : S.State)
      → path ≢ q
      → S.read (private_write_bytes S path raw s).1 q ≡ S.read s q
  unfolding private_write_bytes
  private_write_bytes-read q path raw s ne = ground (arith, framed.read-write s path q raw ne)

  pub verify_snapshot-state :
      (source snapshot : String) (raw : Bytes) (r : Bool × S.State)
      → (verify_snapshot S source snapshot raw r).1 ≡ r.1
  unfolding verify_snapshot
  verify_snapshot-state source snapshot raw (false, s) = refl
  verify_snapshot-state source snapshot raw (true, s) = ground arith

  verify_snapshot-holds :
      (source snapshot : String) (raw : Bytes) (r : Bool × S.State)
      → (verify_snapshot S source snapshot raw r).0 ≡ []
      → S.read (verify_snapshot S source snapshot raw r).1 snapshot ≡ some raw
  unfolding verify_snapshot
  verify_snapshot-holds source snapshot raw (false, s) h = cc
  verify_snapshot-holds source snapshot raw (true, s) h =
      ground (arith, holds→eq (S.read s snapshot) raw)

  write_snapshot-frame :
      (q source snapshot : String) (o : Option Bytes) (s : S.State)
      → snapshot ≢ q
      → S.read (write_snapshot S source snapshot o s).1 q ≡ S.read s q
  unfolding write_snapshot
  write_snapshot-frame q source snapshot none s ne = refl
  write_snapshot-frame q source snapshot (some raw) s ne =
      ap (λ (t : S.State). S.read t q)
        (verify_snapshot-state source snapshot raw (private_write_bytes S snapshot raw s))
      ∙ private_write_bytes-read q snapshot raw s ne

  write_snapshot-holds :
      (source snapshot : String) (o : Option Bytes) (s : S.State)
      → (write_snapshot S source snapshot o s).0 ≡ []
      → (b : Bytes) × (o ≡ some b)
        × (S.read (write_snapshot S source snapshot o s).1 snapshot ≡ some b)
  unfolding write_snapshot
  write_snapshot-holds source snapshot none s h = cc
  write_snapshot-holds source snapshot (some raw) s h = (
    raw,
    refl,
    verify_snapshot-holds source snapshot raw (private_write_bytes S snapshot raw s) h,
  )

  -- One row whose snapshot path is `v`.
  persist_row-frame :
      (before : Captured) (q source : String) (v : Value) (s : S.State)
      → (is_null v ≡ false → text_of v ≢ q)
      → S.read (persist_row S before source v s).1 q ≡ S.read s q
  unfolding persist_row
  persist_row-frame before q source null s ne = refl
  persist_row-frame before q source v s ne =
      write_snapshot-frame q source (text_of v) (recall before source) s (ne refl)

  persist_row-holds :
      (before : Captured) (source : String) (v : Value) (s : S.State)
      → (persist_row S before source v s).0 ≡ []
      → is_null v ≡ false
      → (b : Bytes) × (recall before source ≡ some b)
        × (S.read (persist_row S before source v s).1 (text_of v) ≡ some b)
  unfolding persist_row
  persist_row-holds before source null s h e = cc
  persist_row-holds before source v s h e =
      write_snapshot-holds source (text_of v) (recall before source) s h

  persist_entry-frame :
      (before : Captured) (key q : String) (entry : Value) (s : S.State)
      → (HasSnapshot (key, entry) → snapshot_of (key, entry) ≢ q)
      → S.read (persist_entry S before key entry s).1 q ≡ S.read s q
  unfolding persist_entry snapshot_of
  persist_entry-frame before key q entry s ne = elim (Bool-cases (is_dict entry)) [
    | inl d ↦ rw d (persist_row-frame before q _ (get "snapshot_path" entry) s ne)
    | inr d ↦ rw d refl
  ]

  persist_entry-Saved :
      (before : Captured) (key : String) (entry : Value) (s : S.State)
      → (persist_entry S before key entry s).0 ≡ []
      → Saved before (persist_entry S before key entry s).1 (key, entry)
  unfolding persist_entry snapshot_of row_path
  persist_entry-Saved before key entry s h snap = elim (Bool-cases (is_dict entry)) [
    | inl d ↦ rw d (persist_row-holds before _ (get "snapshot_path" entry) s (rw d at h) snap)
    | inr d ↦ cc (rw d at h)
  ]

  -- The write of one row keeps the snapshots of the rows before it.
  persist_entry-Keeps :
      (before : Captured) (row : Row) (key : String) (entry : Value) (s : S.State)
      → Shares (key, entry) row
      → (persist_entry S before key entry s).0 ≡ []
      → Saved before s row
      → Saved before (persist_entry S before key entry s).1 row
  persist_entry-Keeps before row key entry s shares h saved snap =
      elim (Bool-cases (is_null (get "snapshot_path" entry))) [
        | inl absent ↦
            let (b, found, there) = saved snap in
            (b, found, persist_entry-frame before key _ entry s (λ e. cc) ∙ there)
        | inr present ↦ elim (Bool-cases (str_eq (snapshot_of (key, entry)) (snapshot_of row))) [
          | inl same ↦
              let one = str_eq→eq _ _ same in
              let (b, found, there) = persist_entry-Saved before key entry s h present in
              (b, rw (← shares present snap one) found, rw (← one) there)
          | inr differ ↦
              let (b, found, there) = saved snap in
              (
                b,
                found,
                persist_entry-frame before key _ entry s (λ e. str_eq-false _ _ differ) ∙ there,
              )
        ]
      ]

  persist_entries-Keeps :
      (before : Captured) (row : Row) (key : String) (entries : List Value) (s : S.State)
      → All (λ r. Shares r row) (keyed key entries)
      → (persist_entries S before key entries s).0 ≡ []
      → Saved before s row
      → Saved before (persist_entries S before key entries s).1 row
  unfolding persist_entries
  persist_entries-Keeps before row key [] s shares h saved = saved
  persist_entries-Keeps before row key (entry ∷ entries) s (one, shares) h saved =
      let (here, later) = append-eq-nil (persist_entry S before key entry s).0 _ h in
      persist_entries-Keeps before row key entries _ shares later
        (persist_entry-Keeps before row key entry s one here saved)

  persist_entries-Saved :
      (before : Captured) (key : String) (entries : List Value) (s : S.State)
      → Agree (keyed key entries)
      → (persist_entries S before key entries s).0 ≡ []
      → All (Saved before (persist_entries S before key entries s).1) (keyed key entries)
  unfolding persist_entries
  persist_entries-Saved before key [] s agree h = tt
  persist_entries-Saved before key (entry ∷ entries) s (one, agree) h =
      let (here, later) = append-eq-nil (persist_entry S before key entry s).0 _ h in
      (
        persist_entries-Keeps before (key, entry) key entries _ one later
            (persist_entry-Saved before key entry s here),
        persist_entries-Saved before key entries _ agree later,
      )

  Agree-append :
      (rows rows' : List Row)
      → Agree (rows ++ rows')
      → Agree rows × Agree rows' × All (λ row. All (λ r. Shares r row) rows') rows
  Agree-append [] rows' a = (tt, a, tt)
  Agree-append (row ∷ rows) rows' (one, a) =
      let (left, right, across) = Agree-append rows rows' a in
      (
        (All-left (λ r. Shares r row) rows rows' one, left),
        right,
        (All-right (λ r. Shares r row) rows rows' one, across),
      )

  both-Saved :
      (before : Captured) (rows : List Row) (key : String) (entries : List Value) (s : S.State)
      → All (λ row. All (λ r. Shares r row) (keyed key entries)) rows
      → (persist_entries S before key entries s).0 ≡ []
      → All (Saved before s) rows
      → All (Saved before (persist_entries S before key entries s).1) rows
  both-Saved before [] key entries s shares h saved = tt
  both-Saved before (row ∷ rows) key entries s (one, shares) h (first, saved) = (
    persist_entries-Keeps before row key entries s one h first,
    both-Saved before rows key entries s shares h saved,
  )

  -- Both groups of a journal: without errors, every snapshot holds what was captured.
  pub persist_snapshots-Saved :
      (before : Captured) (journal : Value) (items indexes : List Value) (s : S.State)
      → items_at "items" journal ≡ ok items
      → items_at "indexes" journal ≡ ok indexes
      → Agree (keyed "target_path" items ++ keyed "path" indexes)
      → (persist_snapshots S before journal s).0 ≡ ok []
      → All
          (Saved before (persist_snapshots S before journal s).1)
          (keyed "target_path" items ++ keyed "path" indexes)
  unfolding persist_snapshots persist_indexes persist_group
  persist_snapshots-Saved before journal items indexes s e e' agree h =
      let (left, right, across) = Agree-append (keyed "target_path" items) _ agree in
      let first = persist_entries S before "target_path" items s in
      let (none_first, none_second) =
        append-eq-nil first.0 _ (ok-injective (rw e' at (rw e at h))) in
      rw e (
        rw e' (
          All-append (Saved before _) (keyed "target_path" items) _
            (both-Saved before _ "path" indexes first.1 across none_second
              (persist_entries-Saved before "target_path" items s left none_first))
            (persist_entries-Saved before "path" indexes first.1 right none_second)))
