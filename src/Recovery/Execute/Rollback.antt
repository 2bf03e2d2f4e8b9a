-- ===== src/Recovery/Execute/Rollback.antt =====
-- What a rollback leaves: every path of the journal as it was before the transaction, and every
-- other path as the rollback found it.
use technology_library_inges.Base.{
  ℕ, suc, ◌+◌, String, ◌≡◌, refl, sym, ◌∙◌, subst, ◌≢◌, Bool, true, false, Option, none, some, List,
  [], ◌∷◌, All, length, starts_with, library-ne-inbox, str_eq_refl, Bool-cases, inl, inr, arith,
}
use technology_library_inges.Json.{Value, eq_str}
use technology_library_inges.Storage.{Bytes, Storage, Sha256, IsFramed, holds→eq}
use technology_library_inges.Recovery.Journal.{
  Row, row_path, existed_before, snapshot_of, before_sha, snapshot_root,
}
use technology_library_inges.Recovery.Journal.Rows.{
  IsRow, DistinctAfter, Fresh, DistinctAfter-Fresh,
}
use technology_library_inges.Recovery.Execute.{
  Counts, Step, put_back, restore, absent, remove, roll_back_row, after_row, roll_back,
}

module _ (S : Storage) (sha256 : Sha256) where
  -- A path of the journal is as it was before: the snapshot's bytes, with the recorded digest, or
  -- nothing.
  abbrev pub Before : Bool → S.State → S.State → Row → Type 0
  Before true s s' row =
      (b : Bytes) × (S.read s (snapshot_of row) ≡ some b)
      × (eq_str (before_sha row) (sha256 b) ≡ true)
      × (S.read s' (row_path row) ≡ some b)
  Before false s s' row = S.read s' (row_path row) ≡ none

  abbrev pub RolledBack : S.State → S.State → Row → Type 0
  RolledBack s s' row = Before (existed_before row) s s' row

  -- The counters after one more path.
  abbrev Restored : Counts → Counts → Type 0
  Restored c c' =
      (c'.restored ≡ suc c.restored) × (c'.removed ≡ c.removed) × (c'.verified ≡ suc c.verified)

  put_back_done :
      (path : String) (b : Bytes) (c : Counts) (s : S.State)
      → (put_back S sha256 path b c s).0 ≡ none
      → let r = put_back S sha256 path b c s in (S.read r.2 path ≡ some b) × Restored c r.1
  unfolding put_back
  put_back_done path b c s h = ground (arith, holds→eq (S.read (S.write s path b).1 path) b)

  restore_done :
      (path : String) (before : Value) (c : Counts) (s : S.State) (o : Option Bytes)
      → (restore S sha256 path before c s o).0 ≡ none
      → let r = restore S sha256 path before c s o in
        (b : Bytes) × (o ≡ some b)
        × (eq_str before (sha256 b) ≡ true)
        × ((S.read r.2 path ≡ some b) × Restored c r.1)
  unfolding restore
  restore_done path before c s none h = cc
  restore_done path before c s (some b) h = elim (Bool-cases (eq_str before (sha256 b))) [
    | inl same ↦ (b, refl, same, rw same (put_back_done path b c s (rw same at h)))
    | inr differ ↦ ground arith
  ]

  absent→none : (o : Option Bytes) → absent S sha256 o ≡ true → o ≡ none
  absent→none none h = refl
  absent→none (some b) h = cc

  remove_done :
      (path : String) (c : Counts) (s : S.State)
      → (remove S sha256 path c s).0 ≡ none
      → let r = remove S sha256 path c s in
        (S.read r.2 path ≡ none)
        × (r.1.restored ≡ c.restored)
        × (r.1.removed ≡ suc c.removed)
        × (r.1.verified ≡ suc c.verified)
  unfolding remove
  remove_done path c s h = ground (arith, absent→none (S.read (S.delete s path).1 path))

  -- The totals that the report gives: each path restored or removed, and verified.
  abbrev pub Counted : ℕ → Counts → Counts → Type 0
  Counted n c c' =
      (c'.restored + c'.removed ≡ c.restored + c.removed + n) × (c'.verified ≡ c.verified + n)

  roll_back_row_done :
      (row : Row) (c : Counts) (s : S.State)
      → (roll_back_row S sha256 row c s).0 ≡ none
      → let r = roll_back_row S sha256 row c s in RolledBack s r.2 row × Counted 1 c r.1
  unfolding roll_back_row
  roll_back_row_done row c s h = elim (Bool-cases (existed_before row)) [
    | inl old ↦
        let (b, e, same, there) =
          restore_done (row_path row) (before_sha row) c s (S.read s (snapshot_of row))
            (rw old at h) in
        rw old ((b, e, same, there.0), (omega arith, omega arith))
    | inr created ↦
        let (gone, kept, more, seen) = remove_done (row_path row) c s (rw created at h) in
        rw created (gone, (omega arith, omega arith))
  ]

  after_row_done :
      (rest : Counts → S.State → Step S sha256) (step : Step S sha256)
      → (after_row S sha256 rest step).0 ≡ none
      → (step.0 ≡ none) × (after_row S sha256 rest step ≡ rest step.1 step.2)
  unfolding after_row
  after_row_done rest (none, c, s) h = (refl, refl)
  after_row_done rest (some code, c, s) h = cc

module _ (S : Storage) (framed : IsFramed S) (sha256 : Sha256) where
  module _ (q : String) where
    restore-frame :
        (path : String) (before : Value) (c : Counts) (s : S.State) (o : Option Bytes)
        → path ≢ q
        → S.read (restore S sha256 path before c s o).2 q ≡ S.read s q
    unfolding restore put_back
    restore-frame path before c s none n = refl
    restore-frame path before c s (some b) n = ground (arith, framed.read-write s path q b n)

    roll_back_row-frame :
        (row : Row) (c : Counts) (s : S.State)
        → q ≢ row_path row
        → S.read (roll_back_row S sha256 row c s).2 q ≡ S.read s q
    unfolding roll_back_row remove
    roll_back_row-frame row c s n = elim (Bool-cases (existed_before row)) [
      | inl old ↦ rw old (restore-frame (row_path row) _ c s _ (λ e. n (sym e)))
      | inr created ↦
          rw created (ground (arith, framed.read-delete s (row_path row) q (λ e. n (sym e))))
    ]

    after_row-frame :
        (rest : Counts → S.State → Step S sha256) (step : Step S sha256)
        → ((c : Counts) (s : S.State) → S.read (rest c s).2 q ≡ S.read s q)
        → S.read (after_row S sha256 rest step).2 q ≡ S.read step.2 q
    unfolding after_row
    after_row-frame rest (none, c, s) keeps = keeps c s
    after_row-frame rest (some code, c, s) keeps = refl

    -- A path that the journal does not name is left alone, whatever the outcome.
    pub roll_back-frame :
        (rows : List Row) (c : Counts) (s : S.State)
        → Fresh q rows
        → S.read (roll_back S sha256 rows c s).2 q ≡ S.read s q
    unfolding roll_back
    roll_back-frame [] c s f = refl
    roll_back-frame (row ∷ rows) c s (n, f) =
        after_row-frame (roll_back S sha256 rows) (roll_back_row S sha256 row c s)
          (λ c' s'. roll_back-frame rows c' s' f)
        ∙ roll_back_row-frame row c s n

  -- The snapshots of `s` still stand in `s'`.
  abbrev pub Kept : S.State → S.State → Type 0
  Kept s s' = (q : String) → starts_with q snapshot_root ≡ true → S.read s' q ≡ S.read s q

  pub roll_back_row-Kept :
      (row : Row) (c : Counts) (s s' : S.State)
      → IsRow row
      → Kept s s'
      → Kept s (roll_back_row S sha256 row c s').2
  roll_back_row-Kept row c s s' w k = λ q in_root.
      roll_back_row-frame q row c s' (λ e.
        library-ne-inbox q
          (subst (λ (t : String). starts_with t "00_LIBRARY/" ≡ true) (sym e) w.in_library) in_root)
      ∙ k q in_root

  Before-back :
      (old : Bool) (row : Row) (s s' t : S.State)
      → (old ≡ true → S.read s' (snapshot_of row) ≡ S.read s (snapshot_of row))
      → Before S sha256 old s' t row
      → Before S sha256 old s t row
  Before-back true row s s' t same (b, e, digest, there) = (b, sym (same refl) ∙ e, digest, there)
  Before-back false row s s' t same gone = gone

  Before-later :
      (old : Bool) (row : Row) (s t t' : S.State)
      → S.read t' (row_path row) ≡ S.read t (row_path row)
      → Before S sha256 old s t row
      → Before S sha256 old s t' row
  Before-later true row s t t' same (b, e, digest, there) = (b, e, digest, same ∙ there)
  Before-later false row s t t' same gone = same ∙ gone

  -- A rollback that reports no failure has rolled back every row.
  pub roll_back-RolledBack :
      (seen : List String) (rows : List Row) (c : Counts) (s s' : S.State)
      → All IsRow rows
      → DistinctAfter seen rows
      → Kept s s'
      → (roll_back S sha256 rows c s').0 ≡ none
      → All (RolledBack S sha256 s (roll_back S sha256 rows c s').2) rows
        × Counted S sha256 (length rows) c (roll_back S sha256 rows c s').1
  unfolding roll_back
  roll_back-RolledBack seen [] c s s' w d k h = (tt, (omega arith, omega arith))
  roll_back-RolledBack seen (row ∷ rows) c s s' (w, ws) (new, d) k h =
      let step = roll_back_row S sha256 row c s' in
      let (done, eq) = after_row_done S sha256 (roll_back S sha256 rows) step h in
      let (here, counted) = roll_back_row_done S sha256 row c s' done in
      let (later, counted') =
        roll_back-RolledBack (row_path row ∷ seen) rows step.1 s step.2 ws d
          (roll_back_row-Kept row c s s' w k) (rw eq at h) in
      let fresh =
        DistinctAfter-Fresh (row_path row) (row_path row ∷ seen) rows
          (ground (arith, str_eq_refl (row_path row))) d in
      subst
        (λ (t : Step S sha256).
          All (RolledBack S sha256 s t.2) (row ∷ rows) × Counted S sha256 (suc (length rows)) c t.1)
        (sym eq)
        (
          (
            Before-later (existed_before row) row s step.2 _
                (roll_back-frame (row_path row) rows step.1 step.2 fresh)
                (Before-back (existed_before row) row s s' step.2
                  (λ old. k (snapshot_of row) (w.snapshot_in_root old)) here),
            later,
          ),
          (omega arith, omega arith),
        )
