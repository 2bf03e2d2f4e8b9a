-- ===== src/Recovery/Execute/Completion.antt =====
-- A recovery whose preconditions hold completes, on a storage whose writes and deletes take effect.
use technology_library_inges.Base.{
  String, ◌≡◌, refl, ap, ◌∙◌, subst, ◌⊎◌, Bool, true, false, Option, none, some, List, [], ◌∷◌, All,
  ok, >>=-ok, Bool-cases, inl, inr, arith,
}
use technology_library_inges.Json.{Value, get, eq_str}
use technology_library_inges.Storage.{Bytes, Storage, Sha256, IsFramed, IsReliable, eq→holds}
use technology_library_inges.Recovery.Journal.{
  Row, rows_of, row_path, existed_before, snapshot_of, before_sha, master_path,
  validate_recovery_journal,
}
use technology_library_inges.Recovery.Journal.Rows.{IsRow, validate-Good}
use technology_library_inges.Recovery.Execute.{
  Counts, no_counts, Step, check_rows, verify_rollback_preconditions, put_back, restore, remove,
  roll_back_row, after_row, roll_back, recovered_journal, check_master, finish, start, recheck,
  checks, execute_recovery, execute_recovery_lem,
}
use technology_library_inges.Recovery.Execute.Preconditions.{
  Backed, check_rows-Backed, check_valid-none,
}
use technology_library_inges.Recovery.Execute.Rollback.{
  Before, RolledBack, Kept, roll_back_row-Kept, roll_back-RolledBack,
}

module _ (S : Storage) (framed : IsFramed S) (reliable : IsReliable S) (sha256 : Sha256) where
  remove_succeeds : (path : String) (c : Counts) (s : S.State) → (remove S sha256 path c s).0 ≡ none
  unfolding remove
  remove_succeeds path c s =
      ground (arith, reliable.delete_succeeds s path, reliable.read-delete_self s path)

  put_back_succeeds :
      (path : String) (b : Bytes) (c : Counts) (s : S.State)
      → (put_back S sha256 path b c s).0 ≡ none
  unfolding put_back
  put_back_succeeds path b c s = ground (
    arith,
    reliable.write_succeeds s path b,
    eq→holds (S.read (S.write s path b).1 path) b (reliable.read-write_self s path b),
  )

  restore_succeeds :
      (path : String) (before : Value) (c : Counts) (s : S.State) (b : Bytes)
      → eq_str before (sha256 b) ≡ true
      → (restore S sha256 path before c s (some b)).0 ≡ none
  unfolding restore
  restore_succeeds path before c s b same = rw same (put_back_succeeds path b c s)

  roll_back_row_succeeds :
      (row : Row) (c : Counts) (s : S.State)
      → Backed S sha256 (existed_before row) s row
      → (roll_back_row S sha256 row c s).0 ≡ none
  unfolding roll_back_row
  roll_back_row_succeeds row c s backed = elim (Bool-cases (existed_before row)) [
    | inl old ↦
        let (b, there, same) = subst (λ (x : Bool). Backed S sha256 x s row) old backed in
        rw (old, there) (restore_succeeds (row_path row) (before_sha row) c s b same)
    | inr created ↦ rw created (remove_succeeds (row_path row) c s)
  ]

  after_row-none :
      (rest : Counts → S.State → Step S sha256) (step : Step S sha256)
      → step.0 ≡ none
      → after_row S sha256 rest step ≡ rest step.1 step.2
  unfolding after_row
  after_row-none rest (none, c, s) h = refl
  after_row-none rest (some code, c, s) h = cc

  Backed-Kept :
      (old : Bool) (row : Row) (s s' : S.State)
      → (old ≡ true → S.read s' (snapshot_of row) ≡ S.read s (snapshot_of row))
      → Backed S sha256 old s row
      → Backed S sha256 old s' row
  Backed-Kept true row s s' same (b, there, digest) = (b, same refl ∙ there, digest)
  Backed-Kept false row s s' same backed = tt

  roll_back_succeeds :
      (rows : List Row) (c : Counts) (s s' : S.State)
      → All IsRow rows
      → All (λ row. Backed S sha256 (existed_before row) s row) rows
      → Kept S framed sha256 s s'
      → (roll_back S sha256 rows c s').0 ≡ none
  unfolding roll_back
  roll_back_succeeds [] c s s' w b k = refl
  roll_back_succeeds (row ∷ rows) c s s' (w, ws) (b, bs) k =
      let step = roll_back_row S sha256 row c s' in
      let backed =
        Backed-Kept (existed_before row) row s s'
          (λ old. k (snapshot_of row) (w.snapshot_in_root old)) b in
      ap (λ (t : Step S sha256). t.0)
        (after_row-none (roll_back S sha256 rows) step (roll_back_row_succeeds row c s' backed))
      ∙ roll_back_succeeds rows step.1 s step.2 ws bs
          (roll_back_row-Kept S framed sha256 row c s s' w k)

  -- A row of the journal is the master index: it existed before, with the digest that the journal
  -- names for it.
  abbrev pub NamesMaster : Value → List Row → Type 0
  NamesMaster journal [] = ⊥
  NamesMaster journal (row ∷ rows) =
      ((row_path row ≡ master_path)
        × (existed_before row ≡ true)
        × (before_sha row ≡ get "master_index_before_sha256" journal))
      ⊎ NamesMaster journal rows

  master_back :
      (journal : Value) (rows : List Row) (s s' : S.State)
      → NamesMaster journal rows
      → All (RolledBack S sha256 s s') rows
      → (b : Bytes) × (S.read s' master_path ≡ some b)
        × (eq_str (get "master_index_before_sha256" journal) (sha256 b) ≡ true)
  master_back journal [] s s' n r = absurd n
  master_back journal (row ∷ rows) s s' (inr n) (r, rs) = master_back journal rows s s' n rs
  master_back journal (row ∷ rows) s s' (inl (path, old, digest)) (r, rs) =
      let (b, snap, same, there) = subst (λ (x : Bool). Before S sha256 x s s' row) old r in
      (b, rw path at there, rw digest at same)

  check_master_succeeds :
      (journal : Value) (c : Counts) (o : Option Bytes) (b : Bytes)
      → o ≡ some b
      → eq_str (get "master_index_before_sha256" journal) (sha256 b) ≡ true
      → check_master S sha256 journal c o ≡ ok (some (recovered_journal S sha256 journal c), [])
  unfolding check_master
  check_master_succeeds journal c none b e same = cc
  check_master_succeeds journal c (some b') b e same = ground arith

  finish-none :
      (journal : Value) (step : Step S sha256)
      → step.0 ≡ none
      → (finish S sha256 journal step).0
        ≡ check_master S sha256 journal step.1 (S.read step.2 master_path)
  unfolding finish
  finish-none journal (none, c, s) h = refl
  finish-none journal (some code, c, s) h = cc

  checks-none :
      (journal : Value) (s : S.State)
      → verify_rollback_preconditions S sha256 journal s ≡ ok []
      → (validate_recovery_journal journal ≡ ok [])
        × (checks S sha256 journal true s ≡ ok [])
        × (check_rows S sha256 s (rows_of journal) ≡ ok [])
  unfolding verify_rollback_preconditions checks recheck
  checks-none journal s h =
      let (errors, valid, h') = >>=-ok (validate_recovery_journal journal) _ h in
      let (is_nil, rows) = check_valid-none S sha256 journal s errors h' in
      let valid' = valid ∙ ap ok is_nil in (valid', rw valid' h, rows)

  -- A recovery completes: if the rollback preconditions hold, the journal has a row for the master
  -- index that existed before, with the digest that the journal itself names as the master index's
  -- digest before, and writes and deletes take effect, on their path alone, then it returns a
  -- recovered journal and no error.
  pub execute_recovery_completes :
      (journal : Value) (s : S.State)
      → verify_rollback_preconditions S sha256 journal s ≡ ok []
      → NamesMaster journal (rows_of journal)
      → (j : Value) × ((execute_recovery S sha256 journal true s).0 ≡ ok (some j, []))
  unfolding start
  execute_recovery_completes journal s h names =
      let (valid, checked, rows_checked) = checks-none journal s h in
      let (_, rows, distinct) = validate-Good journal valid in
      let step = roll_back S sha256 (rows_of journal) no_counts s in
      let backed = (check_rows-Backed S sha256 s (rows_of journal) rows_checked).0 in
      let done =
        roll_back_succeeds (rows_of journal) no_counts s s rows backed (λ q in_root. refl) in
      let (back, counted) =
        roll_back-RolledBack S framed sha256 [] (rows_of journal) no_counts s s rows distinct
          (λ q in_root. refl) done in
      let (b, there, same) = master_back journal (rows_of journal) s step.2 names back in
      (
        recovered_journal S sha256 journal step.1,
        rw (execute_recovery_lem, checked)
            (finish-none journal step done ∙ check_master_succeeds journal step.1 _ b there same),
      )
