-- ===== src/Recovery/Execute/Contract.antt =====
-- The contract of `execute_recovery` of src/candidate_production_recovery_engine.py.
use mathlib.Core.Option.{some-injective}
use technology_library_inges.Base.{
  ◌+◌, String, ◌≡◌, refl, ap, sym, ◌∙◌, subst, ◌⊎◌, Bool, true, false, Option, none, some, List, [],
  ◌∷◌, All, length, str_eq, str_eq→eq, str_eq-false, Result, ok, raised, >>=-ok, ok-injective,
  Bool-cases, inl, inr, arith,
}
use technology_library_inges.Json.{Value, get, eq_str}
use technology_library_inges.Storage.{Bytes, Storage, Sha256, IsFramed}
use technology_library_inges.Recovery.Journal.{
  Row, rows_of, row_path, existed_before, snapshot_of, master_path, validate_recovery_journal,
}
use technology_library_inges.Recovery.Journal.Rows.{Fresh, validate-Good}
use technology_library_inges.Recovery.Execute.{
  Counts, no_counts, Step, roll_back, recovered_journal, check_master, finish, start, recheck,
  checks, execute_recovery, execute_recovery_lem,
}
use technology_library_inges.Recovery.Execute.Rollback.{
  Before, RolledBack, roll_back-RolledBack, roll_back-frame,
}

-- A run that goes past its checks has a valid journal.
pub checks-valid :
    (S : Storage) (sha256 : Sha256) (journal : Value) (verify : Bool) (s : S.State)
    → checks S sha256 journal verify s ≡ ok []
    → validate_recovery_journal journal ≡ ok []
unfolding checks recheck
checks-valid S sha256 journal verify s h =
    let (errors, valid, h') = >>=-ok (validate_recovery_journal journal) _ h in
    valid ∙ ap ok (none_first errors h')
  where
    none_first :
        (errors : List String) → recheck S sha256 journal verify s errors ≡ ok [] → errors ≡ []
    none_first [] e = refl
    none_first (code ∷ codes) e = cc

module _ (S : Storage) (framed : IsFramed S) (sha256 : Sha256) where
  check_master_done :
      (journal j : Value) (c : Counts) (o : Option Bytes)
      → check_master S sha256 journal c o ≡ ok (some j, [])
      → (b : Bytes) × (o ≡ some b)
        × (eq_str (get "master_index_before_sha256" journal) (sha256 b) ≡ true)
        × (j ≡ recovered_journal S sha256 journal c)
  unfolding check_master
  check_master_done journal j c none h =
      cc (ap (λ (x : Option Value × List String). x.1) (ok-injective h))
  check_master_done journal j c (some b) h =
      elim (Bool-cases (eq_str (get "master_index_before_sha256" journal) (sha256 b))) [
        | inl same ↦ (
          b,
          refl,
          same,
          sym (
              some-injective _ _
                (ap (λ (x : Option Value × List String). x.0) (ok-injective (rw same at h)))),
        )
        | inr differ ↦
            cc (ap (λ (x : Option Value × List String). x.1) (ok-injective (rw differ at h)))
      ]

  -- What a successful recovery says, of the storage that it found and the one that it leaves.
  abbrev pub Recovered : Value → Value → S.State → S.State → Type 0
  Recovered journal j s s' =
      (c : Counts) × (j ≡ recovered_journal S sha256 journal c)
      × (c.restored + c.removed ≡ length (rows_of journal))
      × (c.verified ≡ length (rows_of journal))
      × All (RolledBack S sha256 s s') (rows_of journal)
      × ((b : Bytes) × (S.read s' master_path ≡ some b)
          × (eq_str (get "master_index_before_sha256" journal) (sha256 b) ≡ true))

  finish-Recovered :
      (journal j : Value) (s : S.State) (step : Step S sha256)
      → (finish S sha256 journal step).0 ≡ ok (some j, [])
      → (step.0 ≡ none)
        × (check_master S sha256 journal step.1 (S.read step.2 master_path) ≡ ok (some j, []))
        × ((finish S sha256 journal step).1 ≡ step.2)
  unfolding finish
  finish-Recovered journal j s (none, c, s') h = (refl, h, refl)
  finish-Recovered journal j s (some code, c, s') h =
      cc (ap (λ (x : Option Value × List String). x.1) (ok-injective h))

  start-Recovered :
      (journal j : Value) (s : S.State) (errors : Result (List String))
      → (errors ≡ ok [] → validate_recovery_journal journal ≡ ok [])
      → (start S sha256 journal s errors).0 ≡ ok (some j, [])
      → Recovered journal j s (start S sha256 journal s errors).1
  unfolding start
  start-Recovered journal j s (raised x) valid h = cc
  start-Recovered journal j s (ok (code ∷ codes)) valid h =
      cc (ap (λ (x : Option Value × List String). x.1) (ok-injective h))
  start-Recovered journal j s (ok []) valid h =
      let (_, rows, distinct) = validate-Good journal (valid refl) in
      let step = roll_back S sha256 (rows_of journal) no_counts s in
      let (done, master, same) = finish-Recovered journal j s step h in
      let (back, counted) =
        roll_back-RolledBack S framed sha256 [] (rows_of journal) no_counts s s rows distinct
          (λ q in_root. refl) done in
      let (b, there, digest, is) = check_master_done journal j step.1 _ master in
      rw same (step.1, is, omega arith, omega arith, back, (b, there, digest))

  -- Over a storage whose writes and deletes leave the other paths alone: a recovery that returns
  -- a journal has put every path of the journal back: a path that existed holds the bytes of its
  -- snapshot, whose digest is the recorded one, and a path that was created is gone. The master
  -- index has the digest from before the transaction. The journal that is returned is the given
  -- one marked `RECOVERED`, with counts that add up to the number of paths.
  pub execute_recovery-Recovered :
      (journal j : Value) (verify : Bool) (s : S.State)
      → (execute_recovery S sha256 journal verify s).0 ≡ ok (some j, [])
      → Recovered journal j s (execute_recovery S sha256 journal verify s).1
  execute_recovery-Recovered journal j verify s h = rw execute_recovery_lem (
      start-Recovered journal j s _ (checks-valid S sha256 journal verify s)
        (rw execute_recovery_lem at h))

  finish-frame :
      (journal : Value) (step : Step S sha256) (q : String)
      → S.read (finish S sha256 journal step).1 q ≡ S.read step.2 q
  unfolding finish
  finish-frame journal (none, c, s) q = refl
  finish-frame journal (some code, c, s) q = refl

  start-frame :
      (journal : Value) (s : S.State) (errors : Result (List String)) (q : String)
      → Fresh q (rows_of journal)
      → S.read (start S sha256 journal s errors).1 q ≡ S.read s q
  unfolding start
  start-frame journal s (raised x) q f = refl
  start-frame journal s (ok (code ∷ codes)) q f = refl
  start-frame journal s (ok []) q f =
      finish-frame journal (roll_back S sha256 (rows_of journal) no_counts s) q
      ∙ roll_back-frame S framed sha256 q (rows_of journal) no_counts s f

  -- Over a storage whose writes and deletes leave the other paths alone: whatever the outcome, a
  -- path that the journal does not name keeps its bytes.
  pub execute_recovery-frame :
      (journal : Value) (verify : Bool) (s : S.State) (q : String)
      → Fresh q (rows_of journal)
      → S.read (execute_recovery S sha256 journal verify s).1 q ≡ S.read s q
  execute_recovery-frame journal verify s q f =
      rw execute_recovery_lem (start-frame journal s _ q f)

  -- The journal records `s0`, the storage before the transaction, as `s` shows it: the snapshots
  -- hold the bytes of the paths that existed, and the created paths were absent.
  abbrev pub Records : Bool → S.State → S.State → Row → Type 0
  Records true s0 s row =
      (b : Bytes) × (S.read s (snapshot_of row) ≡ some b) × (S.read s0 (row_path row) ≡ some b)
  Records false s0 s row = S.read s0 (row_path row) ≡ none

  Before-eq :
      (old : Bool) (row : Row) (s0 s s' : S.State)
      → Records old s0 s row
      → Before S sha256 old s s' row
      → S.read s' (row_path row) ≡ S.read s0 (row_path row)
  Before-eq true row s0 s s' (b, snap, there) (b', snap', digest, there') =
      there' ∙ sym snap' ∙ snap ∙ sym there
  Before-eq false row s0 s s' absent gone = gone ∙ sym absent

  -- A path of the journal is back, or is none of its paths.
  find_row :
      (rows : List Row) (s0 s s' : S.State) (q : String)
      → All (λ row. Records (existed_before row) s0 s row) rows
      → All (RolledBack S sha256 s s') rows
      → (S.read s' q ≡ S.read s0 q) ⊎ Fresh q rows
  find_row [] s0 s s' q r b = inr tt
  find_row (row ∷ rows) s0 s s' q (r, rs) (b, bs) = elim (Bool-cases (str_eq (row_path row) q)) [
    | inl here ↦ inl (
        subst (λ (t : String). S.read s' t ≡ S.read s0 t) (str_eq→eq (row_path row) q here)
          (Before-eq (existed_before row) row s0 s s' r b))
    | inr not_here ↦ elim (find_row rows s0 s s' q rs bs) [
      | inl found ↦ inl found
      | inr fresh ↦ inr (λ e. str_eq-false (row_path row) q not_here (sym e), fresh)
    ]
  ]

  -- One path, where only its own history matters.
  pub execute_recovery-back :
      (journal j : Value) (verify : Bool) (s0 s : S.State) (q : String)
      → All (λ row. Records (existed_before row) s0 s row) (rows_of journal)
      → (Fresh q (rows_of journal) → S.read s q ≡ S.read s0 q)
      → (execute_recovery S sha256 journal verify s).0 ≡ ok (some j, [])
      → S.read (execute_recovery S sha256 journal verify s).1 q ≡ S.read s0 q
  execute_recovery-back journal j verify s0 s q records untouched h =
      let (c, is, sum, total, back, master) = execute_recovery-Recovered journal j verify s h in
      elim (find_row (rows_of journal) s0 s _ q records back) [
        | inl same ↦ same
        | inr fresh ↦ execute_recovery-frame journal verify s q fresh ∙ untouched fresh
      ]

  -- Over a storage whose writes and deletes leave the other paths alone: recovery is exact. If
  -- the journal records the storage from before the transaction, and the interrupted transaction
  -- has touched no other path, then a recovery that returns leaves every path as it was before
  -- the transaction.
  pub execute_recovery_exact :
      (journal j : Value) (verify : Bool) (s0 s : S.State)
      → All (λ row. Records (existed_before row) s0 s row) (rows_of journal)
      → ((q : String) → Fresh q (rows_of journal) → S.read s q ≡ S.read s0 q)
      → (execute_recovery S sha256 journal verify s).0 ≡ ok (some j, [])
      → (q : String) → S.read (execute_recovery S sha256 journal verify s).1 q ≡ S.read s0 q
  execute_recovery_exact journal j verify s0 s records untouched h q =
      execute_recovery-back journal j verify s0 s q records (untouched q) h

  start-valid :
      (journal j : Value) (s : S.State) (errors : Result (List String))
      → (start S sha256 journal s errors).0 ≡ ok (some j, [])
      → errors ≡ ok []
  unfolding start
  start-valid journal j s (raised x) h = cc
  start-valid journal j s (ok (code ∷ codes)) h =
      cc (ap (λ (x : Option Value × List String). x.1) (ok-injective h))
  start-valid journal j s (ok []) h = refl

  -- A recovery that returns a journal was given a valid one.
  pub execute_recovery-valid :
      (journal j : Value) (verify : Bool) (s : S.State)
      → (execute_recovery S sha256 journal verify s).0 ≡ ok (some j, [])
      → validate_recovery_journal journal ≡ ok []
  execute_recovery-valid journal j verify s h =
      checks-valid S sha256 journal verify s
        (start-valid journal j s _ (rw execute_recovery_lem at h))
