-- ===== src/Recovery/Execute/Preconditions.antt =====
-- What a clean answer of `verify_rollback_preconditions` of
-- src/candidate_production_recovery_engine.py says of the storage.
use technology_library_inges.Base.{
  String, ◌≡◌, refl, ap, ◌∙◌, Bool, true, false, Option, none, some, List, [], ◌∷◌, All, Result, ok,
  >>=-ok, ok-injective, Bool-cases, inl, inr, arith,
}
use technology_library_inges.Json.{
  Value, null, bool, int, str, arr, obj, get, index, is_null, eq_str, index-get,
}
use technology_library_inges.Storage.{Bytes, Storage, Sha256}
use technology_library_inges.Recovery.Journal.{
  Row, rows_of, row_path, existed_before, snapshot_of, before_sha, valid_sha,
  validate_recovery_journal,
}
use technology_library_inges.Recovery.Execute.{
  digest_in, digest_is, judge_row, check_row, first_code, check_rows, check_valid,
  verify_rollback_preconditions,
}

module _ (S : Storage) (sha256 : Sha256) where
  -- The snapshot of a path that existed is there, with the recorded digest.
  abbrev pub Backed : Bool → S.State → Row → Type 0
  Backed true s row =
      (b : Bytes) × (S.read s (snapshot_of row) ≡ some b)
      × (eq_str (before_sha row) (sha256 b) ≡ true)
  Backed false s row = Unit

  digest_is→ :
      (o : Option Bytes) (v : Value)
      → digest_is S sha256 o v ≡ true
      → (b : Bytes) × (o ≡ some b) × (eq_str v (sha256 b) ≡ true)
  unfolding digest_is
  digest_is→ none v h = cc
  digest_is→ (some b) v h = (b, refl, h)

  judge_row-digest :
      (s : S.State) (row : Row) (before : Value)
      → judge_row S sha256 s row before ≡ none
      → existed_before row ≡ true
      → digest_is S sha256 (S.read s (snapshot_of row)) before ≡ true
  unfolding judge_row
  judge_row-digest s (key, entry) before h old = ground arith

  Backed-of_digest :
      (old : Bool) (s : S.State) (row : Row) (before : Value)
      → before_sha row ≡ before
      → (old ≡ true → digest_is S sha256 (S.read s (snapshot_of row)) before ≡ true)
      → Backed old s row
  Backed-of_digest true s row before e h =
      let (b, there, same) = digest_is→ (S.read s (snapshot_of row)) before (h refl) in
      (b, there, rw e same)
  Backed-of_digest false s row before e h = tt

  -- A row's path holds what it held before the transaction or what it was to hold after it: bytes of
  -- the one or the other digest, or no file where the journal has none from before.
  pub data IsKnown (s : S.State) (row : Row) : Type 0 where
    still_absent : S.read s (row_path row) ≡ none → before_sha row ≡ null → IsKnown s row
    as_before :
        (b : Bytes)
        → S.read s (row_path row) ≡ some b
        → eq_str (before_sha row) (sha256 b) ≡ true
        → IsKnown s row
    as_after :
        (b : Bytes)
        → S.read s (row_path row) ≡ some b
        → eq_str (get "after_sha256" row.1) (sha256 b) ≡ true
        → IsKnown s row

  is_null-null : (v : Value) → is_null v ≡ true → v ≡ null
  is_null-null null h = refl
  is_null-null (bool b) h = cc h
  is_null-null (int n) h = cc h
  is_null-null (str t) h = cc h
  is_null-null (arr vs) h = cc h
  is_null-null (obj fs) h = cc h

  valid_sha-not_null : (v : Value) → valid_sha v ≡ true → is_null v ≡ false
  unfolding valid_sha
  valid_sha-not_null (str t) h = refl
  valid_sha-not_null null h = cc h
  valid_sha-not_null (bool b) h = refl
  valid_sha-not_null (int n) h = refl
  valid_sha-not_null (arr vs) h = refl
  valid_sha-not_null (obj fs) h = refl

  digest_in-IsKnown :
      (s : S.State) (row : Row) (o : Option Bytes)
      → S.read s (row_path row) ≡ o
      → valid_sha (get "after_sha256" row.1) ≡ true
      → digest_in S sha256 o (before_sha row) (get "after_sha256" row.1) ≡ true
      → IsKnown s row
  unfolding digest_in
  digest_in-IsKnown s row none at_path valid h = still_absent at_path (
      is_null-null (before_sha row)
        (ground (arith, valid_sha-not_null (get "after_sha256" row.1) valid)))
  digest_in-IsKnown s row (some b) at_path valid h =
      elim (Bool-cases (eq_str (before_sha row) (sha256 b))) [
        | inl before ↦ as_before b at_path before
        | inr other ↦ as_after b at_path (ground arith)
      ]

  judge_row-known :
      (s : S.State) (row : Row) (before : Value)
      → judge_row S sha256 s row before ≡ none
      → digest_in S sha256 (S.read s (row_path row)) before (get "after_sha256" row.1) ≡ true
  unfolding judge_row
  judge_row-known s (key, entry) before h = ground arith

  check_row-none :
      (s : S.State) (key : String) (entry : Value)
      → check_row S sha256 s (key, entry) ≡ ok none
      → (valid_sha (get "after_sha256" entry) ≡ true)
        × (before_sha (key, entry) ≡ get "before_sha256" entry)
        × (judge_row S sha256 s (key, entry) (get "before_sha256" entry) ≡ none)
  unfolding check_row before_sha
  check_row-none s key entry h = elim (Bool-cases (valid_sha (get "after_sha256" entry))) [
    | inr bad ↦ cc (ok-injective (rw bad at h))
    | inl valid ↦
        let (before, there, judged) =
          >>=-ok (index "before_sha256" entry) (λ v. ok (judge_row S sha256 s (key, entry) v))
            (rw valid at h) in
        let found = index-get "before_sha256" entry before there in
        (valid, refl, rw found (ok-injective judged))
  ]

  check_row-Backed :
      (s : S.State) (row : Row)
      → check_row S sha256 s row ≡ ok none
      → Backed (existed_before row) s row × IsKnown s row
  check_row-Backed s (key, entry) h =
      let (valid, before, judged) = check_row-none s key entry h in
      (
        Backed-of_digest (existed_before (key, entry)) s (key, entry) (get "before_sha256" entry)
            before (judge_row-digest s (key, entry) (get "before_sha256" entry) judged),
        digest_in-IsKnown s (key, entry) (S.read s (row_path (key, entry))) refl valid
            (rw before (judge_row-known s (key, entry) (get "before_sha256" entry) judged)),
      )

  first_code-none :
      (code : Option String) (rest : Result (List String))
      → first_code S sha256 code rest ≡ ok []
      → (code ≡ none) × (rest ≡ ok [])
  first_code-none none rest h = (refl, h)
  first_code-none (some code) rest h = cc (ok-injective h)

  pub check_rows-Backed :
      (s : S.State) (rows : List Row)
      → check_rows S sha256 s rows ≡ ok []
      → All (λ row. Backed (existed_before row) s row) rows × All (IsKnown s) rows
  unfolding check_rows
  check_rows-Backed s [] h = (tt, tt)
  check_rows-Backed s (row ∷ rows) h =
      let (code, checked, h') = >>=-ok (check_row S sha256 s row) _ h in
      let (is_none, rest) = first_code-none code (check_rows S sha256 s rows) h' in
      let (backed, known) = check_row-Backed s row (checked ∙ ap ok is_none) in
      let (backeds, knowns) = check_rows-Backed s rows rest in ((backed, backeds), (known, knowns))

  pub check_valid-none :
      (journal : Value) (s : S.State) (errors : List String)
      → check_valid S sha256 journal s errors ≡ ok []
      → (errors ≡ []) × (check_rows S sha256 s (rows_of journal) ≡ ok [])
  unfolding check_valid
  check_valid-none journal s [] h = (refl, h)
  check_valid-none journal s (code ∷ codes) h = cc (ok-injective h)

  -- The storage that a rollback may start from.
  abbrev pub Recoverable : Value → S.State → Type 0
  Recoverable journal s =
      (validate_recovery_journal journal ≡ ok [])
      × All (λ row. Backed (existed_before row) s row) (rows_of journal)
      × All (IsKnown s) (rows_of journal)

  pub verify_rollback_preconditions-Recoverable :
      (journal : Value) (s : S.State)
      → verify_rollback_preconditions S sha256 journal s ≡ ok []
      → Recoverable journal s
  unfolding verify_rollback_preconditions
  verify_rollback_preconditions-Recoverable journal s h =
      let (errors, valid, h') = >>=-ok (validate_recovery_journal journal) _ h in
      let (is_nil, rows) = check_valid-none journal s errors h' in
      let (backed, known) = check_rows-Backed s (rows_of journal) rows in
      (valid ∙ ap ok is_nil, backed, known)
