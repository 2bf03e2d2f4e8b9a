-- ===== src/Reconcile/Restart/Before.antt =====
-- What `_canonical_equals_before` of src/candidate_committed_reconciliation.py says of the storage.
use technology_library_inges.Base.{
  String, ◌<>◌, ◌≡◌, refl, ◌⊎◌, inl, inr, Bool, true, false, not, Option, none, some, List, [], ◌∷◌,
  All, contains, starts_with, Bool-cases,
}
use technology_library_inges.Json.{
  Value, null, bool, int, str, arr, obj, get, is_list, is_true, is_null, eq_str→eq, text_of,
}
use technology_library_inges.Storage.{Bytes, Storage, Sha256}
use technology_library_inges.Recovery.Journal.{Row, rows_of, row_path, master_path}
use technology_library_inges.Recovery.Journal.Rows.{DistinctAfter}
use technology_library_inges.Planning.Names.{matches}
use technology_library_inges.Restart.Verify.Back.{HasDigest, is_true-bool, is_false-bool}
use technology_library_inges.Reconcile.Proof.{safe_canonical, has_master}
use technology_library_inges.Reconcile.Proof.Proven.{and_left, and_right}
use technology_library_inges.Reconcile.Restart.{
  same_digest, is_absent, entry_equals, rows_equal, or_empty, canonical_equals_before,
}

not-false : (b : Bool) → not b ≡ true → b ≡ false
not-false false h = refl
not-false true h = cc h

null-of : (v : Value) → is_null v ≡ true → v ≡ null
null-of null h = refl
null-of (bool b) h = cc h
null-of (int n) h = cc h
null-of (str s) h = cc h
null-of (arr vs) h = cc h
null-of (obj fs) h = cc h

-- A path that passes the test of canonical paths is a text.
safe-path : (v : Value) → safe_canonical v ≡ true → v ≡ str (text_of v)
unfolding safe_canonical text_of
safe-path (str s) h = refl
safe-path null h = cc h
safe-path (bool b) h = cc h
safe-path (int n) h = cc h
safe-path (arr vs) h = cc h
safe-path (obj fs) h = cc h

matched-text :
    (test : String → Bool) (v : Value)
    → matches test v ≡ true
    → (v ≡ str (text_of v)) × (test (text_of v) ≡ true)
unfolding text_of
matched-text test (str s) h = (refl, h)
matched-text test null h = cc h
matched-text test (bool b) h = cc h
matched-text test (int n) h = cc h
matched-text test (arr vs) h = cc h
matched-text test (obj fs) h = cc h

module _ (S : Storage) (sha256 : Sha256) (parse : Bytes → Option Value) where
  -- A row's canonical file is the one from before the transaction: the file and its snapshot under the
  -- run's folder have the digest from before, or there was no file and there is none.
  pub data IsBefore (run_root : String) (s : S.State) (row : Row) : Type 0 where
    same_file :
        (path snapshot : String)
        → get row.0 row.1 ≡ str path
        → get "existed_before" row.1 ≡ bool true
        → get "snapshot_path" row.1 ≡ str snapshot
        → starts_with snapshot (run_root <> "/snapshots/") ≡ true
        → HasDigest sha256 (S.read s) snapshot (get "before_sha256" row.1)
        → HasDigest sha256 (S.read s) path (get "before_sha256" row.1)
        → IsBefore run_root s row
    no_file :
        (path : String)
        → get row.0 row.1 ≡ str path
        → get "existed_before" row.1 ≡ bool false
        → get "before_sha256" row.1 ≡ null
        → S.read s path ≡ none
        → IsBefore run_root s row

  same-HasDigest :
      (s : S.State) (path : String) (o : Option Bytes) (before : Value)
      → S.read s path ≡ o
      → same_digest S sha256 parse o before ≡ true
      → HasDigest sha256 (S.read s) path before
  unfolding same_digest
  same-HasDigest s path none before at_path h = cc h
  same-HasDigest s path (some b) before at_path h = (b, at_path, eq_str→eq before (sha256 b) h)

  absent-none : (o : Option Bytes) → is_absent S sha256 parse o ≡ true → o ≡ none
  unfolding is_absent
  absent-none none h = refl
  absent-none (some b) h = cc h

  entry-IsBefore :
      (run_root key : String) (entry : Value) (s : S.State)
      → get key entry ≡ str (text_of (get key entry))
      → entry_equals S sha256 parse run_root entry (text_of (get key entry)) s ≡ true
      → IsBefore run_root s (key, entry)
  unfolding entry_equals
  entry-IsBefore run_root key entry s at_key h =
      elim (Bool-cases (is_true (get "existed_before" entry))) [
        | inl existed ↦
            let all = rw existed at h in
            let front = and_left _ _ all in
            let (snapshot, under) =
              matched-text (λ snap. starts_with snap (run_root <> "/snapshots/"))
                (get "snapshot_path" entry) (and_right _ _ (and_left _ _ front)) in
            same_file (text_of (get key entry)) (text_of (get "snapshot_path" entry)) at_key
              (is_true-bool _ existed) snapshot under
              (same-HasDigest s _ _ (get "before_sha256" entry) refl (and_right _ _ front))
              (same-HasDigest s _ _ (get "before_sha256" entry) refl (and_right _ _ all))
        | inr fresh ↦
            let all = rw fresh at h in
            let front = and_left _ _ all in
            no_file (text_of (get key entry)) at_key (is_false-bool _ (and_left _ _ front))
              (null-of _ (and_right _ _ front)) (absent-none _ (and_right _ _ all))
      ]

  rows-IsBefore :
      (run_root : String) (touched : List String) (rows : List Row) (s : S.State)
      → rows_equal S sha256 parse run_root touched rows s ≡ true
      → All (IsBefore run_root s) rows × DistinctAfter touched rows
  unfolding rows_equal row_path
  rows-IsBefore run_root touched [] s h = (tt, tt)
  rows-IsBefore run_root touched ((key, entry) ∷ rows) s h =
      let front = and_left _ _ h in
      let tests = and_left _ _ front in
      let (befores, distinct) =
        rows-IsBefore run_root (text_of (get key entry) ∷ touched) rows s (and_right _ _ h) in
      let new = not-false (contains touched (text_of (get key entry))) (and_right _ _ tests) in
      (
        (
          entry-IsBefore run_root key entry s
              (safe-path (get key entry) (and_right _ _ (and_left _ _ tests)))
              (and_right _ _ front),
          befores,
        ),
        (new, distinct),
      )

  -- The canonical state equals the one from before the transaction: every path of the journal, of which
  -- no two are equal and one is the master index, is as it was, and the bytes of the master index, or
  -- no bytes if it is absent, have the digest that the journal names.
  abbrev pub StateBefore : Value → S.State → Type 0
  StateBefore journal s =
      (is_list (get "items" journal) ≡ true)
      × (is_list (get "indexes" journal) ≡ true)
      × All (IsBefore (text_of (get "run_root" journal)) s) (rows_of journal)
      × DistinctAfter [] (rows_of journal)
      × (has_master (rows_of journal) ≡ true)
      × (HasDigest sha256 (S.read s) master_path (get "master_index_before_sha256" journal)
          ⊎ ((S.read s master_path ≡ none)
              × (get "master_index_before_sha256" journal ≡ str (sha256 []))))

  master-before :
      (s : S.State) (o : Option Bytes) (expected : Value)
      → S.read s master_path ≡ o
      → expected ≡ str (sha256 (or_empty S sha256 parse o))
      → HasDigest sha256 (S.read s) master_path expected
        ⊎ ((S.read s master_path ≡ none) × (expected ≡ str (sha256 [])))
  unfolding or_empty
  master-before s none expected at_path same = inr (at_path, same)
  master-before s (some b) expected at_path same = inl (b, at_path, same)

  pub canonical_equals_before-StateBefore :
      (journal : Value) (s : S.State)
      → canonical_equals_before S sha256 parse journal s ≡ true
      → StateBefore journal s
  unfolding canonical_equals_before
  canonical_equals_before-StateBefore journal s h =
      let master = and_right _ _ h in
      let front = and_left _ _ h in
      let lists = and_right _ _ (and_left _ _ (and_left _ _ (and_left _ _ front))) in
      let (before, distinct) =
        rows-IsBefore (text_of (get "run_root" journal)) [] (rows_of journal) s
          (and_right _ _ front) in
      (
        and_left _ _ lists,
        and_right _ _ lists,
        before,
        distinct,
        and_left _ _ master,
        master-before s (S.read s master_path) _ refl
            (eq_str→eq (get "master_index_before_sha256" journal) _ (and_right _ _ master)),
      )
