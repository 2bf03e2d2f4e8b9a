-- ===== src/Transaction/Indexes/Contract.antt =====
-- What `apply_index_plan` and `verify_index_state` of src/candidate_canonical_index_rebuild.py promise.
use technology_library_inges.Base.{
  ℕ, String, ◌≡◌, ◌≢◌, refl, ◌∙◌, Bool, true, false, some, [], ◌∷◌, inl, inr, sorted_set-eq-nil,
  All, Bool-cases,
}
use technology_library_inges.Storage.{Bytes, Storage, IsFramed, holds, holds→eq}
use technology_library_inges.Transaction.Indexes.{
  Indexes, Applied, is_index_target, sorted_items, after_write, apply_entry, apply, index_report,
  apply_index_plan, mismatches, verify_index_state,
}

-- Every index file holds its bytes.
abbrev pub Standing : (S : Storage) → S.State → Indexes → Type 0
Standing S s entries = All (λ (entry : String × Bytes). S.read s entry.0 ≡ some entry.1) entries

module _ (S : Storage) where
  mismatches-Standing :
      (entries : Indexes) (s : S.State) → mismatches S entries s ≡ [] → Standing S s entries
  unfolding mismatches
  mismatches-Standing [] s h = tt
  mismatches-Standing ((path, expected) ∷ entries) s h =
      elim (Bool-cases (holds (S.read s path) expected)) [
        | inl same ↦ (holds→eq _ _ same, mismatches-Standing entries s (rw same at h))
        | inr differ ↦ cc (rw differ at h)
      ]

  pub verify_index_state-Standing :
      (indexes : Indexes) (s : S.State)
      → verify_index_state S indexes s ≡ []
      → Standing S s (sorted_items indexes)
  unfolding verify_index_state
  verify_index_state-Standing indexes s h = mismatches-Standing _ s (sorted_set-eq-nil _ h)

-- No index file that the loop may write is `q`.
abbrev pub Untouched : String → Indexes → Type 0
Untouched q entries =
    All (λ (entry : String × Bytes). is_index_target entry.0 ≡ true → entry.0 ≢ q) entries

module _ (S : Storage) (framed : IsFramed S) (q : String) where
  -- The turns to come keep the bytes of `q`.
  Keeps : (ℕ × ℕ → S.State → Applied S) → Type 0
  Keeps rest = (counts : ℕ × ℕ) (s : S.State) → S.read (rest counts s).2 q ≡ S.read s q

  after_write-Keeps :
      (path : String) (expected : Bytes) (counts : ℕ × ℕ) (rest : ℕ × ℕ → S.State → Applied S)
      (r : Bool × S.State)
      → Keeps rest
      → S.read (after_write S path expected counts rest r).2 q ≡ S.read r.1 q
  unfolding after_write Keeps
  after_write-Keeps path expected counts rest (false, s) k = refl
  after_write-Keeps path expected counts rest (true, s) k =
      elim (Bool-cases (holds (S.read s path) expected)) [
        | inl same ↦ rw same (k _ s)
        | inr differ ↦ rw differ refl
      ]

  apply_entry-Keeps :
      (path : String) (expected : Bytes) (counts : ℕ × ℕ) (rest : ℕ × ℕ → S.State → Applied S)
      (s : S.State)
      → (is_index_target path ≡ true → path ≢ q)
      → Keeps rest
      → S.read (apply_entry S path expected counts rest s).2 q ≡ S.read s q
  unfolding apply_entry Keeps
  apply_entry-Keeps path expected counts rest s ne k = elim (Bool-cases (is_index_target path)) [
    | inl safe ↦ elim (Bool-cases (holds (S.read s path) expected)) [
      | inl same ↦ rw safe (rw same (k _ s))
      | inr differ ↦ rw safe (
          rw differ (
            after_write-Keeps path expected counts rest (S.write s path expected) k
            ∙ framed.read-write s path q expected (ne safe)))
    ]
    | inr unsafe ↦ rw unsafe (k _ s)
  ]

  apply-Keeps : (entries : Indexes) → Untouched q entries → Keeps (apply S entries)
  unfolding Keeps apply
  apply-Keeps [] u counts s = refl
  apply-Keeps ((path, expected) ∷ entries) (ne, u) counts s =
      apply_entry-Keeps path expected counts (apply S entries) s ne (apply-Keeps entries u)

  -- A path that is none of the index files keeps its bytes.
  pub apply_index_plan-frame :
      (indexes : Indexes) (s : S.State)
      → Untouched q (sorted_items indexes)
      → S.read (apply_index_plan S indexes s).1 q ≡ S.read s q
  unfolding apply_index_plan index_report Keeps
  apply_index_plan-frame indexes s u = apply-Keeps (sorted_items indexes) u (0, 0) s
