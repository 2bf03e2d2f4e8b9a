-- ===== src/Transaction/Engine/Contract/Frame.antt =====
-- What `execute_canonical_transaction` of src/candidate_canonical_transaction_engine.py leaves alone.
use technology_library_inges.Base.{
  ℕ, String, ◌≡◌, refl, ap, ◌∙◌, Option, none, some, List, [], ◌∷◌, ◌⊎◌, inl, inr, Result, ok,
  raised, ok-injective, >>=-ok,
}
use technology_library_inges.Json.{Value}
use technology_library_inges.Storage.{Storage, Sha256, IsFramed}
use technology_library_inges.Mutation.Validate.{Item, validate_transaction_for_mutation}
use technology_library_inges.Mutation.Validate.Targets.{Fresh}
use technology_library_inges.Mutation.Execute.{
  MutationState, prewrite_abort, recovery_required, Report, execute_record_mutations,
}
use technology_library_inges.Mutation.Execute as Mutations
use technology_library_inges.Mutation.Execute.Contract.{execute-frame, execute_unchanged}
use technology_library_inges.Transaction.Indexes.{
  IndexBuilder, Indexes, IndexReport, LibraryRecord, build_index_plan, apply_index_plan,
  sorted_items,
}
use technology_library_inges.Transaction.Indexes.Contract.{Untouched, apply_index_plan-frame}
use technology_library_inges.Transaction.Engine.{
  TransactionReport, TransactionState, stopped, canonical_state_verified,
  post_transaction_record_paths, verify_transaction_targets, Outcome, state_of, stop, conclude,
  concluded, after_indexes, after_plan, after_paths, after_records, execute_canonical_transaction,
  execute_canonical_transaction_lem,
}

module _ (S : Storage) (sha256 : Sha256) (B : IndexBuilder) where
  after_indexes-state :
      (plan : Value) (t : Report) (n : ℕ) (indexes : Indexes)
      (a : (IndexReport × List String) × S.State)
      → (after_indexes S sha256 B plan t n indexes a).1 ≡ a.1
  unfolding after_indexes
  after_indexes-state plan t n indexes ((u, code ∷ codes), s) = refl
  after_indexes-state plan t n indexes ((u, []), s) = refl

  -- The index plan of a run: from the record paths after it, over the mutated storage.
  abbrev pub Plans : Value → List String → S.State → Indexes → Type 0
  Plans plan before mid indexes =
      (paths : List String) × (records : List LibraryRecord) × (post_transaction_record_paths plan
          before
        ≡ ok paths)
      × (build_index_plan B paths (S.read mid) ≡ (some indexes, records, []))

  -- Once the records are mutated only the planned index files are written.
  module _ (framed : IsFramed S) (q : String) where
    after_plan-frame :
        (plan : Value) (t : Report) (s : S.State)
        (p : Option Indexes × List LibraryRecord × List String)
        → ((indexes : Indexes) (records : List LibraryRecord)
            → p ≡ (some indexes, records, [])
            → Untouched q (sorted_items indexes))
        → S.read (after_plan S sha256 B plan t s p).1 q ≡ S.read s q
    unfolding after_plan
    after_plan-frame plan t s (indexes, records, code ∷ codes) u = refl
    after_plan-frame plan t s (none, records, []) u = refl
    after_plan-frame plan t s (some indexes, records, []) u =
        ap (λ x. S.read x q) (after_indexes-state plan t _ indexes (apply_index_plan S indexes s))
        ∙ apply_index_plan-frame S framed q indexes s (u indexes records refl)

    after_paths-frame :
        (plan : Value) (before : List String) (t : Report) (s : S.State) (p : Result (List String))
        → ((indexes : Indexes) → Plans plan before s indexes → Untouched q (sorted_items indexes))
        → post_transaction_record_paths plan before ≡ p
        → S.read (after_paths S sha256 B plan t s p).1 q ≡ S.read s q
    unfolding after_paths
    after_paths-frame plan before t s (raised x) u e = refl
    after_paths-frame plan before t s (ok paths) u e =
        after_plan-frame plan t s _
          (λ indexes records planned. u indexes (paths, records, e, planned))

    after_records-frame :
        (plan : Value) (before : List String) (a : Mutations.Answer × S.State)
        → ((indexes : Indexes) → Plans plan before a.1 indexes → Untouched q (sorted_items indexes))
        → S.read (after_records S sha256 B plan before a).1 q ≡ S.read a.1 q
    unfolding after_records
    after_records-frame plan before (raised x, s) u = refl
    after_records-frame plan before (ok (t, code ∷ codes), s) u = refl
    after_records-frame plan before (ok (none, []), s) u = refl
    after_records-frame plan before (ok (some t, []), s) u =
        after_paths-frame plan before t s _ u refl

    -- Whatever the outcome, a path that is no planned index file and no target of the validated
    -- items keeps its bytes.
    pub execute_canonical_transaction-frame :
        (plan : Value) (before : List String) (s : S.State)
        → ((items : List Item)
            → validate_transaction_for_mutation plan ≡ ok (items, [])
            → Fresh q items)
        → ((indexes : Indexes)
            → Plans plan before (execute_record_mutations S sha256 plan s).1 indexes
            → Untouched q (sorted_items indexes))
        → S.read (execute_canonical_transaction S sha256 B plan before s).1 q ≡ S.read s q
    execute_canonical_transaction-frame plan before s fresh u =
        rw execute_canonical_transaction_lem (
          after_records-frame plan before (execute_record_mutations S sha256 plan s) u
          ∙ execute-frame S framed sha256 plan s q fresh)

    -- After the record mutation only the planned index files change.
    pub execute_canonical_transaction-indexes :
        (plan : Value) (before : List String) (s : S.State)
        → ((indexes : Indexes)
            → Plans plan before (execute_record_mutations S sha256 plan s).1 indexes
            → Untouched q (sorted_items indexes))
        → S.read (execute_canonical_transaction S sha256 B plan before s).1 q
          ≡ S.read (execute_record_mutations S sha256 plan s).1 q
    execute_canonical_transaction-indexes plan before s u =
        rw execute_canonical_transaction_lem
          (after_records-frame plan before (execute_record_mutations S sha256 plan s) u)

  -- A report that says `PREWRITE_ABORT`.
  abbrev Aborted : TransactionReport → Type 0
  Aborted r = r.state ≡ stopped prewrite_abort

  -- An answer with another state is no abort.
  differs :
      (x r : TransactionReport) (cs codes : List String)
      → ◌≡◌ {A = Outcome S sha256 B} (ok (x, cs)) (ok (r, codes))
      → (x.state ≡ stopped prewrite_abort → ⊥)
      → Aborted r
      → ⊥
  differs x r cs codes h apart a =
      apart (ap (λ (y : TransactionReport × List String). y.0.state) (ok-injective h) ∙ a)

  recovery-ne-abort : stopped recovery_required ≡ stopped prewrite_abort → ⊥
  recovery-ne-abort e = cc e

  verified-ne-abort : canonical_state_verified ≡ stopped prewrite_abort → ⊥
  verified-ne-abort e = cc e

  concluded-ne-abort :
      (t : Report) (u : IndexReport) (n : ℕ) (indexes : Indexes) (found codes : List String)
      (r : TransactionReport)
      → concluded S sha256 B t u n indexes found ≡ ok (r, codes)
      → Aborted r
      → ⊥
  unfolding concluded stop
  concluded-ne-abort t u n indexes (code ∷ more) codes r h = differs _ r _ codes h recovery-ne-abort
  concluded-ne-abort t u n indexes [] codes r h = differs _ r _ codes h verified-ne-abort

  after_indexes-ne-abort :
      (plan : Value) (t : Report) (n : ℕ) (indexes : Indexes)
      (a : (IndexReport × List String) × S.State) (codes : List String) (r : TransactionReport)
      → (after_indexes S sha256 B plan t n indexes a).0 ≡ ok (r, codes)
      → Aborted r
      → ⊥
  unfolding after_indexes stop conclude
  after_indexes-ne-abort plan t n indexes ((u, code ∷ more), s) codes r h =
      differs _ r _ codes h recovery-ne-abort
  after_indexes-ne-abort plan t n indexes ((u, []), s) codes r h =
      let (found, checked, end) = >>=-ok (verify_transaction_targets S plan s) _ h in
      concluded-ne-abort t u n indexes _ codes r end

  after_plan-ne-abort :
      (plan : Value) (t : Report) (s : S.State)
      (p : Option Indexes × List LibraryRecord × List String) (codes : List String)
      (r : TransactionReport)
      → (after_plan S sha256 B plan t s p).0 ≡ ok (r, codes)
      → Aborted r
      → ⊥
  unfolding after_plan stop
  after_plan-ne-abort plan t s (indexes, records, code ∷ more) codes r h =
      differs _ r _ codes h recovery-ne-abort
  after_plan-ne-abort plan t s (none, records, []) codes r h =
      differs _ r _ codes h recovery-ne-abort
  after_plan-ne-abort plan t s (some indexes, records, []) codes r h =
      after_indexes-ne-abort plan t _ indexes _ codes r h

  after_paths-ne-abort :
      (plan : Value) (t : Report) (s : S.State) (p : Result (List String)) (codes : List String)
      (r : TransactionReport)
      → (after_paths S sha256 B plan t s p).0 ≡ ok (r, codes)
      → Aborted r
      → ⊥
  unfolding after_paths
  after_paths-ne-abort plan t s (raised x) codes r h = cc
  after_paths-ne-abort plan t s (ok paths) codes r h = after_plan-ne-abort plan t s _ codes r h

  abbrev untag : TransactionState → MutationState
  untag (stopped m) = m
  untag canonical_state_verified = recovery_required

  after_records_unchanged :
      (plan : Value) (before : List String) (s : S.State) (a : Mutations.Answer × S.State)
      (codes : List String) (r : TransactionReport)
      → ((t : Option Report) (more : List String)
          → a.0 ≡ ok (t, more)
          → (t ≡ none) ⊎ ((u : Report) × (t ≡ some u) × (u.state ≡ prewrite_abort))
          → a.1 ≡ s)
      → (after_records S sha256 B plan before a).0 ≡ ok (r, codes)
      → Aborted r
      → (after_records S sha256 B plan before a).1 ≡ s
  unfolding after_records state_of stop
  after_records_unchanged plan before s (raised x, s') codes r same h a = cc
  after_records_unchanged plan before s (ok (none, code ∷ more), s') codes r same h a =
      same none (code ∷ more) refl (inl refl)
  after_records_unchanged plan before s (ok (some t, code ∷ more), s') codes r same h a =
      let aborted =
        ap untag (ap (λ (y : TransactionReport × List String). y.0.state) (ok-injective h) ∙ a) in
      same (some t) (code ∷ more) refl (inr (t, refl, aborted))
  after_records_unchanged plan before s (ok (none, []), s') codes r same h a =
      same none [] refl (inl refl)
  after_records_unchanged plan before s (ok (some t, []), s') codes r same h a =
      absurd (after_paths-ne-abort plan t s' _ codes r h a)

  -- A transaction whose report says `PREWRITE_ABORT` leaves the storage exactly as it was, so that
  -- there is nothing to recover.
  pub execute_canonical_transaction_unchanged :
      (plan : Value) (before : List String) (s : S.State) (codes : List String)
      (r : TransactionReport)
      → (execute_canonical_transaction S sha256 B plan before s).0 ≡ ok (r, codes)
      → r.state ≡ stopped prewrite_abort
      → (execute_canonical_transaction S sha256 B plan before s).1 ≡ s
  execute_canonical_transaction_unchanged plan before s codes r h a =
      rw execute_canonical_transaction_lem (
        after_records_unchanged plan before s _ codes r
          (λ t more. execute_unchanged S sha256 plan s t more)
          (rw execute_canonical_transaction_lem at h) a)
