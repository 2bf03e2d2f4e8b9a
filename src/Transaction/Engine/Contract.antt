-- ===== src/Transaction/Engine/Contract.antt =====
-- The contract of `execute_canonical_transaction` of src/candidate_canonical_transaction_engine.py.
pub mod Frame
pub mod Restored
pub mod Outside
use technology_library_inges.Base.{
  ℕ, suc, String, ◌<>◌, ◌≡◌, ◌≢◌, refl, ap, sym, ◌∙◌, Bool, true, false, not, ◌&&◌, ◌||◌, Option,
  none, some, List, [], ◌∷◌, ◌++◌, ◌⊎◌, inl, inr, str_eq, if◌then◌else◌, is_empty, sorted_set,
  sorted_set-eq-nil, append-eq-nil, All, Bool-cases, arith, Result, ok, raised, ◌>>=◌, >>=-ok,
  ok-injective,
}
use technology_library_inges.Json.{Value, null, bool, int, str, arr, obj, get, is_dict}
use technology_library_inges.Storage.{Bytes, Storage, Sha256, IsFramed, holds, holds→eq}
use technology_library_inges.Mutation.Validate.{Item, validate_transaction_for_mutation}
use technology_library_inges.Mutation.Validate.Targets.{Fresh}
use technology_library_inges.Mutation.Execute.{
  MutationState, prewrite_abort, recovery_required, Report, execute_record_mutations,
}
use technology_library_inges.Mutation.Execute as Mutations
use technology_library_inges.Mutation.Execute.Contract.{
  Completed, execute-Published, execute-frame, execute_unchanged,
}
use technology_library_inges.Transaction.Indexes.{
  IndexBuilder, Indexes, IndexReport, LibraryRecord, is_index_target, build_index_plan,
  apply_index_plan, verify_index_state, sorted_items,
}
use technology_library_inges.Transaction.Indexes.Contract.{
  Standing, verify_index_state-Standing, apply_index_plan-frame,
}
use technology_library_inges.Transaction.Engine.{
  TransactionReport, TransactionState, stopped, canonical_state_verified, plan_items,
  post_transaction_record_paths, verify_transaction_targets, compare_target, target_codes,
  item_codes, target_mismatches, Outcome, state_of, stop, concluded, conclude, after_indexes,
  after_plan, after_paths, after_records, execute_canonical_transaction,
  execute_canonical_transaction_lem,
}

module _ (S : Storage) where
  -- The item's content stands at its target.
  abbrev pub Stands : S.State → Value → Type 0
  Stands s item =
      (target : String) × (content : String) × (b : Bytes) × (get "target_path" item ≡ str target)
      × (get "content_path" item ≡ str content)
      × (S.read s content ≡ some b)
      × (S.read s target ≡ some b)

  compare_target-eq :
      (i : ℕ) (expected actual : Option Bytes)
      → compare_target S i expected actual ≡ []
      → (b : Bytes) × (expected ≡ some b) × (actual ≡ some b)
  unfolding compare_target
  compare_target-eq i none actual h = cc
  compare_target-eq i (some b) actual h = elim (Bool-cases (holds actual b)) [
    | inl same ↦ (b, refl, holds→eq actual b same)
    | inr differ ↦ cc (rw differ at h)
  ]

  target_codes-Stands :
      (i : ℕ) (t c item : Value) (s : S.State)
      → get "target_path" item ≡ t
      → get "content_path" item ≡ c
      → target_codes S i t c s ≡ []
      → Stands s item
  unfolding target_codes
  target_codes-Stands i (str target) (str content) item s t c h =
      let (b, there, here) = compare_target-eq i _ _ h in (target, content, b, t, c, there, here)
  target_codes-Stands i t c item s e f h = cc

  item_codes-Stands :
      (i : ℕ) (item : Value) (s : S.State) → item_codes S i item s ≡ [] → Stands s item
  unfolding item_codes
  item_codes-Stands i item s h = elim (Bool-cases (is_dict item)) [
    | inl d ↦ target_codes-Stands i _ _ item s refl refl (rw d at h)
    | inr d ↦ cc (rw d at h)
  ]

  target_mismatches-Stands :
      (i : ℕ) (items : List Value) (s : S.State)
      → target_mismatches S i items s ≡ []
      → All (Stands s) items
  unfolding target_mismatches
  target_mismatches-Stands i [] s h = tt
  target_mismatches-Stands i (item ∷ items) s h =
      let (one, rest) = append-eq-nil _ _ h in
      (item_codes-Stands i item s one, target_mismatches-Stands (suc i) items s rest)

  verify_transaction_targets-Stands :
      (plan : Value) (s : S.State) (codes : List String)
      → verify_transaction_targets S plan s ≡ ok codes
      → codes ≡ []
      → (items : List Value) × (plan_items plan ≡ ok items) × All (Stands s) items
  unfolding verify_transaction_targets
  verify_transaction_targets-Stands plan s codes h e =
      let (items, is, sorted) = >>=-ok (plan_items plan) _ h in
      (
        items,
        is,
        target_mismatches-Stands 0 items s (sorted_set-eq-nil _ (ok-injective sorted ∙ e)),
      )

module _ (S : Storage) (framed : IsFramed S) (sha256 : Sha256) (B : IndexBuilder) where
  -- What the engine's success says of the plan, of the storage `s` that it found, of the one that it
  -- leaves, and of its report.
  abbrev pub Committed : Value → List String → S.State → S.State → TransactionReport → Type 0
  Committed plan before s s' r =
      (r.state ≡ canonical_state_verified)
      × ((t : Report) × (r.record_report ≡ some t)
          × ((mid : S.State) × (mid ≡ (execute_record_mutations S sha256 plan s).1)
              × Completed S sha256 plan s mid (some t)
              × ((paths : List String) × (indexes : Indexes) × (records : List LibraryRecord)
                  × (post_transaction_record_paths plan before ≡ ok paths)
                  × (build_index_plan B paths (S.read mid) ≡ (some indexes, records, []))
                  × Standing S s' (sorted_items indexes)))
          × ((items : List Value) × (plan_items plan ≡ ok items) × All (Stands S s') items))

  -- The last two stages, from the storage with the index files written.
  abbrev Concluded : Value → Report → Indexes → S.State → TransactionReport → Type 0
  Concluded plan t indexes s' r =
      (r.state ≡ canonical_state_verified)
      × (r.record_report ≡ some t)
      × Standing S s' (sorted_items indexes)
      × ((items : List Value) × (plan_items plan ≡ ok items) × All (Stands S s') items)

  concluded-verified :
      (t : Report) (u : IndexReport) (n : ℕ) (indexes : Indexes) (codes : List String)
      (r : TransactionReport)
      → concluded S sha256 B t u n indexes codes ≡ ok (r, [])
      → (codes ≡ []) × (r.state ≡ canonical_state_verified) × (r.record_report ≡ some t)
  unfolding concluded
  concluded-verified t u n indexes (code ∷ codes) r h = absurd (
      sorted_set-ne code codes (ap (λ (x : TransactionReport × List String). x.1) (ok-injective h)))
    where
      sorted_set-ne : (code : String) (codes : List String) → sorted_set (code ∷ codes) ≡ [] → ⊥
      sorted_set-ne code codes e = cc (sorted_set-eq-nil (code ∷ codes) e)
  concluded-verified t u n indexes [] r h =
      let is = ap (λ (x : TransactionReport × List String). x.0) (ok-injective h) in
      (
        refl,
        ap (λ (x : TransactionReport). x.state) (sym is),
        ap (λ (x : TransactionReport). x.record_report) (sym is),
      )

  conclude-Concluded :
      (plan : Value) (t : Report) (u : IndexReport) (n : ℕ) (indexes : Indexes) (s : S.State)
      (r : TransactionReport)
      → conclude S sha256 B plan t u n indexes s ≡ ok (r, [])
      → Concluded plan t indexes s r
  unfolding conclude
  conclude-Concluded plan t u n indexes s r h =
      let (codes, checked, end) = >>=-ok (verify_transaction_targets S plan s) _ h in
      let (none_left, state, records) = concluded-verified t u n indexes _ r end in
      let (targets, files) = append-eq-nil codes (verify_index_state S indexes s) none_left in
      (
        state,
        records,
        verify_index_state-Standing S indexes s files,
        verify_transaction_targets-Stands S plan s codes checked targets,
      )

  after_indexes-Concluded :
      (plan : Value) (t : Report) (n : ℕ) (indexes : Indexes)
      (a : (IndexReport × List String) × S.State) (r : TransactionReport)
      → (after_indexes S sha256 B plan t n indexes a).0 ≡ ok (r, [])
      → Concluded plan t indexes (after_indexes S sha256 B plan t n indexes a).1 r
  unfolding after_indexes
  after_indexes-Concluded plan t n indexes ((u, code ∷ codes), s) r h =
      cc (ap (λ (x : TransactionReport × List String). x.1) (ok-injective h))
  after_indexes-Concluded plan t n indexes ((u, []), s) r h =
      conclude-Concluded plan t u n indexes s r h

  after_plan-Concluded :
      (plan : Value) (t : Report) (s : S.State)
      (p : Option Indexes × List LibraryRecord × List String) (r : TransactionReport)
      → (after_plan S sha256 B plan t s p).0 ≡ ok (r, [])
      → (indexes : Indexes) × (records : List LibraryRecord) × (p ≡ (some indexes, records, []))
        × Concluded plan t indexes (after_plan S sha256 B plan t s p).1 r
  unfolding after_plan
  after_plan-Concluded plan t s (indexes, records, code ∷ codes) r h =
      cc (ap (λ (x : TransactionReport × List String). x.1) (ok-injective h))
  after_plan-Concluded plan t s (none, records, []) r h =
      cc (ap (λ (x : TransactionReport × List String). x.1) (ok-injective h))
  after_plan-Concluded plan t s (some indexes, records, []) r h =
      (indexes, records, refl, after_indexes-Concluded plan t _ indexes _ r h)

  after_paths-Committed :
      (plan : Value) (before : List String) (t : Report) (s mid : S.State)
      (p : Result (List String)) (r : TransactionReport)
      → mid ≡ (execute_record_mutations S sha256 plan s).1
      → Completed S sha256 plan s mid (some t)
      → post_transaction_record_paths plan before ≡ p
      → (after_paths S sha256 B plan t mid p).0 ≡ ok (r, [])
      → Committed plan before s (after_paths S sha256 B plan t mid p).1 r
  unfolding after_paths
  after_paths-Committed plan before t s mid (raised x) r here done e h = cc
  after_paths-Committed plan before t s mid (ok paths) r here done e h =
      let (indexes, records, planned, concluded) =
        after_plan-Concluded plan t mid (build_index_plan B paths (S.read mid)) r h in
      let (state, report, files, items) = concluded in
      (state, (t, report, (mid, here, done, (paths, indexes, records, e, planned, files)), items))

  after_records-Committed :
      (plan : Value) (before : List String) (s : S.State) (a : Mutations.Answer × S.State)
      (r : TransactionReport)
      → a.1 ≡ (execute_record_mutations S sha256 plan s).1
      → ((t : Option Report) → a.0 ≡ ok (t, []) → Completed S sha256 plan s a.1 t)
      → (after_records S sha256 B plan before a).0 ≡ ok (r, [])
      → Committed plan before s (after_records S sha256 B plan before a).1 r
  unfolding after_records
  after_records-Committed plan before s (raised x, s') r here done h = cc
  after_records-Committed plan before s (ok (t, code ∷ codes), s') r here done h =
      cc (ap (λ (x : TransactionReport × List String). x.1) (ok-injective h))
  after_records-Committed plan before s (ok (none, []), s') r here done h =
      cc (ap (λ (x : TransactionReport × List String). x.1) (ok-injective h))
  after_records-Committed plan before s (ok (some t, []), s') r here done h =
      after_paths-Committed plan before t s s' _ r here (done (some t) refl) refl h

  -- Over a storage whose writes and deletes leave the other paths alone: a transaction that
  -- reports no error says `CANONICAL_STATE_VERIFIED`. Its record mutation went through from the
  -- storage that it found. The index files were planned from the record paths of the plan over
  -- the storage that the mutation left. In the storage that it leaves, every index file holds its
  -- planned bytes, and the content of every item of the plan stands at its target.
  pub execute_canonical_transaction-Committed :
      (plan : Value) (before : List String) (s : S.State) (r : TransactionReport)
      → (execute_canonical_transaction S sha256 B plan before s).0 ≡ ok (r, [])
      → Committed plan before s (execute_canonical_transaction S sha256 B plan before s).1 r
  execute_canonical_transaction-Committed plan before s r h = rw execute_canonical_transaction_lem (
      after_records-Committed plan before s _ r refl (execute-Published S framed sha256 plan s)
        (rw execute_canonical_transaction_lem at h))
