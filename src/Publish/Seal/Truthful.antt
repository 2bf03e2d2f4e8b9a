-- ===== src/Publish/Seal/Truthful.antt =====
-- The digests that `bind_expected_post_hashes` of src/candidate_controlled_publish.py seals before
-- the transaction are those of the bytes that the transaction leaves.
use mathlib.Core.Option.{some-injective}
use technology_library_inges.Base.{
  String, str_eq, str_eq→eq, str_eq-false, ◌≡◌, ◌≢◌, refl, sym, ap, ◌∙◌, subst, true, Option, none,
  some, List, [], ◌∷◌, All, All-sort_by, sort_by-All, ok, ok-injective, Bool-cases, inl, inr, ◌⊎◌,
  starts_with,
}
use technology_library_inges.Json.{Value, get, str}
use technology_library_inges.Storage.{Bytes, Storage, Sha256, IsFramed}
use technology_library_inges.Mutation.Validate.{Item, validate_transaction_for_mutation}
use technology_library_inges.Mutation.Validate.Targets.{Fresh}
use technology_library_inges.Mutation.Execute.{Expected, execute_record_mutations}
use technology_library_inges.Mutation.Execute.Preflight.{
  Planned, preflight-Planned, preflight-Fresh,
}
use technology_library_inges.Mutation.Execute.Contract.{Published, execute-frame}
use technology_library_inges.Transaction.Indexes.{
  IndexBuilder, Indexes, LibraryRecord, build_index_plan, sorted_items,
}
use technology_library_inges.Transaction.Indexes.Contract.{Standing, Untouched}
use technology_library_inges.Transaction.Indexes.Local.{build_index_plan-same}
use technology_library_inges.Transaction.Engine.{
  TransactionReport, post_transaction_record_paths, execute_canonical_transaction,
}
use technology_library_inges.Transaction.Engine.Contract.{execute_canonical_transaction-Committed}
use technology_library_inges.Transaction.Engine.Contract.Frame.{
  execute_canonical_transaction-indexes,
}
use technology_library_inges.Recovery.Journal.{Row, rows_of, row_path}
use technology_library_inges.Prewrite.Arm.Persisted.{Listed}
use technology_library_inges.Publish.Seal.{read_over, predict, bind_expected_post_hashes}
use technology_library_inges.Publish.Seal.Kept.{Pairs, Seals}
use technology_library_inges.Publish.Seal.Bound.{Predicts, bind_expected_post_hashes-Listed}

-- The prediction of a path comes from an index file, or from the records if no index file has it.
predict-cases :
    (P : String × Bytes → Type 0) (indexes : Indexes) (targets : Expected) (q : String) (b : Bytes)
    → All P indexes
    → predict indexes targets q ≡ some b
    → P (q, b) ⊎ ((targets q ≡ some b) × All (λ (entry : String × Bytes). entry.0 ≢ q) indexes)
unfolding predict
predict-cases P [] targets q b all h = inr (h, tt)
predict-cases P ((p, c) ∷ indexes) targets q b (one, all) h = elim (Bool-cases (str_eq p q)) [
  | inl same ↦
      let found : c ≡ b = some-injective c b (rw same at h) in
      inl (rw (← str_eq→eq p q same) (rw (← found) one))
  | inr differ ↦ elim (predict-cases P indexes targets q b all (rw differ at h)) [
    | inl found ↦ inl found
    | inr (found, fresh) ↦ inr (found, (str_eq-false p q differ, fresh))
  ]
]

Fresh-Untouched :
    (q : String) (entries : Indexes)
    → All (λ (entry : String × Bytes). entry.0 ≢ q) entries
    → Untouched q entries
Fresh-Untouched q [] f = tt
Fresh-Untouched q (entry ∷ entries) (ne, f) = (λ h. ne, Fresh-Untouched q entries f)

module _ (S : Storage) (framed : IsFramed S) (sha256 : Sha256) where
  -- The contents of the items are read alike in the two storages.
  abbrev pub SameContents : S.State → S.State → List Item → Type 0
  SameContents s s' items =
      All (λ item. S.read s' item.content_path ≡ S.read s item.content_path) items

  -- What a target was planned to hold in `s` is what stands there after the mutation from `s1`.
  item-cases :
      (targets : Expected) (s s1 mid : S.State) (items : List Item) (q : String)
      → SameContents s s1 items
      → All (Planned S sha256 targets s) items
      → All (Published S sha256 s1 mid) items
      → ((b : Bytes) × (targets q ≡ some b) × (S.read mid q ≡ some b)) ⊎ Fresh q items
  item-cases targets s s1 mid [] q same planned done = inr tt
  item-cases targets s s1 mid (item ∷ items) q (one, same) ((b, there, prepared), planned)
        ((c, prepared', stands), done) =
      elim (Bool-cases (str_eq item.target_path q)) [
        | inl here ↦
            let at = str_eq→eq item.target_path q here in
            let equal : c ≡ b = some-injective c b (sym prepared'.0 ∙ one ∙ prepared.0) in
            inl (b, rw (← at) there, rw (← at) (rw (← equal) stands))
        | inr differ ↦ elim (item-cases targets s s1 mid items q same planned done) [
          | inl found ↦ inl found
          | inr fresh ↦ inr (λ e. str_eq-false item.target_path q differ (sym e), fresh)
        ]
      ]

read_over-some :
    (targets : Expected) (read : String → Option Bytes) (q : String) (b : Bytes)
    → targets q ≡ some b
    → read_over targets read q ≡ some b
unfolding read_over
read_over-some targets read q b h = rw (read_over, h) refl

read_over-none :
    (targets : Expected) (read : String → Option Bytes) (q : String)
    → targets q ≡ none
    → read_over targets read q ≡ read q
unfolding read_over
read_over-none targets read q h = rw (read_over, h) refl

sorted_items-Standing :
    (S : Storage) (s : S.State) (indexes : Indexes)
    → Standing S s (sorted_items indexes)
    → Standing S s indexes
unfolding sorted_items
sorted_items-Standing S s indexes standing =
    All-sort_by (λ (entry : String × Bytes). entry.0 ∷ [])
      (λ (entry : String × Bytes). S.read s entry.0 ≡ some entry.1) indexes standing

sorted_items-Untouched :
    (q : String) (indexes : Indexes)
    → All (λ (entry : String × Bytes). entry.0 ≢ q) indexes
    → Untouched q (sorted_items indexes)
unfolding sorted_items
sorted_items-Untouched q indexes f = Fresh-Untouched q _ (
    sort_by-All (λ (entry : String × Bytes). entry.0 ∷ []) (λ (entry : String × Bytes). entry.0 ≢ q)
      indexes f)

module _ (S : Storage) (framed : IsFramed S) (sha256 : Sha256) (B : IndexBuilder)
    (transaction : Value) (record_paths : List String) (s s1 : S.State) where
  -- The two storages agree on the library and on the contents of the items.
  abbrev pub Agrees : Type 0
  Agrees =
      ((p : String) → starts_with p "00_LIBRARY/" ≡ true → S.read s1 p ≡ S.read s p)
      × ((items : List Item)
          → validate_transaction_for_mutation transaction ≡ ok (items, [])
          → SameContents S framed sha256 s s1 items)

  module _ (targets : Expected) (indexes : Indexes) (agrees : Agrees)
      (predicts : Predicts S sha256 B transaction record_paths s targets indexes) where
    -- The mutated storage is read as the bind has read ahead of it.
    mutated-ahead :
        (items : List Item) (p : String)
        → validate_transaction_for_mutation transaction ≡ ok (items, [])
        → All (Planned S sha256 targets s) items
        → All (Published S sha256 s1 (execute_record_mutations S sha256 transaction s1).1) items
        → starts_with p "00_LIBRARY/" ≡ true
        → (Fresh p items → targets p ≡ none)
        → read_over targets (S.read s) p
          ≡ S.read (execute_record_mutations S sha256 transaction s1).1 p
    mutated-ahead items p valid planned published library absent =
        elim (item-cases S framed sha256 targets s s1 _ items p (agrees.1 items valid) planned
          published) [
            | inl (b, there, stands) ↦ read_over-some targets (S.read s) p b there ∙ sym stands
            | inr fresh ↦
                read_over-none targets (S.read s) p (absent fresh)
                ∙ sym (agrees.0 p library)
                ∙ sym (
                    execute-frame S framed sha256 transaction s1 p (λ items' valid'.
                      subst (λ (x : List Item). Fresh p x)
                        (ap (λ (x : List Item × List String). x.0)
                          (ok-injective (sym valid ∙ valid')))
                        fresh))
          ]

    -- The index plan of the run is the predicted one.
    planned-ahead :
        (items : List Item) (paths' : List String) (indexes' : Indexes)
        (records' : List LibraryRecord)
        → validate_transaction_for_mutation transaction ≡ ok (items, [])
        → All (Published S sha256 s1 (execute_record_mutations S sha256 transaction s1).1) items
        → post_transaction_record_paths transaction record_paths ≡ ok paths'
        → build_index_plan B paths' (S.read (execute_record_mutations S sha256 transaction s1).1)
          ≡ (some indexes', records', [])
        → indexes ≡ indexes'
    planned-ahead items paths' indexes' records' valid published after' planned' =
        let (rows, paths, records, clean, after, planned) = predicts in
        let (valid0, distinct, ready) =
          preflight-Planned S sha256 transaction s rows targets clean in
        let rows_are : rows ≡ items =
          ap (λ (x : List Item × List String). x.0) (ok-injective (sym valid0 ∙ valid)) in
        let paths_are : paths ≡ paths' = ok-injective (sym after ∙ after') in
        let ready' : All (Planned S sha256 targets s) items =
          subst (λ (x : List Item). All (Planned S sha256 targets s) x) rows_are ready in
        let same =
          build_index_plan-same B (read_over targets (S.read s))
            (S.read (execute_record_mutations S sha256 transaction s1).1)
            (λ p library. mutated-ahead items p valid ready' published library (λ fresh.
              preflight-Fresh S sha256 transaction s rows targets p clean
                (subst (λ (x : List Item). Fresh p x) (sym rows_are) fresh)))
            paths' in
        some-injective _ _ (
          ap (λ (x : Option Indexes × List LibraryRecord × List String). x.0)
            (sym (rw paths_are at planned) ∙ same ∙ planned'))

    -- Where the mutation has left a predicted content that no index file replaces.
    left-alone :
        (items : List Item) (q : String) (b : Bytes)
        → validate_transaction_for_mutation transaction ≡ ok (items, [])
        → All (Published S sha256 s1 (execute_record_mutations S sha256 transaction s1).1) items
        → targets q ≡ some b
        → S.read (execute_record_mutations S sha256 transaction s1).1 q ≡ some b
    left-alone items q b valid published there =
        let (rows, paths, records, clean, after, planned) = predicts in
        let (valid0, distinct, ready) =
          preflight-Planned S sha256 transaction s rows targets clean in
        let rows_are : rows ≡ items =
          ap (λ (x : List Item × List String). x.0) (ok-injective (sym valid0 ∙ valid)) in
        elim (item-cases S framed sha256 targets s s1 _ items q (agrees.1 items valid)
          (subst (λ (x : List Item). All (Planned S sha256 targets s) x) rows_are ready)
          published) [
            | inl (c, expected, stands) ↦ stands ∙ sym expected ∙ there
            | inr fresh ↦ cc (
              preflight-Fresh S sha256 transaction s rows targets q clean
                  (subst (λ (x : List Item). Fresh q x) (sym rows_are) fresh),
              there,
            )
          ]

    predicted-left :
        (r : TransactionReport) (q : String) (b : Bytes)
        → (execute_canonical_transaction S sha256 B transaction record_paths s1).0 ≡ ok (r, [])
        → predict indexes targets q ≡ some b
        → S.read (execute_canonical_transaction S sha256 B transaction record_paths s1).1 q ≡ some b
    predicted-left r q b done predicted =
        let (
          state,
          (
            t,
            reported,
            (
              mid,
              mid_is,
              (items, valid, published', counted),
              (paths', indexes', records', after', planned', files),
            ),
            stand,
          ),
        ) =
          execute_canonical_transaction-Committed S framed sha256 B transaction record_paths s1 r
            done in
        let published : All
            (Published S sha256 s1 (execute_record_mutations S sha256 transaction s1).1) items =
          subst (λ (x : S.State). All (Published S sha256 s1 x) items) mid_is published' in
        let same : indexes ≡ indexes' =
          planned-ahead items paths' indexes' records' valid published after'
            (rw (← mid_is) planned') in
        let standing = sorted_items-Standing S _ indexes (rw same files) in
        elim (predict-cases
          (λ (entry : String × Bytes).
            S.read (execute_canonical_transaction S sha256 B transaction record_paths s1).1 entry.0
            ≡ some entry.1)
          indexes targets q b standing predicted) [
            | inl there ↦ there
            | inr (there, fresh) ↦
                execute_canonical_transaction-indexes S sha256 B framed q transaction record_paths
                  s1
                  (λ indexes3 plans.
                    let (paths3, records3, after3, planned3) = plans in
                    subst (λ (x : Indexes). Untouched q (sorted_items x))
                      (planned-ahead items paths3 indexes3 records3 valid published after3 planned3)
                      (sorted_items-Untouched q indexes fresh))
                ∙ left-alone items q b valid published there
          ]

    left-All :
        (r : TransactionReport) (rows rows' : List Row)
        → (execute_canonical_transaction S sha256 B transaction record_paths s1).0 ≡ ok (r, [])
        → Pairs (Seals sha256 (predict indexes targets)) rows rows'
        → All
            (λ row.
              (b : Bytes) × (S.read
                  (execute_canonical_transaction S sha256 B transaction record_paths s1).1
                  (row_path row)
                ≡ some b)
              × (get "after_sha256" row.1 ≡ str (sha256 b)))
            rows'
    left-All r [] [] done pairs = tt
    left-All r (row ∷ rows) (row' ∷ rows') done
          (((b, predicted, digest), path, existed, snapshot), ps) =
        (
          (b, rw path (predicted-left r (row_path row) b done predicted), digest),
          left-All r rows rows' done ps,
        )
    left-All r [] (row' ∷ rows') done pairs = absurd pairs
    left-All r (row ∷ rows) [] done pairs = absurd pairs

  -- Over a storage whose writes and deletes leave the other paths alone: a journal whose rows stand
  -- in its lists is bound in `s` without an error, and then the transaction runs from `s1`, which
  -- has the same library and the same contents of the items. If the transaction reports no error,
  -- every row of the bound journal names the digest of the bytes that now stand at its path: what
  -- was predicted before the first write is what the transaction has left.
  pub bind_expected_post_hashes-truthful :
      (journal bound : Value) (es is : List Value) (r : TransactionReport)
      → Listed journal es is
      → bind_expected_post_hashes S sha256 B journal transaction record_paths s ≡ ok (bound, [])
      → Agrees
      → (execute_canonical_transaction S sha256 B transaction record_paths s1).0 ≡ ok (r, [])
      → All
          (λ row.
            (b : Bytes) × (S.read
                (execute_canonical_transaction S sha256 B transaction record_paths s1).1
                (row_path row)
              ≡ some b)
            × (get "after_sha256" row.1 ≡ str (sha256 b)))
          (rows_of bound)
  bind_expected_post_hashes-truthful journal bound es is r listed sealed agrees done =
      let (targets, indexes, predicts, (es', is', listed', pairs)) =
        bind_expected_post_hashes-Listed S sha256 B journal transaction bound record_paths s es is
          listed sealed in
      left-All targets indexes agrees predicts r (rows_of journal) (rows_of bound) done pairs
