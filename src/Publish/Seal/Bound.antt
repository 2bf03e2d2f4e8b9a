-- ===== src/Publish/Seal/Bound.antt =====
-- `bind_expected_post_hashes` of src/candidate_controlled_publish.py where it reports no error.
use technology_library_inges.Base.{
  Bool, String, ◌≡◌, refl, ap, ◌∙◌, true, false, Option, none, some, List, [], ◌∷◌, All, Result, ok,
  >>=-ok, ok-injective,
}
use technology_library_inges.Json.{Value}
use technology_library_inges.Storage.{Bytes, Storage, Sha256}
use technology_library_inges.Mutation.Validate.{Item}
use technology_library_inges.Mutation.Execute.{Expected, Preflight, preflight_record_mutations}
use technology_library_inges.Transaction.Indexes.{
  IndexBuilder, Indexes, LibraryRecord, build_index_plan,
}
use technology_library_inges.Transaction.Engine.{post_transaction_record_paths}
use technology_library_inges.Recovery.Journal.{Row, rows_of}
use technology_library_inges.Prewrite.Capture.{Captured}
use technology_library_inges.Prewrite.Arm.Verified.{Faithful}
use technology_library_inges.Prewrite.Arm.Persisted.{Listed}
use technology_library_inges.Publish.Seal.{
  read_over, predict, seal, sealed_or_missing, bind_indexes, bind_targets,
  bind_expected_post_hashes, Bound,
}
use technology_library_inges.Publish.Seal.Kept.{Pairs, Seals, seal-Listed}

module _ (S : Storage) (sha256 : Sha256) (B : IndexBuilder) where
  -- The contents that a run without errors has predicted: those of a preflight without errors, and
  -- of the index plan over them.
  abbrev pub Predicts : Value → List String → S.State → Expected → Indexes → Type 0
  Predicts transaction record_paths s targets indexes =
      (items : List Item) × (paths : List String) × (records : List LibraryRecord)
      × (preflight_record_mutations S sha256 transaction s ≡ ok (items, targets, []))
      × (post_transaction_record_paths transaction record_paths ≡ ok paths)
      × (build_index_plan B paths (read_over targets (S.read s)) ≡ (some indexes, records, []))

  bind_indexes-sealed :
      (journal j : Value) (targets : Expected)
      (p : Option Indexes × List LibraryRecord × List String)
      → bind_indexes S sha256 B journal targets p ≡ ok (j, [])
      → (indexes : Indexes) × (records : List LibraryRecord) × (p ≡ (some indexes, records, []))
        × (seal S sha256 B (predict indexes targets) journal ≡ ok (j, true))
  unfolding bind_indexes sealed_or_missing
  bind_indexes-sealed journal j targets (none, records, codes) h =
      cc (ap (λ (x : Value × List String). x.1) (ok-injective h))
  bind_indexes-sealed journal j targets (some indexes, records, code ∷ codes) h =
      cc (ap (λ (x : Value × List String). x.1) (ok-injective h))
  bind_indexes-sealed journal j targets (some indexes, records, []) h =
      let (sealed, is, end) = >>=-ok (seal S sha256 B (predict indexes targets) journal) _ h in
      (indexes, records, refl, is ∙ ap ok (complete sealed end))
    where
      complete :
          (sealed : Value × Bool)
          → ◌≡◌ {A = Result (Bound S sha256 B)}
              (ok (sealed_or_missing S sha256 B sealed))
              (ok (j, []))
          → sealed ≡ (j, true)
      complete (journal', true) e = ap (λ (x : Value × List String). (x.0, true)) (ok-injective e)
      complete (journal', false) e = cc (ap (λ (x : Value × List String). x.1) (ok-injective e))

  bind_targets-sealed :
      (journal transaction j : Value) (record_paths : List String) (s : S.State)
      (preflight : Preflight S sha256)
      → preflight_record_mutations S sha256 transaction s ≡ ok preflight
      → bind_targets S sha256 B journal transaction record_paths s preflight ≡ ok (j, [])
      → (targets : Expected) × (indexes : Indexes) × Predicts transaction record_paths s targets
          indexes
        × (seal S sha256 B (predict indexes targets) journal ≡ ok (j, true))
  unfolding bind_targets
  bind_targets-sealed journal transaction j record_paths s (items, targets, code ∷ codes) e h =
      cc (ap (λ (x : Value × List String). x.1) (ok-injective h))
  bind_targets-sealed journal transaction j record_paths s (items, targets, []) e h =
      let (paths, after, h1) =
        >>=-ok (post_transaction_record_paths transaction record_paths) _ h in
      let (indexes, records, planned, sealed) = bind_indexes-sealed journal j targets _ h1 in
      (targets, indexes, (items, paths, records, e, after, planned), sealed)

  bind_expected_post_hashes_lem :
      (journal transaction j : Value) (record_paths : List String) (s : S.State)
      → bind_expected_post_hashes S sha256 B journal transaction record_paths s ≡ ok (j, [])
      → (preflight : Preflight S sha256) × (preflight_record_mutations S sha256 transaction s
          ≡ ok preflight)
        × (bind_targets S sha256 B journal transaction record_paths s preflight ≡ ok (j, []))
  unfolding bind_expected_post_hashes
  bind_expected_post_hashes_lem journal transaction j record_paths s h =
      >>=-ok (preflight_record_mutations S sha256 transaction s) _ h

  -- A journal that is bound: row by row it tells the same, and the digest of the predicted content.
  pub bind_expected_post_hashes-Listed :
      (journal transaction j : Value) (record_paths : List String) (s : S.State)
      (es is : List Value)
      → Listed journal es is
      → bind_expected_post_hashes S sha256 B journal transaction record_paths s ≡ ok (j, [])
      → (targets : Expected) × (indexes : Indexes) × Predicts transaction record_paths s targets
          indexes
        × ((es' : List Value) × (is' : List Value) × Listed j es' is'
            × Pairs (Seals sha256 (predict indexes targets)) (rows_of journal) (rows_of j))
  bind_expected_post_hashes-Listed journal transaction j record_paths s es is listed h =
      let (preflight, e, h1) =
        bind_expected_post_hashes_lem journal transaction j record_paths s h in
      let (targets, indexes, predicts, sealed) =
        bind_targets-sealed journal transaction j record_paths s preflight e h1 in
      let (es', is', listed', pairs) =
        seal-Listed sha256 (predict indexes targets) S B journal j es is listed sealed in
      (targets, indexes, predicts, (es', is', listed', rw (listed.3, listed'.3) pairs))

  Seals-Faithful :
      (predicted : String → Option Bytes) (before : Captured) (s : S.State) (row row' : Row)
      → Seals sha256 predicted row row'
      → Faithful S before s row
      → Faithful S before s row'
  Seals-Faithful predicted before s row row' (_, path, existed, snapshot) (captured, (told, has)) =
      rw (path, existed, snapshot) (captured, (told, has))

  pub Pairs-Faithful :
      (predicted : String → Option Bytes) (before : Captured) (s : S.State) (rows rows' : List Row)
      → Pairs (Seals sha256 predicted) rows rows'
      → All (Faithful S before s) rows
      → All (Faithful S before s) rows'
  Pairs-Faithful predicted before s [] [] pairs f = tt
  Pairs-Faithful predicted before s (row ∷ rows) (row' ∷ rows') (p, ps) (one, f) = (
    Seals-Faithful predicted before s row row' p one,
    Pairs-Faithful predicted before s rows rows' ps f,
  )
  Pairs-Faithful predicted before s [] (row' ∷ rows') pairs f = absurd pairs
  Pairs-Faithful predicted before s (row ∷ rows) [] pairs f = absurd pairs
