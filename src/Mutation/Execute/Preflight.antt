-- ===== src/Mutation/Execute/Preflight.antt =====
-- What a clean preflight has read: the content of each item, with its planned digest, and a target
-- in the state that the action wants.
use technology_library_inges.Base.{
  ℕ, suc, String, ◌≡◌, refl, ap, sym, ◌∙◌, subst, ◌≢◌, true, Option, none, some, List, [], ◌∷◌, All,
  ok, ok-injective, >>=-ok, Bool-cases, inl, inr, arith, str_eq→eq, str_eq_refl, sorted_set-eq-nil,
  append-eq-nil,
}
use technology_library_inges.Json.{Value, eq_str}
use technology_library_inges.Storage.{Bytes, Storage, Sha256, holds→eq}
use technology_library_inges.Mutation.Validate.{
  Action, create, update, unchanged, Item, Scan, validate_transaction_for_mutation,
}
use technology_library_inges.Mutation.Validate.Targets.{Fresh, Distinct, validate-Good}
use technology_library_inges.Mutation.Execute.{
  Expected, expect, Preflight, target_errors, check_content, preflight_items, preflight_scan,
  preflight_record_mutations,
}

module _ (S : Storage) (sha256 : Sha256) where
  -- The precondition of an action, of the target's bytes.
  abbrev pub Ready : Action → Value → Bytes → Option Bytes → Type 0
  Ready create base content current = current ≡ none
  Ready update base content current =
      (old : Bytes) × (current ≡ some old) × (eq_str base (sha256 old) ≡ true)
  Ready unchanged base content current = current ≡ some content

  target_errors-Ready :
      (i : ℕ) (a : Action) (base : Value) (content : Bytes) (current : Option Bytes)
      → target_errors S sha256 i a base content current ≡ []
      → Ready a base content current
  unfolding target_errors
  target_errors-Ready i create base content none h = refl
  target_errors-Ready i create base content (some b) h = cc
  target_errors-Ready i update base content none h = cc
  target_errors-Ready i update base content (some b) h = (b, refl, ground arith)
  target_errors-Ready i unchanged base content current h = ground (arith, holds→eq current content)

  -- An item whose content has the planned digest, with a target that is ready for it.
  abbrev pub Prepared : S.State → Item → Bytes → Type 0
  Prepared s item b =
      (S.read s item.content_path ≡ some b)
      × (eq_str item.content_sha256 (sha256 b) ≡ true)
      × Ready item.action item.base_sha256 b (S.read s item.target_path)

  check_content_clean :
      (i : ℕ) (item : Item) (s : S.State) (o : Option Bytes)
      → S.read s item.content_path ≡ o
      → (check_content S sha256 i item s o).1 ≡ []
      → (b : Bytes) × ((check_content S sha256 i item s o).0 ≡ some b) × Prepared s item b
  unfolding check_content
  check_content_clean i item s none e h = cc
  check_content_clean i item s (some b) e h =
      elim (Bool-cases (eq_str item.content_sha256 (sha256 b))) [
        | inl same ↦ (
          b,
          rw same,
          (e, same, target_errors-Ready i item.action item.base_sha256 b _ (rw same at h)),
        )
        | inr differ ↦ ground arith
      ]

  expect-other : (p q : String) (o : Option Bytes) (e : Expected) → q ≢ p → expect p o e q ≡ e q
  expect-other p q none e n = refl
  expect-other p q (some b) e n = ground (arith, str_eq→eq p q)

  preflight_items-other :
      (i : ℕ) (e : Expected) (items : List Item) (s : S.State) (q : String)
      → Fresh q items
      → (preflight_items S sha256 i e items s).0 q ≡ e q
  unfolding preflight_items
  preflight_items-other i e [] s q f = refl
  preflight_items-other i e (item ∷ items) s q (n, f) =
      preflight_items-other (suc i) _ items s q f ∙ expect-other item.target_path q _ e n

  abbrev pub Planned : Expected → S.State → Item → Type 0
  Planned e s item = (b : Bytes) × (e item.target_path ≡ some b) × Prepared s item b

  preflight_items-Planned :
      (i : ℕ) (e : Expected) (items : List Item) (s : S.State)
      → Distinct items
      → (preflight_items S sha256 i e items s).1 ≡ []
      → All (Planned (preflight_items S sha256 i e items s).0 s) items
  unfolding preflight_items
  preflight_items-Planned i e [] s d h = tt
  preflight_items-Planned i e (item ∷ items) s (f, d) h =
      let (none_here, none_later) =
        append-eq-nil (check_content S sha256 i item s (S.read s item.content_path)).1 _ h in
      let (b, got, prepared) =
        check_content_clean i item s (S.read s item.content_path) refl none_here in
      (
        (
          b,
          preflight_items-other (suc i) _ items s item.target_path f
              ∙ (rw got (ground (arith, str_eq_refl item.target_path))),
          prepared,
        ),
        preflight_items-Planned (suc i) _ items s d none_later,
      )

  -- A preflight without errors comes from a validation without errors.
  preflight_scan_clean :
      (found : Scan) (s : S.State) (items : List Item) (e : Expected)
      → preflight_scan S sha256 found s ≡ (items, e, [])
      → (found ≡ (items, []))
        × ((e ≡ (preflight_items S sha256 0 (λ q. none) items s).0)
            × ((preflight_items S sha256 0 (λ q. none) items s).1 ≡ []))
  unfolding preflight_scan
  preflight_scan_clean (rows, []) s items e h =
      let same : rows ≡ items = ap (λ (x : Preflight S sha256). x.0) h in
      (
        ap (λ (x : List Item). (x, [])) same,
        subst
            (λ (x : List Item).
              (e ≡ (preflight_items S sha256 0 (λ q. none) x s).0)
              × ((preflight_items S sha256 0 (λ q. none) x s).1 ≡ []))
            same
            (
              sym (ap (λ (x : Preflight S sha256). x.1) h),
              sorted_set-eq-nil _ (ap (λ (x : Preflight S sha256). x.2) h),
            ),
      )
  preflight_scan_clean (rows, code ∷ codes) s items e h =
      cc (ap (λ (x : Preflight S sha256). x.2) h)

  pub preflight-Planned :
      (plan : Value) (s : S.State) (items : List Item) (e : Expected)
      → preflight_record_mutations S sha256 plan s ≡ ok (items, e, [])
      → (validate_transaction_for_mutation plan ≡ ok (items, []))
        × Distinct items
        × All (Planned e s) items
  unfolding preflight_record_mutations
  preflight-Planned plan s items e h =
      let (found, valid, h') = >>=-ok (validate_transaction_for_mutation plan) _ h in
      let (same, found') = preflight_scan_clean found s items e (ok-injective h') in
      let (e', clean) = found' in
      let valid' : validate_transaction_for_mutation plan ≡ ok (items, []) = valid ∙ ap ok same in
      let (w, d) = validate-Good plan (items, []) valid' in
      (
        valid',
        d,
        subst (λ (x : Expected). All (Planned x s) items) (sym e')
            (preflight_items-Planned 0 _ items s d clean),
      )

  -- A clean preflight expects nothing at a path that is no target.
  pub preflight-Fresh :
      (plan : Value) (s : S.State) (items : List Item) (e : Expected) (q : String)
      → preflight_record_mutations S sha256 plan s ≡ ok (items, e, [])
      → Fresh q items
      → e q ≡ none
  unfolding preflight_record_mutations
  preflight-Fresh plan s items e q h f =
      let (found, valid, h') = >>=-ok (validate_transaction_for_mutation plan) _ h in
      let (same, (e', clean)) = preflight_scan_clean found s items e (ok-injective h') in
      ap (λ (x : Expected). x q) e' ∙ preflight_items-other 0 (λ p. none) items s q f
