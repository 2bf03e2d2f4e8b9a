-- ===== src/Planning/Plan/Ordered.antt =====
-- What a plan of `build_transaction_plan` of src/candidate_transaction_plan.py is like.
use mathlib.Core.Option.{some-injective}
use technology_library_inges.Base.{
  ℕ, suc, ◌≤◌, String, ◌≡◌, ◌≢◌, refl, sym, ap, ◌∙◌, subst, Bool, false, Option, some, List, [],
  ◌∷◌, ◌++◌, map, ltb, if◌then◌else◌, contains, length, is_empty, append-eq-nil, All, str_eq,
  eq→str_eq, sort_by, IsSorted, sort_by-IsSorted, Pairwise, sort_by-Pairwise, length-sort_by, ok,
  >>=-ok, ok-injective, Bool-cases, inl, inr, arith,
}
use technology_library_inges.Json.{Value, str, arr, find_field, get, list_items}
use technology_library_inges.Storage.{Bytes, Sha256}
use technology_library_inges.Planning.Items.{PlanItem, target_of, id_of, document}
use technology_library_inges.Planning.Lanes.{validate_new_lane, code_at}
use technology_library_inges.Planning.Plan.{
  max_plan_items, max_plan_bytes, updates, collisions, order, plan_of_items, Built, sized, settle,
  combine, build_lanes, build_transaction_plan,
}

-- Two items with different targets and different record identifiers.
abbrev pub Apart : PlanItem → PlanItem → Type 0
Apart x y = (target_of x ≢ target_of y) × (id_of x ≢ id_of y)

pub Apart-swap : (x y : PlanItem) → Apart x y → Apart y x
Apart-swap x y (t, i) = (λ e. t (sym e), λ e. i (sym e))

-- An item that is none of those seen.
abbrev pub Unseen : List String → List String → PlanItem → Type 0
Unseen targets ids item =
    (contains targets (target_of item) ≡ false) × (contains ids (id_of item) ≡ false)

unseen :
    (xs : List String) (x y : String)
    → contains (x ∷ xs) y ≡ false
    → (contains xs y ≡ false) × (x ≢ y)
unseen xs x y h = (ground arith, λ e. ground (arith, eq→str_eq y x (sym e)))

Unseen-Apart :
    (targets ids : List String) (item : PlanItem) (items : List PlanItem)
    → All (Unseen (target_of item ∷ targets) (id_of item ∷ ids)) items
    → All (Unseen targets ids) items × All (Apart item) items
Unseen-Apart targets ids item [] u = (tt, tt)
Unseen-Apart targets ids item (next ∷ items) ((t, i), u) =
    let (t', apart) = unseen targets (target_of item) (target_of next) t in
    let (i', apart') = unseen ids (id_of item) (id_of next) i in
    let (us, as') = Unseen-Apart targets ids item items u in
    (((t', i'), us), ((apart, apart'), as'))

pub collisions-Apart :
    (i : ℕ) (targets ids : List String) (items : List PlanItem)
    → collisions i targets ids items ≡ []
    → All (Unseen targets ids) items × Pairwise order Apart Apart-swap items
unfolding collisions
collisions-Apart i targets ids [] h = (tt, tt)
collisions-Apart i targets ids (item ∷ items) h =
    let (front, rest) = append-eq-nil _ (collisions (suc i) _ _ items) h in
    let (t, d) =
      append-eq-nil
        (if contains targets (target_of item)
          then code_at "transaction_item" i "target_collision" ∷ []
          else [])
        _ front in
    let (us, apart) =
      collisions-Apart (suc i) (target_of item ∷ targets) (id_of item ∷ ids) items rest in
    let (us', mine) = Unseen-Apart targets ids item items us in
    (((ground arith, ground arith), us'), (mine, apart))

module _ (sha256 : Sha256) (is_utf8 : Bytes → Bool)
    (canonical_json compact_json : Value → Bytes) where
  abbrev pub plan_over : Bytes → List PlanItem → Value
  plan_over = plan_of_items sha256 is_utf8 canonical_json compact_json

  pub plan-items :
      (master : Bytes) (items : List PlanItem)
      → get "items" (plan_over master items) ≡ arr (list_items (map document items))
  unfolding get find_field str_eq plan_of_items
  plan-items master items = refl

  plan-master :
      (master : Bytes) (items : List PlanItem)
      → get "master_index_sha256" (plan_over master items) ≡ str (sha256 master)
  unfolding get find_field str_eq plan_of_items
  plan-master master items = refl

  -- What the two lanes and the checks over both make of an accepted plan.
  abbrev pub Accepted :
      Bytes → Value → Value → List Value → Value → List PlanItem → List PlanItem → Type 0
  Accepted master manifest validation artifacts plan new ups =
      (validate_new_lane manifest validation ≡ ok (new, []))
      × (updates 0 artifacts ≡ ok (ups, []))
      × (ltb max_plan_items (length (new ++ ups)) ≡ false)
      × (collisions 0 [] [] (new ++ ups) ≡ [])
      × (ltb max_plan_bytes (length (compact_json plan)) ≡ false)
      × (plan ≡ plan_over master (sort_by order (new ++ ups)))

  settle-some :
      (master : Bytes) (items : List PlanItem) (codes : List String) (plan : Value)
      → settle sha256 is_utf8 canonical_json compact_json master items codes ≡ (some plan, [])
      → (codes ≡ [])
        × (ltb max_plan_bytes (length (compact_json plan)) ≡ false)
        × (plan ≡ plan_over master (sort_by order items))
  unfolding settle sized
  settle-some master items (code ∷ codes) plan h =
      cc (ap (λ (b : Built sha256 is_utf8 canonical_json compact_json). b.0) h)
  settle-some master items [] plan h =
      elim (Bool-cases
        (ltb max_plan_bytes (length (compact_json (plan_over master (sort_by order items)))))) [
          | inl large ↦ cc (ap (λ (b : Option Value × List String). b.0) (rw large at h))
          | inr fits ↦
              let same =
                some-injective _ _ (ap (λ (b : Option Value × List String). b.0) (rw fits at h)) in
              (refl, rw (← same) fits, sym same)
        ]

  combine-Accepted :
      (master : Bytes) (new ups : List PlanItem) (codes more : List String) (plan : Value)
      → combine sha256 is_utf8 canonical_json compact_json master (new, codes) (ups, more)
        ≡ (some plan, [])
      → (codes ≡ [])
        × (more ≡ [])
        × (ltb max_plan_items (length (new ++ ups)) ≡ false)
        × (collisions 0 [] [] (new ++ ups) ≡ [])
        × (ltb max_plan_bytes (length (compact_json plan)) ≡ false)
        × (plan ≡ plan_over master (sort_by order (new ++ ups)))
  unfolding combine
  combine-Accepted master new ups codes more plan h =
      let (none_left, fits, same) = settle-some master (new ++ ups) _ plan h in
      let (front, apart) = append-eq-nil _ (collisions 0 [] [] (new ++ ups)) none_left in
      let (lanes, few) = append-eq-nil (codes ++ more) _ front in
      let (c, m) = append-eq-nil codes more lanes in (c, m, ground arith, apart, fits, same)

  lanes-Accepted :
      (master : Bytes) (manifest validation plan : Value) (artifacts : List Value)
      → build_lanes sha256 is_utf8 canonical_json compact_json master manifest validation artifacts
        ≡ ok (some plan, [])
      → (new : List PlanItem) × (ups : List PlanItem) × Accepted master manifest validation
          artifacts plan new ups
  unfolding build_lanes
  lanes-Accepted master manifest validation plan artifacts h =
      let ((new, codes), first, h1) = >>=-ok (validate_new_lane manifest validation) _ h in
      let ((ups, more), second, h2) = >>=-ok (updates 0 artifacts) _ h1 in
      let (c, m, few, apart, fits, same) =
        combine-Accepted master new ups codes more plan (ok-injective h2) in
      (
        new,
        ups,
        (
          first ∙ ap (λ (left : List String). ok (new, left)) c,
          second ∙ ap (λ (left : List String). ok (ups, left)) m,
          few,
          apart,
          fits,
          same,
        ),
      )

  pub build-Accepted :
      (master : Bytes) (manifest validation plan : Value) (artifacts : List Value)
      → build_transaction_plan sha256 is_utf8 canonical_json compact_json master manifest validation
          artifacts
        ≡ ok (some plan, [])
      → (new : List PlanItem) × (ups : List PlanItem) × Accepted master manifest validation
          artifacts plan new ups
  unfolding build_transaction_plan
  build-Accepted master manifest validation plan artifacts h = elim (Bool-cases (is_empty master)) [
    | inl empty ↦ cc (
        ap (λ (b : Built sha256 is_utf8 canonical_json compact_json). b.0)
          (ok-injective (rw empty at h)))
    | inr full ↦ elim (Bool-cases (is_utf8 master)) [
      | inl utf8 ↦
          lanes-Accepted master manifest validation plan artifacts (rw utf8 at (rw full at h))
      | inr bad ↦ cc (
          ap (λ (b : Built sha256 is_utf8 canonical_json compact_json). b.0)
            (ok-injective (rw bad at (rw full at h))))
    ]
  ]

  -- A built plan lists, in order of their targets, the items of the two lanes and no others, at most
  -- fifty, no two of them with one target or one record identifier. It names the digest of the master index, and
  -- its encoding has at most 262144 bytes.
  pub build_transaction_plan-IsSorted :
      (master : Bytes) (manifest validation plan : Value) (artifacts : List Value)
      → build_transaction_plan sha256 is_utf8 canonical_json compact_json master manifest validation
          artifacts
        ≡ ok (some plan, [])
      → (new : List PlanItem) × (ups : List PlanItem) × (items : List PlanItem) × (validate_new_lane
            manifest validation
          ≡ ok (new, []))
        × (updates 0 artifacts ≡ ok (ups, []))
        × (items ≡ sort_by order (new ++ ups))
        × (get "items" plan ≡ arr (list_items (map document items)))
        × (get "master_index_sha256" plan ≡ str (sha256 master))
        × IsSorted order items
        × Pairwise order Apart Apart-swap items
        × (length items ≤ max_plan_items)
        × (length (compact_json plan) ≤ max_plan_bytes)
  build_transaction_plan-IsSorted master manifest validation plan artifacts h =
      let (new, ups, (first, second, few, apart, fits, same)) =
        build-Accepted master manifest validation plan artifacts h in
      (
        new,
        ups,
        sort_by order (new ++ ups),
        first,
        second,
        refl,
        ap (get "items") same ∙ plan-items master _,
        ap (get "master_index_sha256") same ∙ plan-master master _,
        sort_by-IsSorted order _,
        sort_by-Pairwise order Apart Apart-swap _ (collisions-Apart 0 [] [] (new ++ ups) apart).1,
        subst (λ n. n ≤ max_plan_items) (sym (length-sort_by order (new ++ ups))) (ground arith),
        ground arith,
      )
