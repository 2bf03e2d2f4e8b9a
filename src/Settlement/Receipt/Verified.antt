-- ===== src/Settlement/Receipt/Verified.antt =====
-- What a receipt of src/candidate_transaction_receipt.py shows.
use mathlib.Core.Option.{some-injective}
use technology_library_inges.Base.{
  ℕ, suc, String, ◌≡◌, refl, ap, sym, ◌∙◌, true, Option, none, some, List, [], ◌∷◌, ◌++◌,
  append-eq-nil, All, Bool-cases, inl, inr, length, leb, starts_with, failures, failures-Passes, ok,
  >>=-ok, ok-injective,
}
use technology_library_inges.Json.{
  Value, str, arr, get, Items, nil, cons, items_list, list_items, is_dict, eq_str, str_of_length,
}
use technology_library_inges.Storage.{Bytes, Sha256, holds, holds→eq}
use technology_library_inges.Settlement.Receipt.{
  ItemResult, add_codes, compare_content, with_provenance, check_digest, check_content,
  check_target, check_item, check_items, add_row, identity_checks, header_checks, bounded_items,
  receipt_of, receipt_or_codes, verify_items, build_receipt,
}

module _ (sha256 : Sha256) (read : String → Option Bytes) where
  -- The content of an item has the planned digest and stands at its target.
  abbrev pub Settled : Value → Type 0
  Settled item =
      (target : String) × (content : String) × (b : Bytes) × (get "target_path" item ≡ str target)
      × (get "content_path" item ≡ str content)
      × (read content ≡ some b)
      × (read target ≡ some b)
      × (eq_str (get "content_sha256" item) (sha256 b) ≡ true)

  -- The same, of the paths that were read from the item.
  abbrev Matches : Value → String → String → Type 0
  Matches item target content =
      (b : Bytes) × (read content ≡ some b)
      × (read target ≡ some b)
      × (eq_str (get "content_sha256" item) (sha256 b) ≡ true)

  add_codes-none : (more : List String) (r : ItemResult) → (add_codes more r).1 ≡ [] → r.1 ≡ []
  unfolding add_codes
  add_codes-none more (row, codes) h = (append-eq-nil more codes h).1

  add_codes-row : (more : List String) (r : ItemResult) → (add_codes more r).0 ≡ r.0
  unfolding add_codes
  add_codes-row more (row, codes) = refl

  -- The item has given a row.
  abbrev Rowed : ItemResult → Type 0
  Rowed r = (row : Value) × (r.0 ≡ some row)

  compare_content-Matches :
      (i : ℕ) (row : Value) (digest : String) (v : Value) (expected actual : Option Bytes)
      → (compare_content sha256 read i row digest v expected actual).1 ≡ []
      → ((b : Bytes) × (expected ≡ some b) × (actual ≡ some b) × (eq_str v (sha256 b) ≡ true))
        × Rowed (compare_content sha256 read i row digest v expected actual)
  unfolding compare_content
  compare_content-Matches i row digest v none actual h = cc
  compare_content-Matches i row digest v (some b) actual h =
      elim (Bool-cases (eq_str v (sha256 b))) [
        | inl right ↦ elim (Bool-cases (holds actual b)) [
          | inl same ↦ ((b, refl, holds→eq actual b same, right), (row, rw right (rw same refl)))
          | inr differ ↦ cc (rw differ at (rw right at h))
        ]
        | inr wrong ↦ cc (rw wrong at h)
      ]

  with_provenance-Matches :
      (i : ℕ) (item : Value) (target content : String) (p q c : Value × List String)
      → (with_provenance sha256 read i item target content p q c).1 ≡ []
      → Matches item target content
        × Rowed (with_provenance sha256 read i item target content p q c)
  unfolding with_provenance
  with_provenance-Matches i item target content (p, e1) (q, e2) (c, e3) h =
      let (matches, (row, is)) =
        compare_content-Matches i _ content (get "content_sha256" item) (read content) (read target)
          (add_codes-none _ _ h) in
      (matches, (row, add_codes-row _ _ ∙ is))

  check_digest-Matches :
      (i : ℕ) (item : Value) (target content : String)
      → (check_digest sha256 read i item target content).1 ≡ []
      → Matches item target content × Rowed (check_digest sha256 read i item target content)
  unfolding check_digest
  check_digest-Matches i item target content h =
      elim (Bool-cases (str_of_length 64 (get "content_sha256" item))) [
        | inl long ↦ rw long (with_provenance-Matches i item target content _ _ _ (rw long at h))
        | inr short ↦ cc (rw short at h)
      ]

  check_content-Settled :
      (i : ℕ) (item : Value) (target : String) (v : Value)
      → get "target_path" item ≡ str target
      → get "content_path" item ≡ v
      → (check_content sha256 read i item target v).1 ≡ []
      → Settled item × Rowed (check_content sha256 read i item target v)
  unfolding check_content
  check_content-Settled i item target (str content) t c h =
      elim (Bool-cases (starts_with content "99_INBOX/CANDIDATES/")) [
        | inl inside ↦
            let ((b, there, here, digest), row) =
              check_digest-Matches i item target content (rw inside at h) in
            rw inside ((target, content, b, t, c, there, here, digest), row)
        | inr outside ↦ cc (rw outside at h)
      ]
  check_content-Settled i item target v t c h = cc

  check_target-Settled :
      (i : ℕ) (item v : Value)
      → get "target_path" item ≡ v
      → (check_target sha256 read i item v).1 ≡ []
      → Settled item × Rowed (check_target sha256 read i item v)
  unfolding check_target
  check_target-Settled i item (str target) t h =
      elim (Bool-cases (starts_with target "00_LIBRARY/")) [
        | inl inside ↦
            rw inside (
              check_content-Settled i item target (get "content_path" item) t refl (rw inside at h))
        | inr outside ↦ cc (rw outside at h)
      ]
  check_target-Settled i item v t h = cc

  check_item-Settled :
      (i : ℕ) (item : Value) (r : ItemResult)
      → check_item sha256 read i item ≡ ok r
      → r.1 ≡ []
      → Settled item × Rowed r
  unfolding check_item
  check_item-Settled i item r h e = elim (Bool-cases (is_dict item)) [
    | inl d ↦
        let (codes, checked, is) =
          >>=-ok (failures (identity_checks sha256 read i item)) _ (rw d at h) in
        let same = ok-injective is in
        let (settled, (row, there)) =
          check_target-Settled i item (get "target_path" item) refl
            (add_codes-none _ _ (ap (λ (x : ItemResult). x.1) same ∙ e)) in
        (settled, (row, ap (λ (x : ItemResult). x.0) (sym same) ∙ add_codes-row _ _ ∙ there))
    | inr d ↦ cc (ap (λ (x : ItemResult). x.1) (ok-injective (rw d at h)), e)
  ]

  check_items-Settled :
      (i : ℕ) (items : List Value) (r : List Value × List String)
      → check_items sha256 read i items ≡ ok r
      → r.1 ≡ []
      → All Settled items × (length r.0 ≡ length items)
  unfolding check_items add_row
  check_items-Settled i [] r h e =
      (tt, ap (λ (x : List Value × List String). length x.0) (ok-injective (sym h)))
  check_items-Settled i (item ∷ items) r h e =
      let (one, first, h') = >>=-ok (check_item sha256 read i item) _ h in
      let (rest, others, is) = >>=-ok (check_items sha256 read (suc i) items) _ h' in
      let same = ok-injective is in
      let (e1, e2) =
        append-eq-nil one.1 rest.1 (ap (λ (x : List Value × List String). x.1) same ∙ e) in
      let (settled, (row, there)) = check_item-Settled i item one first e1 in
      let (all, long) = check_items-Settled (suc i) items rest others e2 in
      (
        (settled, all),
        ap (λ (x : List Value × List String). length x.0) (sym same)
            ∙ added one.0 row rest.0 there
            ∙ ap suc long,
      )
    where
      added :
          (o : Option Value) (row : Value) (rows : List Value)
          → o ≡ some row
          → length (add_row sha256 read o rows) ≡ suc (length rows)
      added o row rows is = rw is refl

  -- A list of items within the bound.
  bounded_items-arr :
      (v : Value) (items : List Value) (codes : List String)
      → bounded_items sha256 read v ≡ (items, codes)
      → codes ≡ []
      → v ≡ arr (list_items items)
  unfolding bounded_items
  bounded_items-arr (arr vs) items codes h e = elim (Bool-cases (leb (length (items_list vs)) 50)) [
    | inl short ↦
        ap arr
          (round_trip vs ∙ ap (λ (x : List Value × List String). list_items x.0) (rw short at h))
    | inr long ↦ cc (ap (λ (x : List Value × List String). x.1) (rw long at h), e)
  ]
    where
      round_trip : (vs : Items) → vs ≡ list_items (items_list vs)
      round_trip nil = refl
      round_trip (cons w ws) = ap (cons w) (round_trip ws)
  bounded_items-arr v items codes h e = cc (ap (λ (x : List Value × List String). x.1) h, e)

  -- What a receipt says of the plan and of the paths as they read.
  abbrev pub Receipted : Value → Bytes → Bytes → Value → Type 0
  Receipted plan before after r =
      (eq_str (get "master_index_sha256" plan) (sha256 before) ≡ true)
      × ((items : List Value) × (get "items" plan ≡ arr (list_items items))
          × All Settled items
          × ((rows : List Value) × (length rows ≡ length items)
              × (r ≡ receipt_of sha256 read plan before after rows)))

  verify_items-Receipted :
      (plan : Value) (before after : Bytes) (listed : List Value × List String) (r : Value)
      → bounded_items sha256 read (get "items" plan) ≡ listed
      → verify_items sha256 read plan before after listed ≡ ok (some r, [])
      → Receipted plan before after r
  unfolding verify_items header_checks receipt_or_codes
  verify_items-Receipted plan before after (items, codes) r b h =
      let (header, checked, h') =
        >>=-ok (failures (header_checks sha256 read plan before after)) _ h in
      let (found, each, is) = >>=-ok (check_items sha256 read 0 items) _ h' in
      let (clear, same) = receipt_or_codes-some plan before after found.0 _ r (ok-injective is) in
      let (listed_clear, f0) = append-eq-nil (header ++ codes) found.1 clear in
      let (h0, c0) = append-eq-nil header codes listed_clear in
      let (all, long) = check_items-Settled 0 items found each f0 in
      let passes =
        failures-Passes (header_checks sha256 read plan before after) (checked ∙ ap ok h0) in
      (
        ok-injective passes.1.1.1.0,
        (items, bounded_items-arr (get "items" plan) items codes b c0, all, (found.0, long, same)),
      )
    where
      receipt_or_codes-some :
          (plan : Value) (before after : Bytes) (rows : List Value) (codes : List String)
          (r : Value)
          → receipt_or_codes sha256 read plan before after rows codes ≡ (some r, [])
          → (codes ≡ []) × (r ≡ receipt_of sha256 read plan before after rows)
      receipt_or_codes-some plan before after rows (code ∷ codes) r h =
          cc (ap (λ (x : Option Value × List String). x.0) h)
      receipt_or_codes-some plan before after rows [] r h =
          (refl, some-injective _ _ (ap (λ (x : Option Value × List String). x.0) (sym h)))

  -- A receipt that is built: the master index before the transaction has the planned digest, and
  -- every item of the plan has its content, of the planned digest, at its target. The receipt has
  -- one row for each item.
  pub build_receipt-Receipted :
      (plan : Value) (before after : Bytes) (r : Value)
      → build_receipt sha256 read plan before after ≡ ok (some r, [])
      → Receipted plan before after r
  unfolding build_receipt
  build_receipt-Receipted plan before after r h = elim (Bool-cases (is_dict plan)) [
    | inl d ↦ verify_items-Receipted plan before after _ r refl (rw d at h)
    | inr d ↦ cc (ap (λ (x : Option Value × List String). x.0) (ok-injective (rw d at h)))
  ]
