-- ===== src/Mutation/Execute/Completion.antt =====
-- When `execute_record_mutations` of src/candidate_canonical_record_mutation.py succeeds.
use technology_library_inges.Base.{
  ℕ, suc, ◌≡◌, refl, ap, sym, ◌∙◌, true, Option, none, some, List, [], ◌∷◌, All, ok, ok-injective,
  Bool-cases, inl, inr,
}
use technology_library_inges.Json.{Value, get, is_dict}
use technology_library_inges.Storage.{Bytes, Storage, Sha256, IsFramed, IsReliable, eq→holds}
use technology_library_inges.Mutation.Validate.{
  Action, create, update, unchanged, Item, Scan, validate_transaction_for_mutation,
}
use technology_library_inges.Mutation.Validate.Targets.{Fresh, Distinct}
use technology_library_inges.Mutation.Execute.{
  Expected, Report, Progress, Step, put_item, mutate_create, mutate_item, after_item, mutate_one,
  mutate, begin, idle, preflight_record_mutations, execute_record_mutations,
  execute_record_mutations_lem, Answer,
}
use technology_library_inges.Mutation.Execute.Frame.{mutate_item-frame}
use technology_library_inges.Mutation.Execute.Preflight.{Ready, Planned, preflight-Planned}

-- A plan that is valid is a dict.
valid_is_dict :
    (plan : Value) (items : List Item)
    → validate_transaction_for_mutation plan ≡ ok (items, [])
    → is_dict plan ≡ true
unfolding validate_transaction_for_mutation
valid_is_dict plan items v = elim (Bool-cases (is_dict plan)) [
  | inl d ↦ d
  | inr d ↦ cc (ap (λ (x : Scan). x.1) (ok-injective (rw d at v)))
]

module _ (S : Storage) (framed : IsFramed S) (reliable : IsReliable S) (sha256 : Sha256) where
  put_item-completes :
      (i : ℕ) (item : Item) (content : Bytes) (p : Progress) (s : S.State)
      → (put_item S sha256 i item content p s).0 ≡ none
  unfolding put_item
  put_item-completes i item content p s =
      rw (reliable.write_succeeds s item.target_path content)
        (rw (eq→holds _ content (reliable.read-write_self s item.target_path content)) refl)

  mutate_create-completes :
      (i : ℕ) (item : Item) (content : Bytes) (p : Progress) (s : S.State) (o : Option Bytes)
      → o ≡ none
      → (mutate_create S sha256 i item content p s o).0 ≡ none
  unfolding mutate_create
  mutate_create-completes i item content p s none h = put_item-completes i item content p s
  mutate_create-completes i item content p s (some b) h = cc

  mutate_item-completes :
      (a : Action) (i : ℕ) (item : Item) (content : Bytes) (p : Progress) (s : S.State)
      → Ready S sha256 a item.base_sha256 content (S.read s item.target_path)
      → (mutate_item S sha256 a i item content p s).0 ≡ none
  unfolding mutate_item
  mutate_item-completes create i item content p s ready =
      mutate_create-completes i item content p s _ ready
  mutate_item-completes update i item content p s (old, there, base) =
      rw there (rw base (put_item-completes i item content p s))
  mutate_item-completes unchanged i item content p s ready = rw (eq→holds _ content ready) refl

  -- The targets of the items read as they did.
  Kept : S.State → S.State → List Item → Type 0
  Kept s0 s items = All (λ item. S.read s item.target_path ≡ S.read s0 item.target_path) items

  Kept-mutate_item :
      (s0 s : S.State) (a : Action) (i : ℕ) (item : Item) (content : Bytes) (p : Progress)
      (items : List Item)
      → Fresh item.target_path items
      → Kept s0 s items
      → Kept s0 (mutate_item S sha256 a i item content p s).2 items
  unfolding Kept
  Kept-mutate_item s0 s a i item content p [] f k = tt
  Kept-mutate_item s0 s a i item content p (next ∷ items) (n, f) (same, k) = (
    mutate_item-frame S framed sha256 next.target_path a i item content p s (λ e. n (sym e)) ∙ same,
    Kept-mutate_item s0 s a i item content p items f k,
  )

  after_item-completes :
      (id : Value) (rest : Progress → S.State → Answer × S.State) (step : Step S sha256)
      → step.0 ≡ none
      → ((p : Progress) → (r : Report) × ((rest p step.2).0 ≡ ok (some r, [])))
      → (r : Report) × ((after_item S sha256 id rest step).0 ≡ ok (some r, []))
  unfolding after_item
  after_item-completes id rest (none, p, s) h k = k p
  after_item-completes id rest (some code, p, s) h k = cc

  mutate-completes :
      (id : Value) (e : Expected) (i : ℕ) (items : List Item) (p : Progress) (s0 s : S.State)
      → Distinct items
      → All (Planned S sha256 e s0) items
      → Kept s0 s items
      → (r : Report) × ((mutate S sha256 id e i items p s).0 ≡ ok (some r, []))
  unfolding mutate mutate_one Kept
  mutate-completes id e i [] p s0 s distinct planned kept = (_, refl)
  mutate-completes id e i (item ∷ items) p s0 s (fresh, distinct)
        ((b, found, (there, digest, ready)), planned) (same, kept) =
      rw found (
        after_item-completes id (mutate S sha256 id e (suc i) items)
          (mutate_item S sha256 item.action i item b p s)
          (mutate_item-completes item.action i item b p s (rw same ready))
          (λ p'.
            mutate-completes id e (suc i) items p' s0 _ distinct planned
              (Kept-mutate_item s0 s item.action i item b p items fresh kept)))

  Kept-refl : (s : S.State) (items : List Item) → Kept s s items
  unfolding Kept
  Kept-refl s [] = tt
  Kept-refl s (item ∷ items) = (refl, Kept-refl s items)

  -- The mutation completes: if the preflight reports no error, and writes and deletes take effect,
  -- on their path alone, then it returns a report and no error.
  pub execute_record_mutations_completes :
      (plan : Value) (s : S.State) (items : List Item) (e : Expected)
      → preflight_record_mutations S sha256 plan s ≡ ok (items, e, [])
      → (r : Report) × ((execute_record_mutations S sha256 plan s).0 ≡ ok (some r, []))
  unfolding begin
  execute_record_mutations_completes plan s items e h =
      let (valid, distinct, planned) = preflight-Planned S sha256 plan s items e h in
      rw execute_record_mutations_lem (
        rw h (
          rw (valid_is_dict plan items valid) (
            mutate-completes (get "transaction_id" plan) e 0 items idle s s distinct planned
              (Kept-refl s items))))
