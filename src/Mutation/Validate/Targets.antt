-- ===== src/Mutation/Validate/Targets.antt =====
-- What a validated transaction is like: its targets are distinct paths of the library, and its
-- contents lie among the candidates.
use technology_library_inges.Base.{
  ℕ, suc, String, ◌≡◌, refl, sym, subst, ok-injective, ◌≢◌, true, false, not, Option, none, some,
  List, [], ◌∷◌, arith, ltb, eq→str_eq, if◌then◌else◌, contains, All, length, starts_with, failures,
  ok, >>=-ok, Bool-cases, inl, inr,
}
use technology_library_inges.Json.{Value, arr, Items, get, is_dict, str_of_length, items_list}
use technology_library_inges.Mutation.Validate.{
  Action, update, Item, Verdict, rejected, accepted, Scan, safe_path, check_digests, check_unseen,
  check_target, check_content_path, check_paths, action_of, check_item, scan, seen_after, add,
  validate_dict, validate_items, validate_transaction_for_mutation, header_checks, max_items,
}

-- The form of one accepted item.
pub record IsWellFormed (item : Item) : Type 0 where
  pub target_in_library : starts_with item.target_path "00_LIBRARY/" ≡ true
  pub content_in_candidates : starts_with item.content_path "99_INBOX/CANDIDATES/" ≡ true
  pub has_digest : str_of_length 64 item.content_sha256 ≡ true
  pub update_has_base : item.action ≡ update → str_of_length 64 item.base_sha256 ≡ true

abbrev pub Fresh : String → List Item → Type 0
Fresh t items = All (λ item. t ≢ item.target_path) items

-- No two items share a target.
abbrev pub Distinct : List Item → Type 0
Distinct [] = Unit
Distinct (item ∷ items) = Fresh item.target_path items × Distinct items

safe_path-prefix :
    (value prefix p : String) → safe_path value prefix ≡ some p → starts_with p prefix ≡ true
unfolding safe_path
safe_path-prefix value prefix p h = ground arith

-- What a verdict says of its item, and that the seen targets only grow.
data Sound (seen : List String) : Verdict → Type 0 where
  rejected_sound :
      {code : String} {seen' : List String}
      → ((x : String) → contains seen' x ≡ false → contains seen x ≡ false)
      → Sound seen (rejected code seen')
  accepted_sound :
      {item : Item} {seen' : List String}
      → IsWellFormed item
      → contains seen item.target_path ≡ false
      → ((x : String)
          → contains seen' x ≡ false
          → (contains seen x ≡ false) × (item.target_path ≢ x))
      → Sound seen (accepted item seen')

contains_later :
    (t x : String) (seen : List String)
    → contains (t ∷ seen) x ≡ false
    → (contains seen x ≡ false) × (t ≢ x)
contains_later t x seen h = (ground arith, λ e. ground (arith, eq→str_eq x t (sym e)))

module _ (i : ℕ) (seen : List String) (raw : Value) (a : Action) where
  module _ (target : String) (t : starts_with target "00_LIBRARY/" ≡ true) where
    module _ (content_path : String)
        (c : starts_with content_path "99_INBOX/CANDIDATES/" ≡ true) where
      check_digests-Sound :
          (v : Verdict)
          → contains seen target ≡ false
          → check_digests i (target ∷ seen) raw a target content_path ≡ v
          → Sound seen v
      unfolding check_digests
      check_digests-Sound (rejected code seen') unseen h =
          rejected_sound λ x out. ground (arith, contains_later target x seen)
      check_digests-Sound (accepted item seen') unseen h =
          accepted_sound
            (record {
              target_in_library = ground arith;
              content_in_candidates = ground arith;
              has_digest = ground arith;
              update_has_base = λ e. ground arith;
            })
            (ground arith) (λ x out. ground (arith, contains_later target x seen))

      check_unseen-Sound : Sound seen (check_unseen i seen raw a target content_path)
      unfolding check_unseen
      check_unseen-Sound = elim (Bool-cases (contains seen target)) [
        | inl old ↦ rw old (rejected_sound (λ x out. out))
        | inr new ↦ rw new (check_digests-Sound _ new refl)
      ]

    check_content_path-Sound :
        (value : String) (o : Option String)
        → safe_path value "99_INBOX/CANDIDATES/" ≡ o
        → Sound seen (check_content_path i seen raw a target o)
    unfolding check_content_path
    check_content_path-Sound value none e = rejected_sound (λ x out. out)
    check_content_path-Sound value (some c) e = check_unseen-Sound c (safe_path-prefix value _ c e)

  check_target-Sound :
      (value : String) (o : Option String)
      → safe_path value "00_LIBRARY/" ≡ o
      → Sound seen (check_target i seen raw a o)
  unfolding check_target
  check_target-Sound value none e = rejected_sound (λ x out. out)
  check_target-Sound value (some t) e =
      check_content_path-Sound t (safe_path-prefix value _ t e) _ _ refl

check_paths-Sound :
    (i : ℕ) (seen : List String) (raw : Value) (a : Option Action)
    → Sound seen (check_paths i seen raw a)
unfolding check_paths
check_paths-Sound i seen raw none = rejected_sound (λ x out. out)
check_paths-Sound i seen raw (some a) = check_target-Sound i seen raw a _ _ refl

check_item-Sound :
    (i : ℕ) (seen : List String) (raw : Value) (v : Verdict)
    → check_item i seen raw ≡ ok v
    → Sound seen v
unfolding check_item
check_item-Sound i seen raw v h = elim (Bool-cases (is_dict raw)) [
  | inl d ↦
      let (a, found, e) = >>=-ok (action_of (get "action" raw)) _ (rw d at h) in
      subst (Sound seen) (ok-injective e) (check_paths-Sound i seen raw a)
  | inr d ↦ subst (Sound seen) (ok-injective (rw d at h)) (rejected_sound (λ x p. p))
]

abbrev Unseen : List String → List Item → Type 0
Unseen seen items = All (λ item. contains seen item.target_path ≡ false) items

Unseen-back :
    (seen seen' : List String) (items : List Item)
    → ((x : String) → contains seen' x ≡ false → contains seen x ≡ false)
    → Unseen seen' items
    → Unseen seen items
Unseen-back seen seen' [] grow u = tt
Unseen-back seen seen' (item ∷ items) grow (u, us) =
    (grow item.target_path u, Unseen-back seen seen' items grow us)

Unseen-Fresh :
    (t : String) (seen' : List String) (items : List Item)
    → ((x : String) → contains seen' x ≡ false → t ≢ x)
    → Unseen seen' items
    → Fresh t items
Unseen-Fresh t seen' [] grow u = tt
Unseen-Fresh t seen' (item ∷ items) grow (u, us) =
    (grow item.target_path u, Unseen-Fresh t seen' items grow us)

abbrev ScanSound : List String → Scan → Type 0
ScanSound seen (items, codes) = All IsWellFormed items × Distinct items × Unseen seen items

add-ScanSound :
    (seen : List String) (v : Verdict) (more : Scan)
    → Sound seen v
    → ScanSound (seen_after v) more
    → ScanSound seen (add v more)
add-ScanSound seen (rejected code seen') (items, codes) (rejected_sound grow) (w, d, u) =
    (w, d, Unseen-back seen seen' items grow u)
add-ScanSound seen (accepted item seen') (items, codes) (accepted_sound good new grow) (w, d, u) = (
  (good, w),
  (Unseen-Fresh item.target_path seen' items (λ x h. (grow x h).1) u, d),
  (new, Unseen-back seen seen' items (λ x h. (grow x h).0) u),
)

scan-Sound :
    (i : ℕ) (seen : List String) (rows : List Value) (result : Scan)
    → scan i seen rows ≡ ok result
    → ScanSound seen result
unfolding scan
scan-Sound i seen [] result h = subst (ScanSound seen) (ok-injective h) (tt, tt, tt)
scan-Sound i seen (raw ∷ rest) result h =
    let (v, checked, h') = >>=-ok (check_item i seen raw) _ h in
    let (more, scanned, h'') = >>=-ok (scan (suc i) (seen_after v) rest) _ h' in
    subst (ScanSound seen) (ok-injective h'') (
      add-ScanSound seen v more (check_item-Sound i seen raw v checked)
        (scan-Sound (suc i) (seen_after v) rest more scanned))

abbrev Good : List Item → Type 0
Good items = All IsWellFormed items × Distinct items

Good-of_none : (errors : List String) (result : Scan) → ok ([], errors) ≡ ok result → Good result.0
Good-of_none errors result h = subst (λ (r : Scan). Good r.0) (ok-injective h) (tt, tt)

validate_rows-Good :
    (errors : List String) (vs : Items) (result : Scan)
    → validate_items errors (arr vs) ≡ ok result
    → Good result.0
unfolding validate_items
validate_rows-Good errors vs result h = elim (Bool-cases (ltb max_items (length (items_list vs)))) [
  | inl many ↦ Good-of_none _ result (rw many at h)
  | inr few ↦
      let (found, scanned, e) = >>=-ok (scan 0 [] (items_list vs)) _ (rw few at h) in
      let (w, d, u) = scan-Sound 0 [] (items_list vs) found scanned in
      subst (λ (r : Scan). Good r.0) (ok-injective e) (w, d)
]

validate_items-Good :
    (errors : List String) (v : Value) (result : Scan)
    → validate_items errors v ≡ ok result
    → Good result.0
unfolding validate_items
validate_items-Good errors (arr vs) result h = validate_rows-Good errors vs result h
validate_items-Good errors v result h = Good-of_none _ result h

validate_lem :
    (plan : Value)
    → validate_transaction_for_mutation plan
      ≡ (if not (is_dict plan) then ok ([], "transaction_invalid" ∷ []) else validate_dict plan)
unfolding validate_transaction_for_mutation
validate_lem plan = refl

-- The items of a validation are well formed and have distinct targets.
pub validate-Good :
    (plan : Value) (result : Scan)
    → validate_transaction_for_mutation plan ≡ ok result
    → All IsWellFormed result.0 × Distinct result.0
unfolding validate_dict
validate-Good plan result h = elim (Bool-cases (is_dict plan)) [
  | inl d ↦
      let (errors, checked, h') =
        >>=-ok (failures (header_checks plan)) _ (rw (validate_lem, d) at h) in
      validate_items-Good errors (get "items" plan) result h'
  | inr d ↦ Good-of_none _ result (rw (validate_lem, d) at h)
]
