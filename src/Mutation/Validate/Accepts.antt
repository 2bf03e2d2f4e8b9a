-- ===== src/Mutation/Validate/Accepts.antt =====
-- Which transactions `validate_transaction_for_mutation` of src/candidate_canonical_record_mutation.py
-- accepts.
use technology_library_inges.Base.{
  ℕ, suc, String, ◌≡◌, refl, sym, ap, ◌∙◌, true, false, not, ◌&&◌, some, List, [], ◌∷◌, map, All,
  ltb, length, str_eq, str_eq→eq, contains, ok, Passes, Passes-failures, sorted_set, Bool-cases,
  inl, inr,
}
use technology_library_inges.Json.{
  Value, str, arr, get, is_dict, str_of_length, eq_str, list_items, items_list-list_items,
  text_or_empty,
}
use technology_library_inges.Mutation.Validate.{
  Action, Item, accepted, safe_path, is_update, precondition, check_digests, check_unseen,
  check_target, check_content_path, check_paths, action_of, check_item, scan, validate_dict,
  validate_items, validate_transaction_for_mutation, header_checks, max_items,
}

text_or_empty-str : (s : String) → text_or_empty (str s) ≡ s
unfolding text_or_empty
text_or_empty-str s = elim (Bool-cases (str_eq s "")) [
  | inl none_left ↦ rw none_left (sym (str_eq→eq s "" none_left))
  | inr some_left ↦ rw some_left refl
]

-- The engine's item for a row of a plan.
abbrev pub item_of : Value → Action → String → String → Item
item_of row action target content = record {
  action = action;
  target_path = target;
  content_path = content;
  content_sha256 = get "content_sha256" row;
  base_sha256 = get "base_sha256" row;
}

-- A row whose paths are in normal form and whose digests are there.
abbrev pub IsMutable : Value → Action → String → String → Type 0
IsMutable row action target content =
    (is_dict row ≡ true)
    × (action_of (get "action" row) ≡ ok (some action))
    × (get "target_path" row ≡ str target)
    × (safe_path target "00_LIBRARY/" ≡ some target)
    × (get "content_path" row ≡ str content)
    × (safe_path content "99_INBOX/CANDIDATES/" ≡ some content)
    × (str_of_length 64 (get "content_sha256" row) ≡ true)
    × ((is_update action && not (str_of_length 64 (get "base_sha256" row))) ≡ false)
    × (eq_str (get "precondition" row) (precondition action) ≡ true)

check_item-accepts :
    (i : ℕ) (seen : List String) (row : Value) (action : Action) (target content : String)
    → IsMutable row action target content
    → contains seen target ≡ false
    → check_item i seen row ≡ ok (accepted (item_of row action target content) (target ∷ seen))
unfolding check_item check_paths check_target check_content_path check_unseen check_digests
check_item-accepts i seen row action target content (d, a, t, ts, c, cs, sha, base, pre) fresh =
    let ts' : safe_path (text_or_empty (get "target_path" row)) "00_LIBRARY/" ≡ some target =
      ap (λ s. safe_path s "00_LIBRARY/") (ap text_or_empty t ∙ text_or_empty-str target) ∙ ts in
    let cs' : safe_path (text_or_empty (get "content_path" row)) "99_INBOX/CANDIDATES/"
        ≡ some content =
      ap (λ s. safe_path s "99_INBOX/CANDIDATES/") (ap text_or_empty c ∙ text_or_empty-str content)
      ∙ cs in
    rw (d, a, ts', cs', fresh, sha, base, pre) refl

module _ {ℓ} {A : Type ℓ} (row : A → Value) (action : A → Action)
    (target content : A → String) where
  abbrev pub Mutable : A → Type 0
  Mutable x = IsMutable (row x) (action x) (target x) (content x)

  abbrev pub normal : A → Item
  normal x = item_of (row x) (action x) (target x) (content x)

  -- Targets that differ from those seen and from each other.
  abbrev pub AllNew : List String → List A → Type 0
  AllNew seen [] = Unit
  AllNew seen (x ∷ xs) = (contains seen (target x) ≡ false) × AllNew (target x ∷ seen) xs

  scan-accepts :
      (i : ℕ) (seen : List String) (xs : List A)
      → All Mutable xs
      → AllNew seen xs
      → scan i seen (map row xs) ≡ ok (map normal xs, [])
  unfolding scan
  scan-accepts i seen [] all new = refl
  scan-accepts i seen (x ∷ xs) (m, all) (fresh, new) =
      rw
        (
          check_item-accepts i seen (row x) (action x) (target x) (content x) m fresh,
          scan-accepts (suc i) (target x ∷ seen) xs all new,
        )
        refl

  validate_items-accepts :
      (xs : List A)
      → ltb max_items (length (map row xs)) ≡ false
      → All Mutable xs
      → AllNew [] xs
      → validate_items [] (arr (list_items (map row xs))) ≡ ok (map normal xs, [])
  unfolding validate_items sorted_set
  validate_items-accepts xs few all new =
      rw (items_list-list_items (map row xs), few, scan-accepts 0 [] xs all new) refl

  -- A plan with the header that the engine asks for, and with rows that it can carry out.
  pub validate-accepts :
      (plan : Value) (xs : List A)
      → is_dict plan ≡ true
      → Passes (header_checks plan)
      → get "items" plan ≡ arr (list_items (map row xs))
      → ltb max_items (length (map row xs)) ≡ false
      → All Mutable xs
      → AllNew [] xs
      → validate_transaction_for_mutation plan ≡ ok (map normal xs, [])
  unfolding validate_transaction_for_mutation validate_dict
  validate-accepts plan xs d header items few all new =
      rw
        (
          d,
          Passes-failures (header_checks plan) header,
          items,
          validate_items-accepts xs few all new,
        )
        refl
