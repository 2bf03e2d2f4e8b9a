-- ===== src/Settlement/Receipt.antt =====
-- src/candidate_transaction_receipt.py: the receipt of a transaction whose targets hold the planned
-- bytes.
pub mod Verified
use technology_library_inges.Base.{
  ℕ, suc, String, ◌<>◌, ◌≡◌, refl, Bool, true, false, not, ◌&&◌, ◌||◌, Option, none, some, List, [],
  ◌∷◌, ◌++◌, if◌then◌else◌, is_empty, sorted_set, sort_by, starts_with, leb, ◌==◌, count, all_hex,
  length, Check, plain, failures, Result, ok, raised, ◌>>=◌, str_eq,
}
use technology_library_inges.Json.{
  ℤ, pos, Value, null, bool, int, str, arr, obj, Fields, field, end, fields, get, items_list,
  list_items, is_dict, is_null, is_false, in_set, eq_str, eq_nat, text_of, str_of_length,
}
use technology_library_inges.Storage.{Bytes, Sha256, holds, bytes_eq}
use technology_library_inges.Mutation.Validate.{tag}

abbrev pub receipt_version : String
receipt_version = "0.2.0"

abbrev pub transaction_plan_version : String
transaction_plan_version = "0.2.0"

-- `isinstance(value, str) and ID_RE.fullmatch(value)`
unfoldable pub is_id : Value → Bool
unfolding all_hex
is_id (str s) = count s == 20 && all_hex s
is_id v = false

unknown_id : ℕ → String → Value → Value × List String
unknown_id i key value =
    if is_null value
    then (null, [])
    else if is_id value
    then (value, [])
    else (null, tag i key ∷ [])

-- `_optional_id`: `null` stands for `None`.
unfoldable pub optional_id : ℕ → Value → String → Value × List String
unfolding unknown_id is_id
optional_id i item key = unknown_id i key (get key item)

-- An optional key of a row.
optional_field : String → Value → List (String × Value)
optional_field key null = []
optional_field key v = (key, v) ∷ []

-- The row of an item, or the codes that it adds.
abbrev pub ItemResult : Type 0
ItemResult = Option Value × List String

add_codes : List String → ItemResult → ItemResult
add_codes more (row, codes) = (row, more ++ codes)

when : Bool → String → List String
when true code = code ∷ []
when false code = []

module _ (sha256 : Sha256) (read : String → Option Bytes) where
  row_of : Value → Value → Value → Value → Value
  row_of item package_id revision_key candidate_id = obj (
      fields (
        (("lane", get "lane" item)
          ∷ ("action", get "action" item)
          ∷ ("record_id", get "record_id" item)
          ∷ ("target_path", get "target_path" item)
          ∷ ("content_sha256", get "content_sha256" item)
          ∷ [])
        ++ optional_field "package_id" package_id
        ++ optional_field "revision_key" revision_key
        ++ optional_field "candidate_id" candidate_id))

  pub compare_content : ℕ → Value → String → Value → Option Bytes → Option Bytes → ItemResult
  compare_content i row digest v none actual = (none, tag i "expected_content_missing" ∷ [])
  compare_content i row digest v (some expected) actual =
      if not (eq_str v (sha256 expected))
      then (none, tag i "expected_content_sha_changed" ∷ [])
      else if not (holds actual expected)
      then (none, tag i "target_bytes_mismatch" ∷ [])
      else (some row, [])

  with_provenance :
      ℕ
      → Value
      → String
      → String
      → Value × List String
      → Value × List String
      → Value × List String
      → ItemResult
  with_provenance i item target content (package_id, e1) (revision_key, e2) (candidate_id, e3) =
      add_codes
        (e1
          ++ e2
          ++ e3
          ++ when (eq_str (get "lane" item) "NEW" && (is_null package_id || is_null revision_key))
              (tag i "new_provenance_missing")
          ++ when (eq_str (get "lane" item) "UPDATE" && is_null candidate_id)
              (tag i "update_provenance_missing"))
        (compare_content i (row_of item package_id revision_key candidate_id) content
          (get "content_sha256" item) (read content) (read target))

  check_digest : ℕ → Value → String → String → ItemResult
  check_digest i item target content =
      if str_of_length 64 (get "content_sha256" item)
      then with_provenance i item target content (optional_id i item "package_id")
          (optional_id i item "revision_key") (optional_id i item "candidate_id")
      else (none, tag i "content_sha" ∷ [])

  check_content : ℕ → Value → String → Value → ItemResult
  check_content i item target (str content) =
      if starts_with content "99_INBOX/CANDIDATES/"
      then check_digest i item target content
      else (none, tag i "content_path" ∷ [])
  check_content i item target v = (none, tag i "content_path" ∷ [])

  check_target : ℕ → Value → Value → ItemResult
  check_target i item (str target) =
      if starts_with target "00_LIBRARY/"
      then check_content i item target (get "content_path" item)
      else (none, tag i "target" ∷ [])
  check_target i item v = (none, tag i "target" ∷ [])

  -- The tests that an item goes on from.
  identity_checks : ℕ → Value → List Check
  identity_checks i item =
      (in_set (get "lane" item) ("NEW" ∷ "UPDATE" ∷ []), tag i "lane")
      ∷ (in_set (get "action" item) ("CREATE" ∷ "UPDATE" ∷ "UNCHANGED" ∷ []), tag i "action")
      ∷ plain (is_id (get "record_id" item)) (tag i "record_id")
      ∷ []

  check_item : ℕ → Value → Result ItemResult
  check_item i item =
      if is_dict item
      then (do
        codes ← failures (identity_checks i item)
        ok (add_codes codes (check_target i item (get "target_path" item))))
      else ok (none, tag i "invalid" ∷ [])

  add_row : Option Value → List Value → List Value
  add_row none rows = rows
  add_row (some row) rows = row ∷ rows

  check_items : ℕ → List Value → Result (List Value × List String)
  check_items i [] = ok ([], [])
  check_items i (item ∷ items) = do
    one ← check_item i item
    rest ← check_items (suc i) items
    ok (add_row one.0 rest.0, one.1 ++ rest.1)

  header_checks : Value → Bytes → Bytes → List Check
  header_checks plan before after =
      plain (eq_nat (get "schema_version" plan) 1) "transaction_schema"
      ∷ plain (eq_str (get "transaction_plan_version" plan) transaction_plan_version)
          "transaction_version"
      ∷ plain (is_false (get "canonical_write_performed" plan)) "transaction_plan_write_flag"
      ∷ plain (eq_str (get "master_index_sha256" plan) (sha256 before)) "master_before_sha_mismatch"
      ∷ plain (not (is_empty after)) "master_after_missing"
      ∷ []

  -- `items`, and the code of a list that is none or too long.
  bounded_items : Value → List Value × List String
  bounded_items (arr vs) =
      if leb (length (items_list vs)) 50
      then (items_list vs, [])
      else ([], "transaction_items" ∷ [])
  bounded_items v = ([], "transaction_items" ∷ [])

  count_action : String → List Value → ℕ
  count_action action [] = 0
  count_action action (row ∷ rows) =
      let rest = count_action action rows in
      if eq_str (get "action" row) action then suc rest else rest

  unfoldable pub receipt_of : Value → Bytes → Bytes → List Value → Value
  unfolding count_action
  receipt_of plan before after rows = obj (
      fields (
        ("schema_version", int (pos 1))
        ∷ ("receipt_version", str receipt_version)
        ∷ ("transaction_id", get "transaction_id" plan)
        ∷ ("transaction_plan_version", get "transaction_plan_version" plan)
        ∷ ("state", str "VERIFIED_COMMITTED_STATE")
        ∷ ("master_index_before_sha256", str (sha256 before))
        ∷ ("master_index_after_sha256", str (sha256 after))
        ∷ ("master_index_changed", bool (not (str_eq (sha256 before) (sha256 after))))
        ∷ (
          "items",
          arr (
              list_items (
                sort_by
                  (λ (row : Value).
                    text_of (get "target_path" row) ∷ text_of (get "record_id" row) ∷ [])
                  rows)),
        )
        ∷ (
          "counts",
          obj (
              fields (
                ("items", int (pos (length rows)))
                ∷ ("create", int (pos (count_action "CREATE" rows)))
                ∷ ("update", int (pos (count_action "UPDATE" rows)))
                ∷ ("unchanged", int (pos (count_action "UNCHANGED" rows)))
                ∷ [])),
        )
        ∷ ("verification_only", bool true)
        ∷ ("candidate_settlement_eligible", bool true)
        ∷ ("canonical_write_performed", bool false)
        ∷ []))

  receipt_or_codes : Value → Bytes → Bytes → List Value → List String → Option Value × List String
  receipt_or_codes plan before after rows (code ∷ codes) = (none, sorted_set (code ∷ codes))
  receipt_or_codes plan before after rows [] = (some (receipt_of plan before after rows), [])

  verify_items :
      Value → Bytes → Bytes → List Value × List String → Result (Option Value × List String)
  verify_items plan before after (items, listed) = do
    header ← failures (header_checks plan before after)
    found ← check_items 0 items
    ok (receipt_or_codes plan before after found.0 (header ++ listed ++ found.1))

  unfoldable pub build_receipt : Value → Bytes → Bytes → Result (Option Value × List String)
  unfolding verify_items receipt_or_codes receipt_of count_action bounded_items header_checks
      check_items add_row check_item identity_checks check_target check_content check_digest
      with_provenance compare_content row_of optional_field add_codes when optional_id unknown_id
      is_id failures sorted_set sort_by holds text_of bytes_eq tag
  build_receipt plan before after =
      if is_dict plan
      then verify_items plan before after (bounded_items (get "items" plan))
      else ok (none, "transaction_plan_invalid" ∷ [])
