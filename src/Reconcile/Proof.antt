-- ===== src/Reconcile/Proof.antt =====
-- `proof_errors` of src/candidate_committed_reconciliation.py. The JSON parser, which refuses a key that
-- stands twice, is a parameter, as are the digest and the two readers.
pub mod Proven
use technology_library_inges.Base.{
  ℕ, zero, suc, String, ◌<>◌, Bool, true, false, not, ◌&&◌, ◌||◌, Option, none, some, List, [], ◌∷◌,
  ◌++◌, map, ltb, leb, ◌==◌, count, length, is_empty, str_eq, if◌then◌else◌, contains, subset,
  starts_with, ends_with, has_part, all_hex, Check, plain, first_failure, Result, ok, ◌>>=◌,
}
use technology_library_inges.Json.{
  Value, str, arr, get, index, is_dict, is_list, is_true, is_false, is_null, eq_str, nonempty_str,
  value_eq, text_of,
}
use technology_library_inges.Paths.{posix_path, is_absolute, parts}
use technology_library_inges.Storage.{Bytes, Sha256}
use technology_library_inges.Recovery.Journal.{
  Row, keyed, list_of, rows_of, master_path, snapshot_root,
}
use technology_library_inges.Planning.Names.{matches, is_id, is_sha}

-- `isinstance(path, str)` and the tests of its text.
unfoldable pub safe_canonical : Value → Bool
unfolding starts_with ends_with has_part posix_path is_absolute parts
safe_canonical (str path) =
    not (has_part path "\\")
    && not (has_part path "//")
    && starts_with path "00_LIBRARY/"
    && not (is_absolute (posix_path path))
    && not (contains (parts (posix_path path)) "..")
    && ends_with path ".md"
safe_canonical v = false

-- The text after its first characters.
drop : ℕ → String → String
drop n String.[] = ""
drop zero s = s
drop (suc n) (String.◌∷◌ c s) = drop n s

-- `^candidate-publisher-[0-9a-f]{12}$`
is_owner : String → Bool
is_owner s = starts_with s "candidate-publisher-" && count s == 32 && all_hex (drop 20 s)

key_text : String → Value → String
key_text key journal = text_of (get key journal)

pub is_committed : Value → Bool
is_committed journal =
    matches is_id (get "transaction_id" journal)
    && matches is_owner (get "owner" journal)
    && nonempty_str (get "batch_id" journal)
    && eq_str (get "run_root" journal)
        (snapshot_root <> (key_text "transaction_id" journal <> ("/" <> key_text "owner" journal)))
    && eq_str (get "journal_path" journal) (key_text "run_root" journal <> "/journal.json")
    && eq_str (get "state" journal) "COMMITTED"
    && is_true (get "canonical_write_performed" journal)
    && is_true (get "snapshots_verified" journal)
    && is_true (get "live_preconditions_verified_under_ownership" journal)
    && is_true (get "coordinator_release_allowed" journal)
    && is_true (get "candidate_settlement_eligible" journal)
    && matches is_sha (get "receipt_sha256" journal)

pub is_receipt : Value → Value → Bool
is_receipt journal receipt =
    is_dict receipt
    && eq_str (get "state" receipt) "VERIFIED_COMMITTED_STATE"
    && value_eq (get "transaction_id" receipt) (get "transaction_id" journal)
    && is_true (get "verification_only" receipt)
    && is_true (get "candidate_settlement_eligible" receipt)
    && is_false (get "canonical_write_performed" receipt)
    && value_eq (get "master_index_before_sha256" receipt)
        (get "master_index_before_sha256" journal)
    && matches is_sha (get "master_index_after_sha256" receipt)

within : ℕ → ℕ → ℕ → Bool
within low high n = leb low n && leb n high

has_inventory : Value → Value → Bool
has_inventory journal receipt =
    is_list (get "items" journal)
    && within 1 50 (length (list_of (get "items" journal)))
    && is_list (get "indexes" journal)
    && within 1 100 (length (list_of (get "indexes" journal)))
    && is_list (get "items" receipt)
    && length (list_of (get "items" receipt)) == length (list_of (get "items" journal))

-- The first code of the loop that fills `receipt_by_path`.
receipt_checks : List String → List Value → List Check
receipt_checks seen [] = []
receipt_checks seen (r ∷ rest) =
    plain (is_dict r && safe_canonical (get "target_path" r)) "committed_receipt_items_invalid"
    ∷ plain (not (contains seen (key_text "target_path" r))) "committed_receipt_duplicate"
    ∷ receipt_checks (key_text "target_path" r ∷ seen) rest

pub receipt_by_path : List Value → String → Option Value
receipt_by_path [] path = none
receipt_by_path (r ∷ rest) path =
    if str_eq (key_text "target_path" r) path then some r else receipt_by_path rest path

paths_of : List Value → List String
paths_of rows = map (key_text "target_path") rows

pub is_bound : Value → Option Value → Bool
is_bound entry none = false
is_bound entry (some r) =
    value_eq (get "content_sha256" r) (get "after_sha256" entry)
    && value_eq (get "action" r) (get "action" entry)
    && value_eq (get "record_id" r) (get "record_id" entry)

pub has_master : List Row → Bool
has_master [] = false
has_master ((key, entry) ∷ rest) = str_eq (key_text key entry) master_path || has_master rest

is_complete : Value → Value → Bool
is_complete journal receipt =
    let targets = paths_of (list_of (get "items" journal)) in
    let receipts = paths_of (list_of (get "items" receipt)) in
    has_master (rows_of journal) && subset receipts targets && subset targets receipts

as_list : Option String → List String
as_list none = []
as_list (some code) = code ∷ []

module _ (sha256 : Sha256) (parse : Bytes → Option Value)
    (read_canonical read_private : String → Option Bytes) where
  has_digest : Option Bytes → Value → Bool
  has_digest none expected = false
  has_digest (some bytes) expected = eq_str expected (sha256 bytes)

  snapshot_checks : String → Value → List Check
  snapshot_checks run_root entry =
      if is_true (get "existed_before" entry)
      then plain
          (matches is_sha (get "before_sha256" entry)
            && matches
                (λ s.
                  starts_with s (run_root <> "/snapshots/")
                  && not (contains (parts (posix_path s)) ".."))
                (get "snapshot_path" entry))
          "commit_before_snapshot_invalid"
        ∷ plain
            (has_digest (read_private (key_text "snapshot_path" entry)) (get "before_sha256" entry))
            "commit_snapshot_changed"
        ∷ []
      else plain
          (is_false (get "existed_before" entry)
            && is_null (get "before_sha256" entry)
            && is_null (get "snapshot_path" entry))
          "commit_create_prestate_invalid"
        ∷ []

  -- `receipt["master_index_before_sha256"]` raises if the receipt has no such key.
  master_binding : Value → Value → Result Bool
  master_binding receipt entry =
      if value_eq (get "after_sha256" entry) (get "master_index_after_sha256" receipt)
      then (do
        before ← index "master_index_before_sha256" receipt
        ok (value_eq (get "before_sha256" entry) before))
      else ok false

  bound_checks : Value → Row → List Check
  bound_checks receipt (key, entry) =
      if str_eq key "target_path"
      then plain
          (is_bound entry (receipt_by_path (list_of (get "items" receipt)) (key_text key entry)))
          "commit_receipt_item_unbound"
        ∷ []
      else []

  master_checks : Value → Row → List Check
  master_checks receipt (key, entry) =
      if str_eq (key_text key entry) master_path
      then (master_binding receipt entry, "commit_master_binding_invalid") ∷ []
      else []

  pub row_checks : String → Value → List String → Row → List Check
  row_checks run_root receipt seen (key, entry) =
      plain (is_dict entry && safe_canonical (get key entry)) "commit_path_invalid"
      ∷ plain (not (contains seen (key_text key entry))) "commit_paths_duplicate"
      ∷ plain (matches is_sha (get "after_sha256" entry)) "commit_after_hash_missing"
      ∷ (snapshot_checks run_root entry
          ++ (plain (has_digest (read_canonical (key_text key entry)) (get "after_sha256" entry))
                "commit_canonical_mismatch"
              ∷ [])
          ++ bound_checks receipt (key, entry)
          ++ master_checks receipt (key, entry))

  pub rows_checks : String → Value → List String → List Row → List Check
  rows_checks run_root receipt seen [] = []
  rows_checks run_root receipt seen ((key, entry) ∷ rest) =
      row_checks run_root receipt seen (key, entry)
      ++ rows_checks run_root receipt (key_text key entry ∷ seen) rest

  -- The two loops and the last test.
  pub inventory_checks : Value → Value → List Check
  inventory_checks journal receipt =
      receipt_checks [] (list_of (get "items" receipt))
      ++ rows_checks (key_text "run_root" journal) receipt [] (rows_of journal)
      ++ (plain (is_complete journal receipt) "commit_index_or_items_incomplete" ∷ [])

  with_receipt : Value → Option Value → Result (List String)
  with_receipt journal none = ok ("committed_receipt_json_invalid" ∷ [])
  with_receipt journal (some receipt) =
      if not (is_receipt journal receipt)
      then ok ("committed_receipt_identity_invalid" ∷ [])
      else if not (has_inventory journal receipt)
      then ok ("commit_inventory_invalid" ∷ [])
      else (do failure ← first_failure (inventory_checks journal receipt); ok (as_list failure))

  receipt_ok : Value → Bytes → Bool
  receipt_ok journal raw =
      ltb 0 (length raw)
      && leb (length raw) 131072
      && eq_str (get "receipt_sha256" journal) (sha256 raw)

  unfoldable pub proof_errors : Value → Bytes → Result (List String)
  unfolding with_receipt is_committed is_receipt has_inventory within receipt_ok inventory_checks
      receipt_checks rows_checks row_checks snapshot_checks bound_checks master_checks
      master_binding receipt_by_path is_bound has_digest has_master is_complete paths_of as_list
      key_text is_owner drop safe_canonical first_failure is_id is_sha rows_of text_of starts_with
      posix_path parts subset all_hex
  proof_errors journal raw =
      if not (is_dict journal)
      then ok ("commit_journal_invalid" ∷ [])
      else if not (is_committed journal)
      then ok ("commit_journal_unverified" ∷ [])
      else if not (receipt_ok journal raw)
      then ok ("committed_receipt_hash_mismatch" ∷ [])
      else with_receipt journal (parse raw)
