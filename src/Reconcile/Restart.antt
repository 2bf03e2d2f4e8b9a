-- ===== src/Reconcile/Restart.antt =====
-- `classify_restart` and `_canonical_equals_before` of src/candidate_committed_reconciliation.py.
pub mod Before
pub mod Routed
use technology_library_inges.Base.{
  String, ◌<>◌, Bool, true, false, not, ◌&&◌, ◌||◌, Option, none, some, List, [], ◌∷◌, is_empty,
  str_eq, if◌then◌else◌, contains, starts_with, Result, ok, ◌>>=◌,
}
use technology_library_inges.Json.{
  Value, get, is_dict, is_list, is_true, is_false, is_null, eq_str, nonempty_str, in_set, value_eq,
  text_of,
}
use technology_library_inges.Storage.{Bytes, Storage, Sha256}
use technology_library_inges.Recovery.Journal.{
  Row, list_of, rows_of, row_path, master_path, recoverable_states,
}
use technology_library_inges.Recovery.Execute.{verify_rollback_preconditions}
use technology_library_inges.Planning.Names.{matches, is_sha}
use technology_library_inges.Reconcile.Proof.{safe_canonical, has_master, proof_errors}
use technology_library_inges.Reconcile.Release.{
  Coordinator, Answer, identity_fields, reconcile_committed_release,
}

pub all_texts : Value → List String → Bool
all_texts journal [] = true
all_texts journal (key ∷ keys) = nonempty_str (get key journal) && all_texts journal keys

pub same_fields : Value → Value → List String → Bool
same_fields coordinator journal [] = true
same_fields coordinator journal (key ∷ keys) =
    value_eq (get key coordinator) (get key journal) && same_fields coordinator journal keys

-- A coordinator whose document is known and that nothing is asked of.
abbrev seen_only : Value → Coordinator
seen_only document = record {
  World = Unit {0};
  read_owner = λ w. (document, []);
  release_once = λ identity digest w. w;
}

abbrev block : String → Result Answer
block code = ok ("BLOCKED", code ∷ [])

module _ (S : Storage) (sha256 : Sha256) (parse : Bytes → Option Value) where
  -- `content is None or digest(content) != before`, negated.
  pub same_digest : Option Bytes → Value → Bool
  same_digest none before = false
  same_digest (some bytes) before = eq_str before (sha256 bytes)

  is_absent : Option Bytes → Bool
  is_absent none = true
  is_absent (some bytes) = false

  pub entry_equals : String → Value → String → S.State → Bool
  entry_equals run_root entry path s =
      if is_true (get "existed_before" entry)
      then matches is_sha (get "before_sha256" entry)
        && matches (λ snap. starts_with snap (run_root <> "/snapshots/"))
            (get "snapshot_path" entry)
        && same_digest (S.read s (text_of (get "snapshot_path" entry))) (get "before_sha256" entry)
        && same_digest (S.read s path) (get "before_sha256" entry)
      else is_false (get "existed_before" entry)
        && is_null (get "before_sha256" entry)
        && is_absent (S.read s path)

  pub rows_equal : String → List String → List Row → S.State → Bool
  rows_equal run_root touched [] s = true
  rows_equal run_root touched ((key, entry) ∷ rest) s =
      let path = text_of (get key entry) in
      is_dict entry
      && safe_canonical (get key entry)
      && not (contains touched path)
      && entry_equals run_root entry path s
      && rows_equal run_root (path ∷ touched) rest s

  or_empty : Option Bytes → Bytes
  or_empty none = []
  or_empty (some bytes) = bytes

  unfoldable pub canonical_equals_before : Value → S.State → Bool
  unfolding rows_equal entry_equals same_digest is_absent or_empty rows_of text_of safe_canonical
      is_sha starts_with
  canonical_equals_before journal s =
      is_true (get "snapshots_verified" journal)
      && (is_list (get "items" journal) && is_list (get "indexes" journal))
      && not (is_empty (list_of (get "items" journal)))
      && not (is_empty (list_of (get "indexes" journal)))
      && rows_equal (text_of (get "run_root" journal)) [] (rows_of journal) s
      && (has_master (rows_of journal)
          && eq_str (get "master_index_before_sha256" journal)
              (sha256 (or_empty (S.read s master_path))))

  from_release : Answer × Unit {0} → Answer
  from_release ((state, codes), w) =
      if str_eq state "ALREADY_RELEASED" then ("ALREADY_RELEASED", []) else ("BLOCKED", codes)

  committed_route : Value → Value → Bytes → S.State → List String → Result Answer
  committed_route journal coordinator raw s (code ∷ codes) = ok ("BLOCKED", code ∷ codes)
  committed_route journal coordinator raw s [] =
      if eq_str (get "state" coordinator) "FREE"
      then (do
        result ←
            reconcile_committed_release (seen_only coordinator) sha256 parse (S.read s) (S.read s)
              journal raw tt
        ok (from_release result))
      else if eq_str (get "state" coordinator) "ACTIVE"
          && is_true (get "canonical_write_performed" coordinator)
          && same_fields coordinator journal identity_fields
      then ok ("RECONCILE_COMMITTED", [])
      else block "restart_commit_owner_mismatch"

  with_receipt : Value → Value → Option Bytes → S.State → Result Answer
  with_receipt journal coordinator none s = block "committed_receipt_unavailable"
  with_receipt journal coordinator (some raw) s = do
    errors ← proof_errors sha256 parse (S.read s) (S.read s) journal raw
    committed_route journal coordinator raw s errors

  prepared_route : Value → Value → S.State → Result Answer
  prepared_route journal coordinator s =
      if not (is_false (get "canonical_write_performed" coordinator))
        || not (is_true (get "snapshots_verified" journal))
      then block "restart_prewrite_uncertain"
      else if not (canonical_equals_before journal s)
      then block "restart_prewrite_content_changed"
      else ok ("SAFE_PREWRITE_ABORT", [])

  as_recover : List String → Answer
  as_recover [] = ("RECOVER_UNCOMMITTED", [])
  as_recover (code ∷ codes) = ("BLOCKED", code ∷ codes)

  recovered_ok : Value → Value → S.State → Bool
  recovered_ok journal coordinator s =
      is_true (get "canonical_write_performed" coordinator)
      && is_true (get "rollback_verified" journal)
      && is_true (get "restart_recovery_verified" journal)
      && is_true (get "coordinator_release_allowed" journal)
      && canonical_equals_before journal s

  other_route : Value → Value → S.State → Bool → Result Answer
  other_route journal coordinator s true =
      if not (is_true (get "canonical_write_performed" coordinator))
      then block "restart_write_boundary_unconfirmed"
      else (do
        problems ← verify_rollback_preconditions S sha256 journal s
        ok (as_recover problems))
  other_route journal coordinator s false =
      if eq_str (get "state" journal) "RECOVERED"
      then (if recovered_ok journal coordinator s
          then ok ("RELEASE_RECOVERED", [])
          else block "restart_recovered_state_unverified")
      else block "restart_journal_state_unsupported"

  owned_route : Value → Value → S.State → Result Answer
  owned_route journal coordinator s =
      if not (eq_str (get "state" coordinator) "ACTIVE")
        || not (same_fields coordinator journal identity_fields)
      then block "restart_owner_mismatch"
      else if eq_str (get "state" journal) "PREPARED"
      then prepared_route journal coordinator s
      else (do
        interrupted ← in_set (get "state" journal) recoverable_states
        other_route journal coordinator s interrupted)

  unfoldable pub classify_restart : Value → Value → Option Bytes → S.State → Result Answer
  unfolding owned_route other_route recovered_ok as_recover prepared_route with_receipt
      committed_route from_release same_fields all_texts canonical_equals_before proof_errors
      reconcile_committed_release
  classify_restart journal coordinator receipt_raw s =
      if not (is_dict journal) || not (is_dict coordinator)
      then block "restart_evidence_unavailable"
      else if not (all_texts journal identity_fields)
      then block "restart_journal_identity_invalid"
      else if eq_str (get "state" journal) "COMMITTED"
      then with_receipt journal coordinator receipt_raw s
      else owned_route journal coordinator s
