-- ===== src/Reconcile/Tests.antt =====
-- Runs of src/candidate_committed_reconciliation.py on concrete documents.
use technology_library_inges.Base.{
  String, ◌<>◌, ◌≡◌, refl, true, false, Option, none, some, List, [], ◌∷◌, ok, str_eq,
}
use technology_library_inges.Json.{
  Value, bool, str, arr, obj, fields, get, index, list_items, update, value_eq,
}
use technology_library_inges.Storage.{Bytes}
use technology_library_inges.Samples.{
  healthy, ones, twos, one_byte, two_bytes, no_files, with_file, sample_sha,
}
use technology_library_inges.Reconcile.Proof.{proof_errors}
use technology_library_inges.Reconcile.Proof.Proven.{Proven, proof_errors-Proven}
use technology_library_inges.Reconcile.Release.{Coordinator, reconcile_committed_release}
use technology_library_inges.Reconcile.Release.Once.{
  Reconciled, reconcile_committed_release-Reconciled,
}
use technology_library_inges.Reconcile.Restart.{classify_restart}
use technology_library_inges.Reconcile.Restart.Routed.{Routed, classify_restart-Routed}

abbrev run_root : String
run_root =
    "99_INBOX/CANDIDATES/PRODUCTION_RECOVERY/11111111111111111111/candidate-publisher-111111111111"

abbrev identity : List (String × Value)
identity =
    ("transaction_id", str "11111111111111111111")
    ∷ ("batch_id", str "b1")
    ∷ ("owner", str "candidate-publisher-111111111111")
    ∷ ("journal_path", str (run_root <> "/journal.json"))
    ∷ []

-- One record that was created, and the master index.
abbrev committed : Value
committed = update (obj (fields identity)) (
    ("run_root", str run_root)
    ∷ ("state", str "COMMITTED")
    ∷ ("canonical_write_performed", bool true)
    ∷ ("snapshots_verified", bool true)
    ∷ ("live_preconditions_verified_under_ownership", bool true)
    ∷ ("coordinator_release_allowed", bool true)
    ∷ ("candidate_settlement_eligible", bool true)
    ∷ ("receipt_sha256", str twos)
    ∷ ("master_index_before_sha256", str twos)
    ∷ (
      "items",
      arr (
          list_items (
            obj (
              fields (
                ("target_path", str "00_LIBRARY/a.md")
                ∷ ("action", str "CREATE")
                ∷ ("record_id", str "r1")
                ∷ ("existed_before", bool false)
                ∷ ("after_sha256", str twos)
                ∷ []))
            ∷ [])),
    )
    ∷ (
      "indexes",
      arr (
          list_items (
            obj (
              fields (
                ("path", str "00_LIBRARY/MASTER_INDEX.md")
                ∷ ("existed_before", bool true)
                ∷ ("before_sha256", str twos)
                ∷ ("snapshot_path", str (run_root <> "/snapshots/m"))
                ∷ ("after_sha256", str ones)
                ∷ []))
            ∷ [])),
    )
    ∷ [])

abbrev receipt : Value
receipt = obj (
    fields (
      ("state", str "VERIFIED_COMMITTED_STATE")
      ∷ ("transaction_id", str "11111111111111111111")
      ∷ ("verification_only", bool true)
      ∷ ("candidate_settlement_eligible", bool true)
      ∷ ("canonical_write_performed", bool false)
      ∷ ("master_index_before_sha256", str twos)
      ∷ ("master_index_after_sha256", str ones)
      ∷ (
        "items",
        arr (
            list_items (
              obj (
                fields (
                  ("target_path", str "00_LIBRARY/a.md")
                  ∷ ("content_sha256", str twos)
                  ∷ ("action", str "CREATE")
                  ∷ ("record_id", str "r1")
                  ∷ []))
              ∷ [])),
      )
      ∷ []))

abbrev parse : Bytes → Option Value
parse bytes = some receipt

abbrev canonical : String → Option Bytes
canonical =
    with_file "00_LIBRARY/a.md" two_bytes (with_file "00_LIBRARY/MASTER_INDEX.md" one_byte no_files)

abbrev private : String → Option Bytes
private = with_file (run_root <> "/snapshots/m") two_bytes no_files

test_proof : proof_errors sample_sha parse canonical private committed two_bytes ≡ ok []
unfolding proof_errors get str_eq value_eq index update
test_proof = refl

test_proof_missing :
    proof_errors sample_sha parse no_files private committed two_bytes
    ≡ ok ("commit_canonical_mismatch" ∷ [])
unfolding proof_errors get str_eq value_eq index update
test_proof_missing = refl

abbrev held : Value
held =
    update (obj (fields identity))
      (("state", str "ACTIVE") ∷ ("canonical_write_performed", bool true) ∷ [])

abbrev freed : Value
freed = obj (
    fields (
      ("state", str "FREE")
      ∷ ("release_reason", str "VERIFIED_COMMITTED")
      ∷ ("released_receipt_sha256", str twos)
      ∷ ("released_transaction_id", str "11111111111111111111")
      ∷ ("released_batch_id", str "b1")
      ∷ ("released_by_owner", str "candidate-publisher-111111111111")
      ∷ ("released_journal_path", str (run_root <> "/journal.json"))
      ∷ []))

-- A coordinator whose document is the whole world.
abbrev coordinator : Coordinator
coordinator = record {
  World = Value;
  read_owner = λ w. (w, []);
  release_once = λ fields digest w. freed;
}

-- One that loses the release.
abbrev silent : Coordinator
silent = record { World = Value; read_owner = λ w. (w, []); release_once = λ fields digest w. w }

test_released :
    reconcile_committed_release coordinator sample_sha parse canonical private committed two_bytes
      held
    ≡ ok (("RELEASED", []), freed)
unfolding reconcile_committed_release proof_errors get str_eq value_eq index update
test_released = refl

test_already :
    reconcile_committed_release coordinator sample_sha parse canonical private committed two_bytes
      freed
    ≡ ok (("ALREADY_RELEASED", []), freed)
unfolding reconcile_committed_release proof_errors get str_eq value_eq index update
test_already = refl

test_lost :
    reconcile_committed_release silent sample_sha parse canonical private committed two_bytes held
    ≡ ok (("UNCERTAIN", "commit_release_unconfirmed" ∷ []), held)
unfolding reconcile_committed_release proof_errors get str_eq value_eq index update
test_lost = refl

proof_errors-Proven_example : Proven sample_sha parse canonical private committed two_bytes
proof_errors-Proven_example =
    proof_errors-Proven sample_sha parse canonical private committed two_bytes test_proof

reconcile_committed_release-Reconciled_example :
    Reconciled coordinator sample_sha parse canonical private committed two_bytes held "RELEASED"
      freed
reconcile_committed_release-Reconciled_example =
    reconcile_committed_release-Reconciled coordinator sample_sha parse canonical private committed
      two_bytes held freed "RELEASED" [] test_released

-- The files after the transaction, and those from before it.
abbrev after_files : String → Option Bytes
after_files = with_file (run_root <> "/snapshots/m") two_bytes canonical

abbrev before_files : String → Option Bytes
before_files = with_file "00_LIBRARY/MASTER_INDEX.md" two_bytes private

abbrev prepared : Value
prepared = update committed (("state", str "PREPARED") ∷ [])

abbrev unarmed : Value
unarmed = update held (("canonical_write_performed", bool false) ∷ [])

test_reconcile :
    classify_restart healthy sample_sha parse committed held (some two_bytes) after_files
    ≡ ok ("RECONCILE_COMMITTED", [])
unfolding classify_restart get str_eq value_eq index update
test_reconcile = refl

test_no_receipt :
    classify_restart healthy sample_sha parse committed held none after_files
    ≡ ok ("BLOCKED", "committed_receipt_unavailable" ∷ [])
unfolding classify_restart get str_eq value_eq index update
test_no_receipt = refl

test_abort :
    classify_restart healthy sample_sha parse prepared unarmed none before_files
    ≡ ok ("SAFE_PREWRITE_ABORT", [])
unfolding classify_restart get str_eq value_eq index update
test_abort = refl

test_changed :
    classify_restart healthy sample_sha parse prepared unarmed none after_files
    ≡ ok ("BLOCKED", "restart_prewrite_content_changed" ∷ [])
unfolding classify_restart get str_eq value_eq index update
test_changed = refl

classify_restart-Routed_example :
    Routed healthy sample_sha parse prepared unarmed none before_files "SAFE_PREWRITE_ABORT"
classify_restart-Routed_example =
    classify_restart-Routed healthy sample_sha parse prepared unarmed none before_files
      "SAFE_PREWRITE_ABORT" [] test_abort
