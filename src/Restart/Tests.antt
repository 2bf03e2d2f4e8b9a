-- ===== src/Restart/Tests.antt =====
-- Runs of src/candidate_production_recover.py on concrete documents.
use technology_library_inges.Base.{
  ℕ, String, ◌≡◌, refl, Bool, true, false, Option, none, some, List, [], ◌∷◌, All, ◌↔◌, ok, str_eq,
}
use technology_library_inges.Json.{
  Value, bool, str, arr, obj, fields, get, list_items, eq_str, value_eq,
}
use technology_library_inges.Samples.{
  ones, twos, one_byte, two_bytes, no_files, with_file, sample_sha,
}
use technology_library_inges.Restart.Classify.{
  identity_keys, validate_identity, classify_restart_action,
}
use technology_library_inges.Restart.Classify.Routes.{
  Allowed, Same, classify_restart_action-Allowed,
}
use technology_library_inges.Restart.Verify.{verify_recovered_state}
use technology_library_inges.Restart.Verify.Back.{StateIsBack, verify_recovered_state_iff}

abbrev document : String → Bool → Value
document state started = obj (
    fields (
      ("state", str state)
      ∷ ("transaction_id", str "t1")
      ∷ ("batch_id", str "b1")
      ∷ ("owner", str "o1")
      ∷ ("journal_path", str "j1")
      ∷ ("canonical_write_performed", bool started)
      ∷ []))

test_recover :
    classify_restart_action (document "ACTIVE" true) (document "VERIFYING" true)
    ≡ ok (some "RECOVER", [])
unfolding classify_restart_action validate_identity get str_eq value_eq
test_recover = refl

test_committed :
    classify_restart_action (document "ACTIVE" true) (document "COMMITTED" true)
    ≡ ok (none, "committed_journal_must_not_be_recovered" ∷ [])
unfolding classify_restart_action validate_identity get str_eq value_eq
test_committed = refl

test_unauthorized :
    classify_restart_action (document "ACTIVE" false) (document "WRITING_RECORDS" true)
    ≡ ok (some "PREWRITE_ABORT", [])
unfolding classify_restart_action validate_identity get str_eq value_eq
test_unauthorized = refl

test_free :
    classify_restart_action (document "FREE" true) (document "VERIFYING" true)
    ≡ ok (none, "coordinator_not_active" ∷ [])
unfolding classify_restart_action validate_identity get str_eq value_eq
test_free = refl

classify_restart_action-Allowed_example :
    (◌≡◌ {A = List String} [] [])
    × (eq_str (get "state" (document "ACTIVE" true)) "ACTIVE" ≡ true)
    × All (Same (document "ACTIVE" true) (document "VERIFYING" true)) identity_keys
    × Allowed (document "ACTIVE" true) (document "VERIFYING" true) "RECOVER"
classify_restart_action-Allowed_example =
    classify_restart_action-Allowed (document "ACTIVE" true) (document "VERIFYING" true) "RECOVER"
      [] test_recover

-- One record that was updated, one that was created, and the master index.
abbrev journal : Value
journal = obj (
    fields (
      (
        "items",
        arr (
            list_items (
              obj (
                fields (
                  ("target_path", str "00_LIBRARY/a.md")
                  ∷ ("existed_before", bool true)
                  ∷ ("before_sha256", str twos)
                  ∷ []))
              ∷ obj (
                  fields
                    (("target_path", str "00_LIBRARY/b.md") ∷ ("existed_before", bool false) ∷ []))
              ∷ [])),
      )
      ∷ ("indexes", arr (list_items []))
      ∷ ("master_index_before_sha256", str ones)
      ∷ []))

abbrev library : String → Option (List ℕ)
library =
    with_file "00_LIBRARY/a.md" two_bytes (with_file "00_LIBRARY/MASTER_INDEX.md" one_byte no_files)

test_verified : verify_recovered_state sample_sha library journal ≡ []
unfolding verify_recovered_state get str_eq
test_verified = refl

test_mismatch :
    verify_recovered_state sample_sha (with_file "00_LIBRARY/b.md" one_byte no_files) journal
    ≡ "master_restore_sha_mismatch" ∷ "recovered_created_path_still_present:00_LIBRARY/b.md"
      ∷ "recovered_path_mismatch:00_LIBRARY/a.md" ∷ []
unfolding verify_recovered_state get str_eq
test_mismatch = refl

verify_recovered_state_iff_example :
    (verify_recovered_state sample_sha library journal ≡ [])
    ↔ StateIsBack sample_sha library journal
verify_recovered_state_iff_example = verify_recovered_state_iff sample_sha library journal
