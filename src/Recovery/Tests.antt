-- ===== src/Recovery/Tests.antt =====
-- Runs of `execute_recovery`, and its theorems at concrete inputs.
use technology_library_inges.Base.{
  String, ◌≡◌, ◌≢◌, refl, true, false, Option, none, some, [], ◌∷◌, str_eq, str_eq→eq, str_eq-false,
  ok, inl, inr, starts_with, arith,
}
use technology_library_inges.Json.{Value, get, index, truthy, text_of, str_of_length, update}
use technology_library_inges.Storage.{Bytes, memory-IsFramed, memory-IsReliable}
use technology_library_inges.Samples.{
  sample_sha, healthy, no_files, with_file, one_byte, two_bytes, journal,
}
use technology_library_inges.Restart.Verify.{verify_recovered_state}
use technology_library_inges.Restart.Confirmed.{verify_recovered_state-execute_recovery}
use technology_library_inges.Recovery.Journal.{
  rows_of, row_path, existed_before, before_sha, snapshot_of,
}
use technology_library_inges.Recovery.Execute.{
  execute_recovery, verify_rollback_preconditions, recovered_journal,
}
use technology_library_inges.Recovery.Execute.Contract.{
  Recovered, execute_recovery-Recovered, execute_recovery-frame, execute_recovery_exact,
}
use technology_library_inges.Recovery.Execute.Completion.{execute_recovery_completes}

abbrev snapshot : String → String
snapshot name = name

-- Before the transaction, and where it was interrupted.
abbrev before : String → Option Bytes
before =
    with_file "00_LIBRARY/MASTER_INDEX.md" one_byte
      (with_file "99_INBOX/CANDIDATES/PRODUCTION_RECOVERY/t1/m" one_byte no_files)

abbrev interrupted : String → Option Bytes
interrupted =
    with_file "00_LIBRARY/a.md" two_bytes (with_file "00_LIBRARY/MASTER_INDEX.md" two_bytes before)

recovered : Value
recovered =
    recovered_journal healthy sample_sha journal
      (record { restored = 1; removed = 1; verified = 2 })

run_recovered :
    (execute_recovery healthy sample_sha journal true interrupted).0 ≡ ok (some recovered, [])
unfolding execute_recovery recovered get index truthy text_of str_of_length str_eq starts_with
    update
run_recovered = refl

preconditions : verify_rollback_preconditions healthy sample_sha journal interrupted ≡ ok []
unfolding execute_recovery get index truthy text_of str_of_length str_eq starts_with
preconditions = refl

-- A snapshot that does not have the recorded digest stops the rollback.
run_bad_snapshot :
    (execute_recovery healthy sample_sha journal false
      (with_file "99_INBOX/CANDIDATES/PRODUCTION_RECOVERY/t1/m" two_bytes interrupted)).0
    ≡ ok (none, "snapshot_sha_mismatch:00_LIBRARY/MASTER_INDEX.md" ∷ [])
unfolding execute_recovery recovered get index truthy text_of str_of_length str_eq starts_with
    update
run_bad_snapshot = refl

execute_recovery-Recovered_example :
    Recovered healthy
      (memory-IsFramed [])
      sample_sha
      journal
      recovered
      interrupted
      (execute_recovery healthy sample_sha journal true interrupted).1
execute_recovery-Recovered_example =
    execute_recovery-Recovered healthy (memory-IsFramed []) sample_sha journal recovered true
      interrupted run_recovered

execute_recovery-frame_example :
    healthy.read (execute_recovery healthy sample_sha journal true interrupted).1 "00_LIBRARY/c.md"
    ≡ healthy.read interrupted "00_LIBRARY/c.md"
unfolding rows_of row_path get text_of str_eq
execute_recovery-frame_example =
    execute_recovery-frame healthy (memory-IsFramed []) sample_sha journal true interrupted
      "00_LIBRARY/c.md" (str_eq-false _ _ refl, (str_eq-false _ _ refl, tt))

interrupted_elsewhere :
    (q : String)
    → q ≢ "00_LIBRARY/a.md"
    → q ≢ "00_LIBRARY/MASTER_INDEX.md"
    → interrupted q ≡ before q
interrupted_elsewhere q a m =
    ground (arith, str_eq→eq "00_LIBRARY/a.md" q, str_eq→eq "00_LIBRARY/MASTER_INDEX.md" q)

execute_recovery_exact_example :
    healthy.read (execute_recovery healthy sample_sha journal true interrupted).1 "00_LIBRARY/a.md"
    ≡ healthy.read before "00_LIBRARY/a.md"
unfolding rows_of row_path existed_before before_sha snapshot_of get text_of truthy str_eq
execute_recovery_exact_example =
    execute_recovery_exact healthy (memory-IsFramed []) sample_sha journal recovered true before
      interrupted (refl, ((one_byte, refl, refl), tt)) (λ q f. interrupted_elsewhere q f.0 f.1.0)
      run_recovered "00_LIBRARY/a.md"

execute_recovery_completes_example :
    (j : Value) × ((execute_recovery healthy sample_sha journal true interrupted).0
      ≡ ok (some j, []))
unfolding rows_of row_path existed_before before_sha snapshot_of get text_of truthy str_eq
execute_recovery_completes_example =
    execute_recovery_completes healthy (memory-IsFramed []) memory-IsReliable sample_sha journal
      interrupted preconditions (inr (inl (refl, refl, refl)))

verify_recovered_state-execute_recovery_example :
    verify_recovered_state sample_sha
      (healthy.read (execute_recovery healthy sample_sha journal true interrupted).1)
      journal
    ≡ []
verify_recovered_state-execute_recovery_example =
    verify_recovered_state-execute_recovery healthy sample_sha (memory-IsFramed []) journal
      recovered true interrupted run_recovered
