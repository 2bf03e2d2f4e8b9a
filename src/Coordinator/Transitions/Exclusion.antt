-- ===== src/Coordinator/Transitions/Exclusion.antt =====
-- Mutual exclusion of src/candidate_production_coordinator.py: what another identity can do while the
-- lease is held.
use technology_library_inges.Base.{
  String, ◌<>◌, ◌≡◌, refl, Bool, true, false, some, List, [], ◌∷◌, str_eq, Result, ok, ok-injective,
  Bool-cases, inl, inr, All,
}
use technology_library_inges.Json.{Value, null, bool, int, arr, obj, str, get, is_dict}
use technology_library_inges.Storage.{Sha256}
use technology_library_inges.Coordinator.State.{Identity, same_identity, is_active, released}
use technology_library_inges.Coordinator.Drive.{Drive, Codec, read_state}
use technology_library_inges.Coordinator.Transitions.{
  observe, usable, is_digest, Answer, acquire_from, acquire_read, acquire, holds, release_from,
  release_read, mark_canonical_write_started, mark_read, mark_from, release_prewrite_abort,
  release_committed, release_recovered,
}
use technology_library_inges.Coordinator.Drive.Leased.{ensure_initialized-reads}
use technology_library_inges.Coordinator.Transitions.Outcomes.{
  Release, prewrite_abort, after_commit, after_recovery, run_release,
}

-- The operations of the coordinator.
pub data Operation : Type 0 where
  acquiring marking : Operation
  releasing : Release → Operation

module _ (D : Drive) (codec : Codec) (sha256 : Sha256) where
  -- An operation of the coordinator on behalf of an identity.
  pub run : Operation → Identity → D.State → Answer D codec sha256
  run acquiring id s = acquire D codec sha256 id s
  run marking id s = mark_canonical_write_started D codec sha256 id s
  run (releasing r) id s = run_release D codec sha256 r id s

  -- A schedule: the answers in order, and the last state.
  unfoldable pub schedule :
      List (Operation × Identity) → D.State → List (Result (List String)) × D.State
  unfolding run
  schedule [] s = ([], s)
  schedule ((op, id) ∷ ops) s =
      let r = run op id s in let rest = schedule ops r.1 in (r.0 ∷ rest.0, rest.1)

  -- The lease file reads as a valid state that is active.
  abbrev pub IsLeased : String → Value → D.State → Type 0
  IsLeased token current s =
      (read_state D codec sha256 s ≡ ok (some token, current, []))
      × ((str_eq token "" ≡ false) × (is_active current ≡ true))

  -- A refused operation: an error is answered, and the drive is as it was.
  Refused : D.State → Answer D codec sha256 → Type 0
  Refused s r = (r.0 ≡ ok [] → ⊥) × (r.1 ≡ s)

  is_active-is_dict : (v : Value) → is_active v ≡ true → is_dict v ≡ true
  unfolding is_active get
  is_active-is_dict null h = cc
  is_active-is_dict (bool b) h = cc
  is_active-is_dict (int n) h = cc
  is_active-is_dict (str t) h = cc
  is_active-is_dict (arr vs) h = cc
  is_active-is_dict (obj fs) h = refl

  observe-leased :
      (default token : String) (current : Value)
      → str_eq token "" ≡ false
      → is_active current ≡ true
      → observe default (some token, current, []) ≡ usable token current
  unfolding observe
  observe-leased default token current t a = rw t (rw (is_active-is_dict current a) refl)

  module _ (token : String) (current : Value) (s : D.State) (leased : IsLeased token current s)
      (id : Identity) (foreign : same_identity current id ≡ false) where
    leased-observe :
        (default : String) → observe default (some token, current, []) ≡ usable token current
    leased-observe default = observe-leased default token current leased.1.0 leased.1.1

    acquire-Refused : Refused s (acquire D codec sha256 id s)
    unfolding acquire acquire_read acquire_from Refused
    acquire-Refused =
        rw (ensure_initialized-reads D codec sha256 s token current leased.0 leased.1.0) (
          rw (leased-observe "coordinator_initialize_failed")
            (rw (leased.1.1) (rw foreign ((λ h. cc (ok-injective h)), refl))))

    release_read-Refused :
        (name : String) (started : Bool) (next : Value → List (String × Value))
        → Refused s
            (release_read D codec sha256 name started next id s (read_state D codec sha256 s))
    unfolding release_read release_from holds Refused
    release_read-Refused name started next = rw leased.0 (
        rw (leased-observe (name <> "_read_failed"))
          (rw (leased.1.1) (rw foreign ((λ h. cc (ok-injective h)), refl))))

    mark-Refused : Refused s (mark_canonical_write_started D codec sha256 id s)
    unfolding mark_canonical_write_started mark_read mark_from Refused
    mark-Refused = rw leased.0 (
        rw (leased-observe "coordinator_write_start_read_failed")
          (rw (leased.1.1) (rw foreign ((λ h. cc (ok-injective h)), refl))))

    run_release-Refused : (r : Release) → Refused s (run_release D codec sha256 r id s)
    unfolding run_release release_prewrite_abort release_committed release_recovered Refused
    run_release-Refused prewrite_abort =
        release_read-Refused "coordinator_release" false (released "PREWRITE_ABORT_VERIFIED" [] id)
    run_release-Refused (after_commit digest) = elim (Bool-cases (is_digest digest)) [
      | inl d ↦ rw d (
          release_read-Refused "coordinator_commit_release" true
            (released "VERIFIED_COMMITTED" (("released_receipt_sha256", str digest) ∷ []) id))
      | inr d ↦ rw d ((λ h. cc (ok-injective h)), refl)
    ]
    run_release-Refused (after_recovery digest) = elim (Bool-cases (is_digest digest)) [
      | inl d ↦ rw d (
          release_read-Refused "coordinator_recovery_release" true (
            released "VERIFIED_RECOVERED" (("released_recovered_journal_sha256", str digest) ∷ [])
              id))
      | inr d ↦ rw d ((λ h. cc (ok-injective h)), refl)
    ]

    run-Refused : (op : Operation) → Refused s (run op id s)
    unfolding run
    run-Refused acquiring = acquire-Refused
    run-Refused marking = mark-Refused
    run-Refused (releasing r) = run_release-Refused r

  -- While the lease file reads as a valid active state with a token that is not empty, no
  -- schedule of operations by identities other than its holder gets an answer without errors, and
  -- none changes the drive.
  pub schedule-Refused :
      (token : String) (current : Value) (s : D.State)
      → IsLeased token current s
      → (ops : List (Operation × Identity)) → All (λ o. same_identity current o.1 ≡ false) ops
      → All (λ r. r ≡ ok [] → ⊥) (schedule ops s).0 × ((schedule ops s).1 ≡ s)
  unfolding schedule Refused
  schedule-Refused token current s leased [] foreign = (tt, refl)
  schedule-Refused token current s leased ((op, id) ∷ ops) foreign =
      let refused = run-Refused token current s leased id foreign.0 op in
      let rest = schedule-Refused token current s leased ops foreign.1 in
      ((refused.0, rw refused.1 rest.0), rw refused.1 rest.1)
