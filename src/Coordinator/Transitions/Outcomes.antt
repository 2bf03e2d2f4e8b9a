-- ===== src/Coordinator/Transitions/Outcomes.antt =====
-- What an acquisition and the three releases of src/candidate_production_coordinator.py promise when
-- they report no error.
use technology_library_inges.Base.{
  String, ◌≡◌, refl, ap, ◌∙◌, Bool, true, false, some, List, [], ◌∷◌, str_eq, Result, ok, raised,
  ok-injective, Bool-cases, inl, inr,
}
use technology_library_inges.Json.{Value, str, get, index, is_dict, eq_str, update}
use technology_library_inges.Storage.{Sha256}
use technology_library_inges.Coordinator.State.{
  Identity, payload, same_identity, is_active, acquired, released, next_generation,
}
use technology_library_inges.Coordinator.Drive.{
  Drive, Codec, Reading, read_state, ensure_initialized,
}
use technology_library_inges.Coordinator.Drive.Leased.{ensure_initialized-reads_back}
use technology_library_inges.Coordinator.Transitions.{
  Observed, unusable, usable, observe, is_digest, Answer, acquire_from, acquire_read, acquire,
  holds, release_prewrite_abort, release_committed, release_recovered,
}
use technology_library_inges.Coordinator.Transitions.Guards.{
  ReadsAs, IsHeld, IsFreeAfter, Released, transition-Reads, acquired-IsHeld, IsFreeAfter-of_fields,
  observe-usable, observe-unusable, release_read-Released,
}

-- The three releases: after a verified abort, a commit, or a recovery.
pub data Release : Type 0 where
  prewrite_abort : Release
  after_commit after_recovery : (digest : String) → Release

-- Whether the release asks for a crossed write boundary.
abbrev pub past_boundary : Release → Bool
past_boundary prewrite_abort = false
past_boundary (after_commit digest) = true
past_boundary (after_recovery digest) = true

module _ (D : Drive) (codec : Codec) (sha256 : Sha256) where
  -- One function for the three.
  unfoldable pub run_release : Release → Identity → D.State → Answer D codec sha256
  unfolding release_prewrite_abort release_committed release_recovered
  run_release prewrite_abort id s = release_prewrite_abort D codec sha256 id s
  run_release (after_commit digest) id s = release_committed D codec sha256 digest id s
  run_release (after_recovery digest) id s = release_recovered D codec sha256 digest id s

  -- The owner held the lease, and the lease file now reads as free, one generation later.
  abbrev pub FreedBy : Bool → Identity → D.State → D.State → Type 0
  FreedBy started id s s' =
      ReadsAs D codec sha256
        (λ current.
          (holds D codec sha256 started current id ≡ true)
          × ReadsAs D codec sha256 (IsFreeAfter D codec sha256 current) s')
        s

  module _ (reason : String) (proof : List (String × Value)) (started : Bool) (id : Identity)
      (s s' : D.State)
      (dict : (current : Value) → is_dict (payload (released reason proof id current)) ≡ true)
      (free : (current : Value)
        → index "state" (payload (released reason proof id current)) ≡ ok (str "FREE"))
      (later : (current : Value)
        → index "generation" (payload (released reason proof id current))
          ≡ ok (next_generation (get "generation" current))) where
    FreedBy-of_release :
        Released D codec sha256 started (released reason proof id) id s s' → FreedBy started id s s'
    FreedBy-of_release (token, current, reads, (held, (token', observed, reads', equal))) = (
      token,
      current,
      reads,
      (
        held,
        (
          token',
          observed,
          reads',
          IsFreeAfter-of_fields D codec sha256 _ current observed (dict current) (free current)
              (later current) equal,
        ),
      ),
    )

  -- A release that reports no error found its caller's lease, with the write boundary crossed or not
  -- as the release asks; afterwards the lease file reads as a valid free state, one generation later.
  pub run_release-FreedBy :
      (r : Release) (id : Identity) (s : D.State)
      → (run_release r id s).0 ≡ ok []
      → FreedBy (past_boundary r) id s (run_release r id s).1
  unfolding run_release payload released update index str_eq
  run_release-FreedBy prewrite_abort id s h =
      FreedBy-of_release "PREWRITE_ABORT_VERIFIED" [] false id s _ (λ c. refl) (λ c. refl)
        (λ c. refl)
        (release_read-Released D codec sha256 "coordinator_release" false
          (released "PREWRITE_ABORT_VERIFIED" [] id) id s _ refl h)
  run_release-FreedBy (after_commit digest) id s h = elim (Bool-cases (is_digest digest)) [
    | inl d ↦ rw d (
        FreedBy-of_release "VERIFIED_COMMITTED" (("released_receipt_sha256", str digest) ∷ []) true
          id s _ (λ c. refl) (λ c. refl) (λ c. refl)
          (release_read-Released D codec sha256 "coordinator_commit_release" true
            (released "VERIFIED_COMMITTED" (("released_receipt_sha256", str digest) ∷ []) id) id s _
            refl (rw d at h)))
    | inr d ↦ cc (ok-injective (rw d at h))
  ]
  run_release-FreedBy (after_recovery digest) id s h = elim (Bool-cases (is_digest digest)) [
    | inl d ↦ rw d (
        FreedBy-of_release "VERIFIED_RECOVERED"
          (("released_recovered_journal_sha256", str digest) ∷ []) true id s _ (λ c. refl)
          (λ c. refl) (λ c. refl)
          (release_read-Released D codec sha256 "coordinator_recovery_release" true
            (released "VERIFIED_RECOVERED" (("released_recovered_journal_sha256", str digest) ∷ [])
              id)
            id s _ refl (rw d at h)))
    | inr d ↦ cc (ok-injective (rw d at h))
  ]

  acquire_from-IsHeld :
      (id : Identity) (s : D.State) (r : Reading) (o : Observed)
      → (r.2 ≡ [] → read_state D codec sha256 s ≡ ok r)
      → observe "coordinator_initialize_failed" r ≡ o
      → (acquire_from D codec sha256 id s o).0 ≡ ok []
      → ReadsAs D codec sha256 (IsHeld D codec sha256 id) (acquire_from D codec sha256 id s o).1
  unfolding acquire_from
  acquire_from-IsHeld id s r (unusable codes) e o h =
      absurd (observe-unusable D codec sha256 _ r (o ∙ ap unusable (ok-injective h)))
  acquire_from-IsHeld id s r (usable base current) e o h =
      let is = observe-usable D codec sha256 _ r base current o in
      elim (Bool-cases (is_active current)) [
        | inl active ↦ elim (Bool-cases (same_identity current id)) [
          | inl same ↦
              rw active
                (some base, current, e (ap (λ (x : Reading). x.2) is) ∙ ap ok is, (active, same))
          | inr other ↦ cc (ok-injective (rw other at (rw active at h)))
        ]
        | inr idle ↦ elim (Bool-cases (eq_str (get "state" current) "FREE")) [
          | inl free ↦ rw idle (
              rw free (
                let (token, observed, reads, equal) =
                  transition-Reads D codec sha256 "coordinator_acquire" base (acquired id current) s
                    _ (rw free at (rw idle at h)) in
                (token, observed, reads, acquired-IsHeld D codec sha256 id current observed equal)))
          | inr locked ↦ cc (ok-injective (rw locked at (rw idle at h)))
        ]
      ]

  acquire_read-IsHeld :
      (id : Identity) (r : Result Reading × D.State)
      → ((t : Reading) → r.0 ≡ ok t → t.2 ≡ [] → read_state D codec sha256 r.1 ≡ ok t)
      → (acquire_read D codec sha256 id r).0 ≡ ok []
      → ReadsAs D codec sha256 (IsHeld D codec sha256 id) (acquire_read D codec sha256 id r).1
  unfolding acquire_read
  acquire_read-IsHeld id (raised x, s) back h = cc
  acquire_read-IsHeld id (ok reading, s) back h =
      acquire_from-IsHeld id s reading _ (back reading refl) refl h

  -- `acquire` that reports no error has left a lease file that reads as held by its caller.
  pub acquire-IsHeld :
      (id : Identity) (s : D.State)
      → (acquire D codec sha256 id s).0 ≡ ok []
      → ReadsAs D codec sha256 (IsHeld D codec sha256 id) (acquire D codec sha256 id s).1
  unfolding acquire
  acquire-IsHeld id s h =
      acquire_read-IsHeld id (ensure_initialized D codec sha256 s)
        (ensure_initialized-reads_back D codec sha256 s) h
