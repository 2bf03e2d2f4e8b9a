-- ===== src/Restart/Classify/Routes.antt =====
-- When `classify_restart_action` of src/candidate_production_recover.py takes each of its routes.
use technology_library_inges.Base.{
  String, ◌≡◌, refl, ap, Bool, true, false, not, ◌&&◌, none, some, List, [], ◌∷◌, All, subst,
  sorted_set-eq-nil, ok, >>=-ok, ok-injective, Bool-cases, inl, inr, arith,
}
use technology_library_inges.Json.{Value, get, is_dict, is_true, eq_str, in_set, value_eq}
use technology_library_inges.Restart.Classify.{
  identity_keys, mismatches, validate_identity, Route, recover_states, write_started, state_is,
  prewrite_route, recovery_route, started_route, classify_identified, classify_restart_action,
}

-- What holds of the coordinator's document and the journal when an action is chosen.
pub data Allowed (coordinator journal : Value) : String → Type 0 where
  abort_prepared :
      write_started coordinator ≡ false
      → state_is journal "PREPARED" ≡ true
      → write_started journal ≡ false
      → Allowed coordinator journal "PREWRITE_ABORT"
  -- The crash between the journal's write and the coordinator's transition.
  abort_unauthorized :
      write_started coordinator ≡ false
      → state_is journal "WRITING_RECORDS" ≡ true
      → write_started journal ≡ true
      → Allowed coordinator journal "PREWRITE_ABORT"
  release_aborted :
      write_started coordinator ≡ false
      → state_is journal "ABORTED_PREWRITE" ≡ true
      → is_true (get "safe_abort_verified" journal) ≡ true
      → Allowed coordinator journal "RELEASE_PREWRITE"
  release_recovered :
      write_started coordinator ≡ true
      → write_started journal ≡ true
      → state_is journal "RECOVERED" ≡ true
      → is_true (get "rollback_verified" journal) ≡ true
      → Allowed coordinator journal "RELEASE_RECOVERED"
  recover :
      write_started coordinator ≡ true
      → write_started journal ≡ true
      → in_set (get "state" journal) recover_states ≡ ok true
      → Allowed coordinator journal "RECOVER"

abbrev pub Same : Value → Value → String → Type 0
Same coordinator journal key = value_eq (get key coordinator) (get key journal) ≡ true

mismatches-Same :
    (coordinator journal : Value) (keys : List String)
    → mismatches coordinator journal keys ≡ []
    → All (Same coordinator journal) keys
unfolding mismatches
mismatches-Same coordinator journal [] h = tt
mismatches-Same coordinator journal (key ∷ keys) h =
    elim (Bool-cases (value_eq (get key coordinator) (get key journal))) [
      | inl same ↦ (same, mismatches-Same coordinator journal keys (rw same at h))
      | inr differ ↦ cc (rw differ at h)
    ]

identity-Same :
    (coordinator journal : Value)
    → validate_identity coordinator journal ≡ []
    → (eq_str (get "state" coordinator) "ACTIVE" ≡ true)
      × All (Same coordinator journal) identity_keys
unfolding validate_identity
identity-Same coordinator journal h =
    elim (Bool-cases (is_dict coordinator && eq_str (get "state" coordinator) "ACTIVE")) [
      | inr bad ↦ cc (rw bad at h)
      | inl active ↦ elim (Bool-cases (is_dict journal)) [
        | inr bad ↦ cc (rw bad at (rw active at h))
        | inl dict ↦ (
          ground (arith, active),
          mismatches-Same coordinator journal identity_keys
              (sorted_set-eq-nil _ (rw dict at (rw active at h))),
        )
      ]
    ]

-- A route that takes an action names no code.
abbrev Sound : Value → Value → Route → Type 0
Sound coordinator journal (some action, codes) = Allowed coordinator journal action × (codes ≡ [])
Sound coordinator journal (none, codes) = Unit

prewrite-Sound :
    (coordinator journal : Value)
    → write_started coordinator ≡ false
    → Sound coordinator journal (prewrite_route journal)
unfolding prewrite_route
prewrite-Sound coordinator journal before =
    elim (Bool-cases (state_is journal "PREPARED" && not (write_started journal))) [
      | inl prepared ↦
          rw prepared
            (abort_prepared before (ground (arith, prepared)) (ground (arith, prepared)), refl)
      | inr other ↦
          rw other
            (elim (Bool-cases (state_is journal "WRITING_RECORDS" && write_started journal)) [
              | inl writing ↦ rw writing (
                abort_unauthorized before (ground (arith, writing)) (ground (arith, writing)),
                refl,
              )
              | inr other' ↦
                  rw other'
                    (elim (Bool-cases (
                      state_is journal "ABORTED_PREWRITE"
                      && is_true (get "safe_abort_verified" journal)
                      && is_true (get "coordinator_release_allowed" journal))) [
                        | inl aborted ↦ rw aborted (
                          release_aborted before (ground (arith, aborted))
                              (ground (arith, aborted)),
                          refl,
                        )
                        | inr bad ↦ rw bad tt
                      ])
            ])
    ]

recovery-Sound :
    (coordinator journal : Value) (recoverable : Bool)
    → write_started coordinator ≡ true
    → write_started journal ≡ true
    → in_set (get "state" journal) recover_states ≡ ok recoverable
    → Sound coordinator journal (recovery_route journal recoverable)
unfolding recovery_route
recovery-Sound coordinator journal true c j h = (recover c j h, refl)
recovery-Sound coordinator journal false c j h = elim (Bool-cases (state_is journal "COMMITTED")) [
  | inl committed ↦ rw committed tt
  | inr other ↦ rw other tt
]

started-Sound :
    (coordinator journal : Value) (route : Route)
    → write_started coordinator ≡ true
    → started_route journal ≡ ok route
    → Sound coordinator journal route
unfolding started_route
started-Sound coordinator journal route c h = elim (Bool-cases (write_started journal)) [
  | inr bad ↦ subst (Sound coordinator journal) (ok-injective (rw bad at h)) tt
  | inl j ↦
      elim (Bool-cases (
        state_is journal "RECOVERED"
        && is_true (get "rollback_verified" journal)
        && is_true (get "coordinator_release_allowed" journal))) [
          | inl recovered ↦
              subst (Sound coordinator journal) (ok-injective (rw recovered at (rw j at h))) (
                release_recovered c j (ground (arith, recovered)) (ground (arith, recovered)),
                refl,
              )
          | inr other ↦
              let (recoverable, found, after) =
                >>=-ok (in_set (get "state" journal) recover_states)
                  (λ x. ok (recovery_route journal x)) (rw other at (rw j at h)) in
              subst (Sound coordinator journal) (ok-injective after)
                (recovery-Sound coordinator journal recoverable c j found)
        ]
]

identified-Sound :
    (coordinator journal : Value) (codes more : List String) (action : String)
    → classify_identified coordinator journal codes ≡ ok (some action, more)
    → (codes ≡ []) × Allowed coordinator journal action × (more ≡ [])
unfolding classify_identified
identified-Sound coordinator journal (code ∷ codes) more action h =
    cc (ap (λ (r : Route). r.0) (ok-injective h))
identified-Sound coordinator journal [] more action h =
    elim (Bool-cases (is_dict coordinator && is_dict journal)) [
      | inr bad ↦ cc (ap (λ (r : Route). r.0) (ok-injective (rw bad at h)))
      | inl dicts ↦ elim (Bool-cases (write_started coordinator)) [
        | inr before ↦
            let (allowed, clean) =
              subst (Sound coordinator journal) (ok-injective (rw before at (rw dicts at h)))
                (prewrite-Sound coordinator journal before) in
            (refl, allowed, clean)
        | inl started ↦
            let (allowed, clean) =
              started-Sound coordinator journal (some action, more) started
                (rw started at (rw dicts at h)) in
            (refl, allowed, clean)
      ]
    ]

-- Whenever the classification chooses an action it names no code, the coordinator is active for the
-- same transaction, batch, owner and journal path as the journal, and: a prewrite abort or release is
-- chosen only while the coordinator records no canonical write, a recovery only if both documents
-- record one and the journal is in one of the five interrupted states, and the release of a recovery
-- only if its rollback is verified.
pub classify_restart_action-Allowed :
    (coordinator journal : Value) (action : String) (codes : List String)
    → classify_restart_action coordinator journal ≡ ok (some action, codes)
    → (codes ≡ [])
      × (eq_str (get "state" coordinator) "ACTIVE" ≡ true)
      × All (Same coordinator journal) identity_keys
      × Allowed coordinator journal action
unfolding classify_restart_action
classify_restart_action-Allowed coordinator journal action codes h =
    let (clean, allowed, no_codes) =
      identified-Sound coordinator journal (validate_identity coordinator journal) codes action h in
    let (active, same) = identity-Same coordinator journal clean in
    (no_codes, active, same, allowed)
