-- ===== src/Gates/Policies/Proven.antt =====
-- What a policy of src/candidate_remote_coordination_policy.py or
-- src/candidate_remote_recovery_policy.py that is ready has proven.
use mathlib.Core.Option.{some-injective}
use technology_library_inges.Base.{
  String, ◌≡◌, refl, ap, sym, ◌∙◌, subst, Bool, true, Option, none, some, List, [], ◌∷◌,
  append-eq-nil, All, if◌then◌else◌, is_empty, Bool-cases, inl, inr, Result, ok, >>=-ok,
  ok-injective, str_eq, failures,
}
use technology_library_inges.Json.{
  Value, bool, get, find_field, is_dict, is_true, is_true→eq, eq_str,
}
use technology_library_inges.Gates.Policies.{
  missing, acquires, coordination_reasons, coordination_guarantees, recovery_guarantees,
  policy_report, report_or, state_of, ready_state, identity_checks, flag_checks,
  evaluate_coordination, evaluate_recovery, coordination_from, evaluate_coordinator,
  evaluate_coordination_lem, recovery_from, evaluate_storage, evaluate_recovery_lem,
}

-- Every guarantee of the list is `True`.
abbrev pub Guaranteed : List String → Value → Type 0
Guaranteed names guarantees = All (λ name. get name guarantees ≡ bool true) names

missing-Guaranteed :
    (names : List String) (guarantees : Value)
    → missing names guarantees ≡ []
    → Guaranteed names guarantees
unfolding missing
missing-Guaranteed [] guarantees h = tt
missing-Guaranteed (name ∷ names) guarantees h = elim (Bool-cases (is_true (get name guarantees))) [
  | inl given ↦ (is_true→eq _ given, missing-Guaranteed names guarantees (rw given at h))
  | inr absent ↦ cc (rw absent at h)
]

report_or-some :
    (report r : Value) (codes : List String) → report_or report codes ≡ (some r, []) → r ≡ report
unfolding report_or
report_or-some report r [] h =
    some-injective _ _ (ap (λ (x : Option Value × List String). x.0) (sym h))
report_or-some report r (code ∷ codes) h = cc (ap (λ (x : Option Value × List String). x.0) h)

state_of-ready :
    (reasons : List String) → eq_str (state_of reasons) ready_state ≡ true → reasons ≡ []
unfolding state_of str_eq
state_of-ready [] h = refl
state_of-ready (reason ∷ reasons) h = cc h

refused-ne :
    (codes : List String) (r : Value)
    → ◌≡◌ {A = Result (Option Value × List String)} (ok (none, codes)) (ok (some r, []))
    → ⊥
refused-ne codes r h = cc (ap (λ (x : Option Value × List String). x.0) (ok-injective h))

coordination-state :
    (proven : Bool) (payload : Value) (reasons : List String)
    → get "state" (
        policy_report "coordinator_id" "coordination_kind" "exclusive_acquire_proven" proven payload
          reasons)
      ≡ state_of reasons
unfolding policy_report get find_field str_eq
coordination-state proven payload reasons = refl

recovery-state :
    (proven : Bool) (payload : Value) (reasons : List String)
    → get "state" (
        policy_report "storage_id" "recovery_kind" "recovery_capability_proven" proven payload
          reasons)
      ≡ state_of reasons
unfolding policy_report get find_field str_eq
recovery-state proven payload reasons = refl

coordination_reasons-Guaranteed :
    (guarantees : Value)
    → coordination_reasons guarantees ≡ []
    → (acquires guarantees ≡ true) × Guaranteed coordination_guarantees guarantees
unfolding coordination_reasons
coordination_reasons-Guaranteed guarantees h =
    let first_reason : List String =
      if acquires guarantees then [] else "exclusive_acquire_not_proven" ∷ [] in
    let (first, rest) = append-eq-nil first_reason (missing coordination_guarantees guarantees) h in
    (acquired guarantees first, missing-Guaranteed coordination_guarantees guarantees rest)
  where
    acquired :
        (guarantees : Value)
        → ◌≡◌ {A = List String}
            (if acquires guarantees then [] else "exclusive_acquire_not_proven" ∷ [])
            []
        → acquires guarantees ≡ true
    acquired guarantees e = elim (Bool-cases (acquires guarantees)) [
      | inl proven ↦ proven
      | inr unproven ↦ cc (rw unproven at e)
    ]

refused-ne-some :
    (codes : List String) (r : Value)
    → ◌≡◌ {A = Option Value × List String} (none, codes) (some r, [])
    → ⊥
refused-ne-some codes r h = cc (ap (λ (x : Option Value × List String). x.0) h)

coordination_from-Guaranteed :
    (payload r : Value) (errors : List String)
    → coordination_from payload errors ≡ (some r, [])
    → eq_str (get "state" r) ready_state ≡ true
    → (acquires (get "guarantees" payload) ≡ true)
      × Guaranteed coordination_guarantees (get "guarantees" payload)
unfolding coordination_from
coordination_from-Guaranteed payload r errors h ready =
    elim (Bool-cases (is_dict (get "guarantees" payload))) [
      | inl g ↦
          let same = report_or-some _ r _ (rw g at h) in
          coordination_reasons-Guaranteed (get "guarantees" payload) (
            state_of-ready (coordination_reasons (get "guarantees" payload)) (
              subst (λ (v : Value). eq_str v ready_state ≡ true)
                (ap (get "state") same
                  ∙ coordination-state (acquires (get "guarantees" payload)) payload
                      (coordination_reasons (get "guarantees" payload)))
                ready))
      | inr g ↦ absurd (refused-ne-some _ r (rw g at h))
    ]

evaluate_coordinator-Guaranteed :
    (payload r : Value)
    → evaluate_coordinator payload ≡ ok (some r, [])
    → eq_str (get "state" r) ready_state ≡ true
    → (acquires (get "guarantees" payload) ≡ true)
      × Guaranteed coordination_guarantees (get "guarantees" payload)
unfolding evaluate_coordinator
evaluate_coordinator-Guaranteed payload r h ready =
    let (errors, checked, is) =
      >>=-ok (failures (identity_checks "coordinator_id" "coordination_kind" payload)) _ h in
    coordination_from-Guaranteed payload r errors (ok-injective is) ready

-- A coordination policy that is ready: the descriptor proves an exclusive acquisition, and each of
-- the seven required guarantees is `True` in it.
pub evaluate_coordination-Guaranteed :
    (payload r : Value)
    → evaluate_coordination payload ≡ ok (some r, [])
    → eq_str (get "state" r) ready_state ≡ true
    → (acquires (get "guarantees" payload) ≡ true)
      × Guaranteed coordination_guarantees (get "guarantees" payload)
evaluate_coordination-Guaranteed payload r h ready = elim (Bool-cases (is_dict payload)) [
  | inl d ↦
      evaluate_coordinator-Guaranteed payload r (rw d at (rw evaluate_coordination_lem at h)) ready
  | inr d ↦ absurd (refused-ne _ r (rw d at (rw evaluate_coordination_lem at h)))
]

recovery_from-Guaranteed :
    (payload r : Value) (errors flags : List String)
    → recovery_from payload errors flags ≡ (some r, [])
    → eq_str (get "state" r) ready_state ≡ true
    → Guaranteed recovery_guarantees (get "guarantees" payload)
unfolding recovery_from
recovery_from-Guaranteed payload r errors flags h ready =
    elim (Bool-cases (is_dict (get "guarantees" payload))) [
      | inl g ↦
          let reasons = missing recovery_guarantees (get "guarantees" payload) in
          let same = report_or-some _ r _ (rw g at h) in
          missing-Guaranteed recovery_guarantees (get "guarantees" payload) (
            state_of-ready reasons (
              subst (λ (v : Value). eq_str v ready_state ≡ true)
                (ap (get "state") same ∙ recovery-state (is_empty reasons) payload reasons) ready))
      | inr g ↦ absurd (refused-ne-some _ r (rw g at h))
    ]

evaluate_storage-Guaranteed :
    (payload r : Value)
    → evaluate_storage payload ≡ ok (some r, [])
    → eq_str (get "state" r) ready_state ≡ true
    → Guaranteed recovery_guarantees (get "guarantees" payload)
unfolding evaluate_storage
evaluate_storage-Guaranteed payload r h ready =
    let (errors, checked, h') =
      >>=-ok (failures (identity_checks "storage_id" "recovery_kind" payload)) _ h in
    let (flags, flagged, is) = >>=-ok (failures (flag_checks payload)) _ h' in
    recovery_from-Guaranteed payload r errors flags (ok-injective is) ready

-- A recovery policy that is ready: each of the seven required guarantees is `True` in the descriptor.
pub evaluate_recovery-Guaranteed :
    (payload r : Value)
    → evaluate_recovery payload ≡ ok (some r, [])
    → eq_str (get "state" r) ready_state ≡ true
    → Guaranteed recovery_guarantees (get "guarantees" payload)
evaluate_recovery-Guaranteed payload r h ready = elim (Bool-cases (is_dict payload)) [
  | inl d ↦ evaluate_storage-Guaranteed payload r (rw d at (rw evaluate_recovery_lem at h)) ready
  | inr d ↦ absurd (refused-ne _ r (rw d at (rw evaluate_recovery_lem at h)))
]
