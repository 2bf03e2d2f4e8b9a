-- ===== src/Gates/Readiness/Ready.antt =====
-- What a readiness report of src/candidate_executor_readiness.py has checked.
use mathlib.Core.Option.{some-injective}
use technology_library_inges.Base.{
  String, ◌≡◌, refl, ap, sym, ◌∙◌, Bool, true, false, Option, some, List, [], ◌∷◌, ◌++◌,
  append-eq-nil, All, Bool-cases, inl, inr, Check, Passes, failures, failures-Passes, ok, >>=-ok,
  ok-injective, str_eq,
}
use technology_library_inges.Json.{Value, bool, get, find_field, is_dict, eq_str, value_eq}
use technology_library_inges.Gates.Policies.{ready_state}
use technology_library_inges.Gates.Acceptance.{validate_acceptance}
use technology_library_inges.Gates.Readiness.{
  Evidence, part, evidence_checks, all_failures, readiness_report, readiness_or, evaluate_readiness,
  evaluate_evidence, evaluate_readiness_lem, transaction_checks, policy_checks, preflight_checks,
  routing_checks,
}

all_failures-Passes : (checks : List (List Check)) → all_failures checks ≡ ok [] → All Passes checks
unfolding all_failures
all_failures-Passes [] h = tt
all_failures-Passes (checks ∷ rest) h =
    let (codes, one, h') = >>=-ok (failures checks) _ h in
    let (more, others, is) = >>=-ok (all_failures rest) _ h' in
    let (c, m) = append-eq-nil codes more (ok-injective is) in
    (failures-Passes checks (one ∙ ap ok c), all_failures-Passes rest (others ∙ ap ok m))

readiness_or-some :
    (e : Evidence) (codes : List String) (r : Value)
    → readiness_or e codes ≡ (some r, [])
    → (codes ≡ []) × (r ≡ readiness_report e)
unfolding readiness_or
readiness_or-some e [] r h =
    (refl, some-injective _ _ (ap (λ (x : Option Value × List String). x.0) (sym h)))
readiness_or-some e (code ∷ codes) r h = cc (ap (λ (x : Option Value × List String). x.0) h)

evaluate_evidence-Passes :
    (e : Evidence) (r : Value)
    → evaluate_evidence e ≡ ok (some r, [])
    → All Passes (evidence_checks e)
      × (validate_acceptance e.acceptance e.batch_report ≡ ok [])
      × (r ≡ readiness_report e)
unfolding evaluate_evidence
evaluate_evidence-Passes e r h =
    let (accepted, valid, h') = >>=-ok (validate_acceptance e.acceptance e.batch_report) _ h in
    let (codes, checked, is) = >>=-ok (all_failures (evidence_checks e)) _ h' in
    let (clear, same) = readiness_or-some e (codes ++ accepted) r (ok-injective is) in
    let (c, a) = append-eq-nil codes accepted clear in
    (all_failures-Passes (evidence_checks e) (checked ∙ ap ok c), valid ∙ ap ok a, same)

evaluate_readiness-Passes :
    (e : Evidence) (r : Value)
    → evaluate_readiness e ≡ ok (some r, [])
    → All Passes (evidence_checks e)
      × (validate_acceptance e.acceptance e.batch_report ≡ ok [])
      × (r ≡ readiness_report e)
evaluate_readiness-Passes e r h = elim (Bool-cases (is_dict e.batch_report)) [
  | inl d ↦ evaluate_evidence-Passes e r (rw d at (rw evaluate_readiness_lem at h))
  | inr d ↦ cc (
      ap (λ (x : Option Value × List String). x.0)
        (ok-injective (rw d at (rw evaluate_readiness_lem at h))))
]

part-Passes :
    (b : Bool) (code : String) (checks : List Check)
    → Passes (part b code checks)
    → (b ≡ true) × Passes checks
unfolding part
part-Passes true code checks p = (refl, p)
part-Passes false code checks p = cc (ok-injective p.0)

-- The bindings that matter of a report that is ready.
pub record IsBound (e : Evidence) : Type 0 where
  pub accepted : validate_acceptance e.acceptance e.batch_report ≡ ok []
  pub recomputed : value_eq e.stored_transaction e.recomputed_transaction ≡ true
  pub transaction_batch :
      value_eq (get "finalize_batch_id" e.stored_transaction) (get "batch_id" e.batch_report) ≡ true
  pub preflight_batch : value_eq (get "batch_id" e.preflight) (get "batch_id" e.batch_report) ≡ true
  pub routing_batch : value_eq (get "batch_id" e.routing) (get "batch_id" e.batch_report) ≡ true
  pub coordination_ready : eq_str (get "state" e.coordination_policy) ready_state ≡ true
  pub recovery_ready : eq_str (get "state" e.recovery_policy) ready_state ≡ true

-- A readiness report that is returned: the acceptance is valid for the batch report, the stored
-- transaction equals the recomputed one, the transaction, the preflight and the routing are of the
-- batch of the report, and both policies are ready. The report never authorizes a publication.
pub evaluate_readiness-IsBound :
    (e : Evidence) (r : Value)
    → evaluate_readiness e ≡ ok (some r, [])
    → IsBound e × (get "production_publish_authorized" r ≡ bool false) × (r ≡ readiness_report e)
unfolding evidence_checks preflight_checks transaction_checks routing_checks policy_checks
    readiness_report get find_field str_eq
evaluate_readiness-IsBound e r h =
    let (passes, valid, same) = evaluate_readiness-Passes e r h in
    let preflight = part-Passes _ _ _ passes.1.0 in
    let transaction = part-Passes _ _ _ passes.1.1.0 in
    let routing = part-Passes _ _ _ passes.1.1.1.0 in
    let coordination = part-Passes _ _ _ passes.1.1.1.1.0 in
    let recovery = part-Passes _ _ _ passes.1.1.1.1.1.0 in
    (
      record {
        accepted = valid;
        recomputed = ok-injective transaction.1.0;
        transaction_batch = ok-injective transaction.1.1.0;
        preflight_batch = ok-injective preflight.1.1.0;
        routing_batch = ok-injective routing.1.1.0;
        coordination_ready = ok-injective coordination.1.0;
        recovery_ready = ok-injective recovery.1.0;
      },
      ap (get "production_publish_authorized") same,
      same,
    )
