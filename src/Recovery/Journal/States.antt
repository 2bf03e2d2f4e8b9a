-- ===== src/Recovery/Journal/States.antt =====
-- The states that a journal can be recovered from, src/candidate_production_recovery_engine.py.
use technology_library_inges.Base.{
  ◌≡◌, ◌≢◌, true, [], append-eq-nil, sorted_set-eq-nil, ap, ◌∙◌, Bool-cases, inl, inr, ok,
  ok-injective, >>=-ok, failures, failures-Passes, str_eq,
}
use technology_library_inges.Json.{Value, str, get, is_dict, in_set}
use technology_library_inges.Recovery.Journal.{
  validate_recovery_journal, validate_fields, journal_checks, both_groups, recoverable_states,
}

validate_fields-state :
    (journal : Value)
    → validate_fields journal ≡ ok []
    → in_set (get "state" journal) recoverable_states ≡ ok true
unfolding validate_fields journal_checks
validate_fields-state journal h =
    let (codes, checked, is) = >>=-ok (failures (journal_checks journal)) _ h in
    let (clear, groups) =
      append-eq-nil codes (both_groups journal) (sorted_set-eq-nil _ (ok-injective is)) in
    let passes = failures-Passes (journal_checks journal) (checked ∙ ap ok clear) in passes.1.1.1.0

-- A valid journal is in a state that can be recovered from.
pub validate-state :
    (journal : Value)
    → validate_recovery_journal journal ≡ ok []
    → in_set (get "state" journal) recoverable_states ≡ ok true
unfolding validate_recovery_journal
validate-state journal h = elim (Bool-cases (is_dict journal)) [
  | inl d ↦ validate_fields-state journal (rw d at h)
  | inr d ↦ cc (ok-injective (rw d at h))
]

-- A committed journal is none.
pub committed_invalid :
    (journal : Value)
    → get "state" journal ≡ str "COMMITTED"
    → validate_recovery_journal journal ≢ ok []
unfolding str_eq
committed_invalid journal c h = cc (ok-injective (rw c at (validate-state journal h)))
