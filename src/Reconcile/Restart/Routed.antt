-- ===== src/Reconcile/Restart/Routed.antt =====
-- When `classify_restart` of src/candidate_committed_reconciliation.py takes each of its routes.
use technology_library_inges.Base.{
  String, ◌≡◌, refl, ap, ◌∙◌, subst, Bool, true, false, not, ◌&&◌, ◌||◌, Option, none, some, List,
  [], ◌∷◌, All, str_eq, ok, >>=-ok, ok-injective, Bool-cases, inl, inr, arith,
}
use technology_library_inges.Json.{Value, get, is_dict, is_true, is_false, eq_str, in_set}
use technology_library_inges.Storage.{Bytes, Storage, Sha256}
use technology_library_inges.Recovery.Journal.{recoverable_states}
use technology_library_inges.Recovery.Execute.{verify_rollback_preconditions}
use technology_library_inges.Reconcile.Proof.{proof_errors}
use technology_library_inges.Reconcile.Proof.Proven.{
  Proven, proof_errors-Proven, and_left, and_right,
}
use technology_library_inges.Reconcile.Release.{
  Answer, identity_fields, identity_of, is_released_by, reconcile_committed_release,
}
use technology_library_inges.Reconcile.Release.Once.{
  Reconciled, blocked as stopped, unavailable, already, unconfirmed, confirmed,
  reconcile_committed_release-Reconciled,
}
use technology_library_inges.Reconcile.Restart.Before.{
  StateBefore, canonical_equals_before-StateBefore,
}
use technology_library_inges.Recovery.Execute.Preconditions.{
  Recoverable, verify_rollback_preconditions-Recoverable,
}
use technology_library_inges.Restart.Classify.Routes.{Same}
use technology_library_inges.Reconcile.Restart.{
  all_texts, same_fields, canonical_equals_before, from_release, committed_route, with_receipt,
  prepared_route, as_recover, recovered_ok, other_route, owned_route, classify_restart, seen_only,
}

same_fields-Same :
    (coordinator journal : Value) (keys : List String)
    → same_fields coordinator journal keys ≡ true
    → All (Same coordinator journal) keys
unfolding same_fields
same_fields-Same coordinator journal [] h = tt
same_fields-Same coordinator journal (key ∷ keys) h =
    (and_left _ _ h, same_fields-Same coordinator journal keys (and_right _ _ h))

module _ (S : Storage) (sha256 : Sha256) (parse : Bytes → Option Value) where
  abbrev pub Armed : Value → Bool → Type 0
  Armed coordinator true = is_true (get "canonical_write_performed" coordinator) ≡ true
  Armed coordinator false = is_false (get "canonical_write_performed" coordinator) ≡ true

  -- The coordinator's document is active and names the journal's transaction, batch, owner and path.
  abbrev pub Owned : Value → Value → Type 0
  Owned journal coordinator =
      (eq_str (get "state" coordinator) "ACTIVE" ≡ true)
      × All (Same coordinator journal) identity_fields

  -- What holds when a route is taken.
  pub data Routed (journal coordinator : Value) (receipt : Option Bytes) (s : S.State)
      : String → Type 0 where
    blocked : Routed journal coordinator receipt s "BLOCKED"
    already_released :
        (raw : Bytes)
        → receipt ≡ some raw
        → eq_str (get "state" coordinator) "FREE" ≡ true
        → is_released_by coordinator (identity_of journal) (sha256 raw) ≡ true
        → Proven sha256 parse (S.read s) (S.read s) journal raw
        → Routed journal coordinator receipt s "ALREADY_RELEASED"
    reconcile :
        (raw : Bytes)
        → receipt ≡ some raw
        → Owned journal coordinator
        → Armed coordinator true
        → Proven sha256 parse (S.read s) (S.read s) journal raw
        → Routed journal coordinator receipt s "RECONCILE_COMMITTED"
    abort :
        Owned journal coordinator
        → Armed coordinator false
        → eq_str (get "state" journal) "PREPARED" ≡ true
        → StateBefore S sha256 parse journal s
        → Routed journal coordinator receipt s "SAFE_PREWRITE_ABORT"
    recover :
        Owned journal coordinator
        → Armed coordinator true
        → in_set (get "state" journal) recoverable_states ≡ ok true
        → verify_rollback_preconditions S sha256 journal s ≡ ok []
        → Recoverable S sha256 journal s
        → Routed journal coordinator receipt s "RECOVER_UNCOMMITTED"
    release :
        Owned journal coordinator
        → Armed coordinator true
        → eq_str (get "state" journal) "RECOVERED" ≡ true
        → is_true (get "rollback_verified" journal) ≡ true
        → StateBefore S sha256 parse journal s
        → Routed journal coordinator receipt s "RELEASE_RECOVERED"

  abbrev Sound : Value → Value → Option Bytes → S.State → Answer → Type 0
  Sound journal coordinator receipt s (state, codes) = Routed journal coordinator receipt s state

  from_release-Sound :
      (journal coordinator : Value) (raw : Bytes) (s : S.State) (state : String)
      (codes : List String) (w : Unit {0})
      → Reconciled (seen_only coordinator) sha256 parse (S.read s) (S.read s) journal raw tt state w
      → Sound journal coordinator (some raw) s (from_release S sha256 parse ((state, codes), w))
  unfolding from_release str_eq
  from_release-Sound journal coordinator raw s state codes w stopped = blocked
  from_release-Sound journal coordinator raw s state codes w unavailable = blocked
  from_release-Sound journal coordinator raw s state codes w (already proven (free, mine)) =
      already_released raw refl free mine proven
  from_release-Sound journal coordinator raw s state codes w (unconfirmed proven held) = blocked
  from_release-Sound journal coordinator raw s state codes w (confirmed proven held free) = blocked

  committed-Sound :
      (journal coordinator : Value) (raw : Bytes) (s : S.State) (codes : List String)
      (answer : Answer)
      → (codes ≡ [] → Proven sha256 parse (S.read s) (S.read s) journal raw)
      → committed_route S sha256 parse journal coordinator raw s codes ≡ ok answer
      → Sound journal coordinator (some raw) s answer
  unfolding committed_route from_release
  committed-Sound journal coordinator raw s (code ∷ codes) answer proven h =
      subst (Sound journal coordinator (some raw) s) (ok-injective h) blocked
  committed-Sound journal coordinator raw s [] answer proven h =
      elim (Bool-cases (eq_str (get "state" coordinator) "FREE")) [
        | inl free ↦
            let (((state, codes), w), released, after) =
              >>=-ok
                (reconcile_committed_release (seen_only coordinator) sha256 parse (S.read s)
                  (S.read s) journal raw tt)
                (λ result. ok (from_release S sha256 parse result)) (rw free at h) in
            subst (Sound journal coordinator (some raw) s) (ok-injective after) (
              from_release-Sound journal coordinator raw s state codes w (
                reconcile_committed_release-Reconciled (seen_only coordinator) sha256 parse
                  (S.read s) (S.read s) journal raw tt w state codes released))
        | inr held ↦
            elim (Bool-cases (
              eq_str (get "state" coordinator) "ACTIVE"
              && is_true (get "canonical_write_performed" coordinator)
              && same_fields coordinator journal identity_fields)) [
                | inl mine ↦
                    subst (Sound journal coordinator (some raw) s)
                      (ok-injective (rw mine at (rw held at h)))
                      (reconcile raw refl
                        (
                          and_left _ _ (and_left _ _ mine),
                          same_fields-Same coordinator journal identity_fields (and_right _ _ mine),
                        )
                        (and_right _ _ (and_left _ _ mine)) (proven refl))
                | inr bad ↦
                    subst (Sound journal coordinator (some raw) s)
                      (ok-injective (rw bad at (rw held at h))) blocked
              ]
      ]

  receipt-Sound :
      (journal coordinator : Value) (receipt : Option Bytes) (s : S.State) (answer : Answer)
      → with_receipt S sha256 parse journal coordinator receipt s ≡ ok answer
      → Sound journal coordinator receipt s answer
  unfolding with_receipt
  receipt-Sound journal coordinator none s answer h =
      subst (Sound journal coordinator none s) (ok-injective h) blocked
  receipt-Sound journal coordinator (some raw) s answer h =
      let (errors, checked, after) =
        >>=-ok (proof_errors sha256 parse (S.read s) (S.read s) journal raw) _ h in
      committed-Sound journal coordinator raw s errors answer
        (λ clean.
          proof_errors-Proven sha256 parse (S.read s) (S.read s) journal raw
            (checked ∙ ap ok clean))
        after

  module _ (journal coordinator : Value) (receipt : Option Bytes) (s : S.State)
      (same : Owned journal coordinator) where
    abbrev Here : Answer → Type 0
    Here answer = Sound journal coordinator receipt s answer

    prepared-Sound :
        (answer : Answer)
        → eq_str (get "state" journal) "PREPARED" ≡ true
        → prepared_route S sha256 parse journal coordinator s ≡ ok answer
        → Here answer
    unfolding prepared_route
    prepared-Sound answer prepared h =
        elim (Bool-cases (
          not (is_false (get "canonical_write_performed" coordinator))
          || not (is_true (get "snapshots_verified" journal)))) [
            | inl bad ↦ subst Here (ok-injective (rw bad at h)) blocked
            | inr clean ↦ elim (Bool-cases (canonical_equals_before S sha256 parse journal s)) [
              | inr bad ↦ subst Here (ok-injective (rw bad at (rw clean at h))) blocked
              | inl equal ↦ subst Here (ok-injective (rw equal at (rw clean at h))) (
                  abort same (ground (arith, clean)) prepared
                    (canonical_equals_before-StateBefore S sha256 parse journal s equal))
            ]
          ]

    recover-Sound :
        (problems : List String)
        → Armed coordinator true
        → in_set (get "state" journal) recoverable_states ≡ ok true
        → verify_rollback_preconditions S sha256 journal s ≡ ok problems
        → Here (as_recover S sha256 parse problems)
    unfolding as_recover
    recover-Sound [] armed state checked =
        recover same armed state checked
          (verify_rollback_preconditions-Recoverable S sha256 journal s checked)
    recover-Sound (code ∷ codes) armed state checked = blocked

    other-Sound :
        (interrupted : Bool) (answer : Answer)
        → in_set (get "state" journal) recoverable_states ≡ ok interrupted
        → other_route S sha256 parse journal coordinator s interrupted ≡ ok answer
        → Here answer
    unfolding other_route recovered_ok
    other-Sound true answer state h =
        elim (Bool-cases (is_true (get "canonical_write_performed" coordinator))) [
          | inr bad ↦ subst Here (ok-injective (rw bad at h)) blocked
          | inl armed ↦
              let (problems, checked, after) =
                >>=-ok (verify_rollback_preconditions S sha256 journal s)
                  (λ x. ok (as_recover S sha256 parse x)) (rw armed at h) in
              subst Here (ok-injective after) (recover-Sound problems armed state checked)
        ]
    other-Sound false answer state h =
        elim (Bool-cases (eq_str (get "state" journal) "RECOVERED")) [
          | inr bad ↦ subst Here (ok-injective (rw bad at h)) blocked
          | inl recovered ↦ elim (Bool-cases (recovered_ok S sha256 parse journal coordinator s)) [
            | inr bad ↦ subst Here (ok-injective (rw bad at (rw recovered at h))) blocked
            | inl all ↦ subst Here (ok-injective (rw all at (rw recovered at h))) (
                let front = and_left _ _ (and_left _ _ (and_left _ _ all)) in
                release same (and_left _ _ front) recovered (and_right _ _ front) (
                  canonical_equals_before-StateBefore S sha256 parse journal s (and_right _ _ all)))
          ]
        ]

  owned-Sound :
      (journal coordinator : Value) (receipt : Option Bytes) (s : S.State) (answer : Answer)
      → owned_route S sha256 parse journal coordinator s ≡ ok answer
      → Sound journal coordinator receipt s answer
  unfolding owned_route
  owned-Sound journal coordinator receipt s answer h =
      elim (Bool-cases (
        not (eq_str (get "state" coordinator) "ACTIVE")
        || not (same_fields coordinator journal identity_fields))) [
          | inl bad ↦
              subst (Sound journal coordinator receipt s) (ok-injective (rw bad at h)) blocked
          | inr mine ↦
              let fields : same_fields coordinator journal identity_fields ≡ true =
                ground (arith, mine) in
              let active : eq_str (get "state" coordinator) "ACTIVE" ≡ true =
                ground (arith, mine) in
              let same : Owned journal coordinator =
                (active, same_fields-Same coordinator journal identity_fields fields) in
              elim (Bool-cases (eq_str (get "state" journal) "PREPARED")) [
                | inl prepared ↦
                    prepared-Sound journal coordinator receipt s same answer prepared
                      (rw prepared at (rw mine at h))
                | inr other ↦
                    let (interrupted, state, after) =
                      >>=-ok (in_set (get "state" journal) recoverable_states)
                        (λ x. other_route S sha256 parse journal coordinator s x)
                        (rw other at (rw mine at h)) in
                    other-Sound journal coordinator receipt s same interrupted answer state after
              ]
        ]

  -- A restart is routed only on evidence. A committed journal is reconciled, or found released by its
  -- own identity and receipt, only with its receipt and the canonical bytes proved. The other routes,
  -- and the reconciliation, need an active coordinator of the journal's transaction, batch, owner and
  -- journal path. A prewrite abort needs an unarmed one, and the release of a recovery an armed one
  -- and a verified rollback; for both, every path of the journal, the master index among them, is as
  -- it was before the transaction: it holds bytes of the digest from before, which its snapshot
  -- under the run's folder holds too, or there was no file and there is none; and the bytes of the
  -- master index have the digest that the journal names. A rollback needs an armed coordinator, a
  -- journal in one of the states WRITING_RECORDS, REBUILDING_INDEXES, VERIFYING,
  -- COMMITTED_PENDING_RECEIPT and RECOVERY_REQUIRED that passes its validation, the snapshot of
  -- every path that existed with the digest from before, and at every path bytes of the digest from
  -- before or after, or no file where the journal has no digest from before. Every other answer is
  -- BLOCKED.
  pub classify_restart-Routed :
      (journal coordinator : Value) (receipt : Option Bytes) (s : S.State) (route : String)
      (codes : List String)
      → classify_restart S sha256 parse journal coordinator receipt s ≡ ok (route, codes)
      → Routed journal coordinator receipt s route
  unfolding classify_restart
  classify_restart-Routed journal coordinator receipt s route codes h =
      elim (Bool-cases (not (is_dict journal) || not (is_dict coordinator))) [
        | inl bad ↦ subst (Sound journal coordinator receipt s) (ok-injective (rw bad at h)) blocked
        | inr dicts ↦ elim (Bool-cases (all_texts journal identity_fields)) [
          | inr bad ↦
              subst (Sound journal coordinator receipt s) (ok-injective (rw bad at (rw dicts at h)))
                blocked
          | inl texts ↦ elim (Bool-cases (eq_str (get "state" journal) "COMMITTED")) [
            | inl committed ↦
                receipt-Sound journal coordinator receipt s (route, codes)
                  (rw committed at (rw texts at (rw dicts at h)))
            | inr other ↦
                owned-Sound journal coordinator receipt s (route, codes)
                  (rw other at (rw texts at (rw dicts at h)))
          ]
        ]
      ]
