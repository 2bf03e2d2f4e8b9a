-- ===== src/Recovery/Execute/Refusal.antt =====
-- The journals that `execute_recovery` of src/candidate_production_recovery_engine.py refuses.
use technology_library_inges.Base.{
  String, ◌≡◌, ◌≢◌, refl, ap, Bool, Option, some, List, [], ◌∷◌, Result, ok, raised, ok-injective,
}
use technology_library_inges.Json.{Value}
use technology_library_inges.Storage.{Storage, Sha256}
use technology_library_inges.Recovery.Journal.{validate_recovery_journal}
use technology_library_inges.Recovery.Execute.{
  Answer, start, execute_recovery, execute_recovery_lem,
}
use technology_library_inges.Recovery.Execute.Contract.{checks-valid}

-- The storage is as it was, and no journal is returned.
abbrev pub Refused : (S : Storage) → S.State → Answer × S.State → Type 0
Refused S s r = (r.1 ≡ s) × ((j : Value) → r.0 ≢ ok (some j, []))

module _ (S : Storage) (sha256 : Sha256) where
  start-Refused :
      (journal : Value) (s : S.State) (errors : Result (List String))
      → errors ≢ ok []
      → Refused S s (start S sha256 journal s errors)
  unfolding start
  start-Refused journal s (raised x) ne = (refl, λ j h. cc h)
  start-Refused journal s (ok (code ∷ codes)) ne =
      (refl, λ j h. cc (ap (λ (x : Option Value × List String). x.0) (ok-injective h)))
  start-Refused journal s (ok []) ne = absurd (ne refl)

  -- A journal that is not valid is refused.
  pub execute_recovery-Refused :
      (journal : Value) (verify : Bool) (s : S.State)
      → validate_recovery_journal journal ≢ ok []
      → Refused S s (execute_recovery S sha256 journal verify s)
  execute_recovery-Refused journal verify s ne =
      rw execute_recovery_lem
        (start-Refused journal s _ (λ h. ne (checks-valid S sha256 journal verify s h)))
