-- ===== src/Settlement/Commit/Contract.antt =====
-- The contract of `build_committed_journal` of src/candidate_transaction_commit_engine.py, with the
-- receipt before it and the recovery after it.
use mathlib.Core.Option.{some-injective}
use technology_library_inges.Base.{
  String, ◌≡◌, refl, ap, sym, ◌∙◌, Bool, true, Option, some, List, [], ◌∷◌, Bool-cases, inl, inr,
  Passes, failures, failures-Passes, ok, >>=-ok, ok-injective, str_eq,
}
use technology_library_inges.Json.{Value, str, get, update, is_dict, get-update}
use technology_library_inges.Storage.{Bytes, Storage, Sha256}
use technology_library_inges.Recovery.Journal.States.{committed_invalid}
use technology_library_inges.Recovery.Execute.{execute_recovery}
use technology_library_inges.Recovery.Execute.Refusal.{Refused, execute_recovery-Refused}
use technology_library_inges.Settlement.Commit.{
  commit_checks, terminal_fields, terminal, build_committed_journal,
}

module _ (sha256 : Sha256) where
  -- The terminal journal is the given one with the terminal keys, and every test has passed.
  abbrev pub Terminal : Value → Value → Bytes → Value → Type 0
  Terminal journal receipt raw j =
      (is_dict journal ≡ true)
      × (is_dict receipt ≡ true)
      × Passes (commit_checks journal receipt raw)
      × (j ≡ update journal (terminal_fields receipt (sha256 raw)))

  terminal-some :
      (journal receipt : Value) (raw : Bytes) (codes : List String) (j : Value)
      → terminal sha256 journal receipt raw codes ≡ (some j, [])
      → (codes ≡ []) × (j ≡ update journal (terminal_fields receipt (sha256 raw)))
  unfolding terminal
  terminal-some journal receipt raw (code ∷ codes) j h =
      cc (ap (λ (x : Option Value × List String). x.0) h)
  terminal-some journal receipt raw [] j h =
      (refl, some-injective _ _ (ap (λ (x : Option Value × List String). x.0) (sym h)))

  build-Terminal :
      (journal receipt : Value) (raw : Bytes) (j : Value)
      → build_committed_journal sha256 journal receipt raw ≡ ok (some j, [])
      → Terminal journal receipt raw j
  unfolding build_committed_journal
  build-Terminal journal receipt raw j h = elim (Bool-cases (is_dict journal)) [
    | inl d ↦ elim (Bool-cases (is_dict receipt)) [
      | inl r ↦
          let (codes, checked, is) =
            >>=-ok (failures (commit_checks journal receipt raw)) _ (rw r at (rw d at h)) in
          let (clear, same) = terminal-some journal receipt raw codes j (ok-injective is) in
          (d, r, failures-Passes (commit_checks journal receipt raw) (checked ∙ ap ok clear), same)
      | inr r ↦
          cc (ap (λ (x : Option Value × List String). x.0) (ok-injective (rw r at (rw d at h))))
    ]
    | inr d ↦ cc (ap (λ (x : Option Value × List String). x.0) (ok-injective (rw d at h)))
  ]

  terminal_fields-state :
      (journal receipt : Value) (digest : String)
      → is_dict journal ≡ true
      → get "state" (update journal (terminal_fields receipt digest)) ≡ str "COMMITTED"
  unfolding terminal_fields str_eq
  terminal_fields-state journal receipt digest d =
      get-update "state" journal (terminal_fields receipt digest) d

  terminal_fields-receipt :
      (journal receipt : Value) (digest : String)
      → is_dict journal ≡ true
      → get "receipt_sha256" (update journal (terminal_fields receipt digest)) ≡ str digest
  unfolding terminal_fields str_eq
  terminal_fields-receipt journal receipt digest d =
      get-update "receipt_sha256" journal (terminal_fields receipt digest) d

  -- A committed journal that is built comes from a journal and a receipt that pass every test of the
  -- commit. It is that journal with the terminal keys, it names the digest of the receipt's bytes,
  -- and it is final: over any storage, a recovery with it returns no journal and changes nothing.
  pub build_committed_journal-Terminal :
      (S : Storage) (journal receipt : Value) (raw : Bytes) (j : Value) (verify : Bool)
      (s : S.State)
      → build_committed_journal sha256 journal receipt raw ≡ ok (some j, [])
      → Terminal journal receipt raw j
        × (get "receipt_sha256" j ≡ str (sha256 raw))
        × Refused S s (execute_recovery S sha256 j verify s)
  build_committed_journal-Terminal S journal receipt raw j verify s h =
      let (d, r, passes, same) = build-Terminal journal receipt raw j h in
      (
        (d, r, passes, same),
        ap (get "receipt_sha256") same ∙ terminal_fields-receipt journal receipt (sha256 raw) d,
        execute_recovery-Refused S sha256 j verify s (
            committed_invalid j
              (ap (get "state") same ∙ terminal_fields-state journal receipt (sha256 raw) d)),
      )
