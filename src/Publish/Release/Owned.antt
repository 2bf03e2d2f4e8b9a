-- ===== src/Publish/Release/Owned.antt =====
-- `persist_recovered_and_release` of src/candidate_controlled_publish.py acts for the holder of the
-- lease alone.
use technology_library_inges.Base.{
  String, ◌≡◌, refl, ap, sym, ◌∙◌, ◌⊎◌, inl, inr, Bool, true, false, Option, none, some, List, [],
  ◌∷◌, arith, if◌then◌else◌, Result, ok, raised, Exception, ok-injective, Bool-cases,
}
use technology_library_inges.Json.{Value, get, index, is_dict, is_true, eq_str, value_eq, text_of}
use technology_library_inges.Storage.{Bytes, Storage, Sha256, holds, holds→eq}
use technology_library_inges.Coordinator.State.{Identity}
use technology_library_inges.Coordinator.Drive.{Drive, Codec, Reading, read_state}
use technology_library_inges.Coordinator.Transitions.{release_recovered}
use technology_library_inges.Coordinator.Transitions.Outcomes.{
  run_release, FreedBy, run_release-FreedBy,
}
use technology_library_inges.Coordinator.Transitions.Outcomes as Outcomes
use technology_library_inges.Recovery.Execute.{execute_recovery}
use technology_library_inges.Prewrite.Capture.{safe_recovery_path}
use technology_library_inges.Publish.Restored.{started}
use technology_library_inges.Publish.Release.{
  Writer, callbacks, recover, confirm, private_write_exact, persist_journal, Answer, refuse,
  identity_of, answer_of, release_with, after_final, persist_recovered, after_recovery,
  after_journal, owns, with_lease, persist_recovered_and_release,
}

module _ (S : Storage) (codec : Codec) (sha256 : Sha256) (D : Drive) (writer : Writer S) where
  -- An active lease past the write boundary that names the journal's transaction.
  abbrev pub Names : Value → Value → Type 0
  Names active journal =
      (eq_str (get "state" active) "ACTIVE" ≡ true)
      × (is_true (get "canonical_write_performed" active) ≡ true)
      × (value_eq (get "transaction_id" active) (get "transaction_id" journal) ≡ true)
      × (value_eq (get "batch_id" active) (get "batch_id" journal) ≡ true)
      × (value_eq (get "owner" active) (get "owner" journal) ≡ true)
      × (value_eq (get "journal_path" active) (get "journal_path" journal) ≡ true)

  owns-Names :
      (active journal : Value)
      → owns S codec sha256 D writer active journal ≡ true
      → Names active journal
  unfolding owns
  owns-Names active journal h =
      (ground arith, ground arith, ground arith, ground arith, ground arith, ground arith)

  -- The lease reads as held for this journal.
  abbrev pub Owns : Value → D.State → Type 0
  Owns journal d =
      (token : Option String) × (active : Value) × (read_state D codec sha256 d
        ≡ ok (token, active, []))
      × Names active journal

  with_lease-cases :
      (journal : Value) (reading : Result Reading) (s : S.State) (d : D.State)
      → read_state D codec sha256 d ≡ reading
      → (Owns journal d
          × (with_lease S codec sha256 D writer journal reading s d
              ≡ after_journal S codec sha256 D writer
                  (started "RECOVERY_REQUIRED" journal)
                  (persist_journal S codec (started "RECOVERY_REQUIRED" journal) s)
                  d))
        ⊎ (((with_lease S codec sha256 D writer journal reading s d).1 ≡ s)
            × ((with_lease S codec sha256 D writer journal reading s d).2 ≡ d)
            × ((with_lease S codec sha256 D writer journal reading s d).0 ≡ ok (true, []) → ⊥))
  unfolding with_lease refuse
  with_lease-cases journal (raised x) s d e = inr (refl, refl, λ h. cc)
  with_lease-cases journal (ok (token, active, code ∷ codes)) s d e =
      inr (refl, refl, λ h. cc (ap (λ (x : Bool × List String). x.0) (ok-injective h)))
  with_lease-cases journal (ok (token, active, [])) s d e = elim (Bool-cases (is_dict active)) [
    | inl dict ↦ elim (Bool-cases (owns S codec sha256 D writer active journal)) [
      | inl owned ↦
          inl ((token, active, e, owns-Names active journal owned), rw dict (rw owned refl))
      | inr stale ↦ rw dict (
          rw stale
            (inr (refl, refl, λ h. cc (ap (λ (x : Bool × List String). x.0) (ok-injective h)))))
    ]
    | inr other ↦
        rw other (inr (refl, refl, λ h. cc (ap (λ (x : Bool × List String). x.0) (ok-injective h))))
  ]

  persist_recovered_and_release_lem :
      (journal : Value) (s : S.State) (d : D.State)
      → persist_recovered_and_release S codec sha256 D writer journal s d
        ≡ with_lease S codec sha256 D writer journal (read_state D codec sha256 d) s d
  unfolding persist_recovered_and_release
  persist_recovered_and_release_lem journal s d = refl

  -- A worker whose journal the lease does not name as its holder, or that cannot read the lease,
  -- leaves both the storage and the lease exactly as they were.
  pub persist_recovered_and_release-fenced :
      (journal : Value) (s : S.State) (d : D.State)
      → Owns journal d
        ⊎ (((persist_recovered_and_release S codec sha256 D writer journal s d).1 ≡ s)
            × ((persist_recovered_and_release S codec sha256 D writer journal s d).2 ≡ d))
  persist_recovered_and_release-fenced journal s d =
      rw (persist_recovered_and_release_lem journal s d)
        (elim (with_lease-cases journal (read_state D codec sha256 d) s d refl) [
          | inl (owned, next) ↦ inl owned
          | inr (same_storage, same_lease, failed) ↦ inr (same_storage, same_lease)
        ])

  release_recovered-FreedBy :
      (digest : String) (id : Identity) (d : D.State)
      → (release_recovered D codec sha256 digest id d).0 ≡ ok []
      → FreedBy D codec sha256 true id d (release_recovered D codec sha256 digest id d).1
  unfolding run_release
  release_recovered-FreedBy digest id d h =
      run_release-FreedBy D codec sha256 (Outcomes.after_recovery digest) id d h

  -- The recovery engine over the writer and `canonical_delete`, from a storage where nothing has been
  -- raised.
  abbrev pub run :
      Value → S.State → Result (Option Value × List String) × (callbacks S writer).State
  run required s = execute_recovery (callbacks S writer) sha256 required true (s, none)

  -- The rest of a run, from the storage `s` in which the recovery starts.
  abbrev pub Recovers : Value → S.State → D.State → Answer S codec sha256 D writer → Type 0
  Recovers required s d answer =
      (recovered : Value) × ((run required s).0 ≡ ok (some recovered, []))
      × ((run required s).1.1 ≡ none)
      × ((path : Value) × (index "journal_path" recovered ≡ ok path)
          × (answer.1
              ≡ (private_write_exact S (text_of path) (codec.encode recovered)
                  (run required s).1.0).1)
          × (S.read answer.1 (text_of path) ≡ some (codec.encode recovered)))
      × ((id : Identity) × (identity_of S codec sha256 D writer recovered ≡ ok id)
          × FreedBy D codec sha256 true id d answer.2)

  private_write_exact_lem :
      (path : String) (raw : Bytes) (s : S.State)
      → private_write_exact S path raw s ≡ (
          if safe_recovery_path path
          then confirm S path raw (S.write s path raw)
          else (ok false, s))
  unfolding private_write_exact
  private_write_exact_lem path raw s = refl

  confirm-read :
      (path : String) (raw : Bytes) (r : Bool × S.State)
      → (confirm S path raw r).0 ≡ ok true
      → S.read (confirm S path raw r).1 path ≡ some raw
  unfolding confirm
  confirm-read path raw (false, s) h = cc
  confirm-read path raw (true, s) h = elim (Bool-cases (holds (S.read s path) raw)) [
    | inl same ↦ rw same (holds→eq (S.read s path) raw same)
    | inr differ ↦ cc (rw differ at h)
  ]

  private_write_exact-read :
      (path : String) (raw : Bytes) (s : S.State)
      → (private_write_exact S path raw s).0 ≡ ok true
      → S.read (private_write_exact S path raw s).1 path ≡ some raw
  private_write_exact-read path raw s h = elim (Bool-cases (safe_recovery_path path)) [
    | inl safe ↦ rw (private_write_exact_lem path raw s) (
        rw safe (
          confirm-read path raw (S.write s path raw)
            (rw safe at (rw (private_write_exact_lem path raw s) at h))))
    | inr unsafe ↦ cc (rw unsafe at (rw (private_write_exact_lem path raw s) at h))
  ]

  answer_of-true :
      (r : Result (List String)) → answer_of S codec sha256 D writer r ≡ ok (true, []) → r ≡ ok []
  unfolding answer_of
  answer_of-true (raised x) h = cc
  answer_of-true (ok []) h = refl
  answer_of-true (ok (code ∷ codes)) h = cc (ap (λ (x : Bool × List String). x.0) (ok-injective h))

  release_with-Freed :
      (raw : Bytes) (id : Result Identity) (s : S.State) (d : D.State)
      → (release_with S codec sha256 D writer raw id s d).0 ≡ ok (true, [])
      → (who : Identity) × (id ≡ ok who)
        × ((release_with S codec sha256 D writer raw id s d).1 ≡ s)
        × FreedBy D codec sha256 true who d (release_with S codec sha256 D writer raw id s d).2
  unfolding release_with
  release_with-Freed raw (raised x) s d h = cc
  release_with-Freed raw (ok id) s d h =
      (id, refl, refl, release_recovered-FreedBy (sha256 raw) id d (answer_of-true _ h))

  abbrev Ran : Type 0
  Ran = Result (Option Value × List String) × (callbacks S writer).State

  after_final-Recovers :
      (required recovered path : Value) (s s' : S.State) (d : D.State)
      → run required s ≡ (ok (some recovered, []), (s', none))
      → index "journal_path" recovered ≡ ok path
      → (written : Result Bool × S.State)
      → private_write_exact S (text_of path) (codec.encode recovered) s' ≡ written
      → (after_final S codec sha256 D writer recovered written d).0 ≡ ok (true, [])
      → Recovers required s d (after_final S codec sha256 D writer recovered written d)
  unfolding after_final refuse
  after_final-Recovers required recovered path s s' d done is (raised x, t) w h = cc
  after_final-Recovers required recovered path s s' d done is (ok false, t) w h =
      cc (ap (λ (x : Bool × List String). x.0) (ok-injective h))
  after_final-Recovers required recovered path s s' d done is (ok true, t) w h =
      let (who, id, same, freed) =
        release_with-Freed (codec.encode recovered) (identity_of S codec sha256 D writer recovered)
          t d h in
      let left : t ≡ (private_write_exact S (text_of path) (codec.encode recovered) s').1 =
        sym (ap (λ (x : Result Bool × S.State). x.1) w) in
      (
        recovered,
        ap (λ (x : Ran). x.0) done,
        ap (λ (x : Ran). x.1.1) done,
        (
          path,
          is,
          rw done (same ∙ left),
          rw (same ∙ left) (
              private_write_exact-read (text_of path) (codec.encode recovered) s'
                (ap (λ (x : Result Bool × S.State). x.0) w)),
        ),
        (who, id, freed),
      )

  persist_recovered-Recovers :
      (required recovered : Value) (path : Result Value) (s s' : S.State) (d : D.State)
      → run required s ≡ (ok (some recovered, []), (s', none))
      → index "journal_path" recovered ≡ path
      → (persist_recovered S codec sha256 D writer recovered path s' d).0 ≡ ok (true, [])
      → Recovers required s d (persist_recovered S codec sha256 D writer recovered path s' d)
  unfolding persist_recovered
  persist_recovered-Recovers required recovered (raised x) s s' d done is h = cc
  persist_recovered-Recovers required recovered (ok path) s s' d done is h =
      after_final-Recovers required recovered path s s' d done is _ refl h

  after_recovery-Recovers :
      (required : Value) (s : S.State) (d : D.State) (r : Result (Option Value × List String))
      (t : S.State) (pending : Option Exception)
      → run required s ≡ (r, (t, pending))
      → (after_recovery S codec sha256 D writer (r, t, pending) d).0 ≡ ok (true, [])
      → Recovers required s d (after_recovery S codec sha256 D writer (r, t, pending) d)
  unfolding after_recovery refuse
  after_recovery-Recovers required s d r t (some x) e h = cc
  after_recovery-Recovers required s d (raised x) t none e h = cc
  after_recovery-Recovers required s d (ok (recovered, code ∷ codes)) t none e h =
      cc (ap (λ (x : Bool × List String). x.0) (ok-injective h))
  after_recovery-Recovers required s d (ok (none, [])) t none e h =
      cc (ap (λ (x : Bool × List String). x.0) (ok-injective h))
  after_recovery-Recovers required s d (ok (some recovered, [])) t none e h =
      persist_recovered-Recovers required recovered (index "journal_path" recovered) s t d e refl h

  after_journal-Recovers :
      (required : Value) (a : Result Bool × S.State) (d : D.State)
      → (after_journal S codec sha256 D writer required a d).0 ≡ ok (true, [])
      → Recovers required a.1 d (after_journal S codec sha256 D writer required a d)
  unfolding after_journal refuse recover
  after_journal-Recovers required (raised x, s) d h = cc
  after_journal-Recovers required (ok false, s) d h =
      cc (ap (λ (x : Bool × List String). x.0) (ok-injective h))
  after_journal-Recovers required (ok true, s) d h =
      after_recovery-Recovers required s d (run required s).0 (run required s).1.0
        (run required s).1.1 refl h

  -- A run that answers success found the lease held, past the write boundary, for its journal. It
  -- marked the journal `RECOVERY_REQUIRED` and recovered it, with the given canonical writer and the
  -- deletes of `canonical_delete`, without an error and without an outcome left unconfirmed. The
  -- recovered journal stands at its path, and the lease, which was held by the identity that the
  -- recovered journal names, now reads as free, one generation later.
  pub persist_recovered_and_release-Recovers :
      (journal : Value) (s : S.State) (d : D.State)
      → (persist_recovered_and_release S codec sha256 D writer journal s d).0 ≡ ok (true, [])
      → Owns journal d
        × Recovers
            (started "RECOVERY_REQUIRED" journal)
            (persist_journal S codec (started "RECOVERY_REQUIRED" journal) s).1
            d
            (persist_recovered_and_release S codec sha256 D writer journal s d)
  persist_recovered_and_release-Recovers journal s d h =
      elim (with_lease-cases journal (read_state D codec sha256 d) s d refl) [
        | inl (owned, next) ↦ (
          owned,
          rw (persist_recovered_and_release_lem journal s d) (
              rw next (
                after_journal-Recovers (started "RECOVERY_REQUIRED" journal) _ d
                  (rw next at (rw (persist_recovered_and_release_lem journal s d) at h)))),
        )
        | inr (same_storage, same_lease, failed) ↦
            absurd (failed (rw (persist_recovered_and_release_lem journal s d) at h))
      ]
