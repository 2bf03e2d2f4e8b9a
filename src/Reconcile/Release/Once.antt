-- ===== src/Reconcile/Release/Once.antt =====
-- That `reconcile_committed_release` of src/candidate_committed_reconciliation.py releases at most once,
-- and only what is proved.
use technology_library_inges.Base.{
  String, ◌≡◌, refl, ap, ◌∙◌, subst, true, ◌&&◌, Option, List, [], ◌∷◌, ok, >>=-ok, ok-injective,
  Bool-cases, inl, inr,
}
use technology_library_inges.Json.{Value, get, eq_str}
use technology_library_inges.Storage.{Bytes, Sha256}
use technology_library_inges.Reconcile.Proof.{proof_errors}
use technology_library_inges.Reconcile.Proof.Proven.{
  Proven, proof_errors-Proven, and_left, and_right,
}
use technology_library_inges.Reconcile.Release.{
  Coordinator, identity_of, is_released_by, is_held_by, Answer, is_available, after_release,
  with_owner, after_proof, reconcile_committed_release,
}

module _ (C : Coordinator) (sha256 : Sha256) (parse : Bytes → Option Value)
    (read_canonical read_private : String → Option Bytes) where
  abbrev pub Free : Value → Bytes → C.World → Type 0
  Free journal raw w =
      (eq_str (get "state" (C.read_owner w).0) "FREE" ≡ true)
      × (is_released_by (C.read_owner w).0 (identity_of journal) (sha256 raw) ≡ true)

  abbrev pub Held : Value → C.World → Type 0
  Held journal w = is_held_by (C.read_owner w).0 (identity_of journal) ≡ true

  abbrev pub release : Value → Bytes → C.World → C.World
  release journal raw w = C.release_once (identity_of journal) (sha256 raw) w

  -- The outcomes, with the world that each leaves.
  pub data Reconciled (journal : Value) (raw : Bytes) (w : C.World)
      : String → C.World → Type 0 where
    blocked : Reconciled journal raw w "BLOCKED" w
    unavailable : Reconciled journal raw w "UNCERTAIN" w
    already :
        Proven sha256 parse read_canonical read_private journal raw
        → Free journal raw w
        → Reconciled journal raw w "ALREADY_RELEASED" w
    unconfirmed :
        Proven sha256 parse read_canonical read_private journal raw
        → Held journal w
        → Reconciled journal raw w "UNCERTAIN" (release journal raw w)
    confirmed :
        Proven sha256 parse read_canonical read_private journal raw
        → Held journal w
        → Free journal raw (release journal raw w)
        → Reconciled journal raw w "RELEASED" (release journal raw w)

  abbrev Sound : Value → Bytes → C.World → Answer × C.World → Type 0
  Sound journal raw w ((state, codes), w') = Reconciled journal raw w state w'

  after-Sound :
      (journal : Value) (raw : Bytes) (w : C.World)
      → Proven sha256 parse read_canonical read_private journal raw
      → Held journal w
      → Sound journal raw w (
          after_release C sha256 parse read_canonical read_private journal
            (sha256 raw)
            (release journal raw w))
  unfolding after_release
  after-Sound journal raw w proven held =
      elim (Bool-cases (is_available (C.read_owner (release journal raw w)))) [
        | inr bad ↦ rw bad (unconfirmed proven held)
        | inl there ↦
            rw there
              (elim (Bool-cases (
                eq_str (get "state" (C.read_owner (release journal raw w)).0) "FREE"
                && is_released_by (C.read_owner (release journal raw w)).0 (identity_of journal)
                    (sha256 raw))) [
                      | inr bad ↦ rw bad (unconfirmed proven held)
                      | inl free ↦
                          rw free (confirmed proven held (and_left _ _ free, and_right _ _ free))
                    ])
      ]

  owner-Sound :
      (journal : Value) (raw : Bytes) (w : C.World)
      → Proven sha256 parse read_canonical read_private journal raw
      → Sound journal raw w (
          with_owner C sha256 parse read_canonical read_private journal
            (sha256 raw)
            w
            (C.read_owner w).0)
  unfolding with_owner
  owner-Sound journal raw w proven =
      elim (Bool-cases (eq_str (get "state" (C.read_owner w).0) "FREE")) [
        | inl free ↦
            rw free
              (elim (Bool-cases
                (is_released_by (C.read_owner w).0 (identity_of journal) (sha256 raw))) [
                  | inl mine ↦ rw mine (already proven (free, mine))
                  | inr foreign ↦ rw foreign blocked
                ])
        | inr other ↦
            rw other (elim (Bool-cases (is_held_by (C.read_owner w).0 (identity_of journal))) [
              | inl held ↦ rw held (after-Sound journal raw w proven held)
              | inr bad ↦ rw bad blocked
            ])
      ]

  proof-Sound :
      (journal : Value) (raw : Bytes) (w : C.World) (codes : List String)
      → (codes ≡ [] → Proven sha256 parse read_canonical read_private journal raw)
      → Sound journal raw w
          (after_proof C sha256 parse read_canonical read_private journal raw w codes)
  unfolding after_proof
  proof-Sound journal raw w (code ∷ codes) proven = blocked
  proof-Sound journal raw w [] proven = elim (Bool-cases (is_available (C.read_owner w))) [
    | inr bad ↦ rw bad unavailable
    | inl there ↦ rw there (owner-Sound journal raw w (proven refl))
  ]

  -- Whatever the outside world does: the coordinator is released at most once, with the journal's own
  -- identity and the digest of the receipt, and only if the journal and the receipt are proved and the
  -- lease was held under that identity with the write recorded. A release is reported only when the
  -- coordinator is then read back as free by this receipt. A blocked or already released transaction
  -- changes nothing.
  pub reconcile_committed_release-Reconciled :
      (journal : Value) (raw : Bytes) (w w' : C.World) (state : String) (codes : List String)
      → reconcile_committed_release C sha256 parse read_canonical read_private journal raw w
        ≡ ok ((state, codes), w')
      → Reconciled journal raw w state w'
  unfolding reconcile_committed_release
  reconcile_committed_release-Reconciled journal raw w w' state codes h =
      let (errors, checked, after) =
        >>=-ok (proof_errors sha256 parse read_canonical read_private journal raw) _ h in
      subst (Sound journal raw w) (ok-injective after) (
        proof-Sound journal raw w errors (λ clean.
          proof_errors-Proven sha256 parse read_canonical read_private journal raw
            (checked ∙ ap ok clean)))
