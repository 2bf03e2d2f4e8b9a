-- ===== src/Mutation/Execute/Contract.antt =====
-- The contract of `execute_record_mutations` of src/candidate_canonical_record_mutation.py: what
-- its three answers say of the storage.
use technology_library_inges.Base.{
  String, ◌≡◌, refl, ap, sym, ◌∙◌, ◌⊎◌, false, Option, none, some, List, [], ◌∷◌, All, length,
  starts_with, Result, ok, raised, Bool-cases, inl, inr, arith,
}
use technology_library_inges.Json.{Value, get, is_dict}
use technology_library_inges.Storage.{Bytes, Storage, Sha256, IsFramed}
use technology_library_inges.Mutation.Validate.{Item, validate_transaction_for_mutation}
use technology_library_inges.Mutation.Validate.Targets.{IsWellFormed, Fresh, validate-Good}
use technology_library_inges.Mutation.Execute.{
  Expected, Report, Answer, Preflight, mutate, records_verified, prewrite_abort, begin, idle,
  preflight_record_mutations, execute_record_mutations, execute_record_mutations_lem,
}
use technology_library_inges.Mutation.Execute.Frame.{mutate-frame}
use technology_library_inges.Mutation.Execute.Preflight.{Prepared, Planned, preflight-Planned}
use technology_library_inges.Mutation.Execute.Verified.{
  count_writes, Written, mutate-Written, mutate-Report,
}
use technology_library_inges.Mutation.Execute.Abort.{mutate_abort, mutate_reports}

refused_with_code :
    (code : String) (r q : Option Report) → ◌≡◌ {A = Answer} (ok (q, code ∷ [])) (ok (r, [])) → ⊥
refused_with_code code r q h = cc

module _ (S : Storage) (sha256 : Sha256) where
  -- The item was prepared in `s`, and its content stands at its target in `s'`.
  abbrev pub Published : S.State → S.State → Item → Type 0
  Published s s' item =
      (b : Bytes) × Prepared S sha256 s item b × (S.read s' item.target_path ≡ some b)

  -- What a run without errors says: the items of the transaction are valid and published, and the
  -- report counts them.
  abbrev pub Completed : Value → S.State → S.State → Option Report → Type 0
  Completed plan s s' r =
      (items : List Item) × (validate_transaction_for_mutation plan ≡ ok (items, []))
      × All (Published s s') items
      × ((t : Report) × (r ≡ some t)
          × (t.state ≡ records_verified)
          × (t.verified_items ≡ length items)
          × (t.writes_completed ≡ count_writes items))

  begin_abort :
      (plan : Value) (preflight : Result (Preflight S sha256)) (s : S.State) (r : Report)
      (codes : List String)
      → (begin S sha256 plan preflight s).0 ≡ ok (some r, codes)
      → r.state ≡ prewrite_abort
      → (begin S sha256 plan preflight s).1 ≡ s
  unfolding begin
  begin_abort plan (raised x) s r codes h a = refl
  begin_abort plan (ok (items, e, code ∷ rest)) s r codes h a = refl
  begin_abort plan (ok (items, e, [])) s r codes h a = elim (Bool-cases (is_dict plan)) [
    | inl d ↦
        rw d
          (mutate_abort S sha256 (get "transaction_id" plan) e 0 items idle s r codes (rw d at h)
            a).1
    | inr d ↦ rw d
  ]

  begin_refused :
      (plan : Value) (preflight : Result (Preflight S sha256)) (s : S.State) (codes : List String)
      → (begin S sha256 plan preflight s).0 ≡ ok (none, codes)
      → (begin S sha256 plan preflight s).1 ≡ s
  unfolding begin
  begin_refused plan (raised x) s codes h = refl
  begin_refused plan (ok (items, e, code ∷ rest)) s codes h = refl
  begin_refused plan (ok (items, e, [])) s codes h = elim (Bool-cases (is_dict plan)) [
    | inl d ↦
        absurd
          (mutate_reports S sha256 (get "transaction_id" plan) e 0 items idle s codes (rw d at h))
    | inr d ↦ rw d
  ]

  -- A run that is refused (no report), or whose report says `PREWRITE_ABORT`, leaves the storage
  -- exactly as it was.
  pub execute_unchanged :
      (plan : Value) (s : S.State) (r : Option Report) (codes : List String)
      → (execute_record_mutations S sha256 plan s).0 ≡ ok (r, codes)
      → (r ≡ none) ⊎ ((t : Report) × (r ≡ some t) × (t.state ≡ prewrite_abort))
      → (execute_record_mutations S sha256 plan s).1 ≡ s
  execute_unchanged plan s r codes h (inl e) =
      rw execute_record_mutations_lem
        (begin_refused plan _ s codes (rw (execute_record_mutations_lem, e) at h))
  execute_unchanged plan s r codes h (inr (t, e, a)) =
      rw execute_record_mutations_lem
        (begin_abort plan _ s t codes (rw (execute_record_mutations_lem, e) at h) a)

module _ (S : Storage) (framed : IsFramed S) (sha256 : Sha256) where
  Planned-Published :
      (e : Expected) (s s' : S.State) (items : List Item)
      → All (Planned S sha256 e s) items
      → All (Written S framed sha256 e s') items
      → All (Published S sha256 s s') items
  Planned-Published e s s' [] p w = tt
  Planned-Published e s s' (item ∷ items) ((b, found, prepared), p) ((b', found', there), w) =
      ((b, prepared, there ∙ sym found' ∙ found), Planned-Published e s s' items p w)

  begin_verified :
      (plan : Value) (preflight : Result (Preflight S sha256)) (s : S.State) (r : Option Report)
      → preflight_record_mutations S sha256 plan s ≡ preflight
      → (begin S sha256 plan preflight s).0 ≡ ok (r, [])
      → Completed S sha256 plan s (begin S sha256 plan preflight s).1 r
  unfolding begin
  begin_verified plan (raised x) s r e h = cc
  begin_verified plan (ok (items, m, code ∷ rest)) s r e h = cc
  begin_verified plan (ok (items, m, [])) s r e h = elim (Bool-cases (is_dict plan)) [
    | inl d ↦
        let id = get "transaction_id" plan in
        let (valid, distinct, planned) = preflight-Planned S sha256 plan s items m e in
        let h' : (mutate S sha256 id m 0 items idle s).0 ≡ ok (r, []) = rw d at h in
        let written = mutate-Written S framed sha256 id m 0 items idle s r distinct h' in
        let (t, is, state, verified, writes) =
          mutate-Report S framed sha256 id m 0 items idle s r h' in
        rw d (
          items,
          valid,
          Planned-Published m s _ items planned written,
          (t, is, state, verified ∙ omega arith, writes ∙ omega arith),
        )
    | inr d ↦ absurd (refused_with_code _ _ _ (rw d at h))
  ]

  -- Over a storage whose writes and deletes leave the other paths alone: a run that reports no
  -- error was given a valid transaction. Every item was prepared when it began: its content had
  -- the planned digest, a target to create was absent, one to update had the planned base digest,
  -- one to keep had the content. At the end the content of every item stands at its target, and
  -- the report says `RECORDS_VERIFIED` with the exact counts.
  pub execute-Published :
      (plan : Value) (s : S.State) (r : Option Report)
      → (execute_record_mutations S sha256 plan s).0 ≡ ok (r, [])
      → Completed S sha256 plan s (execute_record_mutations S sha256 plan s).1 r
  execute-Published plan s r h =
      rw execute_record_mutations_lem
        (begin_verified plan _ s r refl (rw execute_record_mutations_lem at h))

  begin-frame :
      (plan : Value) (preflight : Result (Preflight S sha256)) (s : S.State) (q : String)
      → preflight_record_mutations S sha256 plan s ≡ preflight
      → ((items : List Item)
          → validate_transaction_for_mutation plan ≡ ok (items, [])
          → Fresh q items)
      → S.read (begin S sha256 plan preflight s).1 q ≡ S.read s q
  unfolding begin
  begin-frame plan (raised x) s q e f = refl
  begin-frame plan (ok (items, m, code ∷ rest)) s q e f = refl
  begin-frame plan (ok (items, m, [])) s q e f = elim (Bool-cases (is_dict plan)) [
    | inl d ↦ rw d (
        mutate-frame S framed sha256 q (get "transaction_id" plan) m 0 items idle s
          (f items (preflight-Planned S sha256 plan s items m e).0))
    | inr d ↦ rw d
  ]

  -- Whatever the outcome, a path that is no target of the validated items keeps its bytes.
  pub execute-frame :
      (plan : Value) (s : S.State) (q : String)
      → ((items : List Item)
          → validate_transaction_for_mutation plan ≡ ok (items, [])
          → Fresh q items)
      → S.read (execute_record_mutations S sha256 plan s).1 q ≡ S.read s q
  execute-frame plan s q f = rw execute_record_mutations_lem (begin-frame plan _ s q refl f)

  pub Fresh-outside :
      (q : String) (items : List Item)
      → starts_with q "00_LIBRARY/" ≡ false
      → All IsWellFormed items
      → Fresh q items
  Fresh-outside q [] out w = tt
  Fresh-outside q (item ∷ items) out (w, ws) = (
    λ e. cc (ap (λ (t : String). starts_with t "00_LIBRARY/") e, w.target_in_library),
    Fresh-outside q items out ws,
  )

  -- Over a storage whose writes and deletes leave the other paths alone: whatever the outcome, a
  -- path outside the library keeps its bytes.
  pub execute-outside :
      (plan : Value) (s : S.State) (q : String)
      → starts_with q "00_LIBRARY/" ≡ false
      → S.read (execute_record_mutations S sha256 plan s).1 q ≡ S.read s q
  execute-outside plan s q out =
      execute-frame plan s q
        (λ items valid. Fresh-outside q items out (validate-Good plan (items, []) valid).0)
