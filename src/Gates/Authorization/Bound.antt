-- ===== src/Gates/Authorization/Bound.antt =====
-- What an authorization of src/candidate_publish_authorization.py is bound to.
use mathlib.Core.Option.{some-injective}
use technology_library_inges.Base.{
  String, ◌≡◌, refl, ap, sym, ◌∙◌, subst, true, Option, none, some, List, [], ◌∷◌,
  sorted_set-eq-nil, Bool-cases, inl, inr, Passes, failures, failures-Passes, ok, >>=-ok,
  ok-injective,
}
use technology_library_inges.Json.{Value, str, get, is_dict, value_eq, value_eq→eq}
use technology_library_inges.Storage.{Bytes, Sha256}
use technology_library_inges.Gates.Authorization.{
  Parsed, readiness_checks, authorization_fields, expected_checks, payload_or, parse_document,
  parse_readiness, judge, validate_authorization, confirm_phrase,
}

module _ (decode : Bytes → Option Value) (sha256 : Sha256) where
  -- The bytes are a readiness report that passes every check.
  abbrev pub IsReadiness : Bytes → Value → Type 0
  IsReadiness raw readiness =
      (decode raw ≡ some readiness)
      × (is_dict readiness ≡ true)
      × Passes (readiness_checks readiness)

  pub parse_document-some :
      (document : Option Value) (readiness : Value)
      → parse_document decode sha256 document ≡ ok (some readiness, [])
      → (document ≡ some readiness)
        × (is_dict readiness ≡ true)
        × Passes (readiness_checks readiness)
  unfolding parse_document payload_or
  parse_document-some none readiness h =
      cc (ap (λ (x : Parsed decode sha256). x.0) (ok-injective h))
  parse_document-some (some payload) readiness h = elim (Bool-cases (is_dict payload)) [
    | inl d ↦
        let (codes, checked, is) = >>=-ok (failures (readiness_checks payload)) _ (rw d at h) in
        let (clear, same) = payload_or-some payload codes readiness (ok-injective is) in
        (
          ap some same,
          ap is_dict (sym same) ∙ d,
          subst (λ (v : Value). Passes (readiness_checks v)) same
              (failures-Passes (readiness_checks payload) (checked ∙ ap ok clear)),
        )
    | inr d ↦ cc (ap (λ (x : Parsed decode sha256). x.0) (ok-injective (rw d at h)))
  ]
    where
      payload_or-some :
          (payload : Value) (codes : List String) (readiness : Value)
          → payload_or decode sha256 payload codes ≡ (some readiness, [])
          → (codes ≡ []) × (payload ≡ readiness)
      payload_or-some payload [] readiness h =
          (refl, some-injective _ _ (ap (λ (x : Parsed decode sha256). x.0) h))
      payload_or-some payload (code ∷ codes) readiness h =
          cc (ap (λ (x : Parsed decode sha256). x.0) h)

  judge-bound :
      (payload : Value) (raw : Bytes) (p : Parsed decode sha256)
      → judge decode sha256 payload raw p ≡ ok []
      → (readiness : Value) × (p ≡ (some readiness, []))
        × Passes (
            expected_checks payload (
              authorization_fields
                (sha256 raw)
                (get "batch_id" readiness)
                (get "transaction_id" readiness)))
  unfolding judge
  judge-bound payload raw (readiness, code ∷ codes) h = cc (ok-injective h)
  judge-bound payload raw (none, []) h = cc (ok-injective h)
  judge-bound payload raw (some readiness, []) h = elim (Bool-cases (is_dict payload)) [
    | inl d ↦
        let (codes, checked, is) = >>=-ok (failures _) _ (rw d at h) in
        (
          readiness,
          refl,
          failures-Passes _ (checked ∙ ap ok (sorted_set-eq-nil codes (ok-injective is))),
        )
    | inr d ↦ cc (ok-injective (rw d at h))
  ]

  -- What a valid authorization says of the readiness bytes.
  abbrev pub Authorizes : Value → Bytes → Type 0
  Authorizes payload raw =
      (get "readiness_sha256" payload ≡ str (sha256 raw))
      × (get "confirmation_phrase_id" payload ≡ str confirm_phrase)
      × ((readiness : Value) × IsReadiness raw readiness
          × (value_eq (get "batch_id" payload) (get "batch_id" readiness) ≡ true)
          × (value_eq (get "transaction_id" payload) (get "transaction_id" readiness) ≡ true))

  -- An authorization that is valid for readiness bytes names their digest and the confirmation
  -- phrase, is for the batch and the transaction that they name, and the bytes are a readiness
  -- report that passes every check.
  pub validate_authorization-Authorizes :
      (payload : Value) (raw : Bytes)
      → validate_authorization decode sha256 payload raw ≡ ok []
      → Authorizes payload raw
  unfolding validate_authorization parse_readiness expected_checks authorization_fields
  validate_authorization-Authorizes payload raw h =
      let (parsed, reads, judged) = >>=-ok (parse_readiness decode sha256 (some raw)) _ h in
      let (readiness, is, passes) = judge-bound payload raw parsed judged in
      (
        value_eq→eq _ _ (ok-injective passes.1.1.1.0),
        value_eq→eq _ _ (ok-injective passes.1.1.1.1.1.1.1.1.0),
        (
          readiness,
          parse_document-some (decode raw) readiness (reads ∙ ap ok is),
          ok-injective passes.1.1.1.1.1.0,
          ok-injective passes.1.1.1.1.1.1.0,
        ),
      )
