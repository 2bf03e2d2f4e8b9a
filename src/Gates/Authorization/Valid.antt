-- ===== src/Gates/Authorization/Valid.antt =====
-- An authorization that src/candidate_publish_authorization.py builds, before its own validation.
use mathlib.Core.Option.{some-injective}
use technology_library_inges.Base.{
  String, ◌≡◌, refl, ap, sym, ◌∙◌, true, Option, none, some, List, [], ◌∷◌, sorted_set, Passes,
  failures, failures-Passes, Passes-failures, ok, ◌>>=◌, >>=-ok, ok-injective, str_eq, str_eq_refl,
  str_eq→eq,
}
use technology_library_inges.Json.{
  Value, null, bool, int, str, arr, obj, fields, get, find_field, value_eq, text_of,
}
use technology_library_inges.Storage.{Bytes, Sha256}
use technology_library_inges.Gates.Authorization.{
  Parsed, readiness_checks, authorization_fields, expected_checks, parse_document, parse_readiness,
  confirmations, authorization_or, authorize, build_authorization, judge, validate_authorization,
  is_id, confirm_phrase,
}
use technology_library_inges.Gates.Authorization.Bound.{IsReadiness, parse_document-some}

fields-Passes :
    (digest b t : String)
    → Passes (
        expected_checks
          (obj (fields (authorization_fields digest (str b) (str t))))
          (authorization_fields digest (str b) (str t)))
unfolding expected_checks authorization_fields get find_field value_eq str_eq
fields-Passes digest b t = (
  refl,
  (
    refl,
    (
      refl,
      (
        ap ok (str_eq_refl digest),
        (
          refl,
          (ap ok (str_eq_refl b), (ap ok (str_eq_refl t), (refl, (refl, (refl, (refl, tt)))))),
        ),
      ),
    ),
  ),
)

is_id-str : (v : Value) → is_id v ≡ true → v ≡ str (text_of v)
unfolding is_id text_of
is_id-str (str s) h = refl
is_id-str null h = cc
is_id-str (bool b) h = cc
is_id-str (int n) h = cc
is_id-str (arr vs) h = cc
is_id-str (obj fs) h = cc

module _ (decode : Bytes → Option Value) (sha256 : Sha256) where
  -- The operator has confirmed what the readiness report names.
  abbrev pub Confirmed : Value → String → String → String → Type 0
  Confirmed readiness batch transaction phrase =
      (get "batch_id" readiness ≡ str batch)
      × (get "transaction_id" readiness ≡ str transaction)
      × (phrase ≡ confirm_phrase)

  authorization_or-some :
      (raw : Bytes) (b t : String) (codes : List String) (a : Value)
      → authorization_or decode sha256 raw b t codes ≡ (some a, [])
      → (codes ≡ []) × (obj (fields (authorization_fields (sha256 raw) (str b) (str t))) ≡ a)
  unfolding authorization_or
  authorization_or-some raw b t [] a h =
      (refl, some-injective _ _ (ap (λ (x : Parsed decode sha256). x.0) h))
  authorization_or-some raw b t (code ∷ codes) a h = cc (ap (λ (x : Parsed decode sha256). x.0) h)

  authorize-some :
      (raw : Bytes) (batch transaction phrase : String) (p : Parsed decode sha256) (a : Value)
      → authorize decode sha256 raw batch transaction phrase p ≡ ok (some a, [])
      → (readiness : Value) × (p ≡ (some readiness, []))
        × Passes (
            confirmations decode sha256
              (text_of (get "batch_id" readiness))
              (text_of (get "transaction_id" readiness))
              batch
              transaction
              phrase)
        × (obj (
              fields (
                authorization_fields
                  (sha256 raw)
                  (str (text_of (get "batch_id" readiness)))
                  (str (text_of (get "transaction_id" readiness)))))
            ≡ a)
  unfolding authorize
  authorize-some raw batch transaction phrase (readiness, code ∷ codes) a h =
      cc (ap (λ (x : Parsed decode sha256). x.0) (ok-injective h))
  authorize-some raw batch transaction phrase (none, []) a h =
      cc (ap (λ (x : Parsed decode sha256). x.0) (ok-injective h))
  authorize-some raw batch transaction phrase (some readiness, []) a h =
      let (codes, checked, is) =
        >>=-ok
          (failures (
            confirmations decode sha256 (text_of (get "batch_id" readiness))
              (text_of (get "transaction_id" readiness)) batch transaction phrase))
          _ h in
      let (clear, same) = authorization_or-some raw _ _ codes a (ok-injective is) in
      (readiness, refl, failures-Passes _ (checked ∙ ap ok clear), same)

  judge-accepts :
      (raw : Bytes) (readiness : Value) (b t : String)
      → get "batch_id" readiness ≡ str b
      → get "transaction_id" readiness ≡ str t
      → judge decode sha256
          (obj (fields (authorization_fields (sha256 raw) (str b) (str t))))
          raw
          (some readiness, [])
        ≡ ok []
  unfolding judge sorted_set
  judge-accepts raw readiness b t eb et =
      rw eb (rw et (rw (Passes-failures _ (fields-Passes (sha256 raw) b t)) refl))

  build_authorization_lem :
      (raw : Bytes) (batch transaction phrase : String)
      → build_authorization decode sha256 raw batch transaction phrase ≡ (
          parse_readiness decode sha256 (some raw)
          >>= authorize decode sha256 raw batch transaction phrase)
  unfolding build_authorization
  build_authorization_lem raw batch transaction phrase = refl

  validate_authorization_lem :
      (payload : Value) (raw : Bytes)
      → validate_authorization decode sha256 payload raw
        ≡ (parse_readiness decode sha256 (some raw) >>= judge decode sha256 payload raw)
  unfolding validate_authorization
  validate_authorization_lem payload raw = refl

  parse_readiness_lem :
      (raw : Bytes)
      → parse_readiness decode sha256 (some raw) ≡ parse_document decode sha256 (decode raw)
  unfolding parse_readiness
  parse_readiness_lem raw = refl

  confirmed_ids :
      (readiness : Value)
      → Passes (readiness_checks readiness)
      → (get "batch_id" readiness ≡ str (text_of (get "batch_id" readiness)))
        × (get "transaction_id" readiness ≡ str (text_of (get "transaction_id" readiness)))
  unfolding readiness_checks
  confirmed_ids readiness passes =
      (is_id-str _ (ok-injective passes.1.1.0), is_id-str _ (ok-injective passes.1.1.1.0))

  Confirmed-of_fields :
      (readiness : Value) (batch transaction phrase : String)
      → get "batch_id" readiness ≡ str (text_of (get "batch_id" readiness))
      → get "transaction_id" readiness ≡ str (text_of (get "transaction_id" readiness))
      → Passes (
          confirmations decode sha256
            (text_of (get "batch_id" readiness))
            (text_of (get "transaction_id" readiness))
            batch
            transaction
            phrase)
      → Confirmed readiness batch transaction phrase
  unfolding confirmations
  Confirmed-of_fields readiness batch transaction phrase b t (p, (q, (r, _))) = (
    b ∙ ap str (sym (str_eq→eq batch _ (ok-injective p))),
    t ∙ ap str (sym (str_eq→eq transaction _ (ok-injective q))),
    str_eq→eq phrase _ (ok-injective r),
  )

  -- An authorization that is built: the bytes are a readiness report that passes every check, the
  -- operator has confirmed its batch, its transaction and the phrase, and the authorization is valid
  -- for these bytes.
  pub build_authorization-valid :
      (raw : Bytes) (batch transaction phrase : String) (a : Value)
      → build_authorization decode sha256 raw batch transaction phrase ≡ ok (some a, [])
      → ((readiness : Value) × IsReadiness decode sha256 raw readiness
          × Confirmed readiness batch transaction phrase)
        × (validate_authorization decode sha256 a raw ≡ ok [])
  build_authorization-valid raw batch transaction phrase a h =
      let (parsed, reads, authorized) =
        >>=-ok (parse_readiness decode sha256 (some raw)) _ (rw build_authorization_lem at h) in
      let (readiness, is, confirmed, same) =
        authorize-some raw batch transaction phrase parsed a authorized in
      let valid =
        parse_document-some decode sha256 (decode raw) readiness
          (sym (parse_readiness_lem raw) ∙ reads ∙ ap ok is) in
      let (b, t) = confirmed_ids readiness valid.2 in
      (
        (readiness, valid, Confirmed-of_fields readiness batch transaction phrase b t confirmed),
        rw validate_authorization_lem (
            rw reads (
              rw is (
                rw (← same) (
                  judge-accepts raw readiness (text_of (get "batch_id" readiness))
                    (text_of (get "transaction_id" readiness)) b t)))),
      )
