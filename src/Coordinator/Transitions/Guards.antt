-- ===== src/Coordinator/Transitions/Guards.antt =====
-- What a transition that reports no error has found and has left.
use technology_library_inges.Base.{
  String, ◌<>◌, ◌≡◌, refl, ap, sym, ◌∙◌, Bool, true, false, Option, none, some, List, [], ◌∷◌,
  str_eq, Result, ok, raised, ok-injective, str_eq→eq, eq→str_eq, Bool-cases, inl, inr, arith,
  &&-right, &&-intro,
}
use technology_library_inges.Json.{
  Value, str, get, index, is_dict, eq_str, value_eq, value_eq-get, update,
}
use technology_library_inges.Storage.{Sha256}
use technology_library_inges.Coordinator.State.{
  Identity, payload, same_identity, is_active, acquired, next_generation,
}
use technology_library_inges.Coordinator.Drive.{Drive, Codec, Reading, read_state, push}
use technology_library_inges.Coordinator.Transitions.{
  Observed, unusable, usable, observe, shows, verified, pushed, transition, holds, release_from,
  release_read,
}

module _ (D : Drive) (codec : Codec) (sha256 : Sha256) where
  -- The lease file reads as a valid state that is equal to the one that was written.
  abbrev pub Reads : List (String × Value) → D.State → Type 0
  Reads state s =
      (token : Option String) × (observed : Value) × (read_state D codec sha256 s
        ≡ ok (token, observed, []))
      × (value_eq (payload state) observed ≡ true)

  shows-equal :
      (head : String) (state : List (String × Value)) (token : Option String) (observed : Value)
      (errors : List String)
      → shows head state (token, observed, errors) ≡ true
      → value_eq (payload state) observed ≡ true
  unfolding shows
  shows-equal head state none observed errors h = cc
  shows-equal head state (some token) observed errors h = &&-right (str_eq token head) _ h

  verified-Reads :
      (name head : String) (state : List (String × Value)) (s : D.State) (r : Result Reading)
      → read_state D codec sha256 s ≡ r
      → verified D codec sha256 name head state r ≡ ok []
      → Reads state s
  unfolding verified
  verified-Reads name head state s (raised x) e h = cc
  verified-Reads name head state s (ok (token, observed, code ∷ codes)) e h = cc (ok-injective h)
  verified-Reads name head state s (ok (token, observed, [])) e h =
      (token, observed, e, shows-equal head state token observed [] (ground arith))

  pushed-Reads :
      (name head : String) (state : List (String × Value)) (r : Bool × D.State)
      → (pushed D codec sha256 name head state r).0 ≡ ok []
      → Reads state (pushed D codec sha256 name head state r).1
  unfolding pushed
  pushed-Reads name head state (false, s) h = cc (ok-injective h)
  pushed-Reads name head state (true, s) h = verified-Reads name head state s _ refl h

  pub transition-Reads :
      (name base : String) (state : List (String × Value)) (s : D.State)
      (p : Option String × List String)
      → (transition D codec sha256 name base state s p).0 ≡ ok []
      → Reads state (transition D codec sha256 name base state s p).1
  unfolding transition
  transition-Reads name base state s (head, code ∷ codes) h = cc (ok-injective h)
  transition-Reads name base state s (none, []) h = cc (ok-injective h)
  transition-Reads name base state s (some head, []) h =
      pushed-Reads name head state (push D codec sha256 base state s) h

  pub value_eq-str : (t : String) (w : Value) → value_eq (str t) w ≡ true → eq_str w t ≡ true
  unfolding value_eq
  value_eq-str t (str u) h = eq→str_eq u t (sym (str_eq→eq t u h))
  value_eq-str t w h = cc

  -- The lease file reads as a valid state with this property.
  abbrev pub ReadsAs : (Value → Type 0) → D.State → Type 0
  ReadsAs P s =
      (token : Option String) × (current : Value) × (read_state D codec sha256 s
        ≡ ok (token, current, []))
      × P current

  abbrev pub IsHeld : Identity → Value → Type 0
  IsHeld id current = (is_active current ≡ true) × (same_identity current id ≡ true)

  -- The lease is free, one generation after `current`.
  abbrev pub IsFreeAfter : Value → Value → Type 0
  IsFreeAfter current observed =
      (eq_str (get "state" observed) "FREE" ≡ true)
      × (value_eq (next_generation (get "generation" current)) (get "generation" observed) ≡ true)

  pub acquired-IsHeld :
      (id : Identity) (current observed : Value)
      → value_eq (payload (acquired id current)) observed ≡ true
      → IsHeld id observed
  unfolding payload acquired update index str_eq is_active same_identity
  acquired-IsHeld id current observed h =
      let at = λ (k t : String) (i : index k (payload (acquired id current)) ≡ ok (str t)).
        value_eq-str t (get k observed)
          (value_eq-get k (payload (acquired id current)) observed (str t) refl h i) in
      (
        at "state" "ACTIVE" refl,
        &&-intro (at "transaction_id" id.transaction_id refl) (
            &&-intro (at "batch_id" id.batch_id refl)
              (&&-intro (at "owner" id.owner refl) (at "journal_path" id.journal_path refl))),
      )

  pub IsFreeAfter-of_fields :
      (state : List (String × Value)) (current observed : Value)
      → is_dict (payload state) ≡ true
      → index "state" (payload state) ≡ ok (str "FREE")
      → index "generation" (payload state) ≡ ok (next_generation (get "generation" current))
      → value_eq (payload state) observed ≡ true
      → IsFreeAfter current observed
  IsFreeAfter-of_fields state current observed d free generation h = (
    value_eq-str "FREE" (get "state" observed)
        (value_eq-get "state" (payload state) observed _ d h free),
    value_eq-get "generation" (payload state) observed _ d h generation,
  )

  pub observe-usable :
      (default : String) (r : Reading) (base : String) (current : Value)
      → observe default r ≡ usable base current
      → r ≡ (some base, current, [])
  unfolding observe
  observe-usable default (token, state, code ∷ codes) base current h = cc
  observe-usable default (none, state, []) base current h = cc
  observe-usable default (some token, state, []) base current h = ground arith

  pub observe-unusable : (default : String) (r : Reading) → observe default r ≡ unusable [] → ⊥
  unfolding observe
  observe-unusable default (token, state, code ∷ codes) h = cc
  observe-unusable default (none, state, []) h = cc
  observe-unusable default (some token, state, []) h = ground arith

  -- What a release that reports no error has found and left.
  abbrev pub Released :
      Bool → (Value → List (String × Value)) → Identity → D.State → D.State → Type 0
  Released started next id s s' =
      ReadsAs
        (λ current. (holds D codec sha256 started current id ≡ true) × Reads (next current) s') s

  module _ (name : String) (started : Bool) (next : Value → List (String × Value)) (id : Identity)
      (s : D.State) where
    release_from-Released :
        (r : Reading) (o : Observed)
        → read_state D codec sha256 s ≡ ok r
        → observe (name <> "_read_failed") r ≡ o
        → (release_from D codec sha256 name started next id s o).0 ≡ ok []
        → Released started next id s (release_from D codec sha256 name started next id s o).1
    unfolding release_from
    release_from-Released r (unusable codes) e o h =
        absurd (observe-unusable _ r (o ∙ ap unusable (ok-injective h)))
    release_from-Released r (usable base current) e o h =
        elim (Bool-cases (holds D codec sha256 started current id)) [
          | inl held ↦ (
            some base,
            current,
            e ∙ ap ok (observe-usable _ r base current o),
            (held, rw held (transition-Reads name base (next current) s _ (rw held at h))),
          )
          | inr foreign ↦ cc (ok-injective (rw foreign at h))
        ]

    pub release_read-Released :
        (r : Result Reading)
        → read_state D codec sha256 s ≡ r
        → (release_read D codec sha256 name started next id s r).0 ≡ ok []
        → Released started next id s (release_read D codec sha256 name started next id s r).1
    unfolding release_read
    release_read-Released (raised x) e h = cc
    release_read-Released (ok r) e h = release_from-Released r _ e refl h
