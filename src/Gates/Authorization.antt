-- ===== src/Gates/Authorization.antt =====
-- src/candidate_publish_authorization.py: the operator's authorization of one readiness report. The
-- JSON parser (`json.loads` of the decoded bytes, `none` where it raises) and the digest are
-- parameters.
pub mod Bound
pub mod Valid
use technology_library_inges.Base.{
  ℕ, String, ◌<>◌, ◌≡◌, refl, Bool, true, false, not, ◌&&◌, ◌||◌, Option, none, some, List, [], ◌∷◌,
  ◌++◌, if◌then◌else◌, is_empty, contains, sorted_set, Check, plain, failures, Result, ok, raised,
  ◌>>=◌, map, str_eq, all_hex, count, ◌==◌,
}
use technology_library_inges.Json.{
  pos, Value, null, bool, int, str, arr, obj, Fields, field, end, fields, get, is_dict, is_true,
  is_false, eq_str, eq_nat, value_eq, text_of,
}
use technology_library_inges.Storage.{Bytes, Sha256}
use technology_library_inges.Gates.Readiness.{implementation_state, check_names}

abbrev pub confirm_phrase : String
confirm_phrase = "AUTHORIZE_CANONICAL_WRITE"

abbrev pub authorization_state : String
authorization_state = "OPERATOR_AUTHORIZED_FOR_CANONICAL_APPLY"

-- `isinstance(v, str) and ID_RE.fullmatch(v)`
unfoldable pub is_id : Value → Bool
unfolding all_hex
is_id (str s) = count s == 20 && all_hex s
is_id v = false

keys : Fields → List String
keys end = []
keys (field k v fs) = k ∷ keys fs

subset : List String → List String → Bool
subset [] ys = true
subset (x ∷ xs) ys = contains ys x && subset xs ys

-- `isinstance(checks, dict) and set(checks) == EXPECTED_CHECKS`
has_expected_keys : Value → Bool
has_expected_keys (obj fs) = subset (keys fs) check_names && subset check_names (keys fs)
has_expected_keys v = false

all_checks_true : List String → Value → Bool
all_checks_true [] checks = true
all_checks_true (name ∷ names) checks = is_true (get name checks) && all_checks_true names checks

checks_check : Value → Check
checks_check checks =
    if has_expected_keys checks
    then plain (all_checks_true check_names checks) "readiness_checks_not_all_true"
    else plain false "readiness_checks"

pub readiness_checks : Value → List Check
unfolding checks_check has_expected_keys all_checks_true subset keys
readiness_checks payload =
    plain (eq_nat (get "schema_version" payload) 1) "readiness_schema"
    ∷ plain (eq_str (get "state" payload) implementation_state) "readiness_state"
    ∷ plain (is_id (get "batch_id" payload)) "readiness_batch_id"
    ∷ plain (is_id (get "transaction_id" payload)) "readiness_transaction_id"
    ∷ checks_check (get "checks" payload)
    ∷ plain (is_false (get "production_publish_authorized" payload)) "readiness_authorization_flag"
    ∷ plain (is_false (get "canonical_write_performed" payload)) "readiness_write_flag"
    ∷ []

-- The keys of an authorization, which `validate_authorization` compares.
pub authorization_fields : String → Value → Value → List (String × Value)
authorization_fields digest batch_id transaction_id =
    ("schema_version", int (pos 1))
    ∷ ("authorization_version", str "0.1.0")
    ∷ ("state", str authorization_state)
    ∷ ("readiness_sha256", str digest)
    ∷ ("readiness_state", str implementation_state)
    ∷ ("batch_id", batch_id)
    ∷ ("transaction_id", transaction_id)
    ∷ ("operator_confirmation_explicit", bool true)
    ∷ ("confirmation_phrase_id", str confirm_phrase)
    ∷ ("production_publish_authorized", bool true)
    ∷ ("canonical_write_performed", bool false)
    ∷ []

pub expected_checks : Value → List (String × Value) → List Check
expected_checks payload [] = []
expected_checks payload ((key, v) ∷ rest) =
    plain (value_eq (get key payload) v) ("authorization_" <> key) ∷ expected_checks payload rest

module _ (decode : Bytes → Option Value) (sha256 : Sha256) where
  abbrev pub Parsed : Type 0
  Parsed = Option Value × List String

  payload_or : Value → List String → Parsed
  payload_or payload [] = (some payload, [])
  payload_or payload (code ∷ codes) = (none, sorted_set (code ∷ codes))

  pub parse_document : Option Value → Result Parsed
  parse_document none = ok (none, "readiness_invalid_json" ∷ [])
  parse_document (some payload) =
      if not (is_dict payload)
      then ok (none, "readiness_invalid" ∷ [])
      else (do codes ← failures (readiness_checks payload); ok (payload_or payload codes))

  -- `parse_readiness`; the file may be missing.
  unfoldable pub parse_readiness : Option Bytes → Result Parsed
  unfolding parse_document payload_or readiness_checks failures sorted_set is_id
  parse_readiness none = ok (none, "readiness_missing" ∷ [])
  parse_readiness (some raw) = parse_document (decode raw)

  confirmations : String → String → String → String → String → List Check
  confirmations batch_id transaction_id confirm_batch confirm_transaction phrase =
      plain (str_eq confirm_batch batch_id) "confirmation_batch_mismatch"
      ∷ plain (str_eq confirm_transaction transaction_id) "confirmation_transaction_mismatch"
      ∷ plain (str_eq phrase confirm_phrase) "confirmation_phrase_mismatch"
      ∷ []

  authorization_or : Bytes → String → String → List String → Parsed
  authorization_or raw batch_id transaction_id [] = (
    some (obj (fields (authorization_fields (sha256 raw) (str batch_id) (str transaction_id)))),
    [],
  )
  authorization_or raw batch_id transaction_id (code ∷ codes) = (none, sorted_set (code ∷ codes))

  authorize : Bytes → String → String → String → Parsed → Result Parsed
  authorize raw batch transaction phrase (readiness, code ∷ codes) = ok (none, code ∷ codes)
  authorize raw batch transaction phrase (none, []) = ok (none, "readiness_invalid" ∷ [])
  authorize raw batch transaction phrase (some readiness, []) = do
    let batch_id = text_of (get "batch_id" readiness)
    let transaction_id = text_of (get "transaction_id" readiness)
    codes ← failures (confirmations batch_id transaction_id batch transaction phrase)
    ok (authorization_or raw batch_id transaction_id codes)

  unfoldable pub build_authorization : Bytes → String → String → String → Result Parsed
  unfolding authorize authorization_or confirmations authorization_fields parse_readiness failures
      sorted_set text_of
  build_authorization raw confirm_batch confirm_transaction phrase = do
    parsed ← parse_readiness (some raw)
    authorize raw confirm_batch confirm_transaction phrase parsed

  judge : Value → Bytes → Parsed → Result (List String)
  judge payload raw (readiness, code ∷ codes) = ok (map (λ c. "readiness:" <> c) (code ∷ codes))
  judge payload raw (none, []) = ok ("readiness:invalid" ∷ [])
  judge payload raw (some readiness, []) =
      if not (is_dict payload) then ok ("authorization_invalid" ∷ []) else (do
        codes ← failures (
            expected_checks payload (
              authorization_fields (sha256 raw) (get "batch_id" readiness)
                (get "transaction_id" readiness)))
        ok (sorted_set codes))

  unfoldable pub validate_authorization : Value → Bytes → Result (List String)
  unfolding judge expected_checks authorization_fields parse_readiness failures sorted_set value_eq
  validate_authorization payload raw = do
    parsed ← parse_readiness (some raw)
    judge payload raw parsed
