-- ===== src/Coordinator/State.antt =====
-- The state document of src/candidate_production_coordinator.py: `_payload`, `validate_state`, and
-- the tests of an owner's identity.
use technology_library_inges.Base.{
  ℕ, suc, String, Bool, true, false, ◌&&◌, List, [], ◌∷◌, ◌++◌, if◌then◌else◌, contains, sorted_set,
  Check, plain, failures, Result, ok, ◌>>=◌,
}
use technology_library_inges.Json.{
  pos, negsuc, Value, null, bool, int, str, obj, Fields, end, field, get, update, fields, is_dict,
  is_bool, is_true, in_set, eq_str, eq_nat, nonempty_str,
}

abbrev pub coordinator_version : String
coordinator_version = "0.1.0"

-- Who holds the lease: the keyword arguments of every transition.
pub record Identity : Type 0 where
  pub transaction_id : String
  pub batch_id : String
  pub owner : String
  pub journal_path : String

abbrev header : List (String × Value)
header =
    ("schema_version", int (pos 1))
    ∷ ("coordinator_version", str coordinator_version)
    ∷ ("production_coordinator", bool true)
    ∷ []

-- `{**header, **state}`
unfoldable pub payload : List (String × Value) → Value
payload state = update (obj (fields header)) state

-- `isinstance(generation, int) and generation >= 0`: `True` and `False` pass.
unfoldable pub is_generation : Value → Bool
is_generation (int (pos n)) = true
is_generation (bool b) = true
is_generation v = false

-- The keys that an active state has to name.
active_checks : Value → List Check
active_checks state =
    plain (nonempty_str (get "transaction_id" state)) "coordinator_active_transaction_id"
    ∷ plain (nonempty_str (get "batch_id" state)) "coordinator_active_batch_id"
    ∷ plain (nonempty_str (get "owner" state)) "coordinator_active_owner"
    ∷ plain (nonempty_str (get "journal_path" state)) "coordinator_active_journal_path"
    ∷ []

pub state_checks : Value → List Check
unfolding is_generation
state_checks state =
    plain (eq_nat (get "schema_version" state) 1) "coordinator_schema"
    ∷ plain (eq_str (get "coordinator_version" state) coordinator_version) "coordinator_version"
    ∷ plain (is_true (get "production_coordinator" state)) "coordinator_production_flag"
    ∷ (in_set (get "state" state) ("FREE" ∷ "ACTIVE" ∷ []), "coordinator_state")
    ∷ plain (is_generation (get "generation" state)) "coordinator_generation"
    ∷ plain (is_bool (get "canonical_write_performed" state)) "coordinator_write_flag"
    ∷ (if eq_str (get "state" state) "ACTIVE" then active_checks state else [])

unfoldable pub validate_state : Value → Result (List String)
unfolding state_checks active_checks failures sorted_set
validate_state state =
    if is_dict state
    then (do codes ← failures (state_checks state); ok (sorted_set codes))
    else ok ("coordinator_state_invalid" ∷ [])

-- The identity tests of the transitions.
unfoldable pub same_identity : Value → Identity → Bool
same_identity state id =
    eq_str (get "transaction_id" state) id.transaction_id
    && (eq_str (get "batch_id" state) id.batch_id
        && (eq_str (get "owner" state) id.owner
            && eq_str (get "journal_path" state) id.journal_path))

unfoldable pub is_active : Value → Bool
is_active state = eq_str (get "state" state) "ACTIVE"

-- `int(current.get("generation") or 0) + 1`
unfoldable pub next_generation : Value → Value
next_generation (int (pos n)) = int (pos (suc n))
next_generation (int (negsuc ℕ.zero)) = int (pos 0)
next_generation (int (negsuc (suc n))) = int (negsuc n)
next_generation (bool true) = int (pos 2)
next_generation v = int (pos 1)

-- The fields of the state that an acquisition writes.
unfoldable pub acquired : Identity → Value → List (String × Value)
unfolding next_generation
acquired id current =
    ("state", str "ACTIVE")
    ∷ ("transaction_id", str id.transaction_id)
    ∷ ("batch_id", str id.batch_id)
    ∷ ("owner", str id.owner)
    ∷ ("journal_path", str id.journal_path)
    ∷ ("generation", next_generation (get "generation" current))
    ∷ ("canonical_write_performed", bool false)
    ∷ ("release_reason", null)
    ∷ []

-- The fields of the state that a release writes.
unfoldable pub released : String → List (String × Value) → Identity → Value → List (String × Value)
unfolding next_generation
released reason proof id current =
    ("state", str "FREE")
    ∷ ("transaction_id", null)
    ∷ ("batch_id", null)
    ∷ ("owner", null)
    ∷ ("journal_path", null)
    ∷ ("generation", next_generation (get "generation" current))
    ∷ ("canonical_write_performed", bool false)
    ∷ ("release_reason", str reason)
    ∷ ("released_by_owner", str id.owner)
    ∷ ("released_transaction_id", str id.transaction_id)
    ∷ ("released_batch_id", str id.batch_id)
    ∷ ("released_journal_path", str id.journal_path)
    ∷ proof

-- The current fields, less those of the header.
kept_fields : Fields → List (String × Value)
kept_fields end = []
kept_fields (field k v fs) =
    let rest = kept_fields fs in
    if contains ("schema_version" ∷ "coordinator_version" ∷ "production_coordinator" ∷ []) k
    then rest
    else (k, v) ∷ rest

unfoldable pub kept_of : Value → List (String × Value)
unfolding kept_fields
kept_of (obj fs) = kept_fields fs
kept_of v = []

-- The keys that the mark of the write boundary sets.
abbrev pub started_keys : Value → List (String × Value)
started_keys current =
    ("state", str "ACTIVE")
    ∷ ("generation", next_generation (get "generation" current))
    ∷ ("canonical_write_performed", bool true)
    ∷ ("release_reason", null)
    ∷ []

-- The fields of the state that marks the write boundary as crossed.
unfoldable pub write_started : Value → List (String × Value)
write_started current = kept_of current ++ started_keys current

-- The state that `ensure_initialized` seeds.
unfoldable pub seed : List (String × Value)
seed =
    ("state", str "FREE")
    ∷ ("transaction_id", null)
    ∷ ("batch_id", null)
    ∷ ("owner", null)
    ∷ ("journal_path", null)
    ∷ ("generation", int (pos 0))
    ∷ ("canonical_write_performed", bool false)
    ∷ ("release_reason", null)
    ∷ []
