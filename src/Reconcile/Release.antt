-- ===== src/Reconcile/Release.antt =====
-- `reconcile_committed_release` of src/candidate_committed_reconciliation.py. The two calls on the
-- coordinator are parameters over a state of the outside world.
pub mod Once
use technology_library_inges.Base.{
  String, ◌<>◌, Bool, true, false, not, ◌&&◌, Option, List, [], ◌∷◌, is_empty, str_eq,
  if◌then◌else◌, Result, ok, ◌>>=◌,
}
use technology_library_inges.Json.{Value, get, is_dict, is_true, eq_str, value_eq}
use technology_library_inges.Storage.{Bytes, Sha256}
use technology_library_inges.Reconcile.Proof.{proof_errors}

-- `read_owner` answers the coordinator's document and its errors, and changes nothing; `release_once`
-- is given the journal's identity and the digest of the receipt.
pub record Coordinator : Type 1 where
  pub World : Type 0
  pub read_owner : World → Value × List String
  pub release_once : List (String × Value) → String → World → World

abbrev pub identity_fields : List String
identity_fields = "transaction_id" ∷ "batch_id" ∷ "owner" ∷ "journal_path" ∷ []

pub identity_in : Value → List String → List (String × Value)
identity_in journal [] = []
identity_in journal (key ∷ keys) = (key, get key journal) ∷ identity_in journal keys

unfoldable pub identity_of : Value → List (String × Value)
unfolding identity_in
identity_of journal = identity_in journal identity_fields

released_key : String → String
released_key key = if str_eq key "owner" then "released_by_owner" else "released_" <> key

agree_released : Value → List (String × Value) → Bool
agree_released owner [] = true
agree_released owner ((key, v) ∷ rest) =
    value_eq (get (released_key key) owner) v && agree_released owner rest

agree_active : Value → List (String × Value) → Bool
agree_active owner [] = true
agree_active owner ((key, v) ∷ rest) = value_eq (get key owner) v && agree_active owner rest

-- The tests of a coordinator that is free.
unfoldable pub is_released_by : Value → List (String × Value) → String → Bool
unfolding agree_released released_key
is_released_by owner identity receipt_sha =
    eq_str (get "release_reason" owner) "VERIFIED_COMMITTED"
    && eq_str (get "released_receipt_sha256" owner) receipt_sha
    && agree_released owner identity

unfoldable pub is_held_by : Value → List (String × Value) → Bool
unfolding agree_active
is_held_by owner identity =
    eq_str (get "state" owner) "ACTIVE"
    && is_true (get "canonical_write_performed" owner)
    && agree_active owner identity

abbrev pub Answer : Type 0
Answer = String × List String

-- `read_errors or not isinstance(owner, dict)`, negated.
abbrev pub is_available : Value × List String → Bool
is_available (owner, errors) = is_empty errors && is_dict owner

module _ (C : Coordinator) (sha256 : Sha256) (parse : Bytes → Option Value)
    (read_canonical read_private : String → Option Bytes) where
  after_release : Value → String → C.World → Answer × C.World
  after_release journal receipt_sha w =
      let final = C.read_owner w in
      if not (is_available final)
      then (("UNCERTAIN", "commit_release_readback_unavailable" ∷ []), w)
      else if eq_str (get "state" final.0) "FREE"
          && is_released_by final.0 (identity_of journal) receipt_sha
      then (("RELEASED", []), w)
      else (("UNCERTAIN", "commit_release_unconfirmed" ∷ []), w)

  with_owner : Value → String → C.World → Value → Answer × C.World
  with_owner journal receipt_sha w owner =
      if eq_str (get "state" owner) "FREE"
      then (if is_released_by owner (identity_of journal) receipt_sha
          then (("ALREADY_RELEASED", []), w)
          else (("BLOCKED", "coordinator_released_foreign_transaction" ∷ []), w))
      else if not (is_held_by owner (identity_of journal))
      then (("BLOCKED", "coordinator_active_identity_mismatch" ∷ []), w)
      else after_release journal receipt_sha (C.release_once (identity_of journal) receipt_sha w)

  after_proof : Value → Bytes → C.World → List String → Answer × C.World
  after_proof journal raw w (code ∷ codes) = (("BLOCKED", code ∷ codes), w)
  after_proof journal raw w [] =
      if not (is_available (C.read_owner w))
      then (("UNCERTAIN", "coordinator_unavailable" ∷ []), w)
      else with_owner journal (sha256 raw) w (C.read_owner w).0

  unfoldable pub reconcile_committed_release : Value → Bytes → C.World → Result (Answer × C.World)
  unfolding after_proof with_owner after_release proof_errors is_released_by is_held_by identity_of
  reconcile_committed_release journal raw w = do
    errors ← proof_errors sha256 parse read_canonical read_private journal raw
    ok (after_proof journal raw w errors)
