-- ===== src/Coordinator/Drive.antt =====
-- The drive lease backend of src/candidate_production_coordinator.py: `_drive_ls`,
-- `_drive_read_state`, `_drive_bytes`, `_drive_ensure_initialized`, `_drive_prepare`, `_drive_push`.
-- The rclone calls (`_RcloneOps`), the digest and the JSON codec are parameters.
pub mod Leased
use technology_library_inges.Base.{
  ℕ, String, ◌≡◌, refl, Bool, true, false, not, ◌&&◌, ◌||◌, Option, none, some, List, [], ◌∷◌,
  str_eq, if◌then◌else◌, is_empty, Result, ok, raised, ◌>>=◌,
}
use technology_library_inges.Json.{Value, null, is_dict}
use technology_library_inges.Storage.{Bytes, Sha256}
use technology_library_inges.Coordinator.State.{payload, validate_state, seed}

-- What `_drive_ops.read` answers: `None`, `False`, or the bytes.
pub data Listing : Type 0 where
  unreachable missing : Listing
  present : Bytes → Listing

-- The state file of the lease. A write answers whether rclone succeeded; a failed write may or may
-- not have taken effect.
pub record Drive : Type 1 where
  pub State : Type 0
  pub read : State → Listing
  pub write : State → Bytes → Bool × State

-- `json.dumps(…).encode()` and `json.loads(….decode())`, which answers `none` where it raises.
pub record Codec : Type 0 where
  pub encode : Value → Bytes
  pub decode : Bytes → Option Value

-- The token, the state (`null` for `None`), and the errors.
abbrev pub Reading : Type 0
Reading = Option String × Value × List String

module _ (D : Drive) (codec : Codec) (sha256 : Sha256) where
  token_of : Listing → Option String
  token_of unreachable = none
  token_of missing = some ""
  token_of (present raw) = some (sha256 raw)

  -- `_drive_ls`
  unfoldable pub ls : D.State → Option String
  unfolding token_of
  ls s = token_of (D.read s)

  read_document : Bytes → Option Value → Result Reading
  read_document raw none = ok (none, null, "coordinator_read_invalid_json" ∷ [])
  read_document raw (some v) = do
    let document = if is_dict v then v else null
    errors ← validate_state document
    ok (some (sha256 raw), document, errors)

  read_listing : Listing → Result Reading
  read_listing unreachable = ok (none, null, "coordinator_remote_unreachable" ∷ [])
  read_listing missing = ok (some "", null, "coordinator_ref_missing" ∷ [])
  read_listing (present raw) = read_document raw (codec.decode raw)

  -- `_drive_read_state`
  unfoldable pub read_state : D.State → Result Reading
  unfolding read_listing read_document validate_state
  read_state s = read_listing (D.read s)

  -- `_drive_bytes`
  unfoldable pub state_bytes : List (String × Value) → Bytes
  unfolding payload
  state_bytes state = codec.encode (payload state)

  seeded : Option String → D.State → Result Reading × D.State
  seeded none s = (ok (none, null, "coordinator_remote_unreachable" ∷ []), s)
  seeded (some token) s =
      let s' = (D.write s (state_bytes seed)).1 in
      if str_eq token "" then (read_state s', s') else (read_state s, s)

  -- `_drive_ensure_initialized`: the write of the seed may be uncertain, so only the readback counts.
  unfoldable pub ensure_initialized : D.State → Result Reading × D.State
  unfolding seeded
  ensure_initialized s = seeded (ls s) s

  prepared : Option String → String → List (String × Value) → Option String × List String
  prepared none base state = (none, "coordinator_state_fetch_failed" ∷ [])
  prepared (some observed) base state =
      if str_eq observed base
      then (some (sha256 (state_bytes state)), [])
      else (none, "coordinator_state_base_changed" ∷ [])

  -- `_drive_prepare`: the token of the new state, or the errors.
  unfoldable pub prepare : String → List (String × Value) → D.State → Option String × List String
  unfolding prepared
  prepare base state s = prepared (ls s) base state

  is_token : Option String → String → Bool
  is_token none expected = false
  is_token (some token) expected = str_eq token expected

  -- `_drive_push`: compare, then write once.
  unfoldable pub push : String → List (String × Value) → D.State → Bool × D.State
  unfolding is_token
  push expected state s =
      if is_token (ls s) expected then D.write s (state_bytes state) else (false, s)
