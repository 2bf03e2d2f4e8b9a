-- ===== src/Mutation/Execute.antt =====
-- `preflight_record_mutations` and `execute_record_mutations` of
-- src/candidate_canonical_record_mutation.py, over any storage and any digest function.
pub mod Frame
pub mod Preflight
pub mod Verified
pub mod Abort
pub mod Contract
pub mod Completion
use technology_library_inges.Base.{
  ℕ, zero, suc, ◌+◌, String, ◌<>◌, ◌≡◌, refl, Bool, true, false, not, ◌&&◌, Option, none, some,
  List, [], ◌∷◌, ◌++◌, str_eq, if◌then◌else◌, is_empty, sorted_set, Result, ok, raised, key_error,
  ◌>>=◌,
}
use technology_library_inges.Json.{Value, get, is_dict, eq_str}
use technology_library_inges.Storage.{Bytes, Storage, Sha256, holds, bytes_eq}
use technology_library_inges.Mutation.Validate.{
  Action, create, update, unchanged, Item, Scan, tag, validate_transaction_for_mutation,
}

-- `expected`: the planned bytes of each target path.
abbrev pub Expected : Type 0
Expected = String → Option Bytes

abbrev pub expect : String → Option Bytes → Expected → Expected
expect p none e = e
expect p (some b) e = λ q. if str_eq p q then some b else e q

pub data MutationState : Type 0 where
  prewrite_abort recovery_required records_verified : MutationState

pub record Report : Type 0 where
  pub transaction_id : Value
  pub state : MutationState
  pub writes_completed : ℕ
  pub verified_items : ℕ
  pub canonical_mutation_started : Bool

pub record Progress : Type 0 where
  pub writes : ℕ
  pub verified : ℕ
  pub started : Bool

abbrev pub idle : Progress
idle = record { writes = 0; verified = 0; started = false }

abbrev pub Answer : Type 0
Answer = Result (Option Report × List String)

pub report : Value → MutationState → Progress → Report
report id state p = record {
  transaction_id = id;
  state = state;
  writes_completed = p.writes;
  verified_items = p.verified;
  canonical_mutation_started = p.started;
}

-- A failed write has set `mutation_started`, so its report says `RECOVERY_REQUIRED` too.
abbrev pub stopped_state : Progress → MutationState
stopped_state p = if p.started then recovery_required else prewrite_abort

module _ (S : Storage) (sha256 : Sha256) where
  abbrev pub matches_base : Option Bytes → Value → Bool
  matches_base none base = false
  matches_base (some b) base = eq_str base (sha256 b)

  -- The three tests of the target that the preflight makes once the content is right.
  unfoldable pub target_errors : ℕ → Action → Value → Bytes → Option Bytes → List String
  target_errors i create base content none = []
  target_errors i create base content (some b) = tag i "create_target_exists" ∷ []
  target_errors i update base content none = tag i "update_target_missing" ∷ []
  target_errors i update base content (some b) =
      if eq_str base (sha256 b) then [] else tag i "update_base_sha_changed" ∷ []
  target_errors i unchanged base content current =
      if holds current content then [] else tag i "unchanged_bytes_changed" ∷ []

  unfoldable pub check_content : ℕ → Item → S.State → Option Bytes → Option Bytes × List String
  check_content i item s none = (none, tag i "content_missing" ∷ [])
  check_content i item s (some content) =
      if eq_str item.content_sha256 (sha256 content)
      then (
        some content,
        target_errors i item.action item.base_sha256 content (S.read s item.target_path),
      )
      else (none, tag i "content_sha_changed" ∷ [])

  unfoldable pub preflight_items : ℕ → Expected → List Item → S.State → Expected × List String
  preflight_items i e [] s = (e, [])
  preflight_items i e (item ∷ items) s =
      let (content, codes) = check_content i item s (S.read s item.content_path) in
      let (e', more) = preflight_items (suc i) (expect item.target_path content e) items s in
      (e', codes ++ more)

  abbrev pub Preflight : Type 0
  Preflight = List Item × Expected × List String

  -- A transaction that fails its validation is not looked at any further.
  unfoldable pub preflight_scan : Scan → S.State → Preflight
  preflight_scan (items, []) s =
      let (e, codes) = preflight_items 0 (λ q. none) items s in (items, e, sorted_set codes)
  preflight_scan (items, code ∷ codes) s = ([], λ q. none, code ∷ codes)

  unfoldable pub preflight_record_mutations : Value → S.State → Result Preflight
  preflight_record_mutations plan s = do
    found ← validate_transaction_for_mutation plan
    ok (preflight_scan found s)

  -- The write of one target, with the readback; the failure's code, if it failed.
  abbrev pub Step : Type 0
  Step = Option String × Progress × S.State

  pub put_item : ℕ → Item → Bytes → Progress → S.State → Step
  put_item i item content p s =
      let (written, s') = S.write s item.target_path content in
      if not written
      then (some (tag i "write_failed"), record p { started = true }, s')
      else if holds (S.read s' item.target_path) content
      then (none, record { writes = suc p.writes; verified = suc p.verified; started = true }, s')
      else (
        some (tag i "write_verify_failed"),
        record p { writes = suc p.writes; started = true },
        s',
      )

  -- The recheck of the live target, then the write.
  pub mutate_create : ℕ → Item → Bytes → Progress → S.State → Option Bytes → Step
  mutate_create i item content p s none = put_item i item content p s
  mutate_create i item content p s (some b) = (some (tag i "create_recheck_failed"), p, s)

  pub mutate_item : Action → ℕ → Item → Bytes → Progress → S.State → Step
  mutate_item unchanged i item content p s =
      if holds (S.read s item.target_path) content
      then (none, record p { verified = suc p.verified }, s)
      else (some (tag i "unchanged_recheck_failed"), p, s)
  mutate_item create i item content p s =
      mutate_create i item content p s (S.read s item.target_path)
  mutate_item update i item content p s =
      if matches_base (S.read s item.target_path) item.base_sha256
      then put_item i item content p s
      else (some (tag i "update_recheck_failed"), p, s)

  -- The loop goes on, or returns the report of a failure.
  pub after_item : Value → (Progress → S.State → Answer × S.State) → Step → Answer × S.State
  after_item id rest (none, p, s) = rest p s
  after_item id rest (some code, p, s) = (ok (some (report id (stopped_state p) p), code ∷ []), s)

  -- One turn of the loop, given `expected[target]`.
  pub mutate_one :
      Value
      → (Progress → S.State → Answer × S.State)
      → ℕ
      → Item
      → Progress
      → S.State
      → Option Bytes
      → Answer × S.State
  mutate_one id rest i item p s none = (raised key_error, s)
  mutate_one id rest i item p s (some content) =
      after_item id rest (mutate_item item.action i item content p s)

  pub mutate : Value → Expected → ℕ → List Item → Progress → S.State → Answer × S.State
  mutate id e i [] p s = (ok (some (report id records_verified p), []), s)
  mutate id e i (item ∷ items) p s =
      mutate_one id (mutate id e (suc i) items) i item p s (e item.target_path)

  pub begin : Value → Result Preflight → S.State → Answer × S.State
  begin plan (raised x) s = (raised x, s)
  begin plan (ok (items, e, code ∷ codes)) s = (ok (none, code ∷ codes), s)
  begin plan (ok (items, e, [])) s =
      if is_dict plan
      then mutate (get "transaction_id" plan) e 0 items idle s
      else (ok (none, "preflight_failed" ∷ []), s)

  unfoldable pub execute_record_mutations : Value → S.State → Answer × S.State
  unfolding begin mutate mutate_one after_item mutate_item mutate_create put_item report
      preflight_record_mutations preflight_scan preflight_items check_content target_errors
      validate_transaction_for_mutation holds bytes_eq
  execute_record_mutations plan s = begin plan (preflight_record_mutations plan s) s

  pub execute_record_mutations_lem :
      (plan : Value) (s : S.State)
      → execute_record_mutations plan s ≡ begin plan (preflight_record_mutations plan s) s
  unfolding execute_record_mutations
  execute_record_mutations_lem plan s = refl
