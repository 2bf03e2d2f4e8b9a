-- ===== src/Transaction/Engine.antt =====
-- src/candidate_canonical_transaction_engine.py: record mutation, index rebuild, and the final check.
pub mod Contract
use technology_library_inges.Base.{
  ℕ, suc, ◌+◌, String, ◌<>◌, ◌≡◌, refl, Bool, true, false, not, ◌&&◌, ◌||◌, Option, none, some,
  List, [], ◌∷◌, ◌++◌, str_eq, if◌then◌else◌, is_empty, sorted_set, length, count, map, Result, ok,
  raised, type_error, ◌>>=◌,
}
use technology_library_inges.Json.{
  Value, null, bool, int, str, arr, obj, Fields, end, field, get, index, items_list, is_dict,
  eq_str,
}
use technology_library_inges.Storage.{Bytes, Storage, Sha256, holds}
use technology_library_inges.Mutation.Validate.{tag}
use technology_library_inges.Mutation.Execute.{
  MutationState, prewrite_abort, recovery_required, Report, execute_record_mutations,
}
use technology_library_inges.Mutation.Execute as Mutations
use technology_library_inges.Transaction.Indexes.{
  IndexBuilder, Indexes, IndexReport, LibraryRecord, build_index_plan, apply_index_plan,
  verify_index_state, sorted_items,
}

-- The `state` of the engine's report: that of the mutation, or the final one.
pub data TransactionState : Type 0 where
  stopped : MutationState → TransactionState
  canonical_state_verified : TransactionState

-- A key that the report does not have reads as `none`.
pub record TransactionReport : Type 0 where
  pub state : TransactionState
  pub record_report : Option Report
  pub index_report : Option IndexReport
  pub records_after : Option ℕ
  pub generated_indexes : Option (List String)
  pub final_verification : Bool

keys_of : Fields → List Value
keys_of end = []
keys_of (field k v fs) = str k ∷ keys_of fs

characters : ℕ → List Value
characters ℕ.zero = []
characters (suc n) = str "" ∷ characters n

-- What a `for` loop takes from a value. Of the characters of a text only the number is kept: the
-- loops test each one for a `dict` and look no further.
iterate : Value → Result (List Value)
iterate (arr vs) = ok (items_list vs)
iterate (obj fs) = ok (keys_of fs)
iterate (str s) = ok (characters (count s))
iterate v = raised type_error

or_no_items : Result Value → Result (List Value)
or_no_items (ok v) = iterate v
or_no_items (raised x) = ok []

-- `for … in d.get(key, [])` for a `dict`.
unfoldable pub items_at : String → Value → Result (List Value)
unfolding or_no_items iterate characters keys_of index
items_at key d = or_no_items (index key d)

-- `for … in plan.get("items", [])`; the plan is a `dict` here.
unfoldable pub plan_items : Value → Result (List Value)
unfolding items_at
plan_items plan = items_at "items" plan

created_target : Value → Value → List String
created_target action (str target) = if eq_str action "CREATE" then target ∷ [] else []
created_target action v = []

created : List Value → List String
created [] = []
created (item ∷ items) =
    let rest = created items in
    if is_dict item
    then created_target (get "action" item) (get "target_path" item) ++ rest
    else rest

unfoldable pub post_transaction_record_paths : Value → List String → Result (List String)
unfolding plan_items created created_target sorted_set
post_transaction_record_paths plan before = do
  items ← plan_items plan
  ok (sorted_set (before ++ created items))

module _ (S : Storage) where
  compare_target : ℕ → Option Bytes → Option Bytes → List String
  compare_target i none actual = tag i "expected_missing" ∷ []
  compare_target i (some expected) actual =
      if holds actual expected then [] else tag i "final_target_mismatch" ∷ []

  target_codes : ℕ → Value → Value → S.State → List String
  target_codes i (str target) (str content) s =
      compare_target i (S.read s content) (S.read s target)
  target_codes i target content s = tag i "path_invalid" ∷ []

  item_codes : ℕ → Value → S.State → List String
  item_codes i item s =
      if is_dict item
      then target_codes i (get "target_path" item) (get "content_path" item) s
      else tag i "invalid" ∷ []

  target_mismatches : ℕ → List Value → S.State → List String
  target_mismatches i [] s = []
  target_mismatches i (item ∷ items) s = item_codes i item s ++ target_mismatches (suc i) items s

  unfoldable pub verify_transaction_targets : Value → S.State → Result (List String)
  unfolding target_mismatches item_codes target_codes compare_target plan_items holds sorted_set
  verify_transaction_targets plan s = do
    items ← plan_items plan
    ok (sorted_set (target_mismatches 0 items s))

module _ (S : Storage) (sha256 : Sha256) (B : IndexBuilder) where
  abbrev pub Outcome : Type 0
  Outcome = Result (TransactionReport × List String)

  state_of : Option Report → MutationState
  state_of none = prewrite_abort
  state_of (some r) = r.state

  stop : Option Report → Option IndexReport → Option ℕ → MutationState → TransactionReport
  stop records indexes count state = record {
    state = stopped state;
    record_report = records;
    index_report = indexes;
    records_after = count;
    generated_indexes = none;
    final_verification = false;
  }

  concluded : Report → IndexReport → ℕ → Indexes → List String → Outcome
  concluded r t n indexes (code ∷ codes) =
      ok (stop (some r) (some t) (some n) recovery_required, sorted_set (code ∷ codes))
  concluded r t n indexes [] = ok (
    record {
      state = canonical_state_verified;
      record_report = some r;
      index_report = some t;
      records_after = some n;
      generated_indexes = some (map (λ (entry : String × Bytes). entry.0) (sorted_items indexes));
      final_verification = true;
    },
    [],
  )

  -- `[*verify_transaction_targets(…), *verify_index_state(…)]`
  conclude : Value → Report → IndexReport → ℕ → Indexes → S.State → Outcome
  conclude plan r t n indexes s = do
    codes ← verify_transaction_targets S plan s
    concluded r t n indexes (codes ++ verify_index_state S indexes s)

  after_indexes :
      Value → Report → ℕ → Indexes → (IndexReport × List String) × S.State → Outcome × S.State
  after_indexes plan r n indexes ((t, code ∷ codes), s) =
      (ok (stop (some r) (some t) (some n) recovery_required, code ∷ codes), s)
  after_indexes plan r n indexes ((t, []), s) = (conclude plan r t n indexes s, s)

  after_plan :
      Value
      → Report
      → S.State
      → Option Indexes × List LibraryRecord × List String
      → Outcome × S.State
  after_plan plan r s (indexes, records, code ∷ codes) =
      (ok (stop (some r) none none recovery_required, code ∷ codes), s)
  after_plan plan r s (none, records, []) =
      (ok (stop (some r) none none recovery_required, "index_plan_failed" ∷ []), s)
  after_plan plan r s (some indexes, records, []) =
      after_indexes plan r (length records) indexes (apply_index_plan S indexes s)

  after_paths : Value → Report → S.State → Result (List String) → Outcome × S.State
  after_paths plan r s (raised x) = (raised x, s)
  after_paths plan r s (ok paths) = after_plan plan r s (build_index_plan B paths (S.read s))

  after_records : Value → List String → Mutations.Answer × S.State → Outcome × S.State
  after_records plan before (raised x, s) = (raised x, s)
  after_records plan before (ok (r, code ∷ codes), s) =
      (ok (stop r none none (state_of r), code ∷ codes), s)
  after_records plan before (ok (none, []), s) =
      (ok (stop none none none prewrite_abort, "record_mutation_failed" ∷ []), s)
  after_records plan before (ok (some r, []), s) =
      after_paths plan r s (post_transaction_record_paths plan before)

  unfoldable pub execute_canonical_transaction : Value → List String → S.State → Outcome × S.State
  unfolding after_records after_paths after_plan after_indexes conclude concluded stop state_of
      post_transaction_record_paths build_index_plan apply_index_plan verify_transaction_targets
      verify_index_state execute_record_mutations
  execute_canonical_transaction plan before s =
      after_records plan before (execute_record_mutations S sha256 plan s)

  execute_canonical_transaction_lem :
      (plan : Value) (before : List String) (s : S.State)
      → execute_canonical_transaction plan before s
        ≡ after_records plan before (execute_record_mutations S sha256 plan s)
  unfolding execute_canonical_transaction
  execute_canonical_transaction_lem plan before s = refl
