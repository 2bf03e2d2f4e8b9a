-- ===== src/Prewrite/Capture.antt =====
-- `safe_recovery_path`, `recovery_run_root`, `affected_index_paths`, `snapshot_name` and
-- `capture_canonical_state` of src/candidate_transaction_prewrite_arm.py.
pub mod Complete
use technology_library_inges.Base.{
  ℕ, zero, suc, String, ◌<>◌, ◌≡◌, refl, Bool, true, false, not, ◌&&◌, ◌||◌, Option, none, some,
  List, [], ◌∷◌, ◌++◌, ◌+◌, ◌==◌, str_eq, if◌then◌else◌, contains, starts_with, all_hex,
  first_chars, count, sorted_set, Result, ok, raised, ◌>>=◌,
}
use technology_library_inges.Json.{Value, null, bool, int, str, arr, obj, get, is_dict}
use technology_library_inges.Paths.{posix_path, parts, joined, as_posix}
use technology_library_inges.Storage.{Bytes, Sha256}
use technology_library_inges.Transaction.Engine.{plan_items}

abbrev pub recovery_root : String
recovery_root = "99_INBOX/CANDIDATES/PRODUCTION_RECOVERY"

-- The folder with its separator: `RECOVERY_ROOT + "/"`.
abbrev pub recovery_prefix : String
recovery_prefix = "99_INBOX/CANDIDATES/PRODUCTION_RECOVERY/"

unfoldable pub safe_recovery_path : String → Bool
unfolding starts_with posix_path parts
safe_recovery_path path =
    starts_with path recovery_prefix && not (contains (parts (posix_path path)) "..")

abbrev pub owner_prefix : String
owner_prefix = "candidate-publisher-"

-- What `recovery_run_root` answers: a folder, or the `ValueError` with its message.
pub data RunRoot : Type 0 where
  folder : String → RunRoot
  unsafe : String → RunRoot

unfoldable pub recovery_run_root : String → String → RunRoot
unfolding starts_with all_hex posix_path joined as_posix
recovery_run_root transaction_id owner =
    if not (count transaction_id == 20) || not (all_hex transaction_id)
    then unsafe "unsafe_transaction_id"
    else if not (starts_with owner owner_prefix) || not (count owner == count owner_prefix + 12)
    then unsafe "unsafe_owner"
    else folder (as_posix (joined (joined (posix_path recovery_root) transaction_id) owner))

-- The index file of the folder that the components of a target name.
folder_index : List String → List String
folder_index (root ∷ folder_name ∷ name ∷ []) =
    if str_eq folder_name "SOURCES" then "00_LIBRARY/SOURCES/INDEX.md" ∷ [] else []
folder_index (root ∷ folder_name ∷ name ∷ leaf ∷ more) =
    if str_eq folder_name "SOURCES"
    then "00_LIBRARY/SOURCES/INDEX.md" ∷ []
    else as_posix (joined (joined (posix_path "00_LIBRARY") folder_name) "INDEX.md") ∷ []
folder_index components = []

index_of_target : Value → List String
index_of_target (str target) =
    if starts_with target "00_LIBRARY/" then folder_index (parts (posix_path target)) else []
index_of_target v = []

indexes_of : List Value → List String
indexes_of [] = []
indexes_of (item ∷ items) =
    let rest = indexes_of items in
    if is_dict item then index_of_target (get "target_path" item) ++ rest else rest

-- `sorted(paths)` of the set that the loop over the items fills.
unfoldable pub affected_paths : List Value → List String
unfolding indexes_of index_of_target folder_index starts_with posix_path parts joined as_posix
    sorted_set
affected_paths items = sorted_set ("00_LIBRARY/MASTER_INDEX.md" ∷ indexes_of items)

unfoldable pub affected_index_paths : Value → Result (List String)
unfolding plan_items affected_paths
affected_index_paths transaction = do items ← plan_items transaction; ok (affected_paths items)

text_target : Value → List String
text_target (str target) = target ∷ []
text_target v = []

unfoldable pub targets_of : List Value → List String
unfolding text_target
targets_of [] = []
targets_of (item ∷ items) =
    let rest = targets_of items in
    if is_dict item then text_target (get "target_path" item) ++ rest else rest

-- `dict[str, bytes | None]`: the paths that were read, each with what the read answered.
abbrev pub Captured : Type 0
Captured = List (String × Option Bytes)

read_all : (String → Option Bytes) → List String → Captured
read_all reader [] = []
read_all reader (path ∷ paths) = (path, reader path) ∷ read_all reader paths

pub capture : (String → Option Bytes) → List Value → Captured
capture reader items = read_all reader (sorted_set (affected_paths items ++ targets_of items))

unfoldable pub capture_canonical_state : (String → Option Bytes) → Value → Result Captured
unfolding plan_items capture read_all affected_paths targets_of text_target sorted_set
capture_canonical_state reader transaction = do
  items ← plan_items transaction
  ok (capture reader items)

-- `before_state.get(path)`
unfoldable pub recall : Captured → String → Option Bytes
recall [] path = none
recall ((p, found) ∷ rest) path = if str_eq p path then found else recall rest path

module _ (sha256 : Sha256) (utf8 : String → Bytes) where
  unfoldable pub snapshot_name : String → String
  unfolding first_chars
  snapshot_name path = first_chars 20 (sha256 (utf8 path)) <> ".bin"
