-- ===== src/Samples.antt =====
-- Concrete storages, digests and documents for the tests and the witnesses.
use technology_library_inges.Base.{
  String, true, false, Option, none, some, List, [], ◌∷◌, str_eq, if◌then◌else◌,
}
use technology_library_inges.Json.{pos, Value, null, bool, int, str, arr, obj, fields, list_items}
use technology_library_inges.Storage.{Bytes, Storage, memory, Sha256}

-- Two texts of 64 hexadecimal digits.
abbrev pub ones : String
ones = "1111111111111111111111111111111111111111111111111111111111111111"

abbrev pub twos : String
twos = "2222222222222222222222222222222222222222222222222222222222222222"

-- A digest function that tells the bytes of the samples apart.
abbrev pub sample_sha : Sha256
sample_sha [] = ones
sample_sha (b ∷ []) = ones
sample_sha (b ∷ c ∷ bs) = twos

abbrev pub healthy : Storage
healthy = memory []

-- A storage that fails to write one path.
abbrev pub broken : Storage
broken = memory ("00_LIBRARY/b.md" ∷ [])

abbrev pub no_files : String → Option Bytes
no_files q = none

abbrev pub with_file : String → Bytes → (String → Option Bytes) → String → Option Bytes
with_file p b s q = if str_eq p q then some b else s q

abbrev pub one_byte : Bytes
one_byte = 65 ∷ []

abbrev pub two_bytes : Bytes
two_bytes = 65 ∷ 66 ∷ []

abbrev pub item : String → String → String → String → Value → String → Value
item action target content digest base precondition = obj (
    fields (
      ("action", str action)
      ∷ ("target_path", str target)
      ∷ ("content_path", str content)
      ∷ ("content_sha256", str digest)
      ∷ ("base_sha256", base)
      ∷ ("precondition", str precondition)
      ∷ []))

abbrev pub plan_of : List Value → Value
plan_of items = obj (
    fields (
      ("schema_version", int (pos 1))
      ∷ ("transaction_plan_version", str "0.2.0")
      ∷ ("transaction_id", str "t1")
      ∷ ("canonical_write_performed", bool false)
      ∷ ("requires_live_revalidation", bool true)
      ∷ ("requires_byte_verification_after_write", bool true)
      ∷ ("requires_rollback_on_partial_failure", bool true)
      ∷ ("items", arr (list_items items))
      ∷ []))

-- One record to create and one to update.
abbrev pub plan : Value
plan = plan_of (
    item "CREATE" "00_LIBRARY/a.md" "99_INBOX/CANDIDATES/a.md" twos null "TARGET_ABSENT"
    ∷ item "UPDATE" "00_LIBRARY/b.md" "99_INBOX/CANDIDATES/b.md" twos (str ones) "EXACT_BASE_SHA"
    ∷ [])

abbrev pub files : String → Option Bytes
files =
    with_file "99_INBOX/CANDIDATES/a.md" two_bytes (
      with_file "99_INBOX/CANDIDATES/b.md" two_bytes
        (with_file "00_LIBRARY/b.md" one_byte no_files))

abbrev pub row : String → String → Value → Value → Value → Value
row key path existed before snap = obj (
    fields (
      (key, str path)
      ∷ ("existed_before", existed)
      ∷ ("before_sha256", before)
      ∷ ("after_sha256", str twos)
      ∷ ("snapshot_path", snap)
      ∷ []))

-- One record was created, the master index was rewritten.
abbrev pub journal : Value
journal = obj (
    fields (
      ("state", str "RECOVERY_REQUIRED")
      ∷ ("canonical_write_performed", bool true)
      ∷ ("snapshots_verified", bool true)
      ∷ ("live_preconditions_verified_under_ownership", bool true)
      ∷ ("transaction_id", str "t1")
      ∷ ("batch_id", str "b1")
      ∷ ("owner", str "w1")
      ∷ ("journal_path", str "99_INBOX/j.json")
      ∷ ("master_index_before_sha256", str ones)
      ∷ (
        "items",
        arr (list_items (row "target_path" "00_LIBRARY/a.md" (bool false) null null ∷ [])),
      )
      ∷ (
        "indexes",
        arr (
            list_items (
              row "path" "00_LIBRARY/MASTER_INDEX.md" (bool true) (str ones)
                (str "99_INBOX/CANDIDATES/PRODUCTION_RECOVERY/t1/m")
              ∷ [])),
      )
      ∷ []))
