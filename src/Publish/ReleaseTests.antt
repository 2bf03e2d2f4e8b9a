-- ===== src/Publish/ReleaseTests.antt =====
-- Runs of `persist_recovered_and_release`, and its theorems at concrete inputs.
use technology_library_inges.Base.{
  String, ◌≡◌, ◌⊎◌, refl, true, Option, none, some, [], ◌∷◌, ◌==◌, str_eq, if◌then◌else◌, Bool,
  Result, ok, raised, remote_uncertain, starts_with,
}
use technology_library_inges.Json.{
  Value, int, pos, str, get, index, update, value_eq, find_field, set_key, truthy, text_of,
  str_of_length,
}
use technology_library_inges.Storage.{Bytes, bytes_eq}
use technology_library_inges.Samples.{
  ones, sample_sha, healthy, no_files, with_file, one_byte, two_bytes, journal,
}
use technology_library_inges.Coordinator.State.{
  Identity, payload, seed, acquired, released, write_started, kept_of, next_generation,
  validate_state,
}
use technology_library_inges.Coordinator.Drive.{Drive, Codec, Listing, missing, present}
use technology_library_inges.Coordinator.Transitions.{is_digest}
use technology_library_inges.Publish.Restored.{started}
use technology_library_inges.Publish.Release.{persist_journal, persist_recovered_and_release}
use technology_library_inges.Publish.Release.Owned.{
  Owns, Recovers, persist_recovered_and_release-fenced, persist_recovered_and_release-Recovers,
}

abbrev file : String
file = "99_INBOX/CANDIDATES/PRODUCTION_RECOVERY/t1/j.json"

abbrev own_journal : Value
own_journal = set_key "journal_path" (str file) journal

abbrev worker : Identity
worker = record { transaction_id = "t1"; batch_id = "b1"; owner = "w1"; journal_path = file }

abbrev lease : Drive
lease = record { State = Listing; read = λ s. s; write = λ s bytes. (true, present bytes) }

-- The lease past the write boundary, and as the release leaves it.
abbrev started_lease : Value
started_lease = payload (write_started (payload (acquired worker (payload seed))))

abbrev released_lease : Value
released_lease = payload (
    released "VERIFIED_RECOVERED" (("released_recovered_journal_sha256", str ones) ∷ []) worker
      started_lease)

abbrev number_of : Value → Bytes
number_of (int (pos n)) = n ∷ []
number_of v = []

abbrev document_of : Bytes → Option Value
document_of (n ∷ []) = if n == 2 then some started_lease else some released_lease
document_of bytes = none

abbrev lease_codec : Codec
lease_codec = record { encode = λ v. number_of (get "generation" v); decode = document_of }

-- Where the transaction was interrupted.
abbrev interrupted : String → Option Bytes
interrupted = with_file "00_LIBRARY/a.md" two_bytes (
    with_file "00_LIBRARY/MASTER_INDEX.md" two_bytes
      (with_file "99_INBOX/CANDIDATES/PRODUCTION_RECOVERY/t1/m" one_byte no_files))

-- A canonical writer whose writes take effect, and one whose outcome stays unconfirmed.
abbrev writer : String → Bytes → (String → Option Bytes) → Result Bool × (String → Option Bytes)
writer path raw s = (ok true, with_file path raw s)

abbrev lost_writer :
    String → Bytes → (String → Option Bytes) → Result Bool × (String → Option Bytes)
lost_writer path raw s = (raised remote_uncertain, s)

-- The outcome that stays unconfirmed is raised: nothing more is written, and the lease stays held.
stops :
    let stopped =
      persist_recovered_and_release healthy lease_codec sample_sha lease lost_writer own_journal
        interrupted
        (present (2 ∷ [])) in
    (stopped.0 ≡ raised remote_uncertain) × (stopped.2 ≡ present (2 ∷ []))
unfolding persist_recovered_and_release payload seed acquired released write_started kept_of
    next_generation validate_state started get index update set_key find_field truthy text_of
    str_of_length value_eq bytes_eq str_eq starts_with is_digest
stops = (refl, refl)

releases :
    (persist_recovered_and_release healthy lease_codec sample_sha lease writer own_journal
      interrupted
      (present (2 ∷ []))).0
    ≡ ok (true, [])
unfolding persist_recovered_and_release payload seed acquired released write_started kept_of
    next_generation validate_state started get index update set_key find_field truthy text_of
    str_of_length value_eq bytes_eq str_eq starts_with is_digest
releases = refl

persist_recovered_and_release-Recovers_example :
    Owns healthy lease_codec sample_sha lease writer own_journal (present (2 ∷ []))
    × Recovers healthy lease_codec sample_sha lease writer
        (started "RECOVERY_REQUIRED" own_journal)
        (persist_journal healthy lease_codec
          (started "RECOVERY_REQUIRED" own_journal)
          interrupted).1
        (present (2 ∷ []))
        (persist_recovered_and_release healthy lease_codec sample_sha lease writer own_journal
          interrupted
          (present (2 ∷ [])))
persist_recovered_and_release-Recovers_example =
    persist_recovered_and_release-Recovers healthy lease_codec sample_sha lease writer own_journal
      interrupted (present (2 ∷ [])) releases

persist_recovered_and_release-fenced_example :
    Owns healthy lease_codec sample_sha lease writer own_journal missing
    ⊎ (((persist_recovered_and_release healthy lease_codec sample_sha lease writer own_journal
            interrupted missing).1
          ≡ interrupted)
        × ((persist_recovered_and_release healthy lease_codec sample_sha lease writer own_journal
              interrupted missing).2
            ≡ missing))
persist_recovered_and_release-fenced_example =
    persist_recovered_and_release-fenced healthy lease_codec sample_sha lease writer own_journal
      interrupted missing
