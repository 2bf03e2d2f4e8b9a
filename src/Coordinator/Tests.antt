-- ===== src/Coordinator/Tests.antt =====
-- Runs of the coordinator over a sample drive, and its theorems at concrete inputs.
use technology_library_inges.Base.{
  Bool, false, ◌≡◌, refl, true, false, Option, none, some, List, [], ◌∷◌, str_eq, if◌then◌else◌,
  ◌==◌, All, ok,
}
use technology_library_inges.Json.{
  Value, int, pos, get, index, update, value_eq, find_field, set_key,
}
use technology_library_inges.Storage.{Bytes, Sha256}
use technology_library_inges.Samples.{ones}
use technology_library_inges.Coordinator.State.{
  write_started, kept_of, Identity, payload, seed, acquired, released, next_generation,
  validate_state, same_identity, is_active,
}
use technology_library_inges.Coordinator.Drive.{Drive, Codec, Listing, missing, present, read_state}
use technology_library_inges.Coordinator.Transitions.{acquire, mark_canonical_write_started}
use technology_library_inges.Coordinator.Transitions.Guards.{ReadsAs, IsHeld}
use technology_library_inges.Coordinator.Transitions.Outcomes.{
  prewrite_abort, after_commit, run_release, run_release-FreedBy, acquire-IsHeld, FreedBy,
}
use technology_library_inges.Coordinator.Transitions.Boundary.{
  StartedBy, mark_canonical_write_started-StartedBy,
}
use technology_library_inges.Coordinator.Transitions.Exclusion.{
  Operation, acquiring, marking, releasing, schedule, schedule-Refused,
}

abbrev sample_drive : Drive
sample_drive = record { State = Listing; read = λ s. s; write = λ s bytes. (true, present bytes) }

abbrev worker : Identity
worker = record { transaction_id = "t1"; batch_id = "b1"; owner = "w1"; journal_path = "j1" }

abbrev other : Identity
other = record { transaction_id = "t2"; batch_id = "b2"; owner = "w2"; journal_path = "j2" }

-- The documents of one lease: seeded, acquired, released after an abort.
abbrev seeded_document : Value
seeded_document = payload seed

abbrev acquired_document : Value
acquired_document = payload (acquired worker (payload seed))

abbrev released_document : Value
released_document =
    payload
      (released "PREWRITE_ABORT_VERIFIED" [] worker (payload (acquired worker (payload seed))))

-- A codec of these three: a document is written as its generation.
abbrev number_of : Value → Bytes
number_of (int (pos n)) = n ∷ []
number_of v = []

abbrev document_of : Bytes → Option Value
document_of (n ∷ []) =
    if n == 0
    then some seeded_document
    else if n == 1
    then some acquired_document
    else some released_document
document_of bytes = none

abbrev sample_codec : Codec
sample_codec = record { encode = λ v. number_of (get "generation" v); decode = document_of }

abbrev digest : Sha256
digest [] = "empty"
digest (n ∷ bytes) = if n == 0 then "zero" else if n == 1 then "one" else "two"

test_seed :
    read_state sample_drive sample_codec digest (present (0 ∷ []))
    ≡ ok (some "zero", seeded_document, [])
unfolding read_state payload seed update set_key get index find_field str_eq validate_state
test_seed = refl

acquires : (acquire sample_drive sample_codec digest worker missing).0 ≡ ok []
unfolding acquire value_eq payload seed update set_key get index find_field str_eq validate_state
    next_generation acquired released
acquires = refl

acquire-IsHeld_example :
    ReadsAs sample_drive sample_codec digest
      (IsHeld sample_drive sample_codec digest worker)
      (acquire sample_drive sample_codec digest worker missing).1
acquire-IsHeld_example = acquire-IsHeld sample_drive sample_codec digest worker missing acquires

releases :
    (run_release sample_drive sample_codec digest prewrite_abort worker (present (1 ∷ []))).0
    ≡ ok []
unfolding run_release value_eq payload seed update set_key get index find_field str_eq
    validate_state next_generation acquired released
releases = refl

run_release-FreedBy_example :
    FreedBy sample_drive sample_codec digest false worker
      (present (1 ∷ []))
      (run_release sample_drive sample_codec digest prewrite_abort worker (present (1 ∷ []))).1
run_release-FreedBy_example =
    run_release-FreedBy sample_drive sample_codec digest prewrite_abort worker (present (1 ∷ []))
      releases

reads_acquired :
    read_state sample_drive sample_codec digest (present (1 ∷ []))
    ≡ ok (some "one", acquired_document, [])
unfolding read_state payload seed acquired next_generation update set_key get index find_field
    str_eq validate_state
reads_acquired = refl

active : is_active acquired_document ≡ true
unfolding is_active payload seed acquired next_generation update set_key get index find_field str_eq
active = refl

foreign : same_identity acquired_document other ≡ false
unfolding same_identity payload seed acquired next_generation update set_key get index find_field
    str_eq
foreign = refl

not_empty : str_eq "one" "" ≡ false
unfolding str_eq
not_empty = refl

abbrev intruders : List (Operation × Identity)
intruders = (acquiring, other) ∷ (releasing (after_commit ones), other) ∷ (marking, other) ∷ []

schedule-Refused_example :
    All
      (λ r. r ≡ ok [] → ⊥)
      (schedule sample_drive sample_codec digest intruders (present (1 ∷ []))).0
    × ((schedule sample_drive sample_codec digest intruders (present (1 ∷ []))).1
        ≡ present (1 ∷ []))
schedule-Refused_example =
    schedule-Refused sample_drive sample_codec digest "one" acquired_document (present (1 ∷ []))
      (reads_acquired, (not_empty, active)) intruders (foreign, (foreign, (foreign, tt)))

-- A codec whose third document is the marked one.
abbrev started_document : Value
started_document = payload (write_started (payload (acquired worker (payload seed))))

abbrev holds_two : Bytes → Bool
holds_two (n ∷ bytes) = n == 2
holds_two bytes = false

abbrev marking_codec : Codec
marking_codec = record {
  encode = λ v. number_of (get "generation" v);
  decode = λ bytes. elim (document_of bytes) [
    | none ↦ none
    | some v ↦ some (if holds_two bytes then started_document else v)
  ];
}

marks :
    (mark_canonical_write_started sample_drive marking_codec digest worker (present (1 ∷ []))).0
    ≡ ok []
unfolding mark_canonical_write_started value_eq payload seed update set_key get index find_field
    str_eq validate_state next_generation acquired write_started kept_of
marks = refl

mark_canonical_write_started-StartedBy_example :
    StartedBy sample_drive marking_codec digest worker
      (present (1 ∷ []))
      (mark_canonical_write_started sample_drive marking_codec digest worker (present (1 ∷ []))).1
mark_canonical_write_started-StartedBy_example =
    mark_canonical_write_started-StartedBy sample_drive marking_codec digest worker
      (present (1 ∷ [])) marks
