-- ===== src/Coordinator/Transitions/Boundary.antt =====
-- What `mark_canonical_write_started` of src/candidate_production_coordinator.py promises when it
-- reports no error.
use technology_library_inges.Base.{
  String, ◌≡◌, refl, ap, ◌∙◌, true, ◌&&◌, some, List, [], ◌++◌, str_eq, Result, ok, raised,
  ok-injective, Bool-cases, inl, inr, &&-left, &&-right,
}
use technology_library_inges.Json.{
  Value, bool, str, get, index, update, is_dict, is_true, is_true→eq, value_eq, value_eq-get,
  index_after, update-append, update-is_dict, index-update,
}
use technology_library_inges.Storage.{Sha256}
use technology_library_inges.Coordinator.State.{
  Identity, payload, same_identity, is_active, write_started, kept_of, started_keys,
}
use technology_library_inges.Coordinator.Drive.{Drive, Codec, Reading, read_state}
use technology_library_inges.Coordinator.Transitions.{
  Observed, unusable, usable, observe, mark_from, mark_read, mark_canonical_write_started,
}
use technology_library_inges.Coordinator.Transitions.Guards.{
  ReadsAs, IsHeld, transition-Reads, observe-usable, observe-unusable, value_eq-str,
}

-- The state is active, with the write boundary crossed.
abbrev pub IsStarted : Value → Type 0
IsStarted observed =
    (is_active observed ≡ true)
    × (value_eq (bool true) (get "canonical_write_performed" observed) ≡ true)

module _ (D : Drive) (codec : Codec) (sha256 : Sha256) where
  -- The caller held the lease, and the lease file now reads as a started state.
  abbrev pub StartedBy : Identity → D.State → D.State → Type 0
  StartedBy id s s' =
      ReadsAs D codec sha256
        (λ current. IsHeld D codec sha256 id current × ReadsAs D codec sha256 IsStarted s') s

  -- The last keys of an update.
  tail_index :
      (k : String) (d : Value) (kept tail : List (String × Value))
      → is_dict d ≡ true
      → index k (update d (kept ++ tail)) ≡ index_after k (index k (update d kept)) tail
  tail_index k d kept tail h =
      ap (index k) (update-append d kept tail)
      ∙ index-update k (update d kept) tail (update-is_dict d kept h)

  write_started-index :
      (current : Value)
      → (is_dict (payload (write_started current)) ≡ true)
        × (index "state" (payload (write_started current)) ≡ ok (str "ACTIVE"))
        × (index "canonical_write_performed" (payload (write_started current)) ≡ ok (bool true))
  unfolding payload write_started str_eq
  write_started-index current = (
    update-is_dict _ _ refl,
    tail_index "state" _ (kept_of current) (started_keys current) refl,
    tail_index "canonical_write_performed" _ (kept_of current) (started_keys current) refl,
  )

  write_started-IsStarted :
      (current observed : Value)
      → value_eq (payload (write_started current)) observed ≡ true
      → IsStarted observed
  unfolding is_active
  write_started-IsStarted current observed h =
      let (dict, active, flag) = write_started-index current in
      (
        value_eq-str D codec sha256 "ACTIVE" (get "state" observed)
            (value_eq-get "state" _ observed _ dict h active),
        value_eq-get "canonical_write_performed" _ observed _ dict h flag,
      )

  mark_from-StartedBy :
      (id : Identity) (s : D.State) (r : Reading) (o : Observed)
      → read_state D codec sha256 s ≡ ok r
      → observe "coordinator_write_start_read_failed" r ≡ o
      → (mark_from D codec sha256 id s o).0 ≡ ok []
      → StartedBy id s (mark_from D codec sha256 id s o).1
  unfolding mark_from value_eq
  mark_from-StartedBy id s r (unusable codes) e o h =
      absurd (observe-unusable D codec sha256 _ r (o ∙ ap unusable (ok-injective h)))
  mark_from-StartedBy id s r (usable base current) e o h =
      let is = observe-usable D codec sha256 _ r base current o in
      elim (Bool-cases (is_active current && same_identity current id)) [
        | inl held ↦
            let owned : IsHeld D codec sha256 id current =
              (&&-left (is_active current) _ held, &&-right (is_active current) _ held) in
            elim (Bool-cases (is_true (get "canonical_write_performed" current))) [
              | inl started ↦ (
                some base,
                current,
                e ∙ ap ok is,
                (
                  owned,
                  rw held (
                      rw started (
                        some base,
                        current,
                        e ∙ ap ok is,
                        (owned.0, started_flag (get "canonical_write_performed" current) started),
                      )),
                ),
              )
              | inr waiting ↦
                  let (token, observed, reads, equal) =
                    transition-Reads D codec sha256 "coordinator_write_start" base
                      (write_started current) s _ (rw waiting at (rw held at h)) in
                  (
                    some base,
                    current,
                    e ∙ ap ok is,
                    (
                      owned,
                      rw held (
                          rw waiting (
                            token,
                            observed,
                            reads,
                            write_started-IsStarted current observed equal,
                          )),
                    ),
                  )
            ]
        | inr foreign ↦ cc (ok-injective (rw foreign at h))
      ]
    where
      started_flag : (v : Value) → is_true v ≡ true → value_eq (bool true) v ≡ true
      started_flag v t = rw (is_true→eq v t) refl

  mark_read-StartedBy :
      (id : Identity) (s : D.State) (r : Result Reading)
      → read_state D codec sha256 s ≡ r
      → (mark_read D codec sha256 id s r).0 ≡ ok []
      → StartedBy id s (mark_read D codec sha256 id s r).1
  unfolding mark_read
  mark_read-StartedBy id s (raised x) e h = cc
  mark_read-StartedBy id s (ok r) e h = mark_from-StartedBy id s r _ e refl h

  -- A write start that reports no error found its caller's lease; afterwards the lease file reads as
  -- a valid active state with the write boundary crossed.
  pub mark_canonical_write_started-StartedBy :
      (id : Identity) (s : D.State)
      → (mark_canonical_write_started D codec sha256 id s).0 ≡ ok []
      → StartedBy id s (mark_canonical_write_started D codec sha256 id s).1
  unfolding mark_canonical_write_started
  mark_canonical_write_started-StartedBy id s h = mark_read-StartedBy id s _ refl h
