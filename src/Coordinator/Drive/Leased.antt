-- ===== src/Coordinator/Drive/Leased.antt =====
-- What the drive backend of src/candidate_production_coordinator.py answers while the state file reads
-- as a valid state.
use technology_library_inges.Base.{
  String, ◌≡◌, refl, ap, sym, false, Option, none, some, [], str_eq, if◌then◌else◌, ok,
  ok-injective, >>=-ok, Bool-cases, inl, inr,
}
use technology_library_inges.Json.{Value, null, is_dict}
use technology_library_inges.Storage.{Bytes, Sha256}
use technology_library_inges.Coordinator.State.{validate_state}
use technology_library_inges.Coordinator.Drive.{
  Drive, Codec, Reading, Listing, unreachable, missing, present, read_state, read_listing,
  read_document, ensure_initialized, seeded, token_of, ls,
}

module _ (D : Drive) (codec : Codec) (sha256 : Sha256) where
  read_document-token :
      (raw : Bytes) (document : Option Value) (r : Reading)
      → read_document D codec sha256 raw document ≡ ok r
      → r.2 ≡ []
      → r.0 ≡ some (sha256 raw)
  unfolding read_document
  read_document-token raw none r h e = cc (ok-injective h)
  read_document-token raw (some v) r h e =
      let (errors, checked, result) = >>=-ok (validate_state (if is_dict v then v else null)) _ h in
      ap (λ (x : Reading). x.0) (ok-injective (sym result))

  token_of-reads :
      (l : Listing) (token : String) (current : Value)
      → read_listing D codec sha256 l ≡ ok (some token, current, [])
      → token_of D codec sha256 l ≡ some token
  unfolding read_listing token_of
  token_of-reads unreachable token current h = cc (ap (λ (x : Reading). x.0) (ok-injective h))
  token_of-reads missing token current h = cc (ap (λ (x : Reading). x.2) (ok-injective h))
  token_of-reads (present raw) token current h =
      sym (read_document-token raw (codec.decode raw) _ h refl)

  -- The seed is not written over a state file that reads.
  pub ensure_initialized-reads :
      (s : D.State) (token : String) (current : Value)
      → read_state D codec sha256 s ≡ ok (some token, current, [])
      → str_eq token "" ≡ false
      → ensure_initialized D codec sha256 s ≡ (ok (some token, current, []), s)
  unfolding ensure_initialized seeded ls read_state
  ensure_initialized-reads s token current h t =
      rw (token_of-reads (D.read s) token current h) (rw t (rw h refl))

  seeded-reads_back :
      (token : Option String) (s : D.State) (r : Reading)
      → (seeded D codec sha256 token s).0 ≡ ok r
      → r.2 ≡ []
      → read_state D codec sha256 (seeded D codec sha256 token s).1 ≡ ok r
  unfolding seeded
  seeded-reads_back none s r h e = cc (ap (λ (x : Reading). x.2) (ok-injective h))
  seeded-reads_back (some token) s r h e = elim (Bool-cases (str_eq token "")) [
    | inl empty ↦ rw empty (rw empty at h)
    | inr held ↦ rw held (rw held at h)
  ]

  -- What the initialization answers without errors is what the state file reads as.
  pub ensure_initialized-reads_back :
      (s : D.State) (r : Reading)
      → (ensure_initialized D codec sha256 s).0 ≡ ok r
      → r.2 ≡ []
      → read_state D codec sha256 (ensure_initialized D codec sha256 s).1 ≡ ok r
  unfolding ensure_initialized ls
  ensure_initialized-reads_back s r h e = seeded-reads_back (ls D codec sha256 s) s r h e
