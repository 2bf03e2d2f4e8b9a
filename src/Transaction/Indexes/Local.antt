-- ===== src/Transaction/Indexes/Local.antt =====
-- `build_index_plan` of src/candidate_canonical_index_rebuild.py reads the library alone.
use technology_library_inges.Base.{
  String, ◌≡◌, refl, ap, ◌∙◌, true, ◌&&◌, &&-left, Option, List, [], ◌∷◌, starts_with, ends_with,
  sorted_set, Bool-cases, inl, inr, fun_ext,
}
use technology_library_inges.Storage.{Bytes}
use technology_library_inges.Transaction.Indexes.{
  IndexBuilder, Seen, Loaded, load_bytes, load_path, load, settle, plan_from, build_index_plan,
}

module _ (B : IndexBuilder) (f g : String → Option Bytes)
    (same : (p : String) → starts_with p "00_LIBRARY/" ≡ true → f p ≡ g p) where
  load_path-same :
      (path : String) (rest : Seen B → Loaded B) (seen : Seen B)
      → load_path B path f rest seen ≡ load_path B path g rest seen
  unfolding load_path
  load_path-same path rest seen =
      elim (Bool-cases (starts_with path "00_LIBRARY/" && ends_with path ".md")) [
        | inl good ↦ rw good (
            ap (λ o. load_bytes B path o rest seen)
              (same path (&&-left _ (ends_with path ".md") good)))
        | inr bad ↦ rw bad refl
      ]

  load-same : (paths : List String) → load B paths f ≡ load B paths g
  unfolding load
  load-same [] = refl
  load-same (path ∷ paths) = fun_ext (λ seen.
      load_path-same path (load B paths f) seen
      ∙ ap (λ (rest : Seen B → Loaded B). load_path B path g rest seen) (load-same paths))

  -- Readers that agree on the library give the same plan.
  pub build_index_plan-same :
      (paths : List String) → build_index_plan B paths f ≡ build_index_plan B paths g
  unfolding build_index_plan
  build_index_plan-same paths =
      ap (λ (l : Seen B → Loaded B). plan_from B (settle B (l ([], []))))
        (load-same (sorted_set paths))
