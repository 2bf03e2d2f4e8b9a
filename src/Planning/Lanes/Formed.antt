-- ===== src/Planning/Lanes/Formed.antt =====
-- What the items of the two lanes of src/candidate_transaction_plan.py are like.
use mathlib.Core.Option.{some-injective}
use technology_library_inges.Base.{
  ℕ, String, ◌<>◌, ◌≡◌, refl, ap, subst, Bool, true, Option, some, List, [], ◌∷◌, str_eq,
  starts_with, ends_with, starts_with-append, starts_with_trans, ends_with-append, ends_with-whole,
  Passes, failures, failures-Passes, ok, >>=-ok, ok-injective, Bool-cases, inl, inr,
}
use technology_library_inges.Json.{Value, get, is_dict}
use technology_library_inges.Planning.Names.{is_id, is_sha}
use technology_library_inges.Planning.Manifest.{
  ManifestItem, outbox_prefix, text, parse_candidate_manifest, derive_target,
}
use technology_library_inges.Planning.Manifest.Formed.{
  matches-text, and-both, parse_candidate_manifest-Formed,
}
use technology_library_inges.Planning.Items.{
  PlanItem, new_item, update_item, target_of, id_of, content_of,
}
use technology_library_inges.Planning.Lanes.{
  records_prefix, update_checks, update_of, update_result, validate_update_artifact,
  starts_and_ends,
}

abbrev pub sha_of : PlanItem → String
sha_of (new_item create item) = item.content_sha256
sha_of (update_item item) = item.content_sha256

abbrev pub source_prefix : PlanItem → String
source_prefix (new_item create item) = outbox_prefix
source_prefix (update_item item) = records_prefix

-- An update has the digest of the bytes that it replaces.
abbrev pub HasBase : PlanItem → Type 0
HasBase (new_item create item) = Unit
HasBase (update_item item) = is_sha item.base_sha256 ≡ true

-- An item writes a document of the library, under an identifier, from its lane's own outbox.
abbrev pub PlanFormed : PlanItem → Type 0
PlanFormed item =
    (is_id (id_of item) ≡ true)
    × (is_sha (sha_of item) ≡ true)
    × (starts_with (target_of item) "00_LIBRARY/" ≡ true)
    × (ends_with (target_of item) ".md" ≡ true)
    × (starts_with (content_of item) (source_prefix item) ≡ true)
    × HasBase item

sources : starts_with "00_LIBRARY/SOURCES/" "00_LIBRARY/" ≡ true
unfolding starts_with
sources = refl

named : (kind slug : String) → ends_with (kind <> ("-" <> (slug <> ".md"))) ".md" ≡ true
named kind slug =
    ends_with-append kind _ ".md"
      (ends_with-append "-" _ ".md" (ends_with-append slug ".md" ".md" (ends_with-whole ".md")))

abbrev Known : ManifestItem → Type 0
Known = technology_library_inges.Planning.Manifest.Formed.Formed

derived :
    (item : ManifestItem)
    → (starts_with (derive_target item) "00_LIBRARY/" ≡ true)
      × (ends_with (derive_target item) ".md" ≡ true)
unfolding derive_target
derived item = elim (Bool-cases (str_eq item.record_type "SOURCE")) [
  | inl source ↦ rw source (
    starts_with_trans _ "00_LIBRARY/SOURCES/" "00_LIBRARY/"
        (starts_with-append "00_LIBRARY/SOURCES/" _) sources,
    ends_with-append "00_LIBRARY/SOURCES/" _ ".md" (named _ item.slug),
  )
  | inr other ↦ rw other (
    starts_with-append "00_LIBRARY/" _,
    ends_with-append "00_LIBRARY/" _ ".md" (
        ends_with-append item.domain _ ".md" (
          ends_with-append "/" _ ".md" (
            ends_with-append item.category _ ".md"
              (ends_with-append "/" _ ".md" (named _ item.slug))))),
  )
]

pub manifest-PlanFormed :
    (create : Bool) (item : ManifestItem) → Known item → PlanFormed (new_item create item)
manifest-PlanFormed create item (_, id, sha, path, _) =
    let (library, md) = derived item in (id, sha, library, md, path, tt)

update-PlanFormed :
    (i : ℕ) (payload : Value)
    → Passes (update_checks i payload)
    → PlanFormed (update_item (update_of payload))
unfolding update_checks update_of starts_and_ends
update-PlanFormed i payload (_, (_, (_, (_, (_, (_, (r, (target, (base, (sha, (path, _))))))))))) =
    let (library, md) = and-both _ _ (
      matches-text (starts_and_ends "00_LIBRARY/" ".md") (get "target_path" payload)
        (ok-injective target)) in
    (
      matches-text is_id (get "record_id" payload) (ok-injective r),
      matches-text is_sha (get "merged_sha256" payload) (ok-injective sha),
      library,
      md,
      matches-text (λ s. starts_with s records_prefix) (get "content_path" payload)
          (ok-injective path),
      matches-text is_sha (get "base_sha256" payload) (ok-injective base),
    )

result-PlanFormed :
    (i : ℕ) (payload : Value) (codes more : List String) (item : PlanItem)
    → failures (update_checks i payload) ≡ ok codes
    → update_result payload codes ≡ (some item, more)
    → PlanFormed item
unfolding update_result
result-PlanFormed i payload [] more item checked h =
    subst PlanFormed (some-injective _ _ (ap (λ (a : Option PlanItem × List String). a.0) h))
      (update-PlanFormed i payload (failures-Passes _ checked))
result-PlanFormed i payload (code ∷ codes) more item checked h =
    cc (ap (λ (a : Option PlanItem × List String). a.0) h)

pub artifact-PlanFormed :
    (payload : Value) (i : ℕ) (item : PlanItem) (more : List String)
    → validate_update_artifact payload i ≡ ok (some item, more)
    → PlanFormed item
unfolding validate_update_artifact
artifact-PlanFormed payload i item more h = elim (Bool-cases (is_dict payload)) [
  | inl dict ↦
      let (codes, checked, after) =
        >>=-ok (failures (update_checks i payload)) (λ codes. ok (update_result payload codes))
          (rw dict at h) in
      result-PlanFormed i payload codes more item checked (ok-injective after)
  | inr other ↦ cc (ap (λ (a : Option PlanItem × List String). a.0) (ok-injective (rw other at h)))
]
