-- ===== src/Planning/Plan/Formed.antt =====
-- The form of the items of a plan of `build_transaction_plan` of src/candidate_transaction_plan.py.
use technology_library_inges.Base.{
  ℕ, suc, String, str_eq, ◌≡◌, refl, ap, ◌∙◌, subst, Bool, true, Option, none, some, List, [], ◌∷◌,
  ◌++◌, map, All, All-append, sort_by, sort_by-All, starts_with, starts_with_trans, ends_with, ok,
  >>=-ok, ok-injective,
}
use technology_library_inges.Json.{Value, arr, find_field, get, list_items}
use technology_library_inges.Storage.{Bytes, Sha256}
use technology_library_inges.Planning.Names.{matches, is_id, is_sha}
use technology_library_inges.Planning.Manifest.{outbox_prefix}
use technology_library_inges.Planning.Items.{PlanItem, new_item, update_item, document}
use technology_library_inges.Planning.Lanes.{records_prefix, validate_update_artifact}
use technology_library_inges.Planning.Lanes.Formed.{PlanFormed, artifact-PlanFormed}
use technology_library_inges.Planning.Lanes.NewFormed.{validate_new_lane-PlanFormed}
use technology_library_inges.Planning.Plan.{order, updates, add_update, build_transaction_plan}
use technology_library_inges.Planning.Plan.Ordered.{build-Accepted, plan-items}

-- A row of a plan: an identifier, a digest, a document of the library and a source in the inbox.
abbrev pub RowFormed : Value → Type 0
RowFormed row =
    (matches is_id (get "record_id" row) ≡ true)
    × (matches is_sha (get "content_sha256" row) ≡ true)
    × (matches (λ s. starts_with s "00_LIBRARY/") (get "target_path" row) ≡ true)
    × (matches (λ s. ends_with s ".md") (get "target_path" row) ≡ true)
    × (matches (λ s. starts_with s "99_INBOX/CANDIDATES/") (get "content_path" row) ≡ true)

inboxes :
    (starts_with outbox_prefix "99_INBOX/CANDIDATES/" ≡ true)
    × (starts_with records_prefix "99_INBOX/CANDIDATES/" ≡ true)
unfolding starts_with
inboxes = (refl, refl)

document-RowFormed : (item : PlanItem) → PlanFormed item → RowFormed (document item)
unfolding document get find_field str_eq
document-RowFormed (new_item create item) (id, sha, library, md, source, _) =
    (id, sha, library, md, starts_with_trans _ outbox_prefix _ source inboxes.0)
document-RowFormed (update_item item) (id, sha, library, md, source, _) =
    (id, sha, library, md, starts_with_trans _ records_prefix _ source inboxes.1)

documents-RowFormed :
    (items : List PlanItem) → All PlanFormed items → All RowFormed (map document items)
documents-RowFormed [] all = tt
documents-RowFormed (item ∷ items) (one, all) =
    (document-RowFormed item one, documents-RowFormed items all)

add-PlanFormed :
    (here : Option PlanItem × List String) (later : List PlanItem × List String)
    → ((item : PlanItem) → here.0 ≡ some item → PlanFormed item)
    → All PlanFormed later.0
    → All PlanFormed (add_update here later).0
unfolding add_update
add-PlanFormed (none, codes) later one all = all
add-PlanFormed (some item, codes) later one all = (one item refl, all)

pub updates-PlanFormed :
    (i : ℕ) (payloads : List Value) (result : List PlanItem × List String)
    → updates i payloads ≡ ok result
    → All PlanFormed result.0
unfolding updates
updates-PlanFormed i [] result h =
    subst (λ (r : List PlanItem × List String). All PlanFormed r.0) (ok-injective h) tt
updates-PlanFormed i (payload ∷ payloads) result h =
    let (here, first, after) = >>=-ok (validate_update_artifact payload i) _ h in
    let (later, rest, added) = >>=-ok (updates (suc i) payloads) _ after in
    subst (λ (r : List PlanItem × List String). All PlanFormed r.0) (ok-injective added)
      (add-PlanFormed here later
        (λ item same.
          artifact-PlanFormed payload i item here.1
            (first ∙ ap (λ (o : Option PlanItem). ok (o, here.1)) same))
        (updates-PlanFormed (suc i) payloads later rest))

module _ (sha256 : Sha256) (is_utf8 : Bytes → Bool)
    (canonical_json compact_json : Value → Bytes) where
  -- Whatever JSON values the manifest, the validation and the update artifacts are: every row of a
  -- built plan has a record identifier of 20 and a content digest of 64 hexadecimal digits, a target
  -- that is an `.md` path under 00_LIBRARY/, and a source path under 99_INBOX/CANDIDATES/.
  pub build_transaction_plan-RowFormed :
      (master : Bytes) (manifest validation plan : Value) (artifacts : List Value)
      → build_transaction_plan sha256 is_utf8 canonical_json compact_json master manifest validation
          artifacts
        ≡ ok (some plan, [])
      → (rows : List Value) × (get "items" plan ≡ arr (list_items rows)) × All RowFormed rows
  build_transaction_plan-RowFormed master manifest validation plan artifacts h =
      let (new, ups, accepted) =
        build-Accepted sha256 is_utf8 canonical_json compact_json master manifest validation plan
          artifacts h in
      let items = sort_by order (new ++ ups) in
      (
        map document items,
        ap (get "items") accepted.5
            ∙ plan-items sha256 is_utf8 canonical_json compact_json master items,
        documents-RowFormed items (
            sort_by-All order PlanFormed (new ++ ups) (
              All-append PlanFormed new ups
                (validate_new_lane-PlanFormed manifest validation new [] accepted.0)
                (updates-PlanFormed 0 artifacts (ups, []) accepted.1))),
      )
