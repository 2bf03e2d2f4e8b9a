-- ===== src/Planning/Manifest/Formed.antt =====
-- What an item of a manifest that `parse_candidate_manifest` of src/candidate_publish_index.py accepts
-- is like.
use technology_library_inges.Base.{
  String, ◌≡◌, refl, sym, ap, subst, ◌∙◌, Bool, true, false, ◌&&◌, Option, none, some, List, [],
  ◌∷◌, All, starts_with, ends_with, ltb, length, Passes, first_failure, first_failure-Passes, ok,
  >>=-ok, ok-injective, Bool-cases, inl, inr,
}
use technology_library_inges.Json.{Value, null, bool, int, str, arr, obj, get, items_list}
use technology_library_inges.Planning.Names.{
  Parsed, parsed, invalid, matches, is_id, is_sha, normalize_rel,
}
use technology_library_inges.Planning.Manifest.{
  ManifestItem, Items, outbox_prefix, max_items, text, manifest_item, item_checks,
  content_path_check, path_check, or_empty, add_item, after_checks, parse_items, parse_list,
  after_header, parse_candidate_manifest, manifest_checks, target_key,
}

-- The tested form of an item: identifiers, a digest, and a path in the outbox.
abbrev pub Formed : ManifestItem → Type 0
Formed item =
    (is_id item.package_id ≡ true)
    × (is_id item.record_id ≡ true)
    × (is_sha item.content_sha256 ≡ true)
    × (starts_with item.content_path outbox_prefix ≡ true)
    × (ends_with item.content_path ".md" ≡ true)

pub matches-text : (test : String → Bool) (v : Value) → matches test v ≡ true → test (text v) ≡ true
matches-text test (str s) h = h
matches-text test null h = cc
matches-text test (bool b) h = cc
matches-text test (int i) h = cc
matches-text test (arr vs) h = cc
matches-text test (obj fs) h = cc

pub and-both : (a b : Bool) → (a && b) ≡ true → (a ≡ true) × (b ≡ true)
and-both true b h = (refl, h)
and-both false b h = cc

path-Formed :
    (p : Parsed String)
    → (path_check p).0 ≡ ok true
    → (starts_with (or_empty p) outbox_prefix ≡ true) × (ends_with (or_empty p) ".md" ≡ true)
unfolding path_check or_empty
path-Formed (parsed p) h = and-both _ _ (ok-injective h)
path-Formed (invalid code) h = cc (ok-injective h)

content-Formed :
    (v : Value)
    → (content_path_check v).0 ≡ ok true
    → (starts_with (or_empty (normalize_rel (text v))) outbox_prefix ≡ true)
      × (ends_with (or_empty (normalize_rel (text v))) ".md" ≡ true)
unfolding content_path_check
content-Formed (str s) h = path-Formed (normalize_rel s) h
content-Formed null h = cc (ok-injective h)
content-Formed (bool b) h = cc (ok-injective h)
content-Formed (int i) h = cc (ok-injective h)
content-Formed (arr vs) h = cc (ok-injective h)
content-Formed (obj fs) h = cc (ok-injective h)

item-Formed :
    (ids : List String) (targets : List (List String)) (raw : Value)
    → Passes (item_checks ids targets raw)
    → Formed (manifest_item raw)
unfolding item_checks manifest_item
item-Formed ids targets raw
      (_, (p, (_, (r, (_, (_, (_, (_, (_, (_, (_, (_, (_, (sha, (path, (_, _)))))))))))))))) =
    let (a, b) = content-Formed (get "content_path" raw) path in
    (
      matches-text is_id (get "package_id" raw) (ok-injective p),
      matches-text is_id (get "record_id" raw) (ok-injective r),
      matches-text is_sha (get "content_sha256" raw) (ok-injective sha),
      a,
      b,
    )

items_in : Parsed (List ManifestItem) → List ManifestItem
items_in (parsed xs) = xs
items_in (invalid code) = []

parsed-injective : (xs ys : List ManifestItem) → parsed xs ≡ parsed ys → xs ≡ ys
unfolding items_in
parsed-injective xs ys h = ap items_in h

added-Formed :
    (item : ManifestItem) (answer : Parsed (List ManifestItem)) (items : List ManifestItem)
    → add_item item answer ≡ parsed items
    → (rest : List ManifestItem) × (answer ≡ parsed rest) × (items ≡ item ∷ rest)
unfolding add_item
added-Formed item (parsed rest) items h = (rest, refl, sym (parsed-injective (item ∷ rest) items h))
added-Formed item (invalid code) items h = cc h

after-Formed :
    (item : ManifestItem) (later : Items) (failure : Option String) (items : List ManifestItem)
    → after_checks item later failure ≡ ok (parsed items)
    → (failure ≡ none)
      × (rest : List ManifestItem) × (later ≡ ok (parsed rest))
      × (items ≡ item ∷ rest)
unfolding after_checks
after-Formed item later (some code) items h = cc (ok-injective h)
after-Formed item later none items h =
    let (answer, known, added) = >>=-ok later _ h in
    let (rest, same, more) = added-Formed item answer items (ok-injective added) in
    (refl, rest, known ∙ ap ok same, more)

parse_items-Formed :
    (ids : List String) (targets : List (List String)) (raws : List Value)
    (items : List ManifestItem)
    → parse_items ids targets raws ≡ ok (parsed items)
    → All Formed items
unfolding parse_items
parse_items-Formed ids targets [] items h =
    subst (All Formed) (parsed-injective [] items (ok-injective h)) tt
parse_items-Formed ids targets (raw ∷ raws) items h =
    let item = manifest_item raw in
    let (failure, checked, after) = >>=-ok (first_failure (item_checks ids targets raw)) _ h in
    let (passed, rest, later, same) = after-Formed item _ failure items after in
    subst (All Formed) (sym same) (
      item-Formed ids targets raw (first_failure-Passes _ (checked ∙ ap ok passed)),
      parse_items-Formed (item.record_id ∷ ids) (target_key item ∷ targets) raws rest later,
    )

list-Formed :
    (v : Value) (items : List ManifestItem) → parse_list v ≡ ok (parsed items) → All Formed items
unfolding parse_list
list-Formed (arr vs) items h = elim (Bool-cases (ltb max_items (length (items_list vs)))) [
  | inl many ↦ cc (ok-injective (rw many at h))
  | inr few ↦ parse_items-Formed [] [] (items_list vs) items (rw few at h)
]
list-Formed null items h = cc (ok-injective h)
list-Formed (bool b) items h = cc (ok-injective h)
list-Formed (int i) items h = cc (ok-injective h)
list-Formed (str s) items h = cc (ok-injective h)
list-Formed (obj fs) items h = cc (ok-injective h)

header-Formed :
    (payload : Value) (failure : Option String) (items : List ManifestItem)
    → after_header payload failure ≡ ok (parsed items)
    → All Formed items
unfolding after_header
header-Formed payload none items h = list-Formed (get "items" payload) items h
header-Formed payload (some code) items h = cc (ok-injective h)

pub parse_candidate_manifest-Formed :
    (payload : Value) (items : List ManifestItem)
    → parse_candidate_manifest payload ≡ ok (parsed items)
    → All Formed items
unfolding parse_candidate_manifest
parse_candidate_manifest-Formed payload items h =
    let (failure, _, after) = >>=-ok (first_failure (manifest_checks payload)) _ h in
    header-Formed payload failure items after
