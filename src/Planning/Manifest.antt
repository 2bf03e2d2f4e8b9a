-- ===== src/Planning/Manifest.antt =====
-- `parse_candidate_manifest` of src/candidate_publish_index.py, and `derive_target` of
-- src/library_publish.py.
pub mod Formed
use Prim.Native.Char.{Char, code}
use technology_library_inges.Base.{
  ℕ, zero, suc, String, ◌<>◌, ◌≡◌, refl, Bool, true, false, not, ◌&&◌, ◌||◌, Option, none, some,
  List, [], ◌∷◌, ltb, leb, ◌==◌, str_eq, if◌then◌else◌, contains, subset, length, count, is_empty,
  all_hex, starts_with, ends_with, strip, sort_by, Check, plain, first_failure, Result, ok, raised,
  ◌>>=◌,
}
use technology_library_inges.Json.{
  pos, Value, null, bool, int, str, arr, obj, Fields, field, end, fields, get, is_dict, eq_str,
  eq_nat, in_set, items_list, list_items, str_of_length,
}
use technology_library_inges.Paths.{forward_slashes, strip_slashes}
use technology_library_inges.Planning.Names.{
  Parsed, parsed, invalid, matches, is_id, is_sha, is_domain, is_category, is_slug, normalize_rel,
}

abbrev pub max_items : ℕ
max_items = 50

keys : Fields → List String
keys end = []
keys (field k v fs) = k ∷ keys fs

-- `isinstance(v, dict) and set(v) == {…}`
unfoldable pub has_exactly : List String → Value → Bool
unfolding subset keys
has_exactly names (obj fs) = subset (keys fs) names && subset names (keys fs)
has_exactly names v = false

-- A parsed record of a manifest.
pub record ManifestItem : Type 0 where
  pub package_id : String
  pub revision_key : String
  pub record_id : String
  pub record_type : String
  pub status : String
  pub domain : String
  pub category : String
  pub slug : String
  pub title : String
  pub content_path : String
  pub content_sha256 : String

abbrev pub allowed_types : List String
allowed_types = "TECHNOLOGY" ∷ "PATTERN" ∷ "PIPELINE" ∷ "SOURCE" ∷ []

abbrev pub allowed_status : List String
allowed_status = "REFERENCE" ∷ "TEST" ∷ "DEPRECATED" ∷ []

abbrev required_fields : List String
required_fields =
    "package_id" ∷ "revision_key" ∷ "record_id" ∷ "record_type" ∷ "status" ∷ "domain" ∷ "category"
    ∷ "slug" ∷ "title" ∷ "content_path" ∷ "content_sha256" ∷ []

abbrev pub outbox_prefix : String
outbox_prefix = "99_INBOX/CANDIDATES/PUBLISH_READY/records/"

-- The text of a value that has been tested to be one.
abbrev pub text : Value → String
text (str s) = s
text v = ""

title_ok : String → Bool
title_ok s = not (str_eq (strip s) "") && leb (count s) 160

path_check : Parsed String → Check
path_check (invalid code) = plain false code
path_check (parsed p) =
    plain (starts_with p outbox_prefix && ends_with p ".md") "record_content_path"

content_path_check : Value → Check
content_path_check (str p) = path_check (normalize_rel p)
content_path_check v = plain false "record_content_path"

or_empty : Parsed String → String
or_empty (parsed p) = p
or_empty (invalid code) = ""

-- `(record_type, domain, category, slug)`
target_key : ManifestItem → List String
target_key item = item.record_type ∷ item.domain ∷ item.category ∷ item.slug ∷ []

same_texts : List String → List String → Bool
same_texts [] [] = true
same_texts (x ∷ xs) (y ∷ ys) = str_eq x y && same_texts xs ys
same_texts _ _ = false

has_key : List (List String) → List String → Bool
has_key [] key = false
has_key (seen ∷ rest) key = same_texts seen key || has_key rest key

pub manifest_item : Value → ManifestItem
manifest_item raw = record {
  package_id = text (get "package_id" raw);
  revision_key = text (get "revision_key" raw);
  record_id = text (get "record_id" raw);
  record_type = text (get "record_type" raw);
  status = text (get "status" raw);
  domain = text (get "domain" raw);
  category = text (get "category" raw);
  slug = text (get "slug" raw);
  title = strip (text (get "title" raw));
  content_path = or_empty (normalize_rel (text (get "content_path" raw)));
  content_sha256 = text (get "content_sha256" raw);
}

pub item_checks : List String → List (List String) → Value → List Check
item_checks ids targets raw =
    let record_type = get "record_type" raw in
    let domain = get "domain" raw in
    plain (has_exactly required_fields raw) "record_fields"
    ∷ plain (matches is_id (get "package_id" raw)) "record_package_id"
    ∷ plain (matches is_id (get "revision_key" raw)) "record_revision_key"
    ∷ plain (matches is_id (get "record_id" raw)) "record_id"
    ∷ plain (not (contains ids (text (get "record_id" raw)))) "record_duplicate_id"
    ∷ (in_set record_type allowed_types, "record_type")
    ∷ (in_set (get "status" raw) allowed_status, "record_status")
    ∷ plain (matches is_domain domain) "record_domain"
    ∷ plain (matches is_category (get "category" raw)) "record_category"
    ∷ plain (not (eq_str record_type "SOURCE") || eq_str domain "SOURCES") "source_domain"
    ∷ plain (eq_str record_type "SOURCE" || not (eq_str domain "SOURCES")) "canonical_domain"
    ∷ plain (matches is_slug (get "slug" raw)) "record_slug"
    ∷ plain (matches title_ok (get "title" raw)) "record_title"
    ∷ plain (matches is_sha (get "content_sha256" raw)) "record_sha256"
    ∷ content_path_check (get "content_path" raw)
    ∷ plain (not (has_key targets (target_key (manifest_item raw)))) "record_duplicate_target"
    ∷ []

abbrev pub Items : Type 0
Items = Result (Parsed (List ManifestItem))

add_item : ManifestItem → Parsed (List ManifestItem) → Parsed (List ManifestItem)
add_item item (invalid code) = invalid code
add_item item (parsed items) = parsed (item ∷ items)

after_checks : ManifestItem → Items → Option String → Items
after_checks item later (some code) = ok (invalid code)
after_checks item later none = do items ← later; ok (add_item item items)

pub parse_items : List String → List (List String) → List Value → Items
parse_items ids targets [] = ok (parsed [])
parse_items ids targets (raw ∷ rest) =
    let item = manifest_item raw in
    let later = parse_items (item.record_id ∷ ids) (target_key item ∷ targets) rest in
    do failure ← first_failure (item_checks ids targets raw); after_checks item later failure

manifest_checks : Value → List Check
manifest_checks payload =
    plain (has_exactly ("schema_version" ∷ "publish_version" ∷ "items" ∷ []) payload)
      "manifest_top_level_fields"
    ∷ plain (eq_nat (get "schema_version" payload) 1) "manifest_schema"
    ∷ plain (eq_str (get "publish_version" payload) "0.2.0") "manifest_version"
    ∷ []

parse_list : Value → Items
parse_list (arr vs) =
    if ltb max_items (length (items_list vs))
    then ok (invalid "manifest_items")
    else parse_items [] [] (items_list vs)
parse_list v = ok (invalid "manifest_items")

after_header : Value → Option String → Items
after_header payload (some code) = ok (invalid code)
after_header payload none = parse_list (get "items" payload)

unfoldable pub parse_candidate_manifest : Value → Items
unfolding after_header parse_list parse_items after_checks add_item item_checks manifest_item
    manifest_checks content_path_check path_check or_empty title_ok target_key same_texts has_key
    has_exactly normalize_rel is_id is_sha is_domain is_category is_slug strip first_failure
parse_candidate_manifest payload = do
  failure ← first_failure (manifest_checks payload)
  after_header payload failure

-- `record_type.lower()` of the four record types.
lower_type : String → String
lower_type record_type =
    if str_eq record_type "TECHNOLOGY"
    then "technology"
    else if str_eq record_type "PATTERN"
    then "pattern"
    else if str_eq record_type "PIPELINE"
    then "pipeline"
    else "source"

-- For the items of a parsed manifest, whose record types are the four.
unfoldable pub derive_target : ManifestItem → String
unfolding lower_type
derive_target item =
    let filename = lower_type item.record_type <> ("-" <> (item.slug <> ".md")) in
    if str_eq item.record_type "SOURCE"
    then "00_LIBRARY/SOURCES/" <> filename
    else "00_LIBRARY/" <> (item.domain <> ("/" <> (item.category <> ("/" <> filename))))
