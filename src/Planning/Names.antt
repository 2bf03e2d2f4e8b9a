-- ===== src/Planning/Names.antt =====
-- The regular expressions and `normalize_rel` of src/candidate_publish_index.py, and what its
-- `ValueError`s answer.
use Prim.Native.Char.{Char, code}
use technology_library_inges.Base.{
  String, ◌<>◌, Bool, true, false, not, ◌&&◌, ◌||◌, leb, ◌==◌, str_eq, if◌then◌else◌, count,
  all_hex, starts_with, has_part,
}
use technology_library_inges.Json.{Value, str}
use technology_library_inges.Paths.{forward_slashes, strip_slashes}

-- A value, or the message of the `ValueError` that is raised instead.
pub data Parsed {ℓ} (A : Type ℓ) : Type ℓ where
  parsed : A → Parsed A
  invalid : String → Parsed A

-- `isinstance(v, str) and RE.fullmatch(v)`
abbrev pub matches : (String → Bool) → Value → Bool
matches test (str s) = test s
matches test v = false

-- `^[0-9a-f]{20}$` and `^[0-9a-f]{64}$`
unfoldable pub is_id : String → Bool
unfolding all_hex
is_id s = count s == 20 && all_hex s

unfoldable pub is_sha : String → Bool
unfolding all_hex
is_sha s = count s == 64 && all_hex s

is_digit : Char → Bool
is_digit c = leb b'0' (code c) && leb (code c) b'9'

is_upper : Char → Bool
unfolding is_digit
is_upper c = (leb b'A' (code c) && leb (code c) b'Z') || is_digit c || code c == b'_'

is_lower : Char → Bool
unfolding is_digit
is_lower c = (leb b'a' (code c) && leb (code c) b'z') || is_digit c

all_upper : String → Bool
all_upper String.[] = true
all_upper (String.◌∷◌ c s) = is_upper c && all_upper s

-- `^[A-Z0-9_]+$`
unfoldable pub is_category : String → Bool
unfolding all_upper is_upper
is_category s = not (str_eq s "") && all_upper s

numbered_from : String → Bool
numbered_from (String.◌∷◌ c (String.◌∷◌ d (String.◌∷◌ e s))) =
    is_digit c && is_digit d && code e == b'_' && is_category s
numbered_from s = false

-- `^(?:[0-9]{2}_[A-Z0-9_]+|SOURCES)$`
unfoldable pub is_domain : String → Bool
unfolding numbered_from is_digit is_category
is_domain s = numbered_from s || str_eq s "SOURCES"

-- `letter` says that the last character was a letter or a digit, so that a hyphen may follow.
slug_from : Bool → String → Bool
slug_from letter String.[] = letter
slug_from letter (String.◌∷◌ c s) =
    let after_letter = slug_from true s in
    let after_hyphen = slug_from false s in
    if is_lower c then after_letter else code c == b'-' && letter && after_hyphen

-- `^[a-z0-9]+(?:-[a-z0-9]+)*$`
unfoldable pub is_slug : String → Bool
unfolding slug_from is_lower
is_slug s = slug_from false s

unfoldable pub normalize_rel : String → Parsed String
unfolding forward_slashes strip_slashes starts_with has_part
normalize_rel path =
    let value = strip_slashes (forward_slashes path) in
    if str_eq value "" || starts_with value "../" || has_part ("/" <> (value <> "/")) "/../"
    then invalid "path_traversal"
    else if starts_with value "./" || has_part value "//"
    then invalid "path_invalid"
    else parsed value
