-- ===== src/Paths.antt =====
-- What the program uses of `pathlib.PurePosixPath`: the parts of a path, its normal form, its
-- name with stem and suffix, and `str.replace`, `str.strip` of separators.
use Prim.Native.Char.{Char, code}
use technology_library_inges.Base.{
  String, ◌<>◌, ◌≡◌, refl, Bool, ◌&&◌, ◌||◌, not, List, [], ◌∷◌, ◌++◌, ◌==◌, str_eq, if◌then◌else◌,
  is_empty, Option, none, some, starts_with,
}

abbrev is_slash : Char → Bool
is_slash c = code c == b'/'

-- `s.replace("\\", "/")`
unfoldable pub forward_slashes : String → String
forward_slashes String.[] = String.[]
forward_slashes (String.◌∷◌ c s) =
    let rest = forward_slashes s in if code c == b'\\' then "/" <> rest else String.◌∷◌ c rest

prepend : Char → List String → List String
prepend c [] = String.◌∷◌ c "" ∷ []
prepend c (w ∷ ws) = String.◌∷◌ c w ∷ ws

-- `s.split("/")`
unfoldable pub split_slashes : String → List String
unfolding prepend
split_slashes String.[] = "" ∷ []
split_slashes (String.◌∷◌ c s) =
    let rest = split_slashes s in if is_slash c then "" ∷ rest else prepend c rest

-- The components: empty ones and `.` are dropped.
kept : List String → List String
kept [] = []
kept (w ∷ ws) = let rest = kept ws in if str_eq w "" || str_eq w "." then rest else w ∷ rest

-- The root is `//` for exactly two slashes, else `/` for one or more.
root_of : String → String
root_of s =
    if starts_with s "///"
    then "/"
    else if starts_with s "//"
    then "//"
    else if starts_with s "/"
    then "/"
    else ""

pub record PosixPath : Type 0 where
  pub root : String
  pub segments : List String

unfoldable pub posix_path : String → PosixPath
unfolding root_of kept split_slashes starts_with
posix_path s = record { root = root_of s; segments = kept (split_slashes s) }

unfoldable pub is_absolute : PosixPath → Bool
is_absolute p = not (str_eq p.root "")

-- `p.parts`
unfoldable pub parts : PosixPath → List String
parts p = if str_eq p.root "" then p.segments else p.root ∷ p.segments

join_slashes : List String → String
join_slashes [] = ""
join_slashes (w ∷ []) = w
join_slashes (w ∷ v ∷ ws) = w <> ("/" <> join_slashes (v ∷ ws))

-- `p.as_posix()`, `str(p)`
unfoldable pub as_posix : PosixPath → String
unfolding join_slashes
as_posix p =
    if str_eq p.root "" && is_empty p.segments then "." else p.root <> join_slashes p.segments

-- `p / s`: an absolute `s` replaces `p`.
unfoldable pub joined : PosixPath → String → PosixPath
unfolding posix_path is_absolute
joined p s =
    let q = posix_path s in
    if is_absolute q then q else record { root = p.root; segments = p.segments ++ q.segments }

last_segment : List String → String
last_segment [] = ""
last_segment (w ∷ []) = w
last_segment (w ∷ v ∷ ws) = last_segment (v ∷ ws)

-- `p.name`
unfoldable pub name : PosixPath → String
unfolding last_segment
name p = last_segment p.segments

-- A name cut before its last dot; the dot belongs to the second part.
cut_at_last_dot : String → Option (record { before : String; after : String })
cut_at_last_dot String.[] = none
cut_at_last_dot (String.◌∷◌ c s) = elim (cut_at_last_dot s) [
  | some p ↦ some (record { before = String.◌∷◌ c p.before; after = p.after })
  | none ↦ if code c == b'.' then some (record { before = ""; after = String.◌∷◌ c s }) else none
]

-- A leading dot and a trailing dot make no suffix.
suffix_of_name : String → String
unfolding cut_at_last_dot
suffix_of_name n = elim (cut_at_last_dot n) [
  | none ↦ ""
  | some p ↦ if str_eq p.before "" || str_eq p.after "." then "" else p.after
]

stem_of_name : String → String
unfolding cut_at_last_dot
stem_of_name n = elim (cut_at_last_dot n) [
  | none ↦ n
  | some p ↦ if str_eq p.before "" || str_eq p.after "." then n else p.before
]

-- `p.suffix`, `p.stem`
unfoldable pub suffix : PosixPath → String
unfolding suffix_of_name name
suffix p = suffix_of_name (name p)

unfoldable pub stem : PosixPath → String
unfolding stem_of_name name
stem p = stem_of_name (name p)

lstrip_slashes : String → String
lstrip_slashes String.[] = ""
lstrip_slashes (String.◌∷◌ c s) =
    let rest = lstrip_slashes s in if is_slash c then rest else String.◌∷◌ c s

rstrip_slashes : String → String
rstrip_slashes String.[] = ""
rstrip_slashes (String.◌∷◌ c s) =
    let rest = rstrip_slashes s in if is_slash c && str_eq rest "" then "" else String.◌∷◌ c rest

-- `s.strip("/")`
unfoldable pub strip_slashes : String → String
unfolding lstrip_slashes rstrip_slashes
strip_slashes s = rstrip_slashes (lstrip_slashes s)

-- `s.rstrip("/")`
unfoldable pub rstrip : String → String
unfolding rstrip_slashes
rstrip s = rstrip_slashes s

test_as_posix : as_posix (posix_path "a//./b/../c/") ≡ "a/b/../c"
unfolding as_posix posix_path str_eq
test_as_posix = refl

test_joined : as_posix (joined (joined (posix_path "a/b") "c") "d.json") ≡ "a/b/c/d.json"
unfolding as_posix joined str_eq
test_joined = refl

test_suffix : suffix (posix_path "x/lecture.part.MP4") ≡ ".MP4"
unfolding suffix posix_path str_eq
test_suffix = refl

test_strip : strip_slashes "/a/b//" ≡ "a/b"
unfolding strip_slashes str_eq
test_strip = refl
