-- ===== src/Base/Text.antt =====
-- What the program uses of Python's `str`: prefixes, suffixes, characters, `str(index)`.
use Prim.Native.Nat.{ℕ, zero, suc, ◌/◌, ◌%◌}
use Prim.Native.Char.{Char, code}
use Prim.Native.String.{String, ◌++◌ as ◌<>◌}
use mathlib.Core.Path.{◌≡◌, refl}
use mathlib.Core.Bool.{Bool, true, false, ◌&&◌, ◌||◌}
use native.Mathlib.Omega.{arith}
use technology_library_inges.Base.Tests.{ltb, leb, ◌==◌, str_eq, if◌then◌else◌}

-- `s.startswith(t)`, by characters.
unfoldable pub starts_with : String → String → Bool
starts_with s String.[] = true
starts_with String.[] (String.◌∷◌ d t) = false
starts_with (String.◌∷◌ c s) (String.◌∷◌ d t) = code c == code d && starts_with s t

-- `str(n)` for a natural number. `fuel` bounds the digits, and a number has no more digits than
-- itself plus one.
digit : ℕ → String
digit n =
    if n == 0
    then "0"
    else if n == 1
    then "1"
    else if n == 2
    then "2"
    else if n == 3
    then "3"
    else if n == 4
    then "4"
    else if n == 5
    then "5"
    else if n == 6
    then "6"
    else if n == 7
    then "7"
    else if n == 8
    then "8"
    else "9"

decimal_from : ℕ → ℕ → String
decimal_from zero n = ""
decimal_from (suc fuel) n =
    let more = decimal_from fuel (n / 10) <> digit (n % 10) in if ltb n 10 then digit n else more

unfoldable pub decimal : ℕ → String
unfolding decimal_from digit
decimal n = decimal_from (suc n) n

-- `s[:n]`
unfoldable pub first_chars : ℕ → String → String
first_chars zero s = ""
first_chars (suc n) String.[] = ""
first_chars (suc n) (String.◌∷◌ c s) = String.◌∷◌ c (first_chars n s)

-- `all(ch in "0123456789abcdef" for ch in value)`
unfoldable pub is_hex_digit : Char → Bool
is_hex_digit c =
    (leb b'0' (code c) && leb (code c) b'9') || (leb b'a' (code c) && leb (code c) b'f')

unfoldable pub all_hex : String → Bool
unfolding is_hex_digit
all_hex String.[] = true
all_hex (String.◌∷◌ c s) = is_hex_digit c && all_hex s

-- What `str.isspace` holds of, which `str.strip` takes off.
unfoldable pub is_space : Char → Bool
is_space c =
    (leb 9 (code c) && leb (code c) 13)
    || (leb 28 (code c) && leb (code c) 32)
    || code c == 133
    || code c == 160
    || code c == 5760
    || (leb 8192 (code c) && leb (code c) 8202)
    || code c == 8232
    || code c == 8233
    || code c == 8239
    || code c == 8287
    || code c == 12288

lstrip_spaces : String → String
lstrip_spaces String.[] = ""
lstrip_spaces (String.◌∷◌ c s) =
    let rest = lstrip_spaces s in if is_space c then rest else String.◌∷◌ c s

rstrip_spaces : String → String
rstrip_spaces String.[] = ""
rstrip_spaces (String.◌∷◌ c s) =
    let rest = rstrip_spaces s in if is_space c && str_eq rest "" then "" else String.◌∷◌ c rest

-- `s.strip()`
unfoldable pub strip : String → String
unfolding lstrip_spaces rstrip_spaces is_space
strip s = rstrip_spaces (lstrip_spaces s)

test_strip : strip " a b " ≡ "a b"
unfolding strip str_eq
test_strip = refl

test_decimal : decimal 4072 ≡ "4072"
unfolding decimal
test_decimal = refl

test_starts_with : starts_with "00_LIBRARY/a.md" "00_LIBRARY/" ≡ true
unfolding starts_with
test_starts_with = refl

-- Texts that begin with different characters differ.
pub library-ne-inbox :
    (q : String)
    → starts_with q "00_LIBRARY/" ≡ true
    → starts_with q "99_INBOX/CANDIDATES/PRODUCTION_RECOVERY/" ≡ true
    → ⊥
unfolding starts_with
library-ne-inbox String.[] h k = cc
library-ne-inbox (String.◌∷◌ c s) h k = ground arith
