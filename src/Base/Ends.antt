-- ===== src/Base/Ends.antt =====
-- How `startswith` and `endswith` answer on texts put together.
use Prim.Native.String.{String, ◌++◌ as ◌<>◌}
use mathlib.Core.Path.{◌≡◌, refl}
use mathlib.Core.Bool.{true}
use native.Mathlib.Omega.{arith}
use text.Mathlib.TextLemmas.{nil-append, cons-append}
use technology_library_inges.Base.Tests.{str_eq_refl}
use technology_library_inges.Base.Text.{starts_with}
use technology_library_inges.Base.Sorting.{ends_with}

pub starts_with-append : (p s : String) → starts_with (p <> s) p ≡ true
unfolding starts_with
starts_with-append String.[] s = refl
starts_with-append (String.◌∷◌ c p) s =
    rw (cons-append c p s) (ground (arith, starts_with-append p s))

-- A prefix of a prefix is a prefix.
pub starts_with_trans :
    (s p q : String) → starts_with s p ≡ true → starts_with p q ≡ true → starts_with s q ≡ true
unfolding starts_with
starts_with_trans s p String.[] h k = refl
starts_with_trans s String.[] (String.◌∷◌ c q) h k = cc
starts_with_trans String.[] (String.◌∷◌ d p) (String.◌∷◌ c q) h k = cc
starts_with_trans (String.◌∷◌ e s) (String.◌∷◌ d p) (String.◌∷◌ c q) h k =
    ground (arith, starts_with_trans s p q)

pub ends_with-whole : (t : String) → ends_with t t ≡ true
unfolding ends_with
ends_with-whole String.[] = str_eq_refl ""
ends_with-whole (String.◌∷◌ c t) = ground (arith, str_eq_refl (String.◌∷◌ c t))

pub ends_with-append : (r s t : String) → ends_with s t ≡ true → ends_with (r <> s) t ≡ true
unfolding ends_with
ends_with-append String.[] s t h = rw (nil-append s) h
ends_with-append (String.◌∷◌ c r) s t h =
    rw (cons-append c r s) (ground (arith, ends_with-append r s t h))
