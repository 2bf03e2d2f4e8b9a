-- ===== src/Base/Codes.antt =====
-- Lists of error codes: `sorted(set(errors))`.
use Prim.Native.Nat.{Ordering}
use Prim.Native.String.{String, compare}
use mathlib.Core.Path.{◌≡◌, refl}
use mathlib.Core.Logic.{◌≢◌}
use mathlib.Core.List.{List, [], ◌∷◌}
use mathlib.Core.Bool.{◌||◌}
use native.Mathlib.Omega.{arith}
use text.Mathlib.TextEquality.{path_by_compare}
use technology_library_inges.Base.Tests.{str_eq}
use technology_library_inges.Base.Lists.{contains}

-- Insertion into a list that is strictly increasing; texts compare by code points.
unfoldable pub insert_code : String → List String → List String
insert_code x [] = x ∷ []
insert_code x (y ∷ ys) = elim (compare x y) [
  | Ordering.lt ↦ x ∷ y ∷ ys
  | Ordering.eq ↦ y ∷ ys
  | Ordering.gt ↦ y ∷ insert_code x ys
]

unfoldable pub sorted_set : List String → List String
unfolding insert_code
sorted_set [] = []
sorted_set (x ∷ xs) = insert_code x (sorted_set xs)

insert_code-ne-nil : (x : String) (ys : List String) → insert_code x ys ≢ []
unfolding insert_code
insert_code-ne-nil x [] h = cc
insert_code-ne-nil x (y ∷ ys) h = ground arith

-- An empty report means that no check failed.
pub sorted_set-eq-nil : (xs : List String) → sorted_set xs ≡ [] → xs ≡ []
unfolding sorted_set
sorted_set-eq-nil [] h = refl
sorted_set-eq-nil (x ∷ xs) h = absurd (insert_code-ne-nil x (sorted_set xs) h)

-- `sorted(set(…))` has the same members.
contains-insert_code :
    (x a : String) (ys : List String)
    → contains (insert_code x ys) a ≡ (str_eq a x || contains ys a)
unfolding insert_code
contains-insert_code x a [] = refl
contains-insert_code x a (y ∷ ys) = ground (arith, contains-insert_code x a ys, path_by_compare x y)

pub contains-sorted_set :
    (xs : List String) (a : String) → contains (sorted_set xs) a ≡ contains xs a
unfolding sorted_set
contains-sorted_set [] a = refl
contains-sorted_set (x ∷ xs) a =
    rw (contains-insert_code x a (sorted_set xs), contains-sorted_set xs a)

test_sorted_set : sorted_set ("b" ∷ "a" ∷ "b" ∷ []) ≡ "a" ∷ "b" ∷ []
unfolding sorted_set
test_sorted_set = refl
