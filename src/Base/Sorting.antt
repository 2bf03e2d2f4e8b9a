-- ===== src/Base/Sorting.antt =====
-- `sorted(…, key=…)` with keys that are tuples of texts, and `s.endswith(t)`.
use Prim.Native.Nat.{Ordering, suc}
use Prim.Native.String.compare
use Prim.Native.String.{String, compare}
use mathlib.Core.Path.{◌≡◌, refl, ap, ◌∙◌}
use mathlib.Core.Bool.{Bool, true, false, ◌||◌}
use mathlib.Core.List.{List, [], ◌∷◌}
use mathlib.Core.Logic.{inl, inr}
use native.Mathlib.Omega.{arith}
use text.Mathlib.TextEquality.{path_by_compare}
use text.Mathlib.TextPositions.{compare_refl}
use technology_library_inges.Base.Tests.{str_eq, if◌then◌else◌, Bool-cases}
use technology_library_inges.Base.Lists.{All, length}
use technology_library_inges.Base.Text.{starts_with}

unfoldable pub ends_with : String → String → Bool
ends_with String.[] t = str_eq "" t
ends_with (String.◌∷◌ c s) t = str_eq (String.◌∷◌ c s) t || ends_with s t

-- `t in s` for texts.
unfoldable pub has_part : String → String → Bool
has_part String.[] t = str_eq t ""
has_part (String.◌∷◌ c s) t = starts_with (String.◌∷◌ c s) t || has_part s t

text_swap : (s t : String) → compare s t ≡ Ordering.gt → compare t s ≡ Ordering.lt
text_swap String.[] String.[] h = cc (h, compare.nil-nil)
text_swap String.[] (String.◌∷◌ d t) h = cc (h, compare.nil-cons d t)
text_swap (String.◌∷◌ c s) String.[] h = compare.nil-cons c s
text_swap (String.◌∷◌ c s) (String.◌∷◌ d t) h =
    ground (arith, text_swap s t, compare.cons-cons c d s t, compare.cons-cons d c t s)

-- Tuples compare at the first place where they differ.
unfoldable pub key_leb : List String → List String → Bool
key_leb [] ys = true
key_leb (x ∷ xs) [] = false
key_leb (x ∷ xs) (y ∷ ys) = elim (compare x y) [
  | Ordering.lt ↦ true
  | Ordering.eq ↦ key_leb xs ys
  | Ordering.gt ↦ false
]

-- Keys are ordered one way or the other.
key_leb-total : (xs ys : List String) → key_leb xs ys ≡ false → key_leb ys xs ≡ true
unfolding key_leb
key_leb-total [] ys h = cc
key_leb-total (x ∷ xs) [] h = refl
key_leb-total (x ∷ xs) (y ∷ ys) h =
    ground (arith, key_leb-total xs ys, text_swap x y, path_by_compare x y, compare_refl x)

module _ {ℓ} {A : Type ℓ} (key : A → List String) where
  insert_by : A → List A → List A
  insert_by x [] = x ∷ []
  insert_by x (y ∷ ys) = if key_leb (key x) (key y) then x ∷ y ∷ ys else y ∷ insert_by x ys

  -- Entries with equal keys keep their order.
  unfoldable pub sort_by : List A → List A
  unfolding insert_by key_leb
  sort_by [] = []
  sort_by (x ∷ xs) = insert_by x (sort_by xs)

module _ {ℓ κ} {A : Type ℓ} (key : A → List String) (P : A → Type κ) where
  All-insert_by : (x : A) (ys : List A) → All P (insert_by key x ys) → P x × All P ys
  unfolding insert_by
  All-insert_by x [] (p, ps) = (p, tt)
  All-insert_by x (y ∷ ys) ps = elim (Bool-cases (key_leb (key x) (key y))) [
    | inl first ↦ (rw first at ps)
    | inr later ↦
        let (q, qs) = rw later at ps in
        let (here, rest) = All-insert_by x ys qs in (here, (q, rest))
  ]

  -- Sorting adds nothing and loses nothing.
  pub All-sort_by : (xs : List A) → All P (sort_by key xs) → All P xs
  unfolding sort_by
  All-sort_by [] ps = tt
  All-sort_by (x ∷ xs) ps =
      let (here, rest) = All-insert_by x (sort_by key xs) ps in (here, All-sort_by xs rest)

  insert_by-All : (x : A) (ys : List A) → P x → All P ys → All P (insert_by key x ys)
  unfolding insert_by
  insert_by-All x [] p ps = (p, tt)
  insert_by-All x (y ∷ ys) p (q, qs) = elim (Bool-cases (key_leb (key x) (key y))) [
    | inl first ↦ rw first (p, (q, qs))
    | inr later ↦ rw later (q, insert_by-All x ys p qs)
  ]

  pub sort_by-All : (xs : List A) → All P xs → All P (sort_by key xs)
  unfolding sort_by
  sort_by-All [] ps = tt
  sort_by-All (x ∷ xs) (p, ps) = insert_by-All x (sort_by key xs) p (sort_by-All xs ps)

module _ {ℓ} {A : Type ℓ} (key : A → List String) where
  -- Each entry's key is at most that of the next one.
  abbrev pub IsSorted : List A → Type 0
  IsSorted [] = Unit
  IsSorted (x ∷ []) = Unit
  IsSorted (x ∷ y ∷ ys) = (key_leb (key x) (key y) ≡ true) × IsSorted (y ∷ ys)

  IsSorted-tail : (x : A) (ys : List A) → IsSorted (x ∷ ys) → IsSorted ys
  IsSorted-tail x [] s = tt
  IsSorted-tail x (y ∷ ys) (h, s) = s

  insert_by-IsSorted :
      (x : A) (ys : List A)
      → IsSorted ys
      → IsSorted (insert_by key x ys)
        × ((z : A)
            → key_leb (key z) (key x) ≡ true
            → IsSorted (z ∷ ys)
            → IsSorted (z ∷ insert_by key x ys))
  unfolding insert_by
  insert_by-IsSorted x [] s = (tt, λ z h t. (h, tt))
  insert_by-IsSorted x (y ∷ ys) s = elim (Bool-cases (key_leb (key x) (key y))) [
    | inl first ↦ rw first ((first, s), λ z h t. (h, (first, s)))
    | inr later ↦
        let here : IsSorted (y ∷ insert_by key x ys) =
          (insert_by-IsSorted x ys (IsSorted-tail y ys s)).1 y (key_leb-total (key x) (key y) later)
            s in
        rw later (here, λ z h t. (t.0, here))
  ]

  pub sort_by-IsSorted : (xs : List A) → IsSorted (sort_by key xs)
  unfolding sort_by
  sort_by-IsSorted [] = tt
  sort_by-IsSorted (x ∷ xs) = (insert_by-IsSorted x (sort_by key xs) (sort_by-IsSorted xs)).0

module _ {ℓ κ} {A : Type ℓ} (key : A → List String) (R : A → A → Type κ)
    (swap : (x y : A) → R x y → R y x) where
  -- Every two entries are related.
  abbrev pub Pairwise : List A → Type κ
  Pairwise [] = Unit
  Pairwise (x ∷ xs) = All (R x) xs × Pairwise xs

  insert_by-Pairwise :
      (x : A) (ys : List A) → All (R x) ys → Pairwise ys → Pairwise (insert_by key x ys)
  unfolding insert_by
  insert_by-Pairwise x [] r p = (tt, tt)
  insert_by-Pairwise x (y ∷ ys) (r, rs) (q, p) = elim (Bool-cases (key_leb (key x) (key y))) [
    | inl first ↦ rw first ((r, rs), (q, p))
    | inr later ↦
        rw later (insert_by-All key (R y) x ys (swap x y r) q, insert_by-Pairwise x ys rs p)
  ]

  pub sort_by-Pairwise : (xs : List A) → Pairwise xs → Pairwise (sort_by key xs)
  unfolding sort_by
  sort_by-Pairwise [] p = tt
  sort_by-Pairwise (x ∷ xs) (r, p) =
      insert_by-Pairwise x (sort_by key xs) (sort_by-All key (R x) xs r) (sort_by-Pairwise xs p)

module _ {ℓ} {A : Type ℓ} (key : A → List String) where
  length-insert_by : (x : A) (ys : List A) → length (insert_by key x ys) ≡ suc (length ys)
  unfolding insert_by
  length-insert_by x [] = refl
  length-insert_by x (y ∷ ys) = ground (arith, length-insert_by x ys)

  pub length-sort_by : (xs : List A) → length (sort_by key xs) ≡ length xs
  unfolding sort_by
  length-sort_by [] = refl
  length-sort_by (x ∷ xs) = length-insert_by x (sort_by key xs) ∙ ap suc (length-sort_by xs)

test_sort_by :
    sort_by (λ (p : String × String). p.0 ∷ []) (("b", "1") ∷ ("a", "2") ∷ ("b", "0") ∷ [])
    ≡ ("a", "2") ∷ ("b", "1") ∷ ("b", "0") ∷ []
unfolding sort_by
test_sort_by = refl

test_ends_with : ends_with "00_LIBRARY/x/INDEX.md" "/INDEX.md" ≡ true
unfolding ends_with str_eq
test_ends_with = refl
