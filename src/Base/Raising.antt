-- ===== src/Base/Raising.antt =====
-- A Python function that may raise. The exceptions are those of an operation on a value of a
-- type that it does not take, and the exit of a worker whose remote did not confirm a write.
use mathlib.Core.Path.{◌≡◌, refl, ap}

pub data Exception : Type 0 where
  type_error key_error value_error remote_uncertain : Exception

pub data Result {ℓ} (A : Type ℓ) : Type ℓ where
  ok : A → Result A
  raised : Exception → Result A

infixl 5 ◌>>=◌
abbrev pub ◌>>=◌ {ℓ κ} : {A : Type ℓ} {B : Type κ} → Result A → (A → Result B) → Result B
raised x >>= next = raised x
ok value >>= next = next value

-- If two steps return together, then the first one returned, and the second one from its value.
pub >>=-ok {ℓ κ} :
    {A : Type ℓ} {B : Type κ} (first : Result A) (next : A → Result B) {result : B}
    → (first >>= next) ≡ ok result
    → (value : A) × (first ≡ ok value) × (next value ≡ ok result)
>>=-ok (raised x) next returned = cc
>>=-ok (ok value) next returned = (value, refl, returned)

abbrev or_else_ok {ℓ} : {A : Type ℓ} → A → Result A → A
or_else_ok a (ok b) = b
or_else_ok a (raised e) = a

pub ok-injective {ℓ} : {A : Type ℓ} {a b : A} → ok a ≡ ok b → a ≡ b
ok-injective {a = a} h = ap (or_else_ok a) h

pub ok-ne-raised {ℓ} : {A : Type ℓ} (a : A) (e : Exception) → ok a ≡ raised e → ⊥
ok-ne-raised a e h = cc
