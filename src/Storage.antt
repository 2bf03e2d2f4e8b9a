-- ===== src/Storage.antt =====
-- The callbacks of the transaction engines: `read_bytes`, `write_bytes`, `delete_canonical`, over a
-- storage that is not part of the program. A write or a delete answers whether it succeeded; what
-- it leaves at its own path is not assumed, since the engines read it back.
use technology_library_inges.Base.{
  ℕ, String, ◌≡◌, ◌≢◌, Bool, true, false, ◌&&◌, Option, none, some, List, [], ◌∷◌, ◌==◌, arith,
  str_eq, refl, if◌then◌else◌, eq→str_eq, str_eq→eq, contains, ap,
}

abbrev pub Bytes : Type 0
Bytes = List ℕ

pub record Storage : Type 1 where
  pub State : Type 0
  pub read : State → String → Option Bytes
  pub write : State → String → Bytes → Bool × State
  pub delete : State → String → Bool × State

-- An operation on one path leaves every other path as it was, whether it succeeds or fails.
pub record IsFramed (S : Storage) : Type 0 where
  pub read-write :
      (s : S.State) (p q : String) (b : Bytes) → p ≢ q → S.read (S.write s p b).1 q ≡ S.read s q
  pub read-delete : (s : S.State) (p q : String) → p ≢ q → S.read (S.delete s p).1 q ≡ S.read s q

-- A storage whose writes and deletes succeed and take effect.
pub record IsReliable (S : Storage) : Type 0 where
  pub write_succeeds : (s : S.State) (p : String) (b : Bytes) → (S.write s p b).0 ≡ true
  pub read-write_self : (s : S.State) (p : String) (b : Bytes) → S.read (S.write s p b).1 p ≡ some b
  pub delete_succeeds : (s : S.State) (p : String) → (S.delete s p).0 ≡ true
  pub read-delete_self : (s : S.State) (p : String) → S.read (S.delete s p).1 p ≡ none

-- `hashlib.sha256(raw).hexdigest()`
abbrev pub Sha256 : Type 0
Sha256 = Bytes → String

unfoldable pub bytes_eq : Bytes → Bytes → Bool
bytes_eq [] [] = true
bytes_eq (a ∷ as') (b ∷ bs) = a == b && bytes_eq as' bs
bytes_eq _ _ = false

pub bytes_eq→eq : (a b : Bytes) → bytes_eq a b ≡ true → a ≡ b
unfolding bytes_eq
bytes_eq→eq [] [] h = refl
bytes_eq→eq [] (y ∷ b) h = cc
bytes_eq→eq (x ∷ a) [] h = cc
bytes_eq→eq (x ∷ a) (y ∷ b) h = ground (arith, bytes_eq→eq a b)

pub bytes_eq_refl : (a : Bytes) → bytes_eq a a ≡ true
unfolding bytes_eq
bytes_eq_refl [] = refl
bytes_eq_refl (x ∷ a) = ground (arith, bytes_eq_refl a)

-- `read_bytes(path) == content`, where the read may answer `None`.
unfoldable pub holds : Option Bytes → Bytes → Bool
holds none b = false
holds (some a) b = bytes_eq a b

pub holds→eq : (o : Option Bytes) (b : Bytes) → holds o b ≡ true → o ≡ some b
unfolding holds
holds→eq none b h = cc
holds→eq (some a) b h = ap some (bytes_eq→eq a b h)

-- A storage in memory, whose writes and deletes to a list of broken paths fail with no effect.
abbrev pub memory : List String → Storage
memory broken = record {
  State = String → Option Bytes;
  read = λ s p. s p;
  write = λ s p b.
      if contains broken p then (false, s) else (true, λ q. if str_eq p q then some b else s q);
  delete = λ s p.
      if contains broken p then (false, s) else (true, λ q. if str_eq p q then none else s q);
}

pub memory-IsFramed : (broken : List String) → IsFramed (memory broken)
memory-IsFramed broken = record {
  read-write = λ s p q b n. ground (arith, str_eq→eq p q);
  read-delete = λ s p q n. ground (arith, str_eq→eq p q);
}

pub memory-IsReliable : IsReliable (memory [])
memory-IsReliable = record {
  write_succeeds = λ s p b. refl;
  read-write_self = λ s p b. ground (arith, eq→str_eq p p refl);
  delete_succeeds = λ s p. refl;
  read-delete_self = λ s p. ground (arith, eq→str_eq p p refl);
}

pub eq→holds : (o : Option Bytes) (b : Bytes) → o ≡ some b → holds o b ≡ true
unfolding holds
eq→holds none b h = cc
eq→holds (some a) b h = ground (arith, bytes_eq_refl b)
