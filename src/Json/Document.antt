-- ===== src/Json/Document.antt =====
-- JSON values as Python holds them: `dict` is `obj`, `list` is `arr`, `int` is `int`. Numbers with
-- a fraction do not occur in the documents that the modelled code reads, and are left out.
use technology_library_inges.Base.{
  ℕ, String, Bool, true, false, not, Option, none, some, List, [], ◌∷◌, leb, ◌==◌, str_eq,
  if◌then◌else◌, contains, Result, ok, raised, type_error, key_error, count,
}

-- A Python `int`; `negsuc n` is -(n + 1).
pub data ℤ : Type 0 where
  pos : ℕ → ℤ
  negsuc : ℕ → ℤ

mutual
  -- The keys of a `dict`, in their order.
  pub data Fields : Type 0 where
    field : String → Value → Fields → Fields
    end : Fields

  pub data Items : Type 0 where
    cons : Value → Items → Items
    nil : Items

  pub data Value : Type 0 where
    obj : Fields → Value
    arr : Items → Value
    str : String → Value
    int : ℤ → Value
    bool : Bool → Value
    null : Value

abbrev pub items_list : Items → List Value
items_list nil = []
items_list (cons v vs) = v ∷ items_list vs

abbrev pub list_items : List Value → Items
list_items [] = nil
list_items (v ∷ vs) = cons v (list_items vs)

unfoldable pub find_field : String → Fields → Option Value
find_field k end = none
find_field k (field j v fs) = if str_eq j k then some v else find_field k fs

-- `d.get(k)`: a missing key and `None` read the same. The callers have tested for a `dict`.
unfoldable pub get : String → Value → Value
unfolding find_field
get k (obj fs) = elim (find_field k fs) [ none ↦ null | some v ↦ v ]
get k v = null

-- `d[k]`
unfoldable pub index : String → Value → Result Value
unfolding find_field
index k (obj fs) = elim (find_field k fs) [ none ↦ raised key_error | some v ↦ ok v ]
index k v = raised type_error

-- `d[k] = v`: a key that is there keeps its place.
unfoldable pub set_field : String → Value → Fields → Fields
set_field k v end = field k v end
set_field k v (field j w fs) = if str_eq j k then field j v fs else field j w (set_field k v fs)

unfoldable pub set_key : String → Value → Value → Value
unfolding set_field
set_key k v (obj fs) = obj (set_field k v fs)
set_key k v d = d

-- `d.update({…})`
unfoldable pub update : Value → List (String × Value) → Value
unfolding set_key
update d [] = d
update d ((k, v) ∷ rest) = update (set_key k v d) rest

abbrev pub fields : List (String × Value) → Fields
fields [] = end
fields ((k, v) ∷ rest) = field k v (fields rest)

-- `isinstance(v, dict)`, `isinstance(v, list)`, `isinstance(v, bool)`
abbrev pub is_dict : Value → Bool
is_dict (obj fs) = true
is_dict _ = false

abbrev pub is_list : Value → Bool
is_list (arr vs) = true
is_list _ = false

abbrev pub is_bool : Value → Bool
is_bool (bool b) = true
is_bool _ = false

abbrev pub is_str : Value → Bool
is_str (str s) = true
is_str _ = false

-- `v is True`, `v is False`, `v is None`
abbrev pub is_true : Value → Bool
is_true (bool b) = b
is_true _ = false

abbrev pub is_false : Value → Bool
is_false (bool b) = not b
is_false _ = false

abbrev pub is_null : Value → Bool
is_null null = true
is_null _ = false

-- `v == "…"` for a text
abbrev pub eq_str : Value → String → Bool
eq_str (str t) s = str_eq t s
eq_str _ s = false

-- `v == n` for a number: `True == 1` and `False == 0` hold.
abbrev pub eq_nat : Value → ℕ → Bool
eq_nat (int (pos m)) n = m == n
eq_nat (bool true) n = n == 1
eq_nat (bool false) n = n == 0
eq_nat _ n = false

-- `isinstance(v, str) and v`
abbrev pub nonempty_str : Value → Bool
nonempty_str (str s) = not (str_eq s "")
nonempty_str _ = false

-- `isinstance(v, str) and len(v) == 64`
unfoldable pub str_of_length : ℕ → Value → Bool
str_of_length n (str s) = count s == n
str_of_length n _ = false

-- `v in {"…", …}`: a list or a dict has no hash.
abbrev pub in_set : Value → List String → Result Bool
in_set (arr vs) xs = raised type_error
in_set (obj fs) xs = raised type_error
in_set (str s) xs = ok (contains xs s)
in_set _ xs = ok false

-- `v in {True, False}`: 0 and 1 are in it too.
abbrev pub in_bools : Value → Result Bool
in_bools (arr vs) = raised type_error
in_bools (obj fs) = raised type_error
in_bools (bool b) = ok true
in_bools (int (pos n)) = ok (leb n 1)
in_bools _ = ok false
