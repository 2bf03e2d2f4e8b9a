-- ===== src/Json/Equality.antt =====
-- `==`, truth and `str()` of JSON values.
use technology_library_inges.Base.{
  ℕ, zero, suc, ◌+◌, String, ◌<>◌, ◌≡◌, refl, Bool, true, false, not, ◌&&◌, none, some, ◌==◌,
  str_eq, if◌then◌else◌, decimal,
}
use technology_library_inges.Json.Document.{
  ℤ, pos, negsuc, Value, null, bool, int, str, arr, obj, Items, nil, cons, Fields, end, field,
  find_field,
}

-- `bool` is a subclass of `int`.
abbrev of_bool : Bool → ℕ
of_bool true = 1
of_bool false = 0

abbrev int_eq : ℤ → ℤ → Bool
int_eq (pos m) (pos n) = m == n
int_eq (negsuc m) (negsuc n) = m == n
int_eq _ _ = false

abbrev pub field_count : Fields → ℕ
field_count end = 0
field_count (field k v fs) = suc (field_count fs)

-- `a == b`. Two dicts are equal if they have as many keys, and each key of the one has an equal
-- value in the other, in whatever order.
unfoldable mutual
  pub value_eq : Value → Value → Bool
  value_eq null null = true
  value_eq (bool a) (bool b) = of_bool a == of_bool b
  value_eq (bool a) (int n) = int_eq (pos (of_bool a)) n
  value_eq (int m) (bool b) = int_eq m (pos (of_bool b))
  value_eq (int m) (int n) = int_eq m n
  value_eq (str s) (str t) = str_eq s t
  value_eq (arr vs) (arr ws) = items_eq vs ws
  value_eq (obj fs) (obj gs) = field_count fs == field_count gs && fields_in fs gs
  value_eq _ _ = false

  pub items_eq : Items → Items → Bool
  items_eq nil nil = true
  items_eq (cons v vs) (cons w ws) = value_eq v w && items_eq vs ws
  items_eq _ _ = false

  pub fields_in : Fields → Fields → Bool
  fields_in end gs = true
  fields_in (field k v fs) gs =
      elim (find_field k gs) [ none ↦ false | some w ↦ value_eq v w ] && fields_in fs gs

-- `bool(v)`
unfoldable pub truthy : Value → Bool
truthy null = false
truthy (bool b) = b
truthy (int (pos zero)) = false
truthy (int n) = true
truthy (str s) = not (str_eq s "")
truthy (arr nil) = false
truthy (arr vs) = true
truthy (obj end) = false
truthy (obj fs) = true

-- `str(v)`. Of a list or a dict only the brackets are kept: the program hands such a text to
-- tests of a path's first characters alone.
unfoldable pub text_of : Value → String
text_of null = "None"
text_of (bool true) = "True"
text_of (bool false) = "False"
text_of (int (pos n)) = decimal n
text_of (int (negsuc n)) = "-" <> decimal (n + 1)
text_of (str s) = s
text_of (arr vs) = "[]"
text_of (obj fs) = "{}"

-- `str(v or "")`
unfoldable pub text_or_empty : Value → String
unfolding truthy text_of
text_or_empty v = if truthy v then text_of v else ""

-- `str(v)`, if the program compares it: `f"{v}"`
test_value_eq :
    value_eq
      (obj (field "a" null (field "b" (bool true) end)))
      (obj (field "b" (int (pos 1)) (field "a" null end)))
    ≡ true
unfolding value_eq find_field str_eq
test_value_eq = refl
