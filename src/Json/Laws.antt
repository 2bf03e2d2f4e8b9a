-- ===== src/Json/Laws.antt =====
-- Laws of reading and writing keys, and of equality with a text.
use mathlib.Core.Option.{some-injective}
use technology_library_inges.Base.{
  ◌∙◌, String, ◌≡◌, refl, ap, true, false, Option, none, some, arith, str_eq, str_eq→eq, eq→str_eq,
  if◌then◌else◌, ◌≢◌, ok, Result, List, [], ◌∷◌, ◌++◌, Bool-cases, inl, inr, &&-left, &&-right,
  ◌==◌,
}
use technology_library_inges.Json.Document.{
  Value, null, bool, int, str, arr, obj, Items, cons, nil, Fields, end, field, find_field, get,
  index, set_field, items_list, list_items, set_key, update, eq_str, nonempty_str, is_dict, is_true,
  is_false,
}
use technology_library_inges.Json.Equality.{value_eq, fields_in, field_count}

pub find-set :
    (k j : String) (v : Value) (fs : Fields)
    → find_field j (set_field k v fs) ≡ (if str_eq k j then some v else find_field j fs)
unfolding find_field set_field
find-set k j v end = refl
find-set k j v (field i w fs) = ground (
  arith,
  str_eq→eq i k,
  str_eq→eq i j,
  str_eq→eq k j,
  eq→str_eq i j,
  eq→str_eq k j,
  eq→str_eq i k,
  find-set k j v fs,
)

-- Reading a key of a dict after a write.
pub get-set :
    (k j : String) (v d : Value)
    → is_dict d ≡ true
    → get j (set_key k v d) ≡ (if str_eq k j then v else get j d)
unfolding get set_key
get-set k j v (obj fs) h = ground (arith, find-set k j v fs)
get-set k j v null h = cc
get-set k j v (bool b) h = cc
get-set k j v (int n) h = cc
get-set k j v (str s) h = cc
get-set k j v (arr vs) h = cc

pub set_key-is_dict : (k : String) (v d : Value) → is_dict d ≡ true → is_dict (set_key k v d) ≡ true
unfolding set_key
set_key-is_dict k v (obj fs) h = refl
set_key-is_dict k v null h = h
set_key-is_dict k v (bool b) h = h
set_key-is_dict k v (int n) h = h
set_key-is_dict k v (str s) h = h
set_key-is_dict k v (arr vs) h = h

pub eq_str→eq : (v : Value) (s : String) → eq_str v s ≡ true → v ≡ str s
eq_str→eq (str t) s h = ap str (str_eq→eq t s h)
eq_str→eq null s h = cc
eq_str→eq (bool b) s h = cc
eq_str→eq (int n) s h = cc
eq_str→eq (arr vs) s h = cc
eq_str→eq (obj fs) s h = cc

pub value_eq→eq : (v : Value) (s : String) → value_eq v (str s) ≡ true → v ≡ str s
unfolding value_eq
value_eq→eq (str t) s h = ap str (str_eq→eq t s h)
value_eq→eq null s h = cc
value_eq→eq (bool b) s h = cc
value_eq→eq (int n) s h = cc
value_eq→eq (arr vs) s h = cc
value_eq→eq (obj fs) s h = cc

pub nonempty_str→eq : (v : Value) → nonempty_str v ≡ true → (s : String) × (v ≡ str s) × (s ≢ "")
nonempty_str→eq (str s) h = (s, refl, λ e. ground (arith, eq→str_eq s "" e))
nonempty_str→eq null h = cc
nonempty_str→eq (bool b) h = cc
nonempty_str→eq (int n) h = cc
nonempty_str→eq (arr vs) h = cc
nonempty_str→eq (obj fs) h = cc

pub is_true→eq : (v : Value) → is_true v ≡ true → v ≡ bool true
is_true→eq (bool b) h = ap bool h
is_true→eq null h = cc
is_true→eq (int n) h = cc
is_true→eq (str s) h = cc
is_true→eq (arr vs) h = cc
is_true→eq (obj fs) h = cc

pub is_false→eq : (v : Value) → is_false v ≡ true → v ≡ bool false
is_false→eq (bool true) h = cc
is_false→eq (bool false) h = refl
is_false→eq null h = cc
is_false→eq (int n) h = cc
is_false→eq (str s) h = cc
is_false→eq (arr vs) h = cc
is_false→eq (obj fs) h = cc

-- A key that is there is read alike by `d[k]` and `d.get(k)`.
pub index-get : (k : String) (d v : Value) → index k d ≡ ok v → get k d ≡ v
unfolding index get
index-get k (obj fs) v h = ground arith
index-get k null v h = cc
index-get k (bool b) v h = cc
index-get k (int n) v h = cc
index-get k (str s) v h = cc
index-get k (arr vs) v h = cc

found_equal :
    (x : Value) (o : Option Value)
    → elim o [ none ↦ false | some w ↦ value_eq x w ] ≡ true
    → (w : Value) × (o ≡ some w) × (value_eq x w ≡ true)
found_equal x none h = cc
found_equal x (some w) h = (w, refl, h)

-- Equal dicts have equal values at the keys of the first one.
fields_in-find :
    (k : String) (fs gs : Fields) (v : Value)
    → fields_in fs gs ≡ true
    → find_field k fs ≡ some v
    → (w : Value) × (find_field k gs ≡ some w) × (value_eq v w ≡ true)
unfolding value_eq find_field
fields_in-find k end gs v h e = cc
fields_in-find k (field j x fs) gs v h e = elim (Bool-cases (str_eq j k)) [
  | inl same ↦
      let (w, found, equal) = found_equal x (find_field j gs) (&&-left _ (fields_in fs gs) h) in
      let e' : x ≡ v = some-injective x v (rw same at e) in
      (w, rw (str_eq→eq j k same) at found, rw e' at equal)
  | inr differ ↦ fields_in-find k fs gs v (&&-right _ (fields_in fs gs) h) (rw differ at e)
]

index-find :
    (k : String) (fs : Fields) (v : Value) → index k (obj fs) ≡ ok v → find_field k fs ≡ some v
unfolding index
index-find k fs v h = ground arith

get-find : (k : String) (fs : Fields) (v : Value) → find_field k fs ≡ some v → get k (obj fs) ≡ v
unfolding get
get-find k fs v h = ground arith

-- So the value of a key of the one is equal to what the other one gives for it.
pub value_eq-get :
    (k : String) (d e v : Value)
    → is_dict d ≡ true
    → value_eq d e ≡ true
    → index k d ≡ ok v
    → value_eq v (get k e) ≡ true
unfolding value_eq
value_eq-get k (obj fs) (obj gs) v is_obj h i =
    let (w, found, equal) =
      fields_in-find k fs gs v (&&-right (field_count fs == field_count gs) _ h)
        (index-find k fs v i) in
    rw (get-find k gs w found) equal
value_eq-get k (obj fs) e v is_obj h i = cc
value_eq-get k d e v is_obj h i = cc

pub update-append :
    (d : Value) (xs ys : List (String × Value)) → update d (xs ++ ys) ≡ update (update d xs) ys
unfolding update
update-append d [] ys = refl
update-append d ((k, v) ∷ xs) ys = update-append (set_key k v d) xs ys

pub update-is_dict :
    (d : Value) (xs : List (String × Value)) → is_dict d ≡ true → is_dict (update d xs) ≡ true
unfolding update
update-is_dict d [] h = h
update-is_dict d ((k, v) ∷ xs) h = update-is_dict (set_key k v d) xs (set_key-is_dict k v d h)

-- The value of a key after a run of writes.
abbrev pub get_after : String → Value → List (String × Value) → Value
get_after j w [] = w
get_after j w ((k, v) ∷ rest) = get_after j (if str_eq k j then v else w) rest

pub get-update :
    (j : String) (d : Value) (xs : List (String × Value))
    → is_dict d ≡ true
    → get j (update d xs) ≡ get_after j (get j d) xs
unfolding update
get-update j d [] h = refl
get-update j d ((k, v) ∷ xs) h =
    get-update j (set_key k v d) xs (set_key-is_dict k v d h)
    ∙ ap (λ w. get_after j w xs) (get-set k j v d h)

-- Subscripting a dict after a write, and after a run of writes.
pub index-set :
    (k j : String) (v d : Value)
    → is_dict d ≡ true
    → index j (set_key k v d) ≡ (if str_eq k j then ok v else index j d)
unfolding index set_key
index-set k j v (obj fs) h = ground (arith, find-set k j v fs)
index-set k j v null h = cc
index-set k j v (bool b) h = cc
index-set k j v (int n) h = cc
index-set k j v (str s) h = cc
index-set k j v (arr vs) h = cc

abbrev pub index_after : String → Result Value → List (String × Value) → Result Value
index_after j r [] = r
index_after j r ((k, v) ∷ rest) = index_after j (if str_eq k j then ok v else r) rest

pub index-update :
    (j : String) (d : Value) (xs : List (String × Value))
    → is_dict d ≡ true
    → index j (update d xs) ≡ index_after j (index j d) xs
unfolding update
index-update j d [] h = refl
index-update j d ((k, v) ∷ xs) h =
    index-update j (set_key k v d) xs (set_key-is_dict k v d h)
    ∙ ap (λ r. index_after j r xs) (index-set k j v d h)

pub items_list-list_items : (vs : List Value) → items_list (list_items vs) ≡ vs
items_list-list_items [] = refl
items_list-list_items (v ∷ vs) = ap (λ ws. v ∷ ws) (items_list-list_items vs)

pub list_items-items_list : (vs : Items) → list_items (items_list vs) ≡ vs
list_items-items_list nil = refl
list_items-items_list (cons v vs) = ap (cons v) (list_items-items_list vs)
