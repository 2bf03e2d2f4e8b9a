-- ===== src/Prewrite/Capture/Complete.antt =====
-- What `capture_canonical_state` of src/candidate_transaction_prewrite_arm.py has read.
use technology_library_inges.Base.{
  String, ◌≡◌, refl, ap, true, Option, List, [], ◌∷◌, ◌++◌, str_eq, str_eq→eq, str_eq_refl,
  contains, contains-append, contains-sorted_set, Bool-cases, inl, inr, arith,
}
use technology_library_inges.Storage.{Bytes}
use technology_library_inges.Json.{Value, get, is_dict, is_str, str, text_of}
use technology_library_inges.Prewrite.Capture.{
  recall, read_all, capture, affected_paths, targets_of, text_target,
}

recall-read_all :
    (reader : String → Option Bytes) (paths : List String) (path : String)
    → contains paths path ≡ true
    → recall (read_all reader paths) path ≡ reader path
unfolding recall read_all
recall-read_all reader [] path h = cc
recall-read_all reader (p ∷ paths) path h = elim (Bool-cases (str_eq p path)) [
  | inl same ↦ rw same (ap reader (str_eq→eq p path same))
  | inr differ ↦
      rw differ
        (recall-read_all reader paths path (ground (arith, str_eq→eq path p, str_eq_refl p)))
]

pub recall-index :
    (reader : String → Option Bytes) (items : List Value) (path : String)
    → contains (affected_paths items) path ≡ true
    → recall (capture reader items) path ≡ reader path
unfolding capture
recall-index reader items path h = recall-read_all reader _ path (
    rw (contains-sorted_set (affected_paths items ++ targets_of items) path)
      (rw (contains-append (affected_paths items) (targets_of items) path) (rw h refl)))

pub recall-target :
    (reader : String → Option Bytes) (items : List Value) (path : String)
    → contains (targets_of items) path ≡ true
    → recall (capture reader items) path ≡ reader path
unfolding capture
recall-target reader items path h = recall-read_all reader _ path (
    rw (contains-sorted_set (affected_paths items ++ targets_of items) path)
      (rw (contains-append (affected_paths items) (targets_of items) path) (ground (arith, h))))

text_target-has :
    (v : Value) (rest : List String)
    → is_str v ≡ true
    → contains (text_target v ++ rest) (text_of v) ≡ true
unfolding text_target text_of
text_target-has (str target) rest h = ground (arith, str_eq_refl target)
text_target-has v rest h = cc

-- The first item's target, and those of the later items.
pub targets_of-first :
    (item : Value) (items : List Value)
    → is_dict item ≡ true
    → is_str (get "target_path" item) ≡ true
    → contains (targets_of (item ∷ items)) (text_of (get "target_path" item)) ≡ true
unfolding targets_of
targets_of-first item items d named =
    rw d (text_target-has (get "target_path" item) (targets_of items) named)

pub targets_of-later :
    (item : Value) (items : List Value) (path : String)
    → contains (targets_of items) path ≡ true
    → contains (targets_of (item ∷ items)) path ≡ true
unfolding targets_of
targets_of-later item items path h = elim (Bool-cases (is_dict item)) [
  | inl d ↦ rw d (
      rw (contains-append (text_target (get "target_path" item)) (targets_of items) path)
        (ground (arith, h)))
  | inr d ↦ rw d h
]
