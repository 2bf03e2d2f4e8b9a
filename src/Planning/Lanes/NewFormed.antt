-- ===== src/Planning/Lanes/NewFormed.antt =====
-- What the items of the lane of new records of src/candidate_transaction_plan.py are like.
use mathlib.Core.Option.{some-injective}
use technology_library_inges.Base.{
  ℕ, suc, String, ◌≡◌, refl, ap, ◌∙◌, subst, Bool, true, false, ◌&&◌, Option, none, some, List, [],
  ◌∷◌, ◌++◌, All, All-append, str_eq, if◌then◌else◌, ok, >>=-ok, ok-injective, Bool-cases, inl, inr,
}
use technology_library_inges.Json.{
  Value, null, bool, int, str, arr, obj, get, items_list, is_dict, is_null, is_false, eq_str,
  eq_nat, in_set,
}
use technology_library_inges.Planning.Names.{Parsed, parsed, invalid}
use technology_library_inges.Planning.Manifest.{
  ManifestItem, parse_candidate_manifest, derive_target,
}
use technology_library_inges.Planning.Manifest.Formed.{Formed, parse_candidate_manifest-Formed}
use technology_library_inges.Planning.Items.{PlanItem}
use technology_library_inges.Planning.Lanes.{
  by_target, Lane, matched_row, found_row, target_row, action_row, new_row, join, new_rows,
  lane_result, lane_items, after_manifest, refuse, validate_new_lane,
}
use technology_library_inges.Planning.Lanes.Formed.{PlanFormed, manifest-PlanFormed}

later-Formed :
    (first : ManifestItem) (target : String) (item : ManifestItem) (later : Option ManifestItem)
    → ((found : ManifestItem) → later ≡ some found → Formed found)
    → Formed first
    → (elim later [
      | some found ↦ some found
      | none ↦ if str_eq (derive_target first) target then some first else none
    ])
      ≡ some item
    → Formed item
later-Formed first target item (some found) known one h = known item h
later-Formed first target item none known one h =
    elim (Bool-cases (str_eq (derive_target first) target)) [
      | inl same ↦ subst Formed (some-injective _ _ (rw same at h)) one
      | inr other ↦ cc (rw other at h)
    ]

by_target-Formed :
    (items : List ManifestItem) (target : String) (item : ManifestItem)
    → All Formed items
    → by_target items target ≡ some item
    → Formed item
unfolding by_target
by_target-Formed [] target item all h = cc
by_target-Formed (first ∷ items) target item (one, all) h =
    later-Formed first target item (by_target items target)
      (λ found. by_target-Formed items target found all) one h

abbrev InLane : Lane → Type 0
InLane lane = All PlanFormed lane.0

found-PlanFormed :
    (i : ℕ) (seen : List String) (raw : Value) (create : Bool) (target : String)
    (found : Option ManifestItem)
    → ((item : ManifestItem) → found ≡ some item → Formed item)
    → All PlanFormed (found_row i seen raw create target found).0
unfolding found_row matched_row
found-PlanFormed i seen raw create target none known = tt
found-PlanFormed i seen raw create target (some item) known =
    (manifest-PlanFormed create item (known item refl), tt)

target-PlanFormed :
    (i : ℕ) (seen : List String) (manifest : List ManifestItem) (raw : Value) (create : Bool)
    (v : Value)
    → All Formed manifest
    → All PlanFormed (target_row i seen manifest raw create v).0
unfolding target_row
target-PlanFormed i seen manifest raw create (str target) all =
    found-PlanFormed i seen raw create target (by_target manifest target)
      (λ item. by_target-Formed manifest target item all)
target-PlanFormed i seen manifest raw create null all = tt
target-PlanFormed i seen manifest raw create (bool b) all = tt
target-PlanFormed i seen manifest raw create (int n) all = tt
target-PlanFormed i seen manifest raw create (arr vs) all = tt
target-PlanFormed i seen manifest raw create (obj fs) all = tt

action-PlanFormed :
    (i : ℕ) (seen : List String) (manifest : List ManifestItem) (raw : Value) (allowed : Bool)
    → All Formed manifest
    → All PlanFormed (action_row i seen manifest raw allowed).0
unfolding action_row
action-PlanFormed i seen manifest raw true all =
    target-PlanFormed i seen manifest raw _ (get "target_path" raw) all
action-PlanFormed i seen manifest raw false all = tt

row-PlanFormed :
    (i : ℕ) (seen : List String) (manifest : List ManifestItem) (raw : Value) (lane : Lane)
    → All Formed manifest
    → new_row i seen manifest raw ≡ ok lane
    → All PlanFormed lane.0
unfolding new_row
row-PlanFormed i seen manifest raw lane all h = elim (Bool-cases (is_dict raw)) [
  | inl dict ↦
      let (allowed, _, after) =
        >>=-ok (in_set (get "action" raw) ("CREATE" ∷ "UNCHANGED" ∷ [])) _ (rw dict at h) in
      subst InLane (ok-injective after) (action-PlanFormed i seen manifest raw allowed all)
  | inr other ↦ subst InLane (ok-injective (rw other at h)) tt
]

join-PlanFormed :
    (a b : Lane) → All PlanFormed a.0 → All PlanFormed b.0 → All PlanFormed (join a b).0
unfolding join
join-PlanFormed (xs, c, s) (ys, d, t) p q = All-append PlanFormed xs ys p q

rows-PlanFormed :
    (i : ℕ) (seen : List String) (manifest : List ManifestItem) (raws : List Value) (lane : Lane)
    → All Formed manifest
    → new_rows i seen manifest raws ≡ ok lane
    → All PlanFormed lane.0
unfolding new_rows
rows-PlanFormed i seen manifest [] lane all h = subst InLane (ok-injective h) tt
rows-PlanFormed i seen manifest (raw ∷ raws) lane all h =
    let (here, first, after) = >>=-ok (new_row i seen manifest raw) _ h in
    let (later, second, joined) =
      >>=-ok (new_rows (suc i) (here.2 ++ seen) manifest raws) _ after in
    subst InLane (ok-injective joined) (
      join-PlanFormed here later (row-PlanFormed i seen manifest raw here all first)
        (rows-PlanFormed (suc i) (here.2 ++ seen) manifest raws later all second))

refused-PlanFormed :
    (code : String) (items : List PlanItem) (codes : List String)
    → refuse code ≡ ok (items, codes)
    → All PlanFormed items
unfolding refuse
refused-PlanFormed code items codes h =
    subst (All PlanFormed) (ap (λ (a : List PlanItem × List String). a.0) (ok-injective h)) tt

items-PlanFormed :
    (manifest : List ManifestItem) (v : Value) (items : List PlanItem) (codes : List String)
    → All Formed manifest
    → lane_items manifest v ≡ ok (items, codes)
    → All PlanFormed items
unfolding lane_items lane_result
items-PlanFormed manifest (arr vs) items codes all h =
    let (lane, rows, after) = >>=-ok (new_rows 0 [] manifest (items_list vs)) _ h in
    subst (All PlanFormed) (ap (λ (a : List PlanItem × List String). a.0) (ok-injective after))
      (rows-PlanFormed 0 [] manifest (items_list vs) lane all rows)
items-PlanFormed manifest null items codes all h =
    refused-PlanFormed "new_validation_items" items codes h
items-PlanFormed manifest (bool b) items codes all h =
    refused-PlanFormed "new_validation_items" items codes h
items-PlanFormed manifest (int n) items codes all h =
    refused-PlanFormed "new_validation_items" items codes h
items-PlanFormed manifest (str s) items codes all h =
    refused-PlanFormed "new_validation_items" items codes h
items-PlanFormed manifest (obj fs) items codes all h =
    refused-PlanFormed "new_validation_items" items codes h

manifest-lane-PlanFormed :
    (validation : Value) (manifest : Parsed (List ManifestItem)) (items : List PlanItem)
    (codes : List String)
    → ((known : List ManifestItem) → manifest ≡ parsed known → All Formed known)
    → after_manifest validation manifest ≡ ok (items, codes)
    → All PlanFormed items
unfolding after_manifest
manifest-lane-PlanFormed validation (invalid code) items codes all h =
    refused-PlanFormed _ items codes h
manifest-lane-PlanFormed validation (parsed manifest) items codes all h =
    elim (Bool-cases (eq_nat (get "schema_version" validation) 1)) [
      | inr bad ↦ refused-PlanFormed _ items codes (rw bad at h)
      | inl schema ↦ elim (Bool-cases (eq_str (get "validate_version" validation) "0.1.0")) [
        | inr bad ↦ refused-PlanFormed _ items codes (rw bad at (rw schema at h))
        | inl version ↦ elim (Bool-cases (is_false (get "canonical_write_performed" validation))) [
          | inr bad ↦ refused-PlanFormed _ items codes (rw bad at (rw version at (rw schema at h)))
          | inl flag ↦
              items-PlanFormed manifest (get "items" validation) items codes (all manifest refl)
                (rw flag at (rw version at (rw schema at h)))
        ]
      ]
    ]

pub validate_new_lane-PlanFormed :
    (manifest validation : Value) (items : List PlanItem) (codes : List String)
    → validate_new_lane manifest validation ≡ ok (items, codes)
    → All PlanFormed items
unfolding validate_new_lane
validate_new_lane-PlanFormed manifest validation items codes h =
    elim (Bool-cases (is_null manifest && is_null validation)) [
      | inl missing ↦
          subst (All PlanFormed)
            (ap (λ (a : List PlanItem × List String). a.0) (ok-injective (rw missing at h))) tt
      | inr given ↦ elim (Bool-cases (is_dict manifest)) [
        | inr bad ↦ refused-PlanFormed _ items codes (rw bad at (rw given at h))
        | inl dict ↦ elim (Bool-cases (is_dict validation)) [
          | inr bad ↦ refused-PlanFormed _ items codes (rw bad at (rw dict at (rw given at h)))
          | inl dict' ↦
              let (parse, known, after) =
                >>=-ok (parse_candidate_manifest manifest) _
                  (rw dict' at (rw dict at (rw given at h))) in
              manifest-lane-PlanFormed validation parse items codes
                (λ records same.
                  parse_candidate_manifest-Formed manifest records (known ∙ ap ok same))
                after
        ]
      ]
    ]
