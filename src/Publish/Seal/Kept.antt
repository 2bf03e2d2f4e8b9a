-- ===== src/Publish/Seal/Kept.antt =====
-- What `bind_expected_post_hashes` of src/candidate_controlled_publish.py adds to a journal, and what it
-- keeps.
use technology_library_inges.Base.{
  Bool, String, str_eq, str_eq_refl, ◌≡◌, refl, sym, ap, ◌∙◌, subst, true, false, Option, none,
  some, List, [], ◌∷◌, ◌++◌, Result, ok, raised, >>=-ok, ok-injective,
}
use technology_library_inges.Json.{
  Value, str, arr, obj, get, get-set, index, index-get, index-set, set_key, set_key-is_dict,
  is_dict, list_items, items_list-list_items, text_of,
}
use technology_library_inges.Storage.{Bytes, Storage, Sha256}
use technology_library_inges.Recovery.Journal.{Row, keyed, rows_of, row_path, existed_before}
use technology_library_inges.Transaction.Engine.{items_at}
use technology_library_inges.Transaction.Indexes.{IndexBuilder}
use technology_library_inges.Prewrite.Arm.Persisted.{Listed}
use technology_library_inges.Publish.Seal.{
  content_of, seal_row, sealed_rows, seal_rows, rows_at, seal_group, sealed_items, seal,
}

target_apart : str_eq "after_sha256" "target_path" ≡ false
unfolding str_eq
target_apart = refl

path_apart : str_eq "after_sha256" "path" ≡ false
unfolding str_eq
path_apart = refl

groups_apart : str_eq "items" "indexes" ≡ false
unfolding str_eq
groups_apart = refl

indexes_apart : str_eq "indexes" "items" ≡ false
unfolding str_eq
indexes_apart = refl

-- Two lists of rows, pair by pair.
abbrev pub Pairs : (Row → Row → Type 0) → List Row → List Row → Type 0
Pairs R [] [] = Unit
Pairs R (x ∷ xs) (y ∷ ys) = R x y × Pairs R xs ys
Pairs R _ _ = ⊥

Pairs-append :
    (R : Row → Row → Type 0) (xs ys xs' ys' : List Row)
    → Pairs R xs xs'
    → Pairs R ys ys'
    → Pairs R (xs ++ ys) (xs' ++ ys')
Pairs-append R [] ys [] ys' p q = q
Pairs-append R (x ∷ xs) ys (x' ∷ xs') ys' (p, ps) q = (p, Pairs-append R xs ys xs' ys' ps q)
Pairs-append R [] ys (x' ∷ xs') ys' p q = absurd p
Pairs-append R (x ∷ xs) ys [] ys' p q = absurd p

module _ (sha256 : Sha256) (predicted : String → Option Bytes) where
  -- The sealed row names the digest of what its path will hold, and tells the rest as before.
  abbrev pub Seals : Row → Row → Type 0
  Seals row row' =
      ((b : Bytes) × (predicted (row_path row) ≡ some b)
        × (get "after_sha256" row'.1 ≡ str (sha256 b)))
      × (row_path row' ≡ row_path row)
      × (existed_before row' ≡ existed_before row)
      × (get "snapshot_path" row'.1 ≡ get "snapshot_path" row.1)

  index-is_dict : (k : String) (d v : Value) → index k d ≡ ok v → is_dict d ≡ true
  unfolding index
  index-is_dict k (obj fs) v h = refl
  index-is_dict k d v h = cc

  set_key-Seals :
      (key : String) (row : Value) (b : Bytes)
      → str_eq "after_sha256" key ≡ false
      → is_dict row ≡ true
      → predicted (row_path (key, row)) ≡ some b
      → Seals (key, row) (key, set_key "after_sha256" (str (sha256 b)) row)
  unfolding row_path existed_before str_eq
  set_key-Seals key row b apart d found =
      let v = str (sha256 b) in
      (
        (b, found, get-set "after_sha256" "after_sha256" v row d),
        rw (get-set "after_sha256" key v row d) (rw apart refl),
        rw (get-set "after_sha256" "existed_before" v row d) refl,
        rw (get-set "after_sha256" "snapshot_path" v row d) refl,
      )

  row_path_lem : (key : String) (row : Value) → row_path (key, row) ≡ text_of (get key row)
  unfolding row_path
  row_path_lem key row = refl

  module _ (S : Storage) (B : IndexBuilder) where
    content_of-found :
        (v : Value) (b : Bytes)
        → content_of S sha256 B predicted v ≡ ok (some b)
        → predicted (text_of v) ≡ some b
    unfolding content_of text_of
    content_of-found (str path) b h = ok-injective h
    content_of-found v b h = cc

    -- A sealed row in front of sealed rows.
    sealed_rows-true :
        (row : Value) (content : Option Bytes) (rows rows' : List Value)
        (later : Result (List Value × Bool))
        → sealed_rows S sha256 B (seal_row S sha256 B row content) row rows later ≡ ok (rows', true)
        → (b : Bytes) × (more : List Value) × (content ≡ some b)
          × (later ≡ ok (more, true))
          × (set_key "after_sha256" (str (sha256 b)) row ∷ more ≡ rows')
    unfolding sealed_rows seal_row
    sealed_rows-true row none rows rows' later h =
        cc (ap (λ (x : List Value × Bool). x.1) (ok-injective h))
    sealed_rows-true row (some b) rows rows' (raised x) h = cc
    sealed_rows-true row (some b) rows rows' (ok (more, true)) h =
        (b, more, refl, refl, ap (λ (x : List Value × Bool). x.0) (ok-injective h))
    sealed_rows-true row (some b) rows rows' (ok (more, false)) h =
        cc (ap (λ (x : List Value × Bool). x.1) (ok-injective h))

    seal_rows-Seals :
        (key : String) (rows rows' : List Value)
        → str_eq "after_sha256" key ≡ false
        → seal_rows S sha256 B predicted key rows ≡ ok (rows', true)
        → Pairs Seals (keyed key rows) (keyed key rows')
    unfolding seal_rows
    seal_rows-Seals key [] rows' apart h =
        subst (λ (xs : List Value). Pairs Seals [] (keyed key xs))
          (ap (λ (x : List Value × Bool). x.0) (ok-injective h)) tt
    seal_rows-Seals key (row ∷ rows) rows' apart h =
        let (path, at, h1) = >>=-ok (index key row) _ h in
        let (content, found, h2) = >>=-ok (content_of S sha256 B predicted path) _ h1 in
        let (b, more, is, later, whole) = sealed_rows-true row content rows rows' _ h2 in
        let here : predicted (row_path (key, row)) ≡ some b =
          rw (row_path_lem key row, index-get key row path at)
            (content_of-found path b (found ∙ ap ok is)) in
        subst (λ (xs : List Value). Pairs Seals (keyed key (row ∷ rows)) (keyed key xs)) whole
          (
            set_key-Seals key row b apart (index-is_dict key row path at) here,
            seal_rows-Seals key rows more apart later,
          )

    rows_at-items_at :
        (group : String) (journal v : Value) (rows : List Value)
        → index group journal ≡ ok v
        → rows_at S sha256 B v ≡ ok rows
        → items_at group journal ≡ ok rows
    unfolding items_at rows_at
    rows_at-items_at group journal (arr vs) rows at h = rw at h
    rows_at-items_at group journal v rows at h = cc

    -- A group without missing content: its list is replaced by the sealed one.
    seal_group-Pairs :
        (group key : String) (journal journal' : Value) (rows : List Value)
        → str_eq "after_sha256" key ≡ false
        → items_at group journal ≡ ok rows
        → seal_group S sha256 B predicted group key journal ≡ ok (journal', true)
        → (rows' : List Value) × (journal' ≡ set_key group (arr (list_items rows')) journal)
          × Pairs Seals (keyed key rows) (keyed key rows')
    unfolding seal_group
    seal_group-Pairs group key journal journal' rows apart its h =
        let (v, at, h1) = >>=-ok (index group journal) _ h in
        let (found, listed, h2) = >>=-ok (rows_at S sha256 B v) _ h1 in
        let ((rows', complete), sealed, h3) =
          >>=-ok (seal_rows S sha256 B predicted key found) _ h2 in
        let same : found ≡ rows =
          ok-injective (sym (rows_at-items_at group journal v found at listed) ∙ its) in
        let all : complete ≡ true = ap (λ (x : Value × Bool). x.1) (ok-injective h3) in
        (
          rows',
          sym (ap (λ (x : Value × Bool). x.0) (ok-injective h3)),
          seal_rows-Seals key rows rows' apart
              (rw (← same) (sealed ∙ ap (λ (c : Bool). ok (rows', c)) all)),
        )

    sealed_items-true :
        (mid : Value) (complete : Bool) (journal' : Value)
        → sealed_items S sha256 B predicted (mid, complete) ≡ ok (journal', true)
        → (complete ≡ true)
          × (seal_group S sha256 B predicted "indexes" "path" mid ≡ ok (journal', true))
    unfolding sealed_items
    sealed_items-true mid true journal' h = (refl, h)
    sealed_items-true mid false journal' h = cc (ap (λ (x : Value × Bool). x.1) (ok-injective h))

    items_at-set_key :
        (group : String) (rows : List Value) (journal : Value)
        → is_dict journal ≡ true
        → items_at group (set_key group (arr (list_items rows)) journal) ≡ ok rows
    unfolding items_at
    items_at-set_key group rows journal d =
        rw (index-set group group (arr (list_items rows)) journal d)
          (rw (str_eq_refl group) (ap ok (items_list-list_items rows)))

    items_at-other :
        (group other : String) (v journal : Value)
        → str_eq group other ≡ false
        → is_dict journal ≡ true
        → items_at other (set_key group v journal) ≡ items_at other journal
    unfolding items_at
    items_at-other group other v journal apart d =
        rw (index-set group other v journal d) (rw apart refl)

    replaced_rows :
        (journal : Value) (items indexes : List Value)
        → is_dict journal ≡ true
        → rows_of (
            set_key "indexes"
              (arr (list_items indexes))
              (set_key "items" (arr (list_items items)) journal))
          ≡ keyed "target_path" items ++ keyed "path" indexes
    unfolding rows_of str_eq
    replaced_rows journal items indexes d =
        let mid = set_key "items" (arr (list_items items)) journal in
        let mid_dict = set_key-is_dict "items" (arr (list_items items)) journal d in
        rw
          (
            get-set "indexes" "items" (arr (list_items indexes)) mid mid_dict,
            get-set "indexes" "indexes" (arr (list_items indexes)) mid mid_dict,
            get-set "items" "items" (arr (list_items items)) journal d,
            items_list-list_items items,
            items_list-list_items indexes,
          )
          refl

    replaced-Listed :
        (journal : Value) (items indexes : List Value)
        → is_dict journal ≡ true
        → Listed
            (set_key "indexes"
              (arr (list_items indexes))
              (set_key "items" (arr (list_items items)) journal))
            items
            indexes
    replaced-Listed journal items indexes d =
        let mid = set_key "items" (arr (list_items items)) journal in
        let mid_dict : is_dict mid ≡ true =
          set_key-is_dict "items" (arr (list_items items)) journal d in
        (
          set_key-is_dict "indexes" (arr (list_items indexes)) mid mid_dict,
          items_at-other "indexes" "items" (arr (list_items indexes)) mid indexes_apart mid_dict
              ∙ items_at-set_key "items" items journal d,
          items_at-set_key "indexes" indexes mid mid_dict,
          replaced_rows journal items indexes d,
        )

    -- The lists of a journal that has none of its content missing: row by row, the path, what was
    -- there and the snapshot are kept, and the digest of the predicted content is added.
    pub seal-Listed :
        (journal journal' : Value) (items indexes : List Value)
        → Listed journal items indexes
        → seal S sha256 B predicted journal ≡ ok (journal', true)
        → (items' : List Value) × (indexes' : List Value) × Listed journal' items' indexes'
          × Pairs Seals
              (keyed "target_path" items ++ keyed "path" indexes)
              (keyed "target_path" items' ++ keyed "path" indexes')
    unfolding seal
    seal-Listed journal journal' items indexes (d, its_items, its_indexes, its_rows) h =
        let ((mid, complete), first, h1) =
          >>=-ok (seal_group S sha256 B predicted "items" "target_path" journal) _ h in
        let (whole, second) = sealed_items-true mid complete journal' h1 in
        let (items', mid_is, pairs) =
          seal_group-Pairs "items" "target_path" journal mid items target_apart its_items
            (first ∙ ap (λ (c : Bool). ok (mid, c)) whole) in
        let mid_dict : is_dict mid ≡ true =
          rw mid_is (set_key-is_dict "items" (arr (list_items items')) journal d) in
        let mid_indexes : items_at "indexes" mid ≡ ok indexes = rw mid_is (
          items_at-other "items" "indexes" (arr (list_items items')) journal groups_apart d
          ∙ its_indexes) in
        let (indexes', last_is, pairs') =
          seal_group-Pairs "indexes" "path" mid journal' indexes path_apart mid_indexes second in
        (
          items',
          indexes',
          subst (λ (j : Value). Listed j items' indexes')
              (sym (last_is ∙ ap (set_key "indexes" (arr (list_items indexes'))) mid_is))
              (replaced-Listed journal items' indexes' d),
          Pairs-append Seals _ _ _ _ pairs pairs',
        )
