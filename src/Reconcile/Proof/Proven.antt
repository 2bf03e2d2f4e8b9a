-- ===== src/Reconcile/Proof/Proven.antt =====
-- What holds when `proof_errors` of src/candidate_committed_reconciliation.py names no code.
use technology_library_inges.Base.{
  String, ◌≡◌, refl, ap, ◌∙◌, Bool, true, false, ◌&&◌, Option, none, some, List, [], ◌∷◌, All,
  contains, str_eq, plain, Passes, Passes-append, first_failure, first_failure-Passes, ok, >>=-ok,
  ok-injective, Bool-cases, inl, inr, arith,
}
use technology_library_inges.Json.{Value, str, get, is_dict, eq_str→eq, text_of}
use technology_library_inges.Storage.{Bytes, Sha256}
use technology_library_inges.Recovery.Journal.{Row, rows_of, row_path, list_of}
use technology_library_inges.Recovery.Journal.Rows.{DistinctAfter}
use technology_library_inges.Reconcile.Proof.{
  is_committed, is_receipt, has_inventory, key_text, has_digest, has_master, is_complete, is_bound,
  receipt_by_path, snapshot_checks, bound_checks, master_checks, receipt_checks, row_checks,
  rows_checks, inventory_checks, as_list, with_receipt, receipt_ok, proof_errors,
}

pub and_left : (a b : Bool) → (a && b) ≡ true → a ≡ true
and_left true b h = refl
and_left false b h = cc h

pub and_right : (a b : Bool) → (a && b) ≡ true → b ≡ true
and_right true b h = h
and_right false b h = cc h

module _ (sha256 : Sha256) (parse : Bytes → Option Value)
    (read_canonical read_private : String → Option Bytes) where
  -- The canonical file of a row has the digest that the journal has for it after the transaction.
  abbrev pub Holds : Row → Type 0
  Holds row =
      (bytes : Bytes) × (read_canonical (row_path row) ≡ some bytes)
      × (get "after_sha256" row.1 ≡ str (sha256 bytes))

  -- A record is in the receipt, with its digest, its action and its identifier.
  abbrev pub Receipted : Value → Row → Type 0
  Receipted receipt row =
      str_eq row.0 "target_path" ≡ true
      → is_bound row.1 (receipt_by_path (list_of (get "items" receipt)) (row_path row)) ≡ true

  found-digest :
      (current : Option Bytes) (expected : Value)
      → has_digest sha256 parse read_canonical read_private current expected ≡ true
      → (bytes : Bytes) × (current ≡ some bytes) × (expected ≡ str (sha256 bytes))
  unfolding has_digest
  found-digest none expected h = cc h
  found-digest (some bytes) expected h = (bytes, refl, eq_str→eq expected (sha256 bytes) h)

  bound-Receipted :
      (receipt : Value) (row : Row)
      → Passes (bound_checks sha256 parse read_canonical read_private receipt row)
      → Receipted receipt row
  unfolding bound_checks row_path key_text
  bound-Receipted receipt (key, entry) passes target = ok-injective ((rw target at passes).0)

  row-Holds :
      (run_root : String) (receipt : Value) (seen : List String) (row : Row)
      → Passes (row_checks sha256 parse read_canonical read_private run_root receipt seen row)
      → Holds row × Receipted receipt row × (contains seen (row_path row) ≡ false)
  unfolding row_checks row_path key_text
  row-Holds run_root receipt seen (key, entry) (safe, (new, (after, rest))) =
      let (front, masters) =
        Passes-append _
          (master_checks sha256 parse read_canonical read_private receipt (key, entry)) rest in
      let (front', bound) =
        Passes-append _ (bound_checks sha256 parse read_canonical read_private receipt (key, entry))
          front in
      let (snapshots, (canonical, _)) =
        Passes-append (snapshot_checks sha256 parse read_canonical read_private run_root entry) _
          front' in
      (
        found-digest (read_canonical (text_of (get key entry))) (get "after_sha256" entry)
            (ok-injective canonical),
        bound-Receipted receipt (key, entry) bound,
        ground (arith, ok-injective new),
      )

  rows-Hold :
      (run_root : String) (receipt : Value) (seen : List String) (rows : List Row)
      → Passes (rows_checks sha256 parse read_canonical read_private run_root receipt seen rows)
      → All Holds rows × All (Receipted receipt) rows × DistinctAfter seen rows
  unfolding rows_checks row_path key_text
  rows-Hold run_root receipt seen [] h = (tt, tt, tt)
  rows-Hold run_root receipt seen ((key, entry) ∷ rows) h =
      let (here, rest) =
        Passes-append
          (row_checks sha256 parse read_canonical read_private run_root receipt seen (key, entry)) _
          h in
      let (held, bound, new) = row-Holds run_root receipt seen (key, entry) here in
      let (helds, bounds, distinct) =
        rows-Hold run_root receipt (text_of (get key entry) ∷ seen) rows rest in
      ((held, helds), (bound, bounds), (new, distinct))

  -- The journal is committed by this receipt, and the canonical state is what both say.
  abbrev pub Proven : Value → Bytes → Type 0
  Proven journal raw =
      (is_committed journal ≡ true)
      × (get "receipt_sha256" journal ≡ str (sha256 raw))
      × ((receipt : Value) × (parse raw ≡ some receipt)
          × (is_receipt journal receipt ≡ true)
          × All Holds (rows_of journal)
          × All (Receipted receipt) (rows_of journal)
          × DistinctAfter [] (rows_of journal)
          × (has_master (rows_of journal) ≡ true))

  as_list-none : (failure : Option String) → as_list failure ≡ [] → failure ≡ none
  unfolding as_list
  as_list-none none h = refl
  as_list-none (some code) h = cc h

  inventory-Proven :
      (journal receipt : Value)
      → Passes (inventory_checks sha256 parse read_canonical read_private journal receipt)
      → All Holds (rows_of journal)
        × All (Receipted receipt) (rows_of journal)
        × DistinctAfter [] (rows_of journal)
        × (has_master (rows_of journal) ≡ true)
  unfolding inventory_checks is_complete
  inventory-Proven journal receipt passes =
      let (front, (complete, _)) =
        Passes-append _ (plain (is_complete journal receipt) _ ∷ []) passes in
      let (receipts, rows) =
        Passes-append (receipt_checks [] (list_of (get "items" receipt))) _ front in
      let (held, bound, distinct) =
        rows-Hold (key_text "run_root" journal) receipt [] (rows_of journal) rows in
      (held, bound, distinct, and_left _ _ (and_left _ _ (ok-injective complete)))

  receipt-Proven :
      (journal : Value) (parse_result : Option Value)
      → with_receipt sha256 parse read_canonical read_private journal parse_result ≡ ok []
      → (receipt : Value) × (parse_result ≡ some receipt)
        × (is_receipt journal receipt ≡ true)
        × All Holds (rows_of journal)
        × All (Receipted receipt) (rows_of journal)
        × DistinctAfter [] (rows_of journal)
        × (has_master (rows_of journal) ≡ true)
  unfolding with_receipt
  receipt-Proven journal none h = cc (ok-injective h)
  receipt-Proven journal (some receipt) h = elim (Bool-cases (is_receipt journal receipt)) [
    | inr bad ↦ cc (ok-injective (rw bad at h))
    | inl identified ↦ elim (Bool-cases (has_inventory journal receipt)) [
      | inr bad ↦ cc (ok-injective (rw bad at (rw identified at h)))
      | inl inventory ↦
          let (failure, checked, after) =
            >>=-ok
              (first_failure
                (inventory_checks sha256 parse read_canonical read_private journal receipt))
              (λ x. ok (as_list x)) (rw inventory at (rw identified at h)) in
          let clean = as_list-none failure (ok-injective after) in
          let (held, bound, distinct, master) =
            inventory-Proven journal receipt (first_failure-Passes _ (checked ∙ ap ok clean)) in
          (receipt, refl, identified, held, bound, distinct, master)
    ]
  ]

  -- When the proof names no code: the journal is that of a committed transaction and has the digest of
  -- the receipt's bytes; they parse to a verified receipt of the same transaction; every path of the
  -- journal, of which no two are equal and one is the master index, holds canonical bytes of its
  -- digest after the transaction; and every record stands in the receipt with its digest, its
  -- action and its identifier.
  pub proof_errors-Proven :
      (journal : Value) (raw : Bytes)
      → proof_errors sha256 parse read_canonical read_private journal raw ≡ ok []
      → Proven journal raw
  unfolding proof_errors receipt_ok
  proof_errors-Proven journal raw h = elim (Bool-cases (is_dict journal)) [
    | inr bad ↦ cc (ok-injective (rw bad at h))
    | inl dict ↦ elim (Bool-cases (is_committed journal)) [
      | inr bad ↦ cc (ok-injective (rw bad at (rw dict at h)))
      | inl committed ↦
          elim (Bool-cases (receipt_ok sha256 parse read_canonical read_private journal raw)) [
            | inr bad ↦ cc (ok-injective (rw bad at (rw committed at (rw dict at h))))
            | inl receipt ↦ (
              committed,
              eq_str→eq _ (sha256 raw) (and_right _ _ receipt),
              receipt-Proven journal (parse raw) (rw receipt at (rw committed at (rw dict at h))),
            )
          ]
    ]
  ]
