-- ===== src/Transaction/Engine/Contract/Outside.antt =====
-- Where `execute_canonical_transaction` of src/candidate_canonical_transaction_engine.py writes: in
-- the library.
use technology_library_inges.Base.{
  String, str_eq, str_eq→eq, ◌≡◌, refl, ap, subst, sym, true, false, List, [], ◌∷◌, starts_with,
  Bool-cases, inl, inr, arith,
}
use technology_library_inges.Json.{Value}
use technology_library_inges.Storage.{Storage, Sha256, IsFramed}
use technology_library_inges.Mutation.Validate.Targets.{validate-Good}
use technology_library_inges.Mutation.Execute.Contract.{Fresh-outside}
use technology_library_inges.Transaction.Indexes.{
  IndexBuilder, Indexes, is_index_target, sorted_items,
}
use technology_library_inges.Transaction.Indexes.Contract.{Untouched}
use technology_library_inges.Transaction.Engine.{execute_canonical_transaction}
use technology_library_inges.Transaction.Engine.Contract.Frame.{execute_canonical_transaction-frame}

master_in_library : starts_with "00_LIBRARY/MASTER_INDEX.md" "00_LIBRARY/" ≡ true
unfolding starts_with
master_in_library = refl

is_index_target-library :
    (path : String) → is_index_target path ≡ true → starts_with path "00_LIBRARY/" ≡ true
unfolding is_index_target
is_index_target-library path h = elim (Bool-cases (str_eq path "00_LIBRARY/MASTER_INDEX.md")) [
  | inl same ↦
      subst (λ (p : String). starts_with p "00_LIBRARY/" ≡ true)
        (sym (str_eq→eq path "00_LIBRARY/MASTER_INDEX.md" same)) master_in_library
  | inr differ ↦ ground arith
]

Untouched-outside :
    (q : String) (entries : Indexes) → starts_with q "00_LIBRARY/" ≡ false → Untouched q entries
Untouched-outside q [] out = tt
Untouched-outside q ((path, b) ∷ entries) out = (
  λ target e. cc (
    ap (λ (p : String). starts_with p "00_LIBRARY/") e,
    is_index_target-library path target,
    out,
  ),
  Untouched-outside q entries out,
)

-- Over a storage whose writes and deletes leave the other paths alone: whatever the outcome of the
-- whole transaction, with errors or an exception too, a path outside the library keeps its bytes.
pub execute_canonical_transaction-outside :
    (S : Storage) (framed : IsFramed S) (sha256 : Sha256) (B : IndexBuilder) (plan : Value)
    (before : List String) (s : S.State) (q : String)
    → starts_with q "00_LIBRARY/" ≡ false
    → S.read (execute_canonical_transaction S sha256 B plan before s).1 q ≡ S.read s q
execute_canonical_transaction-outside S framed sha256 B plan before s q out =
    execute_canonical_transaction-frame S sha256 B framed q plan before s
      (λ items valid.
        Fresh-outside S framed sha256 q items out (validate-Good plan (items, []) valid).0)
      (λ indexes planned. Untouched-outside q (sorted_items indexes) out)
