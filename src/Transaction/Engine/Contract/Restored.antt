-- ===== src/Transaction/Engine/Contract/Restored.antt =====
-- The transaction of src/candidate_canonical_transaction_engine.py, interrupted or failed, with the
-- recovery of src/candidate_production_recovery_engine.py after it.
use technology_library_inges.Base.{String, ◌≡◌, Bool, some, List, [], All, ok}
use technology_library_inges.Json.{Value}
use technology_library_inges.Storage.{Storage, Sha256, IsFramed}
use technology_library_inges.Mutation.Validate.{Item, validate_transaction_for_mutation}
use technology_library_inges.Mutation.Validate.Targets
use technology_library_inges.Recovery.Journal.{rows_of, existed_before}
use technology_library_inges.Recovery.Journal.Rows
use technology_library_inges.Recovery.Execute.{execute_recovery}
use technology_library_inges.Recovery.Execute.Contract.{Records, execute_recovery_exact}
use technology_library_inges.Transaction.Indexes.{IndexBuilder, Indexes, sorted_items}
use technology_library_inges.Mutation.Execute.{execute_record_mutations}
use technology_library_inges.Transaction.Indexes.Contract.{Untouched}
use technology_library_inges.Transaction.Engine.{execute_canonical_transaction}
use technology_library_inges.Transaction.Engine.Contract.Frame.{
  Plans, execute_canonical_transaction-frame,
}

module _ (S : Storage) (framed : IsFramed S) (sha256 : Sha256) (B : IndexBuilder) where
  -- The journal names the targets of the plan and the index files that the run plans: a path that
  -- it does not name is neither.
  abbrev pub Covers : Value → Value → List String → S.State → Type 0
  Covers journal plan before s =
      (q : String)
      → Rows.Fresh q (rows_of journal)
      → ((items : List Item)
          → validate_transaction_for_mutation plan ≡ ok (items, [])
          → Targets.Fresh q items)
        × ((indexes : Indexes)
            → Plans S sha256 B plan before (execute_record_mutations S sha256 plan s).1 indexes
            → Untouched q (sorted_items indexes))

  -- Over a storage whose writes and deletes leave the other paths alone: whatever a transaction
  -- did before it ended, with success, an error or an exception: a recovery that returns a
  -- journal puts every path of the storage back as it was before the transaction. The journal has
  -- to cover the plan, and to record the storage before the transaction, with the snapshots as
  -- they stand afterwards.
  pub execute_recovery-after_transaction :
      (plan journal j : Value) (before : List String) (verify : Bool) (s : S.State)
      → Covers journal plan before s
      → All
          (λ row.
            Records S framed sha256
              (existed_before row)
              s
              (execute_canonical_transaction S sha256 B plan before s).1
              row)
          (rows_of journal)
      → (execute_recovery S sha256 journal verify
          (execute_canonical_transaction S sha256 B plan before s).1).0
        ≡ ok (some j, [])
      → (q : String)
      → S.read
          (execute_recovery S sha256 journal verify
            (execute_canonical_transaction S sha256 B plan before s).1).1
          q
        ≡ S.read s q
  execute_recovery-after_transaction plan journal j before verify s covers records done q =
      execute_recovery_exact S framed sha256 journal j verify s _ records
        (λ p fresh.
          execute_canonical_transaction-frame S sha256 B framed p plan before s (covers p fresh).0
            (covers p fresh).1)
        done q
