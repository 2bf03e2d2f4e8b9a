-- ===== src/Restart/Confirmed.antt =====
-- That `verify_recovered_state` of src/candidate_production_recover.py confirms what `execute_recovery`
-- of src/candidate_production_recovery_engine.py restores.
use technology_library_inges.Base.{
  String, ◌≡◌, refl, sym, ap, ◌∙◌, subst, inl, inr, Bool, true, false, some, List, [], ◌∷◌, All,
  All-left, All-right, ok,
}
use technology_library_inges.Json.{
  Value, bool, str, get, eq_str→eq, text_of, truthy, items_list-list_items,
}
use technology_library_inges.Storage.{Storage, Sha256, IsFramed}
use technology_library_inges.Recovery.Journal.{
  keyed, list_of, rows_of, row_path, existed_before, before_sha,
}
use technology_library_inges.Recovery.Journal.Shape.{HasShape, GroupShape, validate-shape}
use technology_library_inges.Recovery.Execute.{execute_recovery}
use technology_library_inges.Recovery.Execute.Rollback.{Before, RolledBack}
use technology_library_inges.Recovery.Execute.Contract.{
  execute_recovery-Recovered, execute_recovery-valid,
}
use technology_library_inges.Restart.Verify.{verify_recovered_state}
use technology_library_inges.Restart.Verify.Back.{
  IsBack, kept, removed, GroupIsBack, verify_recovered_state_iff,
}

path_of :
    (key path : String) (entry : Value) → get key entry ≡ str path → row_path (key, entry) ≡ path
unfolding row_path text_of
path_of key path entry h = rw h refl

existed_of :
    (key : String) (entry : Value) (b : Bool)
    → get "existed_before" entry ≡ bool b
    → existed_before (key, entry) ≡ b
unfolding existed_before truthy
existed_of key entry b h = rw h refl

module _ (S : Storage) (sha256 : Sha256) where
  row-IsBack :
      (key : String) (s s' : S.State) (entry : Value)
      → HasShape key entry
      → RolledBack S sha256 s s' (key, entry)
      → IsBack sha256 (S.read s') key entry
  unfolding before_sha
  row-IsBack key s s' entry (d, (path, at_key), inl existed) back =
      let (b, snap, digest, there) =
        subst (λ old. Before S sha256 old s s' (key, entry)) (existed_of key entry true existed)
          back in
      kept path d at_key existed (
        b,
        ap (S.read s') (sym (path_of key path entry at_key)) ∙ there,
        eq_str→eq (get "before_sha256" entry) (sha256 b) digest,
      )
  row-IsBack key s s' entry (d, (path, at_key), inr fresh) back =
      let gone =
        subst (λ old. Before S sha256 old s s' (key, entry)) (existed_of key entry false fresh)
          back in
      removed path d at_key fresh (ap (S.read s') (sym (path_of key path entry at_key)) ∙ gone)

  rows-IsBack :
      (key : String) (s s' : S.State) (vs : List Value)
      → All (HasShape key) vs
      → All (RolledBack S sha256 s s') (keyed key vs)
      → All (IsBack sha256 (S.read s') key) vs
  rows-IsBack key s s' [] shapes back = tt
  rows-IsBack key s s' (entry ∷ vs) (shape, shapes) (one, back) =
      (row-IsBack key s s' entry shape one, rows-IsBack key s s' vs shapes back)

  group-IsBack :
      (key : String) (s s' : S.State) (group : Value)
      → GroupShape key group
      → All (RolledBack S sha256 s s') (keyed key (list_of group))
      → GroupIsBack sha256 (S.read s') key group
  group-IsBack key s s' group (vs, same, shapes) back = (
    vs,
    same,
    rows-IsBack key s s' vs shapes (
        subst (λ rows. All (RolledBack S sha256 s s') (keyed key rows))
          (ap list_of same ∙ items_list-list_items vs) back),
  )

  -- Over a storage whose writes and deletes leave the other paths alone: when `execute_recovery`
  -- returns a journal, `verify_recovered_state` finds no fault in the storage that it leaves, read
  -- against the journal that was recovered.
  pub verify_recovered_state-execute_recovery :
      (framed : IsFramed S) (journal j : Value) (verify : Bool) (s : S.State)
      → (execute_recovery S sha256 journal verify s).0 ≡ ok (some j, [])
      → verify_recovered_state sha256
          (S.read (execute_recovery S sha256 journal verify s).1)
          journal
        ≡ []
  unfolding rows_of
  verify_recovered_state-execute_recovery framed journal j verify s h =
      let s' = (execute_recovery S sha256 journal verify s).1 in
      let (c, is, sum, total, back, (b, there, digest)) =
        execute_recovery-Recovered S framed sha256 journal j verify s h in
      let (items, indexes) =
        validate-shape journal (execute_recovery-valid S framed sha256 journal j verify s h) in
      (verify_recovered_state_iff sha256 (S.read s') journal).1 (
        group-IsBack "target_path" s s' (get "items" journal) items
            (All-left (RolledBack S sha256 s s') _ _ back),
        group-IsBack "path" s s' (get "indexes" journal) indexes (
            All-right (RolledBack S sha256 s s')
              (keyed "target_path" (list_of (get "items" journal))) _ back),
        (b, there, eq_str→eq _ (sha256 b) digest),
      )
