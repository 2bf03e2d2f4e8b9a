-- ===== src/Mutation/Execute/Verified.antt =====
-- A run that reports no error has put the planned bytes at every target.
use technology_library_inges.Base.{
  ℕ, suc, ◌+◌, String, ◌≡◌, refl, ap, ok-injective, sym, ◌∙◌, subst, Option, none, some, List, [],
  ◌∷◌, All, length, ok, arith,
}
use technology_library_inges.Json.{Value}
use technology_library_inges.Storage.{Bytes, Storage, Sha256, IsFramed, holds→eq}
use technology_library_inges.Mutation.Validate.{Action, create, update, unchanged, Item}
use technology_library_inges.Mutation.Validate.Targets.{Distinct}
use technology_library_inges.Mutation.Execute.{
  Expected, Progress, Report, Answer, Step, put_item, mutate_create, mutate_item, after_item,
  mutate_one, mutate, records_verified, report,
}
use technology_library_inges.Mutation.Execute.Frame.{mutate-frame}

-- How many items of a transaction write.
abbrev pub writes : Action → ℕ
writes unchanged = 0
writes _ = 1

abbrev pub count_writes : List Item → ℕ
count_writes [] = 0
count_writes (item ∷ items) = writes item.action + count_writes items

module _ (S : Storage) (sha256 : Sha256) where
  -- A turn of the loop that does not fail.
  put_item_done :
      (i : ℕ) (item : Item) (content : Bytes) (p : Progress) (s : S.State)
      → (put_item S sha256 i item content p s).0 ≡ none
      → let r = put_item S sha256 i item content p s in
        (S.read r.2 item.target_path ≡ some content)
        × (r.1.writes ≡ suc p.writes)
        × (r.1.verified ≡ suc p.verified)
  unfolding put_item
  put_item_done i item content p s h =
      ground
        (arith, holds→eq (S.read (S.write s item.target_path content).1 item.target_path) content)

  mutate_item_done :
      (a : Action) (i : ℕ) (item : Item) (content : Bytes) (p : Progress) (s : S.State)
      → (mutate_item S sha256 a i item content p s).0 ≡ none
      → let r = mutate_item S sha256 a i item content p s in
        (S.read r.2 item.target_path ≡ some content)
        × (r.1.writes ≡ writes a + p.writes)
        × (r.1.verified ≡ suc p.verified)
  unfolding mutate_item mutate_create
  mutate_item_done create i item content p s h = ground (arith, put_item_done i item content p s)
  mutate_item_done update i item content p s h = ground (arith, put_item_done i item content p s)
  mutate_item_done unchanged i item content p s h =
      ground (arith, holds→eq (S.read s item.target_path) content)

  after_item_done :
      (id : Value) (rest : Progress → S.State → Answer × S.State) (step : Step S sha256)
      (r : Option Report)
      → (after_item S sha256 id rest step).0 ≡ ok (r, [])
      → (step.0 ≡ none) × (after_item S sha256 id rest step ≡ rest step.1 step.2)
  unfolding after_item
  after_item_done id rest (none, p, s) r h = (refl, refl)
  after_item_done id rest (some code, p, s) r h = cc

  mutate_one_done :
      (id : Value) (rest : Progress → S.State → Answer × S.State) (i : ℕ) (item : Item)
      (p : Progress) (s : S.State) (o : Option Bytes) (r : Option Report)
      → (mutate_one S sha256 id rest i item p s o).0 ≡ ok (r, [])
      → (b : Bytes) × (o ≡ some b)
        × ((mutate_item S sha256 item.action i item b p s).0 ≡ none)
        × (mutate_one S sha256 id rest i item p s o
            ≡ rest
                (mutate_item S sha256 item.action i item b p s).1
                (mutate_item S sha256 item.action i item b p s).2)
  unfolding mutate_one
  mutate_one_done id rest i item p s none r h = cc
  mutate_one_done id rest i item p s (some b) r h =
      let (e, e') = after_item_done id rest (mutate_item S sha256 item.action i item b p s) r h in
      (b, refl, e, e')

module _ (S : Storage) (framed : IsFramed S) (sha256 : Sha256) where
  -- The bytes expected of a target are there at the end.
  abbrev pub Written : Expected → S.State → Item → Type 0
  Written e s item =
      (b : Bytes) × (e item.target_path ≡ some b) × (S.read s item.target_path ≡ some b)

  pub mutate-Written :
      (id : Value) (e : Expected) (i : ℕ) (items : List Item) (p : Progress) (s : S.State)
      (r : Option Report)
      → Distinct items
      → (mutate S sha256 id e i items p s).0 ≡ ok (r, [])
      → All (Written e (mutate S sha256 id e i items p s).1) items
  unfolding mutate
  mutate-Written id e i [] p s r d h = tt
  mutate-Written id e i (item ∷ items) p s r (f, d) h =
      let (b, found, done, eq) =
        mutate_one_done S sha256 id (mutate S sha256 id e (suc i) items) i item p s _ r h in
      let (there, _, _) = mutate_item_done S sha256 item.action i item b p s done in
      subst (λ (t : Answer × S.State). All (Written e t.1) (item ∷ items)) (sym eq)
        (
          (
            b,
            found,
            mutate-frame S framed sha256 item.target_path id e (suc i) items _ _ f ∙ there,
          ),
          mutate-Written id e (suc i) items _ _ r d (rw eq at h),
        )

  pub mutate-Report :
      (id : Value) (e : Expected) (i : ℕ) (items : List Item) (p : Progress) (s : S.State)
      (r : Option Report)
      → (mutate S sha256 id e i items p s).0 ≡ ok (r, [])
      → (t : Report) × (r ≡ some t)
        × (t.state ≡ records_verified)
        × (t.verified_items ≡ p.verified + length items)
        × (t.writes_completed ≡ p.writes + count_writes items)
  unfolding mutate report
  mutate-Report id e i [] p s r h = (
    report id records_verified p,
    sym (ap (λ (x : Option Report × List String). x.0) (ok-injective h)),
    refl,
    omega arith,
    omega arith,
  )
  mutate-Report id e i (item ∷ items) p s r h =
      let (b, found, done, eq) =
        mutate_one_done S sha256 id (mutate S sha256 id e (suc i) items) i item p s _ r h in
      let (_, w, v) = mutate_item_done S sha256 item.action i item b p s done in
      let (t, e', st, vi, wc) = mutate-Report id e (suc i) items _ _ r (rw eq at h) in
      (t, e', st, omega arith, omega arith)
