-- ===== src/Mutation/Execute/Abort.antt =====
-- A run that stops before its first write has changed nothing.
use technology_library_inges.Base.{
  ℕ, suc, String, ◌≡◌, ◌∙◌, true, false, Option, none, some, List, [], ◌∷◌, ok, arith,
}
use technology_library_inges.Json.{Value}
use technology_library_inges.Storage.{Bytes, Storage, Sha256}
use technology_library_inges.Mutation.Validate.{Action, create, update, unchanged, Item}
use technology_library_inges.Mutation.Execute.{
  Expected, Progress, Report, Answer, Step, put_item, mutate_create, mutate_item, after_item,
  mutate_one, mutate, prewrite_abort, report,
}

module _ (S : Storage) (sha256 : Sha256) where
  put_item-started :
      (i : ℕ) (item : Item) (content : Bytes) (p : Progress) (s : S.State)
      → (put_item S sha256 i item content p s).1.started ≡ true
  unfolding put_item
  put_item-started i item content p s = ground arith

  mutate_item_untouched :
      (a : Action) (i : ℕ) (item : Item) (content : Bytes) (p : Progress) (s : S.State)
      → (mutate_item S sha256 a i item content p s).1.started ≡ false
      → (p.started ≡ false) × ((mutate_item S sha256 a i item content p s).2 ≡ s)
  unfolding mutate_item mutate_create
  mutate_item_untouched create i item content p s h =
      ground (arith, put_item-started i item content p s)
  mutate_item_untouched update i item content p s h =
      ground (arith, put_item-started i item content p s)
  mutate_item_untouched unchanged i item content p s h = ground arith

  -- Where the answer is the report of an abort, no write was started and the storage is `s`.
  abbrev pub AbortKeeps : Progress → S.State → Answer × S.State → Type 0
  AbortKeeps p s (answer, s') =
      (r : Report) (codes : List String)
      → answer ≡ ok (some r, codes)
      → r.state ≡ prewrite_abort
      → (p.started ≡ false) × (s' ≡ s)

  after_item_abort :
      (id : Value) (rest : Progress → S.State → Answer × S.State) (step : Step S sha256)
      → ((p : Progress) (s : S.State) → AbortKeeps p s (rest p s))
      → AbortKeeps step.1 step.2 (after_item S sha256 id rest step)
  unfolding after_item report
  after_item_abort id rest (none, p, s) keeps = keeps p s
  after_item_abort id rest (some code, p, s) keeps = λ r codes h a. ground arith

  mutate_one_abort :
      (id : Value) (rest : Progress → S.State → Answer × S.State) (i : ℕ) (item : Item)
      (p : Progress) (s : S.State) (o : Option Bytes)
      → ((p : Progress) (s : S.State) → AbortKeeps p s (rest p s))
      → AbortKeeps p s (mutate_one S sha256 id rest i item p s o)
  unfolding mutate_one
  mutate_one_abort id rest i item p s none keeps = λ r codes h a. cc
  mutate_one_abort id rest i item p s (some b) keeps = λ r codes h a.
      let step = mutate_item S sha256 item.action i item b p s in
      let (unstarted, same) = after_item_abort id rest step keeps r codes h a in
      let (unstarted', same') = mutate_item_untouched item.action i item b p s unstarted in
      (unstarted', same ∙ same')

  pub mutate_abort :
      (id : Value) (e : Expected) (i : ℕ) (items : List Item) (p : Progress) (s : S.State)
      → AbortKeeps p s (mutate S sha256 id e i items p s)
  unfolding mutate report
  mutate_abort id e i [] p s = λ r codes h a. ground arith
  mutate_abort id e i (item ∷ items) p s =
      mutate_one_abort id (mutate S sha256 id e (suc i) items) i item p s (e item.target_path)
        (λ p' s'. mutate_abort id e (suc i) items p' s')

  -- The loop always reports.
  abbrev Reports : Answer × S.State → Type 0
  Reports (answer, s) = (codes : List String) → answer ≡ ok (none, codes) → ⊥

  after_item-Reports :
      (id : Value) (rest : Progress → S.State → Answer × S.State) (step : Step S sha256)
      → ((p : Progress) (s : S.State) → Reports (rest p s))
      → Reports (after_item S sha256 id rest step)
  unfolding after_item
  after_item-Reports id rest (none, p, s) keeps = keeps p s
  after_item-Reports id rest (some code, p, s) keeps = λ codes h. cc

  mutate_one-Reports :
      (id : Value) (rest : Progress → S.State → Answer × S.State) (i : ℕ) (item : Item)
      (p : Progress) (s : S.State) (o : Option Bytes)
      → ((p : Progress) (s : S.State) → Reports (rest p s))
      → Reports (mutate_one S sha256 id rest i item p s o)
  unfolding mutate_one
  mutate_one-Reports id rest i item p s none keeps = λ codes h. cc
  mutate_one-Reports id rest i item p s (some b) keeps = after_item-Reports id rest _ keeps

  pub mutate_reports :
      (id : Value) (e : Expected) (i : ℕ) (items : List Item) (p : Progress) (s : S.State)
      (codes : List String)
      → (mutate S sha256 id e i items p s).0 ≡ ok (none, codes)
      → ⊥
  unfolding mutate
  mutate_reports id e i [] p s codes h = cc
  mutate_reports id e i (item ∷ items) p s codes h =
      mutate_one-Reports id (mutate S sha256 id e (suc i) items) i item p s (e item.target_path)
        (λ p' s'. mutate_reports id e (suc i) items p' s') codes h
