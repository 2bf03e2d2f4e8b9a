-- ===== src/Mutation/Execute/Frame.antt =====
-- What the mutations leave alone: every path that is no target of the transaction.
use technology_library_inges.Base.{
  ℕ, suc, String, ◌≡◌, refl, sym, ◌∙◌, ◌≢◌, Option, none, some, List, [], ◌∷◌, arith,
}
use technology_library_inges.Json.{Value}
use technology_library_inges.Storage.{Bytes, Storage, Sha256, IsFramed}
use technology_library_inges.Mutation.Validate.{Action, create, update, unchanged, Item}
use technology_library_inges.Mutation.Validate.Targets.{Fresh}
use technology_library_inges.Mutation.Execute.{
  Expected, Progress, Answer, Step, put_item, mutate_create, mutate_item, after_item, mutate_one,
  mutate,
}

module _ (S : Storage) (framed : IsFramed S) (sha256 : Sha256) (q : String) where
  put_item-frame :
      (i : ℕ) (item : Item) (content : Bytes) (p : Progress) (s : S.State)
      → q ≢ item.target_path
      → S.read (put_item S sha256 i item content p s).2 q ≡ S.read s q
  unfolding put_item
  put_item-frame i item content p s n =
      ground (arith, framed.read-write s item.target_path q content (λ e. n (sym e)))

  mutate_create-frame :
      (i : ℕ) (item : Item) (content : Bytes) (p : Progress) (s : S.State) (o : Option Bytes)
      → q ≢ item.target_path
      → S.read (mutate_create S sha256 i item content p s o).2 q ≡ S.read s q
  unfolding mutate_create
  mutate_create-frame i item content p s none n = put_item-frame i item content p s n
  mutate_create-frame i item content p s (some b) n = refl

  pub mutate_item-frame :
      (a : Action) (i : ℕ) (item : Item) (content : Bytes) (p : Progress) (s : S.State)
      → q ≢ item.target_path
      → S.read (mutate_item S sha256 a i item content p s).2 q ≡ S.read s q
  unfolding mutate_item
  mutate_item-frame create i item content p s n = mutate_create-frame i item content p s _ n
  mutate_item-frame update i item content p s n = ground (arith, put_item-frame i item content p s)
  mutate_item-frame unchanged i item content p s n = ground arith

  after_item-frame :
      (id : Value) (rest : Progress → S.State → Answer × S.State) (step : Step S sha256)
      → ((p : Progress) (s : S.State) → S.read (rest p s).1 q ≡ S.read s q)
      → S.read (after_item S sha256 id rest step).1 q ≡ S.read step.2 q
  unfolding after_item
  after_item-frame id rest (none, p, s) keeps = keeps p s
  after_item-frame id rest (some code, p, s) keeps = refl

  mutate_one-frame :
      (id : Value) (rest : Progress → S.State → Answer × S.State) (i : ℕ) (item : Item)
      (p : Progress) (s : S.State) (o : Option Bytes)
      → q ≢ item.target_path
      → ((p : Progress) (s : S.State) → S.read (rest p s).1 q ≡ S.read s q)
      → S.read (mutate_one S sha256 id rest i item p s o).1 q ≡ S.read s q
  unfolding mutate_one
  mutate_one-frame id rest i item p s none n keeps = refl
  mutate_one-frame id rest i item p s (some content) n keeps =
      after_item-frame id rest (mutate_item S sha256 item.action i item content p s) keeps
      ∙ mutate_item-frame item.action i item content p s n

  pub mutate-frame :
      (id : Value) (e : Expected) (i : ℕ) (items : List Item) (p : Progress) (s : S.State)
      → Fresh q items
      → S.read (mutate S sha256 id e i items p s).1 q ≡ S.read s q
  unfolding mutate
  mutate-frame id e i [] p s f = refl
  mutate-frame id e i (item ∷ items) p s (n, f) =
      mutate_one-frame id _ i item p s (e item.target_path) n
        (λ p' s'. mutate-frame id e (suc i) items p' s' f)
