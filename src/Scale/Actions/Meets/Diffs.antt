-- ===== src/Scale/Actions/Meets/Diffs.antt =====
-- The differences that the items of a plan give the regions of a group.
use flyctl.Base.{
  ◌≡◌, refl, ap, String, Bool, true, false, Option, List, [], ◌∷◌, ◌++◌, str_eq, if◌then◌else◌,
  Dict,
}
use flyctl.Base.Int.{ℤ}
use flyctl.Scale.Volumes.{MachineConfig}
use flyctl.Scale.Actions.{Machine, PlanItem, Volumes, items_of}

unfoldable pub diffs_of : {V G : Type 0} → String → List (PlanItem V G) → Dict ℤ
diffs_of group [] = []
diffs_of group (item ∷ items) =
    let rest = diffs_of group items in
    if str_eq item.group group then (item.region, item.delta) ∷ rest else rest

pub diffs_of-append :
    {V G : Type 0} (g : String) (xs ys : List (PlanItem V G))
    → diffs_of g (xs ++ ys) ≡ diffs_of g xs ++ diffs_of g ys
unfolding diffs_of
diffs_of-append g [] ys = refl
diffs_of-append g (x ∷ xs) ys = by_test (str_eq x.group g) (diffs_of-append g xs ys)
  where
    by_test :
        (b : Bool)
        → diffs_of g (xs ++ ys) ≡ diffs_of g xs ++ diffs_of g ys
        → (if b then (x.region, x.delta) ∷ diffs_of g (xs ++ ys) else diffs_of g (xs ++ ys))
          ≡ (if b then (x.region, x.delta) ∷ diffs_of g xs else diffs_of g xs) ++ diffs_of g ys
    by_test true e = ap (λ l. (x.region, x.delta) ∷ l) e
    by_test false e = e

pub diffs_of-items_of :
    {V G : Type 0} (g : String) (snapshot : Option String) (name : String)
    (by_region : Dict (List (Machine G))) (config : MachineConfig G) (diffs : Dict ℤ)
    (volumes : Volumes V)
    → diffs_of g (items_of snapshot name by_region config diffs volumes).0
      ≡ (if str_eq name g then diffs else [])
unfolding diffs_of items_of
diffs_of-items_of g snapshot name by_region config [] volumes = by_test (str_eq name g)
  where
    by_test : (b : Bool) → [] ≡ (if◌then◌else◌ {A = Dict ℤ} b [] [])
    by_test true = refl
    by_test false = refl
diffs_of-items_of g snapshot name by_region config ((r, delta) ∷ diffs) volumes =
    by_test (str_eq name g) (diffs_of-items_of g snapshot name by_region config diffs _)
  where
    by_test :
        {rest : Dict ℤ} (b : Bool)
        → rest ≡ (if b then diffs else [])
        → (if b then (r, delta) ∷ rest else rest) ≡ (if b then (r, delta) ∷ diffs else [])
    by_test true e = ap (λ l. (r, delta) ∷ l) e
    by_test false e = e
