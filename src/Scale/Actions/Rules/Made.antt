-- ===== src/Scale/Actions/Rules/Made.antt =====
-- What holds of a plan or of its items, if there is one.
use flyctl.Base.{List, ◌++◌}
use flyctl.Scale.Actions.{PlanItem, Planned, planned, not_planned, and_then, Volumes, Items}

-- What holds of a plan, if there is one.
abbrev pub Holds : {A : Type 0} → (A → Type 0) → Planned A → Type 0
Holds P (planned a) = P a
Holds P (not_planned r) = Unit

pub and_then-Holds :
    {A B : Type 0} (P : A → Type 0) (Q : B → Type 0) (r : Planned A) (next : A → Planned B)
    → Holds P r
    → ((a : A) → P a → Holds Q (next a))
    → Holds Q (and_then r next)
and_then-Holds P Q (planned a) next h k = k a h
and_then-Holds P Q (not_planned r) next h k = tt

pub Holds-imp :
    {A : Type 0} {P Q : A → Type 0} (r : Planned A) → ((a : A) → P a → Q a) → Holds P r → Holds Q r
Holds-imp (planned a) f h = f a h
Holds-imp (not_planned r) f h = tt

-- Of the items of a plan.
abbrev pub HoldsOf : {V G : Type 0} → (List (PlanItem V G) → Type 0) → Planned (Items V G) → Type 0
HoldsOf P r = Holds (λ made. P made.0) r

module _ {V G : Type 0} where
  -- Items before the items of the rest of a loop.
  pub more-Holds :
      (P Q R : List (PlanItem V G) → Type 0) (made : Planned (Items V G))
      (rest : Volumes V → Planned (Items V G))
      → ((xs ys : List (PlanItem V G)) → P xs → Q ys → R (xs ++ ys))
      → HoldsOf P made
      → ((volumes : Volumes V) → HoldsOf Q (rest volumes))
      → HoldsOf R (and_then made (λ m. and_then (rest m.1) (λ r. planned (m.0 ++ r.0, r.1))))
  more-Holds P Q R made rest joins h k =
      and_then-Holds (λ (m : Items V G). P m.0) (λ (m : Items V G). R m.0) made _ h
        (λ m here.
          and_then-Holds (λ (r : Items V G). Q r.0) (λ (r : Items V G). R r.0) (rest m.1) _ (k m.1)
            (λ r later. joins m.0 r.0 here later))
