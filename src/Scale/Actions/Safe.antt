-- ===== src/Scale/Actions/Safe.antt =====
-- The tasks of a plan are found without an index out of range.
use flyctl.Base.{
  or_empty, group_by, arith, All, All-append, ◌≡◌, ◌∙◌, inl, inr, refl, sym, ap, subst, ℕ, zero,
  suc, ◌+◌, ◌≤◌, ◌<◌, String, Bool, true, false, Option, some, List, [], ◌∷◌, ◌++◌, if◌then◌else◌,
  Dict, lookup, length, ltb,
}
use flyctl.Base.Int.{ℤ, pos, pos_part, neg_part, ◌≤ℤ◌}
use flyctl.Scale.Volumes.{MachineConfig}
use flyctl.Scale.Actions.{
  GroupCount, Machine, PlanItem, planned, counts, expected_counts, Volumes, items_of, converge,
  plan_group, compute_actions, nth, Task, destroys, launch_tasks, add_task, destroy_tasks, tasks_of,
  both_tasks, all_tasks,
}
use flyctl.Scale.Actions.Ranges.{IsUniq, converge-Fits, InRange, Fits-InRange, items_of-InRange}
use flyctl.Scale.Actions.Rules.Made.{Holds, HoldsOf, and_then-Holds}
use flyctl.Scale.Actions.Rules.{
  expected_counts-NotNegative, plan_existing-Holds, plan_new-Holds, plan_all_existing-Holds,
  plan_all_new-Holds, compute_actions-Holds,
}

module _ {V G : Type 0} (uniq : List String → List String) (keys : Dict ℤ → List String)
    (documented : IsUniq uniq) (without_standbys : MachineConfig G → MachineConfig G)
    (to_config : String → Option (MachineConfig G)) (snapshot : Option String)
    (regions : List String) (max : ℤ) (some_region : 0 < length regions) where
  abbrev AllInRange : List (PlanItem V G) → Type 0
  AllInRange items = All InRange items

  plan_group-InRange :
      (name : String) (expected : ℤ) (by_region : Dict (List (Machine G)))
      (config : MachineConfig G) (volumes : Volumes V)
      → pos 0 ≤ℤ expected
      → HoldsOf AllInRange (
          plan_group uniq keys without_standbys to_config snapshot regions max name expected
            by_region config volumes)
  unfolding plan_group
  plan_group-InRange name expected by_region config volumes wanted =
      and_then-Holds Enough (λ made. AllInRange made.0)
        (converge uniq keys expected (counts by_region) regions max)
        (λ diffs. planned (items_of snapshot name by_region config diffs volumes))
        (elim (converge-Fits uniq keys documented expected max by_region regions some_region
          wanted) [
            | inl e ↦ subst (Holds Enough) (sym e) tt
            | inr (d, e, fits) ↦
                subst (Holds Enough) (sym e)
                  (Fits-InRange uniq expected max by_region regions d fits)
          ])
        (λ diffs enough. items_of-InRange snapshot name by_region config diffs volumes enough)
    where
      Enough : Dict ℤ → Type 0
      Enough diffs = All (λ e. neg_part e.1 ≤ length (or_empty (lookup e.0 by_region))) diffs

  compute_actions-InRange :
      (minvers : Bool) (machines : List (Machine G)) (wanted : Dict GroupCount)
      (volumes : Volumes V)
      → Holds AllInRange (
          compute_actions uniq keys without_standbys to_config snapshot regions max minvers machines
            wanted volumes)
  compute_actions-InRange minvers machines wanted volumes =
      compute_actions-Holds uniq keys without_standbys to_config snapshot regions max AllInRange
        AllInRange AllInRange minvers machines wanted volumes (All-append InRange)
        (plan_all_existing-Holds uniq keys without_standbys to_config snapshot regions max expected
          (λ name n ms. AllInRange) (λ groups. AllInRange)
          (λ name n ms v least.
            plan_existing-Holds uniq keys without_standbys to_config snapshot regions max AllInRange
              name n ms v (λ config. plan_group-InRange name n _ config v least))
          tt (λ name ms groups items e h. h) (λ name n ms groups xs ys e. All-append InRange xs ys)
          not_negative groups)
        (λ v.
          plan_all_new-Holds uniq keys without_standbys to_config snapshot regions max groups
            (λ name n. AllInRange) (λ expected. AllInRange)
            (λ name n v least.
              plan_new-Holds uniq keys without_standbys to_config snapshot regions max AllInRange
                name n v (λ config. plan_group-InRange name n [] config v least))
            tt (λ name n ms expected items e h. h)
            (λ name n expected xs ys e. All-append InRange xs ys) expected v not_negative)
    where
      groups : Dict (List (Machine G))
      groups = group_by (λ m. m.group) machines []

      expected : Dict ℤ
      expected = expected_counts groups wanted

      not_negative : All (λ e. pos 0 ≤ℤ e.1) expected
      not_negative = expected_counts-NotNegative groups wanted

nth-some : {A : Type 0} (xs : List A) (i : ℕ) → i < length xs → (a : A) × (nth xs i ≡ some a)
nth-some [] i h = absurd (omega arith)
nth-some (x ∷ xs) zero h = (x, refl)
nth-some (x ∷ xs) (suc i) h = nth-some xs i (omega arith)

module _ {V G : Type 0} where
  abbrev HasTasks : Option (List (Task V G)) → Type 0
  HasTasks o = (tasks : List (Task V G)) × (o ≡ some tasks)

  destroy_tasks_some :
      (ms : List (Machine G)) (left i : ℕ)
      → i + left ≤ length ms
      → HasTasks (destroy_tasks ms left i)
  unfolding destroy_tasks
  destroy_tasks_some ms zero i h = ([], refl)
  destroy_tasks_some ms (suc left) i h =
      let (m, found) = nth-some ms i (omega arith) in
      let (tasks, rest) = destroy_tasks_some ms left (suc i) (omega arith) in
      (
        destroys m ∷ tasks,
        ap (λ o. add_task o (destroy_tasks ms left (suc i))) found ∙ ap (add_task (some m)) rest,
      )

  tasks_of-some : (item : PlanItem V G) → InRange item → HasTasks (tasks_of item)
  unfolding tasks_of
  tasks_of-some item h = by_test (ltb 0 (pos_part item.delta))
    where
      by_test :
          (b : Bool)
          → HasTasks (
              if b
              then some (launch_tasks item (pos_part item.delta) 0)
              else destroy_tasks item.machines (neg_part item.delta) 0)
      by_test true = (launch_tasks item (pos_part item.delta) 0, refl)
      by_test false = destroy_tasks_some item.machines (neg_part item.delta) 0 (omega (arith, h))

  all_tasks-some : (items : List (PlanItem V G)) → All InRange items → HasTasks (all_tasks items)
  unfolding all_tasks
  all_tasks-some [] h = ([], refl)
  all_tasks-some (item ∷ items) (here, later) =
      let (tasks, e) = tasks_of-some item here in
      let (rest, f) = all_tasks-some items later in
      (tasks ++ rest, ap (λ o. both_tasks o (all_tasks items)) e ∙ ap (both_tasks (some tasks)) f)

-- If computeActions makes a plan for at least one region, then no loop that destroys machines goes
-- beyond the machines of its item: the tasks of the whole plan are found without an index out of range.
-- This is for a Uniq that leaves no text twice, and leaves some text of a list that has one.
pub compute_actions-HasTasks :
    {V G : Type 0} (uniq : List String → List String) (keys : Dict ℤ → List String)
    (documented : IsUniq uniq) (without_standbys : MachineConfig G → MachineConfig G)
    (to_config : String → Option (MachineConfig G)) (snapshot : Option String)
    (regions : List String) (max : ℤ) (minvers : Bool) (machines : List (Machine G))
    (wanted : Dict GroupCount) (volumes : Volumes V) (items : List (PlanItem V G))
    → 0 < length regions
    → compute_actions uniq keys without_standbys to_config snapshot regions max minvers machines
        wanted volumes
      ≡ planned items
    → (tasks : List (Task V G)) × (all_tasks items ≡ some tasks)
compute_actions-HasTasks uniq keys documented without_standbys to_config snapshot regions max
      minvers machines wanted volumes items some_region e =
    all_tasks-some items (
      subst (Holds (All InRange)) e (
        compute_actions-InRange uniq keys documented without_standbys to_config snapshot regions max
          some_region minvers machines wanted volumes))
