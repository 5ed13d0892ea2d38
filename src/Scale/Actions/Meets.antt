-- ===== src/Scale/Actions/Meets.antt =====
-- The plan gives each group the machines that are expected of it.
pub mod Diffs
pub mod Loops
use flyctl.Base.{
  Unique, group_by, All, ◌≡◌, inl, inr, refl, sym, subst, ◌<◌, String, Bool, true, false, Option,
  none, some, List, [], str_eq, if◌then◌else◌, Dict, lookup, length,
}
use flyctl.Base.Int.{ℤ, pos, ◌≤ℤ◌}
use flyctl.Scale.Volumes.{MachineConfig}
use flyctl.Scale.Actions.{
  GroupCount, Machine, PlanItem, planned, counts, expected_counts, Volumes, converge, plan_group,
  compute_actions,
}
use flyctl.Scale.Actions.Ranges.{IsUniq, Fits, converge-Fits}
use flyctl.Scale.Actions.Rules.Made.{Holds, and_then-Holds}
use flyctl.Scale.Actions.Rules.{
  expected_counts-NotNegative, plan_existing-Holds, plan_new-Holds, plan_all_existing-Holds,
  plan_all_new-Holds, compute_actions-Holds,
}
use Diffs.{diffs_of, diffs_of-append, diffs_of-items_of}
use Loops.{
  targets, SumsFit, expected_counts-targets, Meets, MeetsIf, regions_of, group_by-Unique,
  expected_counts-Unique, OldLoop, HereMeets, old_left_out, old_taken, NewLoop, NewHere, new_ends,
  new_left_out, new_taken, joined,
}

module _ {V G : Type 0} (uniq : List String → List String) (keys : Dict ℤ → List String)
    (documented : IsUniq uniq) (without_standbys : MachineConfig G → MachineConfig G)
    (to_config : String → Option (MachineConfig G)) (snapshot : Option String)
    (regions : List String) (max : ℤ) (some_region : 0 < length regions) (g : String) where
  plan_group-Meets :
      (name : String) (n : ℤ) (ms : Option (List (Machine G))) (config : MachineConfig G)
      (volumes : Volumes V)
      → pos 0 ≤ℤ n
      → Holds
          (λ made. MeetsIf {G = G} uniq regions max (str_eq name g) ms n (diffs_of g made.0))
          (plan_group uniq keys without_standbys to_config snapshot regions max name n
            (regions_of ms)
            config
            volumes)
  unfolding plan_group
  plan_group-Meets name n ms config volumes wanted =
      and_then-Holds (Fits uniq n (regions_of ms) regions max)
        (λ made. MeetsIf {G = G} uniq regions max (str_eq name g) ms n (diffs_of g made.0))
        (converge uniq keys n (counts (regions_of ms)) regions max) _
        (elim (converge-Fits uniq keys documented n max (regions_of ms) regions some_region
          wanted) [
            | inl e ↦ subst (Holds _) (sym e) tt
            | inr (d, e, fits) ↦ subst (Holds _) (sym e) fits
          ])
        (λ diffs fits.
          subst (MeetsIf {G = G} uniq regions max (str_eq name g) ms n)
            (sym (diffs_of-items_of g snapshot name (regions_of ms) config diffs volumes))
            (by_test (str_eq name g) diffs fits))
    where
      by_test :
          (b : Bool) (diffs : Dict ℤ)
          → Fits uniq n (regions_of ms) regions max diffs
          → MeetsIf {G = G} uniq regions max b ms n (if b then diffs else [])
      by_test true diffs fits = fits
      by_test false diffs fits = refl

  -- The loops one behind the other.
  plan-Meets :
      (minvers : Bool) (machines : List (Machine G)) (wanted : Dict GroupCount)
      (volumes : Volumes V)
      → Unique wanted
      → Holds
          (λ items.
            Meets uniq regions max
              (lookup g (group_by (λ m. m.group) machines []))
              (lookup g (expected_counts (group_by (λ m. m.group) machines []) wanted))
              (diffs_of g items))
          (compute_actions uniq keys without_standbys to_config snapshot regions max minvers
            machines wanted volumes)
  unfolding diffs_of lookup
  plan-Meets minvers machines wanted volumes u =
      compute_actions-Holds uniq keys without_standbys to_config snapshot regions max Old New _
        minvers machines wanted volumes
        (λ xs ys old new.
          subst (Meets uniq regions max (lookup g groups) (lookup g expected))
            (sym (diffs_of-append g xs ys))
            (joined uniq regions max g expected (lookup g groups) _ _ (old distinct) (new asked)))
        (plan_all_existing-Holds uniq keys without_standbys to_config snapshot regions max expected
          (HereMeets uniq regions max g expected) (OldLoop uniq regions max g expected)
          (λ name n ms v least.
            plan_existing-Holds uniq keys without_standbys to_config snapshot regions max _ name n
              ms v (λ config. plan_group-Meets name n (some ms) config v least))
          (λ empty. refl) (old_left_out uniq regions max g expected)
          (λ name n ms groups. old_taken uniq regions max g expected name ms groups n) not_negative
          groups)
        (λ v.
          plan_all_new-Holds uniq keys without_standbys to_config snapshot regions max groups
            (NewHere uniq regions max g groups) (NewLoop uniq regions max g groups)
            (λ name n v least.
              plan_new-Holds uniq keys without_standbys to_config snapshot regions max _ name n v
                (λ config. plan_group-Meets name n none config v least))
            (λ empty. new_ends uniq regions max (lookup g groups))
            (λ name n ms expected. new_left_out uniq regions max g groups name n expected ms)
            (new_taken uniq regions max g groups) expected v not_negative)
    where
      groups : Dict (List (Machine G))
      groups = group_by (λ m. m.group) machines []

      expected : Dict ℤ
      expected = expected_counts groups wanted

      Old : List (PlanItem V G) → Type 0
      Old items = OldLoop uniq regions max g expected groups items

      New : List (PlanItem V G) → Type 0
      New items = NewLoop uniq regions max g groups expected items

      distinct : Unique groups
      distinct = group_by-Unique (λ m. m.group) machines [] tt

      asked : Unique expected
      asked = expected_counts-Unique groups wanted u

      not_negative : All (λ e. pos 0 ≤ℤ e.1) expected
      not_negative = expected_counts-NotNegative groups wanted

-- For each group, the differences in a plan of computeActions are: none, if the group is not asked
-- for; and otherwise differences, one for a region, that take the machines that the group has in the
-- regions that are acted on to the total that is asked for, or to its machines and the change that is
-- asked for, or to none if that is negative; and that leave none of these regions below zero or above
-- the maximum, and touch no other region. This is for at least one region, for sums of machines and
-- changes that are ints of 64 bits, and for a Uniq that leaves no text twice, and leaves some text of
-- a list that has one.
pub compute_actions-Meets :
    {V G : Type 0} (uniq : List String → List String) (keys : Dict ℤ → List String)
    (documented : IsUniq uniq) (without_standbys : MachineConfig G → MachineConfig G)
    (to_config : String → Option (MachineConfig G)) (snapshot : Option String)
    (regions : List String) (max : ℤ) (minvers : Bool) (machines : List (Machine G))
    (wanted : Dict GroupCount) (volumes : Volumes V) (items : List (PlanItem V G)) (g : String)
    → 0 < length regions
    → Unique wanted
    → SumsFit (group_by (λ m. m.group) machines []) wanted
    → compute_actions uniq keys without_standbys to_config snapshot regions max minvers machines
        wanted volumes
      ≡ planned items
    → Meets uniq regions max
        (lookup g (group_by (λ m. m.group) machines []))
        (lookup g (targets (group_by (λ m. m.group) machines []) wanted))
        (diffs_of g items)
compute_actions-Meets uniq keys documented without_standbys to_config snapshot regions max minvers
      machines wanted volumes items g some_region u sums e =
    subst
      (λ expected.
        Meets uniq regions max (lookup g (group_by (λ m. m.group) machines [])) (lookup g expected)
          (diffs_of g items))
      (expected_counts-targets (group_by (λ m. m.group) machines []) wanted sums)
      (subst (Holds _) e (
        plan-Meets uniq keys documented without_standbys to_config snapshot regions max some_region
          g minvers machines wanted volumes u))
