-- ===== src/Scale/Actions.antt =====
-- computeActions, and the tasks of a plan: internal/command/scale/count_machines.go. Guests `G` and
-- volumes `V` are of any types.
pub mod Unique
pub mod Ranges
pub mod Rules
pub mod Safe
pub mod Meets
pub mod Tasks
mod Tests
use flyctl.Base.{
  or_empty, group_by, ℕ, zero, suc, ◌+◌, String, Bool, true, false, Option, none, some, List, [],
  ◌∷◌, ◌++◌, str_eq, if◌then◌else◌, Dict, lookup, put, length, ◌==◌, ltb,
}
use flyctl.Base.Int.{ℤ, pos, negsuc, pos_part, neg_part, ◌+ℤ◌, wrap}
use flyctl.Scale.Converge.{
  returned, max_per_region, panicked, running, Outcome, wanted_regions, converge_group_counts,
}
use flyctl.Scale.Converge.Correct.{rounds}
use flyctl.Scale.Volumes.{
  MachineConfig, CreateVolumeRequest, Choice, attach, create, refused, pop_available_volumes,
  create_volume_request, choose_volume,
}

-- groupCount
pub record GroupCount : Type 0 where
  pub absolute : ℤ
  pub relative : ℤ

pub record Machine (G : Type 0) : Type 0 where
  pub id : String
  pub group : String
  pub region : String
  pub lease_nonce : String
  pub config : MachineConfig G

-- planItem
pub record PlanItem (V G : Type 0) : Type 0 where
  pub group : String
  pub region : String
  pub delta : ℤ
  pub machines : List (Machine G)
  pub config : MachineConfig G
  pub volumes : List V
  pub request : Option (CreateVolumeRequest G)

-- The errors of computeActions, a run-time error, and fuel that has run out.
pub data Refusal : Type 0 where
  no_minvers no_config over_maximum crashes runs_on : Refusal

pub data Planned (A : Type 0) : Type 0 where
  planned : A → Planned A
  not_planned : Refusal → Planned A

abbrev pub and_then : {A B : Type 0} → Planned A → (A → Planned B) → Planned B
and_then (planned a) next = next a
and_then (not_planned r) next = not_planned r

-- The length of each list of a map.
unfoldable pub counts : {A : Type 0} → Dict (List A) → Dict ℤ
counts [] = []
counts ((k, xs) ∷ d) = (k, pos (length xs)) ∷ counts d

abbrev pub is_zero : ℤ → Bool
is_zero (pos n) = n == 0
is_zero (negsuc n) = false

-- max(count, 0)
abbrev pub expected_count : GroupCount → ℕ → ℤ
expected_count c existing =
    pos (pos_part (if is_zero c.relative then c.absolute else wrap (pos existing +ℤ c.relative)))

unfoldable pub expected_counts : {A : Type 0} → Dict (List A) → Dict GroupCount → Dict ℤ
expected_counts groups [] = []
expected_counts groups ((name, c) ∷ cs) =
    (name, expected_count c (length (or_empty (lookup name groups)))) ∷ expected_counts groups cs

-- The volumes by name and region.
abbrev pub Volumes : Type 0 → Type 0
Volumes V = Dict (Dict (List V))

-- Items of the plan, and the volumes that are left.
abbrev pub Items : Type 0 → Type 0 → Type 0
Items V G = List (PlanItem V G) × Volumes V

module _ {V G : Type 0} where
  -- The items of a group over the differences of its regions, and the volumes that are left.
  unfoldable pub items_of :
      Option String
      → String
      → Dict (List (Machine G))
      → MachineConfig G
      → Dict ℤ
      → Volumes V
      → Items V G
  items_of snapshot name by_region config [] volumes = ([], volumes)
  items_of snapshot name by_region config ((region, delta) ∷ diffs) volumes =
      let existing = or_empty (lookup region by_region) in
      let (popped, left) = pop_available_volumes config region delta volumes in
      let (rest, last) = items_of snapshot name by_region config diffs left in
      (
        (record {
          group = name;
          region = region;
          delta = delta;
          machines = existing;
          config = config;
          volumes = popped;
          request = create_volume_request snapshot config region delta (length existing);
        })
            ∷ rest,
        last,
      )

-- How convergeGroupCounts ends.
abbrev pub converged : Outcome → Planned (Dict ℤ)
converged (returned diffs) = planned diffs
converged max_per_region = not_planned over_maximum
converged panicked = not_planned crashes
converged running = not_planned runs_on

module _ (uniq : List String → List String) (keys : Dict ℤ → List String) where
  -- convergeGroupCounts with fuel for all the rounds that it can make.
  unfoldable pub converge : ℤ → Dict ℤ → List String → ℤ → Planned (Dict ℤ)
  converge expected current regions max = converged (
      converge_group_counts uniq keys
        (suc (rounds expected current (uniq (wanted_regions keys current regions)))) expected
        current regions max)

  -- `without_standbys` takes the standbys out of a configuration, and `to_config` is ToMachineConfig.
  module _ {V G : Type 0} (without_standbys : MachineConfig G → MachineConfig G)
      (to_config : String → Option (MachineConfig G)) (snapshot : Option String)
      (regions : List String) (max : ℤ) where
    unfoldable pub plan_group :
        String → ℤ → Dict (List (Machine G)) → MachineConfig G → Volumes V → Planned (Items V G)
    plan_group name expected by_region config volumes =
        and_then (converge expected (counts by_region) regions max)
          (λ diffs. planned (items_of snapshot name by_region config diffs volumes))

    -- A group with machines; the first one gives the configuration.
    unfoldable pub plan_existing : String → ℤ → List (Machine G) → Volumes V → Planned (Items V G)
    plan_existing name expected [] volumes = not_planned crashes
    plan_existing name expected (m ∷ ms) volumes =
        plan_group name expected (group_by (λ x. x.region) (m ∷ ms) []) (without_standbys m.config)
          volumes

    -- A group without machines.
    abbrev pub plan_new : String → ℤ → Volumes V → Planned (Items V G)
    plan_new name expected volumes = elim (to_config name) [
      | none ↦ not_planned no_config
      | some config ↦ plan_group name expected [] config volumes
    ]

    abbrev pub more_items : Items V G → Items V G → Items V G
    more_items (items, volumes) (rest, last) = (items ++ rest, last)

    -- The first loop, over the groups of the machines; a group of which nothing is expected is left.
    unfoldable pub plan_all_existing :
        Dict ℤ → Dict (List (Machine G)) → Volumes V → Planned (Items V G)
    plan_all_existing expected [] volumes = planned ([], volumes)
    plan_all_existing expected ((name, ms) ∷ groups) volumes = elim (lookup name expected) [
      | none ↦ plan_all_existing expected groups volumes
      | some n ↦ and_then (plan_existing name n ms volumes) (λ made.
          and_then (plan_all_existing expected groups made.1)
            (λ rest. planned (more_items made rest)))
    ]

    -- The second loop, over the groups that are expected; those with machines have been seen.
    unfoldable pub plan_all_new : Dict (List (Machine G)) → Dict ℤ → Volumes V → Planned (Items V G)
    plan_all_new seen [] volumes = planned ([], volumes)
    plan_all_new seen ((name, n) ∷ expected) volumes = elim (lookup name seen) [
      | some ms ↦ plan_all_new seen expected volumes
      | none ↦ and_then (plan_new name n volumes) (λ made.
          and_then (plan_all_new seen expected made.1) (λ rest. planned (more_items made rest)))
    ]

    -- `minvers` says whether the versions of the secrets can be read.
    unfoldable pub compute_actions :
        Bool → List (Machine G) → Dict GroupCount → Volumes V → Planned (List (PlanItem V G))
    compute_actions minvers machines wanted volumes =
        let groups = group_by (λ m. m.group) machines [] in
        let expected = expected_counts groups wanted in
        let items = and_then (plan_all_existing expected groups volumes) (λ old.
          and_then (plan_all_new groups expected old.1) (λ new. planned (old.0 ++ new.0))) in
        if minvers then items else not_planned no_minvers

abbrev pub nth : {A : Type 0} → List A → ℕ → Option A
nth [] i = none
nth (m ∷ ms) zero = some m
nth (m ∷ ms) (suc i) = nth ms i

-- What the pool of runMachinesScaleCount runs.
pub data Task (V G : Type 0) : Type 0 where
  launches : PlanItem V G → ℕ → Task V G
  destroys : Machine G → Task V G

module _ {V G : Type 0} where
  -- for i := 0; i < delta; i++
  unfoldable pub launch_tasks : PlanItem V G → ℕ → ℕ → List (Task V G)
  launch_tasks item zero i = []
  launch_tasks item (suc left) i = launches item i ∷ launch_tasks item left (suc i)

  abbrev pub add_task : Option (Machine G) → Option (List (Task V G)) → Option (List (Task V G))
  add_task none rest = none
  add_task (some m) none = none
  add_task (some m) (some rest) = some (destroys m ∷ rest)

  -- for i := 0; i > delta; i-- { action.Machines[-i] }; `none` is an index out of range.
  unfoldable pub destroy_tasks : List (Machine G) → ℕ → ℕ → Option (List (Task V G))
  destroy_tasks ms zero i = some []
  destroy_tasks ms (suc left) i = add_task (nth ms i) (destroy_tasks ms left (suc i))

  unfoldable pub tasks_of : PlanItem V G → Option (List (Task V G))
  tasks_of item =
      if ltb 0 (pos_part item.delta)
      then some (launch_tasks item (pos_part item.delta) 0)
      else destroy_tasks item.machines (neg_part item.delta) 0

  abbrev pub both_tasks :
      Option (List (Task V G)) → Option (List (Task V G)) → Option (List (Task V G))
  both_tasks none later = none
  both_tasks (some tasks) none = none
  both_tasks (some tasks) (some later) = some (tasks ++ later)

  unfoldable pub all_tasks : List (PlanItem V G) → Option (List (Task V G))
  all_tasks [] = some []
  all_tasks (item ∷ items) = both_tasks (tasks_of item) (all_tasks items)
