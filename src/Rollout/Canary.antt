-- ===== src/Rollout/Canary.antt =====
-- deployCanaryMachines. The group of tasks (errgroup) is a pool without a limit, which cancels its context
-- on an error; a task looks at its context only in the calls that it makes.
pub mod Tidy
use flyctl.Base.{ℕ, String, Bool, true, false, ◌⊎◌, inl, inr, Option, none, some, List, [], ◌∷◌}
use flyctl.Plan.Checks.{Fault}
use flyctl.Rollout.Creation.{SpawnCalls, Yard, spawn_machine_in_group}
use flyctl.Rollout.Pool.{Event, Pool, new_pool, step, wait_result}

-- A canary that has been destroyed, and the answer to that call.
pub record Canary : Type 0 where
  pub group : String
  pub machine : String
  pub answer : Option Fault

-- The machines that have been launched, and the canaries that have been destroyed, the last one first.
pub record Canaries (W : Type 0) : Type 0 where
  pub yard : Yard W
  pub destroyed : List Canary

-- The launch inputs of `spawn` have the options of a canary: its metadata, guest and DNS.
pub record CanaryCalls (W L : Type 0) : Type 0 where
  pub spawn : SpawnCalls W L
  pub run_test_machines : String → W → Option Fault × W
  pub destroy : String → W → Option Fault × W

-- The strategy is "canary" here, so it is not "immediate".
module _ {W L : Type 0} (calls : CanaryCalls W L) (skip_health_checks : Bool)
    (wait_seconds : ℕ) where
  abbrev pub in_world : Canaries W → W → Canaries W
  in_world c w = record c { yard = record c.yard { world = w } }

  -- The deferred call: its error is put into a variable that has been returned already.
  abbrev pub destroy_canary : String → String → Canaries W → Option Fault × W → Canaries W
  destroy_canary name m c (answer, w) = record (in_world c w) {
    destroyed = (record { group = name; machine = m; answer = answer }) ∷ c.destroyed;
  }

  abbrev pub after_tests :
      String → String → Canaries W → Option Fault × W → Option Fault × Canaries W
  after_tests name m c (some f, w) = (some f, in_world c w)
  after_tests name m c (none, w) = (none, destroy_canary name m (in_world c w) (calls.destroy m w))

  abbrev pub after_spawn :
      String → Canaries W → (Fault ⊎ String) × Yard W → Option Fault × Canaries W
  after_spawn name c (inl f, y) = (some f, record c { yard = y })
  after_spawn name c (inr m, y) =
      after_tests name m (record c { yard = y }) (calls.run_test_machines m y.world)

  -- The task of a group.
  unfoldable pub canary_task : String → Canaries W → Option Fault × Canaries W
  canary_task name c =
      after_spawn name c
        (spawn_machine_in_group calls.spawn false skip_health_checks wait_seconds name [] c.yard)

  unfoldable pub step_canaries :
      Event → Pool (Canaries W) String → Option (Pool (Canaries W) String)
  step_canaries = step canary_task none true none

  -- The states that events lead to, from the tasks of the groups of the configuration on.
  unfoldable pub run_canaries :
      List Event → Pool (Canaries W) String → Option (Pool (Canaries W) String)
  run_canaries [] p = some p
  run_canaries (event ∷ events) p = elim (step_canaries event p) [
    | none ↦ none
    | some q ↦ run_canaries events q
  ]

  abbrev pub start_canaries : List String → W → Pool (Canaries W) String
  start_canaries groups w =
      new_pool groups (record { yard = record { world = w; spawned = [] }; destroyed = [] })

abbrev pub last_of : List Fault → Option Fault
last_of [] = none
last_of (f ∷ []) = some f
last_of (f ∷ g ∷ fs) = last_of (g ∷ fs)

-- What Wait returns when the tasks have ended: the error that came first.
unfoldable pub canaries_result : {W : Type 0} → Pool (Canaries W) String → Option (Option Fault)
canaries_result p = elim (wait_result p) [ none ↦ none | some faults ↦ some (last_of faults) ]
