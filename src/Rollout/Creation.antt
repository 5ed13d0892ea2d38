-- ===== src/Rollout/Creation.antt =====
-- The machines of new process groups: spawnMachineInGroup and deployCreateMachinesForGroups.
pub mod Arranged
use flyctl.Base.{
  ℕ, String, Bool, true, false, not, ◌||◌, ◌&&◌, ◌⊎◌, inl, inr, Option, none, some, List, [], ◌∷◌,
  ◌++◌, if◌then◌else◌, ltb, Dict,
}
use flyctl.Base.Bytes.{codes}
use flyctl.Bluegreen.Errors.{contains}
use flyctl.Plan.Checks.{Fault}

-- What the configuration of a group says of its machines: how many mounts and services it has.
pub record GroupConfig : Type 0 where
  pub mounts : ℕ
  pub services : ℕ

-- fly.LaunchMachineInput, as far as it is read; `L` is the rest of it.
pub record Launch (L : Type 0) : Type 0 where
  pub skip_launch : Bool
  pub lease_ttl : ℕ
  pub rest : L

-- A machine that has been launched for a group, and the machines that it stands by for.
pub record Spawn : Type 0 where
  pub group : String
  pub standby_for : List String
  pub machine : String

-- The world, and the machines that have been launched so far, the last one first.
pub record Yard (W : Type 0) : Type 0 where
  pub world : W
  pub spawned : List Spawn

-- Machines are known by their ids here.
pub record SpawnCalls (W L : Type 0) : Type 0 where
  pub launch_input_for_launch : String → List String → W → (Fault ⊎ Launch L) × W
  pub has_release_machine : Bool
  pub launch : Launch L → W → (Fault ⊎ String) × W
  pub release_lease : String → W → Option Fault × W
  pub do_smoke_checks : String → W → Option Fault × W
  pub wait_for_start : String → W → Option Fault × W
  pub wait_for_healthchecks : String → W → Option Fault × W
  pub warn_about_listen_address : String → W → W
  pub flatten : String → Fault ⊎ GroupConfig

-- maps.Keys
abbrev pub names_of : Dict Bool → List String
names_of [] = []
names_of ((name, b) ∷ d) = name ∷ names_of d

-- The strategy is immediate, health checks are skipped, and the timeout of waits.
module _ {W L : Type 0} (calls : SpawnCalls W L) (is_immediate skip_health_checks : Bool)
    (wait_seconds : ℕ) where
  abbrev pub then_call : Option Fault × W → (W → Option Fault × W) → Option Fault × W
  then_call (some f, w) next = (some f, w)
  then_call (none, w) next = next w

  -- warnAboutIncorrectListenAddress after a result, which is returned as it is
  abbrev pub then_warn : String → Option Fault × W → Option Fault × W
  then_warn m (o, w) = (o, calls.warn_about_listen_address m w)

  abbrev pub health_checks : String → W → Option Fault × W
  health_checks m w =
      if skip_health_checks
      then then_warn m (none, w)
      else then_call (calls.wait_for_start m w) (λ v. then_warn m (calls.wait_for_healthchecks m v))

  unfoldable pub check_spawned : Launch L → String → W → Option Fault × W
  check_spawned input m w =
      if input.skip_launch || is_immediate
      then (none, w)
      else then_call (calls.do_smoke_checks m w) (health_checks m)

  -- The lease is released on return; an error of that is only logged.
  abbrev pub released : String → List Spawn → Option Fault × W → (Fault ⊎ String) × Yard W
  released m log (none, w) = (inr m, record { world = (calls.release_lease m w).1; spawned = log })
  released m log (some f, w) =
      (inl f, record { world = (calls.release_lease m w).1; spawned = log })

  -- What is said of an error of the launch.
  abbrev pub launch_fault : Fault → Fault
  launch_fault f = record f {
    text =
        codes "error creating a new machine: "
        ++ (f.text
            ++ (if contains (codes "please add a payment method") f.text
                  && calls.has_release_machine
                then codes
                    "\nPlease note that release commands run in their own ephemeral machine, and therefore count towards the machine limit."
                else []));
  }

  abbrev pub after_launch :
      String
      → List String
      → Launch L
      → List Spawn
      → (Fault ⊎ String) × W
      → (Fault ⊎ String) × Yard W
  after_launch name standby_for input log (inl f, w) =
      (inl (launch_fault f), record { world = w; spawned = log })
  after_launch name standby_for input log (inr m, w) =
      released m ((record { group = name; standby_for = standby_for; machine = m }) ∷ log)
        (check_spawned input m w)

  abbrev pub launch_with :
      String → List String → List Spawn → (Fault ⊎ Launch L) × W → (Fault ⊎ String) × Yard W
  launch_with name standby_for log (inl f, w) = (
    inl (record f { text = codes "error creating machine configuration: " ++ f.text }),
    record { world = w; spawned = log },
  )
  launch_with name standby_for log (inr i, w) =
      let input : Launch L = record i { lease_ttl = wait_seconds } in
      after_launch name standby_for input log (calls.launch input w)

  unfoldable pub spawn_machine_in_group : String → List String → Yard W → (Fault ⊎ String) × Yard W
  spawn_machine_in_group name standby_for y =
      launch_with name standby_for y.spawned
        (calls.launch_input_for_launch name standby_for y.world)

  abbrev pub fault_of_spawn : (Fault ⊎ String) × Yard W → Option Fault × Yard W
  fault_of_spawn (inl f, y) = (some f, y)
  fault_of_spawn (inr m, y) = (none, y)

  module _ (increased_availability : Bool) where
    -- The second machine of a group: none for one with mounts, another one for one with services, and
    -- otherwise one that stands by for the first one.
    unfoldable pub spare_machine : String → String → GroupConfig → Yard W → Option Fault × Yard W
    spare_machine name m config y =
        if not increased_availability || ltb 0 config.mounts
        then (none, y)
        else if ltb 0 config.services
        then fault_of_spawn (spawn_machine_in_group name [] y)
        else fault_of_spawn (spawn_machine_in_group name (m ∷ []) y)

    -- The configuration is read after the first machine has been made.
    abbrev pub after_flatten :
        String → String → Yard W → Fault ⊎ GroupConfig → Option Fault × Yard W
    after_flatten name m y (inl f) = (some f, y)
    after_flatten name m y (inr config) = spare_machine name m config y

    abbrev pub after_first : String → (Fault ⊎ String) × Yard W → Option Fault × Yard W
    after_first name (inl f, y) = (some f, y)
    after_first name (inr m, y) = after_flatten name m y (calls.flatten name)

    abbrev pub create_group : String → Yard W → Option Fault × Yard W
    create_group name y = after_first name (spawn_machine_in_group name [] y)

    unfoldable pub create_groups : List String → Yard W → Option Fault × Yard W
    create_groups [] y = (none, y)
    create_groups (name ∷ names) y =
        let rest = create_groups names (create_group name y).1 in
        elim (create_group name y).0 [ some f ↦ (some f, (create_group name y).1) | none ↦ rest ]

    -- Over groupsNeedingMachines; `sort` is slices.Sort.
    unfoldable pub deploy_create_machines_for_groups :
        (List String → List String) → Dict Bool → Yard W → Option Fault × Yard W
    deploy_create_machines_for_groups sort needing y = create_groups (sort (names_of needing)) y
