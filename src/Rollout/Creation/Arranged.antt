-- ===== src/Rollout/Creation/Arranged.antt =====
-- Which machines the new groups get.
use flyctl.Base.{
  Dict, ◌≡◌, refl, ap, ◌∙◌, ℕ, String, Bool, true, false, not, ◌||◌, ◌⊎◌, inl, inr, Option, none,
  some, List, [], ◌∷◌, if◌then◌else◌, ltb,
}
use flyctl.Plan.Checks.{Fault}
use flyctl.Rollout.Creation.{
  GroupConfig, Launch, Spawn, Yard, SpawnCalls, check_spawned, released, after_launch, launch_with,
  spawn_machine_in_group, fault_of_spawn, spare_machine, after_flatten, after_first, create_group,
  create_groups, names_of, deploy_create_machines_for_groups,
}

abbrev pub spawn : String → List String → String → Spawn
spawn name standby_for m = record { group = name; standby_for = standby_for; machine = m }

-- The machines of a group whose first machine is `m`: that one alone; or with another one, if the group
-- has services; or with one that stands by for it.
abbrev pub Machines : Bool → Bool → String → String → List Spawn → List Spawn → Type 0
Machines true served name m log log' = log' ≡ spawn name [] m ∷ log
Machines false true name m log log' =
    (n : String) × (log' ≡ spawn name [] n ∷ spawn name [] m ∷ log)
Machines false false name m log log' =
    (n : String) × (log' ≡ spawn name (m ∷ []) n ∷ spawn name [] m ∷ log)

-- Those that its configuration asks for.
abbrev pub HasMachines : Bool → String → GroupConfig → List Spawn → List Spawn → Type 0
HasMachines available name config log log' =
    (m : String) × Machines (not available || ltb 0 config.mounts) (ltb 0 config.services) name m
      log log'

module _ {W L : Type 0} (calls : SpawnCalls W L) (is_immediate skip : Bool) (wait_seconds : ℕ) where
  -- A machine that has been launched is in the log.
  abbrev Spawned : String → List String → List Spawn → (Fault ⊎ String) × Yard W → Type 0
  Spawned name standby_for log (inl f, y) = Unit
  Spawned name standby_for log (inr m, y) = y.spawned ≡ spawn name standby_for m ∷ log

  spawn_machine_in_group-Spawned :
      (name : String) (standby_for : List String) (y : Yard W)
      → Spawned name standby_for y.spawned
          (spawn_machine_in_group calls is_immediate skip wait_seconds name standby_for y)
  unfolding spawn_machine_in_group
  spawn_machine_in_group-Spawned name standby_for y =
      by_input (calls.launch_input_for_launch name standby_for y.world)
    where
      by_checks :
          (m : String) (r : Option Fault × W)
          → Spawned name standby_for y.spawned (
              released calls is_immediate skip wait_seconds m
                (spawn name standby_for m ∷ y.spawned)
                r)
      by_checks m (none, w) = refl
      by_checks m (some f, w) = tt

      by_machine :
          (input : Launch L) (r : (Fault ⊎ String) × W)
          → Spawned name standby_for y.spawned
              (after_launch calls is_immediate skip wait_seconds name standby_for input y.spawned r)
      by_machine input (inl f, w) = tt
      by_machine input (inr m, w) =
          by_checks m (check_spawned calls is_immediate skip wait_seconds input m w)

      by_input :
          (r : (Fault ⊎ Launch L) × W)
          → Spawned name standby_for y.spawned
              (launch_with calls is_immediate skip wait_seconds name standby_for y.spawned r)
      by_input (inl f, w) = tt
      by_input (inr i, w) = by_machine _ _

  module _ (available : Bool) where
    -- What there is after a group has been made without an error.
    abbrev Made : String → List Spawn → Option Fault × Yard W → Type 0
    Made name log (some f, y) = Unit
    Made name log (none, y) =
        (config : GroupConfig) × (calls.flatten name ≡ inr config)
        × HasMachines available name config log y.spawned

    spare_machine-Made :
        (name m : String) (config : GroupConfig) (log : List Spawn) (y : Yard W)
        → calls.flatten name ≡ inr config
        → y.spawned ≡ spawn name [] m ∷ log
        → Made name log
            (spare_machine calls is_immediate skip wait_seconds available name m config y)
    unfolding spare_machine
    spare_machine-Made name m config log y flat first =
        by_result _ (by_case (not available || ltb 0 config.mounts) (ltb 0 config.services))
      where
        Spare : Bool → Bool → Option Fault × Yard W → Type 0
        Spare alone served (some f, z) = Unit
        Spare alone served (none, z) = Machines alone served name m log z.spawned

        by_spawn :
            (served : Bool) (standby_for : List String) (r : (Fault ⊎ String) × Yard W)
            → ((n : String) (z : Yard W)
                → z.spawned ≡ spawn name standby_for n ∷ y.spawned
                → Machines false served name m log z.spawned)
            → Spawned name standby_for y.spawned r
            → Spare false served (fault_of_spawn calls is_immediate skip wait_seconds r)
        by_spawn served standby_for (inl f, z) k h = tt
        by_spawn served standby_for (inr n, z) k h = k n z h

        by_case :
            (alone served : Bool)
            → Spare alone served (
                if alone
                then (none, y)
                else if served
                then fault_of_spawn calls is_immediate skip wait_seconds
                    (spawn_machine_in_group calls is_immediate skip wait_seconds name [] y)
                else fault_of_spawn calls is_immediate skip wait_seconds
                    (spawn_machine_in_group calls is_immediate skip wait_seconds name (m ∷ []) y))
        by_case true served = first
        by_case false true =
            by_spawn true [] (spawn_machine_in_group calls is_immediate skip wait_seconds name [] y)
              (λ n z h. (n, h ∙ ap (λ l. spawn name [] n ∷ l) first))
              (spawn_machine_in_group-Spawned name [] y)
        by_case false false =
            by_spawn false (m ∷ [])
              (spawn_machine_in_group calls is_immediate skip wait_seconds name (m ∷ []) y)
              (λ n z h. (n, h ∙ ap (λ l. spawn name (m ∷ []) n ∷ l) first))
              (spawn_machine_in_group-Spawned name (m ∷ []) y)

        by_result :
            (r : Option Fault × Yard W)
            → Spare (not available || ltb 0 config.mounts) (ltb 0 config.services) r
            → Made name log r
        by_result (some f, z) h = tt
        by_result (none, z) h = (config, flat, (m, h))

    create_group-Made :
        (name : String) (y : Yard W)
        → Made name y.spawned (create_group calls is_immediate skip wait_seconds available name y)
    create_group-Made name y =
        by_first (spawn_machine_in_group calls is_immediate skip wait_seconds name [] y)
          (spawn_machine_in_group-Spawned name [] y)
      where
        by_flatten :
            (m : String) (z : Yard W) (r : Fault ⊎ GroupConfig)
            → calls.flatten name ≡ r
            → z.spawned ≡ spawn name [] m ∷ y.spawned
            → Made name y.spawned
                (after_flatten calls is_immediate skip wait_seconds available name m z r)
        by_flatten m z (inl f) k h = tt
        by_flatten m z (inr config) k h = spare_machine-Made name m config y.spawned z k h

        by_first :
            (r : (Fault ⊎ String) × Yard W)
            → Spawned name [] y.spawned r
            → Made name y.spawned
                (after_first calls is_immediate skip wait_seconds available name r)
        by_first (inl f, z) h = tt
        by_first (inr m, z) h = by_flatten m z (calls.flatten name) refl h

    -- Each group of a list, one after the other, has got the machines that its configuration asks for.
    abbrev pub Arranged : List String → List Spawn → List Spawn → Type 0
    Arranged [] log log' = log' ≡ log
    Arranged (name ∷ names) log log' =
        (between : List Spawn) × ((config : GroupConfig) × (calls.flatten name ≡ inr config)
          × HasMachines available name config log between)
        × Arranged names between log'

    create_groups-Arranged :
        (names : List String) (y : Yard W)
        → (create_groups calls is_immediate skip wait_seconds available names y).0 ≡ none
        → Arranged names y.spawned
            (create_groups calls is_immediate skip wait_seconds available names y).1.spawned
    unfolding create_groups
    create_groups-Arranged [] y e = refl
    create_groups-Arranged (name ∷ names) y e =
        by_group (create_group calls is_immediate skip wait_seconds available name y)
          (create_group-Made name y) (λ z k. create_groups-Arranged names z k) e
      where
        by_group :
            (r : Option Fault × Yard W)
            → Made name y.spawned r
            → ((z : Yard W)
                → (create_groups calls is_immediate skip wait_seconds available names z).0 ≡ none
                → Arranged names z.spawned
                    (create_groups calls is_immediate skip wait_seconds available names
                      z).1.spawned)
            → (elim r.0 as (λ x. Option Fault × Yard W) [
              | some f ↦ (some f, r.1)
              | none ↦ create_groups calls is_immediate skip wait_seconds available names r.1
            ]).0
              ≡ none
            → Arranged
                (name ∷ names)
                y.spawned
                (elim r.0 as (λ x. Option Fault × Yard W) [
                  | some f ↦ (some f, r.1)
                  | none ↦ create_groups calls is_immediate skip wait_seconds available names r.1
                ]).1.spawned
        by_group (some f, z) h later k = absurd (cc k)
        by_group (none, z) h later k = (z.spawned, h, later z k)

    -- If the machines for new process groups are created without an error, then the machines that have been
    -- launched are, group by group and in the order of their sorted names: one machine for a group with mounts, and
    -- for every group without increased availability; two machines for a group with services; and otherwise
    -- a machine and a second one that stands by for it.
    pub deploy_create_machines-Arranged :
        (sort : List String → List String) (needing : Dict Bool) (y : Yard W)
        → (deploy_create_machines_for_groups calls is_immediate skip wait_seconds available sort
            needing y).0
          ≡ none
        → Arranged
            (sort (names_of needing))
            y.spawned
            (deploy_create_machines_for_groups calls is_immediate skip wait_seconds available sort
              needing y).1.spawned
    unfolding deploy_create_machines_for_groups
    deploy_create_machines-Arranged sort needing y e =
        create_groups-Arranged (sort (names_of needing)) y e
