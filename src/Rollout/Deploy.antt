-- ===== src/Rollout/Deploy.antt =====
-- deployMachinesApp and updateExistingMachines. Machines `M` and launch inputs `I` are of any types.
pub mod Plan
use flyctl.Base.{
  ℕ, String, Bool, false, not, ◌&&◌, ◌||◌, ◌⊎◌, inl, inr, Option, none, some, List, [], ◌∷◌, ◌++◌,
  str_eq, if◌then◌else◌, ltb, Dict,
}
use flyctl.Base.Bytes.{Bytes, codes}
use flyctl.Plan.Checks.{Fault}
use flyctl.Groups.Changes.{resolve_process_group_changes}

-- The fields of a machineDeployment that are read.
pub record Settings : Type 0 where
  pub strategy : String
  pub skip_release_command : Bool
  pub is_first_deploy : Bool
  pub update_only : Bool
  pub deploy_retries : ℕ

-- What is called. A machine is named in an error by `formatted_id`.
pub record DeployCalls (W M I : Type 0) : Type 0 where
  pub id : M → String
  pub process_group : M → String
  pub formatted_id : M → Bytes
  pub run_release_commands : W → Option Fault × W
  pub deploy_canary_machines : W → Option Fault × W
  pub release_leases_of : List M → W → Option Fault × W
  pub destroy : M → W → Option Fault × W
  pub create_machines_for_groups : Dict Bool → W → Option Fault × W
  pub launch_input_for_update : M → Fault ⊎ I
  pub acquire_leases : W → Option Fault × W
  pub release_leases : W → Option Fault × W
  pub start_background_refresh : W → W
  pub update_with_recovery : List (M × I) → W → Option Fault × W
  pub update_blue_green : List (M × I) → W → Option Fault × W
  pub update_immediate : List (M × I) → W → Option Fault × W
  pub update_rolling : List (M × I) → W → Option Fault × W

-- A call, and the next one if it has no error.
abbrev pub and_then : {W : Type 0} → Option Fault × W → (W → Option Fault × W) → Option Fault × W
and_then (some f, w) next = (some f, w)
and_then (none, w) next = next w

-- fmt.Errorf with a text before the error, which %w wraps
abbrev pub wrapped : {W : Type 0} → Bytes → Option Fault × W → Option Fault × W
wrapped before (none, w) = (none, w)
wrapped before (some f, w) = (some (record f { text = before ++ f.text }), w)

module _ {W M I : Type 0} (calls : DeployCalls W M I) (settings : Settings) where
  -- updateExistingMachines, by the strategy; "canary" and "rolling" fall through to the default.
  abbrev pub update_using_strategy : List (M × I) → W → Option Fault × W
  update_using_strategy entries w =
      if str_eq settings.strategy "bluegreen"
      then calls.update_blue_green entries w
      else if str_eq settings.strategy "immediate"
      then calls.update_immediate entries w
      else calls.update_rolling entries w

  -- The leases are released on return; an error of that is dropped.
  abbrev pub then_release : Option Fault × W → Option Fault × W
  then_release (o, w) = (o, (calls.release_leases w).1)

  abbrev pub update_under_leases : List (M × I) → W → Option Fault × W
  update_under_leases entries w =
      and_then (calls.acquire_leases w)
        (λ v. then_release (update_using_strategy entries (calls.start_background_refresh v)))

  unfoldable pub update_existing_machines : List (M × I) → W → Option Fault × W
  update_existing_machines entries w =
      if ltb 0 settings.deploy_retries
      then calls.update_with_recovery entries w
      else elim entries [ [] ↦ (none, w) | e ∷ es ↦ update_under_leases (e ∷ es) w ]

  abbrev pub release_step : W → Option Fault × W
  release_step w =
      if settings.skip_release_command
      then (none, w)
      else wrapped (codes "release command failed - aborting deployment. ")
          (calls.run_release_commands w)

  abbrev pub canary_step : W → Option Fault × W
  canary_step w =
      if str_eq settings.strategy "canary" && not settings.is_first_deploy
      then calls.deploy_canary_machines w
      else (none, w)

  unfoldable pub destroy_all : List M → W → Option Fault × W
  destroy_all [] w = (none, w)
  destroy_all (m ∷ ms) w = and_then (calls.destroy m w) (destroy_all ms)

  abbrev pub has_id : String → List M → Bool
  has_id id [] = false
  has_id id (m ∷ ms) = str_eq id (calls.id m) || has_id id ms

  -- What RemoveMachines leaves in the set of machines.
  unfoldable pub without : List M → List M → List M
  without removed [] = []
  without removed (m ∷ ms) =
      let rest = without removed ms in if has_id (calls.id m) removed then rest else m ∷ rest

  abbrev pub create_step : Dict Bool → W → Option Fault × W
  create_step needing w =
      if settings.update_only then (none, w) else calls.create_machines_for_groups needing w

  abbrev pub config_fault : M → Fault → Fault
  config_fault m f = record f {
    text =
        codes "failed to update machine configuration for "
        ++ (calls.formatted_id m ++ (codes ": " ++ f.text));
  }

  abbrev pub add_entry : M → Fault ⊎ I → Fault ⊎ List (M × I) → Fault ⊎ List (M × I)
  add_entry m (inl f) rest = inl (config_fault m f)
  add_entry m (inr i) (inl f) = inl f
  add_entry m (inr i) (inr es) = inr ((m, i) ∷ es)

  -- The entries of the machines, up to the first launch input that cannot be made.
  unfoldable pub update_entries : List M → Fault ⊎ List (M × I)
  update_entries [] = inr []
  update_entries (m ∷ ms) = add_entry m (calls.launch_input_for_update m) (update_entries ms)

  abbrev pub update_step : Fault ⊎ List (M × I) → W → Option Fault × W
  update_step (inl f) w = (some f, w)
  update_step (inr entries) w = update_existing_machines entries w

  -- `groups` are the process groups of the configuration, and `machines` those of the set.
  unfoldable pub deploy_machines_app : List String → List M → W → Option Fault × W
  deploy_machines_app groups machines w =
      let diff = resolve_process_group_changes calls.process_group groups machines in
      and_then (release_step w) (λ w. and_then (canary_step w) (λ w.
        and_then (calls.release_leases_of diff.machines_to_remove w) (λ w.
          and_then (destroy_all diff.machines_to_remove w) (λ w.
            and_then (create_step diff.groups_needing_machines w)
              (update_step (update_entries (without diff.machines_to_remove machines)))))))
