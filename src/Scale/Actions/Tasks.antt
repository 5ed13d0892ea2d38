-- ===== src/Scale/Actions/Tasks.antt =====
-- The run of a task of the plan: launchMachine and destroyMachine of
-- internal/command/scale/count_machines.go.
use flyctl.Base.{ℕ, String, Option, none, some, [], ◌∷◌, ◌⊎◌, inl, inr}
use flyctl.Bluegreen.Errors.{Error}
use flyctl.Scale.Volumes.{
  MachineConfig, CreateVolumeRequest, Choice, attach, create, refused, choose_volume,
}
use flyctl.Scale.Actions.{Machine, PlanItem, Task, launches, destroys}

-- The calls of the API, over a world of any type. A machine is launched in a region, with a
-- configuration, and with the volume of its first mount.
pub record ScaleCalls (W V G : Type 0) : Type 0 where
  pub create_volume : CreateVolumeRequest G → W → (Error ⊎ V) × W
  pub launch : String → MachineConfig G → Option V → W → Option Error × W
  pub destroy : String → String → W → Option Error × W

-- What a task ends with; the last is the error that there is no volume to attach or to create.
pub data Ended : Type 0 where
  well no_volume : Ended
  fails : Error → Ended

module _ {W V G : Type 0} (calls : ScaleCalls W V G) where
  abbrev pub ended : Option Error → Ended
  ended none = well
  ended (some e) = fails e

  abbrev pub launch_with : PlanItem V G → Option V → W → Ended × W
  launch_with item v w = let (o, w') = calls.launch item.region item.config v w in (ended o, w')

  abbrev pub launch_created : PlanItem V G → (Error ⊎ V) × W → Ended × W
  launch_created item (inl e, w) = (fails e, w)
  launch_created item (inr v, w) = launch_with item (some v) w

  abbrev pub launch_chosen : PlanItem V G → Choice V G → W → Ended × W
  launch_chosen item (attach v) w = launch_with item (some v) w
  launch_chosen item (create r) w = launch_created item (calls.create_volume r w)
  launch_chosen item refused w = (no_volume, w)

  unfoldable pub launch_machine : PlanItem V G → ℕ → W → Ended × W
  launch_machine item i w = elim item.config.mounts [
    | [] ↦ launch_with item none w
    | mount ∷ mounts ↦ launch_chosen item (choose_volume i item.volumes item.request) w
  ]

  unfoldable pub destroy_machine : Machine G → W → Ended × W
  destroy_machine m w = let (o, w') = calls.destroy m.id m.lease_nonce w in (ended o, w')

  unfoldable pub run_task : Task V G → W → Ended × W
  run_task (launches item i) w = launch_machine item i w
  run_task (destroys m) w = destroy_machine m w
