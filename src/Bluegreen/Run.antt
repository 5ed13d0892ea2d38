-- ===== src/Bluegreen/Run.antt =====
-- `Deploy`, `Rollback` and `updateUsingBlueGreenStrategy`.
use flyctl.Base.{
  sum, ℕ, suc, ◌+◌, String, Bool, true, false, not, ◌&&◌, ◌||◌, List, [], ◌∷◌, ◌++◌, length, ◌==◌,
  if◌then◌else◌,
}
use flyctl.Bluegreen.Types.{MachineConfig, Entry}
use flyctl.Bluegreen.Errors.{
  Error, Cause, Result, ok, err, is, aborted, create_green, started_state, wait_healthy, mark_ready,
  cordon_blue, stop_blue, stopped_state, destroy_blue, tag_deletion, validation, org_limit,
  stop_failures,
}
use flyctl.Bluegreen.Platform.{
  Platform, Runner, Round, Deployment, M, pure, fail, ◌>>=◌, ◌>>◌, with_cause, recover, ask,
  perform, destroy, green,
}
use flyctl.Bluegreen.Images.{detect_multiple_image_versions}
use flyctl.Bluegreen.Waits.{
  wait_started, start_states, wait_healthy_loop, health_states, wait_stopped, waitable,
}
use flyctl.Bluegreen.Launch.{pause}
use flyctl.Bluegreen.Stages.{
  check_aborted, create_green_machines, mark_green_machines_as_ready_for_traffic,
  tag_blue_machines_as_safe_for_deletion, cordon_blue_machines, stop_blue_machines,
  destroy_blue_machines,
}

unfoldable pub machine_checks : MachineConfig → ℕ
machine_checks cfg = cfg.checks + sum cfg.service_checks

-- The machines with checks, as Deploy counts them before it starts.
unfoldable pub count_with_checks : List Entry → ℕ
count_with_checks [] = 0
count_with_checks (e ∷ es) =
    let rest = count_with_checks es in if machine_checks e.input.config == 0 then rest else suc rest

-- errors.Join(err, c)
abbrev pub join : Cause → Error → Error
join c e = e ++ (c ∷ [])

unfoldable pub can_destroy_green_machines : Bool → Error → Bool
can_destroy_green_machines can_delete e =
    is e create_green
    || is e started_state
    || is e wait_healthy
    || is e mark_ready
    || (is e aborted && can_delete)

module _ {W : Type 0} (platform : Platform W) (runner : Runner W) where
  unfoldable pub guard : Bool → Error → M W (Unit {0})
  guard b e = if b then pure tt else fail e

  unfoldable pub validate_checks : M W (Unit {0})
  validate_checks s =
      guard (not (count_with_checks s.blue_machines == 0 && not (length s.blue_machines == 0)))
        (validation ∷ []) s

  -- A wait over the rounds that the world shows.
  abbrev pub watch :
      {A : Type 0}
      → (W → List (Round A) × W)
      → (List (Round A) → Result (Unit {0}))
      → M W (Unit {0})
  watch rounds loop s = (loop (rounds s.world).0, record s { world = (rounds s.world).1 })

  unfoldable pub wait_for_green_machines_to_be_started : M W (Unit {0})
  wait_for_green_machines_to_be_started s =
      watch (platform.start_rounds s.green_machines)
        (λ rs. wait_started rs (start_states s.green_machines)) s

  unfoldable pub wait_for_green_machines_to_be_healthy : M W (Unit {0})
  wait_for_green_machines_to_be_healthy s =
      watch (platform.health_rounds s.green_machines)
        (λ rs. wait_healthy_loop rs (health_states s.green_machines)) s

  unfoldable pub wait_for_blue_machines_to_be_stopped : M W (Unit {0})
  wait_for_blue_machines_to_be_stopped s =
      watch (platform.stop_rounds (waitable s.blue_machines))
        (λ rs. wait_stopped rs (length (waitable s.blue_machines)) 0 false) s

  -- Failures to stop single machines are printed; any other error ends the deployment.
  unfoldable pub tolerate_stop_failures : Error → M W (Unit {0})
  tolerate_stop_failures e = if is e stop_failures then pure tt else fail (join stopped_state e)

  -- bg.rollbackLog.canDeleteGreenMachines = false
  unfoldable pub keep_green_machines : M W (Unit {0})
  keep_green_machines s = (ok tt, record s { can_delete_green = false })

  unfoldable pub detect_images : M W (Unit {0})
  detect_images s = detect_multiple_image_versions platform runner s.blue_machines s

  -- Deploy up to the point at which the green machines take traffic.
  unfoldable pub bring_up_green : M W (Unit {0})
  bring_up_green = do
    check_aborted platform runner
    can_perform ← ask platform.can_perform
    guard can_perform (org_limit ∷ [])
    detect_images
    validate_checks
    with_cause (join create_green) (create_green_machines platform runner)
    check_aborted platform runner
    pause platform
    with_cause (join started_state) wait_for_green_machines_to_be_started
    check_aborted platform runner
    with_cause (join wait_healthy) wait_for_green_machines_to_be_healthy
    check_aborted platform runner
    with_cause (join mark_ready) (mark_green_machines_as_ready_for_traffic platform runner)

  -- The rest of Deploy.
  unfoldable pub tear_down_blue : M W (Unit {0})
  tear_down_blue = do
    check_aborted platform runner
    with_cause (join tag_deletion) (tag_blue_machines_as_safe_for_deletion platform runner)
    check_aborted platform runner
    pause platform
    check_aborted platform runner
    with_cause (join cordon_blue) (cordon_blue_machines platform runner)
    check_aborted platform runner
    pause platform
    check_aborted platform runner
    with_cause (join stop_blue) (stop_blue_machines platform runner)
    recover wait_for_blue_machines_to_be_stopped tolerate_stop_failures
    with_cause (join destroy_blue) (destroy_blue_machines platform runner)

  unfoldable pub deploy : M W (Unit {0})
  deploy = bring_up_green >>= λ _. keep_green_machines >>= λ _. tear_down_blue

  -- The loop of Rollback ends with the first green machine that cannot be destroyed.
  unfoldable pub destroy_green_machines : List Entry → M W (Unit {0})
  destroy_green_machines [] = pure tt
  destroy_green_machines (e ∷ es) =
      perform destroy green e.machine.id (platform.destroy e.machine) >>= λ _.
      destroy_green_machines es

  unfoldable pub rollback : Error → M W (Unit {0})
  rollback e s =
      if s.disable_rollback
      then (ok tt, s)
      else if is e destroy_blue
      then (ok tt, s)
      else if can_destroy_green_machines s.can_delete_green e
      then destroy_green_machines s.green_machines s
      else (ok tt, s)

  abbrev pub report : Error → Result (Unit {0}) → Result (Unit {0})
  report e (ok a) = err e
  report e (err rollback_error) = err rollback_error

  -- After a deployment that fails, the rollback; its error goes first.
  abbrev pub roll_back_after : Result (Unit {0}) → M W (Unit {0})
  roll_back_after (ok a) s = (ok a, s)
  roll_back_after (err e) s = (report e (rollback e s).0, (rollback e s).1)

  -- The deployment that BlueGreenStrategy sets up.
  unfoldable pub blue_green_strategy : String → List Entry → W → Deployment W
  blue_green_strategy timestamp blue world = record {
    world = world;
    log = [];
    green_machines = [];
    blue_machines = blue;
    hanging = [];
    can_delete_green = true;
    disable_rollback = false;
    timestamp = timestamp;
  }

  unfoldable pub run_and_roll_back : M W (Unit {0})
  run_and_roll_back s = roll_back_after (deploy s).0 (deploy s).1

  unfoldable pub update_using_blue_green_strategy :
      String → List Entry → W → Result (Unit {0}) × Deployment W
  update_using_blue_green_strategy timestamp blue world =
      run_and_roll_back (blue_green_strategy timestamp blue world)
