-- ===== src/Bluegreen/Stages.antt =====
-- The stages that change machines.
use flyctl.Base.{
  ℕ, ◌+◌, String, Bool, true, false, ◌||◌, Option, none, some, List, [], ◌∷◌, ◌++◌, put, ◌==◌,
  if◌then◌else◌,
}
use flyctl.Bluegreen.Types.{Machine, LaunchInput, Entry, host_is_ok}
use flyctl.Bluegreen.Errors.{Error, ok, err, aborted, flaps_status, is_transient_flaps_error}
use flyctl.Bluegreen.Platform.{
  Platform, Runner, M, pure, fail, ◌>>=◌, ◌>>◌, recover, perform, uncordon, cordon, stop, destroy,
  tag, blue, green,
}
use flyctl.Bluegreen.Starts.{force_start_representatives}
use flyctl.Bluegreen.Launch.{launch_id_key, launch_retry_attempts, launch_green_machine_with_retry}

abbrev pub bg_tag_key : String
bg_tag_key = "fly_bluegreen_deployment_tag"

abbrev pub safe_to_destroy : String
safe_to_destroy = "safe_to_destroy"

-- The attempts that `initialize` sets.
abbrev pub uncordon_retry_attempts : ℕ
uncordon_retry_attempts = 5

abbrev pub tag_retry_attempts : ℕ
tag_retry_attempts = 5

abbrev pub teardown_retry_attempts : ℕ
teardown_retry_attempts = 5

abbrev pub member : ℕ → List ℕ → Bool
member i [] = false
member i (j ∷ js) = i == j || member i js

-- The input for the green machine of the blue one at index `i`.
unfoldable pub green_input : Bool → String → String → LaunchInput → LaunchInput
green_input forced timestamp launch_id input = record input {
  skip_service_registration = true;
  skip_launch = (if forced then false else input.skip_launch);
  config = (record input.config {
    metadata = put launch_id_key launch_id (put bg_tag_key timestamp input.config.metadata);
  });
}

module _ {W : Type 0} (platform : Platform W) (runner : Runner W) where
  -- if bg.isAborted() { return ErrAborted }
  unfoldable pub check_aborted : M W (Unit {0})
  check_aborted s = if platform.is_aborted s.world then (err (aborted ∷ []), s) else (ok tt, s)

  unfoldable pub new_launch_id : M W String
  new_launch_id s = (
    ok (platform.new_launch_id s.world).0,
    record s { world = (platform.new_launch_id s.world).1 },
  )

  unfoldable pub add_green : Entry → M W (Unit {0})
  add_green e s = (ok tt, record s { green_machines = s.green_machines ++ (e ∷ []) })

  -- An error is only printed.
  unfoldable pub release_lease : Machine → M W (Unit {0})
  release_lease m s = (ok tt, record s { world = (platform.release_lease m s.world).1 })

  unfoldable pub create_green_machine : List ℕ → String → ℕ → Entry → M W (Unit {0})
  create_green_machine forced timestamp i e = check_aborted >>= λ _. new_launch_id >>= λ id.
      launch_green_machine_with_retry platform launch_retry_attempts
        (green_input (member i forced) timestamp id e.input) id
      >>= λ m.
          add_green
            (record { machine = m; input = green_input (member i forced) timestamp id e.input })
          >>= λ _. release_lease m

  unfoldable pub create_tasks : List ℕ → String → ℕ → List Entry → List (M W (Unit {0}))
  create_tasks forced timestamp i [] = []
  create_tasks forced timestamp i (e ∷ es) =
      create_green_machine forced timestamp i e ∷ create_tasks forced timestamp (i + 1) es

  unfoldable pub create_green_machines : M W (Unit {0})
  create_green_machines s =
      runner.pool
        (create_tasks (force_start_representatives s.blue_machines) s.timestamp 0 s.blue_machines) s

  -- The task of a pool for each machine of a list.
  abbrev pub tasks : (Entry → M W (Unit {0})) → List Entry → List (M W (Unit {0}))
  tasks f [] = []
  tasks f (e ∷ es) = f e ∷ tasks f es

  -- The machines on a host that is ok.
  abbrev pub on_ok_hosts : List Entry → List Entry
  on_ok_hosts [] = []
  on_ok_hosts (e ∷ es) =
      let rest = on_ok_hosts es in if host_is_ok e.machine then e ∷ rest else rest

  abbrev pub attempts : ℕ → (Error → Bool) → M W (Unit {0}) → M W (Unit {0})
  attempts n retry_if op = runner.retry (Unit {0}) n retry_if op

  unfoldable pub mark_ready_task : Entry → M W (Unit {0})
  mark_ready_task e =
      check_aborted
      >> attempts uncordon_retry_attempts (λ _. true)
          (perform uncordon green e.machine.id (platform.uncordon e.machine.id))

  unfoldable pub mark_green_machines_as_ready_for_traffic : M W (Unit {0})
  mark_green_machines_as_ready_for_traffic s =
      runner.pool (tasks mark_ready_task s.green_machines) s

  unfoldable pub tag_task : Entry → M W (Unit {0})
  tag_task e =
      recover
        (attempts tag_retry_attempts is_transient_flaps_error (
          perform tag blue e.machine.id
            (platform.set_metadata e.machine bg_tag_key safe_to_destroy)))
        (λ _. pure tt)

  unfoldable pub tag_blue_machines_as_safe_for_deletion : M W (Unit {0})
  tag_blue_machines_as_safe_for_deletion s =
      recover (runner.pool (tasks tag_task s.blue_machines)) (λ _. pure tt) s

  unfoldable pub cordon_task : Entry → M W (Unit {0})
  cordon_task e =
      check_aborted
      >> recover
          (attempts teardown_retry_attempts is_transient_flaps_error
            (perform cordon blue e.machine.id (platform.cordon e.machine)))
          (λ _. pure tt)

  unfoldable pub cordon_blue_machines : M W (Unit {0})
  cordon_blue_machines s = runner.pool (tasks cordon_task (on_ok_hosts s.blue_machines)) s

  unfoldable pub stop_task : Entry → M W (Unit {0})
  stop_task e =
      check_aborted
      >> recover
          (attempts teardown_retry_attempts is_transient_flaps_error
            (perform stop blue e.machine.id (platform.stop e.machine)))
          (λ _. pure tt)

  unfoldable pub stop_blue_machines : M W (Unit {0})
  stop_blue_machines s = runner.pool (tasks stop_task (on_ok_hosts s.blue_machines)) s

  abbrev pub is_404 : Option ℕ → Bool
  is_404 none = false
  is_404 (some n) = n == 404

  -- A machine that is not found counts as destroyed.
  unfoldable pub gone_is_ok : Error → M W (Unit {0})
  gone_is_ok e = if is_404 (flaps_status e) then pure tt else fail e

  unfoldable pub destroy_op : Entry → M W (Unit {0})
  destroy_op e =
      recover
        (perform destroy blue e.machine.id (
          if host_is_ok e.machine
          then platform.destroy e.machine
          else platform.force_destroy e.machine.id))
        gone_is_ok

  unfoldable pub add_hanging : String → M W (Unit {0})
  add_hanging id s = (ok tt, record s { hanging = s.hanging ++ (id ∷ []) })

  unfoldable pub destroy_task : Entry → M W (Unit {0})
  destroy_task e =
      check_aborted
      >> recover (attempts teardown_retry_attempts is_transient_flaps_error (destroy_op e))
          (λ _. add_hanging e.input.id)

  unfoldable pub destroy_blue_machines : M W (Unit {0})
  destroy_blue_machines s = runner.pool (tasks destroy_task s.blue_machines) s
