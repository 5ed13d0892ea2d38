-- ===== src/Bluegreen/Tests.antt =====
-- A run of a blue-green deployment, and the theorems at concrete inputs.
use flyctl.Base.{
  length, suc, false≢true, eq_iff, Any, List, ◌∷◌, some, true, false, ℕ, ◌≡◌, refl, ap, [], lookup,
  put, All,
}
use flyctl.Bluegreen.Types.{
  Entry, HealthStatus, host_is_ok, image_ref_is_empty, machine_has_configured_checks,
}
use flyctl.Bluegreen.Errors.{err, api, ok, is, is_transient_flaps_error, flaps_status}
use flyctl.Bluegreen.Platform.{Platform, Deployment, Round}
use flyctl.Bluegreen.Samples.{entry_of, platform, runner, try, in_order, two_blue}
use flyctl.Bluegreen.Starts.{
  flag, scan_machine, scan_machines, representatives, force_start_representatives,
}
use flyctl.Bluegreen.Images.{
  tally_machine, tally_machines, tally_image, is_single_image, detect_multiple_image_versions,
}
use flyctl.Bluegreen.Waits.{
  all_machines_started, start_states, wait_started, all_machines_healthy, health_states,
  wait_healthy_loop, waitable, wait_stopped,
}
use flyctl.Bluegreen.Launch.{
  find_green_machine, find_by_launch_id, check_context, pause, launch_attempts,
  launch_green_machine_with_retry,
}
use flyctl.Bluegreen.Stages.{
  check_aborted, new_launch_id, add_green, release_lease, green_input, create_green_machine,
  create_tasks, create_green_machines, mark_ready_task, mark_green_machines_as_ready_for_traffic,
  tag_task, tag_blue_machines_as_safe_for_deletion, cordon_task, cordon_blue_machines, stop_task,
  stop_blue_machines, destroy_op, destroy_task, destroy_blue_machines,
}
use flyctl.Bluegreen.Run.{
  count_with_checks, guard, validate_checks, wait_for_green_machines_to_be_started,
  wait_for_green_machines_to_be_healthy, wait_for_blue_machines_to_be_stopped, keep_green_machines,
  detect_images, bring_up_green, tear_down_blue, deploy, machine_checks, blue_green_strategy,
  run_and_roll_back, update_using_blue_green_strategy,
}
use flyctl.Bluegreen.Safety.{Safe, update-Safe}
use flyctl.Bluegreen.Forced.{group, StartsFrom, force_start-StartsFrom}
use flyctl.Bluegreen.Healthy.{DistinctIds, IsAwaited, Reports, wait_healthy-Reports}
use flyctl.Bluegreen.Finish.{Served, update-Served}

abbrev finish : Deployment ℕ
finish = (update_using_blue_green_strategy platform runner "t" two_blue 0).1

succeeds_on_samples : (update_using_blue_green_strategy platform runner "t" two_blue 0).0 ≡ ok tt
unfolding lookup put host_is_ok image_ref_is_empty machine_has_configured_checks is
    is_transient_flaps_error flaps_status try in_order flag scan_machine scan_machines
    representatives force_start_representatives tally_machine tally_machines tally_image
    is_single_image detect_multiple_image_versions all_machines_started start_states wait_started
    all_machines_healthy health_states wait_healthy_loop waitable wait_stopped check_context pause
    launch_attempts launch_green_machine_with_retry check_aborted new_launch_id add_green
    release_lease green_input create_green_machine create_tasks create_green_machines
    mark_ready_task mark_green_machines_as_ready_for_traffic tag_task
    tag_blue_machines_as_safe_for_deletion cordon_task cordon_blue_machines stop_task
    stop_blue_machines destroy_op destroy_task destroy_blue_machines count_with_checks guard
    validate_checks wait_for_green_machines_to_be_started wait_for_green_machines_to_be_healthy
    wait_for_blue_machines_to_be_stopped keep_green_machines detect_images bring_up_green
    tear_down_blue deploy machine_checks blue_green_strategy run_and_roll_back
    update_using_blue_green_strategy
succeeds_on_samples = refl

update-Safe_example : Safe platform runner finish
update-Safe_example = update-Safe platform runner "t" two_blue 0

update-Served_example : Served platform runner two_blue finish
update-Served_example =
    update-Served platform runner "t" two_blue 0 finish (ap (λ r. (r, finish)) succeeds_on_samples)

-- The second green machine stays stopped, and the first one is healthy after two rounds.
abbrev health_reports : List (Round HealthStatus)
health_reports =
    (record { abort = false; report = some ("g1", ok (record { total = 2; passing = 1 })) })
    ∷ (record { abort = false; report = some ("g1", ok (record { total = 2; passing = 2 })) })
    ∷ []

abbrev two_green : List Entry
two_green = entry_of "g1" false ∷ entry_of "g2" true ∷ []

two_green-DistinctIds : DistinctIds two_green
two_green-DistinctIds = (((λ e. false≢true ((eq_iff "g2" "g1").1 e)), tt), (tt, tt))

healthy_in_time : wait_healthy_loop health_reports (health_states two_green) ≡ ok tt
unfolding wait_healthy_loop health_states all_machines_healthy machine_has_configured_checks put
healthy_in_time = refl

wait_healthy-Reports_example :
    All (λ e. IsAwaited e → Any (Reports e.machine.id) health_reports) two_green
wait_healthy-Reports_example =
    wait_healthy-Reports two_green health_reports two_green-DistinctIds healthy_in_time

-- Every launch is answered with a 503.
abbrev unavailable : Platform ℕ
unavailable = record platform { launch = λ input w. (err (api (some 503) [] ∷ []), suc w) }

abbrev before : Deployment ℕ
before = record {
  world = 0;
  log = [];
  green_machines = [];
  blue_machines = two_blue;
  hanging = [];
  can_delete_green = true;
  disable_rollback = false;
  timestamp = "t";
}

-- All three launches are made.
three_launches :
    length
      (launch_green_machine_with_retry unavailable 3 (entry_of "b1" false).input "id" before).1.log
    ≡ 3
unfolding launch_green_machine_with_retry launch_attempts check_context pause find_green_machine
    find_by_launch_id is_transient_flaps_error is flaps_status
three_launches = refl

-- Both machines are stopped, so the first one of the group is started.
abbrev two_stopped : List Entry
two_stopped = entry_of "b1" true ∷ entry_of "b2" true ∷ []

one_forced : force_start_representatives two_stopped ≡ 0 ∷ []
unfolding force_start_representatives representatives scan_machines scan_machine flag lookup put
    machine_has_configured_checks
one_forced = refl

force_start-StartsFrom_example :
    All
      (λ e.
        machine_has_configured_checks e.input.config ≡ true
        → StartsFrom 0 (force_start_representatives two_stopped) (group e) two_stopped)
      two_stopped
force_start-StartsFrom_example = force_start-StartsFrom two_stopped
