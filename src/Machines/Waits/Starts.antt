-- ===== src/Machines/Waits/Starts.antt =====
-- The waits of wait.go: WaitForStartOrStop and WaitForState.
use flyctl.Base.{String, Bool, ◌&&◌, Option, none, some, List, [], ◌∷◌, str_eq, if◌then◌else◌}
use flyctl.Base.Bytes.{codes}
use flyctl.Bluegreen.Errors.{Error, flaps_status, message, contains}
use flyctl.Machines.Api.{
  wait_timeout, invalid_action, restart_refused, api, Answer, done, failed, Reply, value, refused,
}
use flyctl.Machines.Waits.{
  Context, live, interrupted, expired, Wait, waiting, over, Round, has_status,
}

-- wait.go: the state that an action is waited for with.
unfoldable pub state_of_action : String → Option String
state_of_action action =
    if str_eq action "start"
    then some "started"
    else if str_eq action "stop"
    then some "stopped"
    else if str_eq action "settled"
    then some "settled"
    else none

abbrev pub refuses_restart : Bool → Error → Bool
refuses_restart no_restarts e =
    contains (codes "machine failed to reach desired state") (message e) && no_restarts

abbrev pub live_round : Bool → Error → Wait (Unit {0}) → Wait (Unit {0})
live_round no_restarts e rest =
    if refuses_restart no_restarts e
    then over (failed restart_refused)
    else if has_status 400 (flaps_status e)
    then over (failed (api e))
    else rest

abbrev pub failed_round : String → Bool → Context → Error → Wait (Unit {0}) → Wait (Unit {0})
failed_round state no_restarts interrupted e rest = over (failed (api e))
failed_round state no_restarts expired e rest = over (failed (wait_timeout state))
failed_round state no_restarts live e rest = live_round no_restarts e rest

-- The loop of WaitForStartOrStop; `no_restarts` says that the machine's restart policy is "no".
unfoldable pub start_or_stop_loop : String → Bool → List Round → Wait (Unit {0})
start_or_stop_loop state no_restarts [] = waiting
start_or_stop_loop state no_restarts (r ∷ rs) =
    let rest = start_or_stop_loop state no_restarts rs in
    elim r.error [
      | none ↦ over (done tt)
      | some e ↦ failed_round state no_restarts r.context e rest
    ]

unfoldable pub wait_for_start_or_stop : String → Bool → List Round → Wait (Unit {0})
wait_for_start_or_stop action no_restarts rs = elim (state_of_action action) [
  | none ↦ over (failed invalid_action)
  | some state ↦ start_or_stop_loop state no_restarts rs
]

abbrev pub seen_state : Reply String → Answer String
seen_state (value state) = done state
seen_state (refused e) = failed (api e)

abbrev pub after_wait : String → Reply String → Wait (Unit {0}) → Wait String
after_wait desired seen waiting = waiting
after_wait desired seen (over (failed f)) = over (failed f)
after_wait desired seen (over (done a)) =
    if str_eq desired "settled" then over (seen_state seen) else over (done desired)

-- WaitForState of wait.go; `seen` is the state that the machine is read in afterwards.
unfoldable pub wait_for_settled_state : String → Bool → List Round → Reply String → Wait String
wait_for_settled_state desired no_restarts rs seen =
    after_wait desired seen (wait_for_start_or_stop desired no_restarts rs)
