-- ===== src/Bluegreen/Waits.antt =====
-- The loops that wait for machines, over the rounds that they see.
use flyctl.Base.{
  ℕ, suc, String, Bool, true, not, ◌&&◌, Option, none, some, List, [], ◌∷◌, Dict, put, ◌==◌, str_eq,
  if◌then◌else◌,
}
use flyctl.Bluegreen.Types.{Entry, HealthStatus, machine_has_configured_checks, host_is_ok}
use flyctl.Bluegreen.Errors.{Error, Result, ok, err, aborted, wait_timeout, stop_failures}
use flyctl.Bluegreen.Platform.{Round}

unfoldable pub all_machines_started : Dict String → Bool
all_machines_started [] = true
all_machines_started ((id, state) ∷ m) = str_eq state "started" && all_machines_started m

-- The states before the first round: a machine that is not launched counts as started.
unfoldable pub start_states : List Entry → Dict String
start_states [] = []
start_states (e ∷ es) =
    put e.machine.id (if e.input.skip_launch then "started" else "created") (start_states es)

abbrev pub note_start : Option (String × Result (Unit {0})) → Dict String → Dict String
note_start none m = m
note_start (some (id, ok a)) m = put id "started" m
note_start (some (id, err e)) m = m

abbrev pub failure : {A : Type 0} → Option (String × Result A) → Option Error
failure none = none
failure (some (id, ok a)) = none
failure (some (id, err e)) = some e

abbrev pub or_next : Option Error → Result (Unit {0}) → Result (Unit {0})
or_next none next = next
or_next (some e) next = err e

-- The loop of WaitForGreenMachinesToBeStarted.
unfoldable pub wait_started : List (Round (Unit {0})) → Dict String → Result (Unit {0})
wait_started [] m = if all_machines_started m then ok tt else err (wait_timeout ∷ [])
wait_started (r ∷ rs) m =
    let rest = wait_started rs (note_start r.report m) in
    if all_machines_started m
    then ok tt
    else if r.abort
    then err (aborted ∷ [])
    else or_next (failure r.report) rest

unfoldable pub all_machines_healthy : Dict HealthStatus → Bool
all_machines_healthy [] = true
all_machines_healthy ((id, status) ∷ m) =
    not (status.total == 0) && status.passing == status.total && all_machines_healthy m

-- The statuses before the first round: a machine with no checks is not waited for.
unfoldable pub health_states : List Entry → Dict HealthStatus
health_states [] = []
health_states (e ∷ es) =
    if e.input.skip_launch
    then put e.machine.id (record { total = 1; passing = 1 }) (health_states es)
    else if not (machine_has_configured_checks e.input.config)
    then health_states es
    else put e.machine.id (record { total = 0; passing = 0 }) (health_states es)

abbrev pub note_health :
    Option (String × Result HealthStatus) → Dict HealthStatus → Dict HealthStatus
note_health none m = m
note_health (some (id, ok status)) m = put id status m
note_health (some (id, err e)) m = m

-- The loop of WaitForGreenMachinesToBeHealthy.
unfoldable pub wait_healthy_loop : List (Round HealthStatus) → Dict HealthStatus → Result (Unit {0})
wait_healthy_loop [] m = if all_machines_healthy m then ok tt else err (wait_timeout ∷ [])
wait_healthy_loop (r ∷ rs) m =
    let rest = wait_healthy_loop rs (note_health r.report m) in
    if all_machines_healthy m
    then ok tt
    else if r.abort
    then err (aborted ∷ [])
    else or_next (failure r.report) rest

abbrev pub count_report : Option (String × Result (Unit {0})) → ℕ → ℕ
count_report none n = n
count_report (some r) n = suc n

abbrev pub has_failed : Option (String × Result (Unit {0})) → Bool → Bool
has_failed (some (id, err e)) failed = true
has_failed _ failed = failed

-- The machines that are waited for: those on a host that is ok.
unfoldable pub waitable : List Entry → List Entry
waitable [] = []
waitable (e ∷ es) = let rest = waitable es in if host_is_ok e.machine then e ∷ rest else rest

-- The loop of WaitForBlueMachinesToBeStopped: `done` goroutines have ended out of `expected`, and the
-- failures are collected.
unfoldable pub wait_stopped : List (Round (Unit {0})) → ℕ → ℕ → Bool → Result (Unit {0})
wait_stopped [] expected done failed =
    if done == expected
    then (if failed then err (stop_failures ∷ []) else ok tt)
    else err (wait_timeout ∷ [])
wait_stopped (r ∷ rs) expected done failed =
    let rest = wait_stopped rs expected (count_report r.report done) (has_failed r.report failed) in
    if done == expected
    then (if failed then err (stop_failures ∷ []) else ok tt)
    else if r.abort
    then err (aborted ∷ [])
    else rest
