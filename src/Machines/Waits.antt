-- ===== src/Machines/Waits.antt =====
-- The loops of internal/machine that wait for a machine, over the rounds that they see:
-- leasable_machine.go and wait.go. A loop that the rounds do not end is still `waiting`.
pub mod Starts
pub mod Refresh
pub mod Ends
pub mod Sound
use flyctl.Base.{
  ℕ, zero, suc, ◌+◌, String, Bool, true, false, not, ◌&&◌, ◌||◌, Option, none, some, List, [], ◌∷◌,
  str_eq, ltb, leb, ◌==◌, if◌then◌else◌, sum,
}
use flyctl.Base.Bytes.{Bytes, codes}
use flyctl.Bluegreen.Types.{MachineConfig, HealthStatus}
use flyctl.Bluegreen.Errors.{Error, flaps_status, message, contains, is, canceled}
use flyctl.Machines.Api.{
  Failure, not_acquired, wait_timeout, crashing, invalid_action, restart_refused, checks_timeout,
  api, Answer, done, failed, Flaps, Reply, value, refused,
}
use flyctl.Machines.Leasable.{Leasable, refresh_lease}

-- What the context of a wait says: `expired` is DeadlineExceeded.
pub data Context : Type 0 where
  live interrupted expired : Context

pub data Wait (A : Type 0) : Type 0 where
  waiting : Wait A
  over : Answer A → Wait A

-- The error of the call of a round, and the context after it.
pub record Round : Type 0 where
  pub error : Option Error
  pub context : Context

-- return err
abbrev pub return_error : Option Error → Answer (Unit {0})
return_error none = done tt
return_error (some e) = failed (api e)

abbrev pub has_status : ℕ → Option ℕ → Bool
has_status n none = false
has_status n (some m) = m == n

abbrev pub is_not_found : Option Error → Bool
is_not_found none = false
is_not_found (some e) = has_status 404 (flaps_status e)

abbrev pub is_error : Option Error → Bool
is_error none = false
is_error (some e) = true

-- A timeout in seconds: the deadline that is put on the context, if any, and the
-- timeout of each call.
unfoldable pub resolve_timeout_context : ℕ → Bool → Option ℕ × ℕ
resolve_timeout_context timeout allow_infinite =
    let timeout' = if not allow_infinite && timeout == 0 then 120 else timeout in
    if timeout' == 0 then (none, 120) else (some timeout', timeout')

-- A round of WaitForState while its context is live; `rest` is what the next rounds give.
abbrev pub state_round : String → Bool → Option Error → Wait (Unit {0}) → Wait (Unit {0})
state_round desired just_created error rest =
    if is_not_found error && str_eq desired "destroyed"
    then over (done tt)
    else if is_not_found error && just_created
    then rest
    else if is_not_found error
    then over (return_error error)
    else if is_error error
    then rest
    else over (done tt)

-- WaitForState of a leasableMachine.
unfoldable pub wait_for_state : String → Bool → List Round → Wait (Unit {0})
wait_for_state desired just_created [] = waiting
wait_for_state desired just_created (r ∷ rs) =
    let rest = wait_for_state desired just_created rs in
    elim r.context [
      | interrupted ↦ over (return_error r.error)
      | expired ↦ over (failed (wait_timeout desired))
      | live ↦ state_round desired just_created r.error rest
    ]

-- An exit event of a machine.
pub record ExitEvent : Type 0 where
  pub requested_stop : Bool
  pub restarting : Bool
  pub restart_count : ℕ
  pub exit_code_zero : Bool

-- The exit events of a machine, in its order; only the first one counts.
unfoldable pub is_constantly_restarting : List ExitEvent → Bool
is_constantly_restarting [] = false
is_constantly_restarting (e ∷ es) =
    not e.requested_stop && e.restarting && ltb 1 e.restart_count && not e.exit_code_zero

-- What WaitForSmokeChecksToPass sees in a round: its uptime is 0 if the start is not known.
pub record SmokeRound : Type 0 where
  pub error : Option Error
  pub context : Context
  pub exits : List ExitEvent
  pub uptime : ℕ

abbrev pub smoke_time : ℕ
smoke_time = 10

unfoldable pub wait_for_smoke_checks_to_pass : List SmokeRound → Wait (Unit {0})
wait_for_smoke_checks_to_pass [] = waiting
wait_for_smoke_checks_to_pass (r ∷ rs) =
    let rest = wait_for_smoke_checks_to_pass rs in
    let restarting = is_constantly_restarting r.exits in
    if ltb smoke_time r.uptime && not restarting then over (done tt) else elim r.context [
      | interrupted ↦ over (return_error r.error)
      | expired ↦ over (done tt)
      | live ↦
          if is_error r.error
          then over (return_error r.error)
          else if restarting
          then over (failed crashing)
          else rest
    ]

pub record HealthRound : Type 0 where
  pub error : Option Error
  pub context : Context
  pub status : HealthStatus

abbrev pub all_passing : HealthStatus → Bool
all_passing status = status.passing == status.total

-- A round of WaitForHealthchecksToPass while its context is live.
abbrev pub health_round : Option Error → HealthStatus → Wait (Unit {0}) → Wait (Unit {0})
health_round error status rest =
    if is_error error
    then over (return_error error)
    else if status.total == 0 || not (all_passing status)
    then rest
    else over (done tt)

-- The loop of WaitForHealthchecksToPass.
unfoldable pub health_loop : List HealthRound → Wait (Unit {0})
health_loop [] = waiting
health_loop (r ∷ rs) =
    let rest = health_loop rs in
    elim r.context [
      | interrupted ↦ over (return_error r.error)
      | expired ↦ over (failed checks_timeout)
      | live ↦ health_round r.error r.status rest
    ]

abbrev pub checks_of : Option MachineConfig → ℕ
checks_of none = 0
checks_of (some cfg) = cfg.checks + sum cfg.service_checks

unfoldable pub wait_for_healthchecks_to_pass :
    Option MachineConfig → List HealthRound → Wait (Unit {0})
wait_for_healthchecks_to_pass cfg rs =
    let loop = health_loop rs in if checks_of cfg == 0 then over (done tt) else loop

-- What WaitForEventType and WaitForEventTypeAfterType see in a round: the event that they look for, of
-- a type of the model's own, if the machine has one.
pub record EventRound (E : Type 0) : Type 0 where
  pub error : Option Error
  pub context : Context
  pub event : Option E

abbrev pub event_or : {E : Type 0} → Option E → Wait (Option E) → Wait (Option E)
event_or none rest = rest
event_or (some e) rest = over (done (some e))

abbrev pub no_event : {E : Type 0} → Option Error → Answer (Option E)
no_event none = done none
no_event (some e) = failed (api e)

unfoldable pub wait_for_event_type : {E : Type 0} → List (EventRound E) → Wait (Option E)
wait_for_event_type [] = waiting
wait_for_event_type (r ∷ rs) =
    let rest = wait_for_event_type rs in
    elim r.context [
      | interrupted ↦ over (no_event r.error)
      | expired ↦ over (failed checks_timeout)
      | live ↦ if is_error r.error then over (no_event r.error) else event_or r.event rest
    ]

-- The interval and the grace period of a check, in milliseconds, if they are set.
pub record CheckTimes : Type 0 where
  pub interval : Option ℕ
  pub grace_period : Option ℕ

abbrev pub smaller : ℕ → Option ℕ → ℕ
smaller n none = n
smaller n (some m) = if ltb m n then m else n

-- The two loops of GetMinIntervalAndMinGracePeriod, over the checks of the machine and of its services.
unfoldable pub min_times : List CheckTimes → ℕ × ℕ → ℕ × ℕ
min_times [] times = times
min_times (c ∷ cs) (i, g) = min_times cs (smaller i c.interval, smaller g c.grace_period)

unfoldable pub get_min_interval_and_min_grace_period : List CheckTimes → ℕ × ℕ
get_min_interval_and_min_grace_period cs = min_times cs (60000, 1000)
