-- ===== src/Rollout/Entries.antt =====
-- The update of one machine: updateMachine, updateMachineByReplace, updateMachineInPlace and
-- waitForMachine, and what updateEntriesGroup does with an entry.
pub mod Careful
use flyctl.Base.{
  ℕ, String, Bool, true, false, ◌||◌, ◌⊎◌, inl, inr, Option, none, some, List, [], ◌∷◌,
  if◌then◌else◌, ltb,
}
use flyctl.Base.Bytes.{codes}
use flyctl.Bluegreen.Errors.{contains}
use flyctl.Plan.Checks.{Fault}

-- A machine; `mounts` is how many its configuration has.
pub record Machine : Type 0 where
  pub id : String
  pub state : String
  pub mounts : ℕ

pub record LaunchInput : Type 0 where
  pub group : String
  pub requires_replacement : Bool
  pub skip_launch : Bool
  pub lease_ttl : ℕ

-- machineUpdateEntry
pub record Entry : Type 0 where
  pub machine : Machine
  pub launch_input : LaunchInput

-- What is called for a machine.
pub data Act : Type 0 where
  updates destroys launches releases waits_for_start runs_tests smoke_checks waits_for_health : Act
  checks_address : Act

-- A call, for the machine with the id, and the error that it was answered with, if any. A launch has the
-- id of the machine that is replaced.
pub record Call : Type 0 where
  pub act : Act
  pub id : String
  pub fault : Option Fault

-- The world, and the calls made so far, the last one first.
pub record Site (W : Type 0) : Type 0 where
  pub world : W
  pub log : List Call

pub record EntryCalls (W : Type 0) : Type 0 where
  pub destroy : Machine → W → Option Fault × W
  pub launch : LaunchInput → W → (Fault ⊎ Machine) × W
  pub update : Machine → LaunchInput → W → (Fault ⊎ Machine) × W
  pub release_lease : Machine → W → Option Fault × W
  pub wait_for_start : Machine → W → Option Fault × W
  pub run_test_machines : Machine → W → Option Fault × W
  pub do_smoke_checks : Machine → W → Option Fault × W
  pub wait_for_healthchecks : Machine → W → Option Fault × W
  pub warn_about_listen_address : Machine → W → W

abbrev pub fault_of : Fault ⊎ Machine → Option Fault
fault_of (inl f) = some f
fault_of (inr m) = none

-- The result of a call, which is put into the log.
abbrev pub logged :
    {W A : Type 0} → Act → String → (A → Option Fault) → List Call → A × W → A × Site W
logged act id fault log (a, w) =
    (a, record { world = w; log = (record { act = act; id = id; fault = fault a }) ∷ log })

abbrev pub as_it_is : Option Fault → Option Fault
as_it_is o = o

-- `wait_seconds` is md.waitTimeout.Seconds().
module _ {W : Type 0} (calls : EntryCalls W) (wait_seconds : ℕ) where
  abbrev pub make :
      Act → (Machine → W → Option Fault × W) → Machine → Site W → Option Fault × Site W
  make act call m s = logged act m.id as_it_is s.log (call m s.world)

  -- The lease of the new machine is released on return; an error of that is only logged.
  abbrev pub after_launch : Entry → (Fault ⊎ Machine) × Site W → Option Fault × Entry × Site W
  after_launch e (inl f, s) = (some f, e, s)
  after_launch e (inr m, s) =
      (none, record e { machine = m }, (make releases calls.release_lease m s).1)

  abbrev pub after_destroy : Entry → Option Fault × Site W → Option Fault × Entry × Site W
  after_destroy e (some f, s) = (some f, e, s)
  after_destroy e (none, s) =
      let e' : Entry = record e {
        launch_input = record e.launch_input { lease_ttl = wait_seconds };
      } in
      after_launch e'
        (logged launches e.machine.id fault_of s.log (calls.launch e'.launch_input s.world))

  unfoldable pub update_by_replace : Entry → Site W → Option Fault × Entry × Site W
  update_by_replace e s = after_destroy e (make destroys calls.destroy e.machine s)

  abbrev pub with_update : Entry → (Fault ⊎ Machine) × Site W → Option Fault × Entry × Site W
  with_update e (inl f, s) = (some f, e, s)
  with_update e (inr m, s) = (none, record e { machine = m }, s)

  unfoldable pub update_in_place : Entry → Site W → Option Fault × Entry × Site W
  update_in_place e s =
      with_update e
        (logged updates e.machine.id fault_of s.log (calls.update e.machine e.launch_input s.world))

  -- The host has no room for the machine, or takes no deploys.
  unfoldable pub has_no_capacity : Fault → Bool
  has_no_capacity f =
      contains (codes "could not reserve resource for machine") f.text
      || contains (codes "deploys to this host are temporarily disabled") f.text

  abbrev pub after_in_place : Option Fault × Entry × Site W → Option Fault × Entry × Site W
  after_in_place (none, e, s) = (none, e, s)
  after_in_place (some f, e, s) =
      if ltb 0 e.machine.mounts
      then (some f, e, s)
      else if has_no_capacity f
      then update_by_replace e s
      else (some f, e, s)

  unfoldable pub update_machine : Entry → Site W → Option Fault × Entry × Site W
  update_machine e s =
      if e.launch_input.requires_replacement
      then update_by_replace e s
      else after_in_place (update_in_place e s)

  abbrev pub and_then :
      Option Fault × Site W → (Site W → Option Fault × Site W) → Option Fault × Site W
  and_then (some f, s) next = (some f, s)
  and_then (none, s) next = next s

  module _ (skip_health_checks : Bool) where
    abbrev pub unless_skipped : (Site W → Option Fault × Site W) → Site W → Option Fault × Site W
    unless_skipped check s = if skip_health_checks then (none, s) else check s

    abbrev pub start_checks : Machine → Site W → Option Fault × Site W
    start_checks m s =
        and_then (make waits_for_start calls.wait_for_start m s)
          (make runs_tests calls.run_test_machines m)

    -- warnAboutIncorrectListenAddress after a result, which is returned as it is
    abbrev pub then_warn : Machine → Option Fault × Site W → Option Fault × Site W
    then_warn m (o, s) =
        (o, (make checks_address (λ m w. (none, calls.warn_about_listen_address m w)) m s).1)

    unfoldable pub wait_for_machine : Entry → Site W → Option Fault × Site W
    wait_for_machine e s =
        if e.launch_input.skip_launch
        then (none, s)
        else and_then (unless_skipped (start_checks e.machine) s) (λ t.
          and_then (make smoke_checks calls.do_smoke_checks e.machine t) (λ u.
            then_warn e.machine
              (unless_skipped (make waits_for_health calls.wait_for_healthchecks e.machine) u)))

    abbrev pub wait_after : Option Fault × Entry × Site W → Option Fault × Site W
    wait_after (some f, e, s) = (some f, s)
    wait_after (none, e, s) = wait_for_machine e s

    -- updateFunc, past the test of the context
    unfoldable pub update_entry : Entry → Site W → Option Fault × Site W
    update_entry e s = wait_after (update_machine e s)
