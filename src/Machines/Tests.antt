-- ===== src/Machines/Tests.antt =====
-- Runs of the package, and the theorems at these inputs.
use flyctl.Base.{All, Any, ◌≡◌, ◌⊎◌, inl, inr, refl, true, false, none, some, List, [], ◌∷◌}
use flyctl.Bluegreen.Errors.{api, flaps_status}
use flyctl.Bluegreen.Types.{MachineConfig}
use flyctl.Machines.Api.{Failure, done, failed}
use flyctl.Machines.Leasable.{
  Action, updates, destroys, acquires, releases, starts, run, act, update_machine, destroy_machine,
  acquire_lease, release_the_lease, start_machine, new_leasable_machine, reset_lease,
}
use flyctl.Machines.Waits.{
  Round, over, live, interrupted, expired, wait_for_state, HealthRound,
  wait_for_healthchecks_to_pass, health_loop, checks_of,
}
use flyctl.Machines.Waits.Ends.{IsOver, wait_for_state-IsOver}
use flyctl.Machines.Waits.Sound.{
  Reaches, wait_for_state-Reaches, EndsWell, wait_for_healthchecks-EndsWell,
}
use flyctl.Machines.Sets.{acquire_leases}
use flyctl.Machines.Sets.Clears.{
  IsLeased, Pairwise, GivesBack, tried, Names, acquire_leases-AllOrNone,
}
use flyctl.Machines.Samples.{flaps, lost, leasable, set}

-- A lease, an update, the destruction, and three calls that are refused or only try for a lease.
abbrev actions : List (Action (Unit {0}))
actions = acquires ∷ updates tt ∷ destroys true ∷ updates tt ∷ starts ∷ releases ∷ acquires ∷ []

run_calls : (run flaps actions leasable).world ≡ 4
unfolding run act acquire_lease update_machine destroy_machine release_the_lease start_machine
    new_leasable_machine reset_lease
run_calls = refl

-- An answer that the machine is not in the state yet, and one that it is.
abbrev not_yet : Round
not_yet = record { error = some (api (some 408) [] ∷ []); context = live }

abbrev reached : Round
reached = record { error = none; context = live }

abbrev late : Round
late = record { error = some lost; context = expired }

wait_for_state_run : wait_for_state "started" false (not_yet ∷ reached ∷ []) ≡ over (done tt)
unfolding wait_for_state flaps_status
wait_for_state_run = refl

wait_for_state-IsOver_example : IsOver (wait_for_state "started" false (not_yet ∷ late ∷ []))
wait_for_state-IsOver_example =
    wait_for_state-IsOver "started" false (not_yet ∷ late ∷ []) (inr (inl (λ e. absurd (cc e))))

wait_for_state-Reaches_example : Any (Reaches "started") (not_yet ∷ reached ∷ [])
wait_for_state-Reaches_example =
    wait_for_state-Reaches "started" false (not_yet ∷ reached ∷ []) wait_for_state_run

-- One check that does not pass yet, and an interruption by the user.
abbrev failing : HealthRound
failing = record {
  error = none;
  context = interrupted;
  status = (record { total = 1; passing = 0 });
}

abbrev config : MachineConfig
config = record { process_group = "app"; checks = 1; service_checks = []; metadata = [] }

interrupted_run : wait_for_healthchecks_to_pass (some config) (failing ∷ []) ≡ over (done tt)
unfolding wait_for_healthchecks_to_pass health_loop
interrupted_run = refl

wait_for_healthchecks-EndsWell_example : (checks_of (some config) ≡ 0) ⊎ Any EndsWell (failing ∷ [])
wait_for_healthchecks-EndsWell_example =
    wait_for_healthchecks-EndsWell (some config) (failing ∷ []) interrupted_run

names : Names flaps
names id w l d e k x = absurd (cc (e, k, x))

acquire_leases-AllOrNone_example :
    (((acquire_leases flaps false set).0 ≡ done tt)
      × All IsLeased (acquire_leases flaps false set).1.machines)
    ⊎ (((f : Failure) × ((acquire_leases flaps false set).0 ≡ failed f))
        × Pairwise (GivesBack flaps) (tried flaps set) (acquire_leases flaps false set).1.machines)
acquire_leases-AllOrNone_example = acquire_leases-AllOrNone flaps names false set
