-- ===== src/Rollout/Tests.antt =====
-- Two new process groups, and updates of a group of three machines, of which the third one fails its smoke checks, and the theorems
-- for them.
use flyctl.Base.{
  Dict, arith, ◌≡◌, ◌≢◌, refl, ℕ, suc, ◌≤◌, ◌<◌, String, Bool, true, false, Option, none, some,
  List, [], ◌∷◌, ◌⊎◌, inl, inr, All, str_eq, if◌then◌else◌, length, lookup, put, group_by,
}
use flyctl.Base.Bytes.{codes}
use flyctl.Plan.Checks.{Fault}
use flyctl.Rollout.Entries.{
  Machine, LaunchInput, Entry, updates, Site, EntryCalls, update_in_place, update_machine,
  wait_for_machine, update_entry,
}
use flyctl.Rollout.Entries.Careful.{checks, update_machine-once, update_entry-checks}
use flyctl.Rollout.Pool.{Event, begins, returns, take_nth, begin_next, step, wait_result}
use flyctl.Rollout.Pool.Taken.{count}
use flyctl.Rollout.Group.{Progress, start_group, step_group, run_group, group_result}
use flyctl.Rollout.Group.Bounds.{down, run_group-down}
use flyctl.Rollout.Group.Accounts.{updated, EndsWell, run_group-Outcome}
use flyctl.Rollout.Creation.{
  SpawnCalls, Yard, check_spawned, spawn_machine_in_group, spare_machine, create_groups, names_of,
  deploy_create_machines_for_groups,
}
use flyctl.Rollout.Creation.Arranged.{Arranged, deploy_create_machines-Arranged}
use flyctl.Rollout.Rolling.{share, rolling_jobs, keep, group_jobs}
use flyctl.Rollout.Rolling.Jobs.{count_jobs, IsSound, rolling_jobs-IsSound}

abbrev fault : Fault
fault = record { unrecoverable = false; canceled = false; text = codes "smoke" }

abbrev stop : Fault
stop = record { unrecoverable = false; canceled = true; text = codes "context canceled" }

abbrev input : LaunchInput
input = record { group = "web"; requires_replacement = false; skip_launch = false; lease_ttl = 0 }

abbrev entry : String → String → Entry
entry id state = record {
  machine = record { id = id; state = state; mounts = 1 };
  launch_input = input;
}

abbrev entries : List Entry
entries = entry "a" "started" ∷ entry "b" "stopped" ∷ entry "c" "started" ∷ []

-- The world counts the calls.
abbrev fine : Machine → ℕ → Option Fault × ℕ
fine m w = (none, suc w)

abbrev calls : EntryCalls ℕ
calls = record {
  destroy = fine;
  launch = λ i w. (inl fault, suc w);
  update = λ m i w. (inr m, suc w);
  release_lease = fine;
  wait_for_start = fine;
  run_test_machines = fine;
  do_smoke_checks = λ m w. ((if str_eq m.id "c" then some fault else none), suc w);
  wait_for_healthchecks = fine;
  warn_about_listen_address = λ m w. suc w;
}

abbrev task : Entry → Site ℕ → Option Fault × Site ℕ
task = update_entry calls 60 false

abbrev site : Site ℕ
site = record { world = 0; log = [] }

-- The second and the third machine are updated at the same time.
abbrev events : List Event
events = begins ∷ returns 0 ∷ begins ∷ begins ∷ returns 0 ∷ returns 0 ∷ []

abbrev or_start : Option (Progress (Site ℕ) Entry) → Progress (Site ℕ) Entry
or_start none = start_group entries site
or_start (some s) = s

abbrev final : Progress (Site ℕ) Entry
final = or_start (run_group task 2 stop events (start_group entries site))

runs : run_group task 2 stop events (start_group entries site) ≡ some final
unfolding run_group step_group start_group step begin_next take_nth update_entry update_machine
    update_in_place wait_for_machine
runs = refl

one_error : group_result final ≡ some (fault ∷ [])
unfolding group_result wait_result run_group step_group start_group step begin_next take_nth
    update_entry update_machine update_in_place wait_for_machine
one_error = refl

run_group-down_example : (down final ≤ 1) ⊎ (down final ≤ 2)
run_group-down_example = run_group-down task 2 stop entries site events final runs

run_group-Outcome_example :
    ((fault ∷ []) ≡ []
      → ((test : Entry → Bool) → count test (updated final) ≡ count test entries)
        × All (EndsWell task) (updated final))
    × ((fault ∷ []) ≢ [] → length (updated final) < length entries)
run_group-Outcome_example =
    run_group-Outcome task 2 stop entries site events final (fault ∷ []) runs one_error

update_machine-once_example :
    ((update_machine calls 60 (entry "a" "started") site).0 ≡ none)
    × ((update_machine calls 60 (entry "a" "started") site).2.log
        ≡ (record { act = updates; id = "a"; fault = none }) ∷ [])
update_machine-once_example =
    update_machine-once calls 60 (entry "a" "started") site refl (inl (omega arith))

ends_well : (update_entry calls 60 false (entry "a" "started") site).0 ≡ none
unfolding update_entry update_machine update_in_place wait_for_machine
ends_well = refl

update_entry-checks_example :
    ((update_machine calls 60 (entry "a" "started") site).0 ≡ none)
    × ((update_entry calls 60 false (entry "a" "started") site).1.log
        ≡ checks calls 60 false
            (update_machine calls 60 (entry "a" "started") site).1.machine
            (update_machine calls 60 (entry "a" "started") site).2.log)
update_entry-checks_example =
    update_entry-checks calls 60 false (entry "a" "started") site refl ends_well

abbrev everything : ℕ → ℕ
everything n = n

abbrev same_order : List Entry → List Entry
same_order es = es

two_jobs : length (rolling_jobs same_order (share everything) entries) ≡ 2
unfolding rolling_jobs group_jobs keep group_by lookup put
two_jobs = refl

rolling_jobs-IsSound_example :
    ((test : Entry → Bool)
      → count_jobs test (rolling_jobs same_order (share everything) entries) ≡ count test entries)
    × All (IsSound (share everything)) (rolling_jobs same_order (share everything) entries)
rolling_jobs-IsSound_example =
    rolling_jobs-IsSound same_order (share everything) entries (λ test es. refl)
      (λ n h. (h, omega arith))

-- A group with a service, and one without.
abbrev spawn_calls : SpawnCalls ℕ (Unit {0})
spawn_calls = record {
  has_release_machine = false;
  launch_input_for_launch =
      λ name standby_for w. (inr (record { skip_launch = false; lease_ttl = 0; rest = tt }), w);
  launch = λ i w. (inr "m", suc w);
  release_lease = λ m w. (none, suc w);
  do_smoke_checks = λ m w. (none, suc w);
  wait_for_start = λ m w. (none, suc w);
  wait_for_healthchecks = λ m w. (none, suc w);
  warn_about_listen_address = λ m w. suc w;
  flatten = λ name. inr (record { mounts = 0; services = if str_eq name "web" then 1 else 0 });
}

abbrev needing : Dict Bool
needing = ("web", true) ∷ ("worker", true) ∷ []

abbrev yard : Yard ℕ
yard = record { world = 0; spawned = [] }

abbrev same_names : List String → List String
same_names names = names

abbrev created : Option Fault × Yard ℕ
created = deploy_create_machines_for_groups spawn_calls false false 60 true same_names needing yard

no_fault : created.0 ≡ none
unfolding deploy_create_machines_for_groups create_groups spawn_machine_in_group check_spawned
    spare_machine
no_fault = refl

four_machines : length created.1.spawned ≡ 4
unfolding deploy_create_machines_for_groups create_groups spawn_machine_in_group check_spawned
    spare_machine
four_machines = refl

deploy_create_machines-Arranged_example :
    Arranged spawn_calls false false 60 true (same_names (names_of needing)) [] created.1.spawned
deploy_create_machines-Arranged_example =
    deploy_create_machines-Arranged spawn_calls false false 60 true same_names needing yard no_fault
