-- ===== src/Rollout/Trials.antt =====
-- A deployment of an app with a machine that stays and one that goes, canary machines of which one cannot
-- be destroyed, and a release whose machines fail, and the theorems for them.
use flyctl.Base.{
  ◌≡◌, refl, eq_iff, false≢true, ℕ, suc, String, true, false, inl, inr, Option, none, some, List,
  [], ◌∷◌, ◌++◌,
}
use flyctl.Base.Bytes.{codes}
use flyctl.Plan.Checks.{Fault}
use flyctl.Groups.Names.{has_name}
use flyctl.Groups.Changes.{sort_machines, resolve_process_group_changes}
use flyctl.Rollout.Pool.{Event, begins, returns, Pool}
use flyctl.Rollout.Deploy.{
  Settings, DeployCalls, deploy_machines_app, update_existing_machines, destroy_all, update_entries,
  without,
}
use flyctl.Rollout.Deploy.Plan.{Distinct, follow, plan, deploy-plan}
use flyctl.Rollout.Canary.{Canaries, CanaryCalls, run_canaries, start_canaries}
use flyctl.Rollout.Release.{complete, running, ReleaseCalls, configure_statics, deploy_app}
use flyctl.Rollout.Release.Reports.{Reported, deploy_app-Reported}

abbrev fault : Fault
fault = record { unrecoverable = false; canceled = false; text = codes "no" }

-- A machine is its id and its process group; the world is the list of the calls.
abbrev Machine : Type 0
Machine = String × String

abbrev noted : String → List String → Option Fault × List String
noted name w = (none, w ++ (name ∷ []))

abbrev deploy_calls : DeployCalls (List String) Machine String
deploy_calls = record {
  id = λ m. m.0;
  process_group = λ m. m.1;
  formatted_id = λ m. codes m.0;
  run_release_commands = noted "release commands";
  deploy_canary_machines = noted "canaries";
  release_leases_of = λ ms. noted "release leases";
  destroy = λ m. noted m.0;
  create_machines_for_groups = λ needing. noted "create";
  launch_input_for_update = λ m. inr m.1;
  acquire_leases = noted "lock";
  release_leases = noted "unlock";
  start_background_refresh = λ w. w;
  update_with_recovery = λ es. noted "recover";
  update_blue_green = λ es. noted "blue-green";
  update_immediate = λ es. noted "immediate";
  update_rolling = λ es. noted "rolling";
}

abbrev settings : Settings
settings = record {
  strategy = "canary";
  skip_release_command = false;
  is_first_deploy = false;
  update_only = false;
  deploy_retries = 0;
}

abbrev machines : List Machine
machines = ("m1", "web") ∷ ("m2", "old") ∷ []

machines-Distinct : Distinct (λ (m : Machine). m.0) machines
machines-Distinct = (((λ e. false≢true ((eq_iff "m2" "m1").1 e)), tt), (tt, tt))

-- The machine of the group that is gone is destroyed, and the other one is updated.
deploy_run : deploy_machines_app deploy_calls settings ("web" ∷ []) machines [] ≡ (
  none,
  "release commands" ∷ "canaries" ∷ "release leases" ∷ "m2" ∷ "create" ∷ "lock" ∷ "rolling"
      ∷ "unlock" ∷ [],
)
unfolding deploy_machines_app resolve_process_group_changes update_existing_machines destroy_all
    sort_machines has_name update_entries without
deploy_run = refl

deploy-plan_example :
    deploy_machines_app deploy_calls settings ("web" ∷ []) machines []
    ≡ follow deploy_calls settings (plan deploy_calls settings ("web" ∷ []) machines) []
deploy-plan_example = deploy-plan deploy_calls settings ("web" ∷ []) machines [] machines-Distinct

-- The world counts the calls, and no machine can be destroyed.
abbrev fine : String → ℕ → Option Fault × ℕ
fine m w = (none, suc w)

abbrev canary_calls : CanaryCalls ℕ (Unit {0})
canary_calls = record {
  spawn = record {
    has_release_machine = false;
    launch_input_for_launch =
        λ name standby w. (inr (record { skip_launch = false; lease_ttl = 0; rest = tt }), w);
    launch = λ input w. (inr "m", suc w);
    release_lease = fine;
    do_smoke_checks = fine;
    wait_for_start = fine;
    wait_for_healthchecks = fine;
    warn_about_listen_address = λ m w. suc w;
    flatten = λ name. inl fault;
  };
  run_test_machines = fine;
  destroy = λ m w. (some fault, suc w);
}

abbrev groups : List String
groups = "web" ∷ "worker" ∷ []

abbrev events : List Event
events = begins ∷ begins ∷ returns 1 ∷ returns 0 ∷ []

abbrev or_start : Option (Pool (Canaries ℕ) String) → Pool (Canaries ℕ) String
or_start none = start_canaries canary_calls false 60 groups 0
or_start (some p) = p

abbrev last_pool : Pool (Canaries ℕ) String
last_pool =
    or_start
      (run_canaries canary_calls false 60 events (start_canaries canary_calls false 60 groups 0))

-- The machines of this release are those deployed above.
abbrev release_calls : ReleaseCalls (List String)
release_calls = record {
  statics_use_tigris = λ w. (true, w);
  get_app = noted "app";
  get_organization = noted "organization";
  configure = noted "configure";
  push = noted "push";
  finalize = λ w. (some fault, w ++ ("finalize" ∷ []));
  cleanup_after_failure = λ w. w;
  update_release = λ status w. (none, w);
  restart_machines_app = noted "restart";
  deploy_machines_app = deploy_machines_app deploy_calls settings ("web" ∷ []) machines;
  check_dns = noted "dns";
}

-- The static files cannot be finalized: the release is complete, and there is an error.
release_run : deploy_app release_calls false false [] ≡ (
  some fault,
  record {
    world =
        "app" ∷ "organization" ∷ "configure" ∷ "push" ∷ "release commands" ∷ "canaries"
        ∷ "release leases" ∷ "m2" ∷ "create" ∷ "lock" ∷ "rolling" ∷ "unlock" ∷ "finalize" ∷ [];
    statuses = complete ∷ running ∷ [];
  },
)
unfolding deploy_app configure_statics deploy_machines_app resolve_process_group_changes
    update_existing_machines destroy_all sort_machines has_name update_entries without
release_run = refl

deploy_app-Reported_example :
    Reported release_calls false false (deploy_app release_calls false false [])
deploy_app-Reported_example = deploy_app-Reported release_calls false false []
