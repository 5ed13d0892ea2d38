-- ===== src/Scale/Actions/Tests.antt =====
-- Plans for an app with one machine and for one with three, and the theorems for it.
use flyctl.Base.{
  group_by, arith, eq_iff, All, ◌≡◌, ◌≢◌, ◌∙◌, sym, refl, ◌<◌, String, Bool, true, false, Option,
  none, some, List, [], ◌∷◌, str_eq, if◌then◌else◌, Dict, lookup, put, length, map, false≢true,
}
use flyctl.Base.Int.{ℤ, pos, negsuc, ◌+ℤ◌, ◌-ℤ◌, wrap}
use flyctl.Scale.Converge.{
  at, total, trim, remaining, has_room, grow, shrink, wanted_regions, settle, converge_group_counts,
}
use flyctl.Scale.Converge.Totals.{Distinct, totals}
use flyctl.Scale.Volumes.{MachineConfig, pop_available_volumes, create_volume_request}
use flyctl.Scale.Actions.{
  GroupCount, Machine, PlanItem, planned, counts, expected_counts, items_of, converge, plan_group,
  plan_existing, plan_all_existing, plan_all_new, compute_actions, Task, destroys, all_tasks,
  tasks_of, destroy_tasks,
}
use flyctl.Scale.Actions.Ranges.{IsUniq}
use flyctl.Scale.Actions.Safe.{compute_actions-HasTasks}
use flyctl.Scale.Actions.Meets.{compute_actions-Meets}
use flyctl.Scale.Actions.Meets.Diffs.{diffs_of}
use flyctl.Scale.Actions.Meets.Loops.{Meets, targets}

-- lo.Uniq and lo.Keys
abbrev uniq_without : String → List String → List String
uniq_without x [] = []
uniq_without x (y ∷ ys) = if str_eq x y then uniq_without x ys else y ∷ uniq_without x ys

abbrev uniq : List String → List String
uniq [] = []
uniq (x ∷ xs) = x ∷ uniq_without x (uniq xs)

without-All :
    (P : String → Type 0) (x : String) (ys : List String) → All P ys → All P (uniq_without x ys)
without-All P x [] h = tt
without-All P x (y ∷ ys) (here, later) = by_test (str_eq x y) (without-All P x ys later)
  where
    by_test :
        (b : Bool)
        → All P (uniq_without x ys)
        → All P (if b then uniq_without x ys else y ∷ uniq_without x ys)
    by_test true h = h
    by_test false h = (here, h)

without-Distinct :
    (x : String) (ys : List String)
    → Distinct ys
    → All (λ y. x ≢ y) (uniq_without x ys) × Distinct (uniq_without x ys)
without-Distinct x [] h = (tt, tt)
without-Distinct x (y ∷ ys) (fresh, h) = by_test (str_eq x y) refl (without-Distinct x ys h)
  where
    by_test :
        (b : Bool)
        → str_eq x y ≡ b
        → All (λ z. x ≢ z) (uniq_without x ys) × Distinct (uniq_without x ys)
        → All (λ z. x ≢ z) (if b then uniq_without x ys else y ∷ uniq_without x ys)
          × Distinct (if b then uniq_without x ys else y ∷ uniq_without x ys)
    by_test true e k = k
    by_test false e (k, d) = (
      ((λ same. false≢true (sym e ∙ (eq_iff x y).1 same)), k),
      (without-All (λ z. y ≢ z) x ys fresh, d),
    )

uniq-Distinct : (xs : List String) → Distinct (uniq xs)
uniq-Distinct [] = tt
uniq-Distinct (x ∷ xs) = without-Distinct x (uniq xs) (uniq-Distinct xs)

uniq-IsUniq : IsUniq uniq
uniq-IsUniq xs = (uniq-Distinct xs, some_left xs)
  where
    some_left : (xs : List String) → 0 < length xs → 0 < length (uniq xs)
    some_left [] h = h
    some_left (x ∷ xs) h = omega arith

abbrev keys : Dict ℤ → List String
keys m = map (λ e. e.0) m

abbrev config : MachineConfig String
config = record { mounts = []; guest = "shared"; image = "app" }

abbrev fleet : List (Machine String)
fleet =
    (record { id = "m1"; group = "web"; region = "ams"; lease_nonce = ""; config = config }) ∷ []

abbrev wanted : Dict GroupCount
wanted = ("web", record { absolute = pos 2; relative = pos 0 }) ∷ []

abbrev same : MachineConfig String → MachineConfig String
same c = c

abbrev to_config : String → Option (MachineConfig String)
to_config name = some config

-- One machine is added.
abbrev item : PlanItem String String
item = record {
  group = "web";
  region = "ams";
  delta = pos 1;
  machines = fleet;
  config = config;
  volumes = [];
  request = none;
}

plan_runs :
    compute_actions uniq keys same to_config none ("ams" ∷ []) (negsuc 0) true fleet wanted []
    ≡ planned (item ∷ [])
unfolding compute_actions plan_all_existing plan_all_new plan_existing plan_group converge
    converge_group_counts settle grow shrink has_room remaining total trim at wanted_regions
    group_by counts expected_counts items_of pop_available_volumes create_volume_request totals
    lookup put ◌+ℤ◌ ◌-ℤ◌
plan_runs = refl

-- Two machines of three go.
abbrev machine : String → Machine String
machine id = record { id = id; group = "web"; region = "ams"; lease_nonce = ""; config = config }

abbrev three : List (Machine String)
three = machine "m1" ∷ machine "m2" ∷ machine "m3" ∷ []

abbrev fewer : Dict GroupCount
fewer = ("web", record { absolute = pos 0; relative = negsuc 1 }) ∷ []

abbrev shrinking : PlanItem String String
shrinking = record {
  group = "web";
  region = "ams";
  delta = negsuc 1;
  machines = three;
  config = config;
  volumes = [];
  request = none;
}

shrinks :
    compute_actions uniq keys same to_config none ("ams" ∷ []) (negsuc 0) true three fewer []
    ≡ planned (shrinking ∷ [])
unfolding compute_actions plan_all_existing plan_all_new plan_existing plan_group converge
    converge_group_counts settle grow shrink has_room remaining total trim at wanted_regions
    group_by counts expected_counts items_of pop_available_volumes create_volume_request totals
    lookup put ◌+ℤ◌ ◌-ℤ◌ wrap
shrinks = refl

two_go : all_tasks (shrinking ∷ []) ≡ some (destroys (machine "m1") ∷ destroys (machine "m2") ∷ [])
unfolding all_tasks tasks_of destroy_tasks
two_go = refl

compute_actions-HasTasks_example :
    (tasks : List (Task String String)) × (all_tasks (shrinking ∷ []) ≡ some tasks)
compute_actions-HasTasks_example =
    compute_actions-HasTasks uniq keys uniq-IsUniq same to_config none ("ams" ∷ []) (negsuc 0) true
      three fewer [] (shrinking ∷ []) (omega arith) shrinks

compute_actions-Meets_example :
    Meets uniq
      ("ams" ∷ [])
      (negsuc 0)
      (lookup "web" (group_by (λ m. m.group) fleet []))
      (lookup "web" (targets (group_by (λ m. m.group) fleet []) wanted))
      (diffs_of "web" (item ∷ []))
unfolding ◌+ℤ◌ lookup group_by put
compute_actions-Meets_example =
    compute_actions-Meets uniq keys uniq-IsUniq same to_config none ("ams" ∷ []) (negsuc 0) true
      fleet wanted [] (item ∷ []) "web" (omega arith) (tt, tt) (omega arith) plan_runs
