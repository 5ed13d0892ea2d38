-- ===== src/Rollout/Rolling.antt =====
-- The strategies: updateUsingRollingStrategy with getPoolSize, and updateUsingImmediateStrategy.
pub mod Jobs
use flyctl.Base.{
  ℕ, suc, String, Bool, true, false, not, Option, none, some, List, [], ◌∷◌, ◌++◌, str_eq,
  if◌then◌else◌, length, ltb, leb, Dict, group_by,
}
use flyctl.Plan.Checks.{Fault}
use flyctl.Rollout.Entries.{Entry, Site, EntryCalls, update_machine}
use flyctl.Rollout.Pool.{Event, Pool, step}

-- md.maxUnavailable: `whole n` if it is at least 1, with n = int(mu), and otherwise `share f`, where `f`
-- is int(math.Ceil(float64(total)*mu)).
pub data Unavailable : Type 0 where
  whole : ℕ → Unavailable
  share : (ℕ → ℕ) → Unavailable

unfoldable pub get_pool_size : Unavailable → ℕ → ℕ
get_pool_size (whole n) total = n
get_pool_size (share f) total = f total

-- A call of updateEntriesGroup.
pub record Job : Type 0 where
  pub group : String
  pub warm : Bool
  pub entries : List Entry
  pub pool_size : ℕ

-- lo.Filter
unfoldable pub keep : {A : Type 0} → (A → Bool) → List A → List A
keep test [] = []
keep test (a ∷ more) = let rest = keep test more in if test a then a ∷ rest else rest

abbrev pub stopped_machines_pool_size : ℕ
stopped_machines_pool_size = 30

abbrev pub is_started : Entry → Bool
is_started e = str_eq e.machine.state "started"

abbrev pub min : ℕ → ℕ → ℕ
min a b = if leb a b then a else b

-- The machines that are not started, if there are any, and those that are.
abbrev pub cold_jobs : String → List Entry → List Job
cold_jobs name [] = []
cold_jobs name (e ∷ es) =
    (record {
      group = name;
      warm = false;
      entries = e ∷ es;
      pool_size = min (suc (length es)) stopped_machines_pool_size;
    })
    ∷ []

abbrev pub warm_jobs : Unavailable → String → List Entry → List Job
warm_jobs mu name [] = []
warm_jobs mu name (e ∷ es) =
    (record {
      group = name;
      warm = true;
      entries = e ∷ es;
      pool_size = get_pool_size mu (suc (length es));
    })
    ∷ []

unfoldable pub group_jobs : Unavailable → Dict (List Entry) → List Job
group_jobs mu [] = []
group_jobs mu ((name, es) ∷ groups) =
    cold_jobs name (keep (λ e. not (is_started e)) es)
    ++ (warm_jobs mu name (keep is_started es) ++ group_jobs mu groups)

-- The jobs of the rolling strategy; `sort` is slices.SortFunc by the ids of the machines.
unfoldable pub rolling_jobs : (List Entry → List Entry) → Unavailable → List Entry → List Job
rolling_jobs sort mu entries =
    group_jobs mu (group_by (λ e. e.launch_input.group) (sort entries) [])

-- The immediate strategy is a pool of updates that are not waited for, and that go on after an error.
module _ {W : Type 0} (calls : EntryCalls W) (wait_seconds max_concurrent : ℕ) where
  abbrev pub immediate_task : Entry → Site W → Option Fault × Site W
  immediate_task e s = let (o, e', t) = update_machine calls wait_seconds e s in (o, t)

  unfoldable pub step_immediate : Event → Pool (Site W) Entry → Option (Pool (Site W) Entry)
  step_immediate =
      step immediate_task (if ltb 0 max_concurrent then some max_concurrent else none) false none
