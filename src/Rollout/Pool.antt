-- ===== src/Rollout/Pool.antt =====
-- The pools of updates, as machines whose steps are events: a task begins, a task returns, the context
-- is canceled. A task is run in one piece when it returns; until then it is one of those that run.
pub mod Taken
use flyctl.Base.{
  ℕ, zero, suc, ◌+◌, ◌*◌, Bool, true, false, not, ◌&&◌, ◌||◌, Option, none, some, List, [], ◌∷◌,
  ◌++◌, if◌then◌else◌, length, ltb,
}
use flyctl.Plan.Checks.{Fault}

pub data Event : Type 0 where
  begins interrupts : Event
  returns : ℕ → Event

-- The tasks of a pool, by what has become of them, and the errors that they have returned.
pub record Pool (W E : Type 0) : Type 0 where
  pub world : W
  pub waiting : List E
  pub running : List E
  pub finished : List E
  pub failed : List E
  pub skipped : List E
  pub faults : List Fault
  pub canceled : Bool

-- WithMaxGoroutines
abbrev pub has_room : Option ℕ → ℕ → Bool
has_room none n = true
has_room (some limit) n = ltb n limit

module _ {E : Type 0} where
  abbrev pub push_taken : E → Option (E × List E) → Option (E × List E)
  push_taken e none = none
  push_taken e (some (x, rest)) = some (x, e ∷ rest)

  unfoldable pub take_nth : ℕ → List E → Option (E × List E)
  take_nth i [] = none
  take_nth zero (e ∷ es) = some (e, es)
  take_nth (suc i) (e ∷ es) = push_taken e (take_nth i es)

module _ {W E : Type 0} where
  abbrev pub new_pool : List E → W → Pool W E
  new_pool es w = record {
    world = w;
    waiting = es;
    running = [];
    finished = [];
    failed = [];
    skipped = [];
    faults = [];
    canceled = false;
  }

  -- The task sees that its context is done, and returns its error.
  abbrev pub skip : Fault → E → List E → Pool W E → Pool W E
  skip f e es p = record p { waiting = es; skipped = e ∷ p.skipped; faults = f ∷ p.faults }

  abbrev pub run : E → List E → Pool W E → Pool W E
  run e es p = record p { waiting = es; running = e ∷ p.running }

  abbrev pub end_task : Bool → E → List E → Pool W E → Option Fault × W → Pool W E
  end_task cancels e rest p (none, w) = record p {
    world = w;
    running = rest;
    finished = e ∷ p.finished;
  }
  end_task cancels e rest p (some f, w) = record p {
    world = w;
    running = rest;
    failed = e ∷ p.failed;
    faults = f ∷ p.faults;
    canceled = cancels || p.canceled;
  }

-- A pool with a limit or none; it may cancel its context on an error. Its tasks, if they look at the
-- context at all, do so when they begin: `stop` is the error that they return then.
module _ {W E : Type 0} (task : E → W → Option Fault × W) (limit : Option ℕ) (cancels : Bool)
    (stop : Option Fault) where
  abbrev pub begin_task : Option Fault → E → List E → Pool W E → Pool W E
  begin_task none e es p = run e es p
  begin_task (some f) e es p = if p.canceled then skip f e es p else run e es p

  unfoldable pub begin_next : List E → Pool W E → Option (Pool W E)
  begin_next [] p = none
  begin_next (e ∷ es) p =
      if has_room limit (length p.running) then some (begin_task stop e es p) else none

  abbrev pub end_taken : Pool W E → Option (E × List E) → Option (Pool W E)
  end_taken p none = none
  end_taken p (some (e, rest)) = some (end_task cancels e rest p (task e p.world))

  unfoldable pub step : Event → Pool W E → Option (Pool W E)
  step begins p = begin_next p.waiting p
  step (returns i) p = end_taken p (take_nth i p.running)
  step interrupts p = if p.canceled then none else some (record p { canceled = true })

-- Wait: the errors, when all tasks have returned.
unfoldable pub wait_result : {W E : Type 0} → Pool W E → Option (List Fault)
wait_result p = elim p.waiting [
  | e ∷ es ↦ none
  | [] ↦ (elim p.running [ e ∷ es ↦ none | [] ↦ some p.faults ])
]
