-- ===== src/Rollout/Group.antt =====
-- updateEntriesGroup: the first entry of a group is updated alone, and the others in a pool only if that
-- went well. Events are those of the pool.
pub mod Runs
pub mod Bounds
pub mod Accounts
pub mod Ends
use flyctl.Base.{
  ℕ, zero, suc, Bool, true, false, not, Option, none, some, List, [], ◌∷◌, if◌then◌else◌,
}
use flyctl.Plan.Checks.{Fault}
use flyctl.Rollout.Pool.{Event, begins, interrupts, returns, Pool, new_pool, step, wait_result}

-- The first entry is about to be updated, or is being updated; or that has not gone well; or the others
-- are in the pool. The flag says whether the context is canceled.
pub data Progress (W E : Type 0) : Type 0 where
  ready : Bool → E → List E → W → Progress W E
  leading : Bool → E → List E → W → Progress W E
  skips_first : Fault → E → List E → W → Progress W E
  fails_first : Fault → E → List E → W → Progress W E
  pooled : Pool W E → Progress W E

module _ {W E : Type 0} where
  unfoldable pub start_group : List E → W → Progress W E
  start_group [] w = pooled (new_pool [] w)
  start_group (e ∷ es) w = ready false e es w

  -- The pool behind the first entry.
  abbrev pub follow_up : Bool → E → List E → W → Pool W E
  follow_up canceled e es w = record (new_pool es w) { finished = e ∷ []; canceled = canceled }

  abbrev pub after_first : Bool → E → List E → Option Fault × W → Progress W E
  after_first canceled e es (some f, w) = fails_first f e es w
  after_first canceled e es (none, w) = pooled (follow_up canceled e es w)

  abbrev pub in_pool : Option (Pool W E) → Option (Progress W E)
  in_pool none = none
  in_pool (some p) = some (pooled p)

-- `stop` is the error of a context that is canceled.
module _ {W E : Type 0} (task : E → W → Option Fault × W) (pool_size : ℕ) (stop : Fault) where
  unfoldable pub step_group : Event → Progress W E → Option (Progress W E)
  step_group begins (ready canceled e es w) =
      some (if canceled then skips_first stop e es w else leading canceled e es w)
  step_group (returns i) (ready canceled e es w) = none
  step_group interrupts (ready canceled e es w) =
      if canceled then none else some (ready true e es w)
  step_group begins (leading canceled e es w) = none
  step_group (returns i) (leading canceled e es w) = some (after_first canceled e es (task e w))
  step_group interrupts (leading canceled e es w) =
      if canceled then none else some (leading true e es w)
  step_group event (skips_first f e es w) = none
  step_group event (fails_first f e es w) = none
  step_group event (pooled p) = in_pool (step task (some pool_size) true (some stop) event p)

  -- The states that events lead to.
  unfoldable pub run_group : List Event → Progress W E → Option (Progress W E)
  run_group [] s = some s
  run_group (event ∷ events) s = elim (step_group event s) [
    | none ↦ none
    | some t ↦ run_group events t
  ]

-- What updateEntriesGroup returns: the errors, once it has ended.
unfoldable pub group_result : {W E : Type 0} → Progress W E → Option (List Fault)
group_result (ready canceled e es w) = none
group_result (leading canceled e es w) = none
group_result (skips_first f e es w) = some (f ∷ [])
group_result (fails_first f e es w) = some (f ∷ [])
group_result (pooled p) = wait_result p
