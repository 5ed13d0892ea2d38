-- ===== src/Rollout/Canary/Tidy.antt =====
-- Which canaries are destroyed.
use flyctl.Base.{◌≡◌, ℕ, ◌+◌, String, Bool, Option, none, some, List, [], ◌∷◌, length}
use flyctl.Plan.Checks.{Fault}
use flyctl.Rollout.Pool.{Pool}
use flyctl.Rollout.Pool.Taken.{count}
use flyctl.Rollout.Canary.{Canary, Canaries, CanaryCalls}

abbrev pub groups_of : List Canary → List String
groups_of [] = []
groups_of (c ∷ cs) = c.group ∷ groups_of cs

module _ {W L : Type 0} (calls : CanaryCalls W L) (skip : Bool) (seconds : ℕ) where
  abbrev DestroysOne : String → Canaries W → Option Fault × Canaries W → Type 0
  DestroysOne name c (none, d) = groups_of d.destroyed ≡ name ∷ groups_of c.destroyed
  DestroysOne name c (some f, d) = d.destroyed ≡ c.destroyed

  -- What becomes of the groups, while the tasks run.
  record Tidy (groups : List String) (p : Pool (Canaries W) String) : Type 0 where
    tally :
        (test : String → Bool)
        → count test p.waiting + count test p.running + count test p.finished + count test p.failed
          ≡ count test groups
    faults : length p.faults ≡ length p.failed
    destroyed : groups_of p.world.destroyed ≡ p.finished
