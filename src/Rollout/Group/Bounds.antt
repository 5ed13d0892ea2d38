-- ===== src/Rollout/Group/Bounds.antt =====
-- How many machines of a group can be down at one time.
use flyctl.Base.{
  IfSome, if_holds, ltb→lt, arith, ◌≡◌, refl, sym, ◌∙◌, subst, ℕ, suc, ◌+◌, ◌≤◌, true, false,
  false≢true, Bool-cases, Option, none, some, List, [], ◌∷◌, ◌⊎◌, inl, inr, length, ltb,
}
use flyctl.Plan.Checks.{Fault}
use flyctl.Rollout.Pool.{
  Event, begins, interrupts, returns, Pool, take_nth, end_task, begin_next, end_taken, step,
}
use flyctl.Rollout.Pool.Taken.{length-take_nth}
use flyctl.Rollout.Group.Runs.{run_group-Keeps, step_group-Keeps}
use flyctl.Rollout.Group.{
  Progress, ready, leading, skips_first, fails_first, pooled, start_group, step_group, run_group,
}

module _ {W E : Type 0} where
  -- The entries whose update has begun and has not ended well.
  unfoldable pub down : Progress W E → ℕ
  down (ready canceled e es w) = 0
  down (leading canceled e es w) = 1
  down (skips_first f e es w) = 0
  down (fails_first f e es w) = 1
  down (pooled p) = length p.running + length p.failed

  -- No task begins after one has failed.
  abbrev IsBounded : ℕ → Pool W E → Type 0
  IsBounded size p =
      (length p.running + length p.failed ≤ size) × (p.canceled ≡ false → length p.failed ≡ 0)

  abbrev IsKept : ℕ → Progress W E → Type 0
  IsKept size (ready canceled e es w) = Unit
  IsKept size (leading canceled e es w) = Unit
  IsKept size (skips_first f e es w) = Unit
  IsKept size (fails_first f e es w) = Unit
  IsKept size (pooled p) = IsBounded size p

module _ {W E : Type 0} (task : E → W → Option Fault × W) (size : ℕ) (stop : Fault) where
  begin_next-IsBounded :
      (es : List E) (p : Pool W E)
      → IsBounded size p
      → IfSome (IsBounded size) (begin_next task (some size) true (some stop) es p)
  unfolding begin_next
  begin_next-IsBounded [] p h = tt
  begin_next-IsBounded (e ∷ es) p (bound, fresh) = elim (Bool-cases (ltb (length p.running) size)) [
    | inr full ↦ rw full tt
    | inl room ↦ rw room (elim (Bool-cases p.canceled) [
      | inl canceled ↦ rw canceled (bound, λ live. fresh (canceled ∙ live))
      | inr live ↦
          rw live (omega (arith, fresh live, ltb→lt (length p.running) size room), λ k. fresh live)
    ])
  ]

  end_task-IsBounded :
      (e : E) (rest : List E) (p : Pool W E) (r : Option Fault × W)
      → IsBounded size p
      → length p.running ≡ suc (length rest)
      → IsBounded size (end_task true e rest p r)
  end_task-IsBounded e rest p (none, w) (bound, fresh) k = (omega (arith, bound, k), fresh)
  end_task-IsBounded e rest p (some f, w) (bound, fresh) k =
      (omega (arith, bound, k), λ live. absurd (false≢true (sym live)))

  step-IsBounded :
      (event : Event) (p : Pool W E)
      → IsBounded size p
      → IfSome (IsBounded size) (step task (some size) true (some stop) event p)
  unfolding step
  step-IsBounded begins p h = begin_next-IsBounded p.waiting p h
  step-IsBounded (returns i) p h = by_taken (take_nth i p.running) (length-take_nth i p.running)
    where
      by_taken :
          (o : Option (E × List E))
          → IfSome (λ (t : E × List E). length p.running ≡ suc (length t.1)) o
          → IfSome (IsBounded size) (end_taken task (some size) true (some stop) p o)
      by_taken none k = tt
      by_taken (some (e, rest)) k = end_task-IsBounded e rest p (task e p.world) h k
  step-IsBounded interrupts p h =
      if_holds (IfSome (IsBounded size)) p.canceled none (some (record p { canceled = true })) tt
        (h.0, λ live. absurd (false≢true (sym live)))

  -- At any moment of updateEntriesGroup, at most one machine of the group is down, or at most as many as
  -- the size of its pool: that many updates have begun and have not ended well, those that have failed
  -- included.
  pub run_group-down :
      (es : List E) (w : W) (events : List Event) (s : Progress W E)
      → run_group task size stop events (start_group es w) ≡ some s
      → (down s ≤ 1) ⊎ (down s ≤ size)
  unfolding start_group
  run_group-down es w events s e = by_stage s (
      subst (IfSome (IsKept size)) e (
        run_group-Keeps task size stop (IsKept size) keeps events (start_group es w) (at_start es)))
    where
      keeps :
          (event : Event) (s : Progress W E)
          → IsKept size s
          → IfSome (IsKept size) (step_group task size stop event s)
      keeps =
          step_group-Keeps task size stop (IsKept size) (λ c e es w h. (tt, tt))
            (λ c e es w. ((λ h. tt), (λ h. tt))) (λ c f e es w v h. tt)
            (λ c e es w v well h. (omega arith, λ k. refl)) step-IsBounded

      at_start : (es : List E) → IsKept size (start_group es w)
      at_start [] = (omega arith, λ k. refl)
      at_start (e ∷ es) = tt

      by_stage : (s : Progress W E) → IsKept size s → (down s ≤ 1) ⊎ (down s ≤ size)
      by_stage (ready c e es w) h = inl (unfold down in omega arith)
      by_stage (leading c e es w) h = inl (unfold down in omega arith)
      by_stage (skips_first f e es w) h = inl (unfold down in omega arith)
      by_stage (fails_first f e es w) h = inl (unfold down in omega arith)
      by_stage (pooled p) h = inr (unfold down in h.0)
