-- ===== src/Rollout/Group/Ends.antt =====
-- The updates of a group come to an end.
use flyctl.Base.{
  IfSome, if_holds, arith, ◌≡◌, refl, ap, subst, ℕ, suc, ◌+◌, ◌*◌, ◌≤◌, ◌<◌, Bool, true, false,
  Bool-cases, Option, none, some, List, [], ◌∷◌, ◌⊎◌, inl, inr, if◌then◌else◌, length, ltb,
}
use flyctl.Plan.Checks.{Fault}
use flyctl.Rollout.Pool.{
  Event, begins, interrupts, returns, Pool, take_nth, run, skip, end_task, begin_task, begin_next,
  end_taken, step, wait_result,
}
use flyctl.Rollout.Pool.Taken.{length-take_nth}
use flyctl.Rollout.Group.{
  Progress, ready, leading, skips_first, fails_first, pooled, start_group, after_first, in_pool,
  step_group, run_group, group_result,
}

-- The interrupt that may still come.
abbrev interrupt : Bool → ℕ
interrupt true = 0
interrupt false = 1

module _ {W E : Type 0} where
  abbrev pool_left : Pool W E → ℕ
  pool_left p = 2 * length p.waiting + length p.running + interrupt p.canceled

  -- The events that there can still be.
  abbrev events_left : Progress W E → ℕ
  events_left (ready c e es w) = 2 * length es + 2 + interrupt c
  events_left (leading c e es w) = 2 * length es + 1 + interrupt c
  events_left (skips_first f e es w) = 0
  events_left (fails_first f e es w) = 0
  events_left (pooled p) = pool_left p

module _ {W E : Type 0} (task : E → W → Option Fault × W) (size : ℕ) (stop : Fault) where
  begin_next-left :
      (es : List E) (p : Pool W E)
      → p.waiting ≡ es
      → IfSome
          (λ (q : Pool W E). pool_left q < pool_left p)
          (begin_next task (some size) true (some stop) es p)
  unfolding begin_next
  begin_next-left [] p k = tt
  begin_next-left (e ∷ es) p k =
      if_holds (IfSome (λ (q : Pool W E). pool_left q < pool_left p)) (ltb (length p.running) size)
        (some (begin_task task (some size) true (some stop) (some stop) e es p)) none
        (if_holds (λ (q : Pool W E). pool_left q < pool_left p) p.canceled (skip stop e es p)
          (run e es p) (omega (arith, ap length k)) (omega (arith, ap length k)))
        tt

  end_task-left :
      (e : E) (rest : List E) (p : Pool W E) (r : Option Fault × W)
      → length p.running ≡ suc (length rest)
      → pool_left (end_task true e rest p r) < pool_left p
  end_task-left e rest p (none, w) k = omega (arith, k)
  end_task-left e rest p (some f, w) k = omega (arith, k)

  step-left :
      (event : Event) (p : Pool W E)
      → IfSome
          (λ (q : Pool W E). pool_left q < pool_left p)
          (step task (some size) true (some stop) event p)
  unfolding step
  step-left begins p = begin_next-left p.waiting p refl
  step-left (returns i) p = by_taken (take_nth i p.running) (length-take_nth i p.running)
    where
      by_taken :
          (o : Option (E × List E))
          → IfSome (λ (t : E × List E). length p.running ≡ suc (length t.1)) o
          → IfSome
              (λ (q : Pool W E). pool_left q < pool_left p)
              (end_taken task (some size) true (some stop) p o)
      by_taken none k = tt
      by_taken (some (e, rest)) k = end_task-left e rest p (task e p.world) k
  step-left interrupts p = elim (Bool-cases p.canceled) [
    | inl canceled ↦ rw canceled tt
    | inr live ↦ rw live (omega (arith, ap interrupt live))
  ]

  after_first-left :
      (c : Bool) (e : E) (es : List E) (r : Option Fault × W)
      → events_left (after_first c e es r) < 2 * length es + 1 + interrupt c
  after_first-left c e es (some f, v) = omega arith
  after_first-left c e es (none, v) = omega arith

  step_group-left :
      (event : Event) (s : Progress W E)
      → IfSome
          (λ (t : Progress W E). events_left t < events_left s)
          (step_group task size stop event s)
  unfolding step_group
  step_group-left begins (ready true e es w) = omega arith
  step_group-left begins (ready false e es w) = omega arith
  step_group-left (returns i) (ready c e es w) = tt
  step_group-left interrupts (ready true e es w) = tt
  step_group-left interrupts (ready false e es w) = omega arith
  step_group-left begins (leading c e es w) = tt
  step_group-left (returns i) (leading c e es w) = after_first-left c e es (task e w)
  step_group-left interrupts (leading true e es w) = tt
  step_group-left interrupts (leading false e es w) = omega arith
  step_group-left event (skips_first f e es w) = tt
  step_group-left event (fails_first f e es w) = tt
  step_group-left event (pooled p) =
      by_pool (step task (some size) true (some stop) event p) (step-left event p)
    where
      by_pool :
          (o : Option (Pool W E))
          → IfSome (λ (q : Pool W E). pool_left q < pool_left p) o
          → IfSome (λ (t : Progress W E). events_left t < pool_left p) (in_pool o)
      by_pool none k = tt
      by_pool (some q) k = k

  run_group-left :
      (events : List Event) (s : Progress W E)
      → IfSome
          (λ (t : Progress W E). length events + events_left t ≤ events_left s)
          (run_group task size stop events s)
  unfolding run_group
  run_group-left [] s = omega arith
  run_group-left (event ∷ events) s =
      by_step (step_group task size stop event s) (step_group-left event s) (run_group-left events)
    where
      by_step :
          (o : Option (Progress W E))
          → IfSome (λ (t : Progress W E). events_left t < events_left s) o
          → ((t : Progress W E)
              → IfSome
                  (λ (u : Progress W E). length events + events_left u ≤ events_left t)
                  (run_group task size stop events t))
          → IfSome
              (λ (u : Progress W E). suc (length events) + events_left u ≤ events_left s)
              (elim o [ none ↦ none | some t ↦ run_group task size stop events t ])
      by_step none h later = tt
      by_step (some t) h later = by_rest (run_group task size stop events t) (later t)
        where
          by_rest :
              (o : Option (Progress W E))
              → IfSome (λ (u : Progress W E). length events + events_left u ≤ events_left t) o
              → IfSome (λ (u : Progress W E). suc (length events) + events_left u ≤ events_left s) o
          by_rest none k = tt
          by_rest (some u) k = omega (arith, h, k)

  -- A task can begin, or one can return.
  abbrev pub CanGoOn : Progress W E → Type 0
  CanGoOn s =
      ((t : Progress W E) × (step_group task size stop begins s ≡ some t))
      ⊎ ((t : Progress W E) × (step_group task size stop (returns 0) s ≡ some t))

  abbrev HasEnd : Progress W E → Type 0
  HasEnd s = ((errors : List Fault) × (group_result s ≡ some errors)) ⊎ CanGoOn s

  -- A pool with these tasks.
  abbrev with_tasks : Pool W E → List E → List E → Pool W E
  with_tasks p waiting running = record p { waiting = waiting; running = running }

  pool-HasEnd :
      0 < size
      → (p : Pool W E) (waiting running : List E) → HasEnd (pooled (with_tasks p waiting running))
  unfolding group_result step_group step wait_result begin_next take_nth
  pool-HasEnd room p [] [] = inl (p.faults, refl)
  pool-HasEnd room p waiting (e ∷ rest) = inr (inr (_, refl))
  pool-HasEnd room p (e ∷ es) [] =
      let free : ltb 0 size ≡ true = ground arith in
      inr (
        inl (
          _,
          ap
              (λ b. in_pool (
                if b
                then some (
                    begin_task task (some size) true (some stop) (some stop) e es
                      (with_tasks p (e ∷ es) []))
                else none))
              free,
        ))

  group-HasEnd : 0 < size → (s : Progress W E) → HasEnd s
  unfolding group_result step_group
  group-HasEnd room (ready c e es w) = inr (inl (_, refl))
  group-HasEnd room (leading c e es w) = inr (inr (_, refl))
  group-HasEnd room (skips_first f e es w) = inl (_, refl)
  group-HasEnd room (fails_first f e es w) = inl (_, refl)
  group-HasEnd room (pooled p) = pool-HasEnd room p p.waiting p.running

  -- updateEntriesGroup ends: over n entries it goes through at most 2 * n + 1 events, an interrupt of the
  -- user or of another group included, and with a pool of size at least 1 it has either returned or can go
  -- on without an interrupt.
  pub run_group-ends :
      (es : List E) (w : W) (events : List Event) (s : Progress W E)
      → 0 < size
      → run_group task size stop events (start_group es w) ≡ some s
      → (length events ≤ 2 * length es + 1)
        × (((errors : List Fault) × (group_result s ≡ some errors)) ⊎ CanGoOn s)
  run_group-ends es w events s room e = (
    at_start es w (
        subst
          (IfSome
            (λ (t : Progress W E). length events + events_left t ≤ events_left (start_group es w)))
          e (run_group-left events (start_group es w))),
    group-HasEnd room s,
  )
    where
      at_start :
          (es : List E) (w : W)
          → length events + events_left s ≤ events_left (start_group es w)
          → length events ≤ 2 * length es + 1
      at_start [] w h = unfold start_group in omega (arith, h)
      at_start (e ∷ es) w h = unfold start_group in omega (arith, h)
