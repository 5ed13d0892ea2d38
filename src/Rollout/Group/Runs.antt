-- ===== src/Rollout/Group/Runs.antt =====
-- What every step of a group keeps, every run keeps.
use flyctl.Base.{ap, refl, ◌≡◌, ℕ, Bool, true, false, Option, none, some, List, [], ◌∷◌, IfSome}
use flyctl.Plan.Checks.{Fault}
use flyctl.Rollout.Pool.{Event, begins, interrupts, returns, Pool, step}
use flyctl.Rollout.Group.{
  Progress, ready, leading, skips_first, fails_first, pooled, follow_up, after_first, in_pool,
  step_group, run_group,
}

module _ {W E : Type 0} (task : E → W → Option Fault × W) (pool_size : ℕ) (stop : Fault)
    (P : Progress W E → Type 0) where
  pub run_group-Keeps :
      (keeps : (event : Event) (s : Progress W E)
        → P s
        → IfSome P (step_group task pool_size stop event s))
      (events : List Event) (s : Progress W E)
      → P s
      → IfSome P (run_group task pool_size stop events s)
  unfolding run_group
  run_group-Keeps keeps [] s h = h
  run_group-Keeps keeps (event ∷ events) s h =
      by_step (step_group task pool_size stop event s) (keeps event s h)
        (run_group-Keeps keeps events)
    where
      by_step :
          (o : Option (Progress W E))
          → IfSome P o
          → ((t : Progress W E) → P t → IfSome P (run_group task pool_size stop events t))
          → IfSome P (elim o [ none ↦ none | some t ↦ run_group task pool_size stop events t ])
      by_step none h later = tt
      by_step (some t) h later = later t h

  -- A property of the first stages that the pool takes over.
  pub step_group-Keeps :
      (to_leading : (c : Bool) (e : E) (es : List E) (w : W)
        → P (ready c e es w)
        → P (leading c e es w) × P (skips_first stop e es w))
      (on_interrupt : (c : Bool) (e : E) (es : List E) (w : W)
        → (P (ready c e es w) → P (ready true e es w))
          × (P (leading c e es w) → P (leading true e es w)))
      (first_fails : (c : Bool) (f : Fault) (e : E) (es : List E) (w v : W)
        → P (leading c e es w)
        → P (fails_first f e es v))
      (to_pool : (c : Bool) (e : E) (es : List E) (w v : W)
        → (task e w).0 ≡ none
        → P (leading c e es w)
        → P (pooled (follow_up c e es v)))
      (in_pool_too : (event : Event) (p : Pool W E)
        → P (pooled p)
        → IfSome (λ q. P (pooled q)) (step task (some pool_size) true (some stop) event p))
      (event : Event) (s : Progress W E)
      → P s
      → IfSome P (step_group task pool_size stop event s)
  unfolding step_group
  step_group-Keeps to_leading on_interrupt first_fails to_pool in_pool_too begins
        (ready true e es w) h =
      (to_leading true e es w h).1
  step_group-Keeps to_leading on_interrupt first_fails to_pool in_pool_too begins
        (ready false e es w) h =
      (to_leading false e es w h).0
  step_group-Keeps to_leading on_interrupt first_fails to_pool in_pool_too (returns i)
        (ready c e es w) h =
      tt
  step_group-Keeps to_leading on_interrupt first_fails to_pool in_pool_too interrupts
        (ready true e es w) h =
      tt
  step_group-Keeps to_leading on_interrupt first_fails to_pool in_pool_too interrupts
        (ready false e es w) h =
      (on_interrupt false e es w).0 h
  step_group-Keeps to_leading on_interrupt first_fails to_pool in_pool_too begins (leading c e es w)
        h =
      tt
  step_group-Keeps to_leading on_interrupt first_fails to_pool in_pool_too (returns i)
        (leading c e es w) h =
      by_result (task e w) refl
    where
      by_result : (r : Option Fault × W) → task e w ≡ r → P (after_first c e es r)
      by_result (some f, v) k = first_fails c f e es w v h
      by_result (none, v) k = to_pool c e es w v (ap (λ r. r.0) k) h
  step_group-Keeps to_leading on_interrupt first_fails to_pool in_pool_too interrupts
        (leading true e es w) h =
      tt
  step_group-Keeps to_leading on_interrupt first_fails to_pool in_pool_too interrupts
        (leading false e es w) h =
      (on_interrupt false e es w).1 h
  step_group-Keeps to_leading on_interrupt first_fails to_pool in_pool_too event
        (skips_first f e es w) h =
      tt
  step_group-Keeps to_leading on_interrupt first_fails to_pool in_pool_too event
        (fails_first f e es w) h =
      tt
  step_group-Keeps to_leading on_interrupt first_fails to_pool in_pool_too event (pooled p) h =
      by_pool (step task (some pool_size) true (some stop) event p) (in_pool_too event p h)
    where
      by_pool : (o : Option (Pool W E)) → IfSome (λ q. P (pooled q)) o → IfSome P (in_pool o)
      by_pool none k = tt
      by_pool (some q) k = k
