-- ===== src/Rollout/Group/Accounts.antt =====
-- What becomes of each entry of a group.
use flyctl.Base.{
  IfSome, if_holds, All, arith, ◌≡◌, ◌≢◌, refl, ap, subst, ℕ, ◌+◌, ◌<◌, Bool, true, Option, none,
  some, List, [], ◌∷◌, length, ltb,
}
use flyctl.Plan.Checks.{Fault}
use flyctl.Rollout.Pool.{
  Event, begins, interrupts, returns, Pool, take_nth, run, skip, end_task, begin_task, begin_next,
  end_taken, step, wait_result,
}
use flyctl.Rollout.Pool.Taken.{count, count-take_nth, count-below, count-all, wait_result-ended}
use flyctl.Rollout.Group.Runs.{run_group-Keeps, step_group-Keeps}
use flyctl.Rollout.Group.{
  Progress, ready, leading, skips_first, fails_first, pooled, start_group, step_group, run_group,
  group_result,
}

module _ {W E : Type 0} where
  -- The entries that have been updated well.
  unfoldable pub updated : Progress W E → List E
  updated (ready canceled e es w) = []
  updated (leading canceled e es w) = []
  updated (skips_first f e es w) = []
  updated (fails_first f e es w) = []
  updated (pooled p) = p.finished

  abbrev tally : (E → Bool) → Pool W E → ℕ
  tally test p =
      count test p.waiting
      + count test p.running
      + count test p.finished
      + count test p.failed
      + count test p.skipped

module _ {W E : Type 0} (task : E → W → Option Fault × W) where
  -- The update has gone well at some point.
  abbrev pub EndsWell : E → Type 0
  EndsWell e = (w : W) × ((task e w).0 ≡ none)

  abbrev HasAll : List E → Pool W E → Type 0
  HasAll es p =
      ((test : E → Bool) → tally test p ≡ count test es)
      × (length p.faults ≡ length p.failed + length p.skipped)
      × All EndsWell p.finished

  abbrev Accounts : List E → Progress W E → Type 0
  Accounts all (ready canceled e es w) = e ∷ es ≡ all
  Accounts all (leading canceled e es w) = e ∷ es ≡ all
  Accounts all (skips_first f e es w) = e ∷ es ≡ all
  Accounts all (fails_first f e es w) = e ∷ es ≡ all
  Accounts all (pooled p) = HasAll all p

  module _ (size : ℕ) (stop : Fault) (all : List E) where
    begin_next-HasAll :
        (es : List E) (p : Pool W E)
        → p.waiting ≡ es
        → HasAll all p
        → IfSome (HasAll all) (begin_next task (some size) true (some stop) es p)
    unfolding begin_next
    begin_next-HasAll [] p k h = tt
    begin_next-HasAll (e ∷ es) p k (counts, faults, well) =
        if_holds (IfSome (HasAll all)) (ltb (length p.running) size)
          (some (begin_task task (some size) true (some stop) (some stop) e es p)) none
          (if_holds (HasAll all) p.canceled (skip stop e es p) (run e es p)
            ((λ test. omega (arith, counts test, ap (count test) k)), omega (arith, faults), well)
            ((λ test. omega (arith, counts test, ap (count test) k)), faults, well))
          tt

    end_task-HasAll :
        (e : E) (rest : List E) (p : Pool W E) (r : Option Fault × W)
        → task e p.world ≡ r
        → ((test : E → Bool) → count test p.running ≡ count test (e ∷ rest))
        → HasAll all p
        → HasAll all (end_task true e rest p r)
    end_task-HasAll e rest p (none, w) ran k (counts, faults, well) =
        ((λ test. omega (arith, counts test, k test)), faults, ((p.world, ap (λ r. r.0) ran), well))
    end_task-HasAll e rest p (some f, w) ran k (counts, faults, well) =
        ((λ test. omega (arith, counts test, k test)), omega (arith, faults), well)

    step-HasAll :
        (event : Event) (p : Pool W E)
        → HasAll all p
        → IfSome (HasAll all) (step task (some size) true (some stop) event p)
    unfolding step
    step-HasAll begins p h = begin_next-HasAll p.waiting p refl h
    step-HasAll (returns i) p h =
        by_taken (take_nth i p.running) (λ test. count-take_nth test i p.running)
      where
        by_taken :
            (o : Option (E × List E))
            → ((test : E → Bool)
                → IfSome (λ (t : E × List E). count test p.running ≡ count test (t.0 ∷ t.1)) o)
            → IfSome (HasAll all) (end_taken task (some size) true (some stop) p o)
        by_taken none k = tt
        by_taken (some (e, rest)) k = end_task-HasAll e rest p (task e p.world) refl k h
    step-HasAll interrupts p h =
        if_holds (IfSome (HasAll all)) p.canceled none (some (record p { canceled = true })) tt h

not_empty : {A : Type 0} (xs : List A) → xs ≢ [] → 0 < length xs
not_empty [] h = absurd (h refl)
not_empty (x ∷ xs) h = omega arith

module _ {W E : Type 0} (task : E → W → Option Fault × W) (size : ℕ) (stop : Fault) where
  abbrev Outcome : List E → Progress W E → List Fault → Type 0
  Outcome es s errors =
      (errors ≡ []
        → ((test : E → Bool) → count test (updated s) ≡ count test es)
          × All (EndsWell task) (updated s))
      × (errors ≢ [] → length (updated s) < length es)

  some_fault : (f : Fault) → (f ∷ []) ≢ []
  some_fault f e = absurd (cc e)

  stopped-Outcome :
      (e : E) (es all : List E) (s : Progress W E) (f : Fault) (errors : List Fault)
      → e ∷ es ≡ all
      → updated s ≡ []
      → some (f ∷ []) ≡ some errors
      → Outcome all s errors
  stopped-Outcome e es all s f errors k none_updated h = (
    (λ no_errors. absurd (cc (h, no_errors))),
    λ some_errors. omega (arith, ap length k, ap length none_updated),
  )

  pooled-Outcome :
      (all : List E) (p : Pool W E) (errors : List Fault)
      → HasAll task all p
      → wait_result p ≡ some errors
      → Outcome all (pooled p) errors
  unfolding updated
  pooled-Outcome all p errors (counts, faults, well) e =
      let (no_waiting, no_running, same) = wait_result-ended p errors e in
      (
        (λ no_errors. (
          (λ test. omega (
            arith,
            counts test,
            ap (count test) no_waiting,
            ap (count test) no_running,
            count-below test p.failed,
            count-below test p.skipped,
            faults,
            ap length same,
            ap length no_errors,
          )),
          well,
        )),
        λ some_errors. omega (
          arith,
          faults,
          ap length same,
          not_empty errors some_errors,
          counts (λ e. true),
          count-all p.finished,
          count-all all,
          count-all p.failed,
          count-all p.skipped,
        ),
      )

  Accounts-Outcome :
      (all : List E) (s : Progress W E) (errors : List Fault)
      → Accounts task all s
      → group_result s ≡ some errors
      → Outcome all s errors
  unfolding group_result updated
  Accounts-Outcome all (ready c e es w) errors h k = absurd (cc k)
  Accounts-Outcome all (leading c e es w) errors h k = absurd (cc k)
  Accounts-Outcome all (skips_first f e es w) errors h k =
      stopped-Outcome e es all (skips_first f e es w) f errors h refl k
  Accounts-Outcome all (fails_first f e es w) errors h k =
      stopped-Outcome e es all (fails_first f e es w) f errors h refl k
  Accounts-Outcome all (pooled p) errors h k = pooled-Outcome all p errors h k

  -- If updateEntriesGroup returns no error, then each entry of the group is among those that were updated
  -- well, as often as it is in the group, and each of these is one whose update and wait have gone well; if
  -- it returns an error, then fewer entries than the group has were updated well.
  pub run_group-Outcome :
      (es : List E) (w : W) (events : List Event) (s : Progress W E) (errors : List Fault)
      → run_group task size stop events (start_group es w) ≡ some s
      → group_result s ≡ some errors
      → (errors ≡ []
          → ((test : E → Bool) → count test (updated s) ≡ count test es)
            × All (EndsWell task) (updated s))
        × (errors ≢ [] → length (updated s) < length es)
  unfolding start_group
  run_group-Outcome es w events s errors e k =
      Accounts-Outcome es s errors
        (subst (IfSome (Accounts task es)) e (
          run_group-Keeps task size stop (Accounts task es) keeps events (start_group es w)
            (at_start es refl)))
        k
    where
      keeps :
          (event : Event) (s : Progress W E)
          → Accounts task es s
          → IfSome (Accounts task es) (step_group task size stop event s)
      keeps =
          step_group-Keeps task size stop (Accounts task es) (λ c e rest w h. (h, h))
            (λ c e rest w. ((λ h. h), (λ h. h))) (λ c f e rest w v h. h)
            (λ c e rest w v well h.
              ((λ test. omega (arith, ap (count test) h)), refl, ((w, well), tt)))
            (step-HasAll task size stop es)

      at_start : (all : List E) → all ≡ es → Accounts task es (start_group all w)
      at_start [] h = ((λ test. ap (count test) h), refl, tt)
      at_start (e ∷ all) h = h
