-- ===== src/Bluegreen/Traffic.antt =====
-- The switch to the green machines: once the stages up to it have ended well, every green machine has
-- been uncordoned.
use flyctl.Base.{All, Any, ◌≡◌, refl, sym, subst, ap, true, String, none, List, [], ◌∷◌, inl, inr}
use flyctl.Bluegreen.Types.{Entry}
use flyctl.Bluegreen.Errors.{ok, org_limit, create_green, started_state, wait_healthy, mark_ready}
use flyctl.Bluegreen.Platform.{
  Platform, Runner, Deployment, Event, green, M, ◌>>=◌, ask, perform, with_cause, uncordon,
  error_of, Pooled,
}
use flyctl.Bluegreen.Moves.{
  Moves, Preorder, Anything, anything, Moves-bind, Moves-retry, Moves-pool, Ran, Pooled-Ran,
  retry-ok, Leaves, Leaves-bind, Leaves-with_cause,
}
use flyctl.Bluegreen.Traces.{
  Moves-check_aborted, Extends, Extends-Preorder, Moves-perform, Moves-ask, Any-Extends,
}
use flyctl.Bluegreen.Launch.{pause}
use flyctl.Bluegreen.Stages.{
  check_aborted, create_green_machines, tasks, mark_ready_task,
  mark_green_machines_as_ready_for_traffic, uncordon_retry_attempts,
}
use flyctl.Bluegreen.Run.{
  guard, validate_checks, join, wait_for_green_machines_to_be_started,
  wait_for_green_machines_to_be_healthy, detect_images, bring_up_green,
}
use flyctl.Bluegreen.Early.{
  early_view, Builds, R, order, Quiet, after, world, Quiet-check, Quiet-pause, Quiet-create_all,
  Quiet-images, Quiet-guard, Quiet-joined,
}

-- The green machine `id` has been uncordoned with success.
abbrev pub Uncordons : String → Event → Type 0
Uncordons id e = (e.op ≡ uncordon) × (e.side ≡ green) × (e.id ≡ id) × (e.error ≡ none)

abbrev pub InTraffic : {W : Type 0} → Deployment W → Entry → Type 0
InTraffic s e = Any (Uncordons e.machine.id) s.log

module _ {W : Type 0} (platform : Platform W) (runner : Runner W) where
  abbrev uncordon_op : Entry → M W (Unit {0})
  uncordon_op e = perform uncordon green e.machine.id (platform.uncordon e.machine.id)

  -- The tasks of MarkGreenMachinesAsReadyForTraffic, for a view of the state that they leave alone.
  module _ {K : Type 0} (view : Deployment W → K)
      (stable : (s : Deployment W) (w : W) (l : List Event)
        → view (record s { world = w; log = l }) ≡ view s) where
    abbrev Built : Deployment W → Deployment W → Type 0
    Built = Extends view Builds

    abbrev built_order : Preorder Built
    built_order = Extends-Preorder view Builds

    ready_task : (e : Entry) → Moves Built Anything (mark_ready_task platform runner e)
    unfolding mark_ready_task
    ready_task e =
        Moves-bind Built built_order Anything (check_aborted platform runner) _
          (Moves-check_aborted Built built_order Anything tt platform runner)
          (λ _.
            Moves-retry Built built_order runner (Unit {0}) uncordon_retry_attempts (λ _. true)
              (uncordon_op e)
              (Moves-perform view Builds stable uncordon green e.machine.id
                (platform.uncordon e.machine.id) (λ e. (refl, inr refl))))

    ready_tasks :
        (es : List Entry)
        → All (Moves Built Anything) (tasks platform runner (mark_ready_task platform runner) es)
    ready_tasks [] = tt
    ready_tasks (e ∷ es) = (ready_task e, ready_tasks es)

    ready : Moves Built Anything (mark_green_machines_as_ready_for_traffic platform runner)
    unfolding mark_green_machines_as_ready_for_traffic
    ready s = Moves-pool Built built_order runner Anything _ (ready_tasks s.green_machines) s

  abbrev green_view : Deployment W → List Entry
  green_view s = s.green_machines

  uncordon-logged :
      (e : Entry) (s u : Deployment W) (a : Unit {0}) → uncordon_op e s ≡ (ok a, u) → InTraffic u e
  uncordon-logged e s u a eq =
      subst (λ q. Any (Uncordons e.machine.id) q.1.log) eq
        (inl (refl, refl, refl, ap (λ q. error_of q.0) eq))

  ready_task-logged : (e : Entry) → Leaves (λ u. InTraffic u e) (mark_ready_task platform runner e)
  unfolding mark_ready_task
  ready_task-logged e =
      Leaves-bind (λ u. InTraffic u e) (check_aborted platform runner)
        (λ _. runner.retry (Unit {0}) uncordon_retry_attempts (λ _. true) (uncordon_op e))
        (λ _ s u a eq.
          let (s', eq') =
            retry-ok R order runner (Unit {0}) uncordon_retry_attempts (λ _. true) (uncordon_op e) s
              u a eq in
          uncordon-logged e s' u a eq')

  All-logged :
      (u : Deployment W) (es : List Entry)
      → All (Ran R order u) (tasks platform runner (mark_ready_task platform runner) es)
      → All (InTraffic u) es
  All-logged u [] h = tt
  All-logged u (e ∷ es) ((s, t, eq, h), hs) = (
    Any-Extends early_view Builds (Uncordons e.machine.id) h (ready_task-logged e s t tt eq),
    All-logged u es hs,
  )

  abbrev pub AllInTraffic : Deployment W → Type 0
  AllInTraffic u = All (InTraffic u) u.green_machines

  ready-logged : Leaves AllInTraffic (mark_green_machines_as_ready_for_traffic platform runner)
  unfolding mark_green_machines_as_ready_for_traffic
  ready-logged s u a eq =
      let ran =
        Pooled-Ran R order (ready_tasks early_view (λ s w l. refl) s.green_machines)
          (subst
            (λ q.
              Pooled (tasks platform runner (mark_ready_task platform runner) s.green_machines) s
                q.0 q.1)
            eq (runner.pool_runs _ s))
          refl in
      let kept =
        subst (λ q. green_view q.1 ≡ s.green_machines) eq
          ((ready green_view (λ s w l. refl) s).0.kept) in
      subst (All (InTraffic u)) (sym kept) (All-logged u s.green_machines ran)

  -- The stages of `bring_up_green`, for two readings of it at once.
  abbrev Both : M W (Unit {0}) → Type 0
  Both m = Quiet m × Leaves AllInTraffic m

  Both-step :
      {A : Type 0} (m : M W A) (f : A → M W (Unit {0}))
      → Quiet m
      → ((a : A) → Both (f a))
      → Both (m >>= f)
  Both-step m f hm hf = (after m f hm (λ a. (hf a).0), Leaves-bind AllInTraffic m f (λ a. (hf a).1))

  Both-ready :
      Both (with_cause (join mark_ready) (mark_green_machines_as_ready_for_traffic platform runner))
  Both-ready = (
    Quiet-joined platform runner mark_ready _ (ready early_view (λ s w l. refl)),
    Leaves-with_cause AllInTraffic (join mark_ready) _ ready-logged,
  )

  Quiet-started : Quiet (wait_for_green_machines_to_be_started platform runner)
  unfolding wait_for_green_machines_to_be_started
  Quiet-started s = (world s (platform.start_rounds s.green_machines s.world).1, anything _)

  Quiet-healthy : Quiet (wait_for_green_machines_to_be_healthy platform runner)
  unfolding wait_for_green_machines_to_be_healthy
  Quiet-healthy s = (world s (platform.health_rounds s.green_machines s.world).1, anything _)

  Quiet-validate : Quiet (validate_checks platform runner)
  unfolding validate_checks
  Quiet-validate s = Quiet-guard platform runner _ _ s

  Quiet-permission : Quiet (ask platform.can_perform)
  Quiet-permission = Moves-ask early_view Builds (λ s w l. refl) platform.can_perform

  pub Both-bring_up_green : Both (bring_up_green platform runner)
  unfolding bring_up_green
  Both-bring_up_green =
      Both-step (check_aborted platform runner) _ (Quiet-check platform runner) (λ _.
        Both-step (ask platform.can_perform) _ Quiet-permission (λ b.
          Both-step (guard platform runner b (org_limit ∷ [])) _
            (Quiet-guard platform runner b (org_limit ∷ []))
            (λ _. Both-step (detect_images platform runner) _ (Quiet-images platform runner) (λ _.
              Both-step (validate_checks platform runner) _ Quiet-validate (λ _.
                Both-step (with_cause (join create_green) (create_green_machines platform runner)) _
                  (Quiet-joined platform runner create_green _ (Quiet-create_all platform runner))
                  (λ _.
                    Both-step (check_aborted platform runner) _ (Quiet-check platform runner) (λ _.
                      Both-step (pause platform) _ (Quiet-pause platform runner) (λ _.
                        Both-step
                          (with_cause (join started_state)
                            (wait_for_green_machines_to_be_started platform runner))
                          _ (Quiet-joined platform runner started_state _ Quiet-started)
                          (λ _.
                            Both-step (check_aborted platform runner) _
                              (Quiet-check platform runner)
                              (λ _.
                                Both-step
                                  (with_cause (join wait_healthy)
                                    (wait_for_green_machines_to_be_healthy platform runner))
                                  _ (Quiet-joined platform runner wait_healthy _ Quiet-healthy)
                                  (λ _.
                                    Both-step (check_aborted platform runner) _
                                      (Quiet-check platform runner) (λ _. Both-ready))))))))))))
