-- ===== src/Bluegreen/Cleanup.antt =====
-- What has become of the blue machines when a deployment ends well.
use flyctl.Base.{
  arith, All, Any, ◌≡◌, refl, sym, subst, ap, ℕ, String, Bool, true, false, List, [], ◌∷◌, ◌++◌,
  if◌then◌else◌, ◌⊎◌, inl, inr, Option, none, some, Any-append,
}
use flyctl.Bluegreen.Types.{Entry, host_is_ok}
use flyctl.Bluegreen.Errors.{Error, Result, ok, err, flaps_status, is_transient_flaps_error}
use flyctl.Bluegreen.Platform.{
  Platform, Runner, Deployment, Event, blue, M, pure, fail, perform, recover, destroy, error_of,
  Pooled,
}
use flyctl.Bluegreen.Moves.{
  Moves, Preorder, Anything, anything, Moves-pure, Moves-bind, Moves-if, Moves-fail, Moves-recover,
  Moves-retry, Moves-pool, Ran, Pooled-Ran, retry-ok, Leaves, Leaves-bind, recover-ok, well,
  handled,
}
use flyctl.Bluegreen.Traces.{
  Extends, Extends-Preorder, Moves-perform, Any-Extends, Moves-check_aborted,
}
use flyctl.Bluegreen.Stages.{
  check_aborted, tasks, gone_is_ok, is_404, destroy_op, add_hanging, destroy_task,
  destroy_blue_machines, teardown_retry_attempts,
}

-- The blue machine `id` has been destroyed, or the API answered that there is none.
abbrev pub Gone : Option Error → Type 0
Gone o = (o ≡ none) ⊎ ((e : Error) × (o ≡ some e) × (flaps_status e ≡ some 404))

abbrev pub Removes : String → Event → Type 0
Removes id e = (e.op ≡ destroy) × (e.side ≡ blue) × (e.id ≡ id) × Gone e.error

-- A machine is removed, or is in the list of hanging machines that the user is told of.
abbrev pub Disposed : {W : Type 0} → Deployment W → Entry → Type 0
Disposed u e = Any (Removes e.machine.id) u.log ⊎ Any (λ i. i ≡ e.input.id) u.hanging

abbrev AnyCall : Event → Type 0
AnyCall e = Unit

abbrev blue_view : {W : Type 0} → Deployment W → List Entry
blue_view s = s.blue_machines

-- The log and the list of hanging machines grow.
pub record Tidies {W : Type 0} (s t : Deployment W) : Type 0 where
  pub calls : Extends blue_view AnyCall s t
  pub hangs : (id : String) → Any (λ i. i ≡ id) s.hanging → Any (λ i. i ≡ id) t.hanging

last_added : (id : String) (ids : List String) → Any (λ i. i ≡ id) (ids ++ (id ∷ []))
last_added id ids = Any-append (λ i. i ≡ id) ids (id ∷ []) (inl refl)

earlier :
    (id : String) (ids js : List String) → Any (λ i. i ≡ id) ids → Any (λ i. i ≡ id) (ids ++ js)
earlier id [] js h = absurd h
earlier id (i ∷ ids) js (inl h) = inl h
earlier id (i ∷ ids) js (inr h) = inr (earlier id ids js h)

module _ {W : Type 0} where
  calls_order : Preorder (Extends (blue_view {W = W}) AnyCall)
  calls_order = Extends-Preorder blue_view AnyCall

  tidy_order : Preorder (Tidies {W = W})
  tidy_order = record {
    same = λ s. record { calls = calls_order.same s; hangs = λ id h. h };
    chain = λ s t u h k. record {
      calls = calls_order.chain s t u h.calls k.calls;
      hangs = λ id x. k.hangs id (h.hangs id x);
    };
  }

  Disposed-Tidies : (e : Entry) (s t : Deployment W) → Tidies s t → Disposed s e → Disposed t e
  Disposed-Tidies e s t h (inl x) =
      inl (Any-Extends blue_view AnyCall (Removes e.machine.id) h.calls x)
  Disposed-Tidies e s t h (inr x) = inr (h.hangs e.input.id x)

module _ {W : Type 0} (platform : Platform W) (runner : Runner W) where
  abbrev remove : Entry → M W (Unit {0})
  remove e = perform destroy blue e.machine.id (
      if host_is_ok e.machine
      then platform.destroy e.machine
      else platform.force_destroy e.machine.id)

  remove-Tidies : (e : Entry) → Moves Tidies Anything (remove e)
  remove-Tidies e s = (
    record {
      calls =
          (Moves-perform blue_view AnyCall (λ s w l. refl) destroy blue e.machine.id
            (if host_is_ok e.machine
              then platform.destroy e.machine
              else platform.force_destroy e.machine.id)
            (λ e. tt) s).0;
      hangs = λ id h. h;
    },
    anything _,
  )

  destroy_op-Tidies : (e : Entry) → Moves Tidies Anything (destroy_op platform runner e)
  unfolding destroy_op gone_is_ok
  destroy_op-Tidies e =
      Moves-recover Tidies tidy_order Anything Anything _ _ (remove-Tidies e) (λ x k.
        Moves-if Tidies tidy_order Anything (is_404 platform runner (flaps_status x)) (pure tt)
          (fail x) (Moves-pure Tidies tidy_order Anything tt)
          (Moves-fail Tidies tidy_order Anything (Unit {0}) x tt))

  hang-Tidies : (id : String) → Moves Tidies Anything (add_hanging platform runner id)
  unfolding add_hanging
  hang-Tidies id s = (
    record {
      calls = record { added = []; grown = refl; allowed = tt; kept = refl };
      hangs = λ i h. earlier i s.hanging (id ∷ []) h;
    },
    tt,
  )

  abbrev retried : Entry → M W (Unit {0})
  retried e =
      runner.retry (Unit {0}) teardown_retry_attempts is_transient_flaps_error
        (destroy_op platform runner e)

  destroy_task-Tidies : (e : Entry) → Moves Tidies Anything (destroy_task platform runner e)
  unfolding destroy_task
  destroy_task-Tidies e =
      Moves-bind Tidies tidy_order Anything (check_aborted platform runner) _
        (Moves-check_aborted Tidies tidy_order Anything tt platform runner)
        (λ _.
          Moves-recover Tidies tidy_order Anything Anything (retried e)
            (λ _. add_hanging platform runner e.input.id)
            (Moves-retry Tidies tidy_order runner (Unit {0}) teardown_retry_attempts
              is_transient_flaps_error _ (destroy_op-Tidies e))
            (λ x k. hang-Tidies e.input.id))

  -- What a run of DestroyBlueMachines's operation with success leaves in the log.
  answer-Gone :
      (e : Entry) (s u : Deployment W) (r : Result (Unit {0}))
      → remove e s ≡ (r, u)
      → Gone (error_of r)
      → Any (Removes e.machine.id) u.log
  answer-Gone e s u r eq g =
      subst (λ q. Any (Removes e.machine.id) q.1.log) eq
        (inl (refl, refl, refl, subst Gone (sym (ap (λ q. error_of q.0) eq)) g))

  is_404-status : (o : Option ℕ) → is_404 platform runner o ≡ true → o ≡ some 404
  is_404-status none e = absurd (cc e)
  is_404-status (some n) e = ap some (ground (arith, e))

  gone_is_ok-cases :
      (b : Bool) (x : Error) (t u : Deployment W)
      → (if b then pure tt else fail x) t ≡ (ok tt, u)
      → (b ≡ true) × (t ≡ u)
  gone_is_ok-cases true x t u e = (refl, ap (λ q. q.1) e)
  gone_is_ok-cases false x t u e = absurd (cc (ap (λ q. q.0) e))

  destroy_op-Gone :
      (e : Entry) (s u : Deployment W)
      → destroy_op platform runner e s ≡ (ok tt, u)
      → Any (Removes e.machine.id) u.log
  unfolding destroy_op gone_is_ok
  destroy_op-Gone e s u eq = elim (recover-ok (remove e) (gone_is_ok platform runner) s u eq) [
    | well h ↦ answer-Gone e s u (ok tt) h (inl refl)
    | handled x t h k ↦
        let (b, same) = gone_is_ok-cases (is_404 platform runner (flaps_status x)) x t u k in
        subst (λ u. Any (Removes e.machine.id) u.log) same
          (answer-Gone e s t (err x) h (inr (x, refl, is_404-status (flaps_status x) b)))
  ]

  hang-Disposed :
      (e : Entry) (s u : Deployment W)
      → add_hanging platform runner e.input.id s ≡ (ok tt, u)
      → Disposed u e
  unfolding add_hanging
  hang-Disposed e s u eq = subst (λ q. Disposed q.1 e) eq (inr (last_added e.input.id s.hanging))

  retried-Disposed :
      (e : Entry)
      → Leaves
          (λ u. Disposed u e)
          (recover (retried e) (λ _. add_hanging platform runner e.input.id))
  retried-Disposed e s u a eq =
      elim (recover-ok (retried e) (λ _. add_hanging platform runner e.input.id) s u eq) [
        | well h ↦
            let (s', h') =
              retry-ok Tidies tidy_order runner (Unit {0}) teardown_retry_attempts
                is_transient_flaps_error (destroy_op platform runner e) s u tt h in
            inl (destroy_op-Gone e s' u h')
        | handled x t h k ↦ hang-Disposed e t u k
      ]

  task-Disposed : (e : Entry) → Leaves (λ u. Disposed u e) (destroy_task platform runner e)
  unfolding destroy_task
  task-Disposed e =
      Leaves-bind (λ u. Disposed u e) (check_aborted platform runner)
        (λ _. recover (retried e) (λ _. add_hanging platform runner e.input.id))
        (λ _. retried-Disposed e)

  tasks-Tidies :
      (es : List Entry)
      → All (Moves Tidies Anything) (tasks platform runner (destroy_task platform runner) es)
  tasks-Tidies [] = tt
  tasks-Tidies (e ∷ es) = (destroy_task-Tidies e, tasks-Tidies es)

  All-Disposed :
      (u : Deployment W) (es : List Entry)
      → All (Ran Tidies tidy_order u) (tasks platform runner (destroy_task platform runner) es)
      → All (Disposed u) es
  All-Disposed u [] h = tt
  All-Disposed u (e ∷ es) ((s, t, eq, h), hs) =
      (Disposed-Tidies e t u h (task-Disposed e s t tt eq), All-Disposed u es hs)

  abbrev pub BlueDisposed : Deployment W → Type 0
  BlueDisposed u = All (Disposed u) u.blue_machines

  pub destroy_blue-Disposed : Leaves BlueDisposed (destroy_blue_machines platform runner)
  unfolding destroy_blue_machines
  destroy_blue-Disposed s u a eq =
      let pooled =
        subst
          (λ q.
            Pooled (tasks platform runner (destroy_task platform runner) s.blue_machines) s q.0 q.1)
          eq (runner.pool_runs _ s) in
      let ran = Pooled-Ran Tidies tidy_order (tasks-Tidies s.blue_machines) pooled refl in
      let kept =
        subst (λ q. q.1.blue_machines ≡ s.blue_machines) eq
          (Moves-pool Tidies tidy_order runner Anything _ (tasks-Tidies s.blue_machines)
            s).0.calls.kept in
      subst (All (Disposed u)) (sym kept) (All-Disposed u s.blue_machines ran)
