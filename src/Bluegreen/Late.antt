-- ===== src/Bluegreen/Late.antt =====
-- The stages that follow the switch to the green machines: they call only the blue ones, and their
-- errors are not among those after which green machines may be destroyed.
mod Causes
use flyctl.Base.{
  length, ◌==◌, All, ◌≡◌, refl, ℕ, Bool, true, false, String, List, [], ◌∷◌, if◌then◌else◌,
}
use flyctl.Bluegreen.Types.{Entry}
use flyctl.Bluegreen.Errors.{
  Error, Cause, Result, ok, err, is, flaps_status, aborted, cordon_blue, stop_blue, stopped_state,
  destroy_blue, tag_deletion, wait_timeout, stop_failures,
}
use flyctl.Bluegreen.Platform.{
  Platform, Runner, Round, Deployment, Event, Op, blue, M, pure, fail, ◌>>◌, perform, recover,
  with_cause, tag, cordon, stop, destroy,
}
use flyctl.Bluegreen.Moves.{
  Moves, Preorder, ErrorIn, Anything, Moves-pure, Moves-fail, Moves-bind, Moves-with_cause,
  Moves-recover, Moves-retry, Moves-pool, Moves-if,
}
use flyctl.Bluegreen.Traces.{
  Moves-check_aborted, Extends, Extends-Preorder, Extends-world, Moves-perform,
}
use flyctl.Bluegreen.Launch.{pause}
use flyctl.Bluegreen.Stages.{
  check_aborted, tasks, on_ok_hosts, attempts, tag_task, tag_blue_machines_as_safe_for_deletion,
  cordon_task, cordon_blue_machines, stop_task, stop_blue_machines, destroy_op, gone_is_ok, is_404,
  add_hanging, destroy_task, destroy_blue_machines,
}
use flyctl.Bluegreen.Waits.{count_report, has_failed, wait_stopped, waitable}
use flyctl.Bluegreen.Run.{
  join, tolerate_stop_failures, wait_for_blue_machines_to_be_stopped, tear_down_blue,
}
pub use Causes.{AllLate, late-can_destroy}
use Causes.{
  IsLate, late-join, aborted-IsLate, wait_timeout-IsLate, stop_failures-IsLate,
  stopped_state-IsLate, tag_deletion-IsLate, cordon_blue-IsLate, stop_blue-IsLate,
  destroy_blue-IsLate,
}

-- What the deployment keeps while blue machines are torn down.
abbrev pub late_view : {W : Type 0} → Deployment W → List Entry × List Entry × Bool
late_view s = (s.green_machines, s.blue_machines, s.can_delete_green)

abbrev pub OnBlue : Event → Type 0
OnBlue e = e.side ≡ blue

module _ {W : Type 0} (platform : Platform W) (runner : Runner W) where
  abbrev R : Deployment W → Deployment W → Type 0
  R = Extends late_view OnBlue

  abbrev order : Preorder R
  order = Extends-Preorder late_view OnBlue

  Moves-check : Moves R AllLate (check_aborted platform runner)
  Moves-check = Moves-check_aborted R order AllLate (aborted-IsLate, tt) platform runner

  call :
      {A : Type 0} (op : Op) (id : String) (f : W → Result A × W)
      → Moves R Anything (perform op blue id f)
  call op id f = Moves-perform late_view OnBlue (λ s w l. refl) op blue id f (λ e. refl)

  after : (m n : M W (Unit {0})) → Moves R AllLate m → Moves R AllLate n → Moves R AllLate (m >> n)
  after m n hm hn = Moves-bind R order AllLate m (λ _. n) hm (λ _. hn)

  joined :
      (c : Cause)
      → IsLate c
      → (m : M W (Unit {0})) → Moves R AllLate m
      → Moves R AllLate (with_cause (join c) m)
  joined c h m hm = Moves-with_cause R order AllLate AllLate (join c) m (late-join c h) hm

  -- A retried call whose error is dropped.
  forgiven :
      (n : ℕ) (retry_if : Error → Bool) (op : M W (Unit {0}))
      → Moves R Anything op
      → Moves R AllLate (recover (attempts platform runner n retry_if op) (λ _. pure tt))
  forgiven n retry_if op h =
      Moves-recover R order Anything AllLate (runner.retry (Unit {0}) n retry_if op) (λ _. pure tt)
        (Moves-retry R order runner (Unit {0}) n retry_if op h)
        (λ e k. Moves-pure R order AllLate tt)

  Moves-tag_task : (e : Entry) → Moves R AllLate (tag_task platform runner e)
  unfolding tag_task
  Moves-tag_task e = forgiven _ _ _ (call tag e.machine.id _)

  Moves-cordon_task : (e : Entry) → Moves R AllLate (cordon_task platform runner e)
  unfolding cordon_task
  Moves-cordon_task e = after _ _ Moves-check (forgiven _ _ _ (call cordon e.machine.id _))

  Moves-stop_task : (e : Entry) → Moves R AllLate (stop_task platform runner e)
  unfolding stop_task
  Moves-stop_task e = after _ _ Moves-check (forgiven _ _ _ (call stop e.machine.id _))

  Moves-destroy_op : (e : Entry) → Moves R Anything (destroy_op platform runner e)
  unfolding destroy_op gone_is_ok
  Moves-destroy_op e =
      Moves-recover R order Anything Anything _ _ (call destroy e.machine.id _) (λ x k.
        Moves-if R order Anything (is_404 platform runner (flaps_status x)) (pure tt) (fail x)
          (Moves-pure R order Anything tt) (Moves-fail R order Anything (Unit {0}) x tt))

  Moves-destroy_task : (e : Entry) → Moves R AllLate (destroy_task platform runner e)
  unfolding destroy_task add_hanging
  Moves-destroy_task e = after _ _ Moves-check (
      Moves-recover R order Anything AllLate _ (λ _. add_hanging platform runner e.input.id)
        (Moves-retry R order runner (Unit {0}) _ _ _ (Moves-destroy_op e))
        (λ x k s. (record { added = []; grown = refl; allowed = tt; kept = refl }, tt)))

  All-tasks :
      (P : M W (Unit {0}) → Type 0) (f : Entry → M W (Unit {0}))
      → ((e : Entry) → P (f e))
      → (es : List Entry) → All P (tasks platform runner f es)
  All-tasks P f h [] = tt
  All-tasks P f h (e ∷ es) = (h e, All-tasks P f h es)

  pooled :
      (f : Entry → M W (Unit {0})) (es : List Entry)
      → ((e : Entry) → Moves R AllLate (f e))
      → Moves R AllLate (runner.pool (tasks platform runner f es))
  pooled f es h =
      Moves-pool R order runner AllLate (tasks platform runner f es)
        (All-tasks (Moves R AllLate) f h es)

  Moves-pause : Moves R AllLate (pause platform)
  unfolding pause
  Moves-pause s = (Extends-world late_view OnBlue (λ s w l. refl) s (platform.sleep s.world), tt)

  Moves-tag : Moves R AllLate (tag_blue_machines_as_safe_for_deletion platform runner)
  unfolding tag_blue_machines_as_safe_for_deletion
  Moves-tag s =
      Moves-recover R order AllLate AllLate _ (λ _. pure tt)
        (pooled (tag_task platform runner) s.blue_machines Moves-tag_task)
        (λ e k. Moves-pure R order AllLate tt) s

  Moves-cordon : Moves R AllLate (cordon_blue_machines platform runner)
  unfolding cordon_blue_machines
  Moves-cordon s =
      pooled (cordon_task platform runner) (on_ok_hosts platform runner s.blue_machines)
        Moves-cordon_task s

  Moves-stop : Moves R AllLate (stop_blue_machines platform runner)
  unfolding stop_blue_machines
  Moves-stop s =
      pooled (stop_task platform runner) (on_ok_hosts platform runner s.blue_machines)
        Moves-stop_task s

  Moves-destroy : Moves R AllLate (destroy_blue_machines platform runner)
  unfolding destroy_blue_machines
  Moves-destroy s = pooled (destroy_task platform runner) s.blue_machines Moves-destroy_task s

  finished-late :
      (b failed : Bool) (q : Result (Unit {0}))
      → ErrorIn AllLate q
      → ErrorIn AllLate (if b then (if failed then err (stop_failures ∷ []) else ok tt) else q)
  finished-late true true q h = (stop_failures-IsLate, tt)
  finished-late true false q h = tt
  finished-late false failed q h = h

  wait_stopped-late :
      (rs : List (Round (Unit {0}))) (expected done : ℕ) (failed : Bool)
      → ErrorIn AllLate (wait_stopped rs expected done failed)
  unfolding wait_stopped
  wait_stopped-late [] expected done failed =
      finished-late (done == expected) failed (err (wait_timeout ∷ [])) (wait_timeout-IsLate, tt)
  wait_stopped-late (r ∷ rs) expected done failed = finished-late (done == expected) failed _ (
      unless r.abort
        (wait_stopped rs expected (count_report r.report done) (has_failed r.report failed))
        (wait_stopped-late rs expected (count_report r.report done) (has_failed r.report failed)))
    where
      unless :
          (b : Bool) (q : Result (Unit {0}))
          → ErrorIn AllLate q
          → ErrorIn AllLate (if b then err (aborted ∷ []) else q)
      unless true q h = (aborted-IsLate, tt)
      unless false q h = h

  Moves-wait : Moves R AllLate (
      recover
        (wait_for_blue_machines_to_be_stopped platform runner)
        (tolerate_stop_failures platform runner))
  unfolding wait_for_blue_machines_to_be_stopped tolerate_stop_failures
  Moves-wait =
      Moves-recover R order AllLate AllLate (wait_for_blue_machines_to_be_stopped platform runner)
        (tolerate_stop_failures platform runner) watched tolerated
    where
      watched : Moves R AllLate (wait_for_blue_machines_to_be_stopped platform runner)
      watched s = (
        Extends-world late_view OnBlue (λ s w l. refl) s
            (platform.stop_rounds (waitable s.blue_machines) s.world).1,
        wait_stopped-late (platform.stop_rounds (waitable s.blue_machines) s.world).0
            (length (waitable s.blue_machines)) 0 false,
      )

      tolerated :
          (e : Error) → AllLate e → Moves R AllLate (tolerate_stop_failures platform runner e)
      tolerated e h =
          Moves-if R order AllLate (is e stop_failures) (pure tt) (fail (join stopped_state e))
            (Moves-pure R order AllLate tt)
            (Moves-fail R order AllLate (Unit {0}) (join stopped_state e)
              (late-join stopped_state stopped_state-IsLate e h))

  pub Moves-tear_down_blue : Moves R AllLate (tear_down_blue platform runner)
  unfolding tear_down_blue
  Moves-tear_down_blue = after _ _ Moves-check (
      after _ _ (joined tag_deletion tag_deletion-IsLate _ Moves-tag) (
        after _ _ Moves-check (
          after _ _ Moves-pause (
            after _ _ Moves-check (
              after _ _ (joined cordon_blue cordon_blue-IsLate _ Moves-cordon) (
                after _ _ Moves-check (
                  after _ _ Moves-pause (
                    after _ _ Moves-check (
                      after _ _ (joined stop_blue stop_blue-IsLate _ Moves-stop) (
                        after _ _ Moves-wait
                          (joined destroy_blue destroy_blue-IsLate _ Moves-destroy)))))))))))
