-- ===== src/Bluegreen/Early.antt =====
-- The stages before the green machines are let into the traffic: they call only green machines, to
-- launch them.
use flyctl.Base.{
  All, ◌≡◌, refl, ℕ, zero, suc, ◌+◌, Bool, true, not, String, Option, none, some, List, [], ◌∷◌,
  ◌⊎◌, inl,
}
use flyctl.Bluegreen.Types.{Entry, LaunchInput, Machine, host_is_ok, image_ref_is_empty}
use flyctl.Bluegreen.Errors.{
  Error, Cause, Result, ok, err, is_transient_flaps_error, multiple_images,
}
use flyctl.Bluegreen.Platform.{
  Platform, Runner, Deployment, Event, green, M, pure, fail, ◌>>=◌, ask, with_cause, launch,
  uncordon,
}
use flyctl.Bluegreen.Moves.{
  Moves, Preorder, Anything, Moves-pure, Moves-fail, Moves-bind, Moves-with_cause, Moves-retry,
  Moves-pool, Moves-if,
}
use flyctl.Bluegreen.Traces.{
  Moves-check_aborted, Extends, Extends-Preorder, Extends-world, Moves-perform, Moves-ask,
}
use flyctl.Bluegreen.Images.{
  Tally, refresh_machine_image_ref, attempt, tally_machine, tally_machines, tally_fresh,
  tally_image, tally_unreachable, is_single_image, detect_multiple_image_versions,
  image_ref_retry_attempts,
}
use flyctl.Bluegreen.Launch.{
  pause, check_context, or_fail, find_green_machine, try_launch, or_retry, after_launch, back_off,
  launch_attempts, launch_green_machine_with_retry, launch_retry_attempts,
}
use flyctl.Bluegreen.Stages.{
  check_aborted, new_launch_id, add_green, release_lease, create_green_machine, create_tasks,
  create_green_machines, green_input, member,
}
use flyctl.Bluegreen.Run.{guard, join, detect_images}

abbrev pub early_view : {W : Type 0} → Deployment W → List Entry
early_view s = s.blue_machines

-- A green machine is created or let into the traffic.
abbrev pub Builds : Event → Type 0
Builds e = (e.side ≡ green) × ((e.op ≡ launch) ⊎ (e.op ≡ uncordon))

module _ {W : Type 0} where
  abbrev pub R : Deployment W → Deployment W → Type 0
  R = Extends early_view Builds

  abbrev pub order : Preorder R
  order = Extends-Preorder early_view Builds

  abbrev pub Quiet : {A : Type 0} → M W A → Type 0
  Quiet m = Moves R Anything m

  pub after :
      {A B : Type 0} (m : M W A) (f : A → M W B)
      → Quiet m
      → ((a : A) → Quiet (f a))
      → Quiet (m >>= f)
  after m f hm hf = Moves-bind R order Anything m f hm hf

  pub passes : {A : Type 0} (a : A) → Quiet (pure {W = W} a)
  passes a = Moves-pure R order Anything a

  pub fails : (A : Type 0) (e : Error) → Quiet (fail {W = W} {A = A} e)
  fails A e = Moves-fail R order Anything A e tt

  pub world : (s : Deployment W) (w : W) → R s (record s { world = w })
  world s w = Extends-world early_view Builds (λ s w l. refl) s w

module _ {W : Type 0} (platform : Platform W) (runner : Runner W) where
  pub Quiet-check : Quiet (check_aborted platform runner)
  Quiet-check = Moves-check_aborted R order Anything tt platform runner

  pub Quiet-pause : Quiet (pause platform)
  unfolding pause
  Quiet-pause s = (world s (platform.sleep s.world), tt)

  Quiet-context : Quiet (check_context platform)
  unfolding check_context
  Quiet-context s = fails_or (platform.context_error s.world) s
    where
      fails_or : (o : Option Error) → Quiet (or_fail platform o)
      fails_or none = passes tt
      fails_or (some e) = fails (Unit {0}) e

  Quiet-find : (id : String) → Quiet (find_green_machine platform id)
  unfolding find_green_machine
  Quiet-find id s = (world s (platform.list s.world).1, tt)

  Quiet-try : (input : LaunchInput) (id : String) → Quiet (try_launch platform input id)
  Quiet-try input id s = (
    (Moves-perform early_view Builds (λ s w l. refl) {A = Machine} launch green id
        (platform.launch input) (λ e. (refl, inl refl)) s).0,
    tt,
  )

  Quiet-after_launch :
      (id : String) (r : Result Machine) (next : Error → M W Machine)
      → ((e : Error) → Quiet (next e))
      → Quiet (after_launch platform id r next)
  Quiet-after_launch id (ok m) next h = passes m
  Quiet-after_launch id (err e) next h =
      Moves-if R order Anything (not (is_transient_flaps_error e)) (fail e) _ (fails Machine e) (
        after _ _ Quiet-pause (λ _.
          after (check_context platform) _ Quiet-context (λ _. after _ _ (Quiet-find id) retried)))
    where
      retried : (o : Option Machine) → Quiet (or_retry platform o (next e))
      retried none = h e
      retried (some m) = passes m

  Quiet-back_off : (n : ℕ) → Quiet (back_off platform n)
  Quiet-back_off zero = passes tt
  Quiet-back_off (suc n) = after _ _ Quiet-pause (λ _. Quiet-context)

  Quiet-attempts :
      (n : ℕ) (last : Error) (input : LaunchInput) (id : String)
      → Quiet (launch_attempts platform n last input id)
  unfolding launch_attempts
  Quiet-attempts zero last input id = fails Machine last
  Quiet-attempts (suc n) last input id = after (check_context platform) _ Quiet-context (λ _.
      after (try_launch platform input id) _ (Quiet-try input id) (λ r.
        Quiet-after_launch id r _ (λ e.
          after (back_off platform n) _ (Quiet-back_off n) (λ _. Quiet-attempts n e input id))))

  Quiet-launch :
      (n : ℕ) (input : LaunchInput) (id : String)
      → Quiet (launch_green_machine_with_retry platform n input id)
  unfolding launch_green_machine_with_retry
  Quiet-launch n input id = Quiet-attempts _ [] input id

  Quiet-new_id : Quiet (new_launch_id platform runner)
  unfolding new_launch_id
  Quiet-new_id s = (world s (platform.new_launch_id s.world).1, tt)

  Quiet-add : (e : Entry) → Quiet (add_green platform runner e)
  unfolding add_green
  Quiet-add e s = (record { added = []; grown = refl; allowed = tt; kept = refl }, tt)

  Quiet-release : (m : Machine) → Quiet (release_lease platform runner m)
  unfolding release_lease
  Quiet-release m s = (world s (platform.release_lease m s.world).1, tt)

  Quiet-create :
      (forced : List ℕ) (stamp : String) (i : ℕ) (e : Entry)
      → Quiet (create_green_machine platform runner forced stamp i e)
  unfolding create_green_machine
  Quiet-create forced stamp i e = after (check_aborted platform runner) _ Quiet-check (λ _.
      after (new_launch_id platform runner) _ Quiet-new_id (λ id.
        after (launch_green_machine_with_retry platform launch_retry_attempts (input id) id) _
          (Quiet-launch launch_retry_attempts (input id) id)
          (λ m.
            after (add_green platform runner (record { machine = m; input = input id }))
              (λ _. release_lease platform runner m)
              (Quiet-add (record { machine = m; input = input id })) (λ _. Quiet-release m))))
    where
      input : String → LaunchInput
      input id = green_input (member i forced) stamp id e.input

  Quiet-tasks :
      (forced : List ℕ) (stamp : String) (i : ℕ) (es : List Entry)
      → All Quiet (create_tasks platform runner forced stamp i es)
  unfolding create_tasks
  Quiet-tasks forced stamp i [] = tt
  Quiet-tasks forced stamp i (e ∷ es) =
      (Quiet-create forced stamp i e, Quiet-tasks forced stamp (i + 1) es)

  pub Quiet-create_all : Quiet (create_green_machines platform runner)
  unfolding create_green_machines
  Quiet-create_all s =
      Moves-pool R order runner Anything _ (Quiet-tasks _ s.timestamp 0 s.blue_machines) s

  Quiet-refresh : (id : String) → Quiet (refresh_machine_image_ref platform runner id)
  unfolding refresh_machine_image_ref
  Quiet-refresh id =
      Moves-retry R order runner Machine image_ref_retry_attempts (λ e. true)
        (ask (platform.get id)) (Moves-ask early_view Builds (λ s w l. refl) (platform.get id))

  Quiet-tally : (m : Machine) (t : Tally) → Quiet (tally_machine platform runner m t)
  unfolding tally_machine
  Quiet-tally m t =
      Moves-if R order Anything (not (host_is_ok m)) (pure (tally_unreachable m t)) _
        (passes (tally_unreachable m t))
        (Moves-if R order Anything (image_ref_is_empty m) _ (pure (tally_image m t))
          (after (attempt platform runner (refresh_machine_image_ref platform runner m.id))
            (λ fresh. pure (tally_fresh m fresh t)) (λ s. ((Quiet-refresh m.id s).0, tt))
            (λ fresh. passes (tally_fresh m fresh t)))
          (passes (tally_image m t)))

  Quiet-tally_all : (es : List Entry) (t : Tally) → Quiet (tally_machines platform runner es t)
  unfolding tally_machines
  Quiet-tally_all [] t = passes t
  Quiet-tally_all (e ∷ es) t =
      after (tally_machine platform runner e.machine t) _ (Quiet-tally e.machine t)
        (λ t'. Quiet-tally_all es t')

  pub Quiet-images : Quiet (detect_images platform runner)
  unfolding detect_images detect_multiple_image_versions
  Quiet-images s =
      after
        (tally_machines platform runner s.blue_machines (record { images = []; unreachable = [] }))
        _ (Quiet-tally_all s.blue_machines (record { images = []; unreachable = [] }))
        (λ t.
          Moves-if R order Anything (is_single_image t) (pure tt) _ (passes tt)
            (fails (Unit {0}) (multiple_images ∷ [])))
        s

  pub Quiet-guard : (b : Bool) (e : Error) → Quiet (guard platform runner b e)
  unfolding guard
  Quiet-guard b e = Moves-if R order Anything b (pure tt) (fail e) (passes tt) (fails (Unit {0}) e)

  pub Quiet-joined : (c : Cause) (m : M W (Unit {0})) → Quiet m → Quiet (with_cause (join c) m)
  Quiet-joined c m h = Moves-with_cause R order Anything Anything (join c) m (λ e k. tt) h
