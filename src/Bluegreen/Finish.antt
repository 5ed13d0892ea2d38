-- ===== src/Bluegreen/Finish.antt =====
-- What has become of both sides when `updateUsingBlueGreenStrategy` returns no error.
use flyctl.Base.{String, All, All-map, ◌≡◌, ◌∙◌, refl, sym, subst, ap, false, List}
use flyctl.Bluegreen.Types.{Entry}
use flyctl.Bluegreen.Errors.{Result, ok, err, cordon_blue, stop_blue, destroy_blue, tag_deletion}
use flyctl.Bluegreen.Platform.{Platform, Runner, Deployment, M, ◌>>=◌, with_cause, recover}
use flyctl.Bluegreen.Moves.{Leaves, Leaves-bind, Leaves-with_cause}
use flyctl.Bluegreen.Traces.{Extends, Any-Extends}
use flyctl.Bluegreen.Late.{OnBlue, late_view, Moves-tear_down_blue}
use flyctl.Bluegreen.Traffic.{AllInTraffic, InTraffic, Uncordons, Both-bring_up_green}
use flyctl.Bluegreen.Cleanup.{Disposed, BlueDisposed, destroy_blue-Disposed}
use flyctl.Bluegreen.Launch.{pause}
use flyctl.Bluegreen.Stages.{
  check_aborted, tag_blue_machines_as_safe_for_deletion, cordon_blue_machines, stop_blue_machines,
}
use flyctl.Bluegreen.Run.{
  join, bring_up_green, keep_green_machines, tear_down_blue, deploy, rollback, report,
  roll_back_after, tolerate_stop_failures, wait_for_blue_machines_to_be_stopped, run_and_roll_back,
  blue_green_strategy, update_using_blue_green_strategy,
}

module _ {W : Type 0} (platform : Platform W) (runner : Runner W) where
  abbrev Disposes : M W (Unit {0}) → Type 0
  Disposes m = Leaves (BlueDisposed platform runner) m

  then-Disposes : (m : M W (Unit {0})) (n : M W (Unit {0})) → Disposes n → Disposes (m >>= λ _. n)
  then-Disposes m n h = Leaves-bind (BlueDisposed platform runner) m (λ _. n) (λ _. h)

  tear_down-Disposes : Disposes (tear_down_blue platform runner)
  unfolding tear_down_blue
  tear_down-Disposes = then-Disposes (check_aborted platform runner) _ (
      then-Disposes
        (with_cause (join tag_deletion) (tag_blue_machines_as_safe_for_deletion platform runner)) _
        (then-Disposes (check_aborted platform runner) _ (
          then-Disposes (pause platform) _ (
            then-Disposes (check_aborted platform runner) _ (
              then-Disposes (with_cause (join cordon_blue) (cordon_blue_machines platform runner)) _
                (then-Disposes (check_aborted platform runner) _ (
                  then-Disposes (pause platform) _ (
                    then-Disposes (check_aborted platform runner) _ (
                      then-Disposes
                        (with_cause (join stop_blue) (stop_blue_machines platform runner)) _
                        (then-Disposes
                          (recover (wait_for_blue_machines_to_be_stopped platform runner)
                            (tolerate_stop_failures platform runner))
                          _
                          (Leaves-with_cause (BlueDisposed platform runner) (join destroy_blue) _
                            (destroy_blue-Disposed platform runner))))))))))))

  update-deployed :
      (r : Result (Unit {0})) (t u : Deployment W)
      → roll_back_after platform runner r t ≡ (ok tt, u)
      → (r ≡ ok tt) × (t ≡ u)
  update-deployed (ok tt) t u e = (refl, ap (λ q. q.1) e)
  update-deployed (err x) t u e = absurd (never (rollback platform runner x t).0 (ap (λ q. q.0) e))
    where
      never : (q : Result (Unit {0})) → report platform runner x q ≡ ok tt → ⊥
      never (ok a) h = cc h
      never (err y) h = cc h

  abbrev pub Served : List Entry → Deployment W → Type 0
  Served blue u = AllInTraffic platform runner u × All (Disposed u) blue

  deploy-Served :
      (s u : Deployment W) (r : Result (Unit {0})) (t : Deployment W)
      → bring_up_green platform runner s ≡ (r, t)
      → (elim r as (λ r. Result (Unit {0}) × Deployment W) [
        | ok a ↦ (keep_green_machines platform runner >>= λ _. tear_down_blue platform runner) t
        | err e ↦ (err e, t)
      ])
        ≡ (ok tt, u)
      → Served s.blue_machines u
  unfolding keep_green_machines
  deploy-Served s u (err x) t eq e = absurd (cc (ap (λ q. q.0) e))
  deploy-Served s u (ok tt) t eq e = (
    subst (All (InTraffic u)) (sym (ap (λ q. q.0) torn.kept)) (
        All-map (InTraffic t) (InTraffic u) t.green_machines
          (λ e k. Any-Extends late_view OnBlue (Uncordons e.machine.id) torn k)
          ((Both-bring_up_green platform runner).1 s t tt eq)),
    subst (All (Disposed u)) (ap (λ q. q.1) torn.kept ∙ before)
        (tear_down-Disposes (record t { can_delete_green = false }) u tt e),
  )
    where
      torn : Extends late_view OnBlue (record t { can_delete_green = false }) u
      torn =
          subst (λ q. Extends late_view OnBlue (record t { can_delete_green = false }) q.1) e
            (Moves-tear_down_blue platform runner (record t { can_delete_green = false })).0

      before : t.blue_machines ≡ s.blue_machines
      before =
          subst (λ q. q.1.blue_machines ≡ s.blue_machines) eq
            ((Both-bring_up_green platform runner).0 s).0.kept

  run-Served :
      (s u : Deployment W)
      → run_and_roll_back platform runner s ≡ (ok tt, u)
      → Served s.blue_machines u
  unfolding run_and_roll_back deploy
  run-Served s u e =
      let (h, same) =
        update-deployed (deploy platform runner s).0 (deploy platform runner s).1 u e in
      deploy-Served s u (bring_up_green platform runner s).0 (bring_up_green platform runner s).1
        refl (ap (λ r. (r, (deploy platform runner s).1)) h ∙ ap (λ t. (ok tt, t)) same)

  -- When updateUsingBlueGreenStrategy returns no error, every green machine has been uncordoned with
  -- success, and every blue machine has been destroyed, or the API has answered that it does not exist,
  -- or its id is in the list of hanging machines.
  pub update-Served :
      (timestamp : String) (machines : List Entry) (w : W) (u : Deployment W)
      → update_using_blue_green_strategy platform runner timestamp machines w ≡ (ok tt, u)
      → Served machines u
  unfolding update_using_blue_green_strategy blue_green_strategy
  update-Served timestamp machines w u e =
      run-Served (blue_green_strategy platform runner timestamp machines w) u e
