-- ===== src/Rollout/Release/Reports.antt =====
-- Which statuses a release gets.
use flyctl.Base.{
  ◌≡◌, ◌≢◌, ◌∙◌, refl, ap, Bool, true, false, ◌⊎◌, inl, inr, Option, none, some, [], ◌∷◌, arith,
}
use flyctl.Base.Bytes.{Bytes, codes}
use flyctl.Plan.Checks.{Fault}
use flyctl.Rollout.Deploy.{and_then, wrapped}
use flyctl.Rollout.Release.{
  Status, Release, ReleaseCalls, running, complete, interrupted, failed, configure_statics,
  push_statics, status_of, run_machines, finish_statics, check, report, deploy_app, call, send,
}

abbrev before : Bytes
before = codes "failed to set release status to 'running': "

-- The status says how the deployment of the machines has ended.
abbrev pub Says : Option Fault → Status → Type 0
Says none status = status ≡ complete
Says (some f) status =
    (f.canceled ≡ true → status ≡ interrupted) × (f.canceled ≡ false → status ≡ failed f.text)

status_of-Says : (o : Option Fault) → Says o (status_of o)
status_of-Says none = refl
status_of-Says (some f) = ground arith

module _ {W : Type 0} (calls : ReleaseCalls W) (restart_only skip_dns : Bool) where
  -- No status or only the first one is sent, and there is an error; or the machines have been deployed, and
  -- one more status is sent, which says how that has ended. An error of it is the error of the whole.
  abbrev pub Reported : Option Fault × Release W → Type 0
  Reported (o, r) =
      ((r.statuses ≡ []) × (o ≢ none))
      ⊎ (((r.statuses ≡ running ∷ []) × (o ≢ none))
          ⊎ ((w : W) × (status : Status) × (r.statuses ≡ status ∷ running ∷ [])
              × Says (run_machines calls restart_only skip_dns w).0 status
              × ((run_machines calls restart_only skip_dns w).0 ≢ none
                  → o ≡ (run_machines calls restart_only skip_dns w).0)))

  and_then-Reported :
      (q : Option Fault × Release W) (next : Release W → Option Fault × Release W)
      → (q.1.statuses ≡ []) ⊎ (q.1.statuses ≡ running ∷ [])
      → ((r : Release W) → r.statuses ≡ q.1.statuses → Reported (next r))
      → Reported (and_then q next)
  and_then-Reported (some f, r) next (inl e) k = inl (e, λ n. cc n)
  and_then-Reported (some f, r) next (inr e) k = inr (inl (e, λ n. cc n))
  and_then-Reported (none, r) next h k = k r refl

  configure-statuses :
      (b : Bool) (r : Release W)
      → (configure_statics calls restart_only skip_dns b r).1.statuses ≡ r.statuses
  unfolding configure_statics
  configure-statuses false r = refl
  configure-statuses true r = ground arith

  push-statuses :
      (b : Bool) (r : Release W)
      → (push_statics calls restart_only skip_dns b r).1.statuses ≡ r.statuses
  push-statuses b r = ground arith

  check-statuses :
      (q : Option Fault × Release W)
      → (check calls restart_only skip_dns q).1.statuses ≡ q.1.statuses
  check-statuses (some f, r) = refl
  check-statuses (none, r) = ground arith

  finish-statuses :
      (b : Bool) (o : Option Fault) (r : Release W)
      → (finish_statics calls restart_only skip_dns b o r).1.statuses ≡ r.statuses
  finish-statuses b none r = ground arith
  finish-statuses b (some f) r = ground arith

  running-statuses : (q : Option Fault × Release W) → (wrapped before q).1.statuses ≡ q.1.statuses
  running-statuses (none, r) = refl
  running-statuses (some f, r) = refl

  report-Reported :
      (b : Bool) (r : Release W)
      → r.statuses ≡ running ∷ []
      → Reported (
          report calls restart_only skip_dns b
            (call calls restart_only skip_dns (run_machines calls restart_only skip_dns) r))
  report-Reported b r e = inr (
      inr (
        r.world,
        status_of d,
        check-statuses _ ∙ finish-statuses b d _ ∙ ap (λ l. status_of d ∷ l) e,
        status_of-Says d,
        λ bad. kept d bad _,
      ))
    where
      d : Option Fault
      d = (run_machines calls restart_only skip_dns r.world).0

      kept :
          (o : Option Fault)
          → o ≢ none
          → (s : Release W)
          → (check calls restart_only skip_dns (finish_statics calls restart_only skip_dns b o s)).0
            ≡ o
      kept none h s = absurd (h refl)
      kept (some f) h s = refl

  -- DeployMachinesApp sends no status of the release, or only "running", and returns an error; or
  -- it sends "running", deploys or restarts the machines, and then sends one more status:
  -- "complete" if that has gone well, "interrupted" if its error is that the context is canceled,
  -- and otherwise "failed" with the text of the error; an error of that is what it returns.
  pub deploy_app-Reported : (w : W) → Reported (deploy_app calls restart_only skip_dns w)
  unfolding deploy_app
  deploy_app-Reported w =
      and_then-Reported (configure_statics calls restart_only skip_dns b start) _
        (inl (configure-statuses b start))
        (λ r e.
          and_then-Reported (wrapped before (send calls restart_only skip_dns running r)) _
            (inr (running-statuses _ ∙ ap (λ l. running ∷ l) (e ∙ configure-statuses b start)))
            (λ s f.
              and_then-Reported (push_statics calls restart_only skip_dns b s) _
                (inr (push-statuses b s ∙ sent r e s f))
                (λ t g. report-Reported b t (g ∙ push-statuses b s ∙ sent r e s f))))
    where
      b : Bool
      b = (calls.statics_use_tigris w).0

      start : Release W
      start = record { world = (calls.statics_use_tigris w).1; statuses = [] }

      sent :
          (r : Release W)
          → r.statuses ≡ (configure_statics calls restart_only skip_dns b start).1.statuses
          → (s : Release W)
          → s.statuses ≡ (wrapped before (send calls restart_only skip_dns running r)).1.statuses
          → s.statuses ≡ running ∷ []
      sent r e s f = f ∙ running-statuses _ ∙ ap (λ l. running ∷ l) (e ∙ configure-statuses b start)
