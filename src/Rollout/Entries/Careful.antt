-- ===== src/Rollout/Entries/Careful.antt =====
-- When a machine is destroyed by its update, and what has been checked when an update ends well.
use flyctl.Base.{
  if_holds, arith, ◌≡◌, refl, sym, ◌∙◌, ap, subst, ℕ, ◌<◌, Bool, true, false, Bool-cases, ◌⊎◌, inl,
  inr, Option, none, some, List, ◌∷◌, if◌then◌else◌, ltb,
}
use flyctl.Plan.Checks.{Fault}
use flyctl.Rollout.Entries.{
  Machine, Entry, Act, updates, destroys, waits_for_start, runs_tests, smoke_checks,
  waits_for_health, checks_address, Call, Site, EntryCalls, fault_of, make, after_launch,
  after_destroy, update_by_replace, with_update, update_in_place, has_no_capacity, after_in_place,
  update_machine, and_then, unless_skipped, then_warn, start_checks, wait_for_machine, wait_after,
  update_entry,
}

-- A call that was answered with no error.
abbrev pub well : Act → Machine → Call
well act m = record { act = act; id = m.id; fault = none }

module _ {W : Type 0} (calls : EntryCalls W) (wait_seconds : ℕ) where
  -- A machine that needs no replacement is not destroyed, if it has a volume or if its update in place does
  -- not fail for lack of capacity of its host: the update in place is the one call that is made for it, and
  -- its error is what updateMachine returns.
  pub update_machine-once :
      (e : Entry) (s : Site W)
      → e.launch_input.requires_replacement ≡ false
      → (0 < e.machine.mounts)
        ⊎ ((f : Fault)
            → fault_of (calls.update e.machine e.launch_input s.world).0 ≡ some f
            → has_no_capacity calls wait_seconds f ≡ false)
      → ((update_machine calls wait_seconds e s).0
          ≡ fault_of (calls.update e.machine e.launch_input s.world).0)
        × ((update_machine calls wait_seconds e s).2.log
            ≡ (record {
              act = updates;
              id = e.machine.id;
              fault = fault_of (calls.update e.machine e.launch_input s.world).0;
            })
              ∷ s.log)
  unfolding update_machine update_in_place
  update_machine-once e s in_place h =
      subst
        (λ b. Once (calls.update e.machine e.launch_input s.world) (
          if b
          then update_by_replace calls wait_seconds e s
          else after_in_place calls wait_seconds (update_in_place calls wait_seconds e s)))
        (sym in_place) (by_answer (calls.update e.machine e.launch_input s.world) h)
    where
      answered : (Fault ⊎ Machine) × W → (Fault ⊎ Machine) × Site W
      answered r = (
        r.0,
        record {
          world = r.1;
          log = (record { act = updates; id = e.machine.id; fault = fault_of r.0 }) ∷ s.log;
        },
      )

      Once : (Fault ⊎ Machine) × W → Option Fault × Entry × Site W → Type 0
      Once r u =
          (u.0 ≡ fault_of r.0)
          × (u.2.log ≡ (record { act = updates; id = e.machine.id; fault = fault_of r.0 }) ∷ s.log)

      by_answer :
          (r : (Fault ⊎ Machine) × W)
          → (0 < e.machine.mounts)
            ⊎ ((f : Fault) → fault_of r.0 ≡ some f → has_no_capacity calls wait_seconds f ≡ false)
          → Once r
              (after_in_place calls wait_seconds (with_update calls wait_seconds e (answered r)))
      by_answer (inr m, w) k = (refl, refl)
      by_answer (inl f, w) (inl some_mounts) =
          let mounted : ltb 0 e.machine.mounts ≡ true = ground arith in rw mounted (refl, refl)
      by_answer (inl f, w) (inr has_room) = elim (Bool-cases (ltb 0 e.machine.mounts)) [
        | inl mounted ↦ rw mounted (refl, refl)
        | inr bare ↦ rw (bare, has_room f refl) (refl, refl)
      ]

  -- A chain of calls that ends well.
  and_then-well :
      (Q : Option Fault × Site W → Type 0) (r : Option Fault × Site W)
      (next : Site W → Option Fault × Site W)
      → (and_then calls wait_seconds r next).0 ≡ none
      → (r.0 ≡ none → (next r.1).0 ≡ none → Q (next r.1))
      → Q (and_then calls wait_seconds r next)
  and_then-well Q (none, s) next h k = k refl h
  and_then-well Q (some f, s) next h k = absurd (cc h)

  make-well :
      (act : Act) (call : Machine → W → Option Fault × W) (m : Machine) (s : Site W)
      → (make calls wait_seconds act call m s).0 ≡ none
      → (make calls wait_seconds act call m s).1.log ≡ well act m ∷ s.log
  make-well act call m s h = ap (λ o. (record { act = act; id = m.id; fault = o }) ∷ s.log) h

  -- Two calls that end well.
  two-well :
      (act more : Act) (call next : Machine → W → Option Fault × W) (m : Machine) (s : Site W)
      → (and_then calls wait_seconds
          (make calls wait_seconds act call m s)
          (make calls wait_seconds more next m)).0
        ≡ none
      → (and_then calls wait_seconds
          (make calls wait_seconds act call m s)
          (make calls wait_seconds more next m)).1.log
        ≡ well more m ∷ well act m ∷ s.log
  two-well act more call next m s h =
      and_then-well (λ r. r.1.log ≡ well more m ∷ well act m ∷ s.log)
        (make calls wait_seconds act call m s) (make calls wait_seconds more next m) h
        (λ first second.
          make-well more next m _ second ∙ ap (λ l. well more m ∷ l) (make-well act call m s first))

  -- The same with the check of the address after the second call.
  warned-well :
      (act more : Act) (call next : Machine → W → Option Fault × W) (m : Machine) (s : Site W)
      → (and_then calls wait_seconds
          (make calls wait_seconds act call m s)
          (λ u. then_warn calls wait_seconds false m (make calls wait_seconds more next m u))).0
        ≡ none
      → (and_then calls wait_seconds
          (make calls wait_seconds act call m s)
          (λ u. then_warn calls wait_seconds false m (make calls wait_seconds more next m u))).1.log
        ≡ well checks_address m ∷ well more m ∷ well act m ∷ s.log
  warned-well act more call next m s h =
      and_then-well (λ r. r.1.log ≡ well checks_address m ∷ well more m ∷ well act m ∷ s.log)
        (make calls wait_seconds act call m s)
        (λ u. then_warn calls wait_seconds false m (make calls wait_seconds more next m u)) h
        (λ first second.
          ap (λ l. well checks_address m ∷ l)
            (make-well more next m _ second
              ∙ ap (λ l. well more m ∷ l) (make-well act call m s first)))

  -- What is logged for a machine that is checked.
  abbrev pub checks : Bool → Machine → List Call → List Call
  checks true m log = well checks_address m ∷ well smoke_checks m ∷ log
  checks false m log =
      well checks_address m
      ∷ well waits_for_health m
      ∷ well smoke_checks m
      ∷ well runs_tests m
      ∷ well waits_for_start m
      ∷ log

  checks_of : (skip : Bool) (e : Entry) (s : Site W) → Option Fault × Site W
  checks_of skip e s =
      and_then calls wait_seconds
        (unless_skipped calls wait_seconds skip (start_checks calls wait_seconds skip e.machine) s)
        (λ t.
          and_then calls wait_seconds
            (make calls wait_seconds smoke_checks calls.do_smoke_checks e.machine t)
            (λ u. then_warn calls wait_seconds skip e.machine (
              unless_skipped calls wait_seconds skip
                (make calls wait_seconds waits_for_health calls.wait_for_healthchecks e.machine)
                u)))

  checks_of-checks :
      (skip : Bool) (e : Entry) (s : Site W)
      → (checks_of skip e s).0 ≡ none
      → (checks_of skip e s).1.log ≡ checks skip e.machine s.log
  unfolding checks_of
  checks_of-checks true e s h =
      and_then-well (λ r. r.1.log ≡ checks true e.machine s.log)
        (make calls wait_seconds smoke_checks calls.do_smoke_checks e.machine s)
        (λ u. then_warn calls wait_seconds true e.machine (none, u)) h
        (λ first second.
          ap (λ l. well checks_address e.machine ∷ l)
            (make-well smoke_checks calls.do_smoke_checks e.machine s first))
  checks_of-checks false e s h =
      and_then-well (λ r. r.1.log ≡ checks false e.machine s.log)
        (start_checks calls wait_seconds false e.machine s)
        (λ t.
          and_then calls wait_seconds
            (make calls wait_seconds smoke_checks calls.do_smoke_checks e.machine t)
            (λ u.
              then_warn calls wait_seconds false e.machine
                (make calls wait_seconds waits_for_health calls.wait_for_healthchecks e.machine u)))
        h
        (λ first second.
          warned-well smoke_checks waits_for_health calls.do_smoke_checks
            calls.wait_for_healthchecks e.machine _ second
          ∙ ap
              (λ l.
                well checks_address e.machine
                ∷ well waits_for_health e.machine
                ∷ well smoke_checks e.machine
                ∷ l)
              (two-well waits_for_start runs_tests calls.wait_for_start calls.run_test_machines
                e.machine s first))

  wait_for_machine-checks :
      (skip : Bool) (e : Entry) (s : Site W)
      → e.launch_input.skip_launch ≡ false
      → (wait_for_machine calls wait_seconds skip e s).0 ≡ none
      → (wait_for_machine calls wait_seconds skip e s).1.log ≡ checks skip e.machine s.log
  unfolding wait_for_machine checks_of
  wait_for_machine-checks skip e s launched h =
      let same : wait_for_machine calls wait_seconds skip e s ≡ checks_of skip e s =
        ap (λ b. if b then (none, s) else checks_of skip e s) launched in
      subst (λ r. r.1.log ≡ checks skip e.machine s.log) (sym same)
        (checks_of-checks skip e s (sym (ap (λ r. r.0) same) ∙ h))

  -- An update leaves alone whether the machine is launched.
  abbrev KeepsLaunch : Entry → Option Fault × Entry × Site W → Type 0
  KeepsLaunch e r = r.1.launch_input.skip_launch ≡ e.launch_input.skip_launch

  update_by_replace-KeepsLaunch :
      (e : Entry) (s : Site W) → KeepsLaunch e (update_by_replace calls wait_seconds e s)
  unfolding update_by_replace
  update_by_replace-KeepsLaunch e s = by_destroy (calls.destroy e.machine s.world).0
    where
      after : Option Fault → Option Fault × Entry × Site W
      after o =
          after_destroy calls wait_seconds e
            (o, (make calls wait_seconds destroys calls.destroy e.machine s).1)

      by_launch :
          (r : Fault ⊎ Machine) (e' : Entry) (u : Site W)
          → e'.launch_input.skip_launch ≡ e.launch_input.skip_launch
          → KeepsLaunch e (after_launch calls wait_seconds e' (r, u))
      by_launch (inl f) e' u k = k
      by_launch (inr m) e' u k = k

      by_destroy : (o : Option Fault) → KeepsLaunch e (after o)
      by_destroy (some f) = refl
      by_destroy none = by_launch _ _ _ refl

  update_machine-KeepsLaunch :
      (e : Entry) (s : Site W) → KeepsLaunch e (update_machine calls wait_seconds e s)
  unfolding update_machine update_in_place
  update_machine-KeepsLaunch e s =
      if_holds (KeepsLaunch e) e.launch_input.requires_replacement
        (update_by_replace calls wait_seconds e s)
        (after_in_place calls wait_seconds (update_in_place calls wait_seconds e s))
        (update_by_replace-KeepsLaunch e s)
        (by_answer (calls.update e.machine e.launch_input s.world).0 _)
    where
      by_answer :
          (r : Fault ⊎ Machine) (t : Site W)
          → KeepsLaunch e
              (after_in_place calls wait_seconds (with_update calls wait_seconds e (r, t)))
      by_answer (inr m) t = refl
      by_answer (inl f) t =
          if_holds (KeepsLaunch e) (ltb 0 e.machine.mounts) (some f, e, t)
            (if has_no_capacity calls wait_seconds f
              then update_by_replace calls wait_seconds e t
              else (some f, e, t))
            refl
            (if_holds (KeepsLaunch e) (has_no_capacity calls wait_seconds f)
              (update_by_replace calls wait_seconds e t) (some f, e, t)
              (update_by_replace-KeepsLaunch e t) refl)

  -- If the update of an entry whose machine is to be launched ends well, then after the update, on the
  -- machine that this has left, first the wait for its start and its test machines, then the smoke checks,
  -- and then the wait for its health checks have gone well, and at last its listen address has been
  -- looked at, with no other call between these; if health checks are skipped, the wait for the start, the
  -- test machines and the wait for the health checks are left out.
  pub update_entry-checks :
      (skip : Bool) (e : Entry) (s : Site W)
      → e.launch_input.skip_launch ≡ false
      → (update_entry calls wait_seconds skip e s).0 ≡ none
      → ((update_machine calls wait_seconds e s).0 ≡ none)
        × ((update_entry calls wait_seconds skip e s).1.log
            ≡ checks skip
                (update_machine calls wait_seconds e s).1.machine
                (update_machine calls wait_seconds e s).2.log)
  unfolding update_entry
  update_entry-checks skip e s launched h =
      by_update (update_machine calls wait_seconds e s) (update_machine-KeepsLaunch e s ∙ launched)
        h
    where
      by_update :
          (r : Option Fault × Entry × Site W)
          → r.1.launch_input.skip_launch ≡ false
          → (wait_after calls wait_seconds skip r).0 ≡ none
          → (r.0 ≡ none)
            × ((wait_after calls wait_seconds skip r).1.log ≡ checks skip r.1.machine r.2.log)
      by_update (some f, e', t) k well_ended = absurd (cc well_ended)
      by_update (none, e', t) k well_ended = (refl, wait_for_machine-checks skip e' t k well_ended)
