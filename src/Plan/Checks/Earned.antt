-- ===== src/Plan/Checks/Earned.antt =====
-- A machine is updated well only if its checks have passed, and a check is passed only by its call.
use flyctl.Base.{
  ◌≢◌, ◌≡◌, ◌⊎◌, inl, inr, refl, Bool, true, false, not, ◌||◌, Option, none, some, if◌then◌else◌,
}
use flyctl.Plan.Checks.{
  Fault, CheckResult, Calls, Updated, nothing, machine, fault, beyond_recovery, after_check,
  unchanged, regular_checks, machine_checks, smoke_checks, after_wait, check_machine, if_updated,
  update_or_create_machine, update_machine_w_checks, pass_smoke_checks, pass_machine_checks,
  pass_regular_checks,
}

-- All three checks are marked as passed.
abbrev pub AllPassed : CheckResult → Type 0
AllPassed c =
    (c.smoke_checks_passed ≡ true)
    × (c.machine_checks_passed ≡ true)
    × (c.regular_checks_passed ≡ true)

-- To show something of a check and the rest after it, show it for a check that has passed before, for
-- one that fails, and for one that passes.
check-rule :
    {W : Type 0} (Q : Option Fault × CheckResult × W → Type 0) (on_fault : Fault → Fault)
    (passed : CheckResult → CheckResult) (rest : CheckResult → W → Option Fault × CheckResult × W)
    (made : Bool) (c : CheckResult) (w : W) (call : Option Fault × W)
    → (made ≡ true → Q (rest c w))
    → ((f : Fault) → call.0 ≢ none → Q (some (on_fault f), c, call.1))
    → (call.0 ≡ none → Q (rest (passed c) call.1))
    → Q (if made then rest c w else after_check on_fault passed rest c call)
check-rule Q on_fault passed rest true c w call old fails passes = old refl
check-rule Q on_fault passed rest false c w (some f, w') old fails passes = fails f (λ e. cc e)
check-rule Q on_fault passed rest false c w (none, w') old fails passes = passes refl

module _ {W M : Type 0} (calls : Calls W M) where
  -- The calls that are made for the machine `m`, one after the other, from one world to another, and the
  -- marks that they earn: a check is marked only by its own call, answered with no error.
  pub data Earns (m : M) (c' : CheckResult) (w' : W) : CheckResult → W → Type 0 where
    over : Earns m c' w' c' w'
    waits :
        (c : CheckResult) (w : W)
        → Earns m c' w' c (calls.wait_for_states m w).1
        → Earns m c' w' c w
    fails_smoke :
        (c : CheckResult) (w : W)
        → (calls.do_smoke_checks m w).0 ≢ none
        → Earns m c' w' c (calls.do_smoke_checks m w).1
        → Earns m c' w' c w
    earns_smoke :
        (c : CheckResult) (w : W)
        → (calls.do_smoke_checks m w).0 ≡ none
        → Earns m c' w' (pass_smoke_checks c) (calls.do_smoke_checks m w).1
        → Earns m c' w' c w
    fails_machine :
        (c : CheckResult) (w : W)
        → (calls.run_test_machines m w).0 ≢ none
        → Earns m c' w' c (calls.run_test_machines m w).1
        → Earns m c' w' c w
    earns_machine :
        (c : CheckResult) (w : W)
        → (calls.run_test_machines m w).0 ≡ none
        → Earns m c' w' (pass_machine_checks c) (calls.run_test_machines m w).1
        → Earns m c' w' c w
    fails_regular :
        (c : CheckResult) (w : W)
        → (calls.wait_for_healthchecks m w).0 ≢ none
        → Earns m c' w' c (calls.wait_for_healthchecks m w).1
        → Earns m c' w' c w
    earns_regular :
        (c : CheckResult) (w : W)
        → (calls.wait_for_healthchecks m w).0 ≡ none
        → Earns m c' w' (pass_regular_checks c) (calls.wait_for_healthchecks m w).1
        → Earns m c' w' c w

  abbrev EarnsOf : M → CheckResult → W → Option Fault × CheckResult × W → Type 0
  EarnsOf m c w r = Earns m r.1 r.2 c w

  -- What the checks of an update are, after the machine has been updated, created or destroyed.
  abbrev pub EarnsAfter : Updated M × W → CheckResult → Option Fault × CheckResult × W → Type 0
  EarnsAfter (nothing, w) c r = (r.1 ≡ c) × (r.2 ≡ w)
  EarnsAfter (fault f, w) c r = (r.1 ≡ c) × (r.2 ≡ w)
  EarnsAfter (machine m, w) c r = Earns m r.1 r.2 c w

  -- The checks of a machine end well only with all of them passed.
  regular_checks-AllPassed :
      (m : M) (c : CheckResult) (w : W)
      → c.smoke_checks_passed ≡ true
      → c.machine_checks_passed ≡ true
      → (regular_checks calls m c w).0 ≡ none
      → AllPassed (regular_checks calls m c w).1
  unfolding regular_checks
  regular_checks-AllPassed m c w s t =
      check-rule (λ r. r.0 ≡ none → AllPassed r.1) beyond_recovery pass_regular_checks
        (λ c' w'. (none, c', w')) c.regular_checks_passed c w (calls.wait_for_healthchecks m w)
        (λ r e. (s, t, r)) (λ f bad e. absurd (cc e)) (λ p e. (s, t, refl))

  machine_checks-AllPassed :
      (m : M) (c : CheckResult) (w : W)
      → c.smoke_checks_passed ≡ true
      → (machine_checks calls m c w).0 ≡ none
      → AllPassed (machine_checks calls m c w).1
  unfolding machine_checks
  machine_checks-AllPassed m c w s =
      check-rule (λ r. r.0 ≡ none → AllPassed r.1) beyond_recovery pass_machine_checks
        (regular_checks calls m) c.machine_checks_passed c w (calls.run_test_machines m w)
        (λ t e. regular_checks-AllPassed m c w s t e) (λ f bad e. absurd (cc e))
        (λ p e. regular_checks-AllPassed m _ _ s refl e)

  smoke_checks-AllPassed :
      (m : M) (c : CheckResult) (w : W)
      → (smoke_checks calls m c w).0 ≡ none
      → AllPassed (smoke_checks calls m c w).1
  unfolding smoke_checks
  smoke_checks-AllPassed m c w =
      check-rule (λ r. r.0 ≡ none → AllPassed r.1) beyond_recovery pass_smoke_checks
        (machine_checks calls m) c.smoke_checks_passed c w (calls.do_smoke_checks m w)
        (λ s e. machine_checks-AllPassed m c w s e) (λ f bad e. absurd (cc e))
        (λ p e. machine_checks-AllPassed m _ _ refl e)

  check_machine-AllPassed :
      (m : M) (c : CheckResult) (w : W)
      → (check_machine calls m false c w).0 ≡ none
      → AllPassed (check_machine calls m false c w).1
  unfolding check_machine
  check_machine-AllPassed m c w =
      by_test (not c.machine_checks_passed || not c.smoke_checks_passed) (calls.wait_for_states m w)
    where
      by_test :
          (b : Bool) (r : Option Fault × W)
          → (if b
              then after_check (λ f. f) unchanged (after_wait calls m false) c r
              else after_wait calls m false c w).0
            ≡ none
          → AllPassed
              (if b
                then after_check (λ f. f) unchanged (after_wait calls m false) c r
                else after_wait calls m false c w).1
      by_test true (some f, w') e = absurd (cc e)
      by_test true (none, w') e = smoke_checks-AllPassed m c w' e
      by_test false r e = smoke_checks-AllPassed m c w e

  -- If updateMachineWChecks of a machine that is to be launched ends well, then there is no machine
  -- to check on, or all three checks are marked as passed.
  pub update-AllPassed :
      (old new : Option M) (c : CheckResult) (w : W)
      → (update_machine_w_checks calls old new false c w).0 ≡ none
      → ((update_or_create_machine calls old new false w).0 ≡ nothing)
        ⊎ AllPassed (update_machine_w_checks calls old new false c w).1
  unfolding update_machine_w_checks
  update-AllPassed old new c w e = by_update (update_or_create_machine calls old new false w) e
    where
      by_update :
          (u : Updated M × W)
          → (if_updated calls false c u).0 ≡ none
          → (u.0 ≡ nothing) ⊎ AllPassed (if_updated calls false c u).1
      by_update (nothing, w') e = inl refl
      by_update (fault f, w') e = absurd (cc e)
      by_update (machine m, w') e = inr (check_machine-AllPassed m c w' e)
