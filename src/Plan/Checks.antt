-- ===== src/Plan/Checks.antt =====
-- updateMachineWChecks and updateOrCreateMachine: the update of a machine and the checks after it.
pub mod Earned
pub mod Reached
use flyctl.Base.{
  String, Bool, true, false, not, ◌||◌, ◌⊎◌, inl, inr, Option, none, some, List, [], ◌∷◌,
  if◌then◌else◌,
}
use flyctl.Base.Bytes.{Bytes, codes}
use flyctl.Bluegreen.Errors.{contains}

-- An error: whether `errors.As` finds an unrecoverableError and `errors.Is` finds context.Canceled in
-- it, and its text.
pub record Fault : Type 0 where
  pub unrecoverable : Bool
  pub canceled : Bool
  pub text : Bytes

-- &unrecoverableError{err: err}
abbrev pub beyond_recovery : Fault → Fault
beyond_recovery f = record f { unrecoverable = true }

-- healthcheckResult
pub record CheckResult : Type 0 where
  pub regular_checks_passed : Bool
  pub smoke_checks_passed : Bool
  pub machine_checks_passed : Bool

-- What is called of the API and of the rest of the package, for machines of any type `M`.
pub record Calls (W M : Type 0) : Type 0 where
  pub is_replacing : M → Bool
  pub same_config : M → M → Bool
  pub destroy : M → W → Option Fault × W
  pub update_machine : M → M → Bool → Bool → W → (Fault ⊎ M) × W
  pub launch : M → Bool → W → (Fault ⊎ M) × W
  pub acquire_lease : M → W → Option Fault × W
  pub wait_for_states : M → W → Option Fault × W
  pub do_smoke_checks : M → W → Option Fault × W
  pub run_test_machines : M → W → Option Fault × W
  pub wait_for_healthchecks : M → W → Option Fault × W

-- What updateOrCreateMachine returns: a machine to check on, if any.
pub data Updated (M : Type 0) : Type 0 where
  nothing : Updated M
  machine : M → Updated M
  fault : Fault → Updated M

-- The error of acquireMachineLease.
abbrev pub lease_fault : Option Fault → Option Fault
lease_fault none = none
lease_fault (some f) =
    if contains (codes "failed to get lease") f.text then some (beyond_recovery f) else some f

-- A check that is not made if it has passed, and the rest if it passes.
abbrev pub after_check :
    {W : Type 0}
    → (Fault → Fault)
    → (CheckResult → CheckResult)
    → (CheckResult → W → Option Fault × CheckResult × W)
    → CheckResult
    → Option Fault × W
    → Option Fault × CheckResult × W
after_check on_fault passed rest c (some f, w) = (some (on_fault f), c, w)
after_check on_fault passed rest c (none, w) = rest (passed c) w

abbrev pub unchanged : CheckResult → CheckResult
unchanged c = c

abbrev pub pass_smoke_checks : CheckResult → CheckResult
pass_smoke_checks c = record c { smoke_checks_passed = true }

abbrev pub pass_machine_checks : CheckResult → CheckResult
pass_machine_checks c = record c { machine_checks_passed = true }

abbrev pub pass_regular_checks : CheckResult → CheckResult
pass_regular_checks c = record c { regular_checks_passed = true }

module _ {W M : Type 0} (calls : Calls W M) where
  unfoldable pub acquire_machine_lease : M → W → Option Fault × W
  acquire_machine_lease m w = let (o, w') = calls.acquire_lease m w in (lease_fault o, w')

  unfoldable pub update_machine_config : M → M → Bool → W → (Fault ⊎ M) × W
  update_machine_config old new skip_launch w =
      let updated = calls.update_machine old new (calls.is_replacing new) skip_launch w in
      if calls.same_config old new then (inr old, w) else updated

  abbrev pub checked_on : Fault ⊎ M → Updated M
  checked_on (inl f) = fault f
  checked_on (inr m) = machine m

  abbrev pub if_leased : M → Option Fault → Updated M
  if_leased m none = machine m
  if_leased m (some f) = fault f

  abbrev pub lease_created : Fault ⊎ M → W → Updated M × W
  lease_created (inl f) w = (fault f, w)
  lease_created (inr m) w = let (o, w') = acquire_machine_lease m w in (if_leased m o, w')

  abbrev pub if_destroyed : Option Fault → Updated M
  if_destroyed none = nothing
  if_destroyed (some f) = fault f

  unfoldable pub update_or_create_machine : Option M → Option M → Bool → W → Updated M × W
  update_or_create_machine (some old) none skip_launch w =
      let (o, w') = calls.destroy old w in (if_destroyed o, w')
  update_or_create_machine (some old) (some new) skip_launch w =
      let (r, w') = update_machine_config old new skip_launch w in (checked_on r, w')
  update_or_create_machine none (some new) skip_launch w =
      let (r, w') = calls.launch new skip_launch w in lease_created r w'
  update_or_create_machine none none skip_launch w = (nothing, w)

  unfoldable pub regular_checks : M → CheckResult → W → Option Fault × CheckResult × W
  regular_checks m c w =
      if c.regular_checks_passed
      then (none, c, w)
      else after_check beyond_recovery pass_regular_checks (λ c' w'. (none, c', w')) c
          (calls.wait_for_healthchecks m w)

  unfoldable pub machine_checks : M → CheckResult → W → Option Fault × CheckResult × W
  machine_checks m c w =
      if c.machine_checks_passed
      then regular_checks m c w
      else after_check beyond_recovery pass_machine_checks (regular_checks m) c
          (calls.run_test_machines m w)

  unfoldable pub smoke_checks : M → CheckResult → W → Option Fault × CheckResult × W
  smoke_checks m c w =
      if c.smoke_checks_passed
      then machine_checks m c w
      else after_check beyond_recovery pass_smoke_checks (machine_checks m) c
          (calls.do_smoke_checks m w)

  abbrev pub after_wait : M → Bool → CheckResult → W → Option Fault × CheckResult × W
  after_wait m skip_launch c w = if skip_launch then (none, c, w) else smoke_checks m c w

  unfoldable pub check_machine : M → Bool → CheckResult → W → Option Fault × CheckResult × W
  check_machine m skip_launch c w =
      if not c.machine_checks_passed || not c.smoke_checks_passed
      then after_check (λ f. f) unchanged (after_wait m skip_launch) c (calls.wait_for_states m w)
      else after_wait m skip_launch c w

  abbrev pub if_updated : Bool → CheckResult → Updated M × W → Option Fault × CheckResult × W
  if_updated skip_launch c (nothing, w) = (none, c, w)
  if_updated skip_launch c (fault f, w) = (some f, c, w)
  if_updated skip_launch c (machine m, w) = check_machine m skip_launch c w

  unfoldable pub update_machine_w_checks :
      Option M → Option M → Bool → CheckResult → W → Option Fault × CheckResult × W
  update_machine_w_checks old new skip_launch c w =
      if_updated skip_launch c (update_or_create_machine old new skip_launch w)

-- waitForMachineState, over what its waits end with, in their order: the state that was reached, if
-- any, and the error.
unfoldable pub wait_for_machine_state :
    List (String × Option Fault) → Option String × Option Fault → Option String × Option Fault
wait_for_machine_state [] result = result
wait_for_machine_state ((state, e) ∷ ends) (some reached, wait_err) =
    wait_for_machine_state ends (some reached, wait_err)
wait_for_machine_state ((state, none) ∷ ends) (none, wait_err) =
    wait_for_machine_state ends (some state, wait_err)
wait_for_machine_state ((state, some f) ∷ ends) (none, wait_err) =
    wait_for_machine_state ends (none, some f)
