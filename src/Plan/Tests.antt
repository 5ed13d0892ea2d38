-- ===== src/Plan/Tests.antt =====
-- Runs of the plan, and the theorems at these inputs.
use flyctl.Base.{All, ◌≡◌, ◌⊎◌, refl, ℕ, false, Option, none, some, List, [], ◌∷◌}
use flyctl.Base.Bytes.{has_prefix}
use flyctl.Plan.Checks.{
  Fault, nothing, CheckResult, update_machine_w_checks, update_or_create_machine,
  update_machine_config, check_machine, smoke_checks, machine_checks, regular_checks,
}
use flyctl.Plan.Checks.Earned.{AllPassed, update-AllPassed}
use flyctl.Plan.Leases.{
  Machine, Pairing, acquire_loop, acquire_again, acquire_leases, acquire_pairing, for_all,
  release_leases, with_leases, leases_failed,
}
use flyctl.Plan.Leases.Held.{Names, IsSecured, acquire_loop-IsSecured}
use flyctl.Plan.Leases.Stuck.{AllKept, with_leases-AllKept}
use flyctl.Plan.Leases.Freed.{AllFreed, release_leases-AllFreed}
use flyctl.Plan.Recovery.{
  Ending, updated, fails, attempt, push_forward, machine_tuples, by_id, updates, creations,
  carry_nonces, find_machine,
}
use flyctl.Plan.Samples.{
  refusal, calls, unchecked, machine_of, pairs, lease_calls, busy, update_calls,
}

-- The machine "m1" is updated to "m2".
abbrev run : Option Fault × CheckResult × ℕ
run = update_machine_w_checks calls (some "m1") (some "m2") false unchecked 0

run_ends_well : run.0 ≡ none
unfolding update_machine_w_checks update_or_create_machine update_machine_config check_machine
    smoke_checks machine_checks regular_checks
run_ends_well = refl

update-AllPassed_example :
    ((update_or_create_machine calls (some "m1") (some "m2") false 0).0 ≡ nothing) ⊎ AllPassed run.1
update-AllPassed_example = update-AllPassed calls (some "m1") (some "m2") unchecked 0 run_ends_well

names : Names lease_calls
names id w nonce e x = absurd (cc (e, x))

all_leased : (acquire_loop lease_calls 3 pairs 0).0 ≡ none
unfolding acquire_again acquire_leases for_all acquire_pairing
all_leased = refl

acquire_loop-IsSecured_example : All IsSecured (acquire_loop lease_calls 3 pairs 0).1
acquire_loop-IsSecured_example = acquire_loop-IsSecured lease_calls names 3 pairs 0 all_leased

one_busy : (acquire_loop busy 3 pairs 0).0 ≡ some refusal
unfolding acquire_again acquire_leases for_all acquire_pairing has_prefix
one_busy = refl

abbrev no_update : List Pairing → ℕ → Ending × List Pairing × ℕ
no_update ps w = (updated, ps, w)

with_leases-AllKept_example :
    (with_leases busy fails no_update 3 false pairs 0 ≡ (
      fails (leases_failed refusal),
      (acquire_loop busy 3 pairs 0).1,
      (acquire_loop busy 3 pairs 0).2,
    ))
    × AllKept (acquire_leases busy pairs 0).1 (with_leases busy fails no_update 3 false pairs 0).1
with_leases-AllKept_example = with_leases-AllKept busy fails no_update 3 pairs 0 refusal one_busy

release_leases-AllFreed_example :
    AllFreed lease_calls
      (acquire_loop lease_calls 3 pairs 0).1
      2
      (release_leases lease_calls (acquire_loop lease_calls 3 pairs 0).1 2).0
      (release_leases lease_calls (acquire_loop lease_calls 3 pairs 0).1 2).1
release_leases-AllFreed_example =
    release_leases-AllFreed lease_calls (acquire_loop lease_calls 3 pairs 0).1 2

abbrev fleet : List Machine
fleet = machine_of "m1" ∷ []

pushed : push_forward update_calls fleet fleet 4 refusal 0 ≡ (updated, 6)
unfolding push_forward attempt machine_tuples by_id updates creations carry_nonces find_machine
pushed = refl

-- "m1" is to be updated and "m3" to be created; nothing is said of "m2".
abbrev wanted : List Machine
wanted = machine_of "m3" ∷ machine_of "m1" ∷ []

abbrev present : List Machine
present = machine_of "m1" ∷ machine_of "m2" ∷ []
