-- ===== src/Plan/Samples.antt =====
-- A deployment in which each call succeeds, and an API that refuses some leases. The world counts the
-- calls.
use flyctl.Base.{
  ℕ, suc, String, false, inl, inr, none, some, List, [], ◌∷◌, str_eq, if◌then◌else◌, leb,
}
use flyctl.Plan.Checks.{Fault, CheckResult, Calls}
use flyctl.Plan.Leases.{Machine, Pairing, LeaseCalls}
use flyctl.Plan.Recovery.{UpdateCalls}

abbrev pub refusal : Fault
refusal = record { unrecoverable = false; canceled = false; text = [] }

abbrev pub calls : Calls ℕ String
calls = record {
  is_replacing = λ m. false;
  same_config = λ old new. str_eq old new;
  destroy = λ m w. (none, suc w);
  update_machine = λ old new replace skip w. (inr new, suc w);
  launch = λ m skip w. (inr m, suc w);
  acquire_lease = λ m w. (none, suc w);
  wait_for_states = λ m w. (none, suc w);
  do_smoke_checks = λ m w. (none, suc w);
  run_test_machines = λ m w. (none, suc w);
  wait_for_healthchecks = λ m w. (none, suc w);
}

abbrev pub unchecked : CheckResult
unchecked = record {
  regular_checks_passed = false;
  smoke_checks_passed = false;
  machine_checks_passed = false;
}

abbrev pub machine_of : String → Machine
machine_of id = record { id = id; lease_nonce = ""; host_unreachable = false }

abbrev pub pair_of : String → Pairing
pair_of id = record { old_machine = some (machine_of id); new_machine = some (machine_of id) }

abbrev pub pairs : List Pairing
pairs = pair_of "m1" ∷ pair_of "m2" ∷ []

abbrev pub lease_calls : LeaseCalls ℕ
lease_calls = record {
  acquire_lease = λ id w. (inr "nonce", suc w);
  release_lease = λ id nonce w. (none, suc w);
}

-- The lease of the machine "m2" is not to be had.
abbrev pub busy : LeaseCalls ℕ
busy = record lease_calls {
  acquire_lease = λ id w. (if str_eq id "m2" then inl refusal else inr "nonce", suc w);
}

-- The second attempt to update the machines succeeds.
abbrev pub update_calls : UpdateCalls ℕ
update_calls = record {
  lease_calls = lease_calls;
  list_machines = λ w. (inr (machine_of "m1" ∷ []), suc w);
  set_volumes = λ w. (none, suc w);
  update_groups = λ ps w. (if leb 5 w then none else some refusal, ps, suc w);
}
