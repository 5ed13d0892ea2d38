-- ===== src/Machines/Samples.antt =====
-- An API in which every call succeeds, and one that cannot read a machine again.
use flyctl.Base.{ℕ, suc, String, true, none, some, List, [], ◌∷◌}
use flyctl.Bluegreen.Types.{host_ok}
use flyctl.Bluegreen.Errors.{Error, canceled}
use flyctl.Machines.Api.{Machine, Lease, value, refused, Flaps}
use flyctl.Machines.Leasable.{Leasable, new_leasable_machine}
use flyctl.Machines.Sets.{MachineSet, Acquired, holds}

abbrev pub machine_of : String → Machine
machine_of id = record { id = id; instance_id = "v1"; lease_nonce = ""; host_status = host_ok }

abbrev pub lease : Lease
lease = record { success = true; texts = []; data_of = some ("nonce", "v2") }

-- The world counts the calls.
abbrev pub flaps : Flaps ℕ (Unit {0})
flaps = record {
  update = λ id input nonce w. (value (machine_of id), suc w);
  start = λ id w. (value tt, suc w);
  stop = λ id signal nonce w. (value tt, suc w);
  destroy = λ id kill nonce w. (value tt, suc w);
  cordon = λ id nonce w. (value tt, suc w);
  acquire_lease = λ id w. (value lease, suc w);
  refresh_lease = λ id nonce w. (value lease, suc w);
  release_lease = λ id nonce w. (value tt, suc w);
  get = λ id w. (value (machine_of id), suc w);
  get_metadata = λ id w. (value [], suc w);
  set_metadata = λ id key value_of w. (value tt, suc w);
}

abbrev pub lost : Error
lost = canceled ∷ []

abbrev pub unreadable : Flaps ℕ (Unit {0})
unreadable = record flaps { get = λ id w. (refused lost, suc w) }

abbrev pub leasable : Leasable ℕ
leasable = new_leasable_machine flaps 0 (machine_of "m1")

abbrev pub gone : Leasable ℕ
gone = record leasable { destroyed = true }

abbrev pub set : MachineSet ℕ
set = record { world = 0; machines = leasable ∷ leasable ∷ [] }

abbrev pub pool : List Acquired → List Machine
pool [] = []
pool (holds m none ∷ as') = m ∷ pool as'
pool (_ ∷ as') = pool as'
