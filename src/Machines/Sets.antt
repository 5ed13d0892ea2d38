-- ===== src/Machines/Sets.antt =====
-- Sets of machines: internal/machine/machine_set.go, and the leases of internal/machine/lease.go.
-- The machines share one world: it goes through them in the order of the list.
pub mod Clears
use flyctl.Base.{
  String, Bool, true, false, not, ◌&&◌, ◌||◌, Option, none, some, List, [], ◌∷◌, ◌++◌, str_eq,
  if◌then◌else◌, ◌==◌,
}
use flyctl.Bluegreen.Types.{HostStatus, host_ok}
use flyctl.Bluegreen.Errors.{Error, is, canceled, deadline, flaps_status}
use flyctl.Machines.Api.{
  Machine, Failure, missing_data, lease_errors, state_errors, api, Answer, done, failed, Lease,
  Reply, value, refused, Flaps,
}
use flyctl.Machines.Leasable.{
  Leasable, acquire_lease, release_the_lease, start_background_lease_refresh,
}
use flyctl.Machines.Waits.{has_status}

pub record MachineSet (W : Type 0) : Type 0 where
  pub world : W
  pub machines : List (Leasable W)

abbrev pub first_failure : List (Answer (Unit {0})) → Option Failure
first_failure [] = none
first_failure (done a ∷ answers) = first_failure answers
first_failure (failed f ∷ answers) = some f

module _ {W : Type 0} where
  -- A method of each machine of a list, in a shared world.
  unfoldable pub each :
      (Leasable W → Answer (Unit {0}) × Leasable W)
      → W
      → List (Leasable W)
      → List (Answer (Unit {0})) × List (Leasable W) × W
  each method w [] = ([], [], w)
  each method w (lm ∷ lms) =
      let here = method (record lm { world = w }) in
      let rest = each method here.1.world lms in (here.0 ∷ rest.0, here.1 ∷ rest.1, rest.2)

module _ {W I : Type 0} (flaps : Flaps W I) where
  -- A failure to release that is not reported: the machine is not found, or the context was canceled
  -- from the start and the call could not be made in time.
  abbrev pub is_expected : Bool → Failure → Bool
  is_expected was_canceled (api e) =
      has_status 404 (flaps_status e) || (was_canceled && (is e deadline || is e canceled))
  is_expected was_canceled _ = false

  abbrev pub had_error : Bool → List (Answer (Unit {0})) → Bool
  had_error was_canceled [] = false
  had_error was_canceled (done a ∷ answers) = had_error was_canceled answers
  had_error was_canceled (failed f ∷ answers) =
      not (is_expected was_canceled f) || had_error was_canceled answers

  -- `was_canceled` says whether the context is canceled when the call starts.
  unfoldable pub release_leases : Bool → MachineSet W → Answer (Unit {0}) × MachineSet W
  release_leases was_canceled ms =
      let (answers, lms, w) = each (release_the_lease flaps) ms.world ms.machines in
      (
        if had_error was_canceled answers then failed lease_errors else done tt,
        record { world = w; machines = lms },
      )

  abbrev pub or_release : Bool → Option Failure → MachineSet W → Answer (Unit {0}) × MachineSet W
  or_release was_canceled none ms = (done tt, ms)
  or_release was_canceled (some f) ms = (failed f, (release_leases was_canceled ms).1)

  unfoldable pub acquire_leases : Bool → MachineSet W → Answer (Unit {0}) × MachineSet W
  acquire_leases was_canceled ms =
      let (answers, lms, w) = each (acquire_lease flaps) ms.world ms.machines in
      or_release was_canceled (first_failure answers) (record { world = w; machines = lms })

  abbrev pub has_id : String → List (Leasable W) → Bool
  has_id id [] = false
  has_id id (lm ∷ lms) = str_eq id lm.machine.id || has_id id lms

  unfoldable pub without : List (Leasable W) → List (Leasable W) → List (Leasable W)
  without removed [] = []
  without removed (lm ∷ lms) =
      let rest = without removed lms in if has_id lm.machine.id removed then rest else lm ∷ rest

  -- The set without the machines `removed`, and these machines, whose leases are released.
  unfoldable pub remove_machines :
      Bool → List (Leasable W) → MachineSet W → Answer (Unit {0}) × MachineSet W × List (Leasable W)
  remove_machines was_canceled removed ms =
      let (answer, subset) =
        release_leases was_canceled (record { world = ms.world; machines = removed }) in
      (
        answer,
        record { world = subset.world; machines = without removed ms.machines },
        subset.machines,
      )

  unfoldable pub start_all_refreshes : MachineSet W → MachineSet W
  start_all_refreshes ms = record ms { machines = begun ms.machines }
    where
      begun : List (Leasable W) → List (Leasable W)
      begun [] = []
      begun (lm ∷ lms) = start_background_lease_refresh flaps lm ∷ begun lms

-- WaitForMachineSetState, over what the wait of each machine ends with: the failures that count.
abbrev pub tolerates : Bool → Failure → Bool
tolerates allow_not_found (api e) = has_status 404 (flaps_status e) && allow_not_found
tolerates allow_not_found _ = false

unfoldable pub bad_machines : Bool → List (Answer (Unit {0})) → List Failure
bad_machines allow_not_found [] = []
bad_machines allow_not_found (done a ∷ answers) = bad_machines allow_not_found answers
bad_machines allow_not_found (failed f ∷ answers) =
    let rest = bad_machines allow_not_found answers in
    if tolerates allow_not_found f then rest else f ∷ rest

-- AcquireLease of lease.go ends with a machine, an error, or both; a response with no data is a nil
-- pointer, and `crashes`.
pub data Acquired : Type 0 where
  crashes : Acquired
  refuses : Error → Acquired
  holds : Machine → Option Error → Acquired

abbrev pub is_unreachable : Machine → Bool
is_unreachable m = elim m.host_status [ host_ok ↦ false | _ ↦ true ]

module _ {W I : Type 0} (flaps : Flaps W I) where
  abbrev pub fetched : String → Machine → Reply Machine → Acquired
  fetched nonce m (value new) = holds (record new { lease_nonce = nonce }) none
  fetched nonce m (refused e) = holds m (some e)

  abbrev pub use_lease : Machine → Option (String × String) → W → Acquired × W
  use_lease m none w = (crashes, w)
  use_lease m (some (nonce, version)) w =
      let m' = record m { lease_nonce = nonce } in
      let (r, w') = flaps.get m.id w in
      if str_eq m.instance_id version then (holds m' none, w) else (fetched nonce m' r, w')

  abbrev pub leased : Machine → Reply Lease → W → Acquired × W
  leased m (refused e) w = (refuses e, w)
  leased m (value l) w = use_lease m l.data_of w

  unfoldable pub acquire_machine_lease : Machine → W → Acquired × W
  acquire_machine_lease m w = let (r, w') = flaps.acquire_lease m.id w in leased m r w'

  -- A task of AcquireLeases.
  unfoldable pub lease_task : Machine → W → Acquired × W
  lease_task m w = if is_unreachable m then (holds m none, w) else acquire_machine_lease m w

  unfoldable pub lease_tasks : List Machine → W → List Acquired × W
  lease_tasks [] w = ([], w)
  lease_tasks (m ∷ ms) w =
      let here = lease_task m w in let rest = lease_tasks ms here.1 in (here.0 ∷ rest.0, rest.1)

module _ {W I : Type 0} (flaps : Flaps W I) where
  -- The machines that AcquireLeases returns: `pool` is what the pool keeps of the tasks' results.
  unfoldable pub acquire_all : (List Acquired → List Machine) → List Machine → W → List Machine × W
  acquire_all pool ms w = (pool (lease_tasks flaps ms w).0, (lease_tasks flaps ms w).1)

  -- releaseLease: an error is only printed.
  unfoldable pub release_machine_lease : Machine → W → W
  release_machine_lease m w =
      if str_eq m.lease_nonce "" then w else (flaps.release_lease m.id m.lease_nonce w).1

  -- The function that AcquireLeases returns.
  unfoldable pub release_all : List Machine → W → W
  release_all [] w = w
  release_all (m ∷ ms) w = release_all ms (release_machine_lease m w)
