-- ===== src/Plan/Leases.antt =====
-- The leases of plan.go: acquireLeases, releaseLeases and clearMachineLease, and the loop of
-- updateMachinesWRecovery that acquires them. The machines share one world, which goes through them in
-- the order of the list.
pub mod Held
pub mod Stuck
pub mod Freed
use flyctl.Base.{
  ℕ, zero, suc, String, Bool, true, false, not, ◌&&◌, ◌||◌, ◌⊎◌, inl, inr, Option, none, some, List,
  [], ◌∷◌, ◌++◌, str_eq, if◌then◌else◌,
}
use flyctl.Base.Bytes.{codes}
use flyctl.Plan.Checks.{Fault, lease_fault}

-- The fields of a machine that the leases concern.
pub record Machine : Type 0 where
  pub id : String
  pub lease_nonce : String
  pub host_unreachable : Bool

-- machinePairing, without the machine as it was before the deployment
pub record Pairing : Type 0 where
  pub old_machine : Option Machine
  pub new_machine : Option Machine

-- The calls of the API; a lease that is granted is its nonce.
pub record LeaseCalls (W : Type 0) : Type 0 where
  pub acquire_lease : String → W → (Fault ⊎ String) × W
  pub release_lease : String → String → W → Option Fault × W

-- The machine of a pairing that is leased, and the pairing with this machine changed.
abbrev pub leased_machine : Pairing → Option Machine
leased_machine p = elim p.old_machine [ some m ↦ some m | none ↦ p.new_machine ]

abbrev pub with_machine : Machine → Pairing → Pairing
with_machine m p = elim p.old_machine [
  | some old ↦ record p { old_machine = some m }
  | none ↦ record p { new_machine = some m }
]

module _ {W : Type 0} (calls : LeaseCalls W) where
  -- An error is that of acquireMachineLease.
  abbrev pub keep_nonce : Machine → Pairing → (Fault ⊎ String) × W → Option Fault × Pairing × W
  keep_nonce m p (inl f, w) = (lease_fault (some f), p, w)
  keep_nonce m p (inr nonce, w) = (none, with_machine (record m { lease_nonce = nonce }) p, w)

  abbrev pub acquire_for : Option Machine → Pairing → W → Option Fault × Pairing × W
  acquire_for none p w = (none, p, w)
  acquire_for (some m) p w =
      if m.host_unreachable || not (str_eq m.lease_nonce "")
      then (none, p, w)
      else keep_nonce m p (calls.acquire_lease m.id w)

  -- A task of acquireLeases.
  unfoldable pub acquire_pairing : Pairing → W → Option Fault × Pairing × W
  acquire_pairing p w = acquire_for (leased_machine p) p w

  -- clearMachineLease, after an attempt: `left` more are made if they are needed.
  unfoldable pub clear_again : ℕ → String → String → Option Fault × W → Option Fault × W
  clear_again left id nonce (none, w) = (none, w)
  clear_again zero id nonce (some f, w) = (some f, w)
  clear_again (suc n) id nonce (some f, w) = clear_again n id nonce (calls.release_lease id nonce w)

  abbrev pub clear_machine_lease : String → String → W → Option Fault × W
  clear_machine_lease id nonce w = clear_again 5 id nonce (calls.release_lease id nonce w)

  abbrev pub forget_nonce : Machine → Pairing → Option Fault × W → Option Fault × Pairing × W
  forget_nonce m p (some f, w) = (some f, p, w)
  forget_nonce m p (none, w) = (none, with_machine (record m { lease_nonce = "" }) p, w)

  abbrev pub release_for : Option Machine → Pairing → W → Option Fault × Pairing × W
  release_for none p w = (none, p, w)
  release_for (some m) p w =
      if str_eq m.lease_nonce ""
      then (none, p, w)
      else forget_nonce m p (clear_machine_lease m.id m.lease_nonce w)

  -- A task of releaseLeases.
  unfoldable pub release_pairing : Pairing → W → Option Fault × Pairing × W
  release_pairing p w = release_for (leased_machine p) p w

-- fmt.Errorf("failed to acquire leases: %w", err)
abbrev pub leases_failed : Fault → Fault
leases_failed f = record f { text = codes "failed to acquire leases: " ++ f.text }

abbrev pub or_later : Option Fault → Option Fault → Option Fault
or_later none later = later
or_later (some f) later = some f

module _ {W : Type 0} where
  -- A group of tasks, which all run: the first error.
  unfoldable pub for_all :
      (Pairing → W → Option Fault × Pairing × W)
      → List Pairing
      → W
      → Option Fault × List Pairing × W
  for_all task [] w = (none, [], w)
  for_all task (p ∷ ps) w =
      let (o, p', w') = task p w in
      let (later, ps', last) = for_all task ps w' in (or_later o later, p' ∷ ps', last)

module _ {W : Type 0} (calls : LeaseCalls W) where
  unfoldable pub acquire_leases : List Pairing → W → Option Fault × List Pairing × W
  acquire_leases ps w = for_all (acquire_pairing calls) ps w

  -- releaseLeases returns no error.
  unfoldable pub release_leases : List Pairing → W → List Pairing × W
  release_leases ps w = let (o, ps', w') = for_all (release_pairing calls) ps w in (ps', w')

  -- The loop that acquires the leases, after an attempt: `left` more are made if they are needed.
  unfoldable pub acquire_again :
      ℕ → Option Fault × List Pairing × W → Option Fault × List Pairing × W
  acquire_again left (none, ps, w) = (none, ps, w)
  acquire_again zero (some f, ps, w) = (some f, ps, w)
  acquire_again (suc n) (some f, ps, w) =
      let rest = acquire_again n (acquire_leases ps w) in
      if f.unrecoverable || f.canceled then (some f, ps, w) else rest

  abbrev pub acquire_loop : ℕ → List Pairing → W → Option Fault × List Pairing × W
  acquire_loop deploy_retries ps w = acquire_again deploy_retries (acquire_leases ps w)

  -- The part of updateMachinesWRecovery that holds the leases around the update of the machines, which
  -- ends with an `R`.
  module _ {R : Type 0} (on_fault : Fault → R)
      (update : List Pairing → W → R × List Pairing × W) where
    abbrev pub under_leases : Option Fault × List Pairing × W → R × List Pairing × W
    under_leases (some f, ps, w) = (on_fault (leases_failed f), ps, w)
    under_leases (none, ps, w) =
        let (r, ps', w') = update ps w in
        let (freed, last) = release_leases ps' w' in (r, freed, last)

    unfoldable pub with_leases : ℕ → Bool → List Pairing → W → R × List Pairing × W
    with_leases deploy_retries skip ps w =
        if skip then update ps w else under_leases (acquire_loop deploy_retries ps w)
