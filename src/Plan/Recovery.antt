-- ===== src/Plan/Recovery.antt =====
-- updateMachinesWRecovery: the pairs of machines to update, and the attempts to push the update
-- forward.
pub mod Pairs
use flyctl.Base.{
  ℕ, zero, suc, String, Bool, true, false, not, ◌||◌, ◌⊎◌, inl, inr, Option, none, some, List, [],
  ◌∷◌, ◌++◌, str_eq, if◌then◌else◌, Dict, lookup, put,
}
use flyctl.Plan.Checks.{Fault}
use flyctl.Plan.Leases.{Machine, Pairing, LeaseCalls, with_leases}

-- lo.Find of a machine with the id
unfoldable pub find_machine : String → List Machine → Option Machine
find_machine id [] = none
find_machine id (m ∷ ms) = let rest = find_machine id ms in if str_eq m.id id then some m else rest

abbrev pub carry_nonce : Machine → Option Machine → Machine
carry_nonce m none = m
carry_nonce m (some existing) = record m { lease_nonce = existing.lease_nonce }

-- The machines that appState has listed, with the nonces of the existing state.
unfoldable pub carry_nonces : List Machine → List Machine → List Machine
carry_nonces existing [] = []
carry_nonces existing (m ∷ ms) =
    carry_nonce m (find_machine m.id existing) ∷ carry_nonces existing ms

-- The machines by their ids; of two machines with one id the last one counts.
unfoldable pub by_id : List Machine → Dict Machine → Dict Machine
by_id [] found = found
by_id (m ∷ ms) found = by_id ms (put m.id m found)

abbrev pub update_pair : Machine → Option Machine → List Pairing → List Pairing
update_pair old none rest = rest
update_pair old (some new) rest = (record { old_machine = some old; new_machine = some new }) ∷ rest

abbrev pub create_pair : Machine → Option Machine → List Pairing → List Pairing
create_pair new (some old) rest = rest
create_pair new none rest = (record { old_machine = none; new_machine = some new }) ∷ rest

-- The machines to update, and those to create.
unfoldable pub updates : Dict Machine → Dict Machine → List Pairing
updates [] new = []
updates ((id, old) ∷ olds) new = update_pair old (lookup old.id new) (updates olds new)

unfoldable pub creations : Dict Machine → Dict Machine → List Pairing
creations old [] = []
creations old ((id, new) ∷ news) = create_pair new (lookup new.id old) (creations old news)

unfoldable pub machine_tuples : List Machine → List Machine → List Pairing
machine_tuples old new =
    updates (by_id old []) (by_id new []) ++ creations (by_id old []) (by_id new [])

-- The machines of a list that the pairings share, with the nonces that these have got.
abbrev pub shared_machines : (Pairing → Option Machine) → List Pairing → List Machine
shared_machines side [] = []
shared_machines side (p ∷ ps) = elim (side p) [
  | none ↦ shared_machines side ps
  | some m ↦ m ∷ shared_machines side ps
]

abbrev pub after_leases : (Pairing → Option Machine) → List Pairing → List Machine → List Machine
after_leases side ps ms = carry_nonces (shared_machines side ps) ms

-- How the update ends; `crashes` is a nil pointer.
pub data Ending : Type 0 where
  updated crashes : Ending
  fails : Fault → Ending

-- How an attempt to push the update forward ends.
pub data Attempt : Type 0 where
  tries_again : Attempt
  ends : Ending → Attempt

-- What is called of the deployment; `update_groups` updates the process groups.
pub record UpdateCalls (W : Type 0) : Type 0 where
  pub lease_calls : LeaseCalls W
  pub list_machines : W → (Fault ⊎ List Machine) × W
  pub set_volumes : W → Option Fault × W
  pub update_groups : List Pairing → W → Option Fault × List Pairing × W

abbrev pub after_update : Option Fault → Attempt
after_update none = ends updated
after_update (some f) = if f.canceled || f.unrecoverable then ends (fails f) else tries_again

-- The existing machines, with their leases, and the machines as they are to be.
module _ {W : Type 0} (calls : UpdateCalls W) (existing new : List Machine) where
  abbrev pub after_volumes : List Machine → Option Fault × W → Attempt × W
  after_volumes current (some f, w) = (ends (fails f), w)
  after_volumes current (none, w) =
      let (o, ps, w') = calls.update_groups (machine_tuples current new) w in (after_update o, w')

  abbrev pub after_list : (Fault ⊎ List Machine) × W → Attempt × W
  after_list (inl f, w) = (ends crashes, w)
  after_list (inr ms, w) = after_volumes (carry_nonces existing ms) (calls.set_volumes w)

  -- An attempt to push the state forward; the machines are sorted by their ids, which leaves the pairs
  -- as they are.
  unfoldable pub attempt : W → Attempt × W
  attempt w = after_list (calls.list_machines w)

  -- The loop of the attempts: `left` may still be made.
  unfoldable pub push_forward : ℕ → Fault → W → Ending × W
  push_forward zero update_fault w = (fails update_fault, w)
  push_forward (suc n) update_fault w =
      let rest = push_forward n update_fault (attempt w).1 in
      elim (attempt w).0 [ ends e ↦ (e, (attempt w).1) | tries_again ↦ rest ]

module _ {W : Type 0} (calls : UpdateCalls W) (old new : List Machine) where
  abbrev pub after_groups : Bool → ℕ → Option Fault × List Pairing × W → Ending × List Pairing × W
  after_groups push deploy_retries (none, ps, w) = (updated, ps, w)
  after_groups push deploy_retries (some f, ps, w) =
      let existing = after_leases (λ p. p.old_machine) ps old in
      let wanted = after_leases (λ p. p.new_machine) ps new in
      let (e, w') = push_forward calls existing wanted (suc deploy_retries) f w in
      if not push || (f.unrecoverable || f.canceled) then (fails f, ps, w) else (e, ps, w')

  unfoldable pub update_machines_w_recovery : Bool → Bool → ℕ → W → Ending × List Pairing × W
  update_machines_w_recovery push skip_leases deploy_retries w =
      with_leases calls.lease_calls fails
        (λ ps w'. after_groups push deploy_retries (calls.update_groups ps w')) deploy_retries
        skip_leases (machine_tuples old new) w
