-- ===== src/Machines/Leasable.antt =====
-- `leasableMachine` of internal/machine/leasable_machine.go: the operations that change a machine.
pub mod Protocol
pub mod Histories
use flyctl.Base.{
  String, Bool, true, false, not, ◌||◌, Option, none, some, List, [], ◌∷◌, str_eq, if◌then◌else◌,
}
use flyctl.Base.Bytes.{Bytes}
use flyctl.Machines.Api.{
  Machine, Failure, already_destroyed, no_lease, has_lease, not_acquired, missing_data, new_nonce,
  api, Answer, done, failed, Lease, Reply, value, refused, Flaps,
}

pub data Op : Type 0 where
  update start stop destroy cordon acquire refresh release get_metadata set_metadata : Op

-- A call of the API, with the nonce that it carries and whether it was answered with success.
pub record Call : Type 0 where
  pub op : Op
  pub nonce : String
  pub succeeded : Bool

-- The background refresh of the lease.
pub data Refresh : Type 0 where
  never running cancelled : Refresh

-- A leasableMachine in a world, with the calls made so far, the last one first.
pub record Leasable (W : Type 0) : Type 0 where
  pub world : W
  pub log : List Call
  pub machine : Machine
  pub nonce : String
  pub destroyed : Bool
  pub refreshing : Refresh

module _ {W I : Type 0} (flaps : Flaps W I) where
  abbrev pub Method : Type 0
  Method = Leasable W → Answer (Unit {0}) × Leasable W

  unfoldable pub new_leasable_machine : W → Machine → Leasable W
  new_leasable_machine w m = record {
    world = w;
    log = [];
    machine = m;
    nonce = m.lease_nonce;
    destroyed = false;
    refreshing = never;
  }

  abbrev pub has_a_lease : Leasable W → Bool
  has_a_lease lm = not (str_eq lm.nonce "")

  abbrev pub is_value : {A : Type 0} → Reply A → Bool
  is_value (value a) = true
  is_value (refused e) = false

  -- The state after a call.
  abbrev pub called : Op → String → Bool → W → Leasable W → Leasable W
  called op nonce succeeded w lm = record lm {
    world = w;
    log = (record { op = op; nonce = nonce; succeeded = succeeded }) ∷ lm.log;
  }

  -- return lm.flapsClient.Op(…)
  abbrev pub returned : {A : Type 0} → Reply A → Answer (Unit {0})
  returned (value a) = done tt
  returned (refused e) = failed (api e)

  abbrev pub updated : Reply Machine → Leasable W → Leasable W
  updated (value m) lm = record lm { machine = m }
  updated (refused e) lm = lm

  -- `input` gets the machine's id in the call.
  unfoldable pub update_machine : I → Method
  update_machine input lm =
      if lm.destroyed
      then (failed already_destroyed, lm)
      else if not (has_a_lease lm)
      then (failed no_lease, lm)
      else (let (r, w) = flaps.update lm.machine.id input lm.nonce lm.world in
          (returned r, updated r (called update lm.nonce (is_value r) w lm)))

  unfoldable pub stop_machine : String → Method
  stop_machine signal lm =
      if lm.destroyed
      then (failed already_destroyed, lm)
      else (let (r, w) = flaps.stop lm.machine.id signal lm.nonce lm.world in
          (returned r, called stop lm.nonce (is_value r) w lm))

  unfoldable pub destroy_machine : Bool → Method
  destroy_machine kill lm =
      if lm.destroyed
      then (done tt, lm)
      else (let (r, w) = flaps.destroy lm.machine.id kill lm.nonce lm.world in
          (
            returned r,
            record (called destroy lm.nonce (is_value r) w lm) { destroyed = is_value r },
          ))

  unfoldable pub cordon_machine : Method
  cordon_machine lm =
      if lm.destroyed
      then (failed already_destroyed, lm)
      else (let (r, w) = flaps.cordon lm.machine.id lm.nonce lm.world in
          (returned r, called cordon lm.nonce (is_value r) w lm))

  unfoldable pub start_machine : Method
  start_machine lm =
      if lm.destroyed
      then (failed already_destroyed, lm)
      else if has_a_lease lm
      then (failed has_lease, lm)
      else (let (r, w) = flaps.start lm.machine.id lm.world in
          (returned r, called start "" (is_value r) w lm))

  -- The nonce of a lease that was granted.
  abbrev pub granted : Reply Lease → Answer String
  granted (refused e) = failed (api e)
  granted (value l) =
      if not l.success
      then failed (not_acquired l.texts)
      else elim l.data_of [ none ↦ failed missing_data | some d ↦ done d.0 ]

  abbrev pub with_nonce : Answer String → Leasable W → Answer (Unit {0}) × Leasable W
  with_nonce (failed f) lm = (failed f, lm)
  with_nonce (done n) lm = (done tt, record lm { nonce = n })

  unfoldable pub acquire_lease : Method
  acquire_lease lm =
      if has_a_lease lm
      then (done tt, lm)
      else (let (r, w) = flaps.acquire_lease lm.machine.id lm.world in
          with_nonce (granted r) (called acquire "" (is_value r) w lm))

  abbrev pub same_nonce : String → Answer String → Answer (Unit {0})
  same_nonce nonce (failed f) = failed f
  same_nonce nonce (done n) = if str_eq n nonce then done tt else failed new_nonce

  unfoldable pub refresh_lease : Method
  refresh_lease lm =
      let (r, w) = flaps.refresh_lease lm.machine.id lm.nonce lm.world in
      (same_nonce lm.nonce (granted r), called refresh lm.nonce (is_value r) w lm)

  unfoldable pub start_background_lease_refresh : Leasable W → Leasable W
  start_background_lease_refresh lm = record lm { refreshing = running }

  abbrev pub cancel_refresh : Refresh → Refresh
  cancel_refresh never = never
  cancel_refresh running = cancelled
  cancel_refresh cancelled = cancelled

  unfoldable pub reset_lease : Leasable W → Leasable W
  reset_lease lm = record lm { nonce = ""; refreshing = cancel_refresh lm.refreshing }

  unfoldable pub release_the_lease : Method
  release_the_lease lm =
      if str_eq lm.nonce "" || lm.destroyed
      then (done tt, reset_lease lm)
      else (let (r, w) = flaps.release_lease lm.machine.id lm.nonce lm.world in
          (returned r, called release lm.nonce (is_value r) w (reset_lease lm)))

  -- The metadata, with no nonce and whatever has become of the machine; what is read is left out.
  unfoldable pub read_metadata : Method
  read_metadata lm =
      let (r, w) = flaps.get_metadata lm.machine.id lm.world in
      (returned r, called get_metadata "" (is_value r) w lm)

  unfoldable pub write_metadata : String → Bytes → Method
  write_metadata key value_of lm =
      let (r, w) = flaps.set_metadata lm.machine.id key value_of lm.world in
      (returned r, called set_metadata "" (is_value r) w lm)

-- The operations as data, for histories.
pub data Action (I : Type 0) : Type 0 where
  updates : I → Action I
  stops : String → Action I
  destroys : Bool → Action I
  cordons starts acquires refreshes begins_refresh releases reads_metadata : Action I
  writes_metadata : String → Bytes → Action I

module _ {W I : Type 0} (flaps : Flaps W I) where
  unfoldable pub act : Action I → Leasable W → Leasable W
  act (updates input) lm = (update_machine flaps input lm).1
  act (stops signal) lm = (stop_machine flaps signal lm).1
  act (destroys kill) lm = (destroy_machine flaps kill lm).1
  act cordons lm = (cordon_machine flaps lm).1
  act starts lm = (start_machine flaps lm).1
  act acquires lm = (acquire_lease flaps lm).1
  act refreshes lm = (refresh_lease flaps lm).1
  act begins_refresh lm = start_background_lease_refresh flaps lm
  act releases lm = (release_the_lease flaps lm).1
  act reads_metadata lm = (read_metadata flaps lm).1
  act (writes_metadata key value_of) lm = (write_metadata flaps key value_of lm).1

  unfoldable pub run : List (Action I) → Leasable W → Leasable W
  run [] lm = lm
  run (a ∷ rest) lm = run rest (act a lm)
