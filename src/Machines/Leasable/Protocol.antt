-- ===== src/Machines/Leasable/Protocol.antt =====
-- The lease protocol that a leasableMachine keeps, as a relation between calls and phases.
use flyctl.Base.{
  arith, eq_iff, false≢true, ◌≡◌, ◌≢◌, ◌∙◌, refl, sym, String, Bool, true, false, not, ◌||◌, Option,
  none, some, List, ◌∷◌, str_eq, if◌then◌else◌, ◌⊎◌, inl, inr,
}
use flyctl.Base.Bytes.{Bytes}
use flyctl.Machines.Api.{
  Machine, Answer, done, failed, Lease, Reply, value, refused, Flaps, not_acquired, missing_data,
  has_lease, no_lease, already_destroyed,
}
use flyctl.Machines.Leasable.{
  update, start, stop, destroy, cordon, acquire, refresh, release, get_metadata, set_metadata, Call,
  Leasable, Action, updates, stops, destroys, cordons, starts, acquires, refreshes, begins_refresh,
  releases, reads_metadata, writes_metadata, read_metadata, write_metadata, act, update_machine,
  stop_machine, destroy_machine, cordon_machine, start_machine, acquire_lease, refresh_lease,
  start_background_lease_refresh, release_the_lease, reset_lease, called, returned, is_value,
  granted, with_nonce, updated,
}

-- What the protocol knows of a machine: the nonce of the lease in force, or no text, and whether the
-- machine has been destroyed.
pub record Phase : Type 0 where
  pub nonce : String
  pub gone : Bool

-- What the protocol allows in a phase: at most one call, and the next phase.
pub data Allowed (p q : Phase) : Option Call → Type 0 where
  nothing : q ≡ p → Allowed p q none
  forgets : (p.nonce ≡ "") ⊎ (p.gone ≡ true) → q ≡ record p { nonce = "" } → Allowed p q none
  works :
      (c : Call)
      → p.gone ≡ false
      → c.nonce ≡ p.nonce
      → ((c.op ≡ update) × (p.nonce ≢ "")) ⊎ (c.op ≡ stop) ⊎ (c.op ≡ cordon)
      → q ≡ p
      → Allowed p q (some c)
  ends :
      (c : Call)
      → p.gone ≡ false
      → c.nonce ≡ p.nonce
      → c.op ≡ destroy
      → q ≡ record p { gone = c.succeeded }
      → Allowed p q (some c)
  boots : (c : Call) → p.gone ≡ false → p.nonce ≡ "" → c.op ≡ start → q ≡ p → Allowed p q (some c)
  asks :
      (c : Call) (n : String)
      → p.nonce ≡ ""
      → c.op ≡ acquire
      → (n ≡ "") ⊎ (c.succeeded ≡ true)
      → q ≡ record p { nonce = n }
      → Allowed p q (some c)
  keeps : (c : Call) → c.nonce ≡ p.nonce → c.op ≡ refresh → q ≡ p → Allowed p q (some c)
  notes :
      (c : Call)
      → c.nonce ≡ ""
      → (c.op ≡ get_metadata) ⊎ (c.op ≡ set_metadata)
      → q ≡ p
      → Allowed p q (some c)
  returns :
      (c : Call)
      → p.gone ≡ false
      → p.nonce ≢ ""
      → c.nonce ≡ p.nonce
      → c.op ≡ release
      → q ≡ record p { nonce = "" }
      → Allowed p q (some c)

abbrev pub phase : {W : Type 0} → Leasable W → Phase
phase lm = record { nonce = lm.nonce; gone = lm.destroyed }

abbrev pub add_call : Option Call → List Call → List Call
add_call none log = log
add_call (some c) log = c ∷ log

-- A step of the object is one that the protocol allows, with the call that the log shows.
abbrev pub Follows : {W : Type 0} → Leasable W → Leasable W → Type 0
Follows lm lm' =
    (o : Option Call) × Allowed (phase lm) (phase lm') o × (lm'.log ≡ add_call o lm.log)

module _ {W : Type 0} where
  stays : (lm : Leasable W) → Follows lm lm
  stays lm = (none, nothing refl, refl)

  -- A guard that changes nothing, before the rest.
  guarded :
      {A : Type 0} (b : Bool) (lm : Leasable W) (a : A) (next : A × Leasable W)
      → (b ≡ false → Follows lm next.1)
      → Follows lm (if b then (a, lm) else next).1
  guarded true lm a next h = stays lm
  guarded false lm a next h = h refl

lease_nonempty : (n : String) → not (not (str_eq n "")) ≡ false → n ≢ ""
lease_nonempty n h e = ground (arith, eq_iff n "", h, e)

lease_empty : (n : String) → not (str_eq n "") ≡ false → n ≡ ""
lease_empty n h = ground (arith, eq_iff n "", h)

module _ {W I : Type 0} (flaps : Flaps W I) where
  update-Follows : (input : I) (lm : Leasable W) → Follows lm (update_machine flaps input lm).1
  unfolding update_machine
  update-Follows input lm = guarded lm.destroyed lm (failed already_destroyed) _ (λ alive.
      guarded (not (not (str_eq lm.nonce ""))) lm (failed no_lease) _ (λ held.
        answered alive held (flaps.update lm.machine.id input lm.nonce lm.world).0
          (flaps.update lm.machine.id input lm.nonce lm.world).1))
    where
      answered :
          lm.destroyed ≡ false
          → not (not (str_eq lm.nonce "")) ≡ false
          → (r : Reply Machine) (w : W)
          → Follows lm (updated flaps r (called flaps update lm.nonce (is_value flaps r) w lm))
      answered alive held (value m) w =
          (some _, works _ alive refl (inl (refl, lease_nonempty lm.nonce held)) refl, refl)
      answered alive held (refused e) w =
          (some _, works _ alive refl (inl (refl, lease_nonempty lm.nonce held)) refl, refl)

  stop-Follows : (signal : String) (lm : Leasable W) → Follows lm (stop_machine flaps signal lm).1
  unfolding stop_machine
  stop-Follows signal lm =
      guarded lm.destroyed lm (failed already_destroyed) _
        (λ alive. (some _, works _ alive refl (inr (inl refl)) refl, refl))

  cordon-Follows : (lm : Leasable W) → Follows lm (cordon_machine flaps lm).1
  unfolding cordon_machine
  cordon-Follows lm =
      guarded lm.destroyed lm (failed already_destroyed) _
        (λ alive. (some _, works _ alive refl (inr (inr refl)) refl, refl))

  destroy-Follows : (kill : Bool) (lm : Leasable W) → Follows lm (destroy_machine flaps kill lm).1
  unfolding destroy_machine
  destroy-Follows kill lm =
      guarded lm.destroyed lm (done tt) _ (λ alive. (some _, ends _ alive refl refl refl, refl))

  start-Follows : (lm : Leasable W) → Follows lm (start_machine flaps lm).1
  unfolding start_machine
  start-Follows lm = guarded lm.destroyed lm (failed already_destroyed) _ (λ alive.
      guarded (not (str_eq lm.nonce "")) lm (failed has_lease) _
        (λ free. (some _, boots _ alive (lease_empty lm.nonce free) refl refl, refl)))

  acquire-Follows : (lm : Leasable W) → Follows lm (acquire_lease flaps lm).1
  unfolding acquire_lease
  acquire-Follows lm = guarded (not (str_eq lm.nonce "")) lm (done tt) _ (λ free.
      answered (lease_empty lm.nonce free) (flaps.acquire_lease lm.machine.id lm.world).0
        (flaps.acquire_lease lm.machine.id lm.world).1)
    where
      granting :
          lm.nonce ≡ ""
          → (b : Bool) (m : Bytes) (d : Option (String × String)) (w : W)
          → Follows lm
              (with_nonce flaps
                (if not b then failed (not_acquired m) else elim d as (λ x. Answer String) [
                  | none ↦ failed missing_data
                  | some d ↦ done d.0
                ])
                (called flaps acquire "" true w lm)).1
      granting free false m d w = (some _, asks _ lm.nonce free refl (inl free) refl, refl)
      granting free true m none w = (some _, asks _ lm.nonce free refl (inl free) refl, refl)
      granting free true m (some d) w = (some _, asks _ d.0 free refl (inr refl) refl, refl)

      answered :
          lm.nonce ≡ ""
          → (r : Reply Lease) (w : W)
          → Follows lm
              (with_nonce flaps
                (granted flaps r)
                (called flaps acquire "" (is_value flaps r) w lm)).1
      answered free (refused e) w = (some _, asks _ lm.nonce free refl (inl free) refl, refl)
      answered free (value l) w = granting free l.success l.texts l.data_of w

  refresh-Follows : (lm : Leasable W) → Follows lm (refresh_lease flaps lm).1
  unfolding refresh_lease
  refresh-Follows lm = (some _, keeps _ refl refl refl, refl)

  release-Follows : (lm : Leasable W) → Follows lm (release_the_lease flaps lm).1
  unfolding release_the_lease reset_lease
  release-Follows lm = emptied (str_eq lm.nonce "") lm.destroyed refl refl
    where
      rest : Leasable W
      rest =
          called flaps release lm.nonce
            (is_value flaps (flaps.release_lease lm.machine.id lm.nonce lm.world).0)
            (flaps.release_lease lm.machine.id lm.nonce lm.world).1 (reset_lease flaps lm)

      emptied :
          (b d : Bool)
          → str_eq lm.nonce "" ≡ b
          → lm.destroyed ≡ d
          → Follows lm
              (if◌then◌else◌ {A = Answer (Unit {0}) × Leasable W}
                (b || d)
                (done tt, reset_lease flaps lm)
                (returned flaps (flaps.release_lease lm.machine.id lm.nonce lm.world).0, rest)).1
      emptied true d e g = (none, forgets (inl (ground (arith, eq_iff lm.nonce "", e))) refl, refl)
      emptied false true e g = (none, forgets (inr g) refl, refl)
      emptied false false e g = (
        some _,
        returns _ g (λ x. false≢true (sym e ∙ (eq_iff lm.nonce "").1 x)) refl refl refl,
        refl,
      )

  read-Follows : (lm : Leasable W) → Follows lm (read_metadata flaps lm).1
  unfolding read_metadata
  read-Follows lm = (some _, notes _ refl (inl refl) refl, refl)

  write-Follows :
      (key : String) (value_of : Bytes) (lm : Leasable W)
      → Follows lm (write_metadata flaps key value_of lm).1
  unfolding write_metadata
  write-Follows key value_of lm = (some _, notes _ refl (inr refl) refl, refl)

  pub act-Follows : (a : Action I) (lm : Leasable W) → Follows lm (act flaps a lm)
  unfolding act start_background_lease_refresh
  act-Follows (updates input) lm = update-Follows input lm
  act-Follows (stops signal) lm = stop-Follows signal lm
  act-Follows (destroys kill) lm = destroy-Follows kill lm
  act-Follows cordons lm = cordon-Follows lm
  act-Follows starts lm = start-Follows lm
  act-Follows acquires lm = acquire-Follows lm
  act-Follows refreshes lm = refresh-Follows lm
  act-Follows begins_refresh lm = (none, nothing refl, refl)
  act-Follows releases lm = release-Follows lm
  act-Follows reads_metadata lm = read-Follows lm
  act-Follows (writes_metadata key value_of) lm = write-Follows key value_of lm
