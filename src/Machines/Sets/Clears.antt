-- ===== src/Machines/Sets/Clears.antt =====
-- A set of machines holds all of its leases, or gives them back.
use flyctl.Base.{
  eq_iff, All, ◌≡◌, ◌≢◌, ◌∙◌, refl, sym, String, Bool, true, false, not, ◌||◌, Option, none, some,
  List, [], ◌∷◌, str_eq, if◌then◌else◌, false≢true, ◌⊎◌, inl, inr,
}
use flyctl.Machines.Api.{
  Failure, not_acquired, missing_data, Answer, done, failed, Lease, Reply, value, refused, Flaps,
}
use flyctl.Machines.Leasable.{
  Call, Leasable, acquire_lease, release_the_lease, reset_lease, granted, with_nonce, called,
  returned, is_value, acquire, release,
}
use flyctl.Machines.Sets.{
  MachineSet, each, first_failure, release_leases, or_release, acquire_leases,
}

abbrev pub IsLeased : {W : Type 0} → Leasable W → Type 0
IsLeased lm = lm.nonce ≢ ""

first_failure-done :
    (a : Answer (Unit {0})) (answers : List (Answer (Unit {0})))
    → first_failure (a ∷ answers) ≡ none
    → (a ≡ done tt) × (first_failure answers ≡ none)
first_failure-done (done tt) answers e = (refl, e)
first_failure-done (failed f) answers e = absurd (cc e)

module _ {W : Type 0} where
  -- Of the machines of two lists, one by one.
  abbrev pub Pairwise :
      (Leasable W → Leasable W → Type 0) → List (Leasable W) → List (Leasable W) → Type 0
  Pairwise R [] [] = Unit
  Pairwise R (x ∷ xs) (y ∷ ys) = R x y × Pairwise R xs ys
  Pairwise R _ _ = ⊥

  Pairwise-each :
      (R : Leasable W → Leasable W → Type 0) (method : Leasable W → Answer (Unit {0}) × Leasable W)
      → ((lm : Leasable W) (w : W) → R lm (method (record lm { world = w })).1)
      → (lms : List (Leasable W)) (w : W) → Pairwise R lms (each method w lms).1
  unfolding each
  Pairwise-each R method h [] w = tt
  Pairwise-each R method h (lm ∷ lms) w = (h lm w, Pairwise-each R method h lms _)

  -- A method that ends well.
  All-each_done :
      (P : Leasable W → Type 0) (method : Leasable W → Answer (Unit {0}) × Leasable W)
      → ((lm : Leasable W) → (method lm).0 ≡ done tt → P (method lm).1)
      → (lms : List (Leasable W)) (w : W) → first_failure (each method w lms).0 ≡ none
      → All P (each method w lms).1
  unfolding each
  All-each_done P method h [] w e = tt
  All-each_done P method h (lm ∷ lms) w e =
      let (here, later) = first_failure-done (method (record lm { world = w })).0 _ e in
      (h (record lm { world = w }) here, All-each_done P method h lms _ later)

module _ {W I : Type 0} (flaps : Flaps W I) where
  -- A call to release the lease of a machine, and what it was answered with.
  abbrev pub release_call : Leasable W → W → Call
  release_call lm w = record {
    op = release;
    nonce = lm.nonce;
    succeeded = is_value flaps (flaps.release_lease lm.machine.id lm.nonce w).0;
  }

  -- The machine has no nonce any more; if it had one and has not been destroyed, one call has been made
  -- to release its lease, and otherwise none.
  abbrev pub GivesBack : Leasable W → Leasable W → Type 0
  GivesBack lm lm' =
      (lm'.nonce ≡ "")
      × ((((lm.nonce ≡ "") ⊎ (lm.destroyed ≡ true)) × (lm'.log ≡ lm.log))
          ⊎ ((lm.nonce ≢ "")
              × (lm.destroyed ≡ false)
              × ((w : W) × (lm'.log ≡ release_call lm w ∷ lm.log)
                  × (lm'.world ≡ (flaps.release_lease lm.machine.id lm.nonce w).1))))

  release-GivesBack :
      (lm : Leasable W) (w : W) → GivesBack lm (release_the_lease flaps (record lm { world = w })).1
  unfolding release_the_lease reset_lease
  release-GivesBack lm w = by_test (str_eq lm.nonce "") lm.destroyed refl refl
    where
      before : Leasable W
      before = record lm { world = w }

      r : Reply (Unit {0})
      r = (flaps.release_lease lm.machine.id lm.nonce w).0

      v : W
      v = (flaps.release_lease lm.machine.id lm.nonce w).1

      by_test :
          (b d : Bool)
          → str_eq lm.nonce "" ≡ b
          → lm.destroyed ≡ d
          → GivesBack lm
              (if◌then◌else◌ {A = Answer (Unit {0}) × Leasable W}
                (b || d)
                (done tt, reset_lease flaps before)
                (
                  returned flaps r,
                  called flaps release lm.nonce (is_value flaps r) v (reset_lease flaps before),
                )).1
      by_test true d e k = (refl, inl (inl ((eq_iff lm.nonce "").0 e), refl))
      by_test false true e k = (refl, inl (inr k, refl))
      by_test false false e k =
          (refl, inr (λ x. false≢true (sym e ∙ (eq_iff lm.nonce "").1 x), k, (w, refl, refl)))

  release_leases-GivesBack :
      (was_canceled : Bool) (ms : MachineSet W)
      → Pairwise GivesBack ms.machines (release_leases flaps was_canceled ms).1.machines
  unfolding release_leases
  release_leases-GivesBack was_canceled ms =
      Pairwise-each GivesBack (release_the_lease flaps) release-GivesBack ms.machines ms.world

  -- No lease that the API grants has an empty nonce.
  abbrev pub Names : Type 0
  Names =
      (id : String) (w : W) (l : Lease) (d : String × String)
      → (flaps.acquire_lease id w).0 ≡ value l
      → l.data_of ≡ some d
      → d.0 ≢ ""

  acquire-IsLeased :
      Names
      → (lm : Leasable W) → (acquire_lease flaps lm).0 ≡ done tt
      → IsLeased (acquire_lease flaps lm).1
  unfolding acquire_lease
  acquire-IsLeased names lm = by_test (str_eq lm.nonce "") refl
    where
      w : W
      w = (flaps.acquire_lease lm.machine.id lm.world).1

      granting :
          (l : Lease) (b : Bool) (d : Option (String × String))
          → (flaps.acquire_lease lm.machine.id lm.world).0 ≡ value l
          → l.data_of ≡ d
          → (lm' : Leasable W)
          → (with_nonce flaps
              (if not b then failed (not_acquired l.texts) else elim d as (λ x. Answer String) [
                | none ↦ failed missing_data
                | some d ↦ done d.0
              ])
              lm').0
            ≡ done tt
          → IsLeased
              (with_nonce flaps
                (if not b then failed (not_acquired l.texts) else elim d as (λ x. Answer String) [
                  | none ↦ failed missing_data
                  | some d ↦ done d.0
                ])
                lm').1
      granting l false d e k lm' h = absurd (cc h)
      granting l true none e k lm' h = absurd (cc h)
      granting l true (some d) e k lm' h = names lm.machine.id lm.world l d e k

      answered :
          (r : Reply Lease)
          → (flaps.acquire_lease lm.machine.id lm.world).0 ≡ r
          → (lm' : Leasable W) → (with_nonce flaps (granted flaps r) lm').0 ≡ done tt
          → IsLeased (with_nonce flaps (granted flaps r) lm').1
      answered (refused x) e lm' h = absurd (cc h)
      answered (value l) e lm' h = granting l l.success l.data_of e refl lm' h

      next : Answer (Unit {0}) × Leasable W
      next = with_nonce flaps (granted flaps (flaps.acquire_lease lm.machine.id lm.world).0) (
          called flaps acquire "" (is_value flaps (flaps.acquire_lease lm.machine.id lm.world).0) w
            lm)

      by_test :
          (b : Bool)
          → str_eq lm.nonce "" ≡ b
          → (if◌then◌else◌ {A = Answer (Unit {0}) × Leasable W} (not b) (done tt, lm) next).0
            ≡ done tt
          → IsLeased
              (if◌then◌else◌ {A = Answer (Unit {0}) × Leasable W} (not b) (done tt, lm) next).1
      by_test false e h = λ x. false≢true (sym e ∙ (eq_iff lm.nonce "").1 x)
      by_test true e h = answered (flaps.acquire_lease lm.machine.id lm.world).0 refl _ h

  -- The machines after the attempts to acquire their leases.
  unfoldable pub tried : MachineSet W → List (Leasable W)
  tried ms = (each (acquire_lease flaps) ms.world ms.machines).1

  -- AcquireLeases of a set, if no lease that the API grants has an empty nonce: when it ends well
  -- every machine has its lease; and when it fails, each machine that has a lease after the attempts,
  -- and that has not been destroyed, is called once to release it, with the nonce of the lease, for
  -- the others there is no call, and no machine keeps a nonce, even if the API has refused.
  pub acquire_leases-AllOrNone :
      Names
      → (was_canceled : Bool) (ms : MachineSet W)
      → (((acquire_leases flaps was_canceled ms).0 ≡ done tt)
          × All IsLeased (acquire_leases flaps was_canceled ms).1.machines)
        ⊎ (((f : Failure) × ((acquire_leases flaps was_canceled ms).0 ≡ failed f))
            × Pairwise GivesBack (tried ms) (acquire_leases flaps was_canceled ms).1.machines)
  unfolding acquire_leases tried
  acquire_leases-AllOrNone names was_canceled ms =
      by_failure (first_failure (each (acquire_lease flaps) ms.world ms.machines).0) refl
    where
      attempted : MachineSet W
      attempted = record {
        world = (each (acquire_lease flaps) ms.world ms.machines).2;
        machines = (each (acquire_lease flaps) ms.world ms.machines).1;
      }

      by_failure :
          (o : Option Failure)
          → first_failure (each (acquire_lease flaps) ms.world ms.machines).0 ≡ o
          → (((or_release flaps was_canceled o attempted).0 ≡ done tt)
              × All IsLeased (or_release flaps was_canceled o attempted).1.machines)
            ⊎ (((f : Failure) × ((or_release flaps was_canceled o attempted).0 ≡ failed f))
                × Pairwise GivesBack
                    (tried ms)
                    (or_release flaps was_canceled o attempted).1.machines)
      by_failure none e = inl (
        refl,
        All-each_done IsLeased (acquire_lease flaps) (acquire-IsLeased names) ms.machines ms.world
            e,
      )
      by_failure (some f) e = inr ((f, refl), release_leases-GivesBack was_canceled attempted)
