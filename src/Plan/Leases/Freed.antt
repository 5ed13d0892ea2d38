-- ===== src/Plan/Leases/Freed.antt =====
-- What releasing the leases does: the calls that are made for each machine, and what they leave.
use flyctl.Base.{
  arith, false≢true, ap, subst, ◌≡◌, ◌≢◌, ◌∙◌, ◌⊎◌, ◌<◌, inl, inr, refl, sym, eq_iff, ℕ, zero, suc,
  String, Bool, true, false, Option, none, some, List, [], ◌∷◌, str_eq, if◌then◌else◌,
}
use flyctl.Plan.Checks.{Fault}
use flyctl.Plan.Leases.{
  Machine, Pairing, LeaseCalls, leased_machine, with_machine, clear_again, clear_machine_lease,
  forget_nonce, release_for, release_pairing, for_all, release_leases,
}

module _ {W : Type 0} (calls : LeaseCalls W) where
  -- So many calls to release a lease, one after the other, that the API all refuses.
  abbrev pub Refused : ℕ → String → String → W → W → Type 0
  Refused zero id nonce w w' = w' ≡ w
  Refused (suc n) id nonce w w' =
      ((calls.release_lease id nonce w).0 ≢ none)
      × Refused n id nonce (calls.release_lease id nonce w).1 w'

  -- Fewer than so many refusals, and then a call that is answered with no error.
  abbrev pub Granted : ℕ → String → String → W → W → Type 0
  Granted limit id nonce w w' =
      (n : ℕ) × (v : W) × (n < limit)
      × Refused n id nonce w v
      × ((calls.release_lease id nonce v).0 ≡ none)
      × (w' ≡ (calls.release_lease id nonce v).1)

  -- What is called for a machine, from one world to another, and what is left of its pairing.
  abbrev pub Freed : Option Machine → Pairing → W → Pairing → W → Type 0
  Freed none p w q w' = (q ≡ p) × (w' ≡ w)
  Freed (some m) p w q w' =
      ((m.lease_nonce ≡ "") × (q ≡ p) × (w' ≡ w))
      ⊎ ((m.lease_nonce ≢ "")
          × (q ≡ with_machine (record m { lease_nonce = "" }) p)
          × Granted 6 m.id m.lease_nonce w w')
      ⊎ ((m.lease_nonce ≢ "") × (q ≡ p) × Refused 6 m.id m.lease_nonce w w')

  -- The same for all pairings, one after the other.
  abbrev pub AllFreed : List Pairing → W → List Pairing → W → Type 0
  AllFreed [] w [] w' = w' ≡ w
  AllFreed (p ∷ ps) w (q ∷ qs) w' = (v : W) × Freed (leased_machine p) p w q v × AllFreed ps v qs w'
  AllFreed _ w _ w' = ⊥

  -- How a call and the calls after it end.
  Ends : ℕ → String → String → W → Option Fault × W → Type 0
  Ends limit id nonce w (none, w') = Granted limit id nonce w w'
  Ends limit id nonce w (some f, w') = Refused limit id nonce w w'

  -- One more call that is refused, before the others.
  Ends-suc :
      (limit : ℕ) (id nonce : String) (w : W) (r : Option Fault × W)
      → (calls.release_lease id nonce w).0 ≢ none
      → Ends limit id nonce (calls.release_lease id nonce w).1 r
      → Ends (suc limit) id nonce w r
  unfolding Ends
  Ends-suc limit id nonce w (none, w') h (n, v, lt, before, ok, e) =
      (suc n, v, omega arith, (h, before), ok, e)
  Ends-suc limit id nonce w (some f, w') h k = (h, k)

  clear_again-Ends :
      (n : ℕ) (id nonce : String) (w : W) (r : Option Fault × W)
      → calls.release_lease id nonce w ≡ r
      → Ends (suc n) id nonce w (clear_again calls n id nonce r)
  unfolding Ends clear_again
  clear_again-Ends n id nonce w (none, w') e =
      (0, w, omega arith, refl, ap (λ r. r.0) e, sym (ap (λ r. r.1) e))
  clear_again-Ends zero id nonce w (some f, w') e =
      ((λ n. cc (ap (λ r. r.0) e, n)), sym (ap (λ r. r.1) e))
  clear_again-Ends (suc n) id nonce w (some f, w') e =
      Ends-suc (suc n) id nonce w (clear_again calls n id nonce (calls.release_lease id nonce w'))
        (λ n. cc (ap (λ r. r.0) e, n))
        (subst
          (λ u.
            Ends (suc n) id nonce u
              (clear_again calls n id nonce (calls.release_lease id nonce w')))
          (sym (ap (λ r. r.1) e))
          (clear_again-Ends n id nonce w' (calls.release_lease id nonce w') refl))

  release_pairing-Freed :
      (p : Pairing) (w : W)
      → Freed (leased_machine p) p w (release_pairing calls p w).1 (release_pairing calls p w).2
  unfolding release_pairing Ends
  release_pairing-Freed p w = by_machine (leased_machine p)
    where
      by_machine :
          (o : Option Machine) → Freed o p w (release_for calls o p w).1 (release_for calls o p w).2
      by_machine none = (refl, refl)
      by_machine (some m) = by_test (str_eq m.lease_nonce "") refl
        where
          cleared :
              m.lease_nonce ≢ ""
              → (r : Option Fault × W) → Ends 6 m.id m.lease_nonce w r
              → Freed (some m) p w (forget_nonce calls m p r).1 (forget_nonce calls m p r).2
          cleared leased (none, w') h = inr (inl (leased, refl, h))
          cleared leased (some f, w') h = inr (inr (leased, refl, h))

          next : Option Fault × Pairing × W
          next = forget_nonce calls m p (clear_machine_lease calls m.id m.lease_nonce w)

          by_test :
              (b : Bool)
              → str_eq m.lease_nonce "" ≡ b
              → Freed
                  (some m)
                  p
                  w
                  (if b then (none, p, w) else next).1
                  (if b then (none, p, w) else next).2
          by_test true e = inl ((eq_iff m.lease_nonce "").0 e, refl, refl)
          by_test false e =
              cleared (λ x. false≢true (sym e ∙ (eq_iff m.lease_nonce "").1 x))
                (clear_machine_lease calls m.id m.lease_nonce w)
                (clear_again-Ends 5 m.id m.lease_nonce w _ refl)

  -- releaseLeases goes through the machines that have a lease, and for each it calls the API to release
  -- it with its nonce, until a call is answered with no error, and at most six times. The nonce is
  -- forgotten if a call was answered with no error, and kept if the API has refused all six. No other
  -- call is made, and nothing else of a machine is changed.
  pub release_leases-AllFreed :
      (ps : List Pairing) (w : W)
      → AllFreed ps w (release_leases calls ps w).0 (release_leases calls ps w).1
  unfolding release_leases for_all
  release_leases-AllFreed [] w = refl
  release_leases-AllFreed (p ∷ ps) w = (
    (release_pairing calls p w).2,
    release_pairing-Freed p w,
    release_leases-AllFreed ps (release_pairing calls p w).2,
  )
