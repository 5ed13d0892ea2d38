-- ===== src/Plan/Leases/Held.antt =====
-- Which machines hold a lease when the acquisition of the leases ends.
use flyctl.Base.{
  eq_iff, All, ◌≡◌, ◌≢◌, ◌∙◌, ◌⊎◌, inl, inr, refl, sym, ap, subst, ℕ, zero, suc, String, Bool, true,
  false, not, ◌||◌, Option, none, some, List, [], ◌∷◌, str_eq, if◌then◌else◌, false≢true,
}
use flyctl.Base.Bytes.{codes}
use flyctl.Bluegreen.Errors.{contains}
use flyctl.Plan.Checks.{Fault, lease_fault, beyond_recovery}
use flyctl.Plan.Leases.{
  Machine, Pairing, LeaseCalls, leased_machine, with_machine, keep_nonce, acquire_for,
  acquire_pairing, or_later, for_all, acquire_leases, acquire_again, acquire_loop,
}

-- The machine holds a lease, or its host is unreachable, or there is no machine.
abbrev pub Secured : Option Machine → Type 0
Secured none = Unit
Secured (some m) = (m.host_unreachable ≡ true) ⊎ (m.lease_nonce ≢ "")

abbrev pub IsSecured : Pairing → Type 0
IsSecured p = Secured (leased_machine p)

or_later-none : (o later : Option Fault) → or_later o later ≡ none → (o ≡ none) × (later ≡ none)
or_later-none none later e = (refl, e)
or_later-none (some f) later e = absurd (cc e)

-- What each task of a group that ends well shows, holds of all its pairings.
for_all-All :
    {W : Type 0} (P : Pairing → Type 0) (task : Pairing → W → Option Fault × Pairing × W)
    → ((p : Pairing) (w : W) → (task p w).0 ≡ none → P (task p w).1)
    → (ps : List Pairing) (w : W) → (for_all task ps w).0 ≡ none
    → All P (for_all task ps w).1
unfolding for_all
for_all-All P task h [] w e = tt
for_all-All P task h (p ∷ ps) w e =
    let (here, later) = or_later-none _ _ e in (h p w here, for_all-All P task h ps _ later)

leased-with_machine :
    (m m' : Machine) (p : Pairing)
    → leased_machine p ≡ some m
    → leased_machine (with_machine m' p) ≡ some m'
leased-with_machine m m' p e = by_old p.old_machine p.new_machine refl e
  where
    by_old :
        (o n : Option Machine)
        → p.old_machine ≡ o
        → elim o as (λ x. Option Machine) [ some m ↦ some m | none ↦ n ] ≡ some m
        → leased_machine (elim o as (λ x. Pairing) [
          | some old ↦ record p { old_machine = some m' }
          | none ↦ record p { new_machine = some m' }
        ])
          ≡ some m'
    by_old (some x) n f e = refl
    by_old none n f e =
        ap (λ o. elim o as (λ x. Option Machine) [ some m ↦ some m | none ↦ some m' ]) f

module _ {W : Type 0} (calls : LeaseCalls W) where
  -- No lease that the API grants has an empty nonce.
  abbrev pub Names : Type 0
  Names =
      (id : String) (w : W) (nonce : String) → (calls.acquire_lease id w).0 ≡ inr nonce → nonce ≢ ""

  acquire_pairing-IsSecured :
      Names
      → (p : Pairing) (w : W) → (acquire_pairing calls p w).0 ≡ none
      → IsSecured (acquire_pairing calls p w).1
  unfolding acquire_pairing
  acquire_pairing-IsSecured names p w e = by_machine (leased_machine p) refl e
    where
      by_machine :
          (o : Option Machine)
          → leased_machine p ≡ o
          → (acquire_for calls o p w).0 ≡ none
          → IsSecured (acquire_for calls o p w).1
      by_machine none k e = subst Secured (sym k) tt
      by_machine (some m) k e = by_test (m.host_unreachable) (str_eq m.lease_nonce "") refl refl e
        where
          granted :
              (r : (Fault ⊎ String) × W)
              → ((nonce : String) → r.0 ≡ inr nonce → nonce ≢ "")
              → (keep_nonce calls m p r).0 ≡ none
              → IsSecured (keep_nonce calls m p r).1
          granted (inl f, w') n e = absurd (refused f e)
            where
              refused : (f : Fault) → lease_fault (some f) ≢ none
              refused f e = by_text (contains (codes "failed to get lease") f.text) e
                where
                  by_text : (b : Bool) → (if b then some (beyond_recovery f) else some f) ≢ none
                  by_text true e = cc e
                  by_text false e = cc e
          granted (inr nonce, w') n e =
              subst Secured (sym (leased-with_machine m (record m { lease_nonce = nonce }) p k))
                (inr (n nonce refl))

          by_test :
              (u n : Bool)
              → m.host_unreachable ≡ u
              → str_eq m.lease_nonce "" ≡ n
              → (if u || not n
                  then (none, p, w)
                  else keep_nonce calls m p (calls.acquire_lease m.id w)).0
                ≡ none
              → IsSecured
                  (if u || not n
                    then (none, p, w)
                    else keep_nonce calls m p (calls.acquire_lease m.id w)).1
          by_test true n h g e = subst Secured (sym k) (inl h)
          by_test false false h g e =
              subst Secured (sym k) (inr (λ x. false≢true (sym g ∙ (eq_iff m.lease_nonce "").1 x)))
          by_test false true h g e = granted (calls.acquire_lease m.id w) (names m.id w) e

  acquire_again-All :
      Names
      → (left : ℕ) (r : Option Fault × List Pairing × W) → (r.0 ≡ none → All IsSecured r.1)
      → (acquire_again calls left r).0 ≡ none
      → All IsSecured (acquire_again calls left r).1
  unfolding acquire_again acquire_leases
  acquire_again-All names left (none, ps, w) h e = h refl
  acquire_again-All names zero (some f, ps, w) h e = absurd (cc e)
  acquire_again-All names (suc n) (some f, ps, w) h e = by_test (f.unrecoverable || f.canceled) e (
      acquire_again-All names n (acquire_leases calls ps w)
        (for_all-All IsSecured (acquire_pairing calls) (acquire_pairing-IsSecured names) ps w))
    where
      rest : Option Fault × List Pairing × W
      rest = acquire_again calls n (acquire_leases calls ps w)

      by_test :
          (b : Bool)
          → (if b then (some f, ps, w) else rest).0 ≡ none
          → (rest.0 ≡ none → All IsSecured rest.1)
          → All IsSecured (if b then (some f, ps, w) else rest).1
      by_test true e k = absurd (cc e)
      by_test false e k = k e

  -- If the leases have been acquired, after whatever number of attempts, then each machine holds
  -- one or its host is unreachable, for an API that grants no lease with an empty nonce.
  pub acquire_loop-IsSecured :
      Names
      → (deploy_retries : ℕ) (ps : List Pairing) (w : W)
      → (acquire_loop calls deploy_retries ps w).0 ≡ none
      → All IsSecured (acquire_loop calls deploy_retries ps w).1
  unfolding acquire_leases
  acquire_loop-IsSecured names deploy_retries ps w e =
      acquire_again-All names deploy_retries (acquire_leases calls ps w)
        (for_all-All IsSecured (acquire_pairing calls) (acquire_pairing-IsSecured names) ps w) e
