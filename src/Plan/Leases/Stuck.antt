-- ===== src/Plan/Leases/Stuck.antt =====
-- What is left of the leases when they cannot all be acquired.
use flyctl.Base.{
  ◌≡◌, ◌∙◌, ◌⊎◌, inl, inr, refl, sym, ap, eq_iff, ℕ, zero, suc, Bool, true, false, not, ◌||◌,
  Option, none, some, List, [], ◌∷◌, str_eq, if◌then◌else◌,
}
use flyctl.Plan.Checks.{Fault}
use flyctl.Plan.Leases.{
  Machine, Pairing, LeaseCalls, leased_machine, acquire_for, keep_nonce, acquire_pairing, for_all,
  acquire_leases, acquire_again, acquire_loop, under_leases, with_leases, leases_failed,
}

-- A pairing is as it was, unless its machine had no lease.
abbrev pub Kept : Pairing → Pairing → Type 0
Kept p p' = (p' ≡ p) ⊎ ((m : Machine) × (leased_machine p ≡ some m) × (m.lease_nonce ≡ ""))

abbrev pub AllKept : List Pairing → List Pairing → Type 0
AllKept [] [] = Unit
AllKept (p ∷ ps) (q ∷ qs) = Kept p q × AllKept ps qs
AllKept _ _ = ⊥

Kept-refl : (ps : List Pairing) → AllKept ps ps
Kept-refl [] = tt
Kept-refl (p ∷ ps) = (inl refl, Kept-refl ps)

Kept-one : (p q r : Pairing) → Kept p q → Kept q r → Kept p r
Kept-one p q r (inr free) k = inr free
Kept-one p q r (inl e) (inl f) = inl (f ∙ e)
Kept-one p q r (inl e) (inr (m, k, n)) = inr (m, ap leased_machine (sym e) ∙ k, n)

Kept-trans : (ps qs rs : List Pairing) → AllKept ps qs → AllKept qs rs → AllKept ps rs
Kept-trans [] [] [] h k = tt
Kept-trans [] [] (r ∷ rs) h k = absurd k
Kept-trans [] (q ∷ qs) rs h k = absurd h
Kept-trans (p ∷ ps) [] rs h k = absurd h
Kept-trans (p ∷ ps) (q ∷ qs) [] h k = absurd k
Kept-trans (p ∷ ps) (q ∷ qs) (r ∷ rs) h k = (Kept-one p q r h.0 k.0, Kept-trans ps qs rs h.1 k.1)

module _ {W : Type 0} (calls : LeaseCalls W) where
  acquire_pairing-Kept : (p : Pairing) (w : W) → Kept p (acquire_pairing calls p w).1
  unfolding acquire_pairing
  acquire_pairing-Kept p w = by_machine (leased_machine p) refl
    where
      by_machine : (o : Option Machine) → leased_machine p ≡ o → Kept p (acquire_for calls o p w).1
      by_machine none k = inl refl
      by_machine (some m) k = by_test m.host_unreachable (str_eq m.lease_nonce "") refl
        where
          by_test :
              (u n : Bool)
              → str_eq m.lease_nonce "" ≡ n
              → Kept p
                  (if u || not n
                    then (none, p, w)
                    else keep_nonce calls m p (calls.acquire_lease m.id w)).1
          by_test true n e = inl refl
          by_test false false e = inl refl
          by_test false true e = inr (m, k, (eq_iff m.lease_nonce "").0 e)

  acquire_leases-AllKept : (ps : List Pairing) (w : W) → AllKept ps (acquire_leases calls ps w).1
  unfolding acquire_leases for_all
  acquire_leases-AllKept [] w = tt
  acquire_leases-AllKept (p ∷ ps) w = (acquire_pairing-Kept p w, acquire_leases-AllKept ps _)

  acquire_again-AllKept :
      (left : ℕ) (r : Option Fault × List Pairing × W) → AllKept r.1 (acquire_again calls left r).1
  unfolding acquire_again
  acquire_again-AllKept left (none, ps, w) = Kept-refl ps
  acquire_again-AllKept zero (some f, ps, w) = Kept-refl ps
  acquire_again-AllKept (suc n) (some f, ps, w) = by_test (f.unrecoverable || f.canceled) (
      Kept-trans ps _ _ (acquire_leases-AllKept ps w)
        (acquire_again-AllKept n (acquire_leases calls ps w)))
    where
      rest : Option Fault × List Pairing × W
      rest = acquire_again calls n (acquire_leases calls ps w)

      by_test : (b : Bool) → AllKept ps rest.1 → AllKept ps (if b then (some f, ps, w) else rest).1
      by_test true k = Kept-refl ps
      by_test false k = k

  -- If the leases cannot all be acquired, updateMachinesWRecovery ends with the error, said to be that
  -- of the leases: nothing is called after the attempts to acquire them, neither the update of the
  -- machines nor a release, and every lease that the first attempt has got is still held.
  pub with_leases-AllKept :
      {R : Type 0} (on_fault : Fault → R) (update : List Pairing → W → R × List Pairing × W)
      → (deploy_retries : ℕ) (ps : List Pairing) (w : W) (f : Fault)
      → (acquire_loop calls deploy_retries ps w).0 ≡ some f
      → (with_leases calls on_fault update deploy_retries false ps w ≡ (
        on_fault (leases_failed f),
        (acquire_loop calls deploy_retries ps w).1,
        (acquire_loop calls deploy_retries ps w).2,
      ))
        × AllKept
            (acquire_leases calls ps w).1
            (with_leases calls on_fault update deploy_retries false ps w).1
  unfolding with_leases
  with_leases-AllKept {R} on_fault update deploy_retries ps w f e =
      by_result (acquire_loop calls deploy_retries ps w) e
        (acquire_again-AllKept deploy_retries (acquire_leases calls ps w))
    where
      by_result :
          (r : Option Fault × List Pairing × W)
          → r.0 ≡ some f
          → AllKept (acquire_leases calls ps w).1 r.1
          → (under_leases calls on_fault update r ≡ (on_fault (leases_failed f), r.1, r.2))
            × AllKept (acquire_leases calls ps w).1 (under_leases calls on_fault update r).1
      by_result (none, qs, w') e k = absurd (cc e)
      by_result (some g, qs, w') e k =
          (ap (λ x. (on_fault (leases_failed x), qs, w')) (some_injective e), k)
        where
          some_injective : {a b : Fault} → some a ≡ some b → a ≡ b
          some_injective e = cc e
