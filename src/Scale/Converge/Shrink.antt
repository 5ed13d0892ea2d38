-- ===== src/Scale/Converge/Shrink.antt =====
-- The loop that takes machines away ends, at the total that is wanted.
use native.Mathlib.Nat.{mod-lt}
use native.Mathlib.Decide.{dec_lt}
use flyctl.Base.{
  subst, true, ℕ, zero, suc, ◌+◌, ◌*◌, ◌%◌, ◌<◌, ◌≤◌, String, ◌≡◌, inl, inr, false, List, [], ◌∷◌,
  ap, arith, Dict, put, length, get_or, All, All-get_or, Bool-cases, ◌==◌,
}
use flyctl.Base.Int.{
  ℤ, pos, negsuc, pos_part, neg_part, ◌+ℤ◌, ◌-ℤ◌, ◌≤ℤ◌, ◌<ℤ◌, ltb_ℤ, int_laws, ltb_ℤ→lt, ltb_ℤ→ge,
  neg_part-suc,
}
use flyctl.Scale.Converge.{at, total, shrink, returned}
use flyctl.Scale.Converge.Loops.{
  Settled, All-cycle, fuel_step, Streak, Streak-none, Streak-next, Placed, Placed-Settled,
  Placed-put,
}
use flyctl.Scale.Converge.Totals.{Distinct, totals}

totals_le_zero :
    (current diffs : Dict ℤ) (rs : List String)
    → All (λ r. total current diffs r ≤ℤ pos 0) rs
    → totals current diffs rs ≤ℤ pos 0
unfolding totals
totals_le_zero current diffs [] full = omega arith
totals_le_zero current diffs (r ∷ rs) full =
    omega (int_laws, totals_le_zero current diffs rs full.1, full.0)

-- Regions that hold no machine, all of them, hold none together.
occupied_false→le :
    (current diffs : Dict ℤ) (r : String)
    → ltb_ℤ (pos 0) (total current diffs r) ≡ false
    → total current diffs r ≤ℤ pos 0
occupied_false→le current diffs r h = ltb_ℤ→ge (pos 0) (total current diffs r) h

module _ (expected max : ℤ) (current : Dict ℤ) (rs : List String) (distinct : Distinct rs)
    (some_region : 0 < length rs) (wanted : pos 0 ≤ℤ expected) where
  -- While machines are to go, `k` regions in a row can only be empty if `k` is not all of them.
  Streak-short :
      (diffs : Dict ℤ) (diff : ℤ) (a k : ℕ)
      → Streak (λ r. ltb_ℤ (pos 0) (total current diffs r)) rs a k
      → diff <ℤ pos 0
      → totals current diffs rs +ℤ diff ≡ expected
      → k ≤ length rs
      → k < length rs
  Streak-short diffs diff a k empty surplus sum le = elim (dec_lt k (length rs)) [
    | yes lt ↦ lt
    | no ge ↦
        let none_left = totals_le_zero current diffs rs (
          All-cycle (λ r. total current diffs r ≤ℤ pos 0) rs a
            (λ d lt. occupied_false→le current diffs _ (empty d (omega (arith, ge, lt))))) in
        absurd (omega (int_laws, none_left, ap pos_part sum, ap neg_part sum))
  ]

  -- A round that takes a machine from the region.
  taken :
      (idx : ℕ) (diff : ℤ) (diffs : Dict ℤ)
      → ltb_ℤ (pos 0) (total current diffs (get_or rs (idx % length rs) "")) ≡ true
      → Placed expected max current rs diff diffs
      → Placed expected max current rs (diff +ℤ pos 1) (
          put
            (get_or rs (idx % length rs) "")
            (at diffs (get_or rs (idx % length rs) "") -ℤ pos 1)
            diffs)
  unfolding total
  taken idx diff diffs occupied p =
      Placed-put expected max current rs idx (diff +ℤ pos 1) (negsuc 0) _ diffs distinct some_region
        (omega int_laws) (omega (int_laws, ltb_ℤ→lt (pos 0) _ occupied))
        (λ h.
          omega
            (int_laws, All-get_or _ rs (idx % length rs) "" (p.capped h) (mod-lt idx some_region)))
        (subst (λ z. Placed expected max current rs z diffs) whole p)
    where
      whole : diff ≡ negsuc 0 +ℤ (diff +ℤ pos 1)
      whole = omega int_laws

  pub shrink_settles :
      (fuel a k idx : ℕ) (diff : ℤ) (diffs : Dict ℤ)
      → idx ≡ a + k
      → Streak (λ r. ltb_ℤ (pos 0) (total current diffs r)) rs a k
      → k ≤ length rs
      → diff ≤ℤ pos 0
      → Placed expected max current rs diff diffs
      → neg_part diff * length rs + length rs < fuel + k
      → (d' : Dict ℤ) × (shrink fuel rs current idx diff diffs ≡ returned d')
        × Settled expected max current rs d'
  unfolding shrink
  shrink_settles zero a k idx diff diffs ix empty le nonpos placed enough = absurd (omega arith)
  shrink_settles (suc fuel) a k idx diff diffs ix empty le nonpos placed enough =
      elim (Bool-cases (ltb_ℤ diff (pos 0))) [
        | inr done ↦ (
          diffs,
          rw done,
          Placed-Settled expected max current rs diff diffs
              (omega (int_laws, ltb_ℤ→ge diff (pos 0) done)) placed,
        )
        | inl more ↦
            let surplus = ltb_ℤ→lt diff (pos 0) more in
            let short = Streak-short diffs diff a k empty surplus placed.sum le in
            rw (more, not_empty)
              (elim (Bool-cases (ltb_ℤ (pos 0) (total current diffs region))) [
                | inl occupied ↦ rw occupied (
                    shrink_settles fuel (idx + 1) 0 (idx + 1) (diff +ℤ pos 1)
                      (put region (at diffs region -ℤ pos 1) diffs) (omega arith)
                      (Streak-none
                        (λ r.
                          ltb_ℤ (pos 0)
                            (total current (put region (at diffs region -ℤ pos 1) diffs) r))
                        rs (idx + 1))
                      (omega arith) (omega (int_laws, surplus))
                      (taken idx diff diffs occupied placed)
                      (fuel_step (neg_part diff) _ (length rs) fuel k (neg_part-suc diff surplus)
                        enough short))
                | inr none_left ↦ rw none_left (
                    shrink_settles fuel a (k + 1) (idx + 1) diff diffs (omega arith)
                      (Streak-next (λ r. ltb_ℤ (pos 0) (total current diffs r)) rs a k idx ix empty
                        none_left)
                      (omega (arith, short)) nonpos placed (omega arith))
              ])
      ]
    where
      region : String
      region = get_or rs (idx % length rs) ""

      not_empty : (length rs == 0) ≡ false
      not_empty = ground arith
