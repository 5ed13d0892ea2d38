-- ===== src/Scale/Converge/Correct/Settle.antt =====
-- The two loops, one behind the other, leave the total that is wanted.
use native.Mathlib.Nat.{mul-le-mul_right}
use flyctl.Base.{
  ℕ, zero, suc, ◌+◌, ◌*◌, ◌<◌, ◌≤◌, String, ◌≡◌, refl, ◌∙◌, ◌≢◌, inl, inr, false, List, [], ◌∷◌,
  arith, Dict, length, All, Bool-cases,
}
use flyctl.Base.Int.{
  ℤ, pos, pos_part, neg_part, ◌-ℤ◌, ◌≤ℤ◌, ltb_ℤ, int_laws, one_part, ltb_ℤ→lt, ltb_ℤ→ge,
}
use flyctl.Scale.Converge.{has_room, Outcome, returned, at, total, grow, shrink, settle}
use flyctl.Scale.Converge.Totals.{Distinct, totals, remaining-totals}
use flyctl.Scale.Converge.Loops.{Settled, Streak-none, Placed}
use flyctl.Scale.Converge.Grow.{grow_settles}
use flyctl.Scale.Converge.Shrink.{shrink_settles}

-- Lower totals of the regions make a lower sum.
pub totals-le :
    (current d e : Dict ℤ) (rs : List String)
    → All (λ r. total current d r ≤ℤ total current e r) rs
    → totals current d rs ≤ℤ totals current e rs
unfolding totals
totals-le current d e [] h = omega arith
totals-le current d e (r ∷ rs) h = omega (int_laws, totals-le current d e rs h.1, h.0)

totals-nonneg :
    (current d : Dict ℤ) (rs : List String)
    → All (λ r. pos 0 ≤ℤ total current d r) rs
    → pos 0 ≤ℤ totals current d rs
unfolding totals
totals-nonneg current d [] h = omega arith
totals-nonneg current d (r ∷ rs) h = omega (int_laws, totals-nonneg current d rs h.1, h.0)

-- More rounds than the loops can make: each machine to place or to take away costs at most one cycle.
abbrev pub rounds : ℤ → Dict ℤ → List String → ℕ
rounds expected current rs =
    (pos_part expected + pos_part (totals current [] rs)) * length rs + length rs

grow_stops :
    (fuel : ℕ) (rs : List String) (max : ℤ) (current : Dict ℤ) (next : ℤ → Dict ℤ → Outcome)
    (idx : ℕ) (diff : ℤ) (diffs : Dict ℤ)
    → 0 < fuel
    → diff ≤ℤ pos 0
    → grow fuel rs max current next idx diff diffs ≡ next diff diffs
unfolding grow
grow_stops zero rs max current next idx diff diffs some_fuel done = absurd (omega arith)
grow_stops (suc fuel) rs max current next idx diff diffs some_fuel done =
    let e : ltb_ℤ (pos 0) diff ≡ false = ground arith in rw e

shrink_stops :
    (fuel : ℕ) (rs : List String) (current : Dict ℤ) (idx : ℕ) (diffs : Dict ℤ)
    → 0 < fuel
    → shrink fuel rs current idx (pos 0) diffs ≡ returned diffs
unfolding shrink
shrink_stops zero rs current idx diffs some_fuel = absurd (omega arith)
shrink_stops (suc fuel) rs current idx diffs some_fuel = refl

module _ (expected max : ℤ) (current : Dict ℤ) (rs : List String) (distinct : Distinct rs)
    (some_region : 0 < length rs) (wanted : pos 0 ≤ℤ expected)
    (fits : pos 0 ≤ℤ max → expected ≤ℤ pos (length rs * pos_part max)) where
  fuel_enough :
      (p fuel : ℕ)
      → p ≤ pos_part expected + pos_part (totals current [] rs)
      → rounds expected current rs < fuel
      → p * length rs + length rs < fuel + 0
  fuel_enough p fuel le enough = grind (arith, mul-le-mul_right (length rs) le)

  pub settle_settles :
      (fuel : ℕ) (diffs : Dict ℤ)
      → All (λ r. pos 0 ≤ℤ total current diffs r) rs
      → (pos 0 ≤ℤ max → All (λ r. total current diffs r ≤ℤ max) rs)
      → ((r : String) → All (λ s. s ≢ r) rs → at diffs r ≡ pos 0)
      → totals current diffs rs ≤ℤ totals current [] rs
      → rounds expected current rs < fuel
      → (d' : Dict ℤ) × (settle fuel expected current rs max diffs ≡ returned d')
        × Settled expected max current rs d'
  unfolding settle
  settle_settles fuel diffs debt capped elsewhere lower enough =
      elim (Bool-cases (ltb_ℤ diff (pos 0))) [
        | inl surplus ↦
            let below = ltb_ℤ→lt diff (pos 0) surplus in
            let (d', ends, settled) =
              shrink_settles expected max current rs distinct some_region wanted fuel 1 0 1 diff
                diffs (omega arith) (Streak-none (λ r. ltb_ℤ (pos 0) (total current diffs r)) rs 1)
                (omega arith) (omega (arith, below)) placed
                (fuel_enough (neg_part diff) fuel
                  (omega (int_laws, below, one_part diff, one_part (totals current [] rs)))
                  enough) in
            (
              d',
              rw remaining-totals (
                  grow_stops fuel rs max current _ 0 diff diffs (omega (arith, enough))
                    (omega (arith, below))
                  ∙ ends),
              settled,
            )
        | inr short ↦
            let above = ltb_ℤ→ge diff (pos 0) short in
            let (d', ends, settled) =
              grow_settles expected max current rs distinct some_region fits
                (shrink fuel rs current 1) fuel 0 0 0 diff diffs (omega arith)
                (Streak-none (has_room max current diffs) rs 0) (omega arith) above placed
                (fuel_enough (pos_part diff) fuel
                  (omega (int_laws, above, one_part diff, totals-nonneg current diffs rs debt))
                  enough) in
            (
              d',
              rw remaining-totals
                  (ends ∙ shrink_stops fuel rs current 1 d' (omega (arith, enough))),
              settled,
            )
      ]
    where
      diff : ℤ
      diff = expected -ℤ totals current diffs rs

      placed : Placed expected max current rs diff diffs
      placed = record {
        sum = omega int_laws;
        no_debt = debt;
        capped = capped;
        elsewhere = elsewhere;
      }
