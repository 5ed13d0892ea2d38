-- ===== src/Scale/Converge/Correct.antt =====
-- `convergeGroupCounts` as a whole: it ends, and at what.
mod Trim
mod Settle
use native.Mathlib.Nat.{mod-eq_of_lt}
use flyctl.Base.{
  ◌%◌, ◌==◌, ℕ, zero, suc, ◌*◌, ◌<◌, String, ◌≡◌, ◌∙◌, sym, subst, ◌⊎◌, inl, inr, true, false, List,
  [], ◌∷◌, arith, Dict, put, length, All, All-map, Bool-cases,
}
use flyctl.Base.Int.{
  ℤ, pos, negsuc, pos_part, ◌+ℤ◌, ◌-ℤ◌, ◌≤ℤ◌, ◌<ℤ◌, ltb_ℤ, leb_ℤ, ltb_ℤ→lt, ltb_ℤ→ge, leb_ℤ→le,
  leb_ℤ→gt, wrap, wrap-le, wrap_fits, IsInt,
}
use flyctl.Scale.Converge.{
  returned, max_per_region, at, total, trim, wanted_regions, shrink, converge_group_counts,
}
use flyctl.Scale.Converge.Totals.{Distinct, totals}
use flyctl.Scale.Converge.Loops.{Settled}
pub use Settle.{rounds}
use Settle.{totals-le, settle_settles}
use Trim.{at-empty, at-trim_ne, total-empty, trimmed}

-- The test that convergeGroupCounts starts with: the product is an int.
abbrev pub IsRefused : ℤ → ℤ → List String → Type 0
IsRefused expected max rs = (pos 0 ≤ℤ max) × (wrap (pos (length rs * pos_part max)) <ℤ expected)

-- The total wanted does not fit the regions under the maximum.
abbrev pub IsOver : ℤ → ℤ → List String → Type 0
IsOver expected max rs = (pos 0 ≤ℤ max) × (pos (length rs * pos_part max) <ℤ expected)

module _ (uniq : List String → List String) (keys : Dict ℤ → List String) (expected max : ℤ)
    (current : Dict ℤ) (regions : List String) where
  -- The regions that a call distributes over.
  abbrev pub acted_on : List String
  acted_on = uniq (wanted_regions keys current regions)

  -- How a call ends, whatever its product wraps around to.
  pub converge_outcome :
      (fuel : ℕ)
      → Distinct acted_on
      → 0 < length acted_on
      → All (λ r. pos 0 ≤ℤ at current r) acted_on
      → pos 0 ≤ℤ expected
      → rounds expected current acted_on < fuel
      → (IsRefused expected max acted_on
          × (converge_group_counts uniq keys fuel expected current regions max ≡ max_per_region))
        ⊎ ((¬ IsRefused expected max acted_on)
            × ((d : Dict ℤ) × (converge_group_counts uniq keys fuel expected current regions max
                  ≡ returned d)
                × Settled expected max current acted_on d))
  unfolding converge_group_counts
  converge_outcome fuel distinct some_region counts wanted enough =
      elim (Bool-cases (leb_ℤ (pos 0) max)) [
        | inr unlimited ↦
            let negative = leb_ℤ→gt (pos 0) max unlimited in
            rw unlimited (
              inr (
                (λ over. absurd (omega (arith, negative, over.0))),
                settle_settles expected max current acted_on distinct some_region wanted
                    (λ h. absurd (omega (arith, negative, h))) fuel []
                    (All-map _ _ acted_on (λ r h. rw (total-empty current r) h) counts)
                    (λ h. absurd (omega (arith, negative, h))) (λ r out. at-empty r) (omega arith)
                    enough,
              ))
        | inl limited ↦ rw limited (elim (Bool-cases (ltb_ℤ product expected)) [
          | inl over ↦ inl ((leb_ℤ→le (pos 0) max limited, ltb_ℤ→lt product expected over), rw over)
          | inr fits ↦
              let least = leb_ℤ→le (pos 0) max limited in
              let within = trimmed max current acted_on least distinct counts in
              let room = ltb_ℤ→ge product expected fits in
              rw fits (
                inr (
                  (λ over. absurd (omega (arith, room, over.1))),
                  settle_settles expected max current acted_on distinct some_region wanted
                      (λ h. omega (arith, room, wrap-le (length acted_on * pos_part max))) fuel
                      (trim max current acted_on []) (All-map _ _ acted_on (λ r h. h.0) within)
                      (λ h. All-map _ _ acted_on (λ r w. w.1) within)
                      (λ r out. at-trim_ne max current [] r acted_on out ∙ at-empty r)
                      (totals-le current _ [] acted_on
                        (All-map _ _ acted_on (λ r h. rw (total-empty current r) h.2) within))
                      enough,
                ))
        ])
      ]
    where
      product : ℤ
      product = wrap (pos (length acted_on * pos_part max))

  -- The sums and the product of a call are ints.
  pub record CallFits : Type 0 where
    pub product : IsInt (pos (length acted_on * pos_part max))
    pub expected_total : IsInt expected
    pub counted : IsInt (totals current [] acted_on)

  -- Over distinct regions, at least one, with counts and a total that are not negative, with a
  -- total, a sum of the counts and a product of the number of regions and the maximum that are ints
  -- of 64 bits, and with fuel for one cycle of the regions per machine, convergeGroupCounts ends:
  -- with ErrMaxPerRegion exactly if the regions cannot hold the total under the maximum, and
  -- otherwise with differences that add up to the total, leave no region below zero or above the
  -- maximum, and touch no other region.
  pub converge_correct :
      (fuel : ℕ)
      → CallFits
      → Distinct acted_on
      → 0 < length acted_on
      → All (λ r. pos 0 ≤ℤ at current r) acted_on
      → pos 0 ≤ℤ expected
      → rounds expected current acted_on < fuel
      → (IsOver expected max acted_on
          × (converge_group_counts uniq keys fuel expected current regions max ≡ max_per_region))
        ⊎ ((¬ IsOver expected max acted_on)
            × ((d : Dict ℤ) × (converge_group_counts uniq keys fuel expected current regions max
                  ≡ returned d)
                × Settled expected max current acted_on d))
  converge_correct fuel fits distinct some_region counts wanted enough =
      elim (converge_outcome fuel distinct some_region counts wanted enough) [
        | inl (over, e) ↦ inl ((over.0, subst (λ z. z <ℤ expected) exact over.1), e)
        | inr (fine, d) ↦
            inr ((λ over. fine (over.0, subst (λ z. z <ℤ expected) (sym exact) over.1)), d)
      ]
    where
      exact : wrap (pos (length acted_on * pos_part max)) ≡ pos (length acted_on * pos_part max)
      exact = wrap_fits _ fits.product

-- Where more than one region is listed, the machine that is taken first is one of the second region
-- of the list, if that region has one.
shrink_starts_second :
    (fuel : ℕ) (current diffs : Dict ℤ) (r s : String) (rs : List String)
    → pos 0 <ℤ total current diffs s
    → 1 < fuel
    → shrink fuel (r ∷ s ∷ rs) current 1 (negsuc 0) diffs
      ≡ returned (put s (at diffs s -ℤ pos 1) diffs)
unfolding shrink ◌+ℤ◌
shrink_starts_second zero current diffs r s rs occupied enough = absurd (omega arith)
shrink_starts_second (suc zero) current diffs r s rs occupied enough = absurd (omega arith)
shrink_starts_second (suc (suc fuel)) current diffs r s rs occupied enough =
    let second : 1 % length (r ∷ s ∷ rs) ≡ 1 = mod-eq_of_lt (omega arith) in
    let some_left : ltb_ℤ (pos 0) (total current diffs s) ≡ true = ground arith in
    let not_empty : (length (r ∷ s ∷ rs) == 0) ≡ false = ground arith in
    rw (not_empty, second, some_left)
