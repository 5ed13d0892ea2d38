-- ===== src/Scale/Converge.antt =====
-- `convergeGroupCounts` of internal/command/scale/count_machines.go.
pub mod Totals
pub mod Loops
mod Grow
mod Shrink
pub mod Correct
use flyctl.Base.{
  ℕ, zero, suc, ◌+◌, ◌*◌, ◌%◌, String, Bool, ◌||◌, none, some, List, [], ◌∷◌, ◌==◌, if◌then◌else◌,
  Dict, lookup, put, length, get_or,
}
use flyctl.Base.Int.{ℤ, pos, pos_part, ◌+ℤ◌, ◌-ℤ◌, ltb_ℤ, leb_ℤ, wrap}

-- m[region] of a map[string]int: a missing key reads as 0.
unfoldable pub at : Dict ℤ → String → ℤ
at m region = elim (lookup region m) [ none ↦ pos 0 | some n ↦ n ]

-- What a call ends with. `panicked` is the run-time error of `% 0`, and `running` means that the
-- fuel of a loop ran out.
pub data Outcome : Type 0 where
  returned : Dict ℤ → Outcome
  max_per_region panicked running : Outcome

-- current[region]+diffs[region]
unfoldable pub total : Dict ℤ → Dict ℤ → String → ℤ
total current diffs region = at current region +ℤ at diffs region

-- The first loop: regions above the maximum get the difference to it.
unfoldable pub trim : ℤ → Dict ℤ → List String → Dict ℤ → Dict ℤ
trim max current [] diffs = diffs
trim max current (region ∷ regions) diffs =
    let c = at current region in
    trim max current regions (if ltb_ℤ max c then put region (max -ℤ c) diffs else diffs)

-- diff -= (current[region] + diffs[region]), over all regions. These sums are of counts of machines, which
-- do not come near 2 ^ 63; the product with the maximum, which the user gives, wraps around.
unfoldable pub remaining : Dict ℤ → Dict ℤ → List String → ℤ → ℤ
remaining current diffs [] diff = diff
remaining current diffs (region ∷ regions) diff =
    remaining current diffs regions (diff -ℤ total current diffs region)

-- maxPerRegion < 0 || current[region]+diffs[region] < maxPerRegion
unfoldable pub has_room : ℤ → Dict ℤ → Dict ℤ → String → Bool
has_room max current diffs region = ltb_ℤ max (pos 0) || ltb_ℤ (total current diffs region) max

-- for diff > 0 { … idx++ }; `next` is what follows the loop.
unfoldable pub grow :
    ℕ → List String → ℤ → Dict ℤ → (ℤ → Dict ℤ → Outcome) → ℕ → ℤ → Dict ℤ → Outcome
grow zero regions max current next idx diff diffs = running
grow (suc fuel) regions max current next idx diff diffs =
    let region = get_or regions (idx % length regions) "" in
    let filled =
      grow fuel regions max current next (idx + 1) (diff -ℤ pos 1)
        (put region (at diffs region +ℤ pos 1) diffs) in
    let skipped = grow fuel regions max current next (idx + 1) diff diffs in
    if ltb_ℤ (pos 0) diff
    then if length regions == 0
      then panicked
      else if has_room max current diffs region
      then filled
      else skipped
    else next diff diffs

-- for diff < 0 { … idx-- }; the argument `neg_idx` is -idx, which starts at 1.
unfoldable pub shrink : ℕ → List String → Dict ℤ → ℕ → ℤ → Dict ℤ → Outcome
shrink zero regions current neg_idx diff diffs = running
shrink (suc fuel) regions current neg_idx diff diffs =
    let region = get_or regions (neg_idx % length regions) "" in
    let taken =
      shrink fuel regions current (neg_idx + 1) (diff +ℤ pos 1)
        (put region (at diffs region -ℤ pos 1) diffs) in
    let skipped = shrink fuel regions current (neg_idx + 1) diff diffs in
    if ltb_ℤ diff (pos 0)
    then if length regions == 0
      then panicked
      else if ltb_ℤ (pos 0) (total current diffs region)
      then taken
      else skipped
    else returned diffs

-- if len(regions) == 0 { regions = lo.Keys(current) }
unfoldable pub wanted_regions : (Dict ℤ → List String) → Dict ℤ → List String → List String
wanted_regions keys current [] = keys current
wanted_regions keys current (r ∷ rs) = r ∷ rs

-- What follows the check on the maximum: the difference, and the two loops.
unfoldable pub settle : ℕ → ℤ → Dict ℤ → List String → ℤ → Dict ℤ → Outcome
settle fuel expected current regions max diffs =
    grow fuel regions max current (shrink fuel regions current 1) 0
      (remaining current diffs regions expected) diffs

-- `expected` is the total wanted. `uniq` is `lo.Uniq` and `keys` is `lo.Keys`.
unfoldable pub converge_group_counts :
    (List String → List String)
    → (Dict ℤ → List String)
    → ℕ
    → ℤ
    → Dict ℤ
    → List String
    → ℤ
    → Outcome
converge_group_counts uniq keys fuel expected current regions max =
    let rs = uniq (wanted_regions keys current regions) in
    if leb_ℤ (pos 0) max
    then (if ltb_ℤ (wrap (pos (length rs * pos_part max))) expected
        then max_per_region
        else settle fuel expected current rs max (trim max current rs []))
    else settle fuel expected current rs max []
