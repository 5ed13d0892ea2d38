-- ===== src/Scale/Actions/Unique.antt =====
-- The differences of convergeGroupCounts have one entry for each region.
use flyctl.Base.{
  Unique, Unique-put, if_holds, arith, eq_iff, All, All-and, ◌≡◌, ℕ, zero, suc, ◌+◌, ◌%◌, ◌*◌,
  String, Bool, true, false, List, [], ◌∷◌, ◌==◌, if◌then◌else◌, Dict, lookup, put, length, get_or,
}
use flyctl.Base.Int.{ℤ, pos, pos_part, ◌+ℤ◌, ◌-ℤ◌, ltb_ℤ, leb_ℤ, wrap}
use flyctl.Scale.Converge.{
  Outcome, returned, max_per_region, panicked, running, at, total, trim, remaining, has_room, grow,
  shrink, wanted_regions, settle, converge_group_counts,
}

-- An entry is what its key is looked up as.
pub entries-at : (d : Dict ℤ) → Unique d → All (λ e. at d e.0 ≡ e.1) d
unfolding at lookup
entries-at [] h = tt
entries-at ((k, v) ∷ d) (fresh, h) = (
  ground (arith, eq_iff k k),
  All-and _ _ _ (λ e ne same. ground (arith, ne, same, eq_iff k e.0)) d fresh (entries-at d h),
)

trim-Unique :
    (max : ℤ) (current : Dict ℤ) (rs : List String) (diffs : Dict ℤ)
    → Unique diffs
    → Unique (trim max current rs diffs)
unfolding trim
trim-Unique max current [] diffs h = h
trim-Unique max current (r ∷ rs) diffs h =
    trim-Unique max current rs _ (by_test (ltb_ℤ max (at current r)))
  where
    by_test : (b : Bool) → Unique (if b then put r (max -ℤ at current r) diffs else diffs)
    by_test true = Unique-put r (max -ℤ at current r) diffs h
    by_test false = h

-- What an outcome returns has one entry for each region.
abbrev pub ReturnsUnique : Outcome → Type 0
ReturnsUnique (returned d) = Unique d
ReturnsUnique max_per_region = Unit
ReturnsUnique panicked = Unit
ReturnsUnique running = Unit

shrink-Unique :
    (fuel : ℕ) (rs : List String) (current : Dict ℤ) (i : ℕ) (diff : ℤ) (diffs : Dict ℤ)
    → Unique diffs
    → ReturnsUnique (shrink fuel rs current i diff diffs)
unfolding shrink
shrink-Unique zero rs current i diff diffs h = tt
shrink-Unique (suc fuel) rs current i diff diffs h =
    if_holds ReturnsUnique (ltb_ℤ diff (pos 0)) _ _
      (if_holds ReturnsUnique (length rs == 0) _ _ tt (
        if_holds ReturnsUnique (ltb_ℤ (pos 0) (total current diffs region)) _ _
          (shrink-Unique fuel rs current (i + 1) (diff +ℤ pos 1)
            (put region (at diffs region -ℤ pos 1) diffs) (Unique-put region _ diffs h))
          (shrink-Unique fuel rs current (i + 1) diff diffs h)))
      h
  where
    region : String
    region = get_or rs (i % length rs) ""

grow-Unique :
    (fuel : ℕ) (rs : List String) (max : ℤ) (current : Dict ℤ) (next : ℤ → Dict ℤ → Outcome) (i : ℕ)
    (diff : ℤ) (diffs : Dict ℤ)
    → ((e : ℤ) (d : Dict ℤ) → Unique d → ReturnsUnique (next e d))
    → Unique diffs
    → ReturnsUnique (grow fuel rs max current next i diff diffs)
unfolding grow
grow-Unique zero rs max current next i diff diffs after h = tt
grow-Unique (suc fuel) rs max current next i diff diffs after h =
    if_holds ReturnsUnique (ltb_ℤ (pos 0) diff) _ _
      (if_holds ReturnsUnique (length rs == 0) _ _ tt (
        if_holds ReturnsUnique (has_room max current diffs region) _ _
          (grow-Unique fuel rs max current next (i + 1) (diff -ℤ pos 1)
            (put region (at diffs region +ℤ pos 1) diffs) after (Unique-put region _ diffs h))
          (grow-Unique fuel rs max current next (i + 1) diff diffs after h)))
      (after diff diffs h)
  where
    region : String
    region = get_or rs (i % length rs) ""

settle-Unique :
    (fuel : ℕ) (expected : ℤ) (current : Dict ℤ) (rs : List String) (max : ℤ) (diffs : Dict ℤ)
    → Unique diffs
    → ReturnsUnique (settle fuel expected current rs max diffs)
unfolding settle
settle-Unique fuel expected current rs max diffs h =
    grow-Unique fuel rs max current (shrink fuel rs current 1) 0
      (remaining current diffs rs expected) diffs (λ e d u. shrink-Unique fuel rs current 1 e d u) h

pub converge-Unique :
    (uniq : List String → List String) (keys : Dict ℤ → List String) (fuel : ℕ) (expected : ℤ)
    (current : Dict ℤ) (regions : List String) (max : ℤ)
    → ReturnsUnique (converge_group_counts uniq keys fuel expected current regions max)
unfolding converge_group_counts
converge-Unique uniq keys fuel expected current regions max =
    if_holds ReturnsUnique (leb_ℤ (pos 0) max) _ _
      (if_holds ReturnsUnique (ltb_ℤ (wrap (pos (length rs * pos_part max))) expected) _ _ tt (
        settle-Unique fuel expected current rs max (trim max current rs [])
          (trim-Unique max current rs [] tt)))
      (settle-Unique fuel expected current rs max [] tt)
  where
    rs : List String
    rs = uniq (wanted_regions keys current regions)
