-- ===== src/Scale/Converge/Grow.antt =====
-- The loop that adds machines ends, at the total that is wanted.
use native.Mathlib.Nat.{mod-lt}
use native.Mathlib.Decide.{dec_lt}
use flyctl.Base.{
  subst, ℕ, zero, suc, ◌+◌, ◌*◌, ◌%◌, ◌<◌, ◌≤◌, String, ◌≡◌, refl, inl, inr, true, false, List, [],
  ◌∷◌, ap, arith, Dict, put, length, get_or, All, All-get_or, Bool-cases, All-map, ◌==◌,
}
use flyctl.Base.Int.{
  ℤ, pos, negsuc, pos_part, neg_part, ◌+ℤ◌, ◌-ℤ◌, ◌≤ℤ◌, ◌<ℤ◌, ltb_ℤ, int_laws, ltb_ℤ→lt, ltb_ℤ→ge,
  pos_part-pred,
}
use flyctl.Scale.Converge.{Outcome, at, total, has_room, grow}
use flyctl.Scale.Converge.Loops.{
  Settled, All-cycle, fuel_step, Streak, Streak-none, Streak-next, Placed, Placed-Settled,
  Placed-put,
}
use flyctl.Scale.Converge.Totals.{Distinct, totals}

suc_mul : (a b : ℕ) → suc a * b ≡ b + a * b
suc_mul a b = omega arith

totals_ge :
    (m : ℕ) (current diffs : Dict ℤ) (rs : List String)
    → All (λ r. pos m ≤ℤ total current diffs r) rs
    → pos (length rs * m) ≤ℤ totals current diffs rs
unfolding totals
totals_ge m current diffs [] full = omega arith
totals_ge m current diffs (r ∷ rs) full =
    omega (int_laws, totals_ge m current diffs rs full.1, full.0, suc_mul (length rs) m)

module _ (max : ℤ) (current diffs : Dict ℤ) where
  has_room→lt :
      (r : String)
      → pos 0 ≤ℤ max
      → has_room max current diffs r ≡ true
      → total current diffs r <ℤ max
  unfolding has_room
  has_room→lt r h room = ground arith

  no_room→ge :
      (r : String)
      → has_room max current diffs r ≡ false
      → (pos 0 ≤ℤ max) × (max ≤ℤ total current diffs r)
  unfolding has_room
  no_room→ge r h = ground arith

-- Regions that have no room hold the maximum, all of them.
no_room_fills :
    (max : ℤ) (current diffs : Dict ℤ) (rs : List String)
    → 0 < length rs
    → All (λ r. has_room max current diffs r ≡ false) rs
    → (pos 0 ≤ℤ max) × (pos (length rs * pos_part max) ≤ℤ totals current diffs rs)
no_room_fills (pos m) current diffs rs some_region full = (
  omega arith,
  totals_ge m current diffs rs
      (All-map _ _ rs (λ r h. (no_room→ge (pos m) current diffs r h).1) full),
)
no_room_fills (negsuc m) current diffs [] some_region full = absurd (omega arith)
no_room_fills (negsuc m) current diffs (r ∷ rs) some_region full =
    absurd (omega (arith, (no_room→ge (negsuc m) current diffs r full.0).0))

module _ (expected max : ℤ) (current : Dict ℤ) (rs : List String) (distinct : Distinct rs)
    (some_region : 0 < length rs) (fits : pos 0 ≤ℤ max → expected ≤ℤ pos (length rs * pos_part max))
    (next : ℤ → Dict ℤ → Outcome) where
  -- While machines are wanted, `k` regions in a row can only be full if `k` is not all of them.
  Streak-short :
      (diffs : Dict ℤ) (diff : ℤ) (a k : ℕ)
      → Streak (has_room max current diffs) rs a k
      → pos 0 <ℤ diff
      → totals current diffs rs +ℤ diff ≡ expected
      → k ≤ length rs
      → k < length rs
  Streak-short diffs diff a k full wanted sum le = elim (dec_lt k (length rs)) [
    | yes lt ↦ lt
    | no ge ↦
        let (h, filled) = no_room_fills max current diffs rs some_region (
          All-cycle (λ r. has_room max current diffs r ≡ false) rs a
            (λ d lt. full d (omega (arith, ge, lt)))) in
        absurd (omega (int_laws, fits h, filled, ap pos_part sum, ap neg_part sum))
  ]

  -- A round that gives a machine to the region.
  filled :
      (idx : ℕ) (diff : ℤ) (diffs : Dict ℤ)
      → has_room max current diffs (get_or rs (idx % length rs) "") ≡ true
      → Placed expected max current rs diff diffs
      → Placed expected max current rs (diff -ℤ pos 1) (
          put
            (get_or rs (idx % length rs) "")
            (at diffs (get_or rs (idx % length rs) "") +ℤ pos 1)
            diffs)
  unfolding total
  filled idx diff diffs room p =
      Placed-put expected max current rs idx (diff -ℤ pos 1) (pos 1) _ diffs distinct some_region
        refl
        (omega (int_laws, All-get_or _ rs (idx % length rs) "" p.no_debt (mod-lt idx some_region)))
        (λ h. omega (int_laws, has_room→lt max current diffs _ h room))
        (subst (λ z. Placed expected max current rs z diffs) whole p)
    where
      whole : diff ≡ pos 1 +ℤ (diff -ℤ pos 1)
      whole = omega int_laws

  pub grow_settles :
      (fuel a k idx : ℕ) (diff : ℤ) (diffs : Dict ℤ)
      → idx ≡ a + k
      → Streak (has_room max current diffs) rs a k
      → k ≤ length rs
      → pos 0 ≤ℤ diff
      → Placed expected max current rs diff diffs
      → pos_part diff * length rs + length rs < fuel + k
      → (d' : Dict ℤ) × (grow fuel rs max current next idx diff diffs ≡ next (pos 0) d')
        × Settled expected max current rs d'
  unfolding grow
  grow_settles zero a k idx diff diffs ix full le nonneg placed enough = absurd (omega arith)
  grow_settles (suc fuel) a k idx diff diffs ix full le nonneg placed enough =
      elim (Bool-cases (ltb_ℤ (pos 0) diff)) [
        | inr done ↦
            let over : diff ≡ pos 0 = omega (int_laws, ltb_ℤ→ge (pos 0) diff done) in
            (
              diffs,
              rw done (ap (λ z. next z diffs) over),
              Placed-Settled expected max current rs diff diffs over placed,
            )
        | inl more ↦
            let wanted = ltb_ℤ→lt (pos 0) diff more in
            let short = Streak-short diffs diff a k full wanted placed.sum le in
            rw (more, not_empty)
              (elim (Bool-cases (has_room max current diffs region)) [
                | inl room ↦ rw room (
                    grow_settles fuel (idx + 1) 0 (idx + 1) (diff -ℤ pos 1)
                      (put region (at diffs region +ℤ pos 1) diffs) (omega arith)
                      (Streak-none
                        (has_room max current (put region (at diffs region +ℤ pos 1) diffs)) rs
                        (idx + 1))
                      (omega arith) (omega (int_laws, wanted)) (filled idx diff diffs room placed)
                      (fuel_step (pos_part diff) _ (length rs) fuel k (pos_part-pred diff wanted)
                        enough short))
                | inr none_left ↦ rw none_left (
                    grow_settles fuel a (k + 1) (idx + 1) diff diffs (omega arith)
                      (Streak-next (has_room max current diffs) rs a k idx ix full none_left)
                      (omega (arith, short)) nonneg placed (omega arith))
              ])
      ]
    where
      region : String
      region = get_or rs (idx % length rs) ""

      not_empty : (length rs == 0) ≡ false
      not_empty = ground arith
