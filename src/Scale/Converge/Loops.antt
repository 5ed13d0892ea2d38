-- ===== src/Scale/Converge/Loops.antt =====
-- What the two loops of `convergeGroupCounts` share.
use native.Mathlib.Nat.{mod-lt}
use native.Mathlib.Decide.{dec_lt}
use flyctl.Base.{
  ◌∙◌, Bool, false, All-get_or, ◌≢◌, ℕ, suc, ◌+◌, ◌*◌, ◌%◌, ◌<◌, String, ◌≡◌, refl, inl, inr, List,
  [], ◌∷◌, subst, ap, arith, Dict, put, length, get_or, All, All-of_get_or, str_eq, Bool-cases,
  eq_iff,
}
use flyctl.Base.Int.{ℤ, pos, pos_part, neg_part, ◌+ℤ◌, ◌≤ℤ◌, int_laws}
use flyctl.Scale.Converge.{at, total}
use flyctl.Scale.Converge.Totals.{
  Distinct, at-put_ne, totals-put, totals, total-put_self, total-put_ne, cycle_meets,
}

-- What holds of the differences when a loop stops.
pub record Settled (expected max : ℤ) (current : Dict ℤ) (rs : List String) (diffs : Dict ℤ)
    : Type 0 where
  pub adds_up : totals current diffs rs ≡ expected
  pub no_debt : All (λ r. pos 0 ≤ℤ total current diffs r) rs
  pub capped : pos 0 ≤ℤ max → All (λ r. total current diffs r ≤ℤ max) rs
  pub elsewhere : (r : String) → All (λ s. s ≢ r) rs → at diffs r ≡ pos 0

-- A predicate that holds at the indices met in a whole cycle holds of every region.
pub All-cycle :
    (P : String → Type 0) (rs : List String) (a : ℕ)
    → ((d : ℕ) → d < length rs → P (get_or rs ((a + d) % length rs) ""))
    → All P rs
All-cycle P rs a h = All-of_get_or P rs "" λ i lt.
    let (d, below, meets) = cycle_meets (length rs) a i lt in
    subst (λ x. P (get_or rs x "")) meets (h d below)

-- A change at one region keeps a property of the totals that its new total has.
pub All-put :
    (Q : ℤ → Type 0) (current diffs : Dict ℤ) (k : String) (v : ℤ) (rs : List String)
    → Q (at current k +ℤ v)
    → All (λ r. Q (total current diffs r)) rs
    → All (λ r. Q (total current (put k v diffs) r)) rs
All-put Q current diffs k v [] new old = tt
All-put Q current diffs k v (r ∷ rs) new old = (
  elim (Bool-cases (str_eq k r)) [
    | inl same ↦
        subst (λ x. Q (total current (put k v diffs) x)) ((eq_iff k r).0 same)
          (rw (total-put_self current diffs k v) new)
    | inr other ↦ rw (total-put_ne current diffs k v r (λ e. cc (other, (eq_iff k r).1 e))) old.0
  ],
  All-put Q current diffs k v rs new old.1,
)

-- The fuel left after a round that placed or took a machine.
pub fuel_step :
    (p q n fuel k : ℕ) → q + 1 ≡ p → p * n + n < suc fuel + k → k < n → q * n + n < fuel + 0
fuel_step p q n fuel k e enough short = omega (arith, ap (λ (t : ℕ). t * n) e)

-- The regions that a loop has met in a row, from the index `a` on, and that fail its test.
abbrev pub Streak : (String → Bool) → List String → ℕ → ℕ → Type 0
Streak test rs a k = (d : ℕ) → d < k → test (get_or rs ((a + d) % length rs) "") ≡ false

pub Streak-none : (test : String → Bool) (rs : List String) (a : ℕ) → Streak test rs a 0
Streak-none test rs a d lt = absurd (omega (arith, lt))

pub Streak-next :
    (test : String → Bool) (rs : List String) (a k idx : ℕ)
    → idx ≡ a + k
    → Streak test rs a k
    → test (get_or rs (idx % length rs) "") ≡ false
    → Streak test rs a (k + 1)
Streak-next test rs a k idx ix before now d lt = elim (dec_lt d k) [
  | yes old ↦ before d old
  | no new ↦ let e : a + d ≡ idx = omega (arith, lt, new) in rw e now
]

-- What holds of the differences while `diff` machines are still to be placed, or taken away.
pub record Placed (expected max : ℤ) (current : Dict ℤ) (rs : List String) (diff : ℤ)
    (diffs : Dict ℤ) : Type 0 where
  pub sum : totals current diffs rs +ℤ diff ≡ expected
  pub no_debt : All (λ r. pos 0 ≤ℤ total current diffs r) rs
  pub capped : pos 0 ≤ℤ max → All (λ r. total current diffs r ≤ℤ max) rs
  pub elsewhere : (r : String) → All (λ s. s ≢ r) rs → at diffs r ≡ pos 0

module _ (expected max : ℤ) (current : Dict ℤ) (rs : List String) where
  pub Placed-Settled :
      (diff : ℤ) (diffs : Dict ℤ)
      → diff ≡ pos 0
      → Placed expected max current rs diff diffs
      → Settled expected max current rs diffs
  Placed-Settled diff diffs done p = record {
    adds_up =
        omega (int_laws, ap pos_part p.sum, ap neg_part p.sum, ap pos_part done, ap neg_part done);
    no_debt = p.no_debt;
    capped = p.capped;
    elsewhere = p.elsewhere;
  }

  -- A round that adds `e` machines to a region that can take them.
  pub Placed-put :
      (idx : ℕ) (diff e v : ℤ) (diffs : Dict ℤ)
      → Distinct rs
      → 0 < length rs
      → v ≡ at diffs (get_or rs (idx % length rs) "") +ℤ e
      → pos 0 ≤ℤ at current (get_or rs (idx % length rs) "") +ℤ v
      → (pos 0 ≤ℤ max → at current (get_or rs (idx % length rs) "") +ℤ v ≤ℤ max)
      → Placed expected max current rs (e +ℤ diff) diffs
      → Placed expected max current rs diff (put (get_or rs (idx % length rs) "") v diffs)
  Placed-put idx diff e v diffs distinct some_region ev least most p = record {
    sum =
        rw
          (totals-put current diffs region v e rs (idx % length rs) ev refl distinct
            (mod-lt idx some_region))
          (omega (int_laws, ap pos_part p.sum, ap neg_part p.sum));
    no_debt = All-put (λ z. pos 0 ≤ℤ z) current diffs region v rs least p.no_debt;
    capped = λ h. All-put (λ z. z ≤ℤ max) current diffs region v rs (most h) (p.capped h);
    elsewhere = λ r out.
        at-put_ne region r v diffs
          (All-get_or _ rs (idx % length rs) "" out (mod-lt idx some_region))
        ∙ p.elsewhere r out;
  }
    where
      region : String
      region = get_or rs (idx % length rs) ""
