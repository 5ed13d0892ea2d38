-- ===== src/Scale/Actions/Ranges.antt =====
-- The plan takes away no more machines of a region than are there.
use flyctl.Base.{
  Unique, or_empty, arith, eq_iff, All, All-map, All-everywhere, ◌≡◌, ◌≢◌, ◌∙◌, ◌⊎◌, inl, inr, refl,
  sym, ap, subst, ℕ, suc, ◌≤◌, ◌<◌, String, Bool, true, false, Option, none, some, List, [], ◌∷◌,
  str_eq, if◌then◌else◌, Dict, lookup, length, false≢true,
}
use flyctl.Base.Int.{ℤ, pos, neg_part, ◌+ℤ◌, ◌≤ℤ◌, int_laws, one_part}
use flyctl.Scale.Converge.{
  Outcome, returned, max_per_region, at, total, wanted_regions, converge_group_counts,
}
use flyctl.Scale.Converge.Totals.{Distinct}
use flyctl.Scale.Converge.Loops.{Settled}
use flyctl.Scale.Converge.Correct.{rounds, IsRefused, converge_outcome}
use flyctl.Scale.Volumes.{MachineConfig}
use flyctl.Scale.Actions.{
  Machine, PlanItem, over_maximum, planned, not_planned, counts, Volumes, items_of, converged,
  converge,
}
use flyctl.Scale.Actions.Unique.{entries-at, ReturnsUnique, converge-Unique}

-- The number of machines of a region, as a count and as a list.
pub at-counts :
    {A : Type 0} (d : Dict (List A)) (r : String)
    → at (counts d) r ≡ pos (length (or_empty (lookup r d)))
unfolding at lookup counts
at-counts [] r = refl
at-counts ((k, xs) ∷ d) r = by_test (str_eq k r) (at-counts d r)
  where
    by_test :
        (b : Bool)
        → elim (lookup r (counts d)) as (λ x. ℤ) [ none ↦ pos 0 | some n ↦ n ]
          ≡ pos (length (or_empty (lookup r d)))
        → elim (if b then some (pos (length xs)) else lookup r (counts d)) as (λ x. ℤ) [
          | none ↦ pos 0
          | some n ↦ n
        ]
          ≡ pos (length (or_empty (if b then some xs else lookup r d)))
    by_test true h = refl
    by_test false h = h

-- A text is none of a list, or what holds of all of the list holds of it.
elsewhere_or :
    (P : String → Type 0) (r : String) (rs : List String) → All P rs → All (λ s. s ≢ r) rs ⊎ P r
elsewhere_or P r [] h = inl tt
elsewhere_or P r (s ∷ rs) (here, later) = by_test (str_eq s r) refl (elsewhere_or P r rs later)
  where
    by_test :
        (b : Bool) → str_eq s r ≡ b → All (λ x. x ≢ r) rs ⊎ P r → All (λ x. x ≢ r) (s ∷ rs) ⊎ P r
    by_test true e h = inr (subst P ((eq_iff s r).0 e) here)
    by_test false e (inl h) = inl ((λ same. false≢true (sym e ∙ (eq_iff s r).1 same)), h)
    by_test false e (inr h) = inr h

-- No text twice, and not empty if it is made from a list that is not.
abbrev pub IsUniq : (List String → List String) → Type 0
IsUniq uniq = (rs : List String) → Distinct (uniq rs) × (0 < length rs → 0 < length (uniq rs))

wanted_given :
    (keys : Dict ℤ → List String) (current : Dict ℤ) (regions : List String)
    → 0 < length regions
    → wanted_regions keys current regions ≡ regions
unfolding wanted_regions
wanted_given keys current [] h = absurd (omega arith)
wanted_given keys current (r ∷ rs) h = refl

-- How a group is settled: not at all, or with differences that fit.
pub record Fits {A : Type 0} (uniq : List String → List String) (expected : ℤ)
    (by_region : Dict (List A)) (regions : List String) (max : ℤ) (diffs : Dict ℤ) : Type 0 where
  pub settled : Settled expected max (counts by_region) (uniq regions) diffs
  pub unique : Unique diffs

module _ (uniq : List String → List String) (keys : Dict ℤ → List String)
    (documented : IsUniq uniq) where
  pub converge-Fits :
      {A : Type 0} (expected max : ℤ) (by_region : Dict (List A)) (regions : List String)
      → 0 < length regions
      → pos 0 ≤ℤ expected
      → (converge uniq keys expected (counts by_region) regions max ≡ not_planned over_maximum)
        ⊎ ((d : Dict ℤ) × (converge uniq keys expected (counts by_region) regions max ≡ planned d)
            × Fits uniq expected by_region regions max d)
  unfolding converge
  converge-Fits expected max by_region regions some_region wanted =
      by_outcome
        (converge_outcome uniq keys expected max current regions (suc (rounds expected current rs))
          (documented _).0
          (subst (λ x. 0 < length (uniq x)) (sym given) ((documented regions).1 some_region))
          (All-everywhere (λ r. pos 0 ≤ℤ at current r) rs
            (λ r. subst (λ z. pos 0 ≤ℤ z) (sym (at-counts by_region r)) (omega arith)))
          wanted (omega arith))
        (converge-Unique uniq keys (suc (rounds expected current rs)) expected current regions max)
    where
      current : Dict ℤ
      current = counts by_region

      rs : List String
      rs = uniq (wanted_regions keys current regions)

      given : wanted_regions keys current regions ≡ regions
      given = wanted_given keys current regions some_region

      out : Outcome
      out =
          converge_group_counts uniq keys (suc (rounds expected current rs)) expected current
            regions max

      by_outcome :
          (IsRefused expected max rs × (out ≡ max_per_region))
            ⊎ ((¬ IsRefused expected max rs)
                × ((d : Dict ℤ) × (out ≡ returned d) × Settled expected max current rs d))
          → ReturnsUnique out
          → (converged out ≡ not_planned over_maximum)
            ⊎ ((d : Dict ℤ) × (converged out ≡ planned d)
                × Fits uniq expected by_region regions max d)
      by_outcome (inl (over, e)) u = inl (ap converged e)
      by_outcome (inr (fits, (d, e, s))) u = inr (
        d,
        ap converged e,
        record {
          settled = subst (λ x. Settled expected max current (uniq x) d) given s;
          unique = subst ReturnsUnique e u;
        },
      )

-- There are as many machines as the item takes away.
abbrev pub InRange : {V G : Type 0} → PlanItem V G → Type 0
InRange item = neg_part item.delta ≤ length item.machines

taken_away : (a b : ℤ) (n : ℕ) → a ≡ pos n → pos 0 ≤ℤ a +ℤ b → neg_part b ≤ n
taken_away a b n e h = omega (int_laws, one_part b, subst (λ z. pos 0 ≤ℤ z +ℤ b) e h)

module _ {A : Type 0} (uniq : List String → List String) (expected max : ℤ)
    (by_region : Dict (List A)) (regions : List String) (diffs : Dict ℤ) where
  pub Fits-InRange :
      Fits uniq expected by_region regions max diffs
      → All (λ e. neg_part e.1 ≤ length (or_empty (lookup e.0 by_region))) diffs
  unfolding total
  Fits-InRange fits = All-map _ _ diffs in_range (entries-at diffs fits.unique)
    where
      in_range :
          (e : String × ℤ)
          → at diffs e.0 ≡ e.1
          → neg_part e.1 ≤ length (or_empty (lookup e.0 by_region))
      in_range (r, delta) e =
          subst (λ z. neg_part z ≤ length (or_empty (lookup r by_region))) e
            (elim (elsewhere_or (λ s. pos 0 ≤ℤ total (counts by_region) diffs s) r (uniq regions)
              fits.settled.no_debt) [
                | inl out ↦
                    subst (λ z. neg_part z ≤ length (or_empty (lookup r by_region)))
                      (sym (fits.settled.elsewhere r out)) (omega arith)
                | inr in_there ↦
                    taken_away (at (counts by_region) r) (at diffs r) _ (at-counts by_region r)
                      in_there
              ])

module _ {V G : Type 0} where
  pub items_of-InRange :
      (snapshot : Option String) (name : String) (by_region : Dict (List (Machine G)))
      (config : MachineConfig G)
      → (diffs : Dict ℤ) (volumes : Volumes V)
      → All (λ e. neg_part e.1 ≤ length (or_empty (lookup e.0 by_region))) diffs
      → All InRange (items_of snapshot name by_region config diffs volumes).0
  unfolding items_of
  items_of-InRange snapshot name by_region config [] volumes h = tt
  items_of-InRange snapshot name by_region config ((r, delta) ∷ diffs) volumes h =
      (h.0, items_of-InRange snapshot name by_region config diffs _ h.1)
