-- ===== src/Rollout/Pool/Taken.antt =====
-- A task that is taken out of a list, and a pool that has no task left.
use flyctl.Base.{
  arith, ◌≡◌, ◌≤◌, refl, ap, ℕ, zero, suc, ◌+◌, Bool, Option, none, some, List, [], ◌∷◌, length,
  if◌then◌else◌, IfSome, true,
}
use flyctl.Plan.Checks.{Fault}
use flyctl.Rollout.Pool.{Pool, push_taken, take_nth, wait_result}

module _ {E : Type 0} where
  -- How many entries pass a test.
  abbrev pub count : (E → Bool) → List E → ℕ
  count test [] = 0
  count test (e ∷ es) = (if test e then 1 else 0) + count test es

  taken_rest :
      (P : E × List E → Type 0) (e : E) (o : Option (E × List E))
      → IfSome (λ (t : E × List E). P (t.0, e ∷ t.1)) o
      → IfSome P (push_taken e o)
  taken_rest P e none h = tt
  taken_rest P e (some (x, rest)) h = h

  pub length-take_nth :
      (i : ℕ) (es : List E)
      → IfSome (λ (t : E × List E). length es ≡ suc (length t.1)) (take_nth i es)
  unfolding take_nth
  length-take_nth i [] = tt
  length-take_nth zero (e ∷ es) = refl
  length-take_nth (suc i) (e ∷ es) =
      taken_rest (λ t. suc (length es) ≡ suc (length t.1)) e (take_nth i es)
        (suc_later (take_nth i es) (length-take_nth i es))
    where
      suc_later :
          (o : Option (E × List E))
          → IfSome (λ (t : E × List E). length es ≡ suc (length t.1)) o
          → IfSome (λ (t : E × List E). suc (length es) ≡ suc (suc (length t.1))) o
      suc_later none h = tt
      suc_later (some t) h = ap suc h

  pub count-take_nth :
      (test : E → Bool) (i : ℕ) (es : List E)
      → IfSome (λ (t : E × List E). count test es ≡ count test (t.0 ∷ t.1)) (take_nth i es)
  unfolding take_nth
  count-take_nth test i [] = tt
  count-take_nth test zero (e ∷ es) = refl
  count-take_nth test (suc i) (e ∷ es) =
      taken_rest (λ t. count test (e ∷ es) ≡ count test (t.0 ∷ t.1)) e (take_nth i es)
        (more_later (take_nth i es) (count-take_nth test i es))
    where
      more_later :
          (o : Option (E × List E))
          → IfSome (λ (t : E × List E). count test es ≡ count test (t.0 ∷ t.1)) o
          → IfSome (λ (t : E × List E). count test (e ∷ es) ≡ count test (t.0 ∷ e ∷ t.1)) o
      more_later none h = tt
      more_later (some t) h = omega (arith, h)

pub count-all : {E : Type 0} (es : List E) → count (λ e. true) es ≡ length es
count-all [] = refl
count-all (e ∷ es) = omega (arith, count-all es)

pub count-below : {E : Type 0} (test : E → Bool) (es : List E) → count test es ≤ length es
count-below test [] = omega arith
count-below test (e ∷ es) = ground (arith, count-below test es)

-- A pool that has ended has no task left.
pub wait_result-ended :
    {W E : Type 0} (p : Pool W E) (errors : List Fault)
    → wait_result p ≡ some errors
    → (p.waiting ≡ []) × (p.running ≡ []) × (p.faults ≡ errors)
unfolding wait_result
wait_result-ended {W} {E} p errors e = by_lists p.waiting p.running refl refl e
  where
    by_lists :
        (waiting running : List E)
        → p.waiting ≡ waiting
        → p.running ≡ running
        → (elim waiting as (λ x. Option (List Fault)) [
          | e ∷ es ↦ none
          | [] ↦ (elim running as (λ x. Option (List Fault)) [ e ∷ es ↦ none | [] ↦ some p.faults ])
        ])
          ≡ some errors
        → (p.waiting ≡ []) × (p.running ≡ []) × (p.faults ≡ errors)
    by_lists (x ∷ xs) running h k e = absurd (cc e)
    by_lists [] (x ∷ xs) h k e = absurd (cc e)
    by_lists [] [] h k e = (h, k, cc e)
