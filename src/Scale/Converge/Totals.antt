-- ===== src/Scale/Converge/Totals.antt =====
-- The machines of each region and of all regions, with the planned differences counted in.
use native.Mathlib.Nat.{mod-lt, add-mod-mod, mod-add-mod, add-mod_right, mod-eq_of_lt}
use flyctl.Base.{
  ℕ, zero, suc, ◌+◌, ◌%◌, ◌<◌, String, ◌≡◌, refl, ◌≢◌, ◌∙◌, ◌-◌, ap, subst, All-get_or, List, [],
  ◌∷◌, arith, Dict, put, lookup-put, eq_iff, length, get_or, All, str_eq, if◌then◌else◌, sym,
}
use flyctl.Base.Int.{ℤ, pos, ◌+ℤ◌, ◌-ℤ◌, int_laws}
use flyctl.Scale.Converge.{at, total, remaining}

-- No region is listed twice.
abbrev pub Distinct : List String → Type 0
Distinct [] = Unit
Distinct (r ∷ rs) = All (λ s. r ≢ s) rs × Distinct rs

-- The machines in all regions of a list.
unfoldable pub totals : Dict ℤ → Dict ℤ → List String → ℤ
totals current diffs [] = pos 0
totals current diffs (r ∷ rs) = total current diffs r +ℤ totals current diffs rs

pub at-put :
    (k j : String) (v : ℤ) (m : Dict ℤ) → at (put k v m) j ≡ (if str_eq k j then v else at m j)
unfolding at
at-put k j v m = ground (arith, lookup-put k j v m)

pub at-put_ne : (k j : String) (v : ℤ) (m : Dict ℤ) → k ≢ j → at (put k v m) j ≡ at m j
at-put_ne k j v m ne = rw at-put (ground (arith, eq_iff k j))

pub remaining-totals :
    (current diffs : Dict ℤ) (rs : List String) (diff : ℤ)
    → remaining current diffs rs diff ≡ diff -ℤ totals current diffs rs
unfolding remaining totals
remaining-totals current diffs [] diff = omega int_laws
remaining-totals current diffs (r ∷ rs) diff =
    remaining-totals current diffs rs (diff -ℤ total current diffs r) ∙ omega int_laws

module _ (current diffs : Dict ℤ) (k : String) (v : ℤ) where
  pub total-put_self : total current (put k v diffs) k ≡ at current k +ℤ v
  unfolding total
  total-put_self = rw at-put (ground (arith, eq_iff k k))

  pub total-put_ne : (r : String) → k ≢ r → total current (put k v diffs) r ≡ total current diffs r
  unfolding total
  total-put_ne r ne = rw at-put (ground (arith, eq_iff k r))

  pub totals-put_ne :
      (rs : List String)
      → All (λ s. k ≢ s) rs
      → totals current (put k v diffs) rs ≡ totals current diffs rs
  unfolding totals
  totals-put_ne [] h = refl
  totals-put_ne (r ∷ rs) h = rw (total-put_ne r h.0, totals-put_ne rs h.1)

  pub totals-put :
      (e : ℤ) (rs : List String) (i : ℕ)
      → v ≡ at diffs k +ℤ e
      → get_or rs i "" ≡ k
      → Distinct rs
      → i < length rs
      → totals current (put k v diffs) rs ≡ totals current diffs rs +ℤ e
  unfolding totals
  totals-put e [] i ev ek distinct lt = absurd (omega arith)
  totals-put e (r ∷ rs) zero ev ek distinct lt =
      let same : All (λ s. k ≢ s) rs = subst (λ x. All (λ s. x ≢ s) rs) ek distinct.0 in
      rw (ek, totals-put_ne rs same, total-put_self, ev) (unfold total in omega int_laws)
  totals-put e (r ∷ rs) (suc i) ev ek distinct lt =
      let ne : k ≢ r =
        λ q. All-get_or (λ s. r ≢ s) rs i "" distinct.0 (omega arith) (sym (ek ∙ q)) in
      rw (total-put_ne r ne, totals-put e rs i ev ek distinct.1 (omega arith)) (omega int_laws)

-- The indices `(a + d) % n` for `d` below `n` meet each index.
pub cycle_meets : (n a i : ℕ) → i < n → (d : ℕ) × (d < n) × ((a + d) % n ≡ i)
cycle_meets n a i lt = ((i + n - a % n) % n, mod-lt _ (omega arith), meets)
  where
    below : a % n < n
    below = mod-lt a (omega arith)

    meets : (a + (i + n - a % n) % n) % n ≡ i
    meets =
        add-mod-mod a (i + n - a % n) n
        ∙ sym (mod-add-mod a n (i + n - a % n))
        ∙ ap (λ x. x % n) (let e : a % n + (i + n - a % n) ≡ i + n = omega (arith, below) in e)
        ∙ add-mod_right i n
        ∙ mod-eq_of_lt lt
