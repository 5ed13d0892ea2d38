-- ===== src/Scale/Converge/Correct/Trim.antt =====
-- The loop that trims regions above the maximum.
use flyctl.Base.{
  ℕ, String, ◌≡◌, refl, ◌∙◌, ◌≢◌, inl, inr, true, false, List, [], ◌∷◌, arith, Dict, put, All,
  All-map, All-and, Bool-cases, lookup, eq_iff, sym, subst, All-everywhere,
}
use flyctl.Base.Int.{ℤ, pos, negsuc, ◌-ℤ◌, ◌≤ℤ◌, ltb_ℤ, int_laws, ltb_ℤ→lt, ltb_ℤ→ge}
use flyctl.Scale.Converge.{at, total, trim}
use flyctl.Scale.Converge.Totals.{Distinct, at-put, at-put_ne}

pub at-empty : (r : String) → at [] r ≡ pos 0
unfolding at lookup
at-empty r = refl

-- The trimming of a list leaves the differences of other regions alone.
pub at-trim_ne :
    (max : ℤ) (current diffs : Dict ℤ) (k : String) (rs : List String)
    → All (λ s. s ≢ k) rs
    → at (trim max current rs diffs) k ≡ at diffs k
unfolding trim
at-trim_ne max current diffs k [] out = refl
at-trim_ne max current diffs k (r ∷ rs) out = elim (Bool-cases (ltb_ℤ max (at current r))) [
  | inl over ↦ rw over (
      at-trim_ne max current (put r (max -ℤ at current r) diffs) k rs out.1
      ∙ at-put_ne r k _ diffs out.0)
  | inr fine ↦ rw fine (at-trim_ne max current diffs k rs out.1)
]

trim_over :
    (max : ℤ) (current diffs : Dict ℤ) (r : String) (rs : List String)
    → ltb_ℤ max (at current r) ≡ true
    → trim max current (r ∷ rs) diffs ≡ trim max current rs (put r (max -ℤ at current r) diffs)
unfolding trim
trim_over max current diffs r rs over = rw over

trim_fine :
    (max : ℤ) (current diffs : Dict ℤ) (r : String) (rs : List String)
    → ltb_ℤ max (at current r) ≡ false
    → trim max current (r ∷ rs) diffs ≡ trim max current rs diffs
unfolding trim
trim_fine max current diffs r rs fine = rw fine

-- The new total of a trimmed region is the smaller one of its count and the maximum.
abbrev pub Within : ℤ → Dict ℤ → Dict ℤ → String → Type 0
Within max current diffs r =
    (pos 0 ≤ℤ total current diffs r)
    × (total current diffs r ≤ℤ max)
    × (total current diffs r ≤ℤ at current r)

trim-Within :
    (m : ℕ) (current diffs : Dict ℤ) (rs : List String)
    → Distinct rs
    → All (λ r. pos 0 ≤ℤ at current r) rs
    → All (λ r. at diffs r ≡ pos 0) rs
    → All (Within (pos m) current (trim (pos m) current rs diffs)) rs
unfolding total
trim-Within m current diffs [] distinct counts clean = tt
trim-Within m current diffs (r ∷ rs) distinct counts clean =
    elim (Bool-cases (ltb_ℤ (pos m) (at current r))) [
      | inl over ↦
          let d = put r (pos m -ℤ at current r) diffs in
          let above = ltb_ℤ→lt (pos m) (at current r) over in
          let here : at (trim (pos m) current rs d) r ≡ pos m -ℤ at current r =
            at-trim_ne (pos m) current d r rs (All-map _ _ rs (λ s ne e. ne (sym e)) distinct.0)
            ∙ at-put r r _ diffs
            ∙ rw ((eq_iff r r).1 refl) in
          subst (λ d'. All (Within (pos m) current d') (r ∷ rs))
            (sym (trim_over (pos m) current diffs r rs over))
            (
              (
                rw here (omega int_laws),
                rw here (omega int_laws),
                rw here (omega (int_laws, above)),
              ),
              trim-Within m current d rs distinct.1 counts.1
                  (cleaned d (λ s ne. at-put_ne r s _ diffs ne)),
            )
      | inr fine ↦
          let below = ltb_ℤ→ge (pos m) (at current r) fine in
          let here : at (trim (pos m) current rs diffs) r ≡ pos 0 =
            at-trim_ne (pos m) current diffs r rs (All-map _ _ rs (λ s ne e. ne (sym e)) distinct.0)
            ∙ clean.0 in
          subst (λ d'. All (Within (pos m) current d') (r ∷ rs))
            (sym (trim_fine (pos m) current diffs r rs fine))
            (
              (
                rw here (omega (int_laws, counts.0)),
                rw here (omega (int_laws, below)),
                rw here (omega int_laws),
              ),
              trim-Within m current diffs rs distinct.1 counts.1 clean.1,
            )
    ]
  where
    cleaned :
        (d : Dict ℤ) → ((s : String) → r ≢ s → at d s ≡ at diffs s) → All (λ s. at d s ≡ pos 0) rs
    cleaned d same = All-and _ _ _ (λ s ne z. same s ne ∙ z) rs distinct.0 clean.1

pub total-empty : (current : Dict ℤ) (r : String) → total current [] r ≡ at current r
unfolding total
total-empty current r = rw at-empty (omega int_laws)

pub trimmed :
    (max : ℤ) (current : Dict ℤ) (rs : List String)
    → pos 0 ≤ℤ max
    → Distinct rs
    → All (λ r. pos 0 ≤ℤ at current r) rs
    → All (Within max current (trim max current rs [])) rs
trimmed (pos m) current rs h distinct counts =
    trim-Within m current [] rs distinct counts (All-everywhere (λ r. at [] r ≡ pos 0) rs at-empty)
trimmed (negsuc m) current rs h distinct counts = absurd (omega (arith, h))
