-- ===== src/Scale/Arguments/Valid/Counts.antt =====
-- The count that the text of an argument stands for.
use flyctl.Base.{
  if_holds, ◌≡◌, ◌≢◌, refl, sym, ◌∙◌, ap, arith, false, false≢true, Bool-cases, [], ◌∷◌, Option,
  none, some, ◌⊎◌, inl, inr, ◌==◌, leb, ℕ,
}
use flyctl.Base.Int.{ℤ, pos, neg_part}
use flyctl.Base.Bytes.{Bytes, has_prefix, atoi, scan, in_range, max_int}
use flyctl.Scale.Actions.{GroupCount, is_zero}
use flyctl.Scale.Arguments.{ArgumentError, has_sign, counted}

-- A total that is not negative, or a change that is not zero.
abbrev pub IsCount : GroupCount → Type 0
IsCount c =
    ((c.relative ≡ pos 0) × (neg_part c.absolute ≡ 0))
    ⊎ ((c.absolute ≡ pos 0) × (c.relative ≢ pos 0))

-- A number without a sign is not negative.
abbrev NotBelow : Option ℤ → Type 0
NotBelow none = Unit
NotBelow (some n) = neg_part n ≡ 0

in_range-NotBelow : (o : Option ℕ) → NotBelow (in_range o)
in_range-NotBelow none = tt
in_range-NotBelow (some n) = if_holds NotBelow (leb n max_int) (some (pos n)) none refl tt

atoi-NotBelow : (s : Bytes) → has_sign s ≡ false → NotBelow (atoi s)
unfolding atoi has_sign has_prefix
atoi-NotBelow [] e = tt
atoi-NotBelow (c ∷ []) e = in_range-NotBelow (scan (c ∷ []) 0)
atoi-NotBelow (c ∷ d ∷ s) e =
    let minus : (c == b'-') ≡ false = ground (arith, e) in
    rw minus (
      if_holds NotBelow (c == b'+') (in_range (scan (d ∷ s) 0)) (in_range (scan (c ∷ d ∷ s) 0))
        (in_range-NotBelow (scan (d ∷ s) 0)) (in_range-NotBelow (scan (c ∷ d ∷ s) 0)))

-- A count that is made of a text.
abbrev pub MadeCount : ArgumentError ⊎ GroupCount → Type 0
MadeCount (inl e) = Unit
MadeCount (inr c) = IsCount c

not_zero : (n : ℤ) → is_zero n ≡ false → n ≢ pos 0
not_zero n e same = false≢true (sym e ∙ ap is_zero same)

pub counted-MadeCount : (s : Bytes) → MadeCount (counted s (atoi s))
unfolding counted
counted-MadeCount s = of_number (atoi s) (atoi-NotBelow s)
  where
    of_number : (o : Option ℤ) → (has_sign s ≡ false → NotBelow o) → MadeCount (counted s o)
    of_number none h = tt
    of_number (some n) h = elim (Bool-cases (has_sign s)) [
      | inr plain ↦ rw plain (inl (refl, h plain))
      | inl signed ↦ rw signed (elim (Bool-cases (is_zero n)) [
        | inl zero ↦ rw zero tt
        | inr other ↦ rw other (inr (refl, not_zero n other))
      ])
    ]
