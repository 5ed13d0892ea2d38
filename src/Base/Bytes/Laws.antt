-- ===== src/Base/Bytes/Laws.antt =====
-- What splitting finds in a text that was put together.
use Prim.Native.Nat.{ℕ, zero, suc}
use mathlib.Core.Path.{◌≡◌, refl, subst}
use mathlib.Core.Logic.{◌≢◌, ◌↔◌, inl, inr}
use mathlib.Core.Bool.{true, false, false≢true}
use flyctl.Base.Tests.{Bool-cases}
use mathlib.Core.List.{[], ◌∷◌, ◌++◌}
use mathlib.Core.Option.{none, some}
use native.Mathlib.Omega.{arith}
use flyctl.Base.Lists.{All}
use flyctl.Base.Bytes.{Bytes, bytes_eq, cut, cut_last, split_n, split}

bytes_eq-same : (s : Bytes) → bytes_eq s s ≡ true
unfolding bytes_eq
bytes_eq-same [] = refl
bytes_eq-same (a ∷ s) = ground (arith, bytes_eq-same s)

eq_of_bytes_eq : (s t : Bytes) → bytes_eq s t ≡ true → s ≡ t
unfolding bytes_eq
eq_of_bytes_eq [] [] e = refl
eq_of_bytes_eq [] (b ∷ t) e = absurd (false≢true e)
eq_of_bytes_eq (a ∷ s) [] e = absurd (false≢true e)
eq_of_bytes_eq (a ∷ s) (b ∷ t) e = ground (arith, eq_of_bytes_eq s t)

pub bytes_eq_iff : (s t : Bytes) → (bytes_eq s t ≡ true) ↔ (s ≡ t)
bytes_eq_iff s t = (eq_of_bytes_eq s t, λ e. subst (λ u. bytes_eq s u ≡ true) e (bytes_eq-same s))

pub bytes_eq-other : (s t : Bytes) → s ≢ t → bytes_eq s t ≡ false
bytes_eq-other s t other = elim (Bool-cases (bytes_eq s t)) [
  | inl e ↦ absurd (other ((bytes_eq_iff s t).0 e))
  | inr e ↦ e
]

-- The byte does not occur.
abbrev pub Free : ℕ → Bytes → Type 0
Free c s = All (λ x. x ≢ c) s

pub Free-append : (c : ℕ) (s t : Bytes) → Free c s → Free c t → Free c (s ++ t)
Free-append c [] t h k = k
Free-append c (x ∷ s) t h k = (h.0, Free-append c s t h.1 k)

module _ (sep : ℕ) where
  pub cut_found : (a b : Bytes) → Free sep a → cut sep (a ++ (sep ∷ b)) ≡ some (a, b)
  unfolding cut
  cut_found [] b h = ground arith
  cut_found (c ∷ a) b h = ground (arith, cut_found a b h.1)

  pub cut_missing : (a : Bytes) → Free sep a → cut sep a ≡ none
  unfolding cut
  cut_missing [] h = refl
  cut_missing (c ∷ a) h = ground (arith, cut_missing a h.1)

  pub cut_last_missing : (a : Bytes) → Free sep a → cut_last sep a ≡ none
  unfolding cut_last
  cut_last_missing [] h = refl
  cut_last_missing (c ∷ a) h = rw (cut_last_missing a h.1) (ground arith)

  pub cut_last_found : (a b : Bytes) → Free sep b → cut_last sep (a ++ (sep ∷ b)) ≡ some (a, b)
  unfolding cut_last
  cut_last_found [] b h = rw (cut_last_missing b h) (ground arith)
  cut_last_found (c ∷ a) b h = rw (cut_last_found a b h)

  pub split_missing : (a : Bytes) → Free sep a → split sep a ≡ a ∷ []
  unfolding split
  split_missing [] h = refl
  split_missing (c ∷ a) h = rw (split_missing a h.1) (ground arith)

  pub split_found : (a b : Bytes) → Free sep a → split sep (a ++ (sep ∷ b)) ≡ a ∷ split sep b
  unfolding split
  split_found [] b h = ground arith
  split_found (c ∷ a) b h = rw (split_found a b h.1) (ground arith)

  pub split_n_missing : (n : ℕ) (a : Bytes) → Free sep a → split_n n sep a ≡ a ∷ []
  unfolding split_n
  split_n_missing zero a h = refl
  split_n_missing (suc n) a h = rw (cut_missing a h, split_n)

  pub split_n_found :
      (n : ℕ) (a b : Bytes)
      → Free sep a
      → split_n (suc n) sep (a ++ (sep ∷ b)) ≡ a ∷ split_n n sep b
  unfolding split_n
  split_n_found n a b h = rw (cut_found a b h, split_n)
