-- ===== src/Base/Maps.antt =====
-- Go's maps with text keys, as association lists: one entry for each key.
use Prim.Native.String.{String}
use mathlib.Core.Path.{◌≡◌, refl, sym, subst, ◌∙◌}
use mathlib.Core.Logic.{◌≢◌}
use mathlib.Core.Bool.{Bool, true, false, false≢true}
use mathlib.Core.Option.{Option, none, some}
use mathlib.Core.List.{List, [], ◌∷◌, ◌++◌}
use native.Mathlib.Omega.{arith}
use text.Mathlib.TextEquality.{eq_iff}
use flyctl.Base.Lists.{All}
use flyctl.Base.Tests.{str_eq, if◌then◌else◌}

abbrev pub Dict {ℓ} : Type ℓ → Type ℓ
Dict V = List (String × V)

module _ {ℓ} {V : Type ℓ} where
  -- v, ok := m[k]
  unfoldable pub lookup : String → Dict V → Option V
  lookup k [] = none
  lookup k ((j, v) ∷ m) = if str_eq j k then some v else lookup k m

  -- m[k] = v
  unfoldable pub put : String → V → Dict V → Dict V
  put k v [] = (k, v) ∷ []
  put k v ((j, w) ∷ m) = if str_eq j k then (k, v) ∷ m else (j, w) ∷ put k v m

  pub lookup-put :
      (k j : String) (v : V) (m : Dict V)
      → lookup j (put k v m) ≡ (if str_eq k j then some v else lookup j m)
  unfolding lookup put
  lookup-put k j v [] = refl
  lookup-put k j v ((i, w) ∷ m) =
      ground (arith, eq_iff k j, eq_iff i k, eq_iff i j, lookup-put k j v m)

-- A missing list is read as the empty one.
abbrev pub or_empty : {A : Type 0} → Option (List A) → List A
or_empty none = []
or_empty (some a) = a

-- lo.GroupBy, with the groups found so far.
unfoldable pub group_by : {A : Type 0} → (A → String) → List A → Dict (List A) → Dict (List A)
group_by key [] found = found
group_by key (a ∷ rest) found =
    group_by key rest (put (key a) (or_empty (lookup (key a) found) ++ (a ∷ [])) found)

-- No key has two entries.
abbrev pub Unique : {V : Type 0} → Dict V → Type 0
Unique [] = Unit
Unique ((k, v) ∷ d) = All (λ e. e.0 ≢ k) d × Unique d

module _ {V : Type 0} where
  keys-put :
      (j k : String) (v : V) (d : Dict V)
      → k ≢ j
      → All (λ e. e.0 ≢ j) d
      → All (λ e. e.0 ≢ j) (put k v d)
  unfolding put
  keys-put j k v [] ne h = (ne, tt)
  keys-put j k v ((i, w) ∷ d) ne (h, rest) = by_test (str_eq i k) (keys-put j k v d ne rest)
    where
      by_test :
          (b : Bool)
          → All (λ e. e.0 ≢ j) (put k v d)
          → All (λ e. e.0 ≢ j) (if b then (k, v) ∷ d else (i, w) ∷ put k v d)
      by_test true later = (ne, rest)
      by_test false later = (h, later)

  pub Unique-put : (k : String) (v : V) (d : Dict V) → Unique d → Unique (put k v d)
  unfolding put
  Unique-put k v [] h = (tt, tt)
  Unique-put k v ((i, w) ∷ d) (fresh, h) = by_test (str_eq i k) refl (Unique-put k v d h)
    where
      by_test :
          (b : Bool)
          → str_eq i k ≡ b
          → Unique (put k v d)
          → Unique (if b then (k, v) ∷ d else (i, w) ∷ put k v d)
      by_test true e later = (subst (λ x. All (λ e. e.0 ≢ x) d) ((eq_iff i k).0 e) fresh, h)
      by_test false e later =
          (keys-put i k v d (λ same. false≢true (sym e ∙ (eq_iff i k).1 (sym same))) fresh, later)
