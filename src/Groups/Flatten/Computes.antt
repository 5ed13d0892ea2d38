-- ===== src/Groups/Flatten/Computes.antt =====
-- Which [[vm]] section a process group gets.
use flyctl.Base.{
  arith, eq_iff, All, Any, ◌≡◌, ◌≢◌, ◌∙◌, ◌⊎◌, inl, inr, refl, sym, ap, subst, String, Bool, true,
  false, ◌||◌, Option, none, some, List, [], ◌∷◌, if◌then◌else◌, Bool-cases, false≢true,
}
use flyctl.Groups.Names.{Compute, Config, has_name, group_or_default, flatten_groups_match}
use flyctl.Groups.Names.Matching.{groups_match-IsFor, IsFor}
use flyctl.Groups.Flatten.{candidates, is_everywhere, names_group, compute_for_group, IsMaxBy}

everywhere_empty : (xs : List String) → is_everywhere xs ≡ true → xs ≡ []
everywhere_empty [] e = refl
everywhere_empty (x ∷ xs) e = absurd (false≢true e)

module _ {D : Type 0} where
  -- A [[vm]] section is for all groups, or it names the group, or stands for the default group.
  abbrev pub Applies : Config D → String → Compute D → Type 0
  Applies c g x = (x.groups ≡ []) ⊎ IsFor c x.groups g

  -- What ComputeForGroup promises: the section applies to the group, and it names the group if one does.
  abbrev pub Fits : Config D → String → Option (Compute D) → Type 0
  Fits c g none = ¬ Any (Applies c g) c.vms
  Fits c g (some x) =
      Any (λ y. (y ≡ x) × Applies c g y) c.vms
      × ((has_name x.groups g ≡ true) ⊎ (¬ Any (λ y. has_name y.groups g ≡ true) c.vms))

  Applies-test :
      (c : Config D) (g : String) (x : Compute D)
      → g ≢ ""
      → ((is_everywhere x.groups || flatten_groups_match c g x.groups) ≡ true)
      → Applies c g x
  Applies-test c g x h e = by_test (is_everywhere x.groups) refl e
    where
      by_test :
          (b : Bool)
          → is_everywhere x.groups ≡ b
          → (b || flatten_groups_match c g x.groups) ≡ true
          → Applies c g x
      by_test true k e = inl (everywhere_empty x.groups k)
      by_test false k e = inr ((groups_match-IsFor c g x.groups h).0 e)

  test_of_Applies :
      (c : Config D) (g : String) (x : Compute D)
      → g ≢ ""
      → Applies c g x
      → (is_everywhere x.groups || flatten_groups_match c g x.groups) ≡ true
  test_of_Applies c g x h (inl e) = ap (λ xs. is_everywhere xs || flatten_groups_match c g xs) e
  test_of_Applies c g x h (inr k) =
      let m = (groups_match-IsFor c g x.groups h).1 k in ground (arith, m)

  -- The candidates are the sections that apply.
  Any-candidates :
      (c : Config D) (g : String) (P : Compute D → Type 0) (xs : List (Compute D))
      → g ≢ ""
      → Any P (candidates c g xs)
      → Any (λ x. P x × Applies c g x) xs
  unfolding candidates
  Any-candidates c g P [] h a = absurd a
  Any-candidates c g P (x ∷ xs) h a = by_test _ refl a (λ b. Any-candidates c g P xs h b)
    where
      by_test :
          (b : Bool)
          → (is_everywhere x.groups || flatten_groups_match c g x.groups) ≡ b
          → Any P (if b then x ∷ candidates c g xs else candidates c g xs)
          → (Any P (candidates c g xs) → Any (λ x. P x × Applies c g x) xs)
          → Any (λ x. P x × Applies c g x) (x ∷ xs)
      by_test true e (inl p) k = inl (p, Applies-test c g x h e)
      by_test true e (inr p) k = inr (k p)
      by_test false e p k = inr (k p)

  Any-of_candidates :
      (c : Config D) (g : String) (P : Compute D → Type 0) (xs : List (Compute D))
      → g ≢ ""
      → Any (λ x. P x × Applies c g x) xs
      → Any P (candidates c g xs)
  unfolding candidates
  Any-of_candidates c g P [] h a = absurd a
  Any-of_candidates c g P (x ∷ xs) h (inl (p, k)) =
      subst (λ b. Any P (if b then x ∷ candidates c g xs else candidates c g xs))
        (sym (test_of_Applies c g x h k)) (inl p)
  Any-of_candidates c g P (x ∷ xs) h (inr a) = by_test _ (Any-of_candidates c g P xs h a)
    where
      by_test :
          (b : Bool)
          → Any P (candidates c g xs)
          → Any P (if b then x ∷ candidates c g xs else candidates c g xs)
      by_test true p = inr p
      by_test false p = p

Any-imp :
    {A : Type 0} (P Q : A → Type 0) (xs : List A) → ((x : A) → P x → Q x) → Any P xs → Any Q xs
Any-imp P Q [] f a = absurd a
Any-imp P Q (x ∷ xs) f (inl p) = inl (f x p)
Any-imp P Q (x ∷ xs) f (inr a) = inr (Any-imp P Q xs f a)

Any-All :
    {A : Type 0} (P Q : A → Type 0) (R : Type 0) (xs : List A)
    → ((x : A) → P x → Q x → R)
    → Any P xs
    → All Q xs
    → R
Any-All P Q R [] f a h = absurd a
Any-All P Q R (x ∷ xs) f (inl p) h = f x p h.0
Any-All P Q R (x ∷ xs) f (inr a) h = Any-All P Q R xs f a h.1

module _ {D : Type 0}
    (max_by : (Compute D → Compute D → Bool) → List (Compute D) → Option (Compute D))
    (maximal : IsMaxBy max_by) where
  -- The maximum of no element, and of one.
  pub max_by-none : (g : String) → max_by (names_group g) [] ≡ none
  max_by-none g = elim (maximal g []) [ inl e ↦ e.1 | inr (x, e, here, best) ↦ absurd here ]

  pub max_by-one : (g : String) (x : Compute D) → max_by (names_group g) (x ∷ []) ≡ some x
  max_by-one g x = elim (maximal g (x ∷ [])) [
    | inl e ↦ absurd (cc e.0)
    | inr (y, e, here, best) ↦ e ∙ ap (λ z. some z) (sym (only here))
  ]
    where
      only : {y : Compute D} → (x ≡ y) ⊎ ⊥ → x ≡ y
      only (inl e) = e
      only (inr e) = absurd e

  -- For a group that has a name, ComputeForGroup gives no section if none applies to the group, and
  -- otherwise one that applies, and that names the group if some section does; for a MaxBy that
  -- gives an element than which none is better.
  pub compute_for_group-Fits :
      (c : Config D) (g : String) → g ≢ "" → Fits c g (compute_for_group max_by c g)
  unfolding compute_for_group
  compute_for_group-Fits c g h =
      subst (λ k. Fits c g (max_by (names_group k) (candidates c k c.vms))) (sym same)
        (by_maximum (maximal g (candidates c g c.vms)))
    where
      same : group_or_default c g ≡ g
      same = ground (arith, h, eq_iff g "")

      applying : Any (Applies c g) c.vms → Any (λ y. Unit × Applies c g y) c.vms
      applying a = Any-imp (Applies c g) (λ y. Unit × Applies c g y) c.vms (λ y k. (tt, k)) a

      naming :
          (x : Compute D)
          → All
              (λ y. (names_group g y x ≡ false) ⊎ (names_group g x y ≡ true))
              (candidates c g c.vms)
          → has_name x.groups g ≡ false
          → ¬ Any (λ y. has_name y.groups g ≡ true) c.vms
      naming x best e a =
          Any-All (λ y. has_name y.groups g ≡ true) _ ⊥ (candidates c g c.vms)
            (λ y p q. worse y p q)
            (Any-of_candidates c g (λ y. has_name y.groups g ≡ true) c.vms h
              (Any-imp (λ y. has_name y.groups g ≡ true) _ c.vms (λ y k. (k, inr (inl k))) a))
            best
        where
          worse :
              (y : Compute D)
              → has_name y.groups g ≡ true
              → (has_name y.groups g ≡ false) ⊎ (has_name x.groups g ≡ true)
              → ⊥
          worse y p (inl q) = false≢true (sym q ∙ p)
          worse y p (inr q) = false≢true (sym e ∙ q)

      by_maximum :
          ((candidates c g c.vms ≡ []) × (max_by (names_group g) (candidates c g c.vms) ≡ none))
            ⊎ ((x : Compute D) × (max_by (names_group g) (candidates c g c.vms) ≡ some x)
                × Any (λ y. y ≡ x) (candidates c g c.vms)
                × All
                    (λ y. (names_group g y x ≡ false) ⊎ (names_group g x y ≡ true))
                    (candidates c g c.vms))
          → Fits c g (max_by (names_group g) (candidates c g c.vms))
      by_maximum (inl (empty, e)) = subst (Fits c g) (sym e) (λ a.
          subst (Any (λ y. Unit)) empty (Any-of_candidates c g (λ y. Unit) c.vms h (applying a)))
      by_maximum (inr (x, e, here, best)) = subst (Fits c g) (sym e) (
        Any-candidates c g (λ y. y ≡ x) c.vms h here,
        elim (Bool-cases (has_name x.groups g)) [ inl t ↦ inl t | inr f ↦ inr (naming x best f) ],
      )
