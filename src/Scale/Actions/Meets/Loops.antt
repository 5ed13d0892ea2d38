-- ===== src/Scale/Actions/Meets/Loops.antt =====
-- What each of the two loops of computeActions asks of the differences of a group, and how it carries
-- that from one group to the next.
use flyctl.Base.{
  Unique, Unique-put, group_by, or_empty, length, ℕ, append-nil, arith, eq_iff, All, ◌≡◌, ◌≢◌, ◌∙◌,
  refl, sym, ap, subst, String, Bool, true, false, Option, none, some, List, [], ◌∷◌, ◌++◌, str_eq,
  if◌then◌else◌, Dict, lookup,
}
use flyctl.Base.Int.{ℤ, pos, pos_part, ◌+ℤ◌, IsInt, wrap_fits}
use flyctl.Scale.Actions.{GroupCount, Machine, PlanItem, expected_counts, is_zero}
use flyctl.Scale.Actions.Ranges.{Fits}
use flyctl.Scale.Actions.Meets.Diffs.{diffs_of, diffs_of-append}

lookup_fresh : {A : Type 0} (g : String) (d : Dict A) → All (λ e. e.0 ≢ g) d → lookup g d ≡ none
unfolding lookup
lookup_fresh g [] h = refl
lookup_fresh g ((k, v) ∷ d) (ne, h) = ground (arith, ne, eq_iff k g, lookup_fresh g d h)

-- The rest of a loop does nothing for the group, if this is its entry.
none_later :
    {A : Type 0} (name g : String) (d : Dict A)
    → All (λ e. e.0 ≢ name) d
    → str_eq name g ≡ true
    → lookup g d ≡ none
none_later name g d fresh e =
    lookup_fresh g d (subst (λ k. All (λ x. x.0 ≢ k) d) ((eq_iff name g).0 e) fresh)

lookup_same :
    {A : Type 0} (name g : String) (d : Dict A) → str_eq name g ≡ true → lookup g d ≡ lookup name d
lookup_same name g d e = ap (λ k. lookup k d) (sym ((eq_iff name g).0 e))

pub group_by-Unique :
    {A : Type 0} (key : A → String) (xs : List A) (d : Dict (List A))
    → Unique d
    → Unique (group_by key xs d)
unfolding group_by
group_by-Unique key [] d h = h
group_by-Unique key (x ∷ xs) d h = group_by-Unique key xs _ (Unique-put (key x) _ d h)

pub expected_counts-Unique :
    {A : Type 0} (groups : Dict (List A)) (wanted : Dict GroupCount)
    → Unique wanted
    → Unique (expected_counts groups wanted)
unfolding expected_counts
expected_counts-Unique groups [] u = tt
expected_counts-Unique groups ((k, c) ∷ cs) (fresh, u) =
    (kept cs fresh, expected_counts-Unique groups cs u)
  where
    kept :
        (ds : Dict GroupCount)
        → All (λ e. e.0 ≢ k) ds
        → All (λ e. e.0 ≢ k) (expected_counts groups ds)
    kept [] h = tt
    kept (d ∷ ds) h = (h.0, kept ds h.1)

-- The number of machines that is asked for, of a group that has so many, and these numbers of all
-- groups that are asked for.
abbrev pub target : GroupCount → ℕ → ℤ
target c existing =
    pos (pos_part (if is_zero c.relative then c.absolute else pos existing +ℤ c.relative))

unfoldable pub targets : {A : Type 0} → Dict (List A) → Dict GroupCount → Dict ℤ
targets groups [] = []
targets groups ((name, c) ∷ cs) =
    (name, target c (length (or_empty (lookup name groups)))) ∷ targets groups cs

-- The sums of the machines of a group and a change are ints.
abbrev pub SumsFit : {A : Type 0} → Dict (List A) → Dict GroupCount → Type 0
SumsFit groups wanted =
    All (λ w. IsInt (pos (length (or_empty (lookup w.0 groups))) +ℤ w.1.relative)) wanted

pub expected_counts-targets :
    {A : Type 0} (groups : Dict (List A)) (wanted : Dict GroupCount)
    → SumsFit groups wanted
    → expected_counts groups wanted ≡ targets groups wanted
unfolding expected_counts targets
expected_counts-targets groups [] h = refl
expected_counts-targets groups ((name, c) ∷ cs) (here, later) =
    rw (wrap_fits _ here, expected_counts-targets groups cs later)

-- The machines of a group by their regions.
abbrev pub regions_of : {G : Type 0} → Option (List (Machine G)) → Dict (List (Machine G))
regions_of none = []
regions_of (some ms) = group_by (λ m. m.region) ms []

module _ {G : Type 0} (uniq : List String → List String) (regions : List String) (max : ℤ) where
  -- What is asked of the differences of a group: none, if nothing is expected of it, and otherwise that
  -- they take its machines to the number that is expected.
  abbrev pub Meets : Option (List (Machine G)) → Option ℤ → Dict ℤ → Type 0
  Meets ms none diffs = diffs ≡ []
  Meets ms (some n) diffs = Fits uniq n (regions_of ms) regions max diffs

  abbrev pub MeetsIf : Bool → Option (List (Machine G)) → ℤ → Dict ℤ → Type 0
  MeetsIf true ms n diffs = Meets ms (some n) diffs
  MeetsIf false ms n diffs = diffs ≡ []

  -- What the first loop does for a group, by its machines, and the second loop, by what is expected.
  abbrev pub OldMeets : String → Dict ℤ → Option (List (Machine G)) → Dict ℤ → Type 0
  OldMeets g expected none diffs = diffs ≡ []
  OldMeets g expected (some ms) diffs = Meets (some ms) (lookup g expected) diffs

  abbrev pub NewMeets : Option (List (Machine G)) → Option ℤ → Dict ℤ → Type 0
  NewMeets (some ms) n diffs = diffs ≡ []
  NewMeets none n diffs = Meets none n diffs

pub new_ends :
    {G : Type 0} (uniq : List String → List String) (regions : List String) (max : ℤ)
    (o : Option (List (Machine G)))
    → NewMeets uniq regions max o none []
new_ends uniq regions max none = refl
new_ends uniq regions max (some ms) = refl

module _ {V G : Type 0} (uniq : List String → List String) (regions : List String) (max : ℤ)
    (g : String) where
  -- The first loop, over groups of which none is there twice.
  module _ (expected : Dict ℤ) where
    abbrev pub OldLoop : Dict (List (Machine G)) → List (PlanItem V G) → Type 0
    OldLoop groups items =
        Unique groups → OldMeets uniq regions max g expected (lookup g groups) (diffs_of g items)

    abbrev pub HereMeets : String → ℤ → List (Machine G) → List (PlanItem V G) → Type 0
    HereMeets name n ms items =
        MeetsIf {G = G} uniq regions max (str_eq name g) (some ms) n (diffs_of g items)

    module _ (name : String) (ms : List (Machine G)) (groups : Dict (List (Machine G))) where
      pub old_left_out :
          (items : List (PlanItem V G))
          → lookup name expected ≡ none
          → OldLoop groups items
          → OldLoop ((name, ms) ∷ groups) items
      unfolding lookup
      old_left_out items none_expected later u =
          by_test (str_eq name g) refl (diffs_of g items) (later u.1)
        where
          by_test :
              (b : Bool)
              → str_eq name g ≡ b
              → (diffs : Dict ℤ) → OldMeets uniq regions max g expected (lookup g groups) diffs
              → OldMeets uniq regions max g expected (if b then some ms else lookup g groups) diffs
          by_test true e diffs k =
              subst (λ o. Meets uniq regions max (some ms) o diffs)
                (sym (lookup_same name g expected e ∙ none_expected))
                (subst (λ o. OldMeets uniq regions max g expected o diffs)
                  (none_later name g groups u.0 e) k)
          by_test false e diffs k = k

      pub old_taken :
          (n : ℤ) (xs ys : List (PlanItem V G))
          → lookup name expected ≡ some n
          → HereMeets name n ms xs
          → OldLoop groups ys
          → OldLoop ((name, ms) ∷ groups) (xs ++ ys)
      unfolding lookup
      old_taken n xs ys f here later u =
          subst (OldMeets uniq regions max g expected (lookup g ((name, ms) ∷ groups)))
            (sym (diffs_of-append g xs ys))
            (by_test (str_eq name g) refl (diffs_of g xs) (diffs_of g ys) here (later u.1))
        where
          by_test :
              (b : Bool)
              → str_eq name g ≡ b
              → (xs ys : Dict ℤ) → MeetsIf {G = G} uniq regions max b (some ms) n xs
              → OldMeets uniq regions max g expected (lookup g groups) ys
              → OldMeets uniq regions max g expected
                  (if b then some ms else lookup g groups)
                  (xs ++ ys)
          by_test true e xs ys here later =
              subst (λ o. Meets uniq regions max (some ms) o (xs ++ ys))
                (sym (lookup_same name g expected e ∙ f))
                (subst (Fits uniq n (regions_of (some ms)) regions max)
                  (sym (append-nil xs)
                    ∙ ap (λ l. xs ++ l)
                        (sym (
                          subst (λ o. OldMeets uniq regions max g expected o ys)
                            (none_later name g groups u.0 e) later)))
                  here)
          by_test false e xs ys here later =
              subst (λ l. OldMeets uniq regions max g expected (lookup g groups) (l ++ ys))
                (sym here) later

  -- The second loop, over what is expected, with no group twice.
  module _ (seen : Dict (List (Machine G))) where
    abbrev pub NewLoop : Dict ℤ → List (PlanItem V G) → Type 0
    NewLoop expected items =
        Unique expected
        → NewMeets uniq regions max (lookup g seen) (lookup g expected) (diffs_of g items)

    abbrev pub NewHere : String → ℤ → List (PlanItem V G) → Type 0
    NewHere name n items =
        MeetsIf {G = G} uniq regions max (str_eq name g) none n (diffs_of g items)

    module _ (name : String) (n : ℤ) (expected : Dict ℤ) where
      pub new_left_out :
          (ms : List (Machine G)) (items : List (PlanItem V G))
          → lookup name seen ≡ some ms
          → NewLoop expected items
          → NewLoop ((name, n) ∷ expected) items
      unfolding lookup
      new_left_out ms items f later u = by_test (str_eq name g) refl (diffs_of g items) (later u.1)
        where
          by_test :
              (b : Bool)
              → str_eq name g ≡ b
              → (diffs : Dict ℤ)
              → NewMeets uniq regions max (lookup g seen) (lookup g expected) diffs
              → NewMeets uniq regions max
                  (lookup g seen)
                  (if b then some n else lookup g expected)
                  diffs
          by_test true e diffs k =
              subst (λ o. NewMeets uniq regions max o (some n) diffs)
                (sym (lookup_same name g seen e ∙ f))
                (subst (λ o. NewMeets uniq regions max o (lookup g expected) diffs)
                  (lookup_same name g seen e ∙ f) k)
          by_test false e diffs k = k

      pub new_taken :
          (xs ys : List (PlanItem V G))
          → lookup name seen ≡ none
          → NewHere name n xs
          → NewLoop expected ys
          → NewLoop ((name, n) ∷ expected) (xs ++ ys)
      unfolding lookup
      new_taken xs ys f here later u =
          subst (NewMeets uniq regions max (lookup g seen) (lookup g ((name, n) ∷ expected)))
            (sym (diffs_of-append g xs ys))
            (by_test (str_eq name g) refl (diffs_of g xs) (diffs_of g ys) here (later u.1))
        where
          by_test :
              (b : Bool)
              → str_eq name g ≡ b
              → (xs ys : Dict ℤ) → MeetsIf {G = G} uniq regions max b none n xs
              → NewMeets uniq regions max (lookup g seen) (lookup g expected) ys
              → NewMeets uniq regions max
                  (lookup g seen)
                  (if b then some n else lookup g expected)
                  (xs ++ ys)
          by_test true e xs ys here later =
              subst (λ o. NewMeets uniq regions max o (some n) (xs ++ ys))
                (sym (lookup_same name g seen e ∙ f))
                (subst (Fits uniq n (regions_of none) regions max)
                  (sym (append-nil xs) ∙ ap (λ l. xs ++ l) (sym nothing_later)) here)
            where
              nothing_later : ys ≡ []
              nothing_later =
                  subst (λ o. NewMeets uniq regions max o none ys) (lookup_same name g seen e ∙ f)
                    (subst (λ o. NewMeets uniq regions max (lookup g seen) o ys)
                      (none_later name g expected u.0 e) later)
          by_test false e xs ys here later =
              subst (λ l. NewMeets uniq regions max (lookup g seen) (lookup g expected) (l ++ ys))
                (sym here) later

-- A group has machines, or is in the second loop.
pub joined :
    {G : Type 0} (uniq : List String → List String) (regions : List String) (max : ℤ) (g : String)
    (expected : Dict ℤ) (o : Option (List (Machine G))) (xs ys : Dict ℤ)
    → OldMeets uniq regions max g expected o xs
    → NewMeets uniq regions max o (lookup g expected) ys
    → Meets uniq regions max o (lookup g expected) (xs ++ ys)
joined {G} uniq regions max g expected none xs ys here later =
    subst (λ l. Meets {G = G} uniq regions max none (lookup g expected) (l ++ ys)) (sym here) later
joined uniq regions max g expected (some ms) xs ys here later =
    subst (Meets uniq regions max (some ms) (lookup g expected))
      (sym (append-nil xs) ∙ ap (λ l. xs ++ l) (sym later)) here
