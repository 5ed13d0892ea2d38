-- ===== src/Scale/Arguments/Valid.antt =====
-- Every count that parseGroupCounts gives is one that can be asked for, of a group of the app.
pub mod Counts
use flyctl.Base.{
  ◌≡◌, ◌≢◌, refl, sym, ◌∙◌, ap, subst, All, Any, Bool, true, false, false≢true, Bool-cases, ◌||◌,
  List, [], ◌∷◌, ◌⊎◌, inl, inr, if◌then◌else◌,
}
use flyctl.Base.Bytes.{Bytes, bytes_eq, split, atoi}
use flyctl.Base.Bytes.Laws.{bytes_eq_iff}
use flyctl.Scale.Actions.{GroupCount}
use flyctl.Scale.Arguments.{
  ArgumentError, GroupCounts, set_group, counted, with_group, apply_count, apply_parts,
  apply_labels, or_no_groups, single_count, or_labels, parse_group_counts, contains_name,
  unknown_names, refuse_unknown, check_names, group_or_app, groups_to_scale,
}
use Counts.{IsCount, MadeCount, counted-MadeCount}

-- What holds of the groups, if there is no error.
abbrev pub IfAny : (GroupCounts → Type 0) → ArgumentError ⊎ GroupCounts → Type 0
IfAny P (inl e) = Unit
IfAny P (inr groups) = P groups

abbrev pub AreCounts : GroupCounts → Type 0
AreCounts groups = All (λ g. IsCount g.1) groups

-- One entry for each name.
abbrev pub OneEach : GroupCounts → Type 0
OneEach [] = Unit
OneEach (g ∷ groups) = All (λ k. g.0 ≢ k.0) groups × OneEach groups

module _ (P : Bytes × GroupCount → Type 0) where
  set_group-All :
      (name : Bytes) (c : GroupCount) (groups : GroupCounts)
      → P (name, c)
      → All P groups
      → All P (set_group name c groups)
  unfolding set_group
  set_group-All name c [] p h = (p, tt)
  set_group-All name c ((other, d) ∷ groups) p h =
      by_test (bytes_eq other name) (set_group-All name c groups p h.1)
    where
      by_test :
          (b : Bool)
          → All P (set_group name c groups)
          → All P (if b then (name, c) ∷ groups else (other, d) ∷ set_group name c groups)
      by_test true k = (p, h.1)
      by_test false k = (h.0, k)

set_group-OneEach :
    (name : Bytes) (c : GroupCount) (groups : GroupCounts)
    → OneEach groups
    → OneEach (set_group name c groups)
unfolding set_group
set_group-OneEach name c [] h = (tt, tt)
set_group-OneEach name c ((other, d) ∷ groups) (fresh, h) =
    by_test (bytes_eq other name) refl (set_group-OneEach name c groups h)
  where
    by_test :
        (b : Bool)
        → bytes_eq other name ≡ b
        → OneEach (set_group name c groups)
        → OneEach (if b then (name, c) ∷ groups else (other, d) ∷ set_group name c groups)
    by_test true e k =
        (subst (λ n. All (λ k. n ≢ k.0) groups) ((bytes_eq_iff other name).0 e) fresh, h)
    by_test false e k = (
      set_group-All (λ k. other ≢ k.0) name c groups
          (λ same. false≢true (sym e ∙ (bytes_eq_iff other name).1 same)) fresh,
      k,
    )

abbrev Good : GroupCounts → Type 0
Good groups = AreCounts groups × OneEach groups

with_group-Good :
    (name : Bytes) (groups : GroupCounts) (r : ArgumentError ⊎ GroupCount)
    → MadeCount r
    → Good groups
    → IfAny Good (with_group name groups r)
with_group-Good name groups (inl e) m g = tt
with_group-Good name groups (inr c) m (counts, each) =
    (set_group-All (λ g. IsCount g.1) name c groups m counts, set_group-OneEach name c groups each)

apply_count-Good :
    (name text : Bytes) (groups : GroupCounts)
    → Good groups
    → IfAny Good (apply_count name text groups)
unfolding apply_count
apply_count-Good name text groups g =
    with_group-Good name groups (counted text (atoi text)) (counted-MadeCount text) g

apply_parts-Good :
    (arg : Bytes) (parts : List Bytes) (groups : GroupCounts)
    → Good groups
    → IfAny Good (apply_parts arg parts groups)
apply_parts-Good arg [] groups g = tt
apply_parts-Good arg (name ∷ []) groups g = tt
apply_parts-Good arg (name ∷ text ∷ []) groups g = apply_count-Good name text groups g
apply_parts-Good arg (name ∷ text ∷ more ∷ parts) groups g = tt

apply_labels-Good :
    (args : List Bytes) (groups : GroupCounts) → Good groups → IfAny Good (apply_labels args groups)
unfolding apply_labels
apply_labels-Good [] groups g = g
apply_labels-Good (arg ∷ args) groups g =
    by_label (apply_parts arg (split b'=' arg) groups)
      (apply_parts-Good arg (split b'=' arg) groups g) (λ after. apply_labels-Good args after)
  where
    by_label :
        (r : ArgumentError ⊎ GroupCounts)
        → IfAny Good r
        → ((after : GroupCounts) → Good after → IfAny Good (apply_labels args after))
        → IfAny Good (elim r [ inl e ↦ inl e | inr after ↦ apply_labels args after ])
    by_label (inl e) h k = tt
    by_label (inr after) h k = k after h

single_count-Good :
    (args : List Bytes) (default_group : Bytes) → Good (single_count args default_group)
single_count-Good [] default_group = (tt, tt)
single_count-Good (arg ∷ []) default_group =
    by_result (apply_count default_group arg []) (apply_count-Good default_group arg [] (tt, tt))
  where
    by_result : (r : ArgumentError ⊎ GroupCounts) → IfAny Good r → Good (or_no_groups r)
    by_result (inl e) h = (tt, tt)
    by_result (inr groups) h = h
single_count-Good (arg ∷ next ∷ args) default_group = (tt, tt)

parse_group_counts-Good :
    (args : List Bytes) (default_group : Bytes) → IfAny Good (parse_group_counts args default_group)
unfolding parse_group_counts
parse_group_counts-Good args default_group =
    by_single (single_count args default_group) (single_count-Good args default_group)
  where
    by_single : (groups : GroupCounts) → Good groups → IfAny Good (or_labels args groups)
    by_single [] h = apply_labels-Good args [] h
    by_single (g ∷ groups) h = h

-- The names are among those of the app.
abbrev pub AreNames : List Bytes → GroupCounts → Type 0
AreNames names groups = All (λ g. Any (λ n. n ≡ g.0) names) groups

contains_name-Any :
    (names : List Bytes) (name : Bytes)
    → contains_name names name ≡ true
    → Any (λ n. n ≡ name) names
unfolding contains_name
contains_name-Any [] name e = absurd (false≢true e)
contains_name-Any (n ∷ names) name e = elim (Bool-cases (bytes_eq n name)) [
  | inl same ↦ inl ((bytes_eq_iff n name).0 same)
  | inr other ↦
      inr (contains_name-Any names name (ap (λ b. b || contains_name names name) (sym other) ∙ e))
]

unknown_names-AreNames :
    (names : List Bytes) (groups : GroupCounts)
    → unknown_names names groups ≡ []
    → AreNames names groups
unfolding unknown_names
unknown_names-AreNames names [] e = tt
unknown_names-AreNames names ((name, c) ∷ groups) e = elim (Bool-cases (contains_name names name)) [
  | inl known ↦ (
    contains_name-Any names name known,
    unknown_names-AreNames names groups (
        ap (λ b. if b then unknown_names names groups else name ∷ unknown_names names groups)
          (sym known)
        ∙ e),
  )
  | inr unknown ↦ absurd (
      cc (
        ap (λ b. if b then unknown_names names groups else name ∷ unknown_names names groups)
          (sym unknown)
        ∙ e))
]

abbrev pub CanScale : List Bytes → GroupCounts → Type 0
CanScale names groups = AreCounts groups × OneEach groups × AreNames names groups

-- The groups that runScaleCount goes on with have one entry for each name, and each name is one of a
-- process group of the app; each count is a total that is not negative, or a change that is not zero.
pub groups_to_scale-CanScale :
    (app : Bytes) (args names : List Bytes) (group : Bytes) (groups : GroupCounts)
    → groups_to_scale app args names group ≡ inr groups
    → CanScale names groups
unfolding groups_to_scale
groups_to_scale-CanScale app args names group groups e = subst (IfAny (CanScale names)) e (
    checked (parse_group_counts args (group_or_app app group))
      (parse_group_counts-Good args (group_or_app app group)))
  where
    refused :
        (groups : GroupCounts) (unknown : List Bytes)
        → unknown_names names groups ≡ unknown
        → Good groups
        → IfAny (CanScale names) (refuse_unknown groups unknown)
    refused groups [] none_left (counts, each) =
        (counts, each, unknown_names-AreNames names groups none_left)
    refused groups (name ∷ unknown) some_left g = tt

    checked :
        (r : ArgumentError ⊎ GroupCounts)
        → IfAny Good r
        → IfAny (CanScale names) (check_names names r)
    checked (inl e) h = tt
    checked (inr groups) h = refused groups (unknown_names names groups) refl h
