-- ===== src/Scale/Arguments/Tests.antt =====
-- Arguments of `fly scale count`, and the theorems for them.
use flyctl.Base.{◌≡◌, ◌≢◌, refl, arith, List, [], ◌∷◌, map, inl, inr}
use flyctl.Base.Int.{pos}
use flyctl.Base.Bytes.{Bytes, codes, split, print_ℕ, digits, scan, atoi, has_prefix, bytes_eq}
use flyctl.Scale.Arguments.{
  relative_zero, not_an_option, unknown_groups, GroupCounts, set_group, has_sign, counted,
  apply_count, apply_labels, parse_group_counts, contains_name, unknown_names, groups_to_scale,
}
use flyctl.Scale.Arguments.RoundTrip.{
  Asked, exactly, fewer, more, group_of, count_for, parse_group_counts-labels,
}
use flyctl.Scale.Arguments.Valid.{CanScale, groups_to_scale-CanScale}

abbrev labels : List (Bytes × Asked)
labels = (codes "web", exactly 3) ∷ (codes "worker", fewer 0) ∷ []

abbrev names : List Bytes
names = codes "web" ∷ codes "worker" ∷ []

abbrev one_more : GroupCounts
one_more = (codes "web", record { absolute = pos 0; relative = pos 1 }) ∷ []

-- A name that the app has, and one that it does not have.
scales : groups_to_scale (codes "app") (codes "+1" ∷ []) names (codes "web") ≡ inr one_more
unfolding groups_to_scale parse_group_counts apply_count counted atoi scan has_sign has_prefix
    set_group unknown_names contains_name bytes_eq
scales = refl

refuses :
    groups_to_scale (codes "app") (codes "+1" ∷ []) names []
    ≡ inl (unknown_groups (codes "app" ∷ []))
unfolding groups_to_scale parse_group_counts apply_count counted atoi scan has_sign has_prefix
    set_group unknown_names contains_name bytes_eq
refuses = refl

-- A change by zero is refused, alone as a label that has no `=`.
zero_alone : parse_group_counts (codes "+0" ∷ []) (codes "app") ≡ inl (not_an_option (codes "+0"))
unfolding parse_group_counts apply_labels apply_count counted atoi scan has_sign has_prefix split
zero_alone = refl

zero_labelled : parse_group_counts (codes "web=-0" ∷ []) (codes "app") ≡ inl relative_zero
unfolding parse_group_counts apply_labels apply_count counted atoi scan has_sign has_prefix split
zero_labelled = refl

differ : codes "web" ≢ codes "worker"
differ e = cc

parse_group_counts-labels_example :
    (parse_group_counts (codes "web=3" ∷ codes "worker=-1" ∷ []) (codes "app")
      ≡ inr (map group_of labels))
    × (parse_group_counts (codes "+2" ∷ []) (codes "app")
        ≡ inr ((codes "app", count_for (more 1)) ∷ []))
unfolding print_ℕ digits
parse_group_counts-labels_example =
    parse_group_counts-labels labels (more 1) (codes "app") (omega arith) ((differ, tt), (tt, tt))
      (omega arith)

groups_to_scale-CanScale_example : CanScale names one_more
groups_to_scale-CanScale_example =
    groups_to_scale-CanScale (codes "app") (codes "+1" ∷ []) names (codes "web") one_more scales
