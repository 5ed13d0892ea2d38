-- ===== src/Scale/Arguments.antt =====
-- The arguments of `fly scale count`: parseGroupCounts of internal/command/scale/count.go, and what
-- runScaleCount does with its groups before it scales.
pub mod RoundTrip
pub mod Valid
mod Tests
use flyctl.Base.{
  Bool, true, false, ◌||◌, List, [], ◌∷◌, Option, none, some, ◌⊎◌, inl, inr, if◌then◌else◌,
}
use flyctl.Base.Int.{ℤ, pos}
use flyctl.Base.Bytes.{Bytes, codes, bytes_eq, has_prefix, split, atoi}
use flyctl.Scale.Actions.{GroupCount, is_zero}

-- The errors of parseGroupCounts, and that of runScaleCount for names that the app does not have.
pub data ArgumentError : Type 0 where
  not_a_number relative_zero : ArgumentError
  not_an_option : Bytes → ArgumentError
  unknown_groups : List Bytes → ArgumentError

-- groupCounts; the names are bytes here.
abbrev pub GroupCounts : Type 0
GroupCounts = List (Bytes × GroupCount)

-- groups[group] = count
unfoldable pub set_group : Bytes → GroupCount → GroupCounts → GroupCounts
set_group name c [] = (name, c) ∷ []
set_group name c ((other, d) ∷ groups) =
    if bytes_eq other name then (name, c) ∷ groups else (other, d) ∷ set_group name c groups

unfoldable pub has_sign : Bytes → Bool
has_sign s = has_prefix (codes "+") s || has_prefix (codes "-") s

unfoldable pub counted : Bytes → Option ℤ → ArgumentError ⊎ GroupCount
counted s none = inl not_a_number
counted s (some n) =
    if has_sign s
    then if is_zero n then inl relative_zero else inr (record { absolute = pos 0; relative = n })
    else inr (record { absolute = n; relative = pos 0 })

abbrev pub with_group :
    Bytes → GroupCounts → ArgumentError ⊎ GroupCount → ArgumentError ⊎ GroupCounts
with_group group groups (inl e) = inl e
with_group group groups (inr c) = inr (set_group group c groups)

-- apply
unfoldable pub apply_count : Bytes → Bytes → GroupCounts → ArgumentError ⊎ GroupCounts
apply_count group text groups = with_group group groups (counted text (atoi text))

-- A label, from the parts around its `=`.
abbrev pub apply_parts : Bytes → List Bytes → GroupCounts → ArgumentError ⊎ GroupCounts
apply_parts arg (name ∷ count ∷ []) groups = apply_count name count groups
apply_parts arg _ groups = inl (not_an_option arg)

-- web=X worker=Y
unfoldable pub apply_labels : List Bytes → GroupCounts → ArgumentError ⊎ GroupCounts
apply_labels [] groups = inr groups
apply_labels (arg ∷ args) groups = elim (apply_parts arg (split b'=' arg) groups) [
  | inl e ↦ inl e
  | inr more ↦ apply_labels args more
]

abbrev pub or_no_groups : ArgumentError ⊎ GroupCounts → GroupCounts
or_no_groups (inl e) = []
or_no_groups (inr groups) = groups

-- The groups after a single argument has been tried as a number.
abbrev pub single_count : List Bytes → Bytes → GroupCounts
single_count (arg ∷ []) default_group = or_no_groups (apply_count default_group arg [])
single_count _ default_group = []

abbrev pub or_labels : List Bytes → GroupCounts → ArgumentError ⊎ GroupCounts
or_labels args [] = apply_labels args []
or_labels args (g ∷ groups) = inr (g ∷ groups)

unfoldable pub parse_group_counts : List Bytes → Bytes → ArgumentError ⊎ GroupCounts
parse_group_counts args default_group = or_labels args (single_count args default_group)

-- slices.Contains
unfoldable pub contains_name : List Bytes → Bytes → Bool
contains_name [] name = false
contains_name (n ∷ names) name = bytes_eq n name || contains_name names name

unfoldable pub unknown_names : List Bytes → GroupCounts → List Bytes
unknown_names names [] = []
unknown_names names ((name, c) ∷ groups) =
    if contains_name names name
    then unknown_names names groups
    else name ∷ unknown_names names groups

abbrev pub refuse_unknown : GroupCounts → List Bytes → ArgumentError ⊎ GroupCounts
refuse_unknown groups [] = inr groups
refuse_unknown groups (name ∷ names) = inl (unknown_groups (name ∷ names))

abbrev pub check_names : List Bytes → ArgumentError ⊎ GroupCounts → ArgumentError ⊎ GroupCounts
check_names names (inl e) = inl e
check_names names (inr groups) = refuse_unknown groups (unknown_names names groups)

-- `app` is fly.MachineProcessGroupApp, for a flag that is not given.
abbrev pub group_or_app : Bytes → Bytes → Bytes
group_or_app app [] = app
group_or_app app (c ∷ name) = c ∷ name

-- The groups that runScaleCount scales: `names` are the process groups of the app, `group` is the flag.
unfoldable pub groups_to_scale :
    Bytes → List Bytes → List Bytes → Bytes → ArgumentError ⊎ GroupCounts
groups_to_scale app args names group =
    check_names names (parse_group_counts args (group_or_app app group))
