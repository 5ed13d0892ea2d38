-- ===== src/Groups/Changes.antt =====
-- resolveProcessGroupChanges of internal/command/deploy/machines_deploymachinesapp.go. A map to
-- booleans that the code only sets to true is read with `is_marked`.
pub mod Partition
use flyctl.Base.{
  ℕ, zero, suc, String, Bool, true, false, not, ◌&&◌, ◌||◌, Option, none, some, List, [], ◌∷◌, ◌++◌,
  str_eq, if◌then◌else◌, Dict, lookup, put,
}
use flyctl.Groups.Names.{has_name}

pub record ProcessGroupsDiff (M : Type 0) : Type 0 where
  pub machines_to_remove : List M
  pub groups_to_remove : Dict ℕ
  pub groups_needing_machines : Dict Bool

abbrev pub or_false : Option Bool → Bool
or_false none = false
or_false (some b) = b

abbrev pub or_zero : Option ℕ → ℕ
or_zero none = 0
or_zero (some n) = n

abbrev pub is_marked : String → Dict Bool → Bool
is_marked name m = or_false (lookup name m)

abbrev pub count_of : String → Dict ℕ → ℕ
count_of name m = or_zero (lookup name m)

-- The second loop, over the groups of the configuration.
unfoldable pub mark_needing : Dict Bool → List String → Dict Bool → Dict Bool
mark_needing has [] needing = needing
mark_needing has (name ∷ names) needing =
    let same = mark_needing has names needing in
    let more = mark_needing has names (put name true needing) in
    if not (is_marked name has) then more else same

module _ {M : Type 0} where
  abbrev pub no_changes : ProcessGroupsDiff M
  no_changes = record {
    machines_to_remove = [];
    groups_to_remove = [];
    groups_needing_machines = [];
  }

  -- groupsToRemove[name] += 1, and the machine goes
  abbrev pub remove_machine : String → M → ProcessGroupsDiff M → ProcessGroupsDiff M
  remove_machine name m diff = record diff {
    machines_to_remove = diff.machines_to_remove ++ (m ∷ []);
    groups_to_remove = put name (suc (count_of name diff.groups_to_remove)) diff.groups_to_remove;
  }

  -- The first loop, over the machines: the changes, and groupHasMachine.
  unfoldable pub sort_machines :
      (M → String)
      → List String
      → List M
      → ProcessGroupsDiff M
      → Dict Bool
      → ProcessGroupsDiff M × Dict Bool
  sort_machines process_group groups [] diff has = (diff, has)
  sort_machines process_group groups (m ∷ ms) diff has =
      let kept = sort_machines process_group groups ms diff (put (process_group m) true has) in
      let removed =
        sort_machines process_group groups ms (remove_machine (process_group m) m diff) has in
      if has_name groups (process_group m) then kept else removed

  unfoldable pub resolve_process_group_changes :
      (M → String) → List String → List M → ProcessGroupsDiff M
  resolve_process_group_changes process_group groups machines =
      let (diff, has) = sort_machines process_group groups machines no_changes [] in
      record diff { groups_needing_machines = mark_needing has groups diff.groups_needing_machines }
