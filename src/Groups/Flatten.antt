-- ===== src/Groups/Flatten.antt =====
-- Flatten and ComputeForGroup: the configuration of one process group. `clone` is helpers.Clone and
-- `max_by` is lo.MaxBy.
pub mod Computes
pub mod Picks
pub mod Again
use flyctl.Base.{
  All, Any, ◌≡◌, ◌⊎◌, String, Bool, true, false, not, ◌&&◌, ◌||◌, Option, none, some, List, [], ◌∷◌,
  str_eq, if◌then◌else◌, Dict, lookup,
}
use flyctl.Groups.Names.{
  Item, Compute, Config, has_name, group_or_default, default_process_name, flatten_group_matches,
  flatten_groups_match,
}

unfoldable pub pick_processes : (String → Bool) → Dict String → Dict String
pick_processes matches [] = []
pick_processes matches ((k, v) ∷ m) =
    let rest = pick_processes matches m in if matches k then (k, v) ∷ rest else rest

abbrev pub is_everywhere : List String → Bool
is_everywhere [] = true
is_everywhere (x ∷ xs) = false

abbrev pub dedication : Option String → String → String
dedication none id = id
dedication (some d) id = if str_eq d "" then id else d

module _ {D : Type 0} where
  -- The items that match, for the one group only.
  unfoldable pub pick_items : (List String → Bool) → String → List (Item D) → List (Item D)
  pick_items matches group [] = []
  pick_items matches group (x ∷ xs) =
      let rest = pick_items matches group xs in
      if matches x.groups then record x { groups = group ∷ [] } ∷ rest else rest

  unfoldable pub pick_checks : (List String → Bool) → String → Dict (Item D) → Dict (Item D)
  pick_checks matches group [] = []
  pick_checks matches group ((k, x) ∷ xs) =
      let rest = pick_checks matches group xs in
      if matches x.groups then (k, record x { groups = group ∷ [] }) ∷ rest else rest

  abbrev pub pick_service : (List String → Bool) → String → Option (Item D) → Option (Item D)
  pick_service matches group none = none
  pick_service matches group (some x) =
      if matches x.groups then some (record x { groups = group ∷ [] }) else none

  unfoldable pub candidates : Config D → String → List (Compute D) → List (Compute D)
  candidates c group [] = []
  candidates c group (x ∷ xs) =
      let rest = candidates c group xs in
      if is_everywhere x.groups || flatten_groups_match c group x.groups then x ∷ rest else rest

  abbrev pub names_group : String → Compute D → Compute D → Bool
  names_group group x max = has_name x.groups group

  -- The [[vm]] part of Flatten.
  abbrev pub with_compute : String → Option (Compute D) → Config D → Config D
  with_compute group none dst = record dst { vms = [] }
  with_compute group (some x) dst = record dst {
    vms = (record x { groups = group ∷ [] }) ∷ [];
    host_dedication_id = dedication x.guest_dedication dst.host_dedication_id;
  }

  -- The sections before [[vm]]; `c` is the configuration that was cloned to `dst`.
  unfoldable pub pick_sections : Config D → String → Config D → Config D
  pick_sections c group dst =
      let matches = flatten_groups_match c group in
      let named = record dst { config_file_path = "--flatten--"; default_group_name = group } in
      record named {
        processes = pick_processes (flatten_group_matches named group) dst.processes;
        checks = pick_checks matches group dst.checks;
        http_service = pick_service matches group dst.http_service;
        services = pick_items matches group dst.services;
        mounts = pick_items matches group dst.mounts;
        files = pick_items matches group dst.files;
        metrics = pick_items matches group dst.metrics;
        restart = pick_items matches group dst.restart;
      }

  module _ (max_by : (Compute D → Compute D → Bool) → List (Compute D) → Option (Compute D)) where
    unfoldable pub compute_for_group : Config D → String → Option (Compute D)
    compute_for_group c group =
        let group' = group_or_default c group in
        max_by (names_group group') (candidates c group' c.vms)

    abbrev pub flatten_group : (Config D → Config D) → Config D → String → Config D
    flatten_group clone c group =
        let dst = pick_sections c group (clone c) in
        with_compute group (compute_for_group dst group) dst

    -- An error, or the configuration.
    unfoldable pub flatten : (Config D → Config D) → Config D → String → Option (Config D)
    flatten clone c group = elim c.unmarshal_error [
      | some e ↦ none
      | none ↦ some (flatten_group clone c (group_or_default c group))
    ]

-- InitCmd: `split` is shlex.Split, and an error is `none`.
module _ (split : String → Option (List String)) where
  abbrev pub command_of : Option String → Option (List String)
  command_of none = some []
  command_of (some command) = if str_eq command "" then some [] else split command

module _ {D : Type 0} (split : String → Option (List String)) where
  unfoldable pub init_cmd : Config D → String → Option (List String)
  init_cmd c group = command_of split (lookup (group_or_default c group) c.processes)

module _ {D : Type 0} where
  -- `max_by` gives an element, if there is one, and no element is better than it.
  abbrev pub IsMaxBy :
      ((Compute D → Compute D → Bool) → List (Compute D) → Option (Compute D)) → Type 0
  IsMaxBy max_by =
      (group : String) (xs : List (Compute D))
      → ((xs ≡ []) × (max_by (names_group group) xs ≡ none))
        ⊎ ((x : Compute D) × (max_by (names_group group) xs ≡ some x)
            × Any (λ y. y ≡ x) xs
            × All (λ y. (names_group group y x ≡ false) ⊎ (names_group group x y ≡ true)) xs)

  -- `clone` copies a configuration, perhaps without its two private names.
  abbrev pub Clones : (Config D → Config D) → Type 0
  Clones clone =
      (c : Config D)
      → c.unmarshal_error ≡ none
      → (path : String) × (name : String) × (clone c
          ≡ record c { config_file_path = path; default_group_name = name })
