-- ===== src/Groups/Tests.antt =====
-- Runs for an app with two groups, and the theorems at these inputs.
use flyctl.Base.{◌≡◌, ◌↔◌, refl, ℕ, String, true, false, not, ◌&&◌, some, List, [], ◌∷◌, map}
use flyctl.Base.Bytes.{compare_bytes}
use flyctl.Groups.Names.{
  Config, has_name, keys, process_names, default_process_name, flatten_group_matches,
  flatten_groups_match, sort_names, insert_name,
}
use flyctl.Groups.Names.Matching.{IsFor, groups_match-IsFor}
use flyctl.Groups.Flatten.{flatten, flatten_group, pick_items, pick_sections, compute_for_group}
use flyctl.Groups.Flatten.Computes.{Fits, compute_for_group-Fits}
use flyctl.Groups.Flatten.Again.{flatten-again}
use flyctl.Groups.Changes.{resolve_process_group_changes, is_marked}
use flyctl.Groups.Changes.Partition.{resolve-needs}
use flyctl.Groups.Changes.Partition.Marks.{has_machine}
use flyctl.Groups.Samples.{app, clone, clone-Clones, max_by, max_by-IsMaxBy}

sorted_names : process_names app ≡ "web" ∷ "worker" ∷ []
unfolding process_names keys sort_names insert_name compare_bytes
sorted_names = refl

first_is_default : default_process_name app ≡ "web"
unfolding default_process_name process_names keys sort_names insert_name compare_bytes has_name
first_is_default = refl

groups_match-IsFor_example :
    (flatten_groups_match app "web" ("worker" ∷ []) ≡ true) ↔ IsFor app ("worker" ∷ []) "web"
groups_match-IsFor_example = groups_match-IsFor app "web" ("worker" ∷ []) (λ e. absurd (cc e))

no_empty_name : has_name (process_names app) "" ≡ false
unfolding process_names keys sort_names insert_name compare_bytes has_name
no_empty_name = refl

worker_listed : has_name (process_names app) "worker" ≡ true
unfolding process_names keys sort_names insert_name compare_bytes has_name
worker_listed = refl

compute_for_group-Fits_example : Fits app "web" (compute_for_group max_by app "web")
compute_for_group-Fits_example =
    compute_for_group-Fits max_by max_by-IsMaxBy app "web" (λ e. absurd (cc e))

no_empty_key : has_name (keys app.processes) "" ≡ false
unfolding keys has_name
no_empty_key = refl

-- The configuration of the group "web", written out in part.
web_services : map (λ x. x.groups) (pick_sections app "web" app).services ≡ ("web" ∷ []) ∷ []
unfolding pick_sections pick_items flatten_groups_match flatten_group_matches default_process_name
    process_names keys sort_names insert_name compare_bytes has_name
web_services = refl

abbrev web : Config ℕ
web = flatten_group max_by clone app "web"

web_flattened : flatten max_by clone app "web" ≡ some web
unfolding flatten
web_flattened = refl

flatten-again_example : flatten max_by clone web "" ≡ some web
flatten-again_example =
    flatten-again max_by max_by-IsMaxBy clone clone-Clones app web "web" (λ e. absurd (cc e))
      no_empty_key web_flattened

-- A machine is its group.
abbrev machines : List String
machines = "web" ∷ "old" ∷ "web" ∷ "old" ∷ []

abbrev groups : List String
groups = "web" ∷ "worker" ∷ []

resolve-needs_example :
    is_marked "worker"
      (resolve_process_group_changes (λ m. m) groups machines).groups_needing_machines
    ≡ (has_name groups "worker" && not (has_machine (λ m. m) "worker" machines))
resolve-needs_example = resolve-needs (λ m. m) groups machines "worker"
