-- ===== src/Groups/Names.antt =====
-- The names of process groups, and which group an item of the configuration belongs to.
pub mod Matching
use flyctl.Base.{
  ℕ, String, Bool, true, false, ◌&&◌, ◌||◌, Option, none, some, List, [], ◌∷◌, str_eq,
  if◌then◌else◌, Dict,
}
use flyctl.Base.Int.{ℤ, pos, negsuc}
use flyctl.Base.Bytes.{codes, compare_bytes}

-- An item that is for some process groups: `data` is the rest of it.
pub record Item (D : Type 0) : Type 0 where
  pub data_of : D
  pub groups : List String

-- A [[vm]] section: the host_dedication_id of its guest, if it has a guest.
pub record Compute (D : Type 0) : Type 0 where
  pub size_of : D
  pub guest_dedication : Option String
  pub groups : List String

-- The fields of an appconfig.Config that the process groups concern, and the `others`.
pub record Config (D : Type 0) : Type 0 where
  pub processes : Dict String
  pub mounts : List (Item D)
  pub http_service : Option (Item D)
  pub services : List (Item D)
  pub checks : Dict (Item D)
  pub files : List (Item D)
  pub host_dedication_id : String
  pub restart : List (Item D)
  pub vms : List (Compute D)
  pub metrics : List (Item D)
  pub others : D
  pub config_file_path : String
  pub unmarshal_error : Option String
  pub default_group_name : String

-- slices.Contains
unfoldable pub has_name : List String → String → Bool
has_name [] name = false
has_name (x ∷ xs) name = str_eq x name || has_name xs name

abbrev pub is_before : ℤ → Bool
is_before (pos n) = false
is_before (negsuc n) = true

-- slices.Sort, for texts
unfoldable pub insert_name : String → List String → List String
insert_name x [] = x ∷ []
insert_name x (y ∷ ys) =
    let rest = insert_name x ys in
    if is_before (compare_bytes (codes y) (codes x)) then y ∷ rest else x ∷ y ∷ ys

unfoldable pub sort_names : List String → List String
sort_names [] = []
sort_names (x ∷ xs) = insert_name x (sort_names xs)

unfoldable pub keys : {V : Type 0} → Dict V → List String
keys [] = []
keys ((k, v) ∷ m) = k ∷ keys m

abbrev pub app_group : String
app_group = "app"

abbrev pub names_or : String → List String → List String
names_or name [] = (if str_eq name "" then app_group else name) ∷ []
names_or name (k ∷ []) = k ∷ []
names_or name (k ∷ j ∷ ks) = sort_names (k ∷ j ∷ ks)

abbrev pub first_name : List String → String
first_name [] = ""
first_name (x ∷ xs) = x

module _ {D : Type 0} where
  -- ProcessNames of a Config that is there.
  unfoldable pub process_names : Config D → List String
  process_names c = names_or c.default_group_name (keys c.processes)

  abbrev pub default_or_app : Config D → String
  default_or_app c = if str_eq c.default_group_name "" then app_group else c.default_group_name

  unfoldable pub default_process_name : Config D → String
  default_process_name c =
      if has_name (process_names c) (default_or_app c)
      then default_or_app c
      else first_name (process_names c)

  abbrev pub group_or_default : Config D → String → String
  group_or_default c group = if str_eq group "" then default_process_name c else group

  unfoldable pub flatten_group_matches : Config D → String → String → Bool
  flatten_group_matches c target to_check =
      let target' = group_or_default c target in
      str_eq to_check target' || (str_eq to_check "" && str_eq target' (default_process_name c))

  abbrev pub some_match : Config D → String → List String → Bool
  some_match c target [] = false
  some_match c target (x ∷ xs) = flatten_group_matches c target x || some_match c target xs

  unfoldable pub flatten_groups_match : Config D → String → List String → Bool
  flatten_groups_match c target [] = flatten_group_matches c target ""
  flatten_groups_match c target (x ∷ xs) = some_match c target (x ∷ xs)
