-- ===== src/Groups/Names/Matching.antt =====
-- Which group an item belongs to.
use flyctl.Base.{
  arith, eq_iff, All, ◌≡◌, ◌≢◌, ◌∙◌, ◌↔◌, ◌⊎◌, inl, inr, refl, sym, ap, String, Bool, true, false,
  ◌||◌, List, [], ◌∷◌, str_eq, if◌then◌else◌, false≢true,
}
use flyctl.Base.Bytes.{codes, compare_bytes}
use flyctl.Groups.Names.{
  Config, has_name, is_before, insert_name, sort_names, keys, names_or, process_names, first_name,
  default_or_app, default_process_name, flatten_group_matches, some_match, flatten_groups_match,
}

has_name-insert_name :
    (x z : String) (xs : List String)
    → has_name (insert_name x xs) z ≡ (str_eq x z || has_name xs z)
unfolding has_name insert_name
has_name-insert_name x z [] = refl
has_name-insert_name x z (y ∷ ys) =
    by_test (is_before (compare_bytes (codes y) (codes x))) (has_name-insert_name x z ys)
  where
    by_test :
        (b : Bool)
        → has_name (insert_name x ys) z ≡ (str_eq x z || has_name ys z)
        → has_name (if b then y ∷ insert_name x ys else x ∷ y ∷ ys) z
          ≡ (str_eq x z || (str_eq y z || has_name ys z))
    by_test true h = ground arith
    by_test false h = refl

pub has_name-sort_names :
    (z : String) (xs : List String) → has_name (sort_names xs) z ≡ has_name xs z
unfolding has_name sort_names
has_name-sort_names z [] = refl
has_name-sort_names z (x ∷ xs) =
    has_name-insert_name x z (sort_names xs) ∙ ap (λ b. str_eq x z || b) (has_name-sort_names z xs)

has_name_here : (x : String) (xs : List String) → has_name (x ∷ xs) x ≡ true
unfolding has_name
has_name_here x xs = ground (arith, eq_iff x x)

has_name-first_name : (xs : List String) → xs ≢ [] → has_name xs (first_name xs) ≡ true
has_name-first_name [] h = absurd (h refl)
has_name-first_name (x ∷ xs) h = has_name_here x xs

has_name_nonempty : (xs : List String) (z : String) → has_name xs z ≡ true → xs ≢ []
unfolding has_name
has_name_nonempty [] z h e = false≢true h
has_name_nonempty (x ∷ xs) z h e = absurd (cc e)

names_or_nonempty : (name : String) (ks : List String) → names_or name ks ≢ []
names_or_nonempty name [] e = absurd (cc e)
names_or_nonempty name (k ∷ []) e = absurd (cc e)
names_or_nonempty name (k ∷ j ∷ ks) e =
    has_name_nonempty (sort_names (k ∷ j ∷ ks)) k
      (has_name-sort_names k (k ∷ j ∷ ks) ∙ has_name_here k (j ∷ ks)) e

module _ {D : Type 0} where
  -- The default group is one of the process groups.
  pub default_process_name-IsListed :
      (c : Config D) → has_name (process_names c) (default_process_name c) ≡ true
  unfolding process_names default_process_name
  default_process_name-IsListed c = by_test (has_name (process_names c) (default_or_app c)) refl
    where
      by_test :
          (b : Bool)
          → has_name (process_names c) (default_or_app c) ≡ b
          → has_name
              (process_names c)
              (if b then default_or_app c else first_name (process_names c))
            ≡ true
      by_test true e = e
      by_test false e =
          has_name-first_name (process_names c)
            (names_or_nonempty c.default_group_name (keys c.processes))

  -- A group matches itself.
  pub matches_self : (c : Config D) (g : String) → g ≢ "" → flatten_group_matches c g g ≡ true
  unfolding flatten_group_matches
  matches_self c g h = ground (arith, h, eq_iff g "", eq_iff g g)

  pub group_matches_iff :
      (c : Config D) (g x : String)
      → g ≢ ""
      → (flatten_group_matches c g x ≡ true) ↔ ((x ≡ g) ⊎ ((x ≡ "") × (g ≡ default_process_name c)))
  unfolding flatten_group_matches
  group_matches_iff c g x h =
      ground (arith, h, eq_iff g "", eq_iff x g, eq_iff x "", eq_iff g (default_process_name c))

  -- The groups that a list of names stands for: those in it, and the default group if the list or one
  -- of the names is empty.
  abbrev pub IsFor : Config D → List String → String → Type 0
  IsFor c xs g =
      (has_name xs g ≡ true)
      ⊎ ((g ≡ default_process_name c) × ((xs ≡ []) ⊎ (has_name xs "" ≡ true)))

  some_match_iff :
      (c : Config D) (g : String) (xs : List String)
      → g ≢ ""
      → (some_match c g xs ≡ true)
        ↔ ((has_name xs g ≡ true) ⊎ ((g ≡ default_process_name c) × (has_name xs "" ≡ true)))
  unfolding has_name
  some_match_iff c g [] h = ground arith
  some_match_iff c g (x ∷ xs) h =
      ground (arith, group_matches_iff c g x h, some_match_iff c g xs h, eq_iff x g, eq_iff x "")

  -- For a group that has a name, flattenGroupsMatch holds exactly if the list names the group, or
  -- the group is the default one and the list or one of its names is empty.
  pub groups_match-IsFor :
      (c : Config D) (g : String) (xs : List String)
      → g ≢ ""
      → (flatten_groups_match c g xs ≡ true) ↔ IsFor c xs g
  unfolding flatten_groups_match has_name
  groups_match-IsFor c g [] h = ground (arith, group_matches_iff c g "" h, h)
  groups_match-IsFor c g (x ∷ xs) h =
      let (to, from) = some_match_iff c g (x ∷ xs) h in
      ((λ e. widen (to e)), (λ e. from (narrow e)))
    where
      widen :
          (has_name (x ∷ xs) g ≡ true)
            ⊎ ((g ≡ default_process_name c) × (has_name (x ∷ xs) "" ≡ true))
          → IsFor c (x ∷ xs) g
      widen (inl m) = inl m
      widen (inr (e, m)) = inr (e, inr m)

      narrow :
          IsFor c (x ∷ xs) g
          → (has_name (x ∷ xs) g ≡ true)
            ⊎ ((g ≡ default_process_name c) × (has_name (x ∷ xs) "" ≡ true))
      narrow (inl m) = inl m
      narrow (inr (e, inl n)) = absurd (cc n)
      narrow (inr (e, inr m)) = inr (e, m)

  listed_nonempty :
      (c : Config D) (g : String)
      → has_name (process_names c) "" ≡ false
      → has_name (process_names c) g ≡ true
      → g ≢ ""
  listed_nonempty c g h l e = false≢true (sym h ∙ ap (has_name (process_names c)) (sym e) ∙ l)

  -- If no process group has an empty name, and each name of a list is empty or that of a process group,
  -- then the list matches one of the process groups.
  groups_match-covers :
      (c : Config D) (xs : List String)
      → has_name (process_names c) "" ≡ false
      → All (λ x. (x ≡ "") ⊎ (has_name (process_names c) x ≡ true)) xs
      → (g : String) × (has_name (process_names c) g ≡ true) × (flatten_groups_match c g xs ≡ true)
  unfolding has_name
  groups_match-covers c xs named h = by_list xs h
    where
      default : String
      default = default_process_name c

      listed : has_name (process_names c) default ≡ true
      listed = default_process_name-IsListed c

      to_default :
          (ys : List String)
          → (ys ≡ []) ⊎ (has_name ys "" ≡ true)
          → (g : String) × (has_name (process_names c) g ≡ true)
            × (flatten_groups_match c g ys ≡ true)
      to_default ys k = (
        default,
        listed,
        (groups_match-IsFor c default ys (listed_nonempty c default named listed)).1
            (inr (refl, k)),
      )

      by_list :
          (ys : List String)
          → All (λ x. (x ≡ "") ⊎ (has_name (process_names c) x ≡ true)) ys
          → (g : String) × (has_name (process_names c) g ≡ true)
            × (flatten_groups_match c g ys ≡ true)
      by_list [] k = to_default [] (inl refl)
      by_list (y ∷ ys) (inl e, k) = to_default (y ∷ ys) (inr (ground (arith, eq_iff y "", e)))
      by_list (y ∷ ys) (inr l, k) = (
        y,
        l,
        (groups_match-IsFor c y (y ∷ ys) (listed_nonempty c y named l)).1
            (inl (has_name_here y ys)),
      )
