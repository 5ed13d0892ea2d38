-- ===== src/Groups/Changes/Partition.antt =====
-- What the changes of the process groups are.
pub mod Marks
use flyctl.Base.{
  arith, append-nil, append_snoc, eq_iff, ◌≡◌, ◌∙◌, refl, sym, ap, ℕ, suc, ◌+◌, String, Bool, true,
  false, not, ◌&&◌, some, List, [], ◌∷◌, ◌++◌, str_eq, if◌then◌else◌, Dict, lookup, put, lookup-put,
}
use flyctl.Groups.Names.{has_name}
use flyctl.Groups.Changes.{
  ProcessGroupsDiff, or_zero, is_marked, count_of, no_changes, remove_machine, sort_machines,
  mark_needing, resolve_process_group_changes,
}
use Marks.{marked-needing, has_machine, marked-sorted}

count-put :
    (k z : String) (m : Dict ℕ)
    → count_of z (put k (suc (count_of k m)) m) ≡ count_of z m + (if str_eq k z then 1 else 0)
count-put k z m = ap or_zero (lookup-put k z (suc (count_of k m)) m) ∙ by_test (str_eq k z) refl
  where
    same : str_eq k z ≡ true → k ≡ z
    same e = (eq_iff k z).0 e

    by_test :
        (b : Bool)
        → str_eq k z ≡ b
        → or_zero (if b then some (suc (count_of k m)) else lookup z m)
          ≡ count_of z m + (if b then 1 else 0)
    by_test true e = ap (λ j. suc (count_of j m)) (same e) ∙ omega arith
    by_test false e = omega arith

module _ {M : Type 0} (process_group : M → String) where
  -- The machines whose group is none of those given.
  unfoldable pub outside : List String → List M → List M
  outside groups [] = []
  outside groups (m ∷ ms) =
      let rest = outside groups ms in if has_name groups (process_group m) then rest else m ∷ rest

  abbrev pub count_in : String → List M → ℕ
  count_in name [] = 0
  count_in name (m ∷ ms) = (if str_eq (process_group m) name then 1 else 0) + count_in name ms

  removed-outside :
      (groups : List String) (ms : List M) (diff : ProcessGroupsDiff M) (has : Dict Bool)
      → (sort_machines process_group groups ms diff has).0.machines_to_remove
        ≡ diff.machines_to_remove ++ outside groups ms
  unfolding sort_machines outside
  removed-outside groups [] diff has = sym (append-nil diff.machines_to_remove)
  removed-outside groups (m ∷ ms) diff has =
      by_test (has_name groups (process_group m))
        (removed-outside groups ms diff (put (process_group m) true has))
        (removed-outside groups ms (remove_machine (process_group m) m diff) has
          ∙ append_snoc diff.machines_to_remove m (outside groups ms))
    where
      kept : ProcessGroupsDiff M × Dict Bool
      kept = sort_machines process_group groups ms diff (put (process_group m) true has)

      removed : ProcessGroupsDiff M × Dict Bool
      removed = sort_machines process_group groups ms (remove_machine (process_group m) m diff) has

      by_test :
          (b : Bool)
          → kept.0.machines_to_remove ≡ diff.machines_to_remove ++ outside groups ms
          → removed.0.machines_to_remove ≡ diff.machines_to_remove ++ (m ∷ outside groups ms)
          → (if b then kept else removed).0.machines_to_remove
            ≡ diff.machines_to_remove ++ (if b then outside groups ms else m ∷ outside groups ms)
      by_test true h k = h
      by_test false h k = k

  counts-outside :
      (z : String) (groups : List String) (ms : List M) (diff : ProcessGroupsDiff M)
      (has : Dict Bool)
      → count_of z (sort_machines process_group groups ms diff has).0.groups_to_remove
        ≡ count_of z diff.groups_to_remove + count_in z (outside groups ms)
  unfolding sort_machines outside
  counts-outside z groups [] diff has = omega arith
  counts-outside z groups (m ∷ ms) diff has =
      by_test (has_name groups (process_group m))
        (counts-outside z groups ms diff (put (process_group m) true has))
        (counts-outside z groups ms (remove_machine (process_group m) m diff) has)
        (count-put (process_group m) z diff.groups_to_remove)
    where
      kept : ProcessGroupsDiff M × Dict Bool
      kept = sort_machines process_group groups ms diff (put (process_group m) true has)

      removed : ProcessGroupsDiff M × Dict Bool
      removed = sort_machines process_group groups ms (remove_machine (process_group m) m diff) has

      by_test :
          (b : Bool)
          → count_of z kept.0.groups_to_remove
            ≡ count_of z diff.groups_to_remove + count_in z (outside groups ms)
          → count_of z removed.0.groups_to_remove
            ≡ count_of z (remove_machine (process_group m) m diff).groups_to_remove
              + count_in z (outside groups ms)
          → count_of z (remove_machine (process_group m) m diff).groups_to_remove
            ≡ count_of z diff.groups_to_remove + (if str_eq (process_group m) z then 1 else 0)
          → count_of z (if b then kept else removed).0.groups_to_remove
            ≡ count_of z diff.groups_to_remove
              + count_in z (if b then outside groups ms else m ∷ outside groups ms)
      by_test true h k e = h
      by_test false h k e = k ∙ omega (arith, e)

  needing-sorted :
      (groups : List String) (ms : List M) (diff : ProcessGroupsDiff M) (has : Dict Bool)
      → (sort_machines process_group groups ms diff has).0.groups_needing_machines
        ≡ diff.groups_needing_machines
  unfolding sort_machines
  needing-sorted groups [] diff has = refl
  needing-sorted groups (m ∷ ms) diff has =
      by_test _ _ (has_name groups (process_group m))
        (needing-sorted groups ms diff (put (process_group m) true has))
        (needing-sorted groups ms (remove_machine (process_group m) m diff) has)
    where
      by_test :
          (kept removed : ProcessGroupsDiff M × Dict Bool) (b : Bool)
          → kept.0.groups_needing_machines ≡ diff.groups_needing_machines
          → removed.0.groups_needing_machines ≡ diff.groups_needing_machines
          → (if b then kept else removed).0.groups_needing_machines ≡ diff.groups_needing_machines
      by_test kept removed true h k = h
      by_test kept removed false h k = k

  -- The machines to remove are those whose group is not in the configuration, in their order, and the
  -- count of a group to remove is the number of its machines among them.
  pub resolve-removes :
      (groups : List String) (machines : List M) (z : String)
      → ((resolve_process_group_changes process_group groups machines).machines_to_remove
          ≡ outside groups machines)
        × (count_of z (resolve_process_group_changes process_group groups machines).groups_to_remove
            ≡ count_in z (outside groups machines))
  unfolding resolve_process_group_changes lookup
  resolve-removes groups machines z = (
    removed-outside groups machines no_changes [],
    counts-outside z groups machines no_changes [] ∙ omega arith,
  )

  -- A group needs machines exactly if it is in the configuration and no machine is in it.
  pub resolve-needs :
      (groups : List String) (machines : List M) (z : String)
      → is_marked z
          (resolve_process_group_changes process_group groups machines).groups_needing_machines
        ≡ (has_name groups z && not (has_machine process_group z machines))
  unfolding resolve_process_group_changes has_name lookup
  resolve-needs groups machines z =
      ap (λ d. is_marked z (mark_needing has groups d))
        (needing-sorted groups machines no_changes [])
      ∙ marked-needing z has groups []
      ∙ ap (λ b. has_name groups z && not b)
          (marked-sorted process_group z groups machines no_changes [])
      ∙ by_cases (has_name groups z) (has_machine process_group z machines)
    where
      has : Dict Bool
      has = (sort_machines process_group groups machines no_changes []).1

      by_cases : (l h : Bool) → (l && not (l && h)) ≡ (l && not h)
      by_cases l h = ground arith
