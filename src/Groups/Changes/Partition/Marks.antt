-- ===== src/Groups/Changes/Partition/Marks.antt =====
-- Which groups are marked by the two loops.
use flyctl.Base.{
  arith, eq_iff, ◌≡◌, ◌∙◌, refl, sym, ap, String, Bool, true, false, not, ◌&&◌, ◌||◌, some, List,
  [], ◌∷◌, str_eq, if◌then◌else◌, Dict, lookup, put, lookup-put,
}
use flyctl.Groups.Names.{has_name}
use flyctl.Groups.Changes.{
  ProcessGroupsDiff, or_false, is_marked, remove_machine, sort_machines, mark_needing,
}

marked-put :
    (k z : String) (m : Dict Bool) → is_marked z (put k true m) ≡ (str_eq k z || is_marked z m)
marked-put k z m = ap or_false (lookup-put k z true m) ∙ by_test (str_eq k z)
  where
    by_test :
        (b : Bool) → or_false (if b then some true else lookup z m) ≡ (b || or_false (lookup z m))
    by_test true = refl
    by_test false = refl

pub marked-needing :
    (z : String) (has : Dict Bool) (names : List String) (d : Dict Bool)
    → is_marked z (mark_needing has names d)
      ≡ (is_marked z d || (has_name names z && not (is_marked z has)))
unfolding mark_needing has_name
marked-needing z has [] d = ground arith
marked-needing z has (n ∷ names) d = by_test (is_marked n has) refl (marked-needing z has names d) (
    marked-needing z has names (put n true d)
    ∙ ap (λ b. b || (has_name names z && not (is_marked z has))) (marked-put n z d))
  where
    same_mark : str_eq n z ≡ true → is_marked n has ≡ is_marked z has
    same_mark e = ap (λ k. is_marked k has) ((eq_iff n z).0 e)

    by_cases :
        (b s l h w : Bool) (rest : Bool)
        → (s ≡ true → b ≡ w)
        → (b ≡ true → rest ≡ (h || (l && not w)))
        → (b ≡ false → rest ≡ ((s || h) || (l && not w)))
        → rest ≡ (h || ((s || l) && not w))
    by_cases b s l h w rest e p q = ground arith

    by_test :
        (b : Bool)
        → is_marked n has ≡ b
        → is_marked z (mark_needing has names d)
          ≡ (is_marked z d || (has_name names z && not (is_marked z has)))
        → is_marked z (mark_needing has names (put n true d))
          ≡ ((str_eq n z || is_marked z d) || (has_name names z && not (is_marked z has)))
        → is_marked z
            (if not b then mark_needing has names (put n true d) else mark_needing has names d)
          ≡ (is_marked z d || ((str_eq n z || has_name names z) && not (is_marked z has)))
    by_test true e p q =
        by_cases true (str_eq n z) (has_name names z) (is_marked z d) (is_marked z has) _
          (λ s. sym e ∙ same_mark s) (λ t. p) (λ f. absurd (cc f))
    by_test false e p q =
        by_cases false (str_eq n z) (has_name names z) (is_marked z d) (is_marked z has) _
          (λ s. sym e ∙ same_mark s) (λ t. absurd (cc t)) (λ f. q)

module _ {M : Type 0} (process_group : M → String) where
  abbrev pub has_machine : String → List M → Bool
  has_machine name [] = false
  has_machine name (m ∷ ms) = str_eq (process_group m) name || has_machine name ms

  pub marked-sorted :
      (z : String) (groups : List String) (ms : List M) (diff : ProcessGroupsDiff M)
      (has : Dict Bool)
      → is_marked z (sort_machines process_group groups ms diff has).1
        ≡ (is_marked z has || (has_name groups z && has_machine z ms))
  unfolding sort_machines
  marked-sorted z groups [] diff has = ground arith
  marked-sorted z groups (m ∷ ms) diff has =
      by_test (has_name groups (process_group m)) refl
        (marked-sorted z groups ms diff (put (process_group m) true has)
          ∙ ap (λ b. b || (has_name groups z && has_machine z ms))
              (marked-put (process_group m) z has))
        (marked-sorted z groups ms (remove_machine (process_group m) m diff) has)
    where
      kept : ProcessGroupsDiff M × Dict Bool
      kept = sort_machines process_group groups ms diff (put (process_group m) true has)

      removed : ProcessGroupsDiff M × Dict Bool
      removed = sort_machines process_group groups ms (remove_machine (process_group m) m diff) has

      listed :
          str_eq (process_group m) z ≡ true → has_name groups (process_group m) ≡ has_name groups z
      listed e = ap (has_name groups) ((eq_iff (process_group m) z).0 e)

      by_cases :
          (b s l h : Bool) (rest : Bool)
          → (s ≡ true → b ≡ l)
          → (b ≡ true → rest ≡ ((s || h) || (l && has_machine z ms)))
          → (b ≡ false → rest ≡ (h || (l && has_machine z ms)))
          → rest ≡ (h || (l && (s || has_machine z ms)))
      by_cases b s l h rest e p q = ground arith

      by_test :
          (b : Bool)
          → has_name groups (process_group m) ≡ b
          → is_marked z kept.1 ≡ (
              (str_eq (process_group m) z || is_marked z has)
              || (has_name groups z && has_machine z ms))
          → is_marked z removed.1 ≡ (is_marked z has || (has_name groups z && has_machine z ms))
          → is_marked z (if b then kept else removed).1 ≡ (
              is_marked z has
              || (has_name groups z && (str_eq (process_group m) z || has_machine z ms)))
      by_test true e p q =
          by_cases true (str_eq (process_group m) z) (has_name groups z) (is_marked z has) _
            (λ s. sym e ∙ listed s) (λ t. p) (λ f. absurd (cc f))
      by_test false e p q =
          by_cases false (str_eq (process_group m) z) (has_name groups z) (is_marked z has) _
            (λ s. sym e ∙ listed s) (λ t. absurd (cc t)) (λ f. q)
