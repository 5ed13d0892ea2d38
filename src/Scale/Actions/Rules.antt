-- ===== src/Scale/Actions/Rules.antt =====
-- Rules for what holds of the plan of computeActions, by what holds of the items of a group and how
-- that is carried through its two loops.
pub mod Made
use flyctl.Base.{
  arith, All, subst, str_eq, if◌then◌else◌, group_by, ◌≡◌, refl, String, Bool, true, false, Option,
  none, some, List, [], ◌∷◌, ◌++◌, Dict, lookup,
}
use flyctl.Base.Int.{ℤ, pos, ◌≤ℤ◌}
use flyctl.Scale.Volumes.{MachineConfig}
use flyctl.Scale.Actions.{
  GroupCount, Machine, PlanItem, no_config, Planned, planned, not_planned, and_then,
  expected_counts, Volumes, Items, plan_group, plan_existing, plan_new, more_items,
  plan_all_existing, plan_all_new, compute_actions,
}
use Made.{Holds, and_then-Holds, Holds-imp, HoldsOf, more-Holds}

abbrev pub NotNegative : Dict ℤ → Type 0
NotNegative expected = All (λ e. pos 0 ≤ℤ e.1) expected

NotNegative-lookup :
    (d : Dict ℤ) (name : String) (n : ℤ) → NotNegative d → lookup name d ≡ some n → pos 0 ≤ℤ n
unfolding lookup
NotNegative-lookup [] name n h e = absurd (cc e)
NotNegative-lookup ((k, v) ∷ d) name n (here, later) e =
    by_test (str_eq k name) e (NotNegative-lookup d name n later)
  where
    some_injective : {a b : ℤ} → some a ≡ some b → a ≡ b
    some_injective e = cc e

    by_test :
        (b : Bool)
        → (if b then some v else lookup name d) ≡ some n
        → (lookup name d ≡ some n → pos 0 ≤ℤ n)
        → pos 0 ≤ℤ n
    by_test true e k = subst (λ z. pos 0 ≤ℤ z) (some_injective e) here
    by_test false e k = k e

pub expected_counts-NotNegative :
    {A : Type 0} (groups : Dict (List A)) (wanted : Dict GroupCount)
    → NotNegative (expected_counts groups wanted)
unfolding expected_counts
expected_counts-NotNegative groups [] = tt
expected_counts-NotNegative groups ((name, c) ∷ cs) =
    (omega arith, expected_counts-NotNegative groups cs)

module _ {V G : Type 0} (uniq : List String → List String) (keys : Dict ℤ → List String)
    (without_standbys : MachineConfig G → MachineConfig G)
    (to_config : String → Option (MachineConfig G)) (snapshot : Option String)
    (regions : List String) (max : ℤ) where
  pub plan_existing-Holds :
      (P : List (PlanItem V G) → Type 0) (name : String) (n : ℤ) (ms : List (Machine G))
      (volumes : Volumes V)
      → ((config : MachineConfig G)
          → HoldsOf P (
              plan_group uniq keys without_standbys to_config snapshot regions max name n
                (group_by (λ m. m.region) ms [])
                config
                volumes))
      → HoldsOf P (
          plan_existing uniq keys without_standbys to_config snapshot regions max name n ms volumes)
  unfolding plan_existing
  plan_existing-Holds P name n [] volumes h = tt
  plan_existing-Holds P name n (m ∷ ms) volumes h = h (without_standbys m.config)

  pub plan_new-Holds :
      (P : List (PlanItem V G) → Type 0) (name : String) (n : ℤ) (volumes : Volumes V)
      → ((config : MachineConfig G)
          → HoldsOf P (
              plan_group uniq keys without_standbys to_config snapshot regions max name n [] config
                volumes))
      → HoldsOf P
          (plan_new uniq keys without_standbys to_config snapshot regions max name n volumes)
  plan_new-Holds P name n volumes h = by_config (to_config name)
    where
      by_config :
          (o : Option (MachineConfig G))
          → HoldsOf P (elim o as (λ x. Planned (Items V G)) [
            | none ↦ not_planned no_config
            | some config ↦
                plan_group uniq keys without_standbys to_config snapshot regions max name n []
                  config volumes
          ])
      by_config none = tt
      by_config (some config) = h config

  -- The first loop: what holds of the items of a group, and of those of the groups that are left.
  pub plan_all_existing-Holds :
      (expected : Dict ℤ) (Here : String → ℤ → List (Machine G) → List (PlanItem V G) → Type 0)
      (Loop : Dict (List (Machine G)) → List (PlanItem V G) → Type 0)
      → ((name : String) (n : ℤ) (ms : List (Machine G)) (volumes : Volumes V)
          → pos 0 ≤ℤ n
          → HoldsOf (Here name n ms) (
              plan_existing uniq keys without_standbys to_config snapshot regions max name n ms
                volumes))
      → Loop [] []
      → ((name : String) (ms : List (Machine G)) (groups : Dict (List (Machine G)))
            (items : List (PlanItem V G))
          → lookup name expected ≡ none
          → Loop groups items
          → Loop ((name, ms) ∷ groups) items)
      → ((name : String) (n : ℤ) (ms : List (Machine G)) (groups : Dict (List (Machine G)))
            (xs ys : List (PlanItem V G))
          → lookup name expected ≡ some n
          → Here name n ms xs
          → Loop groups ys
          → Loop ((name, ms) ∷ groups) (xs ++ ys))
      → NotNegative expected
      → (groups : Dict (List (Machine G))) (volumes : Volumes V)
      → HoldsOf (Loop groups) (
          plan_all_existing uniq keys without_standbys to_config snapshot regions max expected
            groups volumes)
  unfolding plan_all_existing
  plan_all_existing-Holds expected Here Loop plans ends left_out taken wanted [] volumes = ends
  plan_all_existing-Holds expected Here Loop plans ends left_out taken wanted ((name, ms) ∷ groups)
        volumes =
      by_expected (lookup name expected) refl
        (plan_all_existing-Holds expected Here Loop plans ends left_out taken wanted groups)
    where
      rest : Volumes V → Planned (Items V G)
      rest =
          plan_all_existing uniq keys without_standbys to_config snapshot regions max expected
            groups

      by_expected :
          (o : Option ℤ)
          → lookup name expected ≡ o
          → ((v : Volumes V) → HoldsOf (Loop groups) (rest v))
          → HoldsOf (Loop ((name, ms) ∷ groups)) (elim o as (λ x. Planned (Items V G)) [
            | none ↦ rest volumes
            | some n ↦
                and_then
                  (plan_existing uniq keys without_standbys to_config snapshot regions max name n ms
                    volumes)
                  (λ made. and_then (rest made.1) (λ r.
                    planned (
                      more_items uniq keys without_standbys to_config snapshot regions max made r)))
          ])
      by_expected none e k =
          Holds-imp (rest volumes) (λ made. left_out name ms groups made.0 e) (k volumes)
      by_expected (some n) e k =
          more-Holds (Here name n ms) (Loop groups) (Loop ((name, ms) ∷ groups)) _ rest
            (λ xs ys. taken name n ms groups xs ys e)
            (plans name n ms volumes (NotNegative-lookup expected name n wanted e)) k

  -- The second loop, over the groups that are expected.
  pub plan_all_new-Holds :
      (seen : Dict (List (Machine G))) (Here : String → ℤ → List (PlanItem V G) → Type 0)
      (Loop : Dict ℤ → List (PlanItem V G) → Type 0)
      → ((name : String) (n : ℤ) (volumes : Volumes V)
          → pos 0 ≤ℤ n
          → HoldsOf
              (Here name n)
              (plan_new uniq keys without_standbys to_config snapshot regions max name n volumes))
      → Loop [] []
      → ((name : String) (n : ℤ) (ms : List (Machine G)) (expected : Dict ℤ)
            (items : List (PlanItem V G))
          → lookup name seen ≡ some ms
          → Loop expected items
          → Loop ((name, n) ∷ expected) items)
      → ((name : String) (n : ℤ) (expected : Dict ℤ) (xs ys : List (PlanItem V G))
          → lookup name seen ≡ none
          → Here name n xs
          → Loop expected ys
          → Loop ((name, n) ∷ expected) (xs ++ ys))
      → (expected : Dict ℤ) (volumes : Volumes V) → NotNegative expected
      → HoldsOf (Loop expected) (
          plan_all_new uniq keys without_standbys to_config snapshot regions max seen expected
            volumes)
  unfolding plan_all_new
  plan_all_new-Holds seen Here Loop plans ends left_out taken [] volumes wanted = ends
  plan_all_new-Holds seen Here Loop plans ends left_out taken ((name, n) ∷ expected) volumes
        (here, wanted) =
      by_seen (lookup name seen) refl
        (λ v. plan_all_new-Holds seen Here Loop plans ends left_out taken expected v wanted)
    where
      rest : Volumes V → Planned (Items V G)
      rest = plan_all_new uniq keys without_standbys to_config snapshot regions max seen expected

      by_seen :
          (o : Option (List (Machine G)))
          → lookup name seen ≡ o
          → ((v : Volumes V) → HoldsOf (Loop expected) (rest v))
          → HoldsOf (Loop ((name, n) ∷ expected)) (elim o as (λ x. Planned (Items V G)) [
            | some ms ↦ rest volumes
            | none ↦
                and_then
                  (plan_new uniq keys without_standbys to_config snapshot regions max name n
                    volumes)
                  (λ made. and_then (rest made.1) (λ r.
                    planned (
                      more_items uniq keys without_standbys to_config snapshot regions max made r)))
          ])
      by_seen (some ms) e k =
          Holds-imp (rest volumes) (λ made. left_out name n ms expected made.0 e) (k volumes)
      by_seen none e k =
          more-Holds (Here name n) (Loop expected) (Loop ((name, n) ∷ expected)) _ rest
            (λ xs ys. taken name n expected xs ys e) (plans name n volumes here) k

  -- The plan as a whole: what the two loops leave, one behind the other.
  pub compute_actions-Holds :
      (P Q R : List (PlanItem V G) → Type 0) (minvers : Bool) (machines : List (Machine G))
      (counts : Dict GroupCount) (volumes : Volumes V)
      → ((xs ys : List (PlanItem V G)) → P xs → Q ys → R (xs ++ ys))
      → ((v : Volumes V)
          → HoldsOf P (
              plan_all_existing uniq keys without_standbys to_config snapshot regions max
                (expected_counts (group_by (λ m. m.group) machines []) counts)
                (group_by (λ m. m.group) machines [])
                v))
      → ((v : Volumes V)
          → HoldsOf Q (
              plan_all_new uniq keys without_standbys to_config snapshot regions max
                (group_by (λ m. m.group) machines [])
                (expected_counts (group_by (λ m. m.group) machines []) counts)
                v))
      → Holds R (
          compute_actions uniq keys without_standbys to_config snapshot regions max minvers machines
            counts volumes)
  unfolding compute_actions
  compute_actions-Holds P Q R false machines counts volumes joins old new = tt
  compute_actions-Holds P Q R true machines counts volumes joins old new =
      and_then-Holds (λ (m : Items V G). P m.0) R _ _ (old volumes)
        (λ m here.
          and_then-Holds (λ (r : Items V G). Q r.0) R _ _ (new m.1)
            (λ r later. joins m.0 r.0 here later))
