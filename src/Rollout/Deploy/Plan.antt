-- ===== src/Rollout/Deploy/Plan.antt =====
-- deployMachinesApp goes through a plan of steps, up to the first one that fails.
use flyctl.Base.{
  eq_iff, All, All-and, ◌≡◌, ◌≢◌, ◌∙◌, refl, sym, ap, String, Bool, true, false, not, ◌&&◌, ◌⊎◌,
  inl, inr, Option, none, some, List, [], ◌∷◌, ◌++◌, str_eq, if◌then◌else◌, Dict, arith,
}
use mathlib.Core.Path.{fun_ext}
use flyctl.Base.Bytes.{codes}
use flyctl.Plan.Checks.{Fault}
use flyctl.Groups.Names.{has_name}
use flyctl.Groups.Changes.{resolve_process_group_changes}
use flyctl.Groups.Changes.Partition.{outside, resolve-removes}
use flyctl.Rollout.Deploy.{
  Settings, DeployCalls, and_then, wrapped, update_existing_machines, destroy_all, has_id, without,
  update_step, update_entries, deploy_machines_app,
}

-- What a deployment does; `fails` is a launch input that cannot be made.
pub data Step (M I : Type 0) : Type 0 where
  runs_release_commands makes_canaries : Step M I
  releases_leases : List M → Step M I
  destroys : M → Step M I
  creates_machines : Dict Bool → Step M I
  updates : List (M × I) → Step M I
  fails : Fault → Step M I

module _ {M : Type 0} (id : M → String) where
  -- No two machines have the same id.
  abbrev pub Distinct : List M → Type 0
  Distinct [] = Unit
  Distinct (m ∷ ms) = All (λ x. id x ≢ id m) ms × Distinct ms

module _ {M : Type 0} (process_group : M → String) where
  -- The machines whose group is one of those given.
  unfoldable pub inside : List String → List M → List M
  inside groups [] = []
  inside groups (m ∷ ms) =
      let rest = inside groups ms in if has_name groups (process_group m) then m ∷ rest else rest

module _ {W M I : Type 0} (calls : DeployCalls W M I) (settings : Settings) where
  abbrev pub perform : Step M I → W → Option Fault × W
  perform runs_release_commands w =
      wrapped (codes "release command failed - aborting deployment. ")
        (calls.run_release_commands w)
  perform makes_canaries w = calls.deploy_canary_machines w
  perform (releases_leases ms) w = calls.release_leases_of ms w
  perform (destroys m) w = calls.destroy m w
  perform (creates_machines needing) w = calls.create_machines_for_groups needing w
  perform (updates entries) w = update_existing_machines calls settings entries w
  perform (fails f) w = (some f, w)

  -- The steps in their order, up to the first one with an error.
  unfoldable pub follow : List (Step M I) → W → Option Fault × W
  follow [] w = (none, w)
  follow (step ∷ steps) w = and_then (perform step w) (follow steps)

  abbrev pub only_if : Bool → Step M I → List (Step M I)
  only_if true step = step ∷ []
  only_if false step = []

  abbrev pub destroying : List M → List (Step M I)
  destroying [] = []
  destroying (m ∷ ms) = destroys m ∷ destroying ms

  abbrev pub updating : Fault ⊎ List (M × I) → List (Step M I)
  updating (inl f) = fails f ∷ []
  updating (inr entries) = updates entries ∷ []

  -- The plan: the machines whose group is not in the configuration are given up and destroyed, those whose
  -- group is in it are updated.
  unfoldable pub plan : List String → List M → List (Step M I)
  plan groups machines =
      only_if (not settings.skip_release_command) runs_release_commands
      ++ (only_if (str_eq settings.strategy "canary" && not settings.is_first_deploy) makes_canaries
          ++ (releases_leases (outside calls.process_group groups machines)
              ∷ (destroying (outside calls.process_group groups machines)
                  ++ (only_if (not settings.update_only) (
                        creates_machines
                          (resolve_process_group_changes calls.process_group groups
                            machines).groups_needing_machines)
                      ++ updating (
                          update_entries calls settings
                            (inside calls.process_group groups machines))))))

  then-then :
      (r : Option Fault × W) (f g : W → Option Fault × W)
      → and_then (and_then r f) g ≡ and_then r (λ w. and_then (f w) g)
  then-then (some x, w) f g = refl
  then-then (none, w) f g = refl

  follow-append :
      (xs ys : List (Step M I)) (w : W) → follow (xs ++ ys) w ≡ and_then (follow xs w) (follow ys)
  unfolding follow
  follow-append [] ys w = refl
  follow-append (x ∷ xs) ys w =
      ap (and_then (perform x w)) (fun_ext (follow-append xs ys))
      ∙ sym (then-then (perform x w) (follow xs) (follow ys))

  -- Parts of the code and of the plan, one behind the other.
  both :
      (xs ys : List (Step M I)) (f g : W → Option Fault × W)
      → ((w : W) → f w ≡ follow xs w)
      → ((w : W) → g w ≡ follow ys w)
      → (w : W) → and_then (f w) g ≡ follow (xs ++ ys) w
  both xs ys f g hf hg w =
      ap (λ r. and_then r g) (hf w)
      ∙ ap (and_then (follow xs w)) (fun_ext hg)
      ∙ sym (follow-append xs ys w)

  then_nothing : (r : Option Fault × W) → r ≡ and_then r (λ w. (none, w))
  then_nothing (some f, w) = refl
  then_nothing (none, w) = refl

  follow_one : (step : Step M I) (w : W) → perform step w ≡ follow (step ∷ []) w
  unfolding follow
  follow_one step w = then_nothing (perform step w)

  follow-only_if :
      (b : Bool) (step : Step M I) (w : W)
      → (if b then perform step w else (none, w)) ≡ follow (only_if b step) w
  unfolding follow
  follow-only_if true step w = then_nothing (perform step w)
  follow-only_if false step w = refl

  follow-unless :
      (b : Bool) (step : Step M I) (w : W)
      → (if b then (none, w) else perform step w) ≡ follow (only_if (not b) step) w
  unfolding follow
  follow-unless true step w = refl
  follow-unless false step w = then_nothing (perform step w)

  destroy_all-follow :
      (ms : List M) (w : W) → destroy_all calls settings ms w ≡ follow (destroying ms) w
  unfolding destroy_all follow
  destroy_all-follow [] w = refl
  destroy_all-follow (m ∷ ms) w =
      ap (and_then (calls.destroy m w)) (fun_ext (destroy_all-follow ms))

  update_step-follow :
      (es : Fault ⊎ List (M × I)) (w : W) → update_step calls settings es w ≡ follow (updating es) w
  unfolding follow
  update_step-follow (inl f) w = refl
  update_step-follow (inr es) w = then_nothing (update_existing_machines calls settings es w)

  -- RemoveMachines leaves the machines of the groups in the configuration.
  unknown_id :
      (groups : List String) (i : String) (ms : List M)
      → All (λ x. calls.id x ≢ i) ms
      → has_id calls settings i (outside calls.process_group groups ms) ≡ false
  unfolding outside
  unknown_id groups i [] h = refl
  unknown_id groups i (m ∷ ms) h =
      ground (arith, h.0, eq_iff i (calls.id m), unknown_id groups i ms h.1)

  removed-ids :
      (groups : List String) (ms : List M)
      → Distinct calls.id ms
      → All
          (λ m.
            has_id calls settings (calls.id m) (outside calls.process_group groups ms)
            ≡ not (has_name groups (calls.process_group m)))
          ms
  unfolding outside
  removed-ids groups [] h = tt
  removed-ids groups (m ∷ ms) (fresh, h) = (
    ground (arith, unknown_id groups (calls.id m) ms fresh, eq_iff (calls.id m) (calls.id m)),
    All-and _ _ _ (λ x ne same. ground (arith, ne, same, eq_iff (calls.id x) (calls.id m))) ms fresh
        (removed-ids groups ms h),
  )

  without-keep :
      (groups : List String) (removed ms : List M)
      → All
          (λ m.
            has_id calls settings (calls.id m) removed
            ≡ not (has_name groups (calls.process_group m)))
          ms
      → without calls settings removed ms ≡ inside calls.process_group groups ms
  unfolding without inside
  without-keep groups removed [] h = refl
  without-keep groups removed (m ∷ ms) h = ground (arith, h.0, without-keep groups removed ms h.1)

  -- If no two machines have the same id, deployMachinesApp goes through these steps up to the first
  -- one that fails: the release commands, unless they are skipped; canary machines, for the canary
  -- strategy and not on the first deployment; the leases of the machines whose group is not in the
  -- configuration are released, and these machines are destroyed; machines are made for the groups
  -- that need some, unless only updates are wanted; and the machines whose group is in the
  -- configuration are updated, all at once with their launch inputs, or the first launch input that
  -- cannot be made is the error.
  pub deploy-plan :
      (groups : List String) (machines : List M) (w : W)
      → Distinct calls.id machines
      → deploy_machines_app calls settings groups machines w ≡ follow (plan groups machines) w
  unfolding deploy_machines_app plan
  deploy-plan groups machines w distinct =
      rw
        (
          (resolve-removes calls.process_group groups machines "").0,
          without-keep groups out machines (removed-ids groups machines distinct),
        )
        (both _ _ _ _ (follow-unless settings.skip_release_command runs_release_commands)
          (both _ _ _ _
            (follow-only_if (str_eq settings.strategy "canary" && not settings.is_first_deploy)
              makes_canaries)
            (both (releases_leases out ∷ []) _ _ _ (follow_one (releases_leases out)) (
              both (destroying out) _ _ _ (destroy_all-follow out) (
                both _ _ _ _
                  (follow-unless settings.update_only (
                    creates_machines
                      (resolve_process_group_changes calls.process_group groups
                        machines).groups_needing_machines))
                  (update_step-follow (
                    update_entries calls settings (inside calls.process_group groups machines)))))))
          w)
    where
      out : List M
      out = outside calls.process_group groups machines
