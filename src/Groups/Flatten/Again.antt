-- ===== src/Groups/Flatten/Again.antt =====
-- A configuration that was flattened for a group stays as it is.
use flyctl.Base.{
  arith, eq_iff, ◌≡◌, ◌≢◌, ◌∙◌, inl, inr, refl, sym, ap, subst, String, Bool, true, false, Option,
  none, some, List, [], ◌∷◌, str_eq, if◌then◌else◌, false≢true, Dict,
}
use flyctl.Groups.Names.{
  Compute, Config, has_name, keys, process_names, first_name, default_process_name,
  group_or_default, flatten_group_matches, flatten_groups_match,
}
use flyctl.Groups.Names.Matching.{matches_self, group_matches_iff, groups_match-IsFor}
use flyctl.Groups.Flatten.{
  pick_processes, candidates, names_group, compute_for_group, dedication, with_compute,
  pick_sections, flatten_group, flatten, IsMaxBy, Clones,
}
use flyctl.Groups.Flatten.Computes.{max_by-none, max_by-one}
use flyctl.Groups.Flatten.Picks.{
  pick_items-twice, pick_checks-twice, pick_service-twice, pick_processes-twice, keys-picked,
  names_or-has_name,
}

module _ {D : Type 0} where
  default-group :
      (c : Config D)
      → c.default_group_name ≢ ""
      → has_name (process_names c) c.default_group_name ≡ true
      → default_process_name c ≡ c.default_group_name
  unfolding default_process_name
  default-group c h l = by_test (str_eq c.default_group_name "") refl l
    where
      by_test :
          (b : Bool)
          → str_eq c.default_group_name "" ≡ b
          → has_name (process_names c) c.default_group_name ≡ true
          → (if has_name (process_names c) (if b then "app" else c.default_group_name)
              then (if b then "app" else c.default_group_name)
              else first_name (process_names c))
            ≡ c.default_group_name
      by_test true e l = absurd (h (ground (arith, eq_iff c.default_group_name "", e)))
      by_test false e l =
          ap (λ b. if b then c.default_group_name else first_name (process_names c)) l

  self_matches : (c : Config D) (g : String) → g ≢ "" → flatten_groups_match c g (g ∷ []) ≡ true
  unfolding has_name
  self_matches c g h = (groups_match-IsFor c g (g ∷ []) h).1 (inl (ground (arith, eq_iff g g)))

  only_group :
      (c : Config D) (g : String) (ps : Dict String)
      → g ≢ ""
      → has_name (keys ps) "" ≡ false
      → (k : String) → has_name (keys ps) k ≡ true
      → flatten_group_matches c g k ≡ true
      → k ≡ g
  only_group c g ps h named k l e = elim ((group_matches_iff c g k h).0 e) [
    | inl same ↦ same
    | inr none_left ↦
        absurd (false≢true (sym named ∙ ap (has_name (keys ps)) (sym none_left.0) ∙ l))
  ]

  -- The rest of what Flatten makes, over the sections before [[vm]].
  abbrev finished : List (Compute D) → String → String → String → Config D → Config D
  finished vms id path name c = record c {
    vms = vms;
    host_dedication_id = id;
    config_file_path = path;
    default_group_name = name;
  }

  pick_sections-twice :
      (c c' dst : Config D) (g : String) (vms : List (Compute D)) (id path name : String)
      → g ≢ ""
      → has_name (keys dst.processes) "" ≡ false
      → pick_sections c' g (finished vms id path name (pick_sections c g dst))
        ≡ finished vms id "--flatten--" g (pick_sections c g dst)
  unfolding pick_sections
  pick_sections-twice c c' dst g vms id path name h named = λ i.
      record (finished vms id "--flatten--" g (pick_sections c g dst)) {
        processes = processes_twice i;
        checks = pick_checks-twice m n g dst.checks self i;
        http_service = pick_service-twice m n g dst.http_service self i;
        services = pick_items-twice m n g dst.services self i;
        mounts = pick_items-twice m n g dst.mounts self i;
        files = pick_items-twice m n g dst.files self i;
        metrics = pick_items-twice m n g dst.metrics self i;
        restart = pick_items-twice m n g dst.restart self i;
      }
    where
      m : List String → Bool
      m = flatten_groups_match c g

      n : List String → Bool
      n = flatten_groups_match c' g

      self : n (g ∷ []) ≡ true
      self = self_matches c' g h

      before : Config D
      before = record dst { config_file_path = "--flatten--"; default_group_name = g }

      now : Config D
      now = finished vms id "--flatten--" g (pick_sections c g dst)

      processes_twice :
          pick_processes
            (flatten_group_matches now g)
            (pick_processes (flatten_group_matches before g) dst.processes)
          ≡ pick_processes (flatten_group_matches before g) dst.processes
      processes_twice =
          pick_processes-twice (flatten_group_matches before g) (flatten_group_matches now g)
            dst.processes
            (λ k l e.
              ap (flatten_group_matches now g) (only_group before g dst.processes h named k l e)
              ∙ matches_self now g h)

  module _ (max_by : (Compute D → Compute D → Bool) → List (Compute D) → Option (Compute D))
      (maximal : IsMaxBy max_by) where
    -- The [[vm]] part changes nothing the second time.
    with_compute-twice :
        (g : String) (o : Option (Compute D)) (dst : Config D)
        → g ≢ ""
        → with_compute g (compute_for_group max_by (with_compute g o dst) g) (with_compute g o dst)
          ≡ with_compute g o dst
    unfolding compute_for_group candidates
    with_compute-twice g none dst h =
        ap (λ p. with_compute g p (with_compute g none dst)) (max_by-none max_by maximal _)
    with_compute-twice g (some x) dst h =
        ap (λ p. with_compute g p d) found
        ∙ (λ i. record d { host_dedication_id = dedicated x.guest_dedication i })
      where
        x' : Compute D
        x' = record x { groups = g ∷ [] }

        d : Config D
        d = with_compute g (some x) dst

        same : group_or_default d g ≡ g
        same = ground (arith, h, eq_iff g "")

        found : compute_for_group max_by d g ≡ some x'
        found =
            ap (λ k. max_by (names_group k) (candidates d k d.vms)) same
            ∙ ap (λ b. max_by (names_group g) (if b then x' ∷ [] else [])) (self_matches d g h)
            ∙ max_by-one max_by maximal g x'

        dedicated :
            (o : Option String)
            → dedication o (dedication o dst.host_dedication_id)
              ≡ dedication o dst.host_dedication_id
        dedicated none = refl
        dedicated (some a) = by_test (str_eq a "")
          where
            by_test :
                (b : Bool)
                → (if b then (if b then dst.host_dedication_id else a) else a)
                  ≡ (if b then dst.host_dedication_id else a)
            by_test true = refl
            by_test false = refl

    module _ (clone : Config D → Config D) (clones : Clones clone) where
      -- What was made of a copy `dst` is left as it is.
      finished_again :
          (c dst : Config D) (g : String) (vms : List (Compute D)) (id : String)
          → g ≢ ""
          → has_name (keys dst.processes) "" ≡ false
          → dst.unmarshal_error ≡ none
          → with_compute g
              (compute_for_group max_by (finished vms id "--flatten--" g (pick_sections c g dst)) g)
              (finished vms id "--flatten--" g (pick_sections c g dst))
            ≡ finished vms id "--flatten--" g (pick_sections c g dst)
          → flatten max_by clone (finished vms id "--flatten--" g (pick_sections c g dst)) ""
            ≡ some (finished vms id "--flatten--" g (pick_sections c g dst))
      unfolding flatten pick_sections process_names
      finished_again c dst g vms id h named fine twice =
          ap
            (λ z. elim z as (λ x. Option (Config D)) [
              | some e ↦ none
              | none ↦ some (flatten_group max_by clone q (group_or_default q ""))
            ])
            fine
          ∙ ap (λ k. some (flatten_group max_by clone q k)) (default-group q h listed)
          ∙ ap (λ z. some (with_compute g (compute_for_group max_by z g) z)) picked
          ∙ ap (λ z. some z) twice
        where
          q : Config D
          q = finished vms id "--flatten--" g (pick_sections c g dst)

          before : Config D
          before = record dst { config_file_path = "--flatten--"; default_group_name = g }

          listed : has_name (process_names q) g ≡ true
          listed = names_or-has_name g (keys q.processes) h (
              keys-picked (flatten_group_matches before g) g dst.processes
                (only_group before g dst.processes h named))

          picked : pick_sections q g (clone q) ≡ q
          picked =
              let (path, name, copy) = clones q fine in
              ap (pick_sections q g) copy ∙ pick_sections-twice c q dst g vms id path name h named

      flattened_again :
          (c dst : Config D) (g : String) (o : Option (Compute D))
          → g ≢ ""
          → has_name (keys dst.processes) "" ≡ false
          → dst.unmarshal_error ≡ none
          → flatten max_by clone (with_compute g o (pick_sections c g dst)) ""
            ≡ some (with_compute g o (pick_sections c g dst))
      unfolding pick_sections
      flattened_again c dst g none h named fine =
          finished_again c dst g _ _ h named fine
            (with_compute-twice g none (pick_sections c g dst) h)
      flattened_again c dst g (some x) h named fine =
          finished_again c dst g _ _ h named fine
            (with_compute-twice g (some x) (pick_sections c g dst) h)

      -- Flatten leaves a configuration that it has made for a group as it is, if it is called for the
      -- default group of that configuration, the group has a name and no process has an empty one. This
      -- is for a clone that copies all but the two private names of a configuration, and a MaxBy that
      -- gives an element than which none is better.
      pub flatten-again :
          (c d : Config D) (group : String)
          → group_or_default c group ≢ ""
          → has_name (keys c.processes) "" ≡ false
          → flatten max_by clone c group ≡ some d
          → flatten max_by clone d "" ≡ some d
      unfolding flatten
      flatten-again c d group h named e = by_error c.unmarshal_error refl e
        where
          g : String
          g = group_or_default c group

          made : Config D
          made = flatten_group max_by clone c g

          some_injective : {a b : Config D} → some a ≡ some b → a ≡ b
          some_injective e = cc e

          by_error :
              (o : Option String)
              → c.unmarshal_error ≡ o
              → (elim o as (λ x. Option (Config D)) [ some e ↦ none | none ↦ some made ]) ≡ some d
              → flatten max_by clone d "" ≡ some d
          by_error (some x) k e = absurd (cc e)
          by_error none k e =
              let (path, name, copy) = clones c k in
              subst (λ z. flatten max_by clone z "" ≡ some z) (some_injective e)
                (flattened_again c (clone c) g
                  (compute_for_group max_by (pick_sections c g (clone c)) g) h
                  (ap (λ z. has_name (keys z.processes) "") copy ∙ named)
                  (ap (λ z. z.unmarshal_error) copy ∙ k))
