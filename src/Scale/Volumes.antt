-- ===== src/Scale/Volumes.antt =====
-- The volumes of the machines that a scaling adds: PopAvailableVolumes and CreateVolumeRequest of
-- internal/command/scale/machine_defaults.go, VolumesDelta and the choice that launchMachine makes in
-- internal/command/scale/count_machines.go. Volumes and guests are of any types.
pub mod Reuse
use flyctl.Base.{
  or_empty, arith, ◌≡◌, ◌∙◌, refl, sym, ap, eq_iff, ℕ, zero, suc, ◌+◌, ◌-◌, ◌≤◌, String, Bool, true,
  false, Option, none, some, List, [], ◌∷◌, ◌++◌, ◌==◌, if◌then◌else◌, ltb, str_eq, Dict, lookup,
  put, lookup-put, length,
}
use flyctl.Base.Int.{ℤ, pos, pos_part, ◌-ℤ◌, leb_ℤ}

pub record Mount : Type 0 where
  pub name : String
  pub size_gb : ℕ
  pub encrypted : Bool

pub record MachineConfig (G : Type 0) : Type 0 where
  pub mounts : List Mount
  pub guest : G
  pub image : String

pub record CreateVolumeRequest (G : Type 0) : Type 0 where
  pub name : String
  pub region : String
  pub size_gb : ℕ
  pub encrypted : Bool
  pub require_unique_zone : Bool
  pub snapshot_id : Option String
  pub compute_requirements : G
  pub compute_image : String

-- What launchMachine does about the volume of a machine.
pub data Choice (V G : Type 0) : Type 0 where
  attach : V → Choice V G
  create : CreateVolumeRequest G → Choice V G
  refused : Choice V G

module _ {V : Type 0} where
  abbrev pub take : ℕ → List V → List V
  take zero vs = []
  take (suc n) [] = []
  take (suc n) (v ∷ vs) = v ∷ take n vs

  abbrev pub drop : ℕ → List V → List V
  drop zero vs = vs
  drop (suc n) [] = []
  drop (suc n) (v ∷ vs) = drop n vs

  -- d.existingVolumes[name][region]
  unfoldable pub volumes_at : Dict (Dict (List V)) → String → String → List V
  volumes_at existing name region = or_empty (lookup region (or_empty (lookup name existing)))

  -- The volumes of a mount: those that are handed out, and what is left.
  unfoldable pub pop_named :
      String → String → ℕ → Dict (Dict (List V)) → List V × Dict (Dict (List V))
  pop_named name region delta existing =
      let region_volumes = volumes_at existing name region in
      let available = take delta region_volumes in
      if ltb 0 (length available)
      then (
        available,
        put name
            (put region (drop (length available) region_volumes) (or_empty (lookup name existing)))
            existing,
      )
      else (available, existing)

  unfoldable pub pop_available_volumes :
      {G : Type 0}
      → MachineConfig G
      → String
      → ℤ
      → Dict (Dict (List V))
      → List V × Dict (Dict (List V))
  pop_available_volumes cfg region delta existing =
      if leb_ℤ delta (pos 0) then ([], existing) else elim cfg.mounts [
        | [] ↦ ([], existing)
        | mount ∷ mounts ↦ pop_named mount.name region (pos_part delta) existing
      ]

module _ {G : Type 0} where
  unfoldable pub create_volume_request :
      Option String → MachineConfig G → String → ℤ → ℕ → Option (CreateVolumeRequest G)
  create_volume_request snapshot cfg region delta existing_count =
      if leb_ℤ delta (pos 0) then none else elim cfg.mounts [
        | [] ↦ none
        | mount ∷ mounts ↦ some (record {
          name = mount.name;
          region = region;
          size_gb = mount.size_gb;
          encrypted = mount.encrypted;
          require_unique_zone = ltb 1 (existing_count + pos_part delta);
          snapshot_id = snapshot;
          compute_requirements = cfg.guest;
          compute_image = cfg.image;
        })
      ]

  -- VolumesDelta of an item of the plan.
  unfoldable pub volumes_delta : {V : Type 0} → Option (CreateVolumeRequest G) → ℤ → List V → ℤ
  volumes_delta none delta volumes = pos 0
  volumes_delta (some request) delta volumes = delta -ℤ pos (length volumes)

  -- The volume of the machine that is launched as number `idx`.
  unfoldable pub choose_volume :
      {V : Type 0} → ℕ → List V → Option (CreateVolumeRequest G) → Choice V G
  choose_volume zero (v ∷ vs) request = attach v
  choose_volume (suc idx) (v ∷ vs) request = choose_volume idx vs request
  choose_volume idx [] (some request) = create request
  choose_volume idx [] none = refused
