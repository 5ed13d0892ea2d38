-- ===== src/Scale/Tests.antt =====
-- Runs of the scaling functions, and the theorems at concrete inputs.
use flyctl.Base.{
  ◌^◌, Option, none, true, ◌++◌, length, ◌≤◌, String, ◌≡◌, refl, List, [], ◌∷◌, arith, Dict, ◌⊎◌,
  map, eq_iff, ◌≢◌, lookup, put,
}
use flyctl.Base.Int.{ℤ, pos, negsuc, wrap, ◌+ℤ◌, ◌-ℤ◌}
use flyctl.Scale.Converge.{
  returned, max_per_region, at, total, trim, remaining, has_room, grow, shrink, wanted_regions,
  settle, converge_group_counts,
}
use flyctl.Scale.Volumes.{
  MachineConfig, CreateVolumeRequest, volumes_at, pop_named, pop_available_volumes,
  create_volume_request, volumes_delta,
}
use flyctl.Scale.Volumes.Reuse.{creations, pop_named-append, creations-volumes_delta}
use flyctl.Scale.Converge.Totals.{totals}
use flyctl.Scale.Converge.Loops.{Settled}
use flyctl.Scale.Converge.Correct.{IsOver, converge_correct}

-- `lo.Uniq` on lists with no repeats, and `lo.Keys` in the order of the list.
abbrev same : List String → List String
same rs = rs

abbrev keys : Dict ℤ → List String
keys m = map (λ e. e.0) m

abbrev two_regions : Dict ℤ
two_regions = ("ams", pos 4) ∷ ("scl", pos 1) ∷ []

abbrev asked : List String
asked = "ams" ∷ "scl" ∷ []

converge_runs :
    converge_group_counts same keys 100 (pos 4) two_regions asked (pos 3)
    ≡ returned (("ams", negsuc 0) ∷ [])
unfolding converge_group_counts settle wanted_regions grow shrink has_room total trim at put lookup
    remaining wrap ◌+ℤ◌ ◌-ℤ◌
converge_runs = refl

-- The product of two regions and this maximum wraps around.
converge_wraps :
    converge_group_counts same keys 100 (pos 1) [] asked (pos (2 ^ 62)) ≡ max_per_region
unfolding converge_group_counts wanted_regions wrap
converge_wraps = refl

distinct_asked : ◌≢◌ {A = String} "ams" "scl"
distinct_asked = ground (arith, eq_iff "ams" "scl")

converge_correct_example :
    (IsOver (pos 6) (pos 3) asked
      × (converge_group_counts same keys 100 (pos 6) two_regions asked (pos 3) ≡ max_per_region))
    ⊎ ((¬ IsOver (pos 6) (pos 3) asked)
        × ((d : Dict ℤ) × (converge_group_counts same keys 100 (pos 6) two_regions asked (pos 3)
              ≡ returned d)
            × Settled (pos 6) (pos 3) two_regions asked d))
unfolding wanted_regions at lookup total ◌+ℤ◌ totals
converge_correct_example =
    converge_correct same keys (pos 6) (pos 3) two_regions asked 100
      (record { product = omega arith; expected_total = omega arith; counted = omega arith })
      ((distinct_asked, tt), (tt, tt)) (omega arith) (omega arith) (omega arith) (omega arith)

-- Two volumes called `data` in one region, for three machines.
abbrev volumes : Dict (Dict (List String))
volumes = ("data", ("ams", "vol_1" ∷ "vol_2" ∷ []) ∷ []) ∷ []

abbrev with_mount : MachineConfig String
with_mount = record {
  mounts = (record { name = "data"; size_gb = 1; encrypted = true }) ∷ [];
  guest = "shared";
  image = "app";
}

pop_named-append_example :
    ((pop_named "data" "ams" 3 volumes).0
        ++ volumes_at (pop_named "data" "ams" 3 volumes).1 "data" "ams"
      ≡ volumes_at volumes "data" "ams")
    × (length (pop_named "data" "ams" 3 volumes).0 ≤ 3)
    × ((k r : String)
        → ("data" ≢ k) ⊎ ("ams" ≢ r)
        → volumes_at (pop_named "data" "ams" 3 volumes).1 k r ≡ volumes_at volumes k r)
pop_named-append_example = pop_named-append "data" "ams" 3 volumes

abbrev data_request : Option (CreateVolumeRequest String)
data_request = create_volume_request none with_mount "ams" (pos 3) 0

creations-volumes_delta_example :
    pos (creations 3 (pop_available_volumes with_mount "ams" (pos 3) volumes).0 data_request)
    ≡ volumes_delta data_request (pos 3) (pop_available_volumes with_mount "ams" (pos 3) volumes).0
creations-volumes_delta_example = creations-volumes_delta String none with_mount "ams" 3 0 volumes

-- Two volumes are reused, and one is created.
one_created :
    volumes_delta data_request (pos 3) (pop_available_volumes with_mount "ams" (pos 3) volumes).0
    ≡ pos 1
unfolding create_volume_request pop_available_volumes pop_named volumes_at volumes_delta lookup put
    ◌-ℤ◌
one_created = refl
