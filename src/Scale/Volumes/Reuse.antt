-- ===== src/Scale/Volumes/Reuse.antt =====
-- Volumes are handed out at most once, and the volumes that are announced are those that are created.
use flyctl.Base.{
  or_empty, arith, Bool-cases, ◌≡◌, ◌≢◌, ◌∙◌, refl, ap, eq_iff, ℕ, zero, suc, ◌+◌, ◌-◌, ◌≤◌, String,
  Bool, true, false, Option, none, some, List, [], ◌∷◌, ◌++◌, if◌then◌else◌, ltb, str_eq, Dict,
  lookup, put, lookup-put, length, ◌⊎◌, inl, inr,
}
use flyctl.Base.Int.{eq_of_parts, -ℤ_parts, pos, ◌-ℤ◌, leb_ℤ}
use flyctl.Scale.Volumes.{
  Mount, MachineConfig, CreateVolumeRequest, Choice, attach, create, refused, take, drop,
  volumes_at, pop_named, pop_available_volumes, create_volume_request, volumes_delta, choose_volume,
}

lookup-put_same : {V : Type 0} (k : String) (v : V) (m : Dict V) → lookup k (put k v m) ≡ some v
lookup-put_same k v m = lookup-put k k v m ∙ ap (λ b. if b then some v else lookup k m) same
  where
    same : str_eq k k ≡ true
    same = ground (arith, eq_iff k k)

lookup-put_other :
    {V : Type 0} (k j : String) (v : V) (m : Dict V) → k ≢ j → lookup j (put k v m) ≡ lookup j m
lookup-put_other k j v m h = lookup-put k j v m ∙ ap (λ b. if b then some v else lookup j m) other
  where
    other : str_eq k j ≡ false
    other = ground (arith, eq_iff k j, h)

sub_pos : (n m : ℕ) → m ≤ n → pos (n - m) ≡ pos n -ℤ pos m
sub_pos n m h =
    eq_of_parts (pos (n - m)) (pos n -ℤ pos m) (omega (arith, -ℤ_parts (pos n) (pos m), h))

module _ {V : Type 0} where
  take-drop : (n : ℕ) (vs : List V) → take n vs ++ drop (length (take n vs)) vs ≡ vs
  take-drop zero vs = refl
  take-drop (suc n) [] = refl
  take-drop (suc n) (v ∷ vs) = ap (λ l. v ∷ l) (take-drop n vs)

  length-take : (n : ℕ) (vs : List V) → length (take n vs) ≤ n
  length-take zero vs = omega arith
  length-take (suc n) [] = omega arith
  length-take (suc n) (v ∷ vs) = omega (arith, length-take n vs)

  take-none : (vs ws : List V) → ltb 0 (length vs) ≡ false → vs ++ ws ≡ ws
  take-none [] ws h = refl
  take-none (v ∷ vs) ws h = absurd (ground (arith, h))

  volumes_at-put :
      (name region : String) (ws : List V) (inner : Dict (List V)) (existing : Dict (Dict (List V)))
      → volumes_at (put name (put region ws inner) existing) name region ≡ ws
  unfolding volumes_at
  volumes_at-put name region ws inner existing =
      ap (λ o. or_empty (lookup region (or_empty o)))
        (lookup-put_same name (put region ws inner) existing)
      ∙ ap or_empty (lookup-put_same region ws inner)

  volumes_at-put_other :
      (name region k r : String) (ws : List V) (existing : Dict (Dict (List V)))
      → (name ≢ k) ⊎ (region ≢ r)
      → volumes_at (put name (put region ws (or_empty (lookup name existing))) existing) k r
        ≡ volumes_at existing k r
  unfolding volumes_at
  volumes_at-put_other name region k r ws existing (inl h) =
      ap (λ o. or_empty (lookup r (or_empty o)))
        (lookup-put_other name k (put region ws (or_empty (lookup name existing))) existing h)
  volumes_at-put_other name region k r ws existing (inr h) = elim (Bool-cases (str_eq name k)) [
    | inl t ↦
        ap (λ o. or_empty (lookup r (or_empty o)))
          (lookup-put name k (put region ws (or_empty (lookup name existing))) existing
            ∙ ap
                (λ b.
                  if b
                  then some (put region ws (or_empty (lookup name existing)))
                  else lookup k existing)
                t)
        ∙ ap or_empty (lookup-put_other region r ws (or_empty (lookup name existing)) h)
        ∙ ap (λ k. or_empty (lookup r (or_empty (lookup k existing)))) (same_text t)
    | inr f ↦
        ap (λ o. or_empty (lookup r (or_empty o)))
          (lookup-put name k (put region ws (or_empty (lookup name existing))) existing
            ∙ ap
                (λ b.
                  if b
                  then some (put region ws (or_empty (lookup name existing)))
                  else lookup k existing)
                f)
  ]
    where
      same_text : str_eq name k ≡ true → name ≡ k
      same_text t = ground (arith, eq_iff name k, t)

  abbrev popped :
      Bool
      → String
      → String
      → List V
      → List V
      → Dict (Dict (List V))
      → List V × Dict (Dict (List V))
  popped b name region available vs existing =
      if b
      then (
        available,
        put name (put region (drop (length available) vs) (or_empty (lookup name existing)))
            existing,
      )
      else (available, existing)

  -- PopAvailableVolumes for the volumes of one name: what it hands out and what it leaves in the
  -- region are together, in this order, what was there; it hands out at most the number asked for;
  -- and the volumes of each other name or region are left as they were.
  pub pop_named-append :
      (name region : String) (n : ℕ) (existing : Dict (Dict (List V)))
      → ((pop_named name region n existing).0
            ++ volumes_at (pop_named name region n existing).1 name region
          ≡ volumes_at existing name region)
        × (length (pop_named name region n existing).0 ≤ n)
        × ((k r : String)
            → (name ≢ k) ⊎ (region ≢ r)
            → volumes_at (pop_named name region n existing).1 k r ≡ volumes_at existing k r)
  unfolding pop_named
  pop_named-append name region n existing =
      by_case (ltb 0 (length (take n (volumes_at existing name region)))) refl
    where
      vs : List V
      vs = volumes_at existing name region

      by_case :
          (b : Bool)
          → ltb 0 (length (take n vs)) ≡ b
          → ((popped b name region (take n vs) vs existing).0
                ++ volumes_at (popped b name region (take n vs) vs existing).1 name region
              ≡ vs)
            × (length (popped b name region (take n vs) vs existing).0 ≤ n)
            × ((k r : String)
                → (name ≢ k) ⊎ (region ≢ r)
                → volumes_at (popped b name region (take n vs) vs existing).1 k r
                  ≡ volumes_at existing k r)
      by_case true e = (
        ap (λ l. take n vs ++ l)
              (volumes_at-put name region (drop (length (take n vs)) vs)
                (or_empty (lookup name existing)) existing)
            ∙ take-drop n vs,
        length-take n vs,
        λ k r h. volumes_at-put_other name region k r (drop (length (take n vs)) vs) existing h,
      )
      by_case false e = (take-none (take n vs) vs e, length-take n vs, λ k r h. refl)

  -- The number of volumes that are created for the machines 0 to n - 1.
  abbrev pub is_create : {G : Type 0} → Choice V G → ℕ
  is_create (attach v) = 0
  is_create (create r) = 1
  is_create refused = 0

  abbrev pub creations : {G : Type 0} → ℕ → List V → Option (CreateVolumeRequest G) → ℕ
  creations zero vs request = 0
  creations (suc n) vs request = creations n vs request + is_create (choose_volume n vs request)

  choose-some :
      {G : Type 0} (n : ℕ) (vs : List V) (r : CreateVolumeRequest G)
      → ((is_create (choose_volume n vs (some r)) ≡ 0) × (suc n ≤ length vs))
        ⊎ ((is_create (choose_volume n vs (some r)) ≡ 1) × (length vs ≤ n))
  unfolding choose_volume
  choose-some zero [] r = inr (refl, omega arith)
  choose-some (suc n) [] r = inr (refl, omega arith)
  choose-some zero (v ∷ vs) r = inl (refl, omega arith)
  choose-some (suc n) (v ∷ vs) r = elim (choose-some n vs r) [
    | inl (h, le) ↦ inl (h, omega (arith, le))
    | inr (h, le) ↦ inr (h, omega (arith, le))
  ]

  creations-some :
      {G : Type 0} (n : ℕ) (vs : List V) (r : CreateVolumeRequest G)
      → creations n vs (some r) ≡ n - length vs
  creations-some zero vs r = omega arith
  creations-some (suc n) vs r = elim (choose-some n vs r) [
    | inl (h, le) ↦ omega (arith, h, le, creations-some n vs r)
    | inr (h, le) ↦ omega (arith, h, le, creations-some n vs r)
  ]

  choose-none : (G : Type 0) (n : ℕ) (vs : List V) → is_create {G = G} (choose_volume n vs none) ≡ 0
  unfolding choose_volume
  choose-none G zero [] = refl
  choose-none G (suc n) [] = refl
  choose-none G zero (v ∷ vs) = refl
  choose-none G (suc n) (v ∷ vs) = choose-none G n vs

  creations-none : (G : Type 0) (n : ℕ) (vs : List V) → creations {G = G} n vs none ≡ 0
  creations-none G zero vs = refl
  creations-none G (suc n) vs = omega (arith, creations-none G n vs, choose-none G n vs)

  -- For an item of the plan that adds `n` machines: with the volumes of PopAvailableVolumes and the
  -- request of CreateVolumeRequest, launchMachine creates as many volumes over the machines 0 to n - 1
  -- as VolumesDelta announces.
  pub creations-volumes_delta :
      (G : Type 0) (snapshot : Option String) (cfg : MachineConfig G) (region : String) (n k : ℕ)
      (existing : Dict (Dict (List V)))
      → pos (
          creations n
            (pop_available_volumes cfg region (pos n) existing).0
            (create_volume_request snapshot cfg region (pos n) k))
        ≡ volumes_delta
            (create_volume_request snapshot cfg region (pos n) k)
            (pos n)
            (pop_available_volumes cfg region (pos n) existing).0
  unfolding pop_available_volumes create_volume_request volumes_delta
  creations-volumes_delta G snapshot cfg region n k existing =
      by_case (leb_ℤ (pos n) (pos 0)) cfg.mounts
    where
      request : Mount → CreateVolumeRequest G
      request mount = record {
        name = mount.name;
        region = region;
        size_gb = mount.size_gb;
        encrypted = mount.encrypted;
        require_unique_zone = ltb 1 (k + n);
        snapshot_id = snapshot;
        compute_requirements = cfg.guest;
        compute_image = cfg.image;
      }

      handed : Bool → List Mount → List V
      handed b ms =
          (if b then ([], existing) else elim ms as (λ x. List V × Dict (Dict (List V))) [
            | [] ↦ ([], existing)
            | m ∷ rest ↦ pop_named m.name region n existing
          ]).0

      asked : Bool → List Mount → Option (CreateVolumeRequest G)
      asked b ms = if b then none else elim ms as (λ x. Option (CreateVolumeRequest G)) [
        | [] ↦ none
        | m ∷ rest ↦ some (request m)
      ]

      by_case :
          (b : Bool) (ms : List Mount)
          → pos (creations n (handed b ms) (asked b ms))
            ≡ volumes_delta (asked b ms) (pos n) (handed b ms)
      by_case true ms = ap pos (creations-none G n [])
      by_case false [] = ap pos (creations-none G n [])
      by_case false (m ∷ rest) =
          let vs = (pop_named m.name region n existing).0 in
          ap pos (creations-some n vs (request m))
          ∙ sub_pos n (length vs) (pop_named-append m.name region n existing).1
