-- ===== src/Groups/Samples.antt =====
-- An app with two process groups, and the functions that the definitions take.
use flyctl.Base.{
  All, Any, ◌≡◌, ◌⊎◌, ◌∙◌, inl, inr, refl, sym, ℕ, String, Bool, true, false, Option, none, some,
  List, [], ◌∷◌, if◌then◌else◌, Bool-cases, false≢true,
}
use flyctl.Groups.Names.{Item, Compute, Config, has_name}
use flyctl.Groups.Flatten.{names_group, IsMaxBy, Clones}

abbrev pub item : List String → Item ℕ
item groups = record { data_of = 0; groups = groups }

abbrev pub app : Config ℕ
app = record {
  processes = ("worker", "run") ∷ ("web", "serve") ∷ [];
  mounts = item [] ∷ [];
  http_service = some (item ("web" ∷ []));
  services = item ("web" ∷ "worker" ∷ []) ∷ item ("worker" ∷ []) ∷ [];
  checks = ("up", item []) ∷ [];
  files = [];
  host_dedication_id = "";
  restart = [];
  vms =
      (record { size_of = 1; guest_dedication = some "d1"; groups = [] })
      ∷ (record { size_of = 2; guest_dedication = none; groups = "web" ∷ [] })
      ∷ [];
  metrics = [];
  others = 0;
  config_file_path = "fly.toml";
  unmarshal_error = none;
  default_group_name = "";
}

abbrev pub clone : Config ℕ → Config ℕ
clone c = record c { config_file_path = ""; default_group_name = "" }

pub clone-Clones : Clones clone
clone-Clones c e = ("", "", refl)

abbrev pub best : (Compute ℕ → Compute ℕ → Bool) → Compute ℕ → List (Compute ℕ) → Compute ℕ
best better b [] = b
best better b (x ∷ xs) = best better (if better x b then x else b) xs

abbrev pub max_by : (Compute ℕ → Compute ℕ → Bool) → List (Compute ℕ) → Option (Compute ℕ)
max_by better [] = none
max_by better (x ∷ xs) = some (best better x xs)

abbrev IsBest : String → Compute ℕ → Compute ℕ → List (Compute ℕ) → Type 0
IsBest g r b xs =
    ((b ≡ r) ⊎ Any (λ y. y ≡ r) xs)
    × ((has_name b.groups g ≡ false) ⊎ (has_name r.groups g ≡ true))
    × All (λ y. (has_name y.groups g ≡ false) ⊎ (has_name r.groups g ≡ true)) xs

best-IsBest :
    (g : String) (xs : List (Compute ℕ)) (b : Compute ℕ) → IsBest g (best (names_group g) b xs) b xs
best-IsBest g [] b = (inl refl, swapped (Bool-cases (has_name b.groups g)), tt)
  where
    swapped : {b : Bool} → (b ≡ true) ⊎ (b ≡ false) → (b ≡ false) ⊎ (b ≡ true)
    swapped (inl t) = inr t
    swapped (inr f) = inl f
best-IsBest g (x ∷ xs) b =
    by_test (has_name x.groups g) refl (best-IsBest g xs (if has_name x.groups g then x else b))
  where
    certain : {u v : Bool} → u ≡ true → (u ≡ false) ⊎ (v ≡ true) → v ≡ true
    certain t (inl f) = absurd (false≢true (sym f ∙ t))
    certain t (inr v) = v

    found : {r : Compute ℕ} → (x ≡ r) ⊎ Any (λ y. y ≡ r) xs → Any (λ y. y ≡ r) (x ∷ xs)
    found (inl e) = inl e
    found (inr a) = inr a

    passed : {r : Compute ℕ} → (b ≡ r) ⊎ Any (λ y. y ≡ r) xs → (b ≡ r) ⊎ Any (λ y. y ≡ r) (x ∷ xs)
    passed (inl e) = inl e
    passed (inr a) = inr (inr a)

    by_test :
        (t : Bool)
        → has_name x.groups g ≡ t
        → IsBest g (best (names_group g) (if t then x else b) xs) (if t then x else b) xs
        → IsBest g (best (names_group g) (if t then x else b) xs) b (x ∷ xs)
    by_test true e (place, top, all) =
        (inr (found place), inr (certain e top), (inr (certain e top), all))
    by_test false e (place, top, all) = (passed place, top, (inl e, all))

pub max_by-IsMaxBy : IsMaxBy max_by
max_by-IsMaxBy g [] = inl (refl, refl)
max_by-IsMaxBy g (x ∷ xs) =
    let (place, top, all) = best-IsBest g xs x in
    inr (best (names_group g) x xs, refl, place, (top, all))
