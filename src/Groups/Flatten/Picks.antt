-- ===== src/Groups/Flatten/Picks.antt =====
-- What the sections of a flattened configuration are picked from, and that picking twice is picking once.
use flyctl.Base.{
  arith, eq_iff, All, ◌≡◌, ◌≢◌, ◌∙◌, refl, ap, String, Bool, true, false, Option, none, some, List,
  [], ◌∷◌, if◌then◌else◌, Dict,
}
use flyctl.Groups.Names.{Item, has_name, keys, names_or}
use flyctl.Groups.Names.Matching.{has_name-sort_names}
use flyctl.Groups.Flatten.{pick_items, pick_checks, pick_service, pick_processes}

module _ {D : Type 0} where
  -- Picking for a group twice is picking once, if the group itself matches the second time.
  pub pick_items-twice :
      (m n : List String → Bool) (g : String) (xs : List (Item D))
      → n (g ∷ []) ≡ true
      → pick_items n g (pick_items m g xs) ≡ pick_items m g xs
  unfolding pick_items
  pick_items-twice m n g [] h = refl
  pick_items-twice m n g (x ∷ xs) h = by_test (m x.groups) (pick_items-twice m n g xs h)
    where
      kept : Item D
      kept = record x { groups = g ∷ [] }

      rest : List (Item D)
      rest = pick_items m g xs

      by_test :
          (b : Bool)
          → pick_items n g rest ≡ rest
          → pick_items n g (if b then kept ∷ rest else rest) ≡ (if b then kept ∷ rest else rest)
      by_test true again =
          ap (λ b. if b then kept ∷ pick_items n g rest else pick_items n g rest) h
          ∙ ap (λ l. kept ∷ l) again
      by_test false again = again

  pub pick_checks-twice :
      (m n : List String → Bool) (g : String) (xs : Dict (Item D))
      → n (g ∷ []) ≡ true
      → pick_checks n g (pick_checks m g xs) ≡ pick_checks m g xs
  unfolding pick_checks
  pick_checks-twice m n g [] h = refl
  pick_checks-twice m n g ((k, x) ∷ xs) h = by_test (m x.groups) (pick_checks-twice m n g xs h)
    where
      kept : String × Item D
      kept = (k, record x { groups = g ∷ [] })

      rest : Dict (Item D)
      rest = pick_checks m g xs

      by_test :
          (b : Bool)
          → pick_checks n g rest ≡ rest
          → pick_checks n g (if b then kept ∷ rest else rest) ≡ (if b then kept ∷ rest else rest)
      by_test true again =
          ap (λ b. if b then kept ∷ pick_checks n g rest else pick_checks n g rest) h
          ∙ ap (λ l. kept ∷ l) again
      by_test false again = again

  pub pick_service-twice :
      (m n : List String → Bool) (g : String) (o : Option (Item D))
      → n (g ∷ []) ≡ true
      → pick_service n g (pick_service m g o) ≡ pick_service m g o
  pick_service-twice m n g none h = refl
  pick_service-twice m n g (some x) h = by_test (m x.groups)
    where
      kept : Item D
      kept = record x { groups = g ∷ [] }

      by_test :
          (b : Bool)
          → pick_service n g (if b then some kept else none) ≡ (if b then some kept else none)
      by_test true = ap (λ b. if b then some kept else none) h
      by_test false = refl

pub pick_processes-twice :
    (m n : String → Bool) (ps : Dict String)
    → ((k : String) → has_name (keys ps) k ≡ true → m k ≡ true → n k ≡ true)
    → pick_processes n (pick_processes m ps) ≡ pick_processes m ps
unfolding pick_processes keys has_name
pick_processes-twice m n [] h = refl
pick_processes-twice m n ((k, v) ∷ ps) h =
    by_test (m k) refl (pick_processes-twice m n ps (λ j l e. h j (ground (arith, l)) e))
  where
    rest : Dict String
    rest = pick_processes m ps

    by_test :
        (b : Bool)
        → m k ≡ b
        → pick_processes n rest ≡ rest
        → pick_processes n (if b then (k, v) ∷ rest else rest) ≡ (if b then (k, v) ∷ rest else rest)
    by_test true e again =
        ap (λ b. if b then (k, v) ∷ pick_processes n rest else pick_processes n rest)
          (h k (ground (arith, eq_iff k k)) e)
        ∙ ap (λ l. (k, v) ∷ l) again
    by_test false e again = again

-- The keys that are left are the group itself.
pub keys-picked :
    (m : String → Bool) (g : String) (ps : Dict String)
    → ((k : String) → has_name (keys ps) k ≡ true → m k ≡ true → k ≡ g)
    → All (λ k. k ≡ g) (keys (pick_processes m ps))
unfolding pick_processes keys has_name
keys-picked m g [] h = tt
keys-picked m g ((k, v) ∷ ps) h =
    by_test (m k) refl (keys-picked m g ps (λ j l e. h j (ground (arith, l)) e))
  where
    by_test :
        (b : Bool)
        → m k ≡ b
        → All (λ k. k ≡ g) (keys (pick_processes m ps))
        → All (λ k. k ≡ g) (keys (if b then (k, v) ∷ pick_processes m ps else pick_processes m ps))
    by_test true e again = (h k (ground (arith, eq_iff k k)) e, again)
    by_test false e again = again

pub names_or-has_name :
    (g : String) (ks : List String)
    → g ≢ ""
    → All (λ k. k ≡ g) ks
    → has_name (names_or g ks) g ≡ true
unfolding has_name
names_or-has_name g [] h a = ground (arith, h, eq_iff g "", eq_iff g g)
names_or-has_name g (k ∷ []) h a = ground (arith, a.0, eq_iff k g)
names_or-has_name g (k ∷ j ∷ ks) h a =
    has_name-sort_names g (k ∷ j ∷ ks) ∙ ground (arith, a.0, eq_iff k g)
