-- ===== src/Plan/Recovery/Pairs/ById.antt =====
-- The machines by their ids.
use flyctl.Base.{
  Unique, Unique-put, eq_iff, All, ◌≡◌, ◌∙◌, refl, sym, ap, String, Bool, true, false, Option, none,
  some, List, [], ◌∷◌, str_eq, if◌then◌else◌, Dict, lookup, put, lookup-put,
}
use flyctl.Plan.Leases.{Machine}
use flyctl.Plan.Recovery.{by_id}

-- The last machine with the id.
unfoldable pub last_machine : String → List Machine → Option Machine
last_machine id [] = none
last_machine id (m ∷ ms) =
    let here = if str_eq m.id id then some m else none in
    elim (last_machine id ms) [ some n ↦ some n | none ↦ here ]

abbrev pub or_else : {A : Type 0} → Option A → Option A → Option A
or_else (some a) o = some a
or_else none o = o

pub lookup-by_id :
    (z : String) (ms : List Machine) (d : Dict Machine)
    → lookup z (by_id ms d) ≡ or_else (last_machine z ms) (lookup z d)
unfolding by_id last_machine
lookup-by_id z [] d = refl
lookup-by_id z (m ∷ ms) d =
    lookup-by_id z ms (put m.id m d)
    ∙ ap (or_else (last_machine z ms)) (lookup-put m.id z m d)
    ∙ by_cases (last_machine z ms) (str_eq m.id z)
  where
    by_cases :
        (o : Option Machine) (b : Bool)
        → or_else o (if b then some m else lookup z d)
          ≡ or_else
              (elim o as (λ x. Option Machine) [
                | some n ↦ some n
                | none ↦ if b then some m else none
              ])
              (lookup z d)
    by_cases (some n) b = refl
    by_cases none true = refl
    by_cases none false = refl

-- Each machine stands under its id.
abbrev pub Keyed : Dict Machine → Type 0
Keyed d = All (λ e. e.1.id ≡ e.0) d

Keyed-put : (m : Machine) (d : Dict Machine) → Keyed d → Keyed (put m.id m d)
unfolding put
Keyed-put m [] h = (refl, tt)
Keyed-put m ((j, w) ∷ d) (e, h) = by_test (str_eq j m.id) (Keyed-put m d h)
  where
    by_test :
        (b : Bool)
        → Keyed (put m.id m d)
        → Keyed (if b then (m.id, m) ∷ d else (j, w) ∷ put m.id m d)
    by_test true k = (refl, h)
    by_test false k = (e, k)

pub Keyed-by_id : (ms : List Machine) (d : Dict Machine) → Keyed d → Keyed (by_id ms d)
unfolding by_id
Keyed-by_id [] d h = h
Keyed-by_id (m ∷ ms) d h = Keyed-by_id ms (put m.id m d) (Keyed-put m d h)

pub Keyed-lookup :
    (z : String) (d : Dict Machine) (m : Machine) → Keyed d → lookup z d ≡ some m → m.id ≡ z
unfolding lookup
Keyed-lookup z [] m h e = absurd (cc e)
Keyed-lookup z ((j, w) ∷ d) m (k, h) e = by_test (str_eq j z) refl e (Keyed-lookup z d m h)
  where
    some_injective : {a b : Machine} → some a ≡ some b → a ≡ b
    some_injective e = cc e

    by_test :
        (b : Bool)
        → str_eq j z ≡ b
        → (if b then some w else lookup z d) ≡ some m
        → (lookup z d ≡ some m → m.id ≡ z)
        → m.id ≡ z
    by_test true s e rest = ap (λ x. x.id) (sym (some_injective e)) ∙ k ∙ (eq_iff j z).0 s
    by_test false s e rest = rest e

pub Unique-by_id : (ms : List Machine) (d : Dict Machine) → Unique d → Unique (by_id ms d)
unfolding by_id
Unique-by_id [] d h = h
Unique-by_id (m ∷ ms) d h = Unique-by_id ms (put m.id m d) (Unique-put m.id m d h)
