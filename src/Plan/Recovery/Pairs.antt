-- ===== src/Plan/Recovery/Pairs.antt =====
-- Which machines are paired.
pub mod ById
use flyctl.Base.{String, Bool, false, Option, none, some, List, [], ◌∷◌, str_eq, if◌then◌else◌}
use flyctl.Plan.Leases.{Machine, Pairing}

-- The pairings for the machine with the id that is to be.
abbrev is_for : String → Option Machine → Bool
is_for z none = false
is_for z (some m) = str_eq m.id z

unfoldable pub pairings_for : String → List Pairing → List Pairing
pairings_for z [] = []
pairings_for z (p ∷ ps) =
    let rest = pairings_for z ps in if is_for z p.new_machine then p ∷ rest else rest

-- A machine is updated if it is there and is to be, and created if it is only to be.
abbrev pub paired : Option Machine → Option Machine → List Pairing
paired old none = []
paired old (some new) = (record { old_machine = old; new_machine = some new }) ∷ []

abbrev updated_pair : Option Machine → Option Machine → List Pairing
updated_pair none new = []
updated_pair (some old) new = paired (some old) new

abbrev created_pair : Option Machine → Option Machine → List Pairing
created_pair (some old) new = []
created_pair none new = paired none new
