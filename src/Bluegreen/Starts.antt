-- ===== src/Bluegreen/Starts.antt =====
-- `forceStartRepresentatives`: which green machines are started although their blue ones are stopped.
use flyctl.Base.{
  ℕ, ◌+◌, String, Bool, true, false, not, Option, none, some, List, [], ◌∷◌, Dict, lookup, put,
  if◌then◌else◌,
}
use flyctl.Bluegreen.Types.{Entry, machine_has_configured_checks}

-- The maps of the first loop, by process group.
pub record Groups : Type 0 where
  pub has_checks : Dict Bool
  pub will_start : Dict Bool
  pub first_stopped : Dict ℕ

-- m[pg] of a map[string]bool
unfoldable pub flag : Dict Bool → String → Bool
flag m pg = elim (lookup pg m) [ none ↦ false | some b ↦ b ]

abbrev pub put_new : String → ℕ → Dict ℕ → Option ℕ → Dict ℕ
put_new pg i m none = put pg i m
put_new pg i m (some j) = m

-- The body of the first loop, for the machine at index `i`.
unfoldable pub scan_machine : ℕ → Entry → Groups → Groups
scan_machine i e g =
    let pg = e.input.config.process_group in
    record {
      has_checks =
          (if machine_has_configured_checks e.input.config
            then put pg true g.has_checks
            else g.has_checks);
      will_start = (if not e.input.skip_launch then put pg true g.will_start else g.will_start);
      first_stopped =
          (if not e.input.skip_launch
            then g.first_stopped
            else put_new pg i g.first_stopped (lookup pg g.first_stopped));
    }

unfoldable pub scan_machines : ℕ → List Entry → Groups → Groups
scan_machines i [] g = g
scan_machines i (e ∷ es) g = scan_machines (i + 1) es (scan_machine i e g)

abbrev pub add_index : Option ℕ → List ℕ → List ℕ
add_index none is = is
add_index (some i) is = i ∷ is

-- The second loop, over the groups with checks.
unfoldable pub representatives : Dict Bool → Groups → List ℕ
representatives [] g = []
representatives ((pg, b) ∷ groups) g =
    let rest = representatives groups g in
    if flag g.will_start pg then rest else add_index (lookup pg g.first_stopped) rest

unfoldable pub force_start_representatives : List Entry → List ℕ
force_start_representatives blue =
    let g =
      scan_machines 0 blue (record { has_checks = []; will_start = []; first_stopped = [] }) in
    representatives g.has_checks g
