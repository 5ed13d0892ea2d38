-- ===== src/Plan/Checks/Reached.antt =====
-- What waitForMachineState makes of the waits for the single states.
use flyctl.Base.{◌≡◌, ◌≢◌, ◌↔◌, refl, ap, String, Option, none, some, List, [], ◌∷◌}
use flyctl.Plan.Checks.{Fault, wait_for_machine_state}

-- After a state has been reached, nothing changes.
reached_stays :
    (state : String) (o : Option Fault) (ends : List (String × Option Fault))
    → wait_for_machine_state ends (some state, o) ≡ (some state, o)
unfolding wait_for_machine_state
reached_stays state o [] = refl
reached_stays state o (e ∷ ends) = reached_stays state o ends

-- An error is not forgotten.
error_stays :
    (o : Option String) (f : Fault) (ends : List (String × Option Fault))
    → (wait_for_machine_state ends (o, some f)).1 ≢ none
unfolding wait_for_machine_state
error_stays o f [] e = cc e
error_stays (some state) f (x ∷ ends) e = error_stays (some state) f ends e
error_stays none f ((state, none) ∷ ends) e = error_stays (some state) f ends e
error_stays none f ((state, some g) ∷ ends) e = error_stays none g ends e

-- Over waits of which there is at least one, waitForMachineState ends without an error exactly if the
-- wait that ends first has none: an error of a wait that ends earlier is returned also if a later one
-- reaches its state.
wait_for_machine_state-first :
    (state : String) (o : Option Fault) (ends : List (String × Option Fault))
    → ((wait_for_machine_state ((state, o) ∷ ends) (none, none)).1 ≡ none) ↔ (o ≡ none)
unfolding wait_for_machine_state
wait_for_machine_state-first state none ends =
    ((λ e. refl), (λ e. ap (λ r. r.1) (reached_stays state none ends)))
wait_for_machine_state-first state (some f) ends =
    ((λ e. absurd (error_stays none f ends e)), (λ e. absurd (cc e)))
