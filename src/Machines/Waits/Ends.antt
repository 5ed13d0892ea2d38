-- ===== src/Machines/Waits/Ends.antt =====
-- The loops end: once the context of a wait is done, whatever the API answers.
use flyctl.Base.{
  Any, ◌≡◌, ◌≢◌, refl, String, Bool, true, false, List, [], ◌∷◌, inl, inr, Option, none, some,
  if◌then◌else◌, ◌&&◌, str_eq,
}
use flyctl.Bluegreen.Errors.{Error, flaps_status}
use flyctl.Machines.Api.{Answer, done, failed, wait_timeout, api, invalid_action, restart_refused}
use flyctl.Machines.Waits.{
  Context, live, interrupted, expired, Wait, waiting, over, Round, state_round, wait_for_state,
  return_error, is_not_found, is_error, has_status,
}
use flyctl.Machines.Waits.Starts.{
  state_of_action, start_or_stop_loop, wait_for_start_or_stop, failed_round, refuses_restart,
}

abbrev pub IsOver : {A : Type 0} → Wait A → Type 0
IsOver w = w ≢ waiting

abbrev pub IsDone : Round → Type 0
IsDone r = r.context ≢ live

over-IsOver : {A : Type 0} (a : Answer A) → IsOver (over a)
over-IsOver a e = cc e

if-IsOver :
    {A : Type 0} (b : Bool) (x y : Wait A) → IsOver x → IsOver y → IsOver (if b then x else y)
if-IsOver true x y h k = h
if-IsOver false x y h k = k

start_or_stop_loop-IsOver :
    (state : String) (no_restarts : Bool) (rs : List Round)
    → Any IsDone rs
    → IsOver (start_or_stop_loop state no_restarts rs)
unfolding start_or_stop_loop
start_or_stop_loop-IsOver state no_restarts [] h = absurd h
start_or_stop_loop-IsOver state no_restarts (r ∷ rs) h =
    by_error r.error r.context refl h
      (λ later. start_or_stop_loop-IsOver state no_restarts rs later)
  where
    rest : Wait (Unit {0})
    rest = start_or_stop_loop state no_restarts rs

    by_error :
        (o : Option Error) (c : Context)
        → r.context ≡ c
        → Any IsDone (r ∷ rs)
        → (Any IsDone rs → IsOver rest)
        → IsOver (elim o as (λ x. Wait (Unit {0})) [
          | none ↦ over (done tt)
          | some e ↦ failed_round state no_restarts c e rest
        ])
    by_error none c e h k = over-IsOver (done tt)
    by_error (some x) interrupted e h k = over-IsOver (failed (api x))
    by_error (some x) expired e h k = over-IsOver (failed (wait_timeout state))
    by_error (some x) live e (inl now) k = absurd (now e)
    by_error (some x) live e (inr later) k =
        if-IsOver (refuses_restart no_restarts x) _ _ (over-IsOver (failed restart_refused))
          (if-IsOver (has_status 400 (flaps_status x)) _ _ (over-IsOver (failed (api x))) (k later))

-- WaitForState, over rounds in one of which its context is done, ends with an answer.
pub wait_for_state-IsOver :
    (desired : String) (just_created : Bool) (rs : List Round)
    → Any IsDone rs
    → IsOver (wait_for_state desired just_created rs)
unfolding wait_for_state
wait_for_state-IsOver desired just_created [] h = absurd h
wait_for_state-IsOver desired just_created (r ∷ rs) h =
    by_context r.context refl h (λ later. wait_for_state-IsOver desired just_created rs later)
  where
    rest : Wait (Unit {0})
    rest = wait_for_state desired just_created rs

    by_live : IsOver rest → IsOver (state_round desired just_created r.error rest)
    by_live h =
        if-IsOver (is_not_found r.error && str_eq desired "destroyed") _ _ (over-IsOver (done tt)) (
          if-IsOver (is_not_found r.error && just_created) _ _ h (
            if-IsOver (is_not_found r.error) _ _ (over-IsOver (return_error r.error))
              (if-IsOver (is_error r.error) _ _ h (over-IsOver (done tt)))))

    by_context :
        (c : Context)
        → r.context ≡ c
        → Any IsDone (r ∷ rs)
        → (Any IsDone rs → IsOver rest)
        → IsOver (elim c as (λ x. Wait (Unit {0})) [
          | interrupted ↦ over (return_error r.error)
          | expired ↦ over (failed (wait_timeout desired))
          | live ↦ state_round desired just_created r.error rest
        ])
    by_context interrupted e h k = over-IsOver (return_error r.error)
    by_context expired e h k = over-IsOver (failed (wait_timeout desired))
    by_context live e (inl now) k = absurd (now e)
    by_context live e (inr later) k = by_live (k later)

-- A wait for a start or a stop, over rounds in one of which its context is done, ends with an answer.
start_or_stop-IsOver :
    (action : String) (no_restarts : Bool) (rs : List Round)
    → Any IsDone rs
    → IsOver (wait_for_start_or_stop action no_restarts rs)
unfolding wait_for_start_or_stop
start_or_stop-IsOver action no_restarts rs h = by_state (state_of_action action)
  where
    by_state :
        (o : Option String)
        → IsOver (elim o as (λ x. Wait (Unit {0})) [
          | none ↦ over (failed invalid_action)
          | some state ↦ start_or_stop_loop state no_restarts rs
        ])
    by_state none = over-IsOver (failed invalid_action)
    by_state (some state) = start_or_stop_loop-IsOver state no_restarts rs h
