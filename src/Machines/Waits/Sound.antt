-- ===== src/Machines/Waits/Sound.antt =====
-- What a loop has seen when it ends well.
use flyctl.Base.{
  arith, ==_iff, Bool-cases, false≢true, Any, ◌≡◌, ◌≢◌, ◌∙◌, refl, sym, ap, String, Bool, true,
  false, List, [], ◌∷◌, ◌⊎◌, inl, inr, Option, none, some, if◌then◌else◌, not, ◌&&◌, ◌||◌, str_eq,
  eq_iff, ◌==◌,
}
use flyctl.Bluegreen.Types.{MachineConfig, HealthStatus}
use flyctl.Bluegreen.Errors.{Error}
use flyctl.Machines.Api.{Answer, done, failed, wait_timeout, checks_timeout, api}
use flyctl.Machines.Waits.{
  Context, live, interrupted, expired, Wait, over, Round, state_round, wait_for_state, return_error,
  is_not_found, is_error, HealthRound, health_round, health_loop, checks_of,
  wait_for_healthchecks_to_pass,
}

-- The machine is in the state, or it is not found and was to be destroyed.
abbrev pub Reaches : String → Round → Type 0
Reaches desired r = (r.error ≡ none) ⊎ ((desired ≡ "destroyed") × (is_not_found r.error ≡ true))

no_error : (o : Option Error) → return_error o ≡ done tt → o ≡ none
no_error none e = refl
no_error (some x) e = absurd (cc e)

is_error-none : (o : Option Error) → is_error o ≡ false → o ≡ none
is_error-none none e = refl
is_error-none (some x) e = absurd (false≢true (sym e))

over_done : {a b : Answer (Unit {0})} → over a ≡ over b → a ≡ b
over_done e = cc e

state_round-cases :
    (desired : String) (just_created : Bool) (o : Option Error) (rest : Wait (Unit {0}))
    → state_round desired just_created o rest ≡ over (done tt)
    → ((o ≡ none) ⊎ ((desired ≡ "destroyed") × (is_not_found o ≡ true))) ⊎ (rest ≡ over (done tt))
state_round-cases desired just_created none rest e = inl (inl refl)
state_round-cases desired just_created (some x) rest e =
    by_tests (is_not_found (some x)) (str_eq desired "destroyed") just_created refl refl e
  where
    by_tests :
        (missing wanted created : Bool)
        → is_not_found (some x) ≡ missing
        → str_eq desired "destroyed" ≡ wanted
        → (if missing && wanted
            then over (done tt)
            else if missing && created
            then rest
            else if missing
            then over (failed (api x))
            else rest)
          ≡ over (done tt)
        → ((some x ≡ none) ⊎ ((desired ≡ "destroyed") × (is_not_found (some x) ≡ true)))
          ⊎ (rest ≡ over (done tt))
    by_tests true true created m w e = inl (inr (ground (arith, eq_iff desired "destroyed", w), m))
    by_tests true false true m w e = inr e
    by_tests true false false m w e = absurd (cc (over_done e))
    by_tests false wanted created m w e = inr e

-- If WaitForState ends well, then in one of its rounds the API has confirmed the state, or has
-- answered that the machine does not exist and the state is "destroyed".
pub wait_for_state-Reaches :
    (desired : String) (just_created : Bool) (rs : List Round)
    → wait_for_state desired just_created rs ≡ over (done tt)
    → Any (Reaches desired) rs
unfolding wait_for_state
wait_for_state-Reaches desired just_created [] e = absurd (cc e)
wait_for_state-Reaches desired just_created (r ∷ rs) e =
    by_context r.context e (λ later. wait_for_state-Reaches desired just_created rs later)
  where
    rest : Wait (Unit {0})
    rest = wait_for_state desired just_created rs

    by_context :
        (c : Context)
        → (elim c as (λ x. Wait (Unit {0})) [
          | interrupted ↦ over (return_error r.error)
          | expired ↦ over (failed (wait_timeout desired))
          | live ↦ state_round desired just_created r.error rest
        ])
          ≡ over (done tt)
        → (rest ≡ over (done tt) → Any (Reaches desired) rs)
        → Any (Reaches desired) (r ∷ rs)
    by_context interrupted e k = inl (inl (no_error r.error (over_done e)))
    by_context expired e k = absurd (cc (over_done e))
    by_context live e k = elim (state_round-cases desired just_created r.error rest e) [
      | inl now ↦ inl now
      | inr later ↦ inr (k later)
    ]

-- The machine has check results, and they all pass.
abbrev pub Passes : HealthRound → Type 0
Passes r = (r.status.total ≢ 0) × (r.status.passing ≡ r.status.total)

-- A round that ends a wait for health: the checks pass, or the user has interrupted and the call of
-- that round has no error.
abbrev pub EndsWell : HealthRound → Type 0
EndsWell r = Passes r ⊎ ((r.context ≡ interrupted) × (r.error ≡ none))

health_round-cases :
    (o : Option Error) (status : HealthStatus) (rest : Wait (Unit {0}))
    → health_round o status rest ≡ over (done tt)
    → ((status.total ≢ 0) × (status.passing ≡ status.total)) ⊎ (rest ≡ over (done tt))
health_round-cases (some x) status rest e = absurd (cc (over_done e))
health_round-cases none status rest e =
    by_tests (status.total == 0) (status.passing == status.total) refl refl e
  where
    by_tests :
        (zero full : Bool)
        → (status.total == 0) ≡ zero
        → (status.passing == status.total) ≡ full
        → (if zero || not full then rest else over (done tt)) ≡ over (done tt)
        → ((status.total ≢ 0) × (status.passing ≡ status.total)) ⊎ (rest ≡ over (done tt))
    by_tests true full z f e = inr e
    by_tests false false z f e = inr e
    by_tests false true z f e = inl (
      (λ n. false≢true (sym z ∙ (==_iff status.total 0).1 n)),
      (==_iff status.passing status.total).0 f,
    )

health_loop-EndsWell : (rs : List HealthRound) → health_loop rs ≡ over (done tt) → Any EndsWell rs
unfolding health_loop
health_loop-EndsWell [] e = absurd (cc e)
health_loop-EndsWell (r ∷ rs) e =
    by_context r.context refl e (λ later. health_loop-EndsWell rs later)
  where
    rest : Wait (Unit {0})
    rest = health_loop rs

    by_context :
        (c : Context)
        → r.context ≡ c
        → (elim c as (λ x. Wait (Unit {0})) [
          | interrupted ↦ over (return_error r.error)
          | expired ↦ over (failed checks_timeout)
          | live ↦ health_round r.error r.status rest
        ])
          ≡ over (done tt)
        → (rest ≡ over (done tt) → Any EndsWell rs)
        → Any EndsWell (r ∷ rs)
    by_context interrupted c e k = inl (inr (c, no_error r.error (over_done e)))
    by_context expired c e k = absurd (cc (over_done e))
    by_context live c e k = elim (health_round-cases r.error r.status rest e) [
      | inl now ↦ inl (inl now)
      | inr later ↦ inr (k later)
    ]

-- If WaitForHealthchecksToPass ends well, then no checks are configured, or in one of its rounds the
-- machine has check results and they all pass, or the user has interrupted in a round whose call has
-- no error.
pub wait_for_healthchecks-EndsWell :
    (cfg : Option MachineConfig) (rs : List HealthRound)
    → wait_for_healthchecks_to_pass cfg rs ≡ over (done tt)
    → (checks_of cfg ≡ 0) ⊎ Any EndsWell rs
unfolding wait_for_healthchecks_to_pass
wait_for_healthchecks-EndsWell cfg rs e = elim (Bool-cases (checks_of cfg == 0)) [
  | inl t ↦ inl ((==_iff (checks_of cfg) 0).0 t)
  | inr f ↦
      inr (
        health_loop-EndsWell rs
          (sym (ap (λ b. if b then over (done tt) else health_loop rs) f) ∙ e))
]
