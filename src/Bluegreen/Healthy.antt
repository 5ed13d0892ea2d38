-- ===== src/Bluegreen/Healthy.antt =====
-- What the loop that waits for healthy machines has seen when it ends well.
use flyctl.Base.{
  ==_iff, Bool-cases, All-and, All, All-map, Any, arith, eq_iff, ◌≡◌, ◌≢◌, ◌∙◌, refl, sym, subst,
  ap, ℕ, String, Bool, true, false, not, ◌&&◌, List, [], ◌∷◌, if◌then◌else◌, ◌⊎◌, inl, inr, Option,
  none, some, Dict, lookup, put, lookup-put, ◌==◌, str_eq,
}
use flyctl.Bluegreen.Types.{Entry, HealthStatus, machine_has_configured_checks}
use flyctl.Bluegreen.Errors.{Error, Result, ok, err, aborted, wait_timeout}
use flyctl.Bluegreen.Platform.{Round}
use flyctl.Bluegreen.Waits.{
  all_machines_healthy, health_states, note_health, failure, or_next, wait_healthy_loop,
}

-- All checks of a machine pass, and it has some.
pub record IsHealthy (status : HealthStatus) : Type 0 where
  pub some_checks : status.total ≢ 0
  pub all_passing : status.passing ≡ status.total

-- A round that reports the machine `id` healthy.
pub record Reports (id : String) (r : Round HealthStatus) : Type 0 where
  pub status : HealthStatus
  pub reported : r.report ≡ some (id, ok status)
  pub healthy : IsHealthy status

-- The machines that are waited for: launched, with checks.
pub record IsAwaited (e : Entry) : Type 0 where
  pub launched : e.input.skip_launch ≡ false
  pub checked : machine_has_configured_checks e.input.config ≡ true

abbrev pub DistinctIds : List Entry → Type 0
DistinctIds [] = Unit
DistinctIds (e ∷ es) = All (λ f. f.machine.id ≢ e.machine.id) es × DistinctIds es

and-true : (a b : Bool) → (a && b) ≡ true → (a ≡ true) × (b ≡ true)
and-true true b h = (refl, h)
and-true false b h = absurd (cc h)

status-IsHealthy :
    (st : HealthStatus) (rest : Bool)
    → (not (st.total == 0) && st.passing == st.total && rest) ≡ true
    → IsHealthy st × (rest ≡ true)
status-IsHealthy st rest h =
    let (t, c) = and-true (not (st.total == 0) && st.passing == st.total) rest h in
    let (a, b) = and-true (not (st.total == 0)) (st.passing == st.total) t in
    (
      record { some_checks = not_zero st.total a; all_passing = (==_iff st.passing st.total).0 b },
      c,
    )
  where
    not_zero : (n : ℕ) → not (n == 0) ≡ true → n ≢ 0
    not_zero n h e = ground (arith, h, e)

look-step :
    (b : Bool) (v st : HealthStatus) (o : Option HealthStatus)
    → (if b then some v else o) ≡ some st
    → IsHealthy v
    → (o ≡ some st → IsHealthy st)
    → IsHealthy st
look-step true v st o e h rest = subst IsHealthy (some-inj e) h
  where
    some-inj : some v ≡ some st → v ≡ st
    some-inj e = cc e
look-step false v st o e h rest = rest e

lookup-IsHealthy :
    (id : String) (st : HealthStatus) (m : Dict HealthStatus)
    → all_machines_healthy m ≡ true
    → lookup id m ≡ some st
    → IsHealthy st
unfolding all_machines_healthy lookup
lookup-IsHealthy id st [] h e = absurd (cc e)
lookup-IsHealthy id st ((j, v) ∷ m) h e =
    let (hv, hm) = status-IsHealthy v (all_machines_healthy m) h in
    look-step (str_eq j id) v st (lookup id m) e hv (λ e'. lookup-IsHealthy id st m hm e')

str_eq_refl : (a : String) → str_eq a a ≡ true
str_eq_refl a = ground (arith, eq_iff a a)

str_eq-false : (a b : String) → a ≢ b → str_eq a b ≡ false
str_eq-false a b h = ground (arith, eq_iff a b, h)

lookup-put_same :
    (id : String) (st : HealthStatus) (m : Dict HealthStatus) → lookup id (put id st m) ≡ some st
lookup-put_same id st m =
    lookup-put id id st m ∙ ap (λ b. if b then some st else lookup id m) (str_eq_refl id)

lookup-put_other :
    (id k : String) (st : HealthStatus) (m : Dict HealthStatus)
    → id ≢ k
    → lookup k (put id st m) ≡ lookup k m
lookup-put_other id k st m h =
    lookup-put id k st m ∙ ap (λ b. if b then some st else lookup k m) (str_eq-false id k h)

-- What one report does to the status of the machine `id`.
note-step :
    (id : String) (o : Option (String × Result HealthStatus)) (m : Dict HealthStatus)
    (st : HealthStatus)
    → lookup id m ≡ some st
    → failure o ≡ none
    → (lookup id (note_health o m) ≡ some st)
      ⊎ ((new : HealthStatus) × (o ≡ some (id, ok new)) × (lookup id (note_health o m) ≡ some new))
note-step id none m st e h = inl e
note-step id (some (i, err x)) m st e h = absurd (cc h)
note-step id (some (i, ok new)) m st e h = elim (Bool-cases (str_eq i id)) [
  | inl t ↦
      let same : i ≡ id = ground (arith, eq_iff i id, t) in
      inr (
        new,
        ap (λ j. some (j, ok new)) same,
        ap (λ j. lookup id (put j new m)) same ∙ lookup-put_same id new m,
      )
  | inr f ↦ inl (lookup-put i id new m ∙ ap (λ b. if b then some new else lookup id m) f ∙ e)
]

loop-step :
    (b abort : Bool) (o : Option Error) (next : Result (Unit {0}))
    → (if b then ok tt else if abort then err (aborted ∷ []) else or_next o next) ≡ ok tt
    → (b ≡ true) ⊎ ((o ≡ none) × (next ≡ ok tt))
loop-step true abort o next h = inl refl
loop-step false true o next h = absurd (cc h)
loop-step false false none next h = inr (refl, h)
loop-step false false (some x) next h = absurd (cc h)

loop-end : (b : Bool) → (if b then ok tt else err (wait_timeout ∷ [])) ≡ ok (tt {0}) → b ≡ true
loop-end true h = refl
loop-end false h = absurd (cc h)

loop-Reports :
    (id : String) (rs : List (Round HealthStatus)) (m : Dict HealthStatus) (st : HealthStatus)
    → lookup id m ≡ some st
    → wait_healthy_loop rs m ≡ ok tt
    → IsHealthy st ⊎ Any (Reports id) rs
unfolding wait_healthy_loop
loop-Reports id [] m st e h = inl (lookup-IsHealthy id st m (loop-end (all_machines_healthy m) h) e)
loop-Reports id (r ∷ rs) m st e h =
    elim (loop-step (all_machines_healthy m) r.abort (failure r.report)
      (wait_healthy_loop rs (note_health r.report m)) h) [
        | inl good ↦ inl (lookup-IsHealthy id st m good e)
        | inr (fine, rest) ↦ elim (note-step id r.report m st e fine) [
          | inl same ↦ elim (loop-Reports id rs (note_health r.report m) st same rest) [
            | inl now ↦ inl now
            | inr later ↦ inr (inr later)
          ]
          | inr (new, said, noted) ↦
              elim (loop-Reports id rs (note_health r.report m) new noted rest) [
                | inl now ↦ inr (inl (record { status = new; reported = said; healthy = now }))
                | inr later ↦ inr (inr later)
              ]
        ]
      ]

abbrev zero_status : HealthStatus
zero_status = record { total = 0; passing = 0 }

states-other :
    (id : String) (e : Entry) (es : List Entry)
    → id ≢ e.machine.id
    → lookup id (health_states (e ∷ es)) ≡ lookup id (health_states es)
unfolding health_states
states-other id e es h = others e.input.skip_launch (machine_has_configured_checks e.input.config)
  where
    others :
        (a b : Bool)
        → lookup id (
            if a
            then put e.machine.id (record { total = 1; passing = 1 }) (health_states es)
            else if not b
            then health_states es
            else put e.machine.id zero_status (health_states es))
          ≡ lookup id (health_states es)
    others true b = lookup-put_other e.machine.id id _ (health_states es) (λ x. h (sym x))
    others false false = refl
    others false true =
        lookup-put_other e.machine.id id zero_status (health_states es) (λ x. h (sym x))

states-here :
    (e : Entry) (es : List Entry)
    → IsAwaited e
    → lookup e.machine.id (health_states (e ∷ es)) ≡ some zero_status
unfolding health_states
states-here e es h =
    ap
      (λ b. lookup e.machine.id (
        if b
        then put e.machine.id (record { total = 1; passing = 1 }) (health_states es)
        else if not (machine_has_configured_checks e.input.config)
        then health_states es
        else put e.machine.id zero_status (health_states es)))
      h.launched
    ∙ ap
        (λ b.
          lookup e.machine.id
            (if not b then health_states es else put e.machine.id zero_status (health_states es)))
        h.checked
    ∙ lookup-put_same e.machine.id zero_status (health_states es)

states-lookup :
    (es : List Entry)
    → DistinctIds es
    → All (λ e. IsAwaited e → lookup e.machine.id (health_states es) ≡ some zero_status) es
states-lookup [] d = tt
states-lookup (e ∷ es) (fresh, d) = (
  states-here e es,
  All-and (λ f. f.machine.id ≢ e.machine.id)
      (λ f. IsAwaited f → lookup f.machine.id (health_states es) ≡ some zero_status)
      (λ f. IsAwaited f → lookup f.machine.id (health_states (e ∷ es)) ≡ some zero_status)
      (λ f new old h. states-other f.machine.id e es new ∙ old h) es fresh (states-lookup es d),
)

-- If the loop that waits for the green machines, which have distinct ids, ends well over some
-- rounds, then each machine that is launched and has checks is reported in one of these rounds with
-- all its checks passing, at least one.
pub wait_healthy-Reports :
    (es : List Entry) (rs : List (Round HealthStatus))
    → DistinctIds es
    → wait_healthy_loop rs (health_states es) ≡ ok tt
    → All (λ e. IsAwaited e → Any (Reports e.machine.id) rs) es
wait_healthy-Reports es rs d h =
    All-map _ (λ e. IsAwaited e → Any (Reports e.machine.id) rs) es
      (λ e look awaited. reported e.machine.id (look awaited)) (states-lookup es d)
  where
    not_zero : IsHealthy zero_status → ⊥
    not_zero x = x.some_checks refl

    reported : (id : String) → lookup id (health_states es) ≡ some zero_status → Any (Reports id) rs
    reported id e = elim (loop-Reports id rs (health_states es) zero_status e h) [
      | inl x ↦ absurd (not_zero x)
      | inr later ↦ later
    ]
