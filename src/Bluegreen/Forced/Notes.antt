-- ===== src/Bluegreen/Forced/Notes.antt =====
-- What the first loop of forceStartRepresentatives notes of the machines.
use flyctl.Base.{
  arith, eq_iff, All, Any, Bool-cases, ◌≡◌, ◌∙◌, refl, sym, ap, ℕ, ◌+◌, Bool, true, false, not,
  String, Option, none, some, List, [], ◌∷◌, Dict, lookup, put, lookup-put, str_eq, if◌then◌else◌,
  ◌⊎◌, inl, inr, false≢true,
}
use flyctl.Bluegreen.Types.{Entry, machine_has_configured_checks}
use flyctl.Bluegreen.Starts.{Groups, put_new, scan_machine, scan_machines}

abbrev pub group : Entry → String
group e = e.input.config.process_group

-- A map has an entry for the group.
abbrev pub Knows : {V : Type 0} → String → Dict V → Type 0
Knows pg m = Any (λ kv. kv.0 ≡ pg) m

str_eq-same : (a b : String) → str_eq a b ≡ true → a ≡ b
str_eq-same a b h = ground (arith, eq_iff a b, h)

str_eq_refl : (a : String) → str_eq a a ≡ true
str_eq_refl a = ground (arith, eq_iff a a)

put-Knows :
    {V : Type 0} (pg k : String) (v : V) (m : Dict V) → Knows pg m ⊎ (k ≡ pg) → Knows pg (put k v m)
unfolding put
put-Knows pg k v [] (inl h) = absurd h
put-Knows pg k v [] (inr h) = inl h
put-Knows pg k v ((j, w) ∷ m) h = entry (λ h. put-Knows pg k v m h) (str_eq j k) refl h
  where
    entry :
        (Knows pg m ⊎ (k ≡ pg) → Knows pg (put k v m))
        → (b : Bool) → str_eq j k ≡ b
        → Knows pg ((j, w) ∷ m) ⊎ (k ≡ pg)
        → Knows pg (if b then (k, v) ∷ m else (j, w) ∷ put k v m)
    entry rest true e (inl (inl h)) = inl (sym (str_eq-same j k e) ∙ h)
    entry rest true e (inl (inr h)) = inr h
    entry rest true e (inr h) = inl h
    entry rest false e (inl (inl h)) = inl h
    entry rest false e (inl (inr h)) = inr (rest (inl h))
    entry rest false e (inr h) = inr (rest (inr h))

-- A key of the map after an assignment is the new one, or was there.
pub lookup-put_cases :
    {V : Type 0} (k pg : String) (v : V) (m : Dict V) (o : Option V)
    → lookup pg (put k v m) ≡ o
    → ((k ≡ pg) × (o ≡ some v)) ⊎ (lookup pg m ≡ o)
lookup-put_cases k pg v m o h = elim (Bool-cases (str_eq k pg)) [
  | inl t ↦ inl (
    str_eq-same k pg t,
    sym h ∙ lookup-put k pg v m ∙ ap (λ b. if b then some v else lookup pg m) t,
  )
  | inr f ↦
      inr (sym (ap (λ b. if b then some v else lookup pg m) f) ∙ sym (lookup-put k pg v m) ∙ h)
]

lookup-put_same : {V : Type 0} (k : String) (v : V) (m : Dict V) → lookup k (put k v m) ≡ some v
lookup-put_same k v m =
    lookup-put k k v m ∙ ap (λ b. if b then some v else lookup k m) (str_eq_refl k)

abbrev pub Found : {V : Type 0} → String → Dict V → Type 0
Found {V} pg m = (v : V) × (lookup pg m ≡ some v)

put-Found : {V : Type 0} (k pg : String) (v : V) (m : Dict V) → Found pg m → Found pg (put k v m)
put-Found k pg v m (w, h) = elim (Bool-cases (str_eq k pg)) [
  | inl t ↦ (v, lookup-put k pg v m ∙ ap (λ b. if b then some v else lookup pg m) t)
  | inr f ↦ (w, lookup-put k pg v m ∙ ap (λ b. if b then some v else lookup pg m) f ∙ h)
]

-- What the first loop has noted of a group.
abbrev pub WillStart : Groups → String → Type 0
WillStart g pg = lookup pg g.will_start ≡ some true

abbrev pub HasStopped : Groups → String → Type 0
HasStopped g pg = Found pg g.first_stopped

put-true :
    (k pg : String) (m : Dict Bool) → lookup pg m ≡ some true → lookup pg (put k true m) ≡ some true
put-true k pg m h = elim (Bool-cases (str_eq k pg)) [
  | inl t ↦ lookup-put k pg true m ∙ ap (λ b. if b then some true else lookup pg m) t
  | inr f ↦ lookup-put k pg true m ∙ ap (λ b. if b then some true else lookup pg m) f ∙ h
]

-- One group over one machine.
record Kept (g h : Groups) (pg : String) : Type 0 where
  checks : Knows pg g.has_checks → Knows pg h.has_checks
  starts : WillStart g pg → WillStart h pg
  stopped : HasStopped g pg → HasStopped h pg

put_new-Found :
    (k pg : String) (i : ℕ) (m : Dict ℕ) (o : Option ℕ) → Found pg m → Found pg (put_new k i m o)
put_new-Found k pg i m none h = put-Found k pg i m h
put_new-Found k pg i m (some j) h = h

scan-Kept : (i : ℕ) (e : Entry) (g : Groups) (pg : String) → Kept g (scan_machine i e g) pg
unfolding scan_machine
scan-Kept i e g pg = record {
  checks = λ h. kept_checks (machine_has_configured_checks e.input.config) h;
  starts = λ h. kept_starts e.input.skip_launch h;
  stopped = λ h. kept_stopped e.input.skip_launch h;
}
  where
    kept_checks :
        (b : Bool)
        → Knows pg g.has_checks
        → Knows pg (if b then put (group e) true g.has_checks else g.has_checks)
    kept_checks true h = put-Knows pg (group e) true g.has_checks (inl h)
    kept_checks false h = h

    kept_starts :
        (b : Bool)
        → WillStart g pg
        → lookup pg (if not b then put (group e) true g.will_start else g.will_start) ≡ some true
    kept_starts true h = h
    kept_starts false h = put-true (group e) pg g.will_start h

    kept_stopped :
        (b : Bool)
        → HasStopped g pg
        → Found pg (
            if not b
            then g.first_stopped
            else put_new (group e) i g.first_stopped (lookup (group e) g.first_stopped))
    kept_stopped true h =
        put_new-Found (group e) pg i g.first_stopped (lookup (group e) g.first_stopped) h
    kept_stopped false h = h

scan_machines-Kept :
    (i : ℕ) (es : List Entry) (g : Groups) (pg : String) → Kept g (scan_machines i es g) pg
unfolding scan_machines
scan_machines-Kept i [] g pg = record { checks = λ h. h; starts = λ h. h; stopped = λ h. h }
scan_machines-Kept i (e ∷ es) g pg =
    let here = scan-Kept i e g pg in
    let there = scan_machines-Kept (i + 1) es (scan_machine i e g) pg in
    record {
      checks = λ h. there.checks (here.checks h);
      starts = λ h. there.starts (here.starts h);
      stopped = λ h. there.stopped (here.stopped h);
    }

-- What the first loop notes of the machine itself.
pub record Noted (g : Groups) (e : Entry) : Type 0 where
  pub checks : machine_has_configured_checks e.input.config ≡ true → Knows (group e) g.has_checks
  pub runs : WillStart g (group e) ⊎ HasStopped g (group e)

scan-Noted : (i : ℕ) (e : Entry) (g : Groups) → Noted (scan_machine i e g) e
unfolding scan_machine
scan-Noted i e g = record {
  checks = λ h. noted_checks (machine_has_configured_checks e.input.config) h;
  runs = noted_runs e.input.skip_launch (lookup (group e) g.first_stopped) refl;
}
  where
    noted_checks :
        (b : Bool)
        → b ≡ true
        → Knows (group e) (if b then put (group e) true g.has_checks else g.has_checks)
    noted_checks true h = put-Knows (group e) (group e) true g.has_checks (inr refl)
    noted_checks false h = absurd (false≢true h)

    noted_runs :
        (b : Bool) (o : Option ℕ)
        → lookup (group e) g.first_stopped ≡ o
        → (lookup (group e) (if not b then put (group e) true g.will_start else g.will_start)
            ≡ some true)
          ⊎ Found
              (group e)
              (if not b then g.first_stopped else put_new (group e) i g.first_stopped o)
    noted_runs false o h = inl (lookup-put_same (group e) true g.will_start)
    noted_runs true none h = inr (i, lookup-put_same (group e) i g.first_stopped)
    noted_runs true (some j) h = inr (j, h)

Noted-Kept : (g h : Groups) (e : Entry) → Kept g h (group e) → Noted g e → Noted h e
Noted-Kept g h e k n = record {
  checks = λ c. k.checks (n.checks c);
  runs = elim n.runs [ inl x ↦ inl (k.starts x) | inr y ↦ inr (k.stopped y) ];
}

pub scan_machines-Noted :
    (i : ℕ) (es : List Entry) (g : Groups) → All (Noted (scan_machines i es g)) es
unfolding scan_machines
scan_machines-Noted i [] g = tt
scan_machines-Noted i (e ∷ es) g = (
  Noted-Kept (scan_machine i e g) _ e (scan_machines-Kept (i + 1) es (scan_machine i e g) (group e))
      (scan-Noted i e g),
  scan_machines-Noted (i + 1) es (scan_machine i e g),
)
