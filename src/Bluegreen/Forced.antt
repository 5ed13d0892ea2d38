-- ===== src/Bluegreen/Forced.antt =====
-- Which process groups have a machine that starts.
mod Notes
use flyctl.Base.{
  arith, All, All-map, ◌≡◌, ◌∙◌, refl, sym, subst, ap, ℕ, ◌+◌, Bool, true, false, not, ◌||◌, String,
  Option, none, some, List, [], ◌∷◌, Dict, lookup, put, if◌then◌else◌, ◌⊎◌, inl, inr, ◌==◌,
  false≢true,
}
use flyctl.Bluegreen.Types.{Entry, machine_has_configured_checks}
use flyctl.Bluegreen.Stages.{member}
use flyctl.Bluegreen.Starts.{
  Groups, flag, put_new, scan_machine, scan_machines, add_index, representatives,
  force_start_representatives,
}
pub use Notes.{group}
use Notes.{Knows, lookup-put_cases, WillStart, Noted, scan_machines-Noted}

-- From index `i` on there is a machine of the group that is launched or forced to start.
abbrev pub StartsFrom : ℕ → List ℕ → String → List Entry → Type 0
StartsFrom i forced pg [] = ⊥
StartsFrom i forced pg (e ∷ es) =
    ((group e ≡ pg) × ((e.input.skip_launch ≡ false) ⊎ (member i forced ≡ true)))
    ⊎ StartsFrom (i + 1) forced pg es

-- Where what the first loop noted comes from.
scan_machines-WillStart :
    (i : ℕ) (forced : List ℕ) (es : List Entry) (g : Groups) (pg : String)
    → WillStart (scan_machines i es g) pg
    → WillStart g pg ⊎ StartsFrom i forced pg es
unfolding scan_machines scan_machine
scan_machines-WillStart i forced [] g pg h = inl h
scan_machines-WillStart i forced (e ∷ es) g pg h =
    elim (scan_machines-WillStart (i + 1) forced es (scan_machine i e g) pg h) [
      | inl now ↦ here e.input.skip_launch refl now
      | inr later ↦ inr (inr later)
    ]
  where
    here :
        (b : Bool)
        → e.input.skip_launch ≡ b
        → lookup pg (if not b then put (group e) true g.will_start else g.will_start) ≡ some true
        → WillStart g pg ⊎ StartsFrom i forced pg (e ∷ es)
    here true skip w = inl w
    here false skip w = elim (lookup-put_cases (group e) pg true g.will_start (some true) w) [
      | inl (same, x) ↦ inr (inl (same, inl skip))
      | inr old ↦ inl old
    ]

stopped-source :
    (i j : ℕ) (forced : List ℕ) (es : List Entry) (g : Groups) (pg : String)
    → lookup pg (scan_machines i es g).first_stopped ≡ some j
    → member j forced ≡ true
    → (lookup pg g.first_stopped ≡ some j) ⊎ StartsFrom i forced pg es
unfolding scan_machines scan_machine
stopped-source i j forced [] g pg h m = inl h
stopped-source i j forced (e ∷ es) g pg h m =
    elim (stopped-source (i + 1) j forced es (scan_machine i e g) pg h m) [
      | inl now ↦ here e.input.skip_launch (lookup (group e) g.first_stopped) now
      | inr later ↦ inr (inr later)
    ]
  where
    here :
        (b : Bool) (o : Option ℕ)
        → lookup pg (if not b then g.first_stopped else put_new (group e) i g.first_stopped o)
          ≡ some j
        → (lookup pg g.first_stopped ≡ some j) ⊎ StartsFrom i forced pg (e ∷ es)
    here false o w = inl w
    here true (some k) w = inl w
    here true none w = elim (lookup-put_cases (group e) pg i g.first_stopped (some j) w) [
      | inl (same, x) ↦
          let index : j ≡ i = cc x in
          inr (inl (same, inr (subst (λ k. member k forced ≡ true) index m)))
      | inr old ↦ inl old
    ]

-- The second loop adds the stopped machine of each group that has checks and does not start.
member-add :
    (j : ℕ) (o : Option ℕ) (is : List ℕ) → member j is ≡ true → member j (add_index o is) ≡ true
member-add j none is h = h
member-add j (some k) is h = or_later (j == k) (member j is) h
  where
    or_later : (a b : Bool) → b ≡ true → (a || b) ≡ true
    or_later true b h = refl
    or_later false b h = h

member_here : (j : ℕ) (is : List ℕ) → member j (j ∷ is) ≡ true
member_here j is = ap (λ b. b || member j is) same
  where
    same : (j == j) ≡ true
    same = ground arith

member-representatives :
    (groups : Dict Bool) (g : Groups) (pg : String) (j : ℕ)
    → Knows pg groups
    → flag g.will_start pg ≡ false
    → lookup pg g.first_stopped ≡ some j
    → member j (representatives groups g) ≡ true
unfolding representatives
member-representatives [] g pg j h quiet e = absurd h
member-representatives ((k, b) ∷ groups) g pg j (inl same) quiet e =
    subst
      (λ k.
        member j (
          if flag g.will_start k
          then representatives groups g
          else add_index (lookup k g.first_stopped) (representatives groups g))
        ≡ true)
      (sym same)
      (ap
          (λ b. member j (
            if b
            then representatives groups g
            else add_index (lookup pg g.first_stopped) (representatives groups g)))
          quiet
        ∙ ap (λ o. member j (add_index o (representatives groups g))) e
        ∙ member_here j (representatives groups g))
member-representatives ((k, b) ∷ groups) g pg j (inr h) quiet e =
    passed (flag g.will_start k) (member-representatives groups g pg j h quiet e)
  where
    passed :
        (b : Bool)
        → member j (representatives groups g) ≡ true
        → member j (
            if b
            then representatives groups g
            else add_index (lookup k g.first_stopped) (representatives groups g))
          ≡ true
    passed true m = m
    passed false m = member-add j (lookup k g.first_stopped) (representatives groups g) m

flag-cases : (m : Dict Bool) (pg : String) → (lookup pg m ≡ some true) ⊎ (flag m pg ≡ false)
unfolding flag
flag-cases m pg = by_value (lookup pg m)
  where
    by_value :
        (o : Option Bool) → (o ≡ some true) ⊎ ((elim o [ none ↦ false | some b ↦ b ]) ≡ false)
    by_value none = inr refl
    by_value (some true) = inl refl
    by_value (some false) = inr refl

abbrev no_groups : Groups
no_groups = record { has_checks = []; will_start = []; first_stopped = [] }

representative_starts :
    (blue : List Entry) (e : Entry)
    → Noted (scan_machines 0 blue no_groups) e
    → machine_has_configured_checks e.input.config ≡ true
    → StartsFrom 0 (force_start_representatives blue) (group e) blue
unfolding force_start_representatives lookup flag
representative_starts blue e n c =
    elim (flag-cases (scan_machines 0 blue no_groups).will_start (group e)) [
      | inl starts ↦
          elim (scan_machines-WillStart 0 (force_start_representatives blue) blue no_groups
            (group e) starts) [ inl nowhere ↦ absurd (cc nowhere) | inr found ↦ found ]
      | inr quiet ↦ elim n.runs [
        | inl starts ↦
            absurd (false≢true (sym quiet ∙ ap (λ o. elim o [ none ↦ false | some b ↦ b ]) starts))
        | inr (j, stopped) ↦
            elim (stopped-source 0 j (force_start_representatives blue) blue no_groups (group e)
              stopped
              (member-representatives (scan_machines 0 blue no_groups).has_checks
                (scan_machines 0 blue no_groups) (group e) j (n.checks c) quiet stopped)) [
                  | inl nowhere ↦ absurd (cc nowhere)
                  | inr found ↦ found
                ]
      ]
    ]

-- In each process group with a machine that has checks, at least one machine is launched: it is not
-- stopped, or forceStartRepresentatives has its index.
pub force_start-StartsFrom :
    (machines : List Entry)
    → All
        (λ e.
          machine_has_configured_checks e.input.config ≡ true
          → StartsFrom 0 (force_start_representatives machines) (group e) machines)
        machines
force_start-StartsFrom machines =
    All-map (Noted (scan_machines 0 machines no_groups)) _ machines
      (λ e n c. representative_starts machines e n c) (scan_machines-Noted 0 machines no_groups)
