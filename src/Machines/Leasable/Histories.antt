-- ===== src/Machines/Leasable/Histories.antt =====
-- The histories of the lease protocol, and that a leasableMachine makes no others.
use flyctl.Base.{
  false≢true, All, ◌≡◌, ◌∙◌, refl, sym, subst, ap, true, Option, none, some, List, [], ◌∷◌, ◌++◌,
  ◌⊎◌, inl, inr,
}
use flyctl.Machines.Api.{Flaps}
use flyctl.Machines.Leasable.{
  acquire, refresh, get_metadata, set_metadata, Call, Leasable, Action, act, run,
}
use flyctl.Machines.Leasable.Protocol.{
  Phase, Allowed, nothing, forgets, works, ends, boots, asks, keeps, notes, returns, phase,
  add_call, act-Follows,
}

-- A history of the protocol, its calls the last one first.
pub data History (p : Phase) : Phase → List Call → Type 0 where
  begin : History p p []
  next :
      {q r : Phase} {calls : List Call} (o : Option Call)
      → History p q calls
      → Allowed q r o
      → History p r (add_call o calls)

abbrev pub Upkeep : Call → Type 0
Upkeep c = (c.op ≡ acquire) ⊎ (c.op ≡ refresh) ⊎ (c.op ≡ get_metadata) ⊎ (c.op ≡ set_metadata)

abbrev UpkeepOf : Option Call → Type 0
UpkeepOf none = Unit
UpkeepOf (some c) = Upkeep c

-- A machine that is gone stays gone, and the protocol allows only calls for its lease and metadata.
Allowed-gone :
    {p q : Phase} {o : Option Call} → Allowed p q o → p.gone ≡ true → (q.gone ≡ true) × UpkeepOf o
Allowed-gone (nothing e) g = (ap (λ x. x.gone) e ∙ g, tt)
Allowed-gone (forgets h e) g = (ap (λ x. x.gone) e ∙ g, tt)
Allowed-gone (works c alive n k e) g = absurd (false≢true (sym alive ∙ g))
Allowed-gone (ends c alive n k e) g = absurd (false≢true (sym alive ∙ g))
Allowed-gone (boots c alive n k e) g = absurd (false≢true (sym alive ∙ g))
Allowed-gone (asks c n h k s e) g = (ap (λ x. x.gone) e ∙ g, inl k)
Allowed-gone (keeps c n k e) g = (ap (λ x. x.gone) e ∙ g, inr (inl k))
Allowed-gone (notes c n k e) g = (ap (λ x. x.gone) e ∙ g, inr (inr k))
Allowed-gone (returns c alive n m k e) g = absurd (false≢true (sym alive ∙ g))

add-Upkeep :
    (o : Option Call) (calls : List Call)
    → UpkeepOf o
    → All Upkeep calls
    → All Upkeep (add_call o calls)
add-Upkeep none calls h k = k
add-Upkeep (some c) calls h k = (h, k)

-- In a history from a phase in which the machine has been destroyed, it stays destroyed, and each call
-- asks for a lease, refreshes one, or is for the metadata.
pub History-Upkeep :
    {p q : Phase} {calls : List Call}
    → History p q calls
    → p.gone ≡ true
    → (q.gone ≡ true) × All Upkeep calls
History-Upkeep begin g = (g, tt)
History-Upkeep (next {calls = calls} o h step) g =
    let (here, before) = History-Upkeep h g in
    let (gone, kind) = Allowed-gone step here in (gone, add-Upkeep o calls kind before)

append_assoc :
    (xs : List Call) (o : Option Call) (zs : List Call)
    → (xs ++ add_call o []) ++ zs ≡ xs ++ add_call o zs
append_assoc [] none zs = refl
append_assoc [] (some c) zs = refl
append_assoc (x ∷ xs) o zs = ap (λ l. x ∷ l) (append_assoc xs o zs)

add_append : (o : Option Call) (xs ys : List Call) → add_call o xs ++ ys ≡ add_call o (xs ++ ys)
add_append none xs ys = refl
add_append (some c) xs ys = refl

-- Histories can be joined.
History-append :
    {p q r : Phase} {xs ys : List Call} → History p q xs → History q r ys → History p r (ys ++ xs)
History-append h begin = h
History-append {p} {xs = xs} h (next {r = r} {calls = calls} o k step) =
    subst (History p r) (sym (add_append o calls xs)) (next o (History-append h k) step)

module _ {W I : Type 0} (flaps : Flaps W I) where
  pub run-History :
      (actions : List (Action I)) (lm : Leasable W)
      → (calls : List Call) × History (phase lm) (phase (run flaps actions lm)) calls
        × ((run flaps actions lm).log ≡ calls ++ lm.log)
  unfolding run
  run-History [] lm = ([], begin, refl)
  run-History (a ∷ rest) lm =
      let (o, step, logged) = act-Follows flaps a lm in
      let (calls, h, e) = run-History rest (act flaps a lm) in
      (
        calls ++ add_call o [],
        History-append (next o begin step) h,
        e ∙ ap (λ l. calls ++ l) logged ∙ sym (append_assoc calls o lm.log),
      )

  -- Once a leasableMachine has destroyed its machine, whatever operations follow, it stays marked
  -- as destroyed and each further call acquires or refreshes a lease or is for the metadata.
  pub run-Upkeep :
      (actions : List (Action I)) (lm : Leasable W)
      → lm.destroyed ≡ true
      → ((run flaps actions lm).destroyed ≡ true)
        × ((calls : List Call) × All Upkeep calls × ((run flaps actions lm).log ≡ calls ++ lm.log))
  run-Upkeep actions lm gone =
      let (calls, h, e) = run-History actions lm in
      let (still, kinds) = History-Upkeep h gone in (still, (calls, kinds, e))
