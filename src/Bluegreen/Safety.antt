-- ===== src/Bluegreen/Safety.antt =====
-- What a deployment may have done when it ends, rollback included.
use flyctl.Base.{
  String, All, All-map, All-append, ◌≡◌, ◌∙◌, refl, sym, subst, ap, Bool, true, false, List, [],
  ◌∷◌, if◌then◌else◌, ◌⊎◌, inl, inr,
}
use flyctl.Bluegreen.Types.{Entry}
use flyctl.Bluegreen.Errors.{Error, Result, ok, err, is, destroy_blue}
use flyctl.Bluegreen.Platform.{
  Platform, Runner, Deployment, Event, blue, green, ◌>>=◌, perform, destroy, launch, uncordon,
}
use flyctl.Bluegreen.Moves.{Ends-if, Moves, Preorder, ErrorIn, Anything, Moves-pure, Moves-bind}
use flyctl.Bluegreen.Traces.{Extends, Extends-Preorder, Moves-perform, Any-Extends}
use flyctl.Bluegreen.Late.{AllLate, OnBlue, late_view, late-can_destroy, Moves-tear_down_blue}
use flyctl.Bluegreen.Early.{early_view, Builds}
use flyctl.Bluegreen.Traffic.{AllInTraffic, InTraffic, Uncordons, Both-bring_up_green}
use flyctl.Bluegreen.Run.{
  bring_up_green, keep_green_machines, tear_down_blue, deploy, destroy_green_machines, rollback,
  roll_back_after, can_destroy_green_machines, run_and_roll_back, blue_green_strategy,
  update_using_blue_green_strategy,
}

-- A call of a green machine.
abbrev pub OnGreen : Event → Type 0
OnGreen e = e.side ≡ green

-- A call that does not destroy a green machine.
abbrev pub SparesGreen : Event → Type 0
SparesGreen e = e.op ≡ destroy → e.side ≡ blue

Builds-OnGreen : (e : Event) → Builds e → OnGreen e
Builds-OnGreen e h = h.0

Builds-SparesGreen : (e : Event) → Builds e → SparesGreen e
Builds-SparesGreen e (h, inl eq) d = absurd (launch_or_destroy (sym eq ∙ d))
  where
    launch_or_destroy : launch ≡ destroy → ⊥
    launch_or_destroy x = cc x
Builds-SparesGreen e (h, inr eq) d = absurd (uncordon_or_destroy (sym eq ∙ d))
  where
    uncordon_or_destroy : uncordon ≡ destroy → ⊥
    uncordon_or_destroy x = cc x

blue-SparesGreen : (e : Event) → OnBlue e → SparesGreen e
blue-SparesGreen e h d = h

module _ {W : Type 0} where
  -- The log after a stage that starts from a log that satisfies `P`.
  log-Extends :
      {K : Type 0} (view : Deployment W → K) (P Q : Event → Type 0) (s t : Deployment W)
      → ((e : Event) → P e → Q e)
      → Extends view P s t
      → All Q s.log
      → All Q t.log
  log-Extends view P Q s t f h k =
      subst (All Q) (sym h.grown) (All-append Q h.added s.log (All-map P Q h.added f h.allowed) k)

module _ {W : Type 0} (platform : Platform W) (runner : Runner W) where
  abbrev Undo : Deployment W → Deployment W → Type 0
  Undo = Extends early_view OnGreen

  abbrev undo_order : Preorder Undo
  undo_order = Extends-Preorder early_view OnGreen

  destroys_green :
      (es : List Entry) → Moves Undo Anything (destroy_green_machines platform runner es)
  unfolding destroy_green_machines
  destroys_green [] = Moves-pure Undo undo_order Anything tt
  destroys_green (e ∷ es) =
      Moves-bind Undo undo_order Anything
        (perform destroy green e.machine.id (platform.destroy e.machine))
        (λ _. destroy_green_machines platform runner es)
        (Moves-perform early_view OnGreen (λ s w l. refl) destroy green e.machine.id
          (platform.destroy e.machine) (λ e. refl))
        (λ _. destroys_green es)

  rollback-Undo : (e : Error) (s : Deployment W) → Undo s (rollback platform runner e s).1
  unfolding rollback
  rollback-Undo e s =
      (Ends-if Undo undo_order Anything s s.disable_rollback (ok tt, s) _ stays
        (Ends-if Undo undo_order Anything s (is e destroy_blue) (ok tt, s) _ stays
          (Ends-if Undo undo_order Anything s (can_destroy_green_machines s.can_delete_green e)
            (destroy_green_machines platform runner s.green_machines s) (ok tt, s)
            (destroys_green s.green_machines s) stays))).0
    where
      stays : Undo s s × Unit {0}
      stays = (undo_order.same s, tt)

  same_if : {A : Type 0} (b : Bool) (x y : A) → y ≡ x → (if b then x else y) ≡ x
  same_if true x y h = refl
  same_if false x y h = h

  rollback-idle :
      (e : Error) (s : Deployment W)
      → AllLate e
      → s.can_delete_green ≡ false
      → (rollback platform runner e s).1 ≡ s
  unfolding rollback
  rollback-idle e s h c =
      ap (λ q. q.1)
        (same_if s.disable_rollback (ok tt, s) _
          (same_if (is e destroy_blue) (ok tt, s) _
            (ap
              (λ b.
                if b then destroy_green_machines platform runner s.green_machines s else (ok tt, s))
              (ap (λ b. can_destroy_green_machines b e) c ∙ late-can_destroy e h))))

  -- How a deployment may end: no blue machine was called at all, or no green machine was destroyed and
  -- each of them was uncordoned.
  abbrev pub Safe : Deployment W → Type 0
  Safe t = All OnGreen t.log ⊎ (All SparesGreen t.log × AllInTraffic platform runner t)

  -- The end of a deployment whose blue machines are being torn down, in a state `u`.
  late-Safe :
      (t u : Deployment W) (r : Result (Unit {0}))
      → Extends late_view OnBlue (record t { can_delete_green = false }) u
      → ErrorIn AllLate r
      → All SparesGreen t.log
      → AllInTraffic platform runner t
      → Safe (roll_back_after platform runner r u).1
  late-Safe t u r h he spares traffic = finish r he
    where
      kept_green : u.green_machines ≡ t.green_machines
      kept_green = ap (λ q. q.0) h.kept

      safe : Safe u
      safe = inr (
        log-Extends late_view OnBlue SparesGreen _ u blue-SparesGreen h spares,
        subst (All (InTraffic u)) (sym kept_green) (
            All-map (InTraffic t) (InTraffic u) t.green_machines
              (λ e k. Any-Extends late_view OnBlue (Uncordons e.machine.id) h k) traffic),
      )

      finish :
          (r : Result (Unit {0})) → ErrorIn AllLate r → Safe (roll_back_after platform runner r u).1
      finish (ok a) he = safe
      finish (err e) he = subst Safe (sym (rollback-idle e u he (ap (λ q. q.2) h.kept))) safe

  bring-Safe :
      (r : Result (Unit {0})) (t : Deployment W)
      → All Builds t.log
      → (r ≡ ok tt → AllInTraffic platform runner t)
      → (q : Result (Unit {0}) × Deployment W)
      → q ≡ (elim r [
        | ok a ↦ (keep_green_machines platform runner >>= λ _. tear_down_blue platform runner) t
        | err e ↦ (err e, t)
      ])
      → Safe (roll_back_after platform runner q.0 q.1).1
  unfolding keep_green_machines
  bring-Safe (ok a) t built traffic q eq =
      subst (λ q. Safe (roll_back_after platform runner q.0 q.1).1) (sym eq)
        (late-Safe t _ _ torn.0 torn.1 (All-map Builds SparesGreen t.log Builds-SparesGreen built)
          (traffic refl))
    where
      torn :
          Extends late_view OnBlue
            (record t { can_delete_green = false })
            (tear_down_blue platform runner (record t { can_delete_green = false })).1
          × ErrorIn AllLate
              (tear_down_blue platform runner (record t { can_delete_green = false })).0
      torn = Moves-tear_down_blue platform runner (record t { can_delete_green = false })
  bring-Safe (err e) t built traffic q eq =
      subst (λ q. Safe (roll_back_after platform runner q.0 q.1).1) (sym eq)
        (inl (
          log-Extends early_view OnGreen OnGreen t _ (λ e h. h) (rollback-Undo e t)
            (All-map Builds OnGreen t.log Builds-OnGreen built)))

  run-Safe : (s : Deployment W) → s.log ≡ [] → Safe (run_and_roll_back platform runner s).1
  unfolding run_and_roll_back deploy
  run-Safe s e =
      bring-Safe (bring_up_green platform runner s).0 (bring_up_green platform runner s).1
        (log-Extends early_view Builds Builds s _ (λ e h. h) (early.0 s).0
          (subst (All Builds) (sym e) tt))
        (λ eq.
          early.1 s (bring_up_green platform runner s).1 tt
            (ap (λ r. (r, (bring_up_green platform runner s).1)) eq))
        (deploy platform runner s) refl
    where
      early :
          Moves (Extends early_view Builds) Anything (bring_up_green platform runner)
          × ((s u : Deployment W) (a : Unit {0})
              → bring_up_green platform runner s ≡ (ok a, u)
              → AllInTraffic platform runner u)
      early = Both-bring_up_green platform runner

  -- updateUsingBlueGreenStrategy ends, rollback included, in one of two ways: no blue machine has been
  -- cordoned, stopped, destroyed or tagged; or no green machine has been destroyed, and every green
  -- machine has been uncordoned with success.
  pub update-Safe :
      (timestamp : String) (machines : List Entry) (w : W)
      → Safe (update_using_blue_green_strategy platform runner timestamp machines w).1
  unfolding update_using_blue_green_strategy blue_green_strategy
  update-Safe timestamp machines w =
      run-Safe (blue_green_strategy platform runner timestamp machines w) refl
