-- ===== src/Bluegreen/Traces.antt =====
-- The calls that a stage adds to the log, and the fields that it leaves alone.
use flyctl.Base.{
  All, All-append, Any, Any-append, ◌≡◌, ◌∙◌, refl, sym, subst, ap, String, Option, List, [], ◌∷◌,
  ◌++◌,
}
use flyctl.Bluegreen.Errors.{Error, Result, ok, err, aborted}
use flyctl.Bluegreen.Platform.{
  Platform, Runner, Deployment, Event, Op, Side, ask, perform, error_of,
}
use flyctl.Bluegreen.Stages.{check_aborted}
use flyctl.Bluegreen.Moves.{Ends-if, anything, Moves, Preorder, Anything}

append_assoc : {A : Type 0} (xs ys zs : List A) → (xs ++ ys) ++ zs ≡ xs ++ (ys ++ zs)
append_assoc [] ys zs = refl
append_assoc (x ∷ xs) ys zs = ap (λ l. x ∷ l) (append_assoc xs ys zs)

-- The log has grown by calls in `P`, and what `view` shows is the same.
pub record Extends {W K : Type 0} (view : Deployment W → K) (P : Event → Type 0)
    (s t : Deployment W) : Type 0 where
  pub added : List Event
  pub grown : t.log ≡ added ++ s.log
  pub allowed : All P added
  pub kept : view t ≡ view s

module _ {W K : Type 0} (view : Deployment W → K) (P : Event → Type 0) where
  pub Extends-Preorder : Preorder (Extends view P)
  Extends-Preorder = record {
    same = λ s. record { added = []; grown = refl; allowed = tt; kept = refl };
    chain = λ s t u h k. record {
      added = k.added ++ h.added;
      grown = k.grown ∙ ap (λ l. k.added ++ l) h.grown ∙ sym (append_assoc k.added h.added s.log);
      allowed = All-append P k.added h.added k.allowed h.allowed;
      kept = k.kept ∙ h.kept;
    };
  }

  -- Anything in the log stays there.
  pub Any-Extends :
      (Q : Event → Type 0) {s t : Deployment W} → Extends view P s t → Any Q s.log → Any Q t.log
  Any-Extends Q {s} {t} h a = subst (Any Q) (sym h.grown) (Any-append Q h.added s.log a)

  module _
      (stable : (s : Deployment W) (w : W) (l : List Event)
        → view (record s { world = w; log = l }) ≡ view s) where
    -- A step that changes nothing but the world.
    pub Extends-world : (s : Deployment W) (w : W) → Extends view P s (record s { world = w })
    Extends-world s w = record { added = []; grown = refl; allowed = tt; kept = stable s w s.log }

    pub Moves-ask : {A : Type 0} (f : W → Result A × W) → Moves (Extends view P) Anything (ask f)
    Moves-ask f s = (Extends-world s (f s.world).1, anything (f s.world).0)

    pub Moves-perform :
        {A : Type 0} (op : Op) (side : Side) (id : String) (f : W → Result A × W)
        → ((e : Option Error) → P (record { op = op; side = side; id = id; error = e }))
        → Moves (Extends view P) Anything (perform op side id f)
    Moves-perform op side id f h s = (
      record {
        added = (record { op = op; side = side; id = id; error = error_of (f s.world).0 }) ∷ [];
        grown = refl;
        allowed = (h (error_of (f s.world).0), tt);
        kept =
            stable s (f s.world).1
              ((record { op = op; side = side; id = id; error = error_of (f s.world).0 }) ∷ s.log);
      },
      anything (f s.world).0,
    )

pub Moves-check_aborted :
    {W : Type 0} (R : Deployment W → Deployment W → Type 0) (order : Preorder R)
    (E : Error → Type 0)
    → E (aborted ∷ [])
    → (platform : Platform W) (runner : Runner W) → Moves R E (check_aborted platform runner)
unfolding check_aborted
Moves-check_aborted R order E h platform runner s =
    Ends-if R order E s (platform.is_aborted s.world) (err (aborted ∷ []), s) (ok tt, s)
      (order.same s, h) (order.same s, tt)
