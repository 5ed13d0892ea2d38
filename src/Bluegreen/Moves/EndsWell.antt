-- ===== src/Bluegreen/Moves/EndsWell.antt =====
-- What holds when an operation has ended well.
use flyctl.Base.{◌≡◌, ◌∙◌, refl, ap}
use flyctl.Bluegreen.Errors.{Error, Result, ok, err}
use flyctl.Bluegreen.Platform.{Deployment, M, ◌>>=◌, with_cause, recover}

-- What `m` and `handle` did if `recover m handle` ends well.
pub data Recovered {W : Type 0} (m : M W (Unit {0})) (handle : Error → M W (Unit {0}))
    (s u : Deployment W) : Type 0 where
  well : m s ≡ (ok tt, u) → Recovered m handle s u
  handled :
      (e : Error) (t : Deployment W)
      → m s ≡ (err e, t)
      → handle e t ≡ (ok tt, u)
      → Recovered m handle s u

Recovered-step :
    {W : Type 0} (m : M W (Unit {0})) (handle : Error → M W (Unit {0})) (s u : Deployment W)
    (r : Result (Unit {0})) (t : Deployment W)
    → m s ≡ (r, t)
    → elim r as (λ r. Result (Unit {0}) × Deployment W) [ ok a ↦ (ok a, t) | err e ↦ handle e t ]
      ≡ (ok tt, u)
    → Recovered m handle s u
Recovered-step m handle s u (ok tt) t eq e = well (eq ∙ e)
Recovered-step m handle s u (err x) t eq e = handled x t eq e

pub recover-ok :
    {W : Type 0} (m : M W (Unit {0})) (handle : Error → M W (Unit {0})) (s u : Deployment W)
    → recover m handle s ≡ (ok tt, u)
    → Recovered m handle s u
recover-ok m handle s u e = Recovered-step m handle s u (m s).0 (m s).1 refl e

module _ {W : Type 0} (Q : Deployment W → Type 0) where
  abbrev pub Leaves : {A : Type 0} → M W A → Type 0
  Leaves {A = A} m = (s u : Deployment W) (a : A) → m s ≡ (ok a, u) → Q u

  leaves-step :
      {A B : Type 0} (f : A → M W B)
      → ((a : A) → Leaves (f a))
      → (r : Result A) (t u : Deployment W) (b : B)
      → elim r as (λ r. Result B × Deployment W) [ ok a ↦ f a t | err e ↦ (err e, t) ] ≡ (ok b, u)
      → Q u
  leaves-step f h (ok a) t u b e = h a t u b e
  leaves-step f h (err x) t u b e = absurd (cc (ap (λ q. q.0) e))

  pub Leaves-bind :
      {A B : Type 0} (m : M W A) (f : A → M W B) → ((a : A) → Leaves (f a)) → Leaves (m >>= f)
  Leaves-bind m f h s u b e = leaves-step f h (m s).0 (m s).1 u b e

  cause-leaves :
      (f : Error → Error) (r : Result (Unit {0})) (t u : Deployment W) (b : Unit {0})
      → elim r as (λ r. Result (Unit {0}) × Deployment W) [
        | ok a ↦ (ok a, t)
        | err e ↦ (err (f e), t)
      ]
        ≡ (ok b, u)
      → ◌≡◌ {A = Result (Unit {0}) × Deployment W} (r, t) (ok b, u)
  cause-leaves f (ok a) t u b e = e
  cause-leaves f (err x) t u b e = absurd (cc (ap (λ q. q.0) e))

  pub Leaves-with_cause :
      (f : Error → Error) (m : M W (Unit {0})) → Leaves m → Leaves (with_cause f m)
  Leaves-with_cause f m h s u b e = h s u b (cause-leaves f (m s).0 (m s).1 u b e)
