-- ===== src/Bluegreen/Moves.antt =====
-- How a stage of the strategy changes a deployment: rules for a relation between the states before
-- and after, and for the errors, over the combinators of Platform.
mod EndsWell
use flyctl.Base.{if◌then◌else◌, All, ◌≡◌, ◌∙◌, refl, List, ap, subst, ℕ, Bool, true, false}
use flyctl.Bluegreen.Errors.{Error, Result, ok, err}
use flyctl.Bluegreen.Platform.{
  Deployment, M, pure, fail, ◌>>=◌, with_cause, recover, Runs, gives_up, succeeds, again, Takes,
  first, later, Pooled, drained, runs, first_error, Runner,
}
pub use EndsWell.*

abbrev pub ErrorIn : {A : Type 0} → (Error → Type 0) → Result A → Type 0
ErrorIn E (ok a) = Unit
ErrorIn E (err e) = E e

abbrev pub Anything : Error → Type 0
Anything e = Unit

pub anything : {A : Type 0} (r : Result A) → ErrorIn Anything r
anything (ok a) = tt
anything (err e) = tt

module _ {W : Type 0} where
  -- `m` relates each state to the next one by `R`, and each of its errors is in `E`.
  abbrev pub Moves :
      (R : Deployment W → Deployment W → Type 0) → (Error → Type 0) → {A : Type 0} → M W A → Type 0
  Moves R E {A = A} m = (s : Deployment W) → R s (m s).1 × ErrorIn E (m s).0

  pub record Preorder (R : Deployment W → Deployment W → Type 0) : Type 0 where
    pub same : (s : Deployment W) → R s s
    pub chain : (s t u : Deployment W) → R s t → R t u → R s u

module _ {W : Type 0} (R : Deployment W → Deployment W → Type 0) (order : Preorder R) where
  pub Moves-pure : (E : Error → Type 0) {A : Type 0} (a : A) → Moves R E (pure {W = W} a)
  Moves-pure E a s = (order.same s, tt)

  pub Moves-fail : (E : Error → Type 0) (A : Type 0) (e : Error) → E e → Moves R E {A = A} (fail e)
  Moves-fail E A e h s = (order.same s, h)

  abbrev pub Ends :
      (E : Error → Type 0) {B : Type 0} → Deployment W → Result B × Deployment W → Type 0
  Ends E s (r, t) = R s t × ErrorIn E r

  pub Ends-if :
      (E : Error → Type 0) {B : Type 0} (s : Deployment W) (b : Bool)
      (q q' : Result B × Deployment W)
      → Ends E {B = B} s q
      → Ends E {B = B} s q'
      → Ends E {B = B} s (if b then q else q')
  Ends-if E s true q q' h h' = h
  Ends-if E s false q q' h h' = h'

  pub Moves-if :
      (E : Error → Type 0) {B : Type 0} (b : Bool) (m n : M W B)
      → Moves R E m
      → Moves R E n
      → Moves R E (if b then m else n)
  Moves-if E true m n h h' = h
  Moves-if E false m n h h' = h'

  chain-Ends :
      (E : Error → Type 0) {B : Type 0} (s t : Deployment W) (q : Result B × Deployment W)
      → R s t
      → Ends E t q
      → Ends E s q
  chain-Ends E s t (r, u) h rest = (order.chain s t u h rest.0, rest.1)

  bind-step :
      (E : Error → Type 0) {A B : Type 0} (f : A → M W B) (s : Deployment W)
      → ((a : A) → Moves R E (f a))
      → (r : Result A) (t : Deployment W) → R s t
      → ErrorIn E r
      → Ends E {B = B} s (elim r [ ok a ↦ f a t | err e ↦ (err e, t) ])
  bind-step E f s hf (ok a) t h he = chain-Ends E s t (f a t) h (hf a t)
  bind-step E f s hf (err e) t h he = (h, he)

  pub Moves-bind :
      (E : Error → Type 0) {A B : Type 0} (m : M W A) (f : A → M W B)
      → Moves R E m
      → ((a : A) → Moves R E (f a))
      → Moves R E (m >>= f)
  Moves-bind E m f hm hf s = bind-step E f s hf (m s).0 (m s).1 (hm s).0 (hm s).1

  cause-step :
      (E F : Error → Type 0) (f : Error → Error) (s : Deployment W)
      → ((e : Error) → E e → F (f e))
      → (r : Result (Unit {0})) (t : Deployment W) → R s t
      → ErrorIn E r
      → Ends F {B = Unit {0}} s (elim r [ ok a ↦ (ok a, t) | err e ↦ (err (f e), t) ])
  cause-step E F f s hf (ok a) t h he = (h, tt)
  cause-step E F f s hf (err e) t h he = (h, hf e he)

  pub Moves-with_cause :
      (E F : Error → Type 0) (f : Error → Error) (m : M W (Unit {0}))
      → ((e : Error) → E e → F (f e))
      → Moves R E m
      → Moves R F (with_cause f m)
  Moves-with_cause E F f m hf hm s = cause-step E F f s hf (m s).0 (m s).1 (hm s).0 (hm s).1

  recover-step :
      (E F : Error → Type 0) (handle : Error → M W (Unit {0})) (s : Deployment W)
      → ((e : Error) → E e → Moves R F (handle e))
      → (r : Result (Unit {0})) (t : Deployment W) → R s t
      → ErrorIn E r
      → Ends F {B = Unit {0}} s (elim r [ ok a ↦ (ok a, t) | err e ↦ handle e t ])
  recover-step E F handle s hh (ok a) t h he = (h, tt)
  recover-step E F handle s hh (err e) t h he = chain-Ends F s t (handle e t) h (hh e he t)

  pub Moves-recover :
      (E F : Error → Type 0) (m : M W (Unit {0})) (handle : Error → M W (Unit {0}))
      → Moves R E m
      → ((e : Error) → E e → Moves R F (handle e))
      → Moves R F (recover m handle)
  Moves-recover E F m handle hm hh s =
      recover-step E F handle s hh (m s).0 (m s).1 (hm s).0 (hm s).1

  -- One step of an operation that is retried or pooled.
  step :
      (E : Error → Type 0) {A : Type 0} (m : M W A) {s t : Deployment W} {r : Result A}
      → Moves R E m
      → m s ≡ (r, t)
      → R s t × ErrorIn E r
  step E m {s = s} h e = subst (λ q. R s q.1 × ErrorIn E q.0) e (h s)

  Runs-R :
      {A : Type 0} (op : M W A) {s t : Deployment W} {r : Result A}
      → Moves R Anything op
      → Runs op s r t
      → R s t
  Runs-R op h (gives_up {s = s} e) = order.same s
  Runs-R op h (succeeds a eq) = (step Anything op h eq).0
  Runs-R op h (again {s = s} {t = t} {u = u} e eq rest) =
      order.chain s t u (step Anything op h eq).0 (Runs-R op h rest)

  pub Moves-retry :
      (runner : Runner W) (A : Type 0) (n : ℕ) (retry_if : Error → Bool) (op : M W A)
      → Moves R Anything op
      → Moves R Anything (runner.retry A n retry_if op)
  Moves-retry runner A n retry_if op h s = (
    Runs-R op h (runner.retry_runs A n retry_if op s),
    anything (runner.retry A n retry_if op s).0,
  )

  -- The rules for pools: `Each P ms` says that `P` holds of every task.
  All-Takes :
      (P : M W (Unit {0}) → Type 0) {m : M W (Unit {0})} {ms ns : List (M W (Unit {0}))}
      → Takes m ms ns
      → All P ms
      → P m × All P ns
  All-Takes P first (h, hs) = (h, hs)
  All-Takes P (later t) (h, hs) = let r = All-Takes P t hs in (r.0, (h, r.1))

  Pooled-R :
      (E : Error → Type 0) {ms : List (M W (Unit {0}))} {s t : Deployment W} {r : Result (Unit {0})}
      → All (Moves R E) ms
      → Pooled ms s r t
      → R s t × ErrorIn E r
  Pooled-R E h (drained {s = s}) = (order.same s, tt)
  Pooled-R E h (runs {s = s} {t = t} {u = u} {r = r} {q = q} m takes eq rest) =
      let (hm, hs) = All-Takes (Moves R E) takes h in
      let here = step E m hm eq in
      let there = Pooled-R E hs rest in
      (order.chain s t u here.0 there.0, first_in r q here.1 there.1)
    where
      first_in : (r q : Result (Unit {0})) → ErrorIn E r → ErrorIn E q → ErrorIn E (first_error r q)
      first_in (ok a) q he hq = hq
      first_in (err e) q he hq = he

  pub Moves-pool :
      (runner : Runner W) (E : Error → Type 0) (tasks : List (M W (Unit {0})))
      → All (Moves R E) tasks
      → Moves R E (runner.pool tasks)
  Moves-pool runner E tasks h s = Pooled-R E h (runner.pool_runs tasks s)

  -- `m` has run with success, and the state has come to `u` since.
  abbrev pub Ran : Deployment W → M W (Unit {0}) → Type 0
  Ran u m = (s : Deployment W) × (t : Deployment W) × (m s ≡ (ok tt, t)) × R t u

  put-Takes :
      (P : M W (Unit {0}) → Type 0) {m : M W (Unit {0})} {ms ns : List (M W (Unit {0}))}
      → Takes m ms ns
      → P m
      → All P ns
      → All P ms
  put-Takes P first h hs = (h, hs)
  put-Takes P (later t) h (h', hs) = (h', put-Takes P t h hs)

  first_error-ok : (r q : Result (Unit {0})) → first_error r q ≡ ok tt → (r ≡ ok tt) × (q ≡ ok tt)
  first_error-ok (ok tt) q e = (refl, e)
  first_error-ok (err x) q e = absurd (cc e)

  pub Pooled-Ran :
      {ms : List (M W (Unit {0}))} {s u : Deployment W} {r : Result (Unit {0})}
      → All (Moves R Anything) ms
      → Pooled ms s r u
      → r ≡ ok tt
      → All (Ran u) ms
  Pooled-Ran h drained e = tt
  Pooled-Ran h (runs {s = s} {t = t} {u = u} {r = r} {q = q} m takes eq rest) e =
      let (hm, hs) = All-Takes (Moves R Anything) takes h in
      let (er, eq') = first_error-ok r q e in
      put-Takes (Ran u) takes (s, t, eq ∙ ap (λ x. (x, t)) er, (Pooled-R Anything hs rest).0)
        (Pooled-Ran hs rest eq')

  Runs-ok :
      {A : Type 0} (op : M W A) {s u : Deployment W} {r : Result A} (a : A)
      → Runs op s r u
      → r ≡ ok a
      → (s' : Deployment W) × (op s' ≡ (ok a, u))
  Runs-ok op a (gives_up e) eq = absurd (cc eq)
  Runs-ok op a (succeeds {s = s} {t = t} b h) eq = (s, h ∙ ap (λ x. (x, t)) eq)
  Runs-ok op a (again e h rest) eq = Runs-ok op a rest eq

  -- A retried operation that ends well has had a run that ended well, the last one.
  pub retry-ok :
      (runner : Runner W) (A : Type 0) (n : ℕ) (retry_if : Error → Bool) (op : M W A)
      (s u : Deployment W) (a : A)
      → runner.retry A n retry_if op s ≡ (ok a, u)
      → (s' : Deployment W) × (op s' ≡ (ok a, u))
  retry-ok runner A n retry_if op s u a eq =
      Runs-ok op a (subst (λ q. Runs op s q.0 q.1) eq (runner.retry_runs A n retry_if op s)) refl
