-- ===== src/Bluegreen/Platform.antt =====
-- What the strategy calls: the Machines API, the leased machines (`LeasableMachine`), the clock and the
-- user's Ctrl+C, over a world of any type; and the state of a `blueGreen`.
use flyctl.Base.{ℕ, ◌≡◌, String, Bool, Option, none, some, List, [], ◌∷◌}
use flyctl.Bluegreen.Types.{Machine, LaunchInput, Entry, HealthStatus}
use flyctl.Bluegreen.Errors.{Error, Result, ok, err}

-- What a polling loop sees in one round: whether the user has aborted, and what a goroutine has
-- reported since the last round.
pub record Round (A : Type 0) : Type 0 where
  pub abort : Bool
  pub report : Option (String × Result A)

pub record Platform (W : Type 0) : Type 0 where
  pub is_aborted : W → Bool
  pub context_error : W → Option Error
  pub can_perform : W → Result Bool × W
  pub get : String → W → Result Machine × W
  pub list : W → Result (List Machine) × W
  pub launch : LaunchInput → W → Result Machine × W
  pub uncordon : String → W → Result (Unit {0}) × W
  pub force_destroy : String → W → Result (Unit {0}) × W
  pub cordon : Machine → W → Result (Unit {0}) × W
  pub stop : Machine → W → Result (Unit {0}) × W
  pub destroy : Machine → W → Result (Unit {0}) × W
  pub set_metadata : Machine → String → String → W → Result (Unit {0}) × W
  pub release_lease : Machine → W → Result (Unit {0}) × W
  pub new_launch_id : W → String × W
  pub sleep : W → W
  -- The rounds of a wait loop up to the tick of its timer.
  pub start_rounds : List Entry → W → List (Round (Unit {0})) × W
  pub health_rounds : List Entry → W → List (Round HealthStatus) × W
  pub stop_rounds : List Entry → W → List (Round (Unit {0})) × W

pub data Op : Type 0 where
  launch uncordon cordon stop destroy tag : Op

-- Which list the machine of a call is in.
pub data Side : Type 0 where
  blue green : Side

-- A call that changes a machine, and the error that it was answered with, if any.
pub record Event : Type 0 where
  pub op : Op
  pub side : Side
  pub id : String
  pub error : Option Error

-- A `blueGreen`, and the calls made so far, the last one first.
pub record Deployment (W : Type 0) : Type 0 where
  pub world : W
  pub log : List Event
  pub green_machines : List Entry
  pub blue_machines : List Entry
  pub hanging : List String
  pub can_delete_green : Bool
  pub disable_rollback : Bool
  pub timestamp : String

abbrev pub error_of : {A : Type 0} → Result A → Option Error
error_of (ok a) = none
error_of (err e) = some e

abbrev pub first_error : Result (Unit {0}) → Result (Unit {0}) → Result (Unit {0})
first_error (ok a) r = r
first_error (err e) r = err e

abbrev pub M : Type 0 → Type 0 → Type 0
M W A = Deployment W → Result A × Deployment W

module _ {W : Type 0} where
  abbrev pub pure : {A : Type 0} → A → M W A
  pure a s = (ok a, s)

  abbrev pub fail : {A : Type 0} → Error → M W A
  fail e s = (err e, s)

  infixl 5 ◌>>=◌ ◌>>◌
  abbrev pub ◌>>=◌ : {A B : Type 0} → M W A → (A → M W B) → M W B
  ◌>>=◌ m f s = elim (m s).0 [ ok a ↦ f a (m s).1 | err e ↦ (err e, (m s).1) ]

  abbrev pub ◌>>◌ : {B : Type 0} → M W (Unit {0}) → M W B → M W B
  m >> k = m >>= λ _. k

  -- if err := m; err != nil { return errors.Join(err, c) }
  abbrev pub with_cause : (Error → Error) → M W (Unit {0}) → M W (Unit {0})
  with_cause f m s = elim (m s).0 [ ok a ↦ (ok a, (m s).1) | err e ↦ (err (f e), (m s).1) ]

  -- if err := m; err != nil { … return nil }, where `handle` is what stands for the dots
  abbrev pub recover : M W (Unit {0}) → (Error → M W (Unit {0})) → M W (Unit {0})
  recover m handle s = elim (m s).0 [ ok a ↦ (ok a, (m s).1) | err e ↦ handle e (m s).1 ]

  -- A call that changes no machine.
  abbrev pub ask : {A : Type 0} → (W → Result A × W) → M W A
  ask f s = ((f s.world).0, record s { world = (f s.world).1 })

  -- A call that changes the machine `id`.
  abbrev pub perform : {A : Type 0} → Op → Side → String → (W → Result A × W) → M W A
  perform op side id f s = (
    (f s.world).0,
    record s {
      world = (f s.world).1;
      log = (record { op = op; side = side; id = id; error = error_of (f s.world).0 }) ∷ s.log;
    },
  )

  -- The runs of an operation that `retry.Do` may make, with the result: it ends with the first
  -- success, and may give up with an error before and after any run.
  pub data Runs {A : Type 0} (op : M W A) : Deployment W → Result A → Deployment W → Type 0 where
    gives_up : {s : Deployment W} (e : Error) → Runs op s (err e) s
    succeeds : {s t : Deployment W} (a : A) → op s ≡ (ok a, t) → Runs op s (ok a) t
    again :
        {s t u : Deployment W} {r : Result A} (e : Error)
        → op s ≡ (err e, t)
        → Runs op t r u
        → Runs op s r u

  -- One task is taken out of a list.
  pub data Takes (m : M W (Unit {0})) : List (M W (Unit {0})) → List (M W (Unit {0})) → Type 0 where
    first : {ms : List (M W (Unit {0}))} → Takes m (m ∷ ms) ms
    later :
        {n : M W (Unit {0})} {ms ns : List (M W (Unit {0}))}
        → Takes m ms ns
        → Takes m (n ∷ ms) (n ∷ ns)

  -- A pool runs each of its tasks once, in an order of its choice, and returns the first error.
  pub data Pooled
      : List (M W (Unit {0})) → Deployment W → Result (Unit {0}) → Deployment W → Type 0 where
    drained : {s : Deployment W} → Pooled [] s (ok tt) s
    runs :
        {ms ns : List (M W (Unit {0}))} {s t u : Deployment W} {r q : Result (Unit {0})}
        (m : M W (Unit {0}))
        → Takes m ms ns
        → m s ≡ (r, t)
        → Pooled ns t q u
        → Pooled ms s (first_error r q) u

-- The packages retry-go and conc.
pub record Runner (W : Type 0) : Type 1 where
  pub retry : (A : Type 0) → ℕ → (Error → Bool) → M W A → M W A
  pub retry_runs :
      (A : Type 0) (n : ℕ) (retry_if : Error → Bool) (op : M W A) (s : Deployment W)
      → Runs op s (retry A n retry_if op s).0 (retry A n retry_if op s).1
  pub pool : List (M W (Unit {0})) → M W (Unit {0})
  pub pool_runs :
      (tasks : List (M W (Unit {0}))) (s : Deployment W)
      → Pooled tasks s (pool tasks s).0 (pool tasks s).1
