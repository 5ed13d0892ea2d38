-- ===== src/Bluegreen/Samples.antt =====
-- A platform on which every call succeeds, a runner that works through its tasks in order, and a
-- deployment of two machines.
use flyctl.Base.{
  ℕ, zero, suc, ◌≡◌, refl, String, Bool, true, false, none, some, List, [], ◌∷◌, get_or,
  if◌then◌else◌,
}
use flyctl.Bluegreen.Types.{host_ok, Machine, Entry}
use flyctl.Bluegreen.Errors.{Error, Result, ok, err}
use flyctl.Bluegreen.Platform.{
  Platform, Runner, Round, Deployment, M, Runs, gives_up, succeeds, again, Pooled, drained, runs,
  first, first_error,
}

abbrev pub machine_of : String → Machine
machine_of id = record {
  id = id;
  host_status = host_ok;
  repository = "app";
  tag = "v1";
  image = "app:v1";
  metadata = [];
  has_config = true;
}

abbrev pub entry_of : String → Bool → Entry
entry_of id stopped = record {
  machine = machine_of id;
  input = (record {
    id = id;
    config = (record { process_group = "app"; checks = 1; service_checks = []; metadata = [] });
    skip_launch = stopped;
    skip_service_registration = false;
  });
}

abbrev rounds_of : {A : Type 0} → A → List Entry → List (Round A)
rounds_of a [] = []
rounds_of a (e ∷ es) =
    (record { abort = false; report = some (e.machine.id, ok a) }) ∷ rounds_of a es

-- The world counts the launches.
abbrev pub platform : Platform ℕ
platform = record {
  is_aborted = λ w. false;
  context_error = λ w. none;
  can_perform = λ w. (ok true, w);
  get = λ id w. (ok (machine_of id), w);
  list = λ w. (ok [], w);
  launch = λ input w. (ok (machine_of (get_or ("g1" ∷ "g2" ∷ []) w "g")), suc w);
  uncordon = λ id w. (ok tt, w);
  force_destroy = λ id w. (ok tt, w);
  cordon = λ m w. (ok tt, w);
  stop = λ m w. (ok tt, w);
  destroy = λ m w. (ok tt, w);
  set_metadata = λ m k v w. (ok tt, w);
  release_lease = λ m w. (ok tt, w);
  new_launch_id = λ w. ("id", w);
  sleep = λ w. w;
  start_rounds = λ es w. (rounds_of tt es, w);
  health_rounds = λ es w. (rounds_of (record { total = 1; passing = 1 }) es, w);
  stop_rounds = λ es w. (rounds_of tt es, w);
}

module _ {W : Type 0} {A : Type 0} where
  -- One run, and another one after an error that is to be retried.
  unfoldable pub try : ℕ → (Error → Bool) → M W A → M W A
  try zero retry_if op s = (err [], s)
  try (suc n) retry_if op s = elim (op s).0 [
    | ok a ↦ (ok a, (op s).1)
    | err e ↦ if retry_if e then try n retry_if op (op s).1 else (err e, (op s).1)
  ]

  pub try-Runs :
      (n : ℕ) (retry_if : Error → Bool) (op : M W A) (s : Deployment W)
      → Runs op s (try n retry_if op s).0 (try n retry_if op s).1
  unfolding try
  try-Runs zero retry_if op s = gives_up []
  try-Runs (suc n) retry_if op s = run (λ t. try-Runs n retry_if op t) (op s).0 (op s).1 refl
    where
      Rest : Type 0
      Rest = (t : Deployment W) → Runs op t (try n retry_if op t).0 (try n retry_if op t).1

      next :
          Rest
          → (b : Bool) (e : Error) (t : Deployment W)
          → Runs op t
              (if b then try n retry_if op t else (err e, t)).0
              (if b then try n retry_if op t else (err e, t)).1
      next rest true e t = rest t
      next rest false e t = gives_up e

      run :
          Rest
          → (r : Result A) (t : Deployment W) → op s ≡ (r, t)
          → Runs op s
              (elim r as (λ r. Result A × Deployment W) [
                | ok a ↦ (ok a, t)
                | err e ↦ if retry_if e then try n retry_if op t else (err e, t)
              ]).0
              (elim r as (λ r. Result A × Deployment W) [
                | ok a ↦ (ok a, t)
                | err e ↦ if retry_if e then try n retry_if op t else (err e, t)
              ]).1
      run rest (ok a) t eq = succeeds a eq
      run rest (err e) t eq = again e eq (next rest (retry_if e) e t)

module _ {W : Type 0} where
  unfoldable pub in_order : List (M W (Unit {0})) → M W (Unit {0})
  in_order [] s = (ok tt, s)
  in_order (m ∷ ms) s = (first_error (m s).0 (in_order ms (m s).1).0, (in_order ms (m s).1).1)

  pub in_order-Pooled :
      (ms : List (M W (Unit {0}))) (s : Deployment W)
      → Pooled ms s (in_order ms s).0 (in_order ms s).1
  unfolding in_order
  in_order-Pooled [] s = drained
  in_order-Pooled (m ∷ ms) s = runs m first refl (in_order-Pooled ms (m s).1)

abbrev pub runner : {W : Type 0} → Runner W
runner = record {
  retry = λ A n retry_if op. try n retry_if op;
  retry_runs = λ A n retry_if op s. try-Runs n retry_if op s;
  pool = in_order;
  pool_runs = in_order-Pooled;
}

abbrev pub two_blue : List Entry
two_blue = entry_of "b1" false ∷ entry_of "b2" true ∷ []
