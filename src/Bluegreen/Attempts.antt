-- ===== src/Bluegreen/Attempts.antt =====
-- How many calls one launch of a green machine may make.
use flyctl.Base.{
  arith, ◌≤◌, ℕ, zero, suc, ◌+◌, Bool, true, false, not, [], length, Option, none, some,
  if◌then◌else◌, ◌==◌, String,
}
use flyctl.Bluegreen.Types.{LaunchInput, Machine}
use flyctl.Bluegreen.Errors.{Error, Result, ok, err, is_transient_flaps_error}
use flyctl.Bluegreen.Platform.{Platform, Deployment, M, fail, ◌>>=◌}
use flyctl.Bluegreen.Launch.{
  check_context, or_fail, pause, find_green_machine, try_launch, or_retry, after_launch, back_off,
  launch_attempts, launch_green_machine_with_retry,
}

-- `m` adds at most `n` calls to the log.
abbrev pub Costs : ℕ → {W A : Type 0} → M W A → Type 0
Costs n {W} {A} m = (s : Deployment W) → length (m s).1.log ≤ n + length s.log

module _ {W : Type 0} where
  Costs-bind :
      (j k n : ℕ) {A B : Type 0} (m : M W A) (f : A → M W B)
      → j + k ≤ n
      → Costs j m
      → ((a : A) → Costs k (f a))
      → Costs n (m >>= f)
  Costs-bind j k n {A} {B} m f le hm hf s = cost_step (m s).0 (m s).1 (hm s)
    where
      cost_step :
          (r : Result A) (t : Deployment W)
          → length t.log ≤ j + length s.log
          → length
              (elim r as (λ r. Result B × Deployment W) [ ok a ↦ f a t | err e ↦ (err e, t) ]).1.log
            ≤ n + length s.log
      cost_step (ok a) t h = omega (arith, hf a t)
      cost_step (err e) t h = omega arith

module _ {W : Type 0} (platform : Platform W) where
  Costs-context : Costs 0 (check_context platform)
  unfolding check_context
  Costs-context s = fails_or (platform.context_error s.world)
    where
      fails_or : (o : Option Error) → length (or_fail platform o s).1.log ≤ 0 + length s.log
      fails_or none = omega arith
      fails_or (some e) = omega arith

  Costs-pause : Costs 0 (pause platform)
  unfolding pause
  Costs-pause s = omega arith

  Costs-find : (id : String) → Costs 0 (find_green_machine platform id)
  unfolding find_green_machine
  Costs-find id s = omega arith

  Costs-try : (input : LaunchInput) (id : String) → Costs 1 (try_launch platform input id)
  Costs-try input id s = omega arith

  Costs-after :
      (k : ℕ) (id : String) (r : Result Machine) (next : Error → M W Machine)
      → ((e : Error) → Costs k (next e))
      → Costs k (after_launch platform id r next)
  Costs-after k id (ok m) next h s = omega arith
  Costs-after k id (err e) next h s = retry_or_not (is_transient_flaps_error e)
    where
      go_on : M W Machine
      go_on = pause platform >>= λ _. check_context platform >>= λ _.
          find_green_machine platform id >>= λ existing. or_retry platform existing (next e)

      reuse : (o : Option Machine) → Costs k (or_retry platform o (next e))
      reuse none t = h e t
      reuse (some m) t = omega arith

      again : Costs k go_on
      again =
          Costs-bind 0 k k (pause platform)
            (λ _. check_context platform >>= λ _.
              find_green_machine platform id >>= λ existing. or_retry platform existing (next e))
            (omega arith) Costs-pause
            (λ _.
              Costs-bind 0 k k (check_context platform)
                (λ _. find_green_machine platform id >>= λ existing.
                  or_retry platform existing (next e))
                (omega arith) Costs-context
                (λ _.
                  Costs-bind 0 k k (find_green_machine platform id)
                    (λ existing. or_retry platform existing (next e)) (omega arith) (Costs-find id)
                    reuse))

      retry_or_not :
          (b : Bool) → length ((if not b then fail e else go_on) s).1.log ≤ k + length s.log
      retry_or_not true = again s
      retry_or_not false = omega arith

  Costs-back_off : (n : ℕ) → Costs 0 (back_off platform n)
  Costs-back_off zero s = omega arith
  Costs-back_off (suc n) s =
      Costs-bind 0 0 0 (pause platform) (λ _. check_context platform) (omega arith) Costs-pause
        (λ _. Costs-context) s

  abbrev retry_after : ℕ → LaunchInput → String → Error → M W Machine
  retry_after n input id e = back_off platform n >>= λ _. launch_attempts platform n e input id

  Costs-attempts :
      (n : ℕ) (last : Error) (input : LaunchInput) (id : String)
      → Costs n (launch_attempts platform n last input id)
  unfolding launch_attempts
  Costs-attempts zero last input id s = omega arith
  Costs-attempts (suc n) last input id s =
      Costs-bind 0 (suc n) (suc n) (check_context platform)
        (λ _.
          try_launch platform input id >>= λ r. after_launch platform id r (retry_after n input id))
        (omega arith) Costs-context
        (λ _.
          Costs-bind 1 n (suc n) (try_launch platform input id)
            (λ r. after_launch platform id r (retry_after n input id)) (omega arith)
            (Costs-try input id)
            (λ r. Costs-after n id r (retry_after n input id) (λ e.
              Costs-bind 0 n n (back_off platform n) (λ _. launch_attempts platform n e input id)
                (omega arith) (Costs-back_off n) (λ _. Costs-attempts n e input id))))
        s

  -- Launching a green machine with a positive number of attempts, whatever the API answers, adds at
  -- most that many calls to the log; with no attempts it counts as one.
  pub launch-Costs :
      (attempts : ℕ) (input : LaunchInput) (id : String) (s : Deployment W)
      → length (launch_green_machine_with_retry platform attempts input id s).1.log
        ≤ (if attempts == 0 then 1 else attempts) + length s.log
  unfolding launch_green_machine_with_retry
  launch-Costs attempts input id s =
      Costs-attempts (if attempts == 0 then 1 else attempts) [] input id s
