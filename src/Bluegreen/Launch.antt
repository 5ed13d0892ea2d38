-- ===== src/Bluegreen/Launch.antt =====
-- Launching one green machine: `launchGreenMachineWithRetry` and `findGreenMachineByLaunchID`.
use flyctl.Base.{
  ℕ, zero, suc, String, Bool, not, ◌&&◌, Option, none, some, List, [], ◌∷◌, lookup, str_eq, ◌==◌,
  if◌then◌else◌,
}
use flyctl.Bluegreen.Types.{Machine, LaunchInput}
use flyctl.Bluegreen.Errors.{Error, Result, ok, err, is_transient_flaps_error}
use flyctl.Bluegreen.Platform.{Platform, M, pure, fail, ◌>>=◌, ◌>>◌, perform, launch, green}

abbrev pub launch_retry_attempts : ℕ
launch_retry_attempts = 3

abbrev pub launch_id_key : String
launch_id_key = "fly_flyctl_bluegreen_launch_id"

-- m.Config.Metadata[key] == id, where a missing key reads as the empty text
abbrev pub has_value : String → Option String → Bool
has_value id none = str_eq "" id
has_value id (some v) = str_eq v id

unfoldable pub has_launch_id : String → Machine → Bool
has_launch_id id m = m.has_config && has_value id (lookup launch_id_key m.metadata)

unfoldable pub find_by_launch_id : String → List Machine → Option Machine
find_by_launch_id id [] = none
find_by_launch_id id (m ∷ ms) = if has_launch_id id m then some m else find_by_launch_id id ms

module _ {W : Type 0} (platform : Platform W) where
  abbrev pub or_fail : Option Error → M W (Unit {0})
  or_fail none = pure tt
  or_fail (some e) = fail e

  -- if err := ctx.Err(); err != nil { return err }
  unfoldable pub check_context : M W (Unit {0})
  check_context s = or_fail (platform.context_error s.world) s

  unfoldable pub pause : M W (Unit {0})
  pause s = (ok tt, record s { world = platform.sleep s.world })

  abbrev pub found : String → Result (List Machine) → Option Machine
  found id (ok ms) = find_by_launch_id id ms
  found id (err e) = none

  -- The machine that carries the launch id, if the lookup succeeds and there is one.
  unfoldable pub find_green_machine : String → M W (Option Machine)
  find_green_machine id s =
      (ok (found id (platform.list s.world).0), record s { world = (platform.list s.world).1 })

  abbrev pub try_launch : LaunchInput → String → M W (Result Machine)
  try_launch input id s =
      let (r, t) = perform {A = Machine} launch green id (platform.launch input) s in (ok r, t)

  abbrev pub or_retry : Option Machine → M W Machine → M W Machine
  or_retry (some m) next = pure m
  or_retry none next = next

  -- What follows a launch: success, an error that is not worth another attempt, a machine that was
  -- created in spite of the error, or the next attempt.
  abbrev pub after_launch : String → Result Machine → (Error → M W Machine) → M W Machine
  after_launch id (ok m) next = pure m
  after_launch id (err e) next =
      if not (is_transient_flaps_error e)
      then fail e
      else (do pause; check_context; existing ← find_green_machine id; or_retry existing (next e))

  -- Back off before the next attempt, if there is one.
  abbrev pub back_off : ℕ → M W (Unit {0})
  back_off zero = pure tt
  back_off (suc n) = pause >> check_context

  -- The loop, with the attempts that are left and the last error.
  unfoldable pub launch_attempts : ℕ → Error → LaunchInput → String → M W Machine
  launch_attempts zero last input id = fail last
  launch_attempts (suc n) last input id = check_context >>= λ _. try_launch input id >>= λ r.
      after_launch id r (λ e. back_off n >>= λ _. launch_attempts n e input id)

  -- attempts == 0 counts as 1
  unfoldable pub launch_green_machine_with_retry : ℕ → LaunchInput → String → M W Machine
  launch_green_machine_with_retry attempts input id =
      launch_attempts (if attempts == 0 then 1 else attempts) [] input id
