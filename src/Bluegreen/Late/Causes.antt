-- ===== src/Bluegreen/Late/Causes.antt =====
-- The causes of errors that do not let the rollback destroy green machines.
use flyctl.Base.{All, All-map, All-append, ◌≡◌, refl, Bool, true, false, ◌&&◌, [], ◌∷◌}
use flyctl.Bluegreen.Errors.{
  Error, Cause, is, same_sentinel, aborted, create_green, started_state, wait_healthy, mark_ready,
  cordon_blue, stop_blue, stopped_state, destroy_blue, tag_deletion, wait_timeout, stop_failures,
}
use flyctl.Bluegreen.Run.{can_destroy_green_machines, join}

-- A cause that does not let the rollback destroy green machines.
pub record IsLate (c : Cause) : Type 0 where
  pub not_create : same_sentinel c create_green ≡ false
  pub not_started : same_sentinel c started_state ≡ false
  pub not_healthy : same_sentinel c wait_healthy ≡ false
  pub not_ready : same_sentinel c mark_ready ≡ false

abbrev pub AllLate : Error → Type 0
AllLate e = All IsLate e

IsLate-cause :
    (c : Cause)
    → same_sentinel c create_green ≡ false
    → same_sentinel c started_state ≡ false
    → same_sentinel c wait_healthy ≡ false
    → same_sentinel c mark_ready ≡ false
    → IsLate c
IsLate-cause c a b d e = record { not_create = a; not_started = b; not_healthy = d; not_ready = e }

pub aborted-IsLate : IsLate aborted
aborted-IsLate = IsLate-cause aborted refl refl refl refl

pub wait_timeout-IsLate : IsLate wait_timeout
wait_timeout-IsLate = IsLate-cause wait_timeout refl refl refl refl

pub stop_failures-IsLate : IsLate stop_failures
stop_failures-IsLate = IsLate-cause stop_failures refl refl refl refl

pub stopped_state-IsLate : IsLate stopped_state
stopped_state-IsLate = IsLate-cause stopped_state refl refl refl refl

pub tag_deletion-IsLate : IsLate tag_deletion
tag_deletion-IsLate = IsLate-cause tag_deletion refl refl refl refl

pub cordon_blue-IsLate : IsLate cordon_blue
cordon_blue-IsLate = IsLate-cause cordon_blue refl refl refl refl

pub stop_blue-IsLate : IsLate stop_blue
stop_blue-IsLate = IsLate-cause stop_blue refl refl refl refl

pub destroy_blue-IsLate : IsLate destroy_blue
destroy_blue-IsLate = IsLate-cause destroy_blue refl refl refl refl

pub late-join : (c : Cause) → IsLate c → (e : Error) → AllLate e → AllLate (join c e)
late-join c h e k = All-append IsLate e (c ∷ []) k (h, tt)

is-false :
    (target : Cause) (e : Error) → All (λ c. same_sentinel c target ≡ false) e → is e target ≡ false
unfolding is
is-false target [] h = refl
is-false target (c ∷ cs) h = cc (h.0, is-false target cs h.1)

pub late-can_destroy : (e : Error) → AllLate e → can_destroy_green_machines false e ≡ false
unfolding can_destroy_green_machines
late-can_destroy e h = cc (
  is-false create_green e (All-map IsLate _ e (λ c k. k.not_create) h),
  is-false started_state e (All-map IsLate _ e (λ c k. k.not_started) h),
  is-false wait_healthy e (All-map IsLate _ e (λ c k. k.not_healthy) h),
  is-false mark_ready e (All-map IsLate _ e (λ c k. k.not_ready) h),
  and_false (is e aborted),
)
  where
    and_false : (b : Bool) → b && false ≡ false
    and_false true = refl
    and_false false = refl
