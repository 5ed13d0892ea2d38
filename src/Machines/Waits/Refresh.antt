-- ===== src/Machines/Waits/Refresh.antt =====
-- The background refresh of a lease: refreshLeaseUntilCanceled of leasable_machine.go.
use flyctl.Base.{Bool, true, false, not, ◌||◌, List, [], ◌∷◌, if◌then◌else◌}
use flyctl.Base.Bytes.{Bytes, codes}
use flyctl.Bluegreen.Errors.{message, contains, is, canceled}
use flyctl.Machines.Api.{Failure, not_acquired, api, Answer, done, failed, Flaps}
use flyctl.Machines.Leasable.{Leasable, refresh_lease}

-- The text of an error, as far as it can say that the machine is gone.
abbrev pub failure_text : Failure → Bytes
failure_text (api e) = message e
failure_text (not_acquired texts) = texts
failure_text _ = []

abbrev pub is_canceled : Failure → Bool
is_canceled (api e) = is e canceled
is_canceled _ = false

-- What becomes of the background loop after a refresh: it goes on, unless the refresh was canceled or
-- the machine is gone.
unfoldable pub goes_on : Answer (Unit {0}) → Bool
goes_on (done a) = true
goes_on (failed f) = not (is_canceled f || contains (codes "machine not found") (failure_text f))

-- refreshLeaseUntilCanceled, over what happens to the machine while the loop sleeps: whether the loop
-- has ended, and the machine.
unfoldable pub refresh_lease_until_canceled :
    {W I : Type 0} → Flaps W I → List (Leasable W → Leasable W) → Leasable W → Bool × Leasable W
refresh_lease_until_canceled flaps [] lm = (false, lm)
refresh_lease_until_canceled flaps (sleep ∷ sleeps) lm =
    let refreshed = refresh_lease flaps (sleep lm) in
    let rest = refresh_lease_until_canceled flaps sleeps refreshed.1 in
    if (sleep lm).destroyed
    then (true, sleep lm)
    else if goes_on refreshed.0
    then rest
    else (true, refreshed.1)
