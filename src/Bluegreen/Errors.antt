-- ===== src/Bluegreen/Errors.antt =====
-- Go's errors, as the causes that `errors.Is` and `errors.As` find in them, and the test for errors that
-- are worth another attempt (internal/flapsutil/retry.go).
use flyctl.Base.{
  ℕ, Bool, true, false, ◌&&◌, ◌||◌, Option, none, some, List, [], ◌∷◌, ◌++◌, ◌==◌, ltb, leb,
  if◌then◌else◌, ◌+◌,
}
use flyctl.Base.Bytes.{Bytes, codes, has_prefix}

-- The errors that strategy_bluegreen.go declares, the two of a context, the collected failures to stop
-- machines, and an answer of the API, with its status if it is a FlapsError, and its message.
pub data Cause : Type 0 where
  aborted wait_timeout create_green started_state wait_healthy mark_ready cordon_blue stop_blue :
      Cause
  stopped_state destroy_blue tag_deletion validation org_limit multiple_images : Cause
  canceled deadline stop_failures : Cause
  api : Option ℕ → Bytes → Cause

-- errors.Join appends.
abbrev pub Error : Type 0
Error = List Cause

pub data Result {ℓ} (A : Type ℓ) : Type ℓ where
  ok : A → Result A
  err : Error → Result A

abbrev pub same_sentinel : Cause → Cause → Bool
same_sentinel aborted aborted = true
same_sentinel wait_timeout wait_timeout = true
same_sentinel create_green create_green = true
same_sentinel started_state started_state = true
same_sentinel wait_healthy wait_healthy = true
same_sentinel mark_ready mark_ready = true
same_sentinel cordon_blue cordon_blue = true
same_sentinel stop_blue stop_blue = true
same_sentinel stopped_state stopped_state = true
same_sentinel destroy_blue destroy_blue = true
same_sentinel tag_deletion tag_deletion = true
same_sentinel validation validation = true
same_sentinel org_limit org_limit = true
same_sentinel multiple_images multiple_images = true
same_sentinel canceled canceled = true
same_sentinel deadline deadline = true
same_sentinel stop_failures stop_failures = true
same_sentinel _ _ = false

-- errors.Is(err, target), and errors.As for `stop_failures`
unfoldable pub is : Error → Cause → Bool
is [] target = false
is (c ∷ cs) target = same_sentinel c target || is cs target

-- errors.As(err, &flapsErr): the status of the first FlapsError.
unfoldable pub flaps_status : Error → Option ℕ
flaps_status [] = none
flaps_status (api (some status) message ∷ cs) = some status
flaps_status (_ ∷ cs) = flaps_status cs

-- The message of an error, as far as the answers of the API make it up: no other cause has one of the
-- texts that are looked for.
unfoldable pub message : Error → Bytes
message [] = []
message (api status text ∷ cs) = text ++ (b'\n' ∷ message cs)
message (_ ∷ cs) = message cs

abbrev pub to_lower : Bytes → Bytes
to_lower [] = []
to_lower (c ∷ s) = (if leb b'A' c && leb c b'Z' then c + 32 else c) ∷ to_lower s

-- strings.Contains
abbrev pub contains : Bytes → Bytes → Bool
contains part [] = has_prefix part []
contains part (c ∷ s) = has_prefix part (c ∷ s) || contains part s

abbrev pub contains_any : List Bytes → Bytes → Bool
contains_any [] s = false
contains_any (p ∷ ps) s = contains p s || contains_any ps s

unfoldable pub has_transient_network_substring : Error → Bool
has_transient_network_substring e =
    contains_any
      (codes "connection reset by peer"
        ∷ codes "connection refused"
        ∷ codes "network is unreachable"
        ∷ codes "temporary failure in name resolution"
        ∷ codes "no such host"
        ∷ codes "eof"
        ∷ [])
      (to_lower (message e))

-- 408, 429 and 5xx
abbrev pub transient_status : Option ℕ → Bool
transient_status none = false
transient_status (some n) = n == 408 || n == 429 || (leb 500 n && ltb n 600)

unfoldable pub is_transient_flaps_error : Error → Bool
is_transient_flaps_error e =
    if is e canceled || is e deadline
    then false
    else if transient_status (flaps_status e)
    then true
    else has_transient_network_substring e
