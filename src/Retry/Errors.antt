-- ===== src/Retry/Errors.antt =====
-- Which errors pkg/retry/retry.go retries, and the configuration for deletions.
use nasty_csi.Common.{◌*◌, Bool, ◌||◌, some, [], ◌∷◌}
use nasty_csi.Common.Int.{pos}
use nasty_csi.Common.Text.{contains_any}
use nasty_csi.Retry.{Floats, second, CallError, Config}

pub is_retryable_network_error : CallError → Bool
is_retryable_network_error e =
    e.is_net_timeout
    || (e.is_retryable_errno
        || (e.is_eof
            || (e.is_closed
                || contains_any e.text (
                    "connection refused" ∷ "connection reset" ∷ "broken pipe" ∷ "i/o timeout"
                    ∷ "network is unreachable" ∷ "no route to host" ∷ "connection timed out" ∷ "EOF"
                    ∷ "use of closed network connection" ∷ []))))

pub is_retryable_api_error : CallError → Bool
is_retryable_api_error e =
    contains_any e.text
      ("500" ∷ "502" ∷ "503" ∷ "504" ∷ "busy" ∷ "temporarily unavailable" ∷ "try again" ∷ [])

pub is_retryable_error : CallError → Bool
is_retryable_error e = is_retryable_network_error e || is_retryable_api_error e

pub is_busy_resource_error : CallError → Bool
is_busy_resource_error e = contains_any e.text (
    "subvolume is busy" ∷ "target is busy" ∷ "resource busy" ∷ "EBUSY" ∷ "Device or resource busy"
    ∷ "filesystem is busy" ∷ [])

pub is_retryable_deletion_error : CallError → Bool
is_retryable_deletion_error e = is_busy_resource_error e || is_retryable_error e

pub deletion_config : (F : Floats) → Config F
deletion_config F = record {
  max_attempts = pos 12;
  initial_backoff = pos (5 * second);
  max_backoff = pos (5 * second);
  backoff_multiplier = F.one;
  retryable_func = some is_retryable_deletion_error;
}
