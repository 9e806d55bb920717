-- ===== src/Retry/Tests.antt =====
-- The theorems on retries with a call that fails twice before it succeeds.
use nasty_csi.Common.{ℕ, zero, suc, ◌≤◌, true, false, none}
use nasty_csi.Common.Result.{Result, ok, err}
use nasty_csi.Retry.{
  Floats, CallError, Config, Setting, default_config, with_defaults, with_retry, count,
}
use nasty_csi.Retry.Schedule.{Good, calls, with_retry-Good, with_retry-calls}

-- A float64 that is only ever 1.
abbrev unit_floats : Floats
unit_floats = record {
  Float = Unit {0};
  one = tt;
  two = tt;
  is_positive = λ x. true;
  scale = λ d x. d;
}

abbrev failed : CallError
failed = record {
  text = "connection refused";
  is_uncertain_outcome = false;
  is_net_timeout = false;
  is_retryable_errno = true;
  is_eof = false;
  is_closed = false;
}

abbrev countdown : ℕ → Result CallError ℕ × ℕ
countdown zero = (ok 7, 0)
countdown (suc n) = (err failed, n)

-- The world is the number of failures to come.
abbrev failing : Setting unit_floats ℕ
failing = record { World = ℕ; context_error = λ w. none; wait = λ d w. (none, w); call = countdown }

abbrev config : Config unit_floats
config = default_config unit_floats

with_retry-Good_example :
    Good unit_floats failing
      (with_defaults unit_floats config)
      (count unit_floats failing (with_defaults unit_floats config).max_attempts)
      (with_defaults unit_floats config).initial_backoff
      (with_retry unit_floats failing config 2)
with_retry-Good_example = with_retry-Good unit_floats failing config 2

with_retry-calls_example :
    let (r, log, w) = with_retry unit_floats failing config 2 in
    (calls log ≤ count unit_floats failing (with_defaults unit_floats config).max_attempts)
    × (1 ≤ count unit_floats failing (with_defaults unit_floats config).max_attempts)
with_retry-calls_example = with_retry-calls unit_floats failing config 2
