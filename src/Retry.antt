-- ===== src/Retry.antt =====
-- Retries with backoff of pkg/retry/retry.go. Durations are nanoseconds in an int64. The context,
-- the timer and the called function act on an unknown world; floating point is a parameter.
pub mod Errors
pub mod Schedule
mod Tests
use nasty_csi.Common.{
  ℕ, zero, suc, ◌*◌, String, Bool, true, false, not, ◌&&◌, ◌||◌, Option, none, some, List, [], ◌∷◌,
  if◌then◌else◌, ◌==◌, eqb,
}
use nasty_csi.Common.Int.{ℤ, pos, negsuc, ltz}
use nasty_csi.Common.Result.{Result, ok, err}

-- No attempt remains after this one.
abbrev pub is_last : ℕ → Bool
is_last zero = true
is_last (suc n) = false

-- What the multiplier of a Config needs of float64.
pub record Floats : Type 1 where
  pub Float : Type 0
  pub one : Float
  pub two : Float
  pub is_positive : Float → Bool
  -- `time.Duration(float64(d) * m)`
  pub scale : ℤ → Float → ℤ

abbrev pub second : ℕ
second = 1000000000

abbrev pub is_positive_int : ℤ → Bool
is_positive_int d = ltz (pos 0) d

-- What the code asks of an error: its text, and the sentinels and types in its chain.
pub record CallError : Type 0 where
  pub text : String
  pub is_uncertain_outcome : Bool
  pub is_net_timeout : Bool
  pub is_retryable_errno : Bool
  pub is_eof : Bool
  pub is_closed : Bool

-- What WithRetry returns beside a result: the context's error, the last error of the call, or
-- ErrMaxRetriesExceeded, which wraps the last error (`none` when there was no attempt).
pub data Failure : Type 0 where
  cancelled : CallError → Failure
  gave_up : CallError → Failure
  max_retries_exceeded : Option CallError → Failure

-- What happened, in order: a call with its error, or a wait that ended by the timer.
pub data Event : Type 0 where
  called : Option CallError → Event
  waited : ℤ → Event

module _ (F : Floats) where
  open F use {Float, one, two, is_positive, scale}

  pub record Config : Type 0 where
    pub max_attempts : ℤ
    pub initial_backoff : ℤ
    pub max_backoff : ℤ
    pub backoff_multiplier : Float
    pub retryable_func : Option (CallError → Bool)

  abbrev pub default_config : Config
  default_config = record {
    max_attempts = pos 3;
    initial_backoff = pos second;
    max_backoff = pos (30 * second);
    backoff_multiplier = two;
    retryable_func = none;
  }

  abbrev pub positive_or : ℤ → ℤ → ℤ
  positive_or d default = if is_positive_int d then d else default

  -- The defaults that WithRetry fills in.
  pub with_defaults : Config → Config
  with_defaults c = record {
    max_attempts = positive_or c.max_attempts (pos 3);
    initial_backoff = positive_or c.initial_backoff (pos second);
    max_backoff = positive_or c.max_backoff (pos (30 * second));
    backoff_multiplier = if is_positive c.backoff_multiplier then c.backoff_multiplier else two;
    retryable_func = c.retryable_func;
  }

  pub next_backoff : Config → ℤ → ℤ
  next_backoff c b =
      if ltz c.max_backoff (scale b c.backoff_multiplier)
      then c.max_backoff
      else scale b c.backoff_multiplier

  abbrev pub accepts : Option (CallError → Bool) → CallError → Bool
  accepts none e = true
  accepts (some f) e = f e

  -- Whether the loop goes on after a failed attempt.
  unfoldable pub may_retry : Config → CallError → Bool
  may_retry c e = not e.is_uncertain_outcome && accepts c.retryable_func e

  -- The world: the context's error, a wait (with the context's error if that ends it), the call.
  pub record Setting (A : Type 0) : Type 1 where
    pub World : Type 0
    pub context_error : World → Option CallError
    pub wait : ℤ → World → Option CallError × World
    pub call : World → Result CallError A × World

  module _ {A : Type 0} (E : Setting A) where
    open E use {World, context_error, wait, call}

    -- The outcome, what happened on the way, and the world at the end.
    abbrev pub Run : Type 0
    Run = Result Failure A × List Event × World

    abbrev pub note : Event → Run → Run
    note e (r, log, w) = (r, e ∷ log, w)

    -- The wait between two attempts, then the rest of the loop.
    after_wait : ℤ → (World → Run) → Option CallError × World → Run
    after_wait b rest (some e, w) = (err (cancelled e), [], w)
    after_wait b rest (none, w) = note (waited b) (rest w)

    -- After a failed attempt; `last` tells that it was the last one.
    after_failure : Config → Bool → ℤ → (World → Run) → CallError → World → Run
    after_failure c last b rest e w =
        if not (may_retry c e)
        then (err (gave_up e), [], w)
        else if last
        then rest w
        else after_wait b rest (wait b w)

    after_call : Config → Bool → ℤ → (CallError → World → Run) → Result CallError A × World → Run
    after_call c last b rest (ok a, w) = note (called none) (ok a, [], w)
    after_call c last b rest (err e, w) =
        note (called (some e)) (after_failure c last b (rest e) e w)

    attempt : Config → Bool → ℤ → (CallError → World → Run) → Option CallError → World → Run
    attempt c last b rest (some e) w = (err (cancelled e), [], w)
    attempt c last b rest none w = after_call c last b rest (call w)

    exhausted : Option CallError → World → Run
    exhausted last w = (err (max_retries_exceeded last), [], w)

    -- The loop, by the number of attempts that remain.
    attempts : Config → ℕ → ℤ → Option CallError → World → Run
    attempts c zero b last w = exhausted last w
    attempts c (suc n) b last w =
        attempt c (is_last n) b (λ e. attempts c n (next_backoff c b) (some e)) (context_error w) w

    abbrev pub count : ℤ → ℕ
    count (pos n) = n
    count (negsuc n) = 0

    pub run_attempts : Config → World → Run
    run_attempts c = attempts c (count c.max_attempts) c.initial_backoff none

    pub with_retry : Config → World → Run
    with_retry c = run_attempts (with_defaults c)
