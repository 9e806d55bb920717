-- ===== src/Retry/Schedule.antt =====
-- What WithRetry may do, whatever the world answers: the order of calls and waits.
use nasty_csi.Common.{
  false, ℕ, zero, suc, ◌≤◌, ◌≡◌, refl, ap, true, Option, none, some, List, [], ◌∷◌, arith,
  Bool-cases, inl, inr,
}
use nasty_csi.Common.Int.{ℤ, pos, negsuc}
use nasty_csi.Common.Result.{Result, ok, err}
use nasty_csi.Retry.{
  accepts, Floats, CallError, Failure, gave_up, max_retries_exceeded, Event, called, waited, Config,
  Setting, next_backoff, may_retry, with_retry, with_defaults, run_attempts, attempts, is_last,
  attempt, after_call, after_failure, after_wait, exhausted, positive_or, count,
}

-- How many calls a log has.
pub calls : List Event → ℕ
calls [] = 0
calls (called e ∷ log) = suc (calls log)
calls (waited d ∷ log) = calls log

-- A log that the policy `c` allows, with `n` attempts to go and `b` the next wait: a call is
-- followed by another one only after an error that may be retried and a wait of `b`.
pub data Follows (F : Floats) (c : Config F) : ℕ → ℤ → List Event → Type 0 where
  stopped : (n : ℕ) (b : ℤ) → Follows F c n b []
  ended : (n : ℕ) (b : ℤ) (o : Option CallError) → Follows F c (suc n) b (called o ∷ [])
  retried :
      (n : ℕ) (b : ℤ) (e : CallError) (log : List Event)
      → e.is_uncertain_outcome ≡ false
      → accepts F c.retryable_func e ≡ true
      → Follows F c (suc n) (next_backoff F c b) log
      → Follows F c (suc (suc n)) b (called (some e) ∷ waited b ∷ log)

may_retry_sound :
    (F : Floats) (c : Config F) (e : CallError)
    → may_retry F c e ≡ true
    → (e.is_uncertain_outcome ≡ false) × (accepts F c.retryable_func e ≡ true)
unfolding may_retry
may_retry_sound F c e h = grind arith

Follows-calls :
    (F : Floats) (c : Config F) (n : ℕ) (b : ℤ) (log : List Event)
    → Follows F c n b log
    → calls log ≤ n
unfolding calls
Follows-calls F c n b [] (stopped _ _) = omega arith
Follows-calls F c (suc n) b _ (ended _ _ o) = omega arith
Follows-calls F c (suc (suc n)) b _ (retried _ _ e log sure accepted rest) =
    let ih : calls log ≤ suc n = Follows-calls F c (suc n) (next_backoff F c b) log rest in
    omega arith

one_attempt :
    (F : Floats) {A : Type 0} (E : Setting F A) (d : ℤ) → 1 ≤ count F E (positive_or F d (pos 3))
one_attempt F E (pos zero) = omega arith
one_attempt F E (pos (suc n)) = grind arith
one_attempt F E (negsuc n) = omega arith

module _ (F : Floats) {A : Type 0} (E : Setting F A) where
  open E use {World, context_error, wait, call}

  abbrev pub Run : Type 0
  Run = Result Failure A × List Event × World

  -- A run that follows the policy, and that reports exhaustion only after all its attempts.
  pub Good : Config F → ℕ → ℤ → Run → Type 0
  Good c n b (r, log, w) =
      Follows F c n b log
      × ((l : Option CallError) → r ≡ err (max_retries_exceeded l) → calls log ≡ n)

  abbrev noted : Event → Run → Run
  noted e (r, log, w) = (r, e ∷ log, w)

  after_wait-Good :
      (c : Config F) (n : ℕ) (b : ℤ) (e : CallError)
      → (rest : World → Run) (answer : Option CallError × World) → may_retry F c e ≡ true
      → ((w : World) → Good c (suc n) (next_backoff F c b) (rest w))
      → Good c (suc (suc n)) b (noted (called (some e)) (after_wait F E b rest answer))
  unfolding Good after_wait calls
  after_wait-Good c n b e rest (some x, w) h good = (ended _ _ _, λ l eq. cc)
  after_wait-Good c n b e rest (none, w) h good =
      let (f, complete) = good w in
      (
        retried _ _ _ _ (may_retry_sound F c e h).0 (may_retry_sound F c e h).1 f,
        λ l eq. ap suc (complete l eq),
      )

  after_last-Good :
      (c : Config F) (b : ℤ) (e : CallError) (w : World)
      → Good c 1 b (noted (called (some e)) (exhausted F E (some e) w))
  unfolding Good exhausted calls
  after_last-Good c b e w = (ended _ _ _, λ l eq. refl)

  refused-Good :
      (c : Config F) (n : ℕ) (b : ℤ) (e : CallError) (w : World)
      → Good c (suc n) b (err (gave_up e), called (some e) ∷ [], w)
  unfolding Good calls
  refused-Good c n b e w = (ended _ _ _, λ l eq. cc)

  after_failure-Good :
      (c : Config F) (n : ℕ) (b : ℤ) (e : CallError) (w : World)
      → ((w' : World)
          → Good c n (next_backoff F c b) (attempts F E c n (next_backoff F c b) (some e) w'))
      → Good c (suc n) b (
          noted (called (some e)) (
            after_failure F E c (is_last n) b (attempts F E c n (next_backoff F c b) (some e)) e w))
  unfolding after_failure attempts
  after_failure-Good c zero b e w good = elim (Bool-cases (may_retry F c e)) [
    | inl h ↦ rw h (after_last-Good c b e w)
    | inr h ↦ rw h (refused-Good c 0 b e w)
  ]
  after_failure-Good c (suc n) b e w good = elim (Bool-cases (may_retry F c e)) [
    | inl h ↦ rw h (after_wait-Good c n b e _ (wait b w) h good)
    | inr h ↦ rw h (refused-Good c (suc n) b e w)
  ]

  after_call-Good :
      (c : Config F) (n : ℕ) (b : ℤ) (answer : Result CallError A × World)
      → ((last : Option CallError) (w : World)
          → Good c n (next_backoff F c b) (attempts F E c n (next_backoff F c b) last w))
      → Good c (suc n) b (
          after_call F E c
            (is_last n)
            b
            (λ e. attempts F E c n (next_backoff F c b) (some e))
            answer)
  unfolding after_call
  after_call-Good c n b (ok a, w) good = unfold Good calls in (ended _ _ _, λ l eq. cc)
  after_call-Good c n b (err e, w) good = after_failure-Good c n b e w (good (some e))

  attempt-Good :
      (c : Config F) (n : ℕ) (b : ℤ) (w : World) (e : Option CallError)
      → ((last : Option CallError) (w : World)
          → Good c n (next_backoff F c b) (attempts F E c n (next_backoff F c b) last w))
      → Good c
          (suc n)
          b
          (attempt F E c (is_last n) b (λ e. attempts F E c n (next_backoff F c b) (some e)) e w)
  unfolding attempt
  attempt-Good c n b w (some e) good = unfold Good in (stopped _ _, λ l eq. cc)
  attempt-Good c n b w none good = after_call-Good c n b (call w) good

  attempts-Good :
      (c : Config F) (n : ℕ) (b : ℤ) (last : Option CallError) (w : World)
      → Good c n b (attempts F E c n b last w)
  unfolding attempts
  attempts-Good c zero b last w = unfold Good exhausted calls in (stopped _ _, λ l eq. refl)
  attempts-Good c (suc n) b last w =
      attempt-Good c n b w (context_error w) (attempts-Good c n (next_backoff F c b))

  -- The log of any run is one that the policy allows: if it is not empty, it starts with a call; a
  -- further call comes only after an error which is not an uncertain outcome and which the
  -- predicate of the policy accepts, and after a wait of exactly the backoff that is due. The run
  -- reports that the attempts are exhausted only if it made all of them.
  pub with_retry-Good :
      (c : Config F) (w : World)
      → Good
          (with_defaults F c)
          (count F E (with_defaults F c).max_attempts)
          (with_defaults F c).initial_backoff
          (with_retry F E c w)
  unfolding with_retry run_attempts
  with_retry-Good c w = attempts-Good (with_defaults F c) _ _ none w

  -- No run makes more calls than the policy's attempts, of which there is at least one.
  pub with_retry-calls :
      (c : Config F) (w : World)
      → let (r, log, w') = with_retry F E c w in
        (calls log ≤ count F E (with_defaults F c).max_attempts)
        × (1 ≤ count F E (with_defaults F c).max_attempts)
  unfolding Good with_defaults
  with_retry-calls c w =
      let good : Good (with_defaults F c) (count F E (with_defaults F c).max_attempts)
          (with_defaults F c).initial_backoff (with_retry F E c w) =
        with_retry-Good c w in
      (Follows-calls F _ _ _ _ (good.0), one_attempt F E c.max_attempts)
