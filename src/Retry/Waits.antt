-- ===== src/Retry/Waits.antt =====
-- How often a call is tried, and how long the waits are.
use trust_post.Common.{
  ℕ, zero, suc, ◌*◌, ◌≤◌, ◌≡◌, refl, ap, Bool, false, List, [], ◌∷◌, length, Bool-cases, ◌⊎◌, inl,
  inr, arith, if◌then◌else◌,
}
use trust_post.Retry.{
  CallError, Outcome, RetryOptions, RetryError, Retried, can_retry, retry_error_of, delay_of,
  execute_with_timeout, next_attempt, last_attempt, retry_loop, execute_with_retry,
}

-- `n` waits, each `ratio` times the one before it.
pub geometric : (ratio wait n : ℕ) → List ℕ
geometric ratio wait zero = []
geometric ratio wait (suc n) = wait ∷ geometric ratio (ratio * wait) n

abbrev pub ratio_of : RetryOptions → ℕ
ratio_of config = if config.exponential_backoff then 2 else 1

delay_of-zero : (config : RetryOptions) → delay_of config 0 ≡ 1000
unfolding delay_of
delay_of-zero config = elim (Bool-cases config.exponential_backoff) [
  | inl grows ↦ rw grows
  | inr fixed ↦ rw fixed
]

delay_of-suc :
    (config : RetryOptions) (attempt : ℕ)
    → delay_of config (suc attempt) ≡ ratio_of config * delay_of config attempt
unfolding delay_of
delay_of-suc config attempt = elim (Bool-cases config.exponential_backoff) [
  | inl grows ↦ rw grows (omega arith)
  | inr fixed ↦ rw fixed
]

-- A call that failed had no retry left, or its last error is none that is tried again.
pub IsFinal : {A : Type 0} → RetryOptions → ℕ → ℕ → Outcome RetryError A → Type 0
IsFinal config left waits (Outcome.done a) = Unit
IsFinal config left waits (Outcome.failed e) =
    (waits ≡ left) ⊎ (can_retry config e.original_error ≡ false)

module _ {S A : Type 0} (config : RetryOptions) (fn : S → Bool × Outcome CallError A × S) where
  -- At most so many waits, which grow from the one of the attempt, and a failure for a reason.
  abbrev IsScheduled : ℕ → ℕ → Retried S A → Type 0
  IsScheduled left attempt r =
      (length r.delays ≤ left)
      × (r.delays ≡ geometric (ratio_of config) (delay_of config attempt) (length r.delays))
      × IsFinal config left (length r.delays) r.outcome

  last-IsScheduled :
      (attempt : ℕ) (x : Outcome CallError A) (t : S)
      → IsScheduled 0 attempt (last_attempt config fn x t)
  unfolding geometric IsFinal
  last-IsScheduled attempt (Outcome.done a) t = (omega arith, refl, tt)
  last-IsScheduled attempt (Outcome.failed e) t = (omega arith, refl, inl refl)

  one_more :
      (left waits : ℕ) (x : Outcome RetryError A)
      → IsFinal config left waits x
      → IsFinal config (suc left) (suc waits) x
  unfolding IsFinal
  one_more left waits (Outcome.done a) h = tt
  one_more left waits (Outcome.failed e) (inl all) = inl (ap suc all)
  one_more left waits (Outcome.failed e) (inr over) = inr over

  next-IsScheduled :
      (left attempt : ℕ) (x : Outcome CallError A) (t : S) (rest : Retried S A)
      → IsScheduled left (suc attempt) rest
      → IsScheduled (suc left) attempt (next_attempt config fn attempt x t rest)
  unfolding geometric IsFinal retry_error_of
  next-IsScheduled left attempt (Outcome.done a) t rest h = (omega arith, refl, tt)
  next-IsScheduled left attempt (Outcome.failed e) t rest (few, same, final) =
      elim (Bool-cases (can_retry config e)) [
        | inl again ↦ rw again (
          omega (arith, few),
          ap (λ l. delay_of config attempt ∷ l) (rw (delay_of-suc config attempt) at same),
          one_more left (length rest.delays) rest.outcome final,
        )
        | inr over ↦ rw over (omega arith, refl, inr over)
      ]

  retry_loop-IsScheduled :
      (left attempt : ℕ) (s : S) → IsScheduled left attempt (retry_loop config fn left attempt s)
  unfolding retry_loop
  retry_loop-IsScheduled zero attempt s =
      last-IsScheduled attempt (execute_with_timeout config.timeout_ms (fn s).0 (fn s).1) (fn s).2
  retry_loop-IsScheduled (suc left) attempt s =
      next-IsScheduled left attempt (execute_with_timeout config.timeout_ms (fn s).0 (fn s).1)
        (fn s).2 (retry_loop config fn left (suc attempt) (fn s).2)
        (retry_loop-IsScheduled left (suc attempt) (fn s).2)

  -- Whatever the calls answer, `executeWithRetry` waits at most `maxRetries` times (so it calls at most once more). Its
  -- first wait is 1000 ms, and each further one is twice the one before if the backoff is exponential, and the same otherwise.
  -- If it fails, then it has waited `maxRetries` times, or its last error is one that is not tried again.
  pub execute_with_retry-scheduled :
      (s : S)
      → (length (execute_with_retry config fn s).delays ≤ config.max_retries)
        × ((execute_with_retry config fn s).delays
            ≡ geometric
                (if config.exponential_backoff then 2 else 1)
                1000
                (length (execute_with_retry config fn s).delays))
        × IsFinal config config.max_retries
            (length (execute_with_retry config fn s).delays)
            (execute_with_retry config fn s).outcome
  unfolding execute_with_retry
  execute_with_retry-scheduled s =
      let (few, same, final) = retry_loop-IsScheduled config.max_retries 0 s in
      (few, rw (delay_of-zero config) at same, final)
