-- ===== src/Retry.antt =====
-- common/utils/retry.util.ts under src: a call that is tried again after an error, with a growing wait.
-- The function that is called is an argument: from a state it gives its outcome, whether the timer of
-- `executeWithTimeout` had fired by then, and the next state. The waits are collected in a list.
pub mod Waits
mod Tests
use text.Mathlib.Text.{◌==◌}
use trust_post.Common.{
  ℕ, zero, suc, ◌-◌, ◌*◌, ◌^◌, String, Bool, true, false, not, ◌&&◌, ◌||◌, Option, none, some, List,
  [], ◌∷◌, any, nat_eq, if◌then◌else◌,
}
use trust_post.Common.Text.{codes, to_lower_case, ◌<>◌, show_nat}
use trust_post.Guards.{starts_with}

-- What the code reads of an error: its `status` if that is a number, and whether it is a `RequestTimeoutError`.
pub record CallError : Type 0 where
  pub message : String
  pub name : String
  pub status : Option ℕ
  pub is_request_timeout : Bool

pub record RetryError : Type 0 where
  pub message : String
  pub original_error : CallError
  pub is_timeout : Bool

pub data Outcome (E A : Type 0) : Type 0 where
  done : A → Outcome E A
  failed : E → Outcome E A

pub record RetryOptions : Type 0 where
  pub max_retries : ℕ
  pub timeout_ms : ℕ
  pub exponential_backoff : Bool
  pub retry_timeouts : Bool
  pub retryable_statuses : List ℕ
  pub retryable_messages : List String

abbrev pub default_options : RetryOptions
default_options = record {
  max_retries = 3;
  timeout_ms = 30000;
  exponential_backoff = true;
  retry_timeouts = false;
  retryable_statuses = 408 ∷ 429 ∷ 500 ∷ 502 ∷ 503 ∷ 504 ∷ [];
  retryable_messages = "timeout" ∷ "aborted" ∷ "econnrefused" ∷ "enotfound" ∷ [];
}

-- `text.includes(part)`
contains : List ℕ → List ℕ → Bool
unfolding starts_with
contains part [] = starts_with part []
contains part (c ∷ text) = starts_with part (c ∷ text) || contains part text

-- `message.toLowerCase().includes(part)`
abbrev mentions : CallError → String → Bool
mentions e part = contains (codes part) (to_lower_case (codes e.message))

pub is_timeout_error : CallError → Bool
unfolding contains
is_timeout_error e =
    e.is_request_timeout || mentions e "timeout" || mentions e "aborted" || e.name == "AbortError"

-- `typeof status === 'number' && retryableStatuses.includes(status)`
abbrev has_status : List ℕ → Option ℕ → Bool
has_status statuses none = false
has_status statuses (some status) = any (nat_eq status) statuses

pub is_retryable_error : CallError → RetryOptions → Bool
unfolding contains
is_retryable_error e config =
    has_status config.retryable_statuses e.status || any (mentions e) config.retryable_messages

-- The test under which the loop goes on, beside the number of the attempt.
pub can_retry : RetryOptions → CallError → Bool
unfolding is_timeout_error is_retryable_error
can_retry config e =
    (not (is_timeout_error e) || config.retry_timeouts) && is_retryable_error e config

-- `err.message || 'Request failed after retries'`
pub retry_error_of : CallError → RetryError
unfolding is_timeout_error
retry_error_of e = record {
  message = if e.message == "" then "Request failed after retries" else e.message;
  original_error = e;
  is_timeout = is_timeout_error e;
}

pub delay_of : RetryOptions → ℕ → ℕ
delay_of config attempt = if config.exponential_backoff then 1000 * 2 ^ attempt else 1000

-- An error that comes after the timer has fired is replaced.
pub execute_with_timeout : {A : Type 0} → ℕ → Bool → Outcome CallError A → Outcome CallError A
execute_with_timeout timeout_ms timed_out (done a) = done a
execute_with_timeout timeout_ms true (failed e) = failed (record {
  message = "Request timeout after " <> show_nat timeout_ms <> "ms";
  name = "Error";
  status = none;
  is_request_timeout = true;
})
execute_with_timeout timeout_ms false (failed e) = failed e

-- The outcome, the waits in milliseconds, and the state at the end.
pub record Retried (S A : Type 0) : Type 0 where
  pub outcome : Outcome RetryError A
  pub delays : List ℕ
  pub state : S

module _ {S A : Type 0} (config : RetryOptions) (fn : S → Bool × Outcome CallError A × S) where
  -- The outcome of one attempt, the last one or one that a retry may follow.
  abbrev last_attempt : Outcome CallError A → S → Retried S A
  last_attempt (done a) t = record { outcome = done a; delays = []; state = t }
  last_attempt (failed e) t = record { outcome = failed (retry_error_of e); delays = []; state = t }

  -- `rest` is the loop after the wait.
  abbrev next_attempt : ℕ → Outcome CallError A → S → Retried S A → Retried S A
  next_attempt attempt (done a) t rest = record { outcome = done a; delays = []; state = t }
  next_attempt attempt (failed e) t rest =
      if can_retry config e
      then record rest { delays = delay_of config attempt ∷ rest.delays }
      else record { outcome = failed (retry_error_of e); delays = []; state = t }

  -- The loop from an attempt on, with the number of retries that are left.
  pub retry_loop : ℕ → ℕ → S → Retried S A
  unfolding execute_with_timeout can_retry retry_error_of delay_of
  retry_loop zero attempt s =
      let (timed_out, result, t) = fn s in
      last_attempt (execute_with_timeout config.timeout_ms timed_out result) t
  retry_loop (suc left) attempt s =
      let (timed_out, result, t) = fn s in
      let rest = retry_loop left (suc attempt) t in
      next_attempt attempt (execute_with_timeout config.timeout_ms timed_out result) t rest

  pub execute_with_retry : S → Retried S A
  unfolding retry_loop
  execute_with_retry s = retry_loop config.max_retries 0 s
