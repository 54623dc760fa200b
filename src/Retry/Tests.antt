-- ===== src/Retry/Tests.antt =====
-- The theorem of the retries at a call that never ends well.
use trust_post.Common.{ℕ, ◌≤◌, ◌≡◌, Bool, false, some, length}
use trust_post.Retry.{CallError, Outcome, default_options, execute_with_retry}
use trust_post.Retry.Waits.{geometric, IsFinal, execute_with_retry-scheduled}

abbrev unavailable_service : ℕ → Bool × Outcome CallError ℕ × ℕ
unavailable_service s = (
  false,
  Outcome.failed (record {
    message = "Service unavailable";
    name = "Error";
    status = some 503;
    is_request_timeout = false;
  }),
  s,
)

execute_with_retry-scheduled_example :
    (length (execute_with_retry default_options unavailable_service 0).delays ≤ 3)
    × ((execute_with_retry default_options unavailable_service 0).delays
        ≡ geometric 2 1000
            (length (execute_with_retry default_options unavailable_service 0).delays))
    × IsFinal default_options 3
        (length (execute_with_retry default_options unavailable_service 0).delays)
        (execute_with_retry default_options unavailable_service 0).outcome
execute_with_retry-scheduled_example =
    execute_with_retry-scheduled default_options unavailable_service 0
