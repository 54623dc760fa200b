-- ===== src/Throttling/Redis/Tests.antt =====
-- The theorems of `increment` with a Redis that answers and with one that does not.
use trust_post.Common.{ℕ, ◌+◌, ◌≡◌, ◌⊎◌, refl, false, [], none}
use trust_post.Common.Int.{negsuc}
use trust_post.Errors.{external, ok, err}
use trust_post.Throttling.{ThrottlerRecord, build_keys}
use trust_post.Throttling.Redis.{
  RedisClient, Status, World, increment, increment_in_redis, is_redis_ready,
}
use trust_post.Throttling.Redis.Answers.{
  IsFair, unavailable, increment_payment, increment_answers, increment-IsFair,
}

-- A server of one counter, on which no key has a time to live.
abbrev counter : RedisClient ℕ
counter = record {
  status = λ r. Status.ready;
  connect = λ r. (ok tt, r);
  pttl = λ key r. (ok (negsuc 1), r);
  get = λ key r. (ok none, r);
  incr = λ key r. (ok (r + 1), r + 1);
  pexpire = λ key ms r. (ok tt, r);
  set_px = λ key ms r. (ok tt, r);
}

-- A server that cannot be reached.
abbrev unreachable : RedisClient ℕ
unreachable = record {
  status = λ r. Status.other;
  connect = λ r. (err (external "ECONNREFUSED"), r);
  pttl = λ key r. (err (external "ECONNREFUSED"), r);
  get = λ key r. (err (external "ECONNREFUSED"), r);
  incr = λ key r. (err (external "ECONNREFUSED"), r);
  pexpire = λ key ms r. (err (external "ECONNREFUSED"), r);
  set_px = λ key ms r. (err (external "ECONNREFUSED"), r);
}

abbrev world : World ℕ
world = record { remote = 0; memory = record { local_hits = []; local_blocks = [] } }

increment_payment_example :
    ((increment unreachable 100 "10.0.0.1" 60000 5 0 "paymentsWebhook" 1000 1000 world).1.memory
      ≡ world.memory)
    × (((increment unreachable 100 "10.0.0.1" 60000 5 0 "paymentsWebhook" 1000 1000 world).0
          ≡ unavailable unreachable)
        ⊎ ((r : ℕ) × (answer : ThrottlerRecord) × (increment_in_redis unreachable
                (build_keys "10.0.0.1" "paymentsWebhook").0
                (build_keys "10.0.0.1" "paymentsWebhook").1
                60000
                5
                0
                (is_redis_ready unreachable world.remote).1
              ≡ (ok answer, r))
            × ((increment unreachable 100 "10.0.0.1" 60000 5 0 "paymentsWebhook" 1000 1000 world).0
                ≡ ok answer)))
increment_payment_example =
    increment_payment unreachable 100 "10.0.0.1" 60000 5 0 "paymentsWebhook" 1000 1000 world refl

increment_answers_example :
    (answer : ThrottlerRecord) × ((increment unreachable 100 "10.0.0.1" 60000 5 0 "default" 1000
        1000 world).0
      ≡ ok answer)
increment_answers_example =
    increment_answers unreachable 100 "10.0.0.1" 60000 5 0 "default" 1000 1000 world refl

abbrev first_answer : ThrottlerRecord
first_answer = record {
  total_hits = 1;
  time_to_expire = 60;
  is_blocked = false;
  time_to_block_expire = 0;
}

answered_first :
    (increment counter 100 "10.0.0.1" 60000 5 0 "default" 1000 1000 world).0 ≡ ok first_answer
unfolding increment increment_in_redis is_redis_ready
answered_first = refl

increment-IsFair_example : IsFair 5 first_answer
increment-IsFair_example =
    increment-IsFair counter 100 "10.0.0.1" 60000 5 0 "default" 1000 1000 world first_answer
      answered_first
