-- ===== src/Throttling/Redis/Answers.antt =====
-- What `increment` answers, with Redis and without.
use trust_post.Common.{
  ℕ, String, ◌≤◌, ◌≡◌, ◌⊎◌, refl, sym, ◌∙◌, subst, true, false, if◌then◌else◌, inl, inr, arith,
  Bool-cases, nat_eq,
}
use trust_post.Common.Int.{ℤ}
use trust_post.Errors.{ok-injective, service_unavailable, Result, ok, err}
use trust_post.Actions.{pure, >>=-eq-ok, reply-cases}
use trust_post.Throttling.{
  LocalState, ThrottlerRecord, compact_in_memory_state, build_keys, increment_compacted,
  increment_in_memory,
}
use trust_post.Throttling.Redis.{
  RedisClient, World, includes, payment_throttlers, is_redis_ready, judge_hits, count_in_redis,
  report_blocked, increment_in_redis, increment, redis_unavailable_fallback, ensure_ttl,
  is_positive,
}

-- A call that is let through is within the limit, and has no block to wait for.
abbrev pub IsFair : ℕ → ThrottlerRecord → Type 0
IsFair limit r =
    (r.is_blocked ≡ true)
    ⊎ ((r.is_blocked ≡ false) × (r.total_hits ≤ limit) × (r.time_to_block_expire ≡ 0))

increment_compacted-IsFair :
    (hit_key block_key : String) (ttl limit block_duration now : ℕ) (s : LocalState)
    → IsFair limit (increment_compacted hit_key block_key ttl limit block_duration now s).0
unfolding increment_compacted
increment_compacted-IsFair hit_key block_key ttl limit block_duration now s = ground arith

module _ {R : Type 0} (redis : RedisClient R) where
  judge_hits-IsFair :
      (block_key : String) (ttl limit block_duration hits : ℕ) (hit_ttl : ℤ) (r : R)
      (answer : ThrottlerRecord) (r' : R)
      → judge_hits redis block_key ttl limit block_duration hits hit_ttl r ≡ (ok answer, r')
      → IsFair limit answer
  unfolding judge_hits
  judge_hits-IsFair block_key ttl limit block_duration hits hit_ttl r answer r' e = ground arith

  count_in_redis-IsFair :
      (hit_key block_key : String) (ttl limit block_duration : ℕ) (r : R) (answer : ThrottlerRecord)
      (r' : R)
      → count_in_redis redis hit_key block_key ttl limit block_duration r ≡ (ok answer, r')
      → IsFair limit answer
  unfolding count_in_redis
  count_in_redis-IsFair hit_key block_key ttl limit block_duration r answer r' e =
      let (hits, r₁, _, e₁) = >>=-eq-ok (redis.incr hit_key) _ r e in
      let (_, r₂, _, e₂) =
        >>=-eq-ok (if nat_eq hits 1 then redis.pexpire hit_key ttl else pure tt) _ r₁ e₁ in
      let (first_ttl, r₃, _, e₃) = >>=-eq-ok (redis.pttl hit_key) _ r₂ e₂ in
      let (hit_ttl, r₄, _, e₄) = >>=-eq-ok (ensure_ttl redis hit_key ttl first_ttl) _ r₃ e₃ in
      judge_hits-IsFair block_key ttl limit block_duration hits hit_ttl r₄ answer r' e₄

  report_blocked-IsFair :
      (hit_key : String) (limit : ℕ) (block_ttl : ℤ) (r : R) (answer : ThrottlerRecord) (r' : R)
      → report_blocked redis hit_key limit block_ttl r ≡ (ok answer, r')
      → IsFair limit answer
  unfolding report_blocked
  report_blocked-IsFair hit_key limit block_ttl r answer r' e =
      let (stored, r₁, _, e₁) = >>=-eq-ok (redis.get hit_key) _ r e in
      let (hit_ttl, r₂, _, e₂) = >>=-eq-ok (redis.pttl hit_key) _ r₁ e₁ in ground arith

  increment_in_redis-IsFair :
      (hit_key block_key : String) (ttl limit block_duration : ℕ) (r : R) (answer : ThrottlerRecord)
      (r' : R)
      → increment_in_redis redis hit_key block_key ttl limit block_duration r ≡ (ok answer, r')
      → IsFair limit answer
  unfolding increment_in_redis
  increment_in_redis-IsFair hit_key block_key ttl limit block_duration r answer r' e =
      let (block_ttl, r₁, _, e₁) = >>=-eq-ok (redis.pttl block_key) _ r e in
      elim (Bool-cases (is_positive block_ttl)) [
        | inl blocked ↦
            report_blocked-IsFair hit_key limit block_ttl r₁ answer r' (rw blocked at e₁)
        | inr free ↦
            count_in_redis-IsFair hit_key block_key ttl limit block_duration r₁ answer r'
              (rw free at e₁)
      ]

  -- The throw of a payment route without Redis.
  abbrev pub unavailable : Result ThrottlerRecord
  unavailable =
      err (service_unavailable "Payment service is temporarily unavailable. Please retry shortly.")

  module _ (most : ℕ) (key : String) (ttl limit block_duration : ℕ) (throttler_name : String)
      (compacted_at now : ℕ) (w : World R) where
    -- The answer and the state after a call.
    abbrev after : Result ThrottlerRecord × World R
    after = increment redis most key ttl limit block_duration throttler_name compacted_at now w

    -- The call on Redis that the connected client makes.
    abbrev in_redis : Result ThrottlerRecord × R
    in_redis =
        increment_in_redis redis (build_keys key throttler_name).0 (build_keys key throttler_name).1
          ttl limit block_duration (is_redis_ready redis w.remote).1

    -- `redisUnavailableFallback`, with the memory as it was before the call.
    abbrev fall : R → Result ThrottlerRecord × World R
    fall r =
        redis_unavailable_fallback redis most (build_keys key throttler_name).0
          (build_keys key throttler_name).1 ttl limit block_duration throttler_name compacted_at now
          (record { remote = r; memory = w.memory })

    fall_payment :
        (r : R)
        → includes payment_throttlers throttler_name ≡ true
        → fall r ≡ (unavailable, record { remote = r; memory = w.memory })
    unfolding redis_unavailable_fallback
    fall_payment r h = rw h

    fall_other :
        (r : R)
        → includes payment_throttlers throttler_name ≡ false
        → (answer : ThrottlerRecord) × (memory : LocalState) × (fall r
            ≡ (ok answer, record { remote = r; memory = memory }))
    unfolding redis_unavailable_fallback
    fall_other r h = rw h (_, _, refl)

    fall-IsFair : (r : R) (answer : ThrottlerRecord) → (fall r).0 ≡ ok answer → IsFair limit answer
    unfolding redis_unavailable_fallback increment_in_memory
    fall-IsFair r answer e = elim (Bool-cases (includes payment_throttlers throttler_name)) [
      | inl payment ↦ cc
      | inr free ↦ subst (IsFair limit) (ok-injective (sym (fall_free free) ∙ e)) (
          increment_compacted-IsFair _ _ ttl limit block_duration now
            (compact_in_memory_state most compacted_at w.memory))
    ]
      where
        fall_free :
            includes payment_throttlers throttler_name ≡ false
            → (fall r).0
              ≡ ok
                  (increment_in_memory most
                    (build_keys key throttler_name).0
                    (build_keys key throttler_name).1
                    ttl
                    limit
                    block_duration
                    compacted_at
                    now
                    w.memory).0
        fall_free free = rw free

    -- How a call ends: as Redis answers, or with the fallback.
    increment-cases :
        ((answer : ThrottlerRecord) × (r : R) × (in_redis ≡ (ok answer, r))
          × (after ≡ (ok answer, record { remote = r; memory = w.memory })))
        ⊎ ((r : R) × (after ≡ fall r))
    unfolding increment
    increment-cases = elim (Bool-cases (is_redis_ready redis w.remote).0) [
      | inl up ↦ elim (reply-cases in_redis) [
        | inl (answer, r, e) ↦ inl (answer, r, e, rw (up, e))
        | inr (f, r, e) ↦ inr (r, rw (up, e))
      ]
      | inr down ↦
          let r = (is_redis_ready redis w.remote).1 in
          elim (Bool-cases (includes payment_throttlers throttler_name)) [
            | inl payment ↦ inr (r, rw (down, fall_payment r payment) (rw (fall_payment r payment)))
            | inr free ↦ let (answer, memory, e) = fall_other r free in inr (r, rw (down, e))
          ]
    ]

    -- Whatever Redis does, a call for a payment route leaves the memory of the process as it is, and answers as the
    -- counter in Redis does or throws 503.
    pub increment_payment :
        includes payment_throttlers throttler_name ≡ true
        → (after.1.memory ≡ w.memory)
          × ((after.0 ≡ unavailable)
              ⊎ ((r : R) × (answer : ThrottlerRecord) × (in_redis ≡ (ok answer, r))
                  × (after.0 ≡ ok answer)))
    increment_payment h = elim increment-cases [
      | inl (answer, r, e, ends) ↦ rw ends (refl, inr (r, answer, e, refl))
      | inr (r, ends) ↦ rw (ends, fall_payment r h) (refl, inl refl)
    ]

    -- Whatever Redis does, a call for any other route is answered.
    pub increment_answers :
        includes payment_throttlers throttler_name ≡ false
        → (answer : ThrottlerRecord) × (after.0 ≡ ok answer)
    increment_answers h = elim increment-cases [
      | inl (answer, r, e, ends) ↦ (answer, rw ends)
      | inr (r, ends) ↦ let (answer, memory, e) = fall_other r h in (answer, rw (ends, e))
    ]

    -- An answer that lets the call through counts at most `limit` hits.
    pub increment-IsFair : (answer : ThrottlerRecord) → after.0 ≡ ok answer → IsFair limit answer
    increment-IsFair answer e = elim increment-cases [
      | inl (answer', r, by_redis, ends) ↦
          increment_in_redis-IsFair _ _ ttl limit block_duration _ answer r
            (rw (ok-injective (rw ends at e)) at by_redis)
      | inr (r, ends) ↦ fall-IsFair r answer (rw ends at e)
    ]
