-- ===== src/Throttling/Redis.antt =====
-- `increment` of infrastructure/http/throttling/redis-throttler.storage.ts: the counter in Redis,
-- and what happens while Redis is down. The Redis server, reached by the ioredis package, is a
-- parameter: a state `R` and the calls on it, each of which may fail. Log lines are left out.
pub mod Answers
mod Tests
use Prim.Native.Char.{code}
use Prim.Native.String
use text.Mathlib.Text.{◌==◌}
use trust_post.Common.{
  ℕ, zero, suc, String, ◌+◌, ◌-◌, ◌*◌, ◌≤◌, ◌<◌, ◌≡◌, ◌≢◌, refl, Bool, true, false, ◌&&◌, ◌||◌,
  Option, none, some, List, [], ◌∷◌, ltb, leb, nat_eq, if◌then◌else◌, get_or, inl, inr, arith,
  Bool-cases,
}
use trust_post.Common.Int.{ℤ, pos, negsuc, pos_part}
use trust_post.Errors.{Failure, service_unavailable, Result, ok, err}
use trust_post.Actions.{Action, pure, throw, ◌>>=◌, ◌>>◌, proceed, handled, catch}
use trust_post.Throttling.{
  LocalState, ThrottlerRecord, build_keys, resolve_block_duration, to_seconds, increment_in_memory,
}

-- `client.status`, as far as the code tells the values apart.
pub data Status : Type 0 where
  ready connecting connect other : Status

-- The calls of the client. `pttl` answers a negative number for a key with no time to live.
pub record RedisClient (R : Type 0) : Type 0 where
  pub status : R → Status
  pub connect : Action R (Unit {0})
  pub pttl : String → Action R ℤ
  pub get : String → Action R (Option String)
  pub incr : String → Action R ℕ
  pub pexpire : String → ℕ → Action R (Unit {0})
  -- `set(key, '1', 'PX', ms)`
  pub set_px : String → ℕ → Action R (Unit {0})

abbrev is_digit : ℕ → Bool
is_digit c = leb b'0' c && leb c b'9'

-- The value of the leading digits, after those read so far.
digits_from : Option ℕ → String → Option ℕ
digits_from read String.[] = read
digits_from read (String.◌∷◌ c s) =
    let rest = digits_from (some (get_or read 0 * 10 + (code c - b'0'))) s in
    if is_digit (code c) then rest else read

-- `Number.parseInt(s, 10)` of a counter that INCR wrote: no sign and no space; `none` is NaN.
parse_int : String → Option ℕ
unfolding digits_from
parse_int s = digits_from none s

-- `n || d` of a number: 0 and NaN are falsy.
abbrev or_number : Option ℕ → ℕ → ℕ
or_number none d = d
or_number (some n) d = if nat_eq n 0 then d else n

pub build_blocked_response : ℕ → ℤ → ℤ → ThrottlerRecord
unfolding to_seconds
build_blocked_response hits hit_ttl_ms block_ttl_ms = record {
  total_hits = hits;
  time_to_expire = to_seconds (pos_part hit_ttl_ms);
  is_blocked = true;
  time_to_block_expire = to_seconds (pos_part block_ttl_ms);
}

abbrev pub payment_throttlers : List String
payment_throttlers = "paymentsAnonymous" ∷ "paymentsWebhook" ∷ []

abbrev pub includes : List String → String → Bool
includes [] x = false
includes (y ∷ ys) x = y == x || includes ys x

-- Redis and the memory of the process.
pub record World (R : Type 0) : Type 0 where
  pub remote : R
  pub memory : LocalState

-- `if (blockTtl > 0)`
abbrev is_positive : ℤ → Bool
is_positive (pos n) = ltb 0 n
is_positive (negsuc n) = false

-- Whether the connection attempt succeeded.
abbrev connected : {R : Type 0} → Result (Unit {0}) × R → Bool × R
connected (ok _, r) = (true, r)
connected (err _, r) = (false, r)

module _ {R : Type 0} (redis : RedisClient R) where
  pub is_redis_ready : R → Bool × R
  is_redis_ready r = elim (redis.status r) [
    | Status.ready ↦ (true, r)
    | Status.connecting ↦ (false, r)
    | Status.connect ↦ (false, r)
    | Status.other ↦ connected (redis.connect r)
  ]

  -- A key that Redis has blocked for `block_ttl`.
  report_blocked : String → ℕ → ℤ → Action R ThrottlerRecord
  unfolding build_blocked_response parse_int
  report_blocked hit_key limit block_ttl = do
    stored ← redis.get hit_key
    let hits = or_number (parse_int (get_or stored "0")) (limit + 1)
    hit_ttl ← redis.pttl hit_key
    pure (build_blocked_response hits hit_ttl block_ttl)

  -- `if (hitTtl < 0) { pexpire; hitTtl = ttl }`
  ensure_ttl : String → ℕ → ℤ → Action R ℤ
  ensure_ttl hit_key ttl (pos n) = pure (pos n)
  ensure_ttl hit_key ttl (negsuc n) = do redis.pexpire hit_key ttl; pure (pos ttl)

  -- The answer once the hit is counted.
  judge_hits : String → ℕ → ℕ → ℕ → ℕ → ℤ → Action R ThrottlerRecord
  unfolding build_blocked_response to_seconds resolve_block_duration
  judge_hits block_key ttl limit block_duration hits hit_ttl =
      if ltb limit hits
      then (do
        let block_ms = resolve_block_duration block_duration ttl
        redis.set_px block_key block_ms
        pure (build_blocked_response hits hit_ttl (pos block_ms)))
      else pure (record {
        total_hits = hits;
        time_to_expire = to_seconds (pos_part hit_ttl);
        is_blocked = false;
        time_to_block_expire = 0;
      })

  count_in_redis : String → String → ℕ → ℕ → ℕ → Action R ThrottlerRecord
  unfolding ensure_ttl judge_hits
  count_in_redis hit_key block_key ttl limit block_duration = do
    hits ← redis.incr hit_key
    if nat_eq hits 1 then redis.pexpire hit_key ttl else pure tt
    first_ttl ← redis.pttl hit_key
    hit_ttl ← ensure_ttl hit_key ttl first_ttl
    judge_hits block_key ttl limit block_duration hits hit_ttl

  pub increment_in_redis : String → String → ℕ → ℕ → ℕ → Action R ThrottlerRecord
  unfolding count_in_redis report_blocked
  increment_in_redis hit_key block_key ttl limit block_duration = do
    block_ttl ← redis.pttl block_key
    if is_positive block_ttl
        then report_blocked hit_key limit block_ttl
        else count_in_redis hit_key block_key ttl limit block_duration

  -- `redisUnavailableFallback`
  pub redis_unavailable_fallback :
      ℕ
      → String
      → String
      → ℕ
      → ℕ
      → ℕ
      → String
      → (compacted_at now : ℕ) → Action (World R) ThrottlerRecord
  redis_unavailable_fallback most hit_key block_key ttl limit block_duration throttler_name
        compacted_at now w =
      if includes payment_throttlers throttler_name
      then (
        err (
            service_unavailable
              "Payment service is temporarily unavailable. Please retry shortly."),
        w,
      )
      else let (response, memory) =
          increment_in_memory most hit_key block_key ttl limit block_duration compacted_at now
            w.memory in
        (ok response, record w { memory = memory })

  -- A call on Redis, as one on the whole world.
  abbrev on_redis : {A : Type 0} → Action R A → Action (World R) A
  on_redis m w = let (result, r) = m w.remote in (result, record w { remote = r })

  -- The `try` block of `increment`.
  increment_or_fall :
      ℕ
      → String
      → String
      → ℕ
      → ℕ
      → ℕ
      → String
      → (compacted_at now : ℕ) → Action (World R) ThrottlerRecord
  unfolding is_redis_ready
  increment_or_fall most hit_key block_key ttl limit block_duration throttler_name compacted_at now
        w =
      let (is_ready, r) = is_redis_ready w.remote in
      if is_ready
      then on_redis (increment_in_redis hit_key block_key ttl limit block_duration)
          (record w { remote = r })
      else redis_unavailable_fallback most hit_key block_key ttl limit block_duration throttler_name
          compacted_at now (record w { remote = r })

  pub increment :
      ℕ → String → ℕ → ℕ → ℕ → String → (compacted_at now : ℕ) → Action (World R) ThrottlerRecord
  unfolding increment_or_fall
  increment most key ttl limit block_duration throttler_name compacted_at now =
      let (hit_key, block_key) = build_keys key throttler_name in
      let fall =
        redis_unavailable_fallback most hit_key block_key ttl limit block_duration throttler_name
          compacted_at now in
      catch
        (increment_or_fall most hit_key block_key ttl limit block_duration throttler_name
          compacted_at now)
        (λ error. fall)
