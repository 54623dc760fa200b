-- ===== src/Throttling.antt =====
-- infrastructure/http/throttling/redis-throttler.storage.ts under src: the limiter's record of
-- hits, in Redis or, while Redis is down, in two `Map`s of the process.
-- Times are milliseconds. `Date.now()` is an argument, once for each call that the code makes.
-- A difference of times that the source would have negative is 0 here; `toSeconds`, which is all
-- that reads it, answers 0 for both. Log lines are left out.
pub mod Compaction
pub mod Window
pub mod Trace
pub mod Blocks
pub mod Redis
mod Tests
use Prim.Native.String
use text.Mathlib.Text.{◌==◌}
use trust_post.Common.{
  ℕ, zero, suc, String, ◌+◌, ◌-◌, ◌/◌, Bool, true, false, Option, none, some, [], ◌∷◌, ltb, leb,
  nat_eq, if◌then◌else◌, length, get_or,
}
use trust_post.Common.JsMap
use trust_post.Common.JsMap.{JsMap}

pub record LocalHitState : Type 0 where
  pub hits : ℕ
  pub window_ends_at_ms : ℕ

pub record ThrottlerRecord : Type 0 where
  pub total_hits : ℕ
  pub time_to_expire : ℕ
  pub is_blocked : Bool
  pub time_to_block_expire : ℕ

-- `localHits` and `localBlocks`.
pub record LocalState : Type 0 where
  pub local_hits : JsMap LocalHitState
  pub local_blocks : JsMap ℕ

-- `buildKeys`: the key of the hits and the key of the block.
pub build_keys : String → String → String × String
build_keys key throttler_name = (
  String.◌++◌ "throttle:" (String.◌++◌ throttler_name (String.◌++◌ ":hits:" key)),
  String.◌++◌ "throttle:" (String.◌++◌ throttler_name (String.◌++◌ ":block:" key)),
)

pub resolve_block_duration : ℕ → ℕ → ℕ
resolve_block_duration block_duration ttl =
    if ltb 0 block_duration then block_duration else if ltb 0 ttl then ttl else 1000

-- `Math.ceil(ms / 1000)`.
pub to_seconds : ℕ → ℕ
to_seconds ms = if nat_eq ms 0 then 0 else (ms + 999) / 1000

-- `while (map.size > max)`: each round deletes the first key. A key that is the empty string is
-- falsy, and ends the loop. The fuel is the map's size, since a round deletes one entry.
trim : {V : Type 0} → ℕ → ℕ → JsMap V → JsMap V
trim zero most m = m
trim (suc fuel) most [] = []
trim (suc fuel) most ((oldest, v) ∷ m) =
    let rest = trim fuel most (JsMap.delete oldest ((oldest, v) ∷ m)) in
    if ltb most (length ((oldest, v) ∷ m))
    then if oldest == "" then (oldest, v) ∷ m else rest
    else (oldest, v) ∷ m

pub compact_in_memory_state : ℕ → ℕ → LocalState → LocalState
unfolding trim
compact_in_memory_state fallback_max_keys now s =
    let blocks = JsMap.purge (λ until. leb until now) s.local_blocks s.local_blocks in
    let hits =
      JsMap.purge (λ (h : LocalHitState). leb h.window_ends_at_ms now) s.local_hits s.local_hits in
    record {
      local_hits = trim (length hits) fallback_max_keys hits;
      local_blocks = trim (length blocks) fallback_max_keys blocks;
    }

-- The window after a hit: `existing` with one hit more while it is open, else a new one.
next_window : ℕ → ℕ → Option LocalHitState → LocalHitState
next_window ttl now existing =
    let window_ms : ℕ = if ltb 0 ttl then ttl else 1000 in
    let fresh : LocalHitState = record { hits = 1; window_ends_at_ms = now + window_ms } in
    elim existing [
      | none ↦ fresh
      | some h ↦
          if ltb now h.window_ends_at_ms
          then record { hits = h.hits + 1; window_ends_at_ms = h.window_ends_at_ms }
          else fresh
    ]

-- The rest of `incrementInMemory`, once the key is known not to be blocked.
count_hit : String → String → ℕ → ℕ → ℕ → ℕ → LocalState → ThrottlerRecord × LocalState
unfolding next_window resolve_block_duration to_seconds
count_hit hit_key block_key ttl limit block_duration now s =
    let next = next_window ttl now (JsMap.get hit_key s.local_hits) in
    let counted = record s { local_hits = JsMap.set hit_key next s.local_hits } in
    let block_ms = resolve_block_duration block_duration ttl in
    if ltb limit next.hits
    then (
      record {
        total_hits = next.hits;
        time_to_expire = to_seconds (next.window_ends_at_ms - now);
        is_blocked = true;
        time_to_block_expire = to_seconds block_ms;
      },
      record counted { local_blocks = JsMap.set block_key (now + block_ms) s.local_blocks },
    )
    else (
      record {
        total_hits = next.hits;
        time_to_expire = to_seconds (next.window_ends_at_ms - now);
        is_blocked = false;
        time_to_block_expire = 0;
      },
      counted,
    )

-- The answer for a key that is blocked until `blocked_until_ms`.
blocked_record : ℕ → ℕ → ℕ → Option LocalHitState → ThrottlerRecord
unfolding to_seconds
blocked_record limit blocked_until_ms now state = record {
  total_hits = elim state [ none ↦ limit + 1 | some h ↦ h.hits ];
  time_to_expire =
      to_seconds (elim state [ none ↦ blocked_until_ms | some h ↦ h.window_ends_at_ms ] - now);
  is_blocked = true;
  time_to_block_expire = to_seconds (blocked_until_ms - now);
}

-- `incrementInMemory` at the state that `compactInMemoryState` left.
pub increment_compacted :
    String → String → ℕ → ℕ → ℕ → ℕ → LocalState → ThrottlerRecord × LocalState
unfolding count_hit blocked_record
increment_compacted hit_key block_key ttl limit block_duration now s =
    let blocked_until_ms = get_or (JsMap.get block_key s.local_blocks) 0 in
    if ltb now blocked_until_ms
    then (blocked_record limit blocked_until_ms now (JsMap.get hit_key s.local_hits), s)
    else count_hit hit_key block_key ttl limit block_duration now s

-- `compacted_at` and `now` are the two readings of the clock.
pub increment_in_memory :
    ℕ
    → String
    → String
    → ℕ
    → ℕ
    → ℕ
    → (compacted_at now : ℕ) → LocalState
    → ThrottlerRecord × LocalState
unfolding increment_compacted compact_in_memory_state
increment_in_memory fallback_max_keys hit_key block_key ttl limit block_duration compacted_at now
      s =
    increment_compacted hit_key block_key ttl limit block_duration now
      (compact_in_memory_state fallback_max_keys compacted_at s)
