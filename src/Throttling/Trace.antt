-- ===== src/Throttling/Trace.antt =====
-- Sequences of calls of `incrementInMemory`: how many calls for one key are let through while the
-- window of that key is open.
use text.Mathlib.TextLemmas.{append-eq-nil_iff}
use text.Mathlib.Text.{◌==◌}
use text.Mathlib.TextEquality.{eq_iff}
use trust_post.Common.{
  ℕ, String, ◌+◌, ◌≤◌, ◌<◌, ◌≡◌, ◌≢◌, false, some, List, [], ◌∷◌, if◌then◌else◌, length, All,
  Bool-cases, inl, inr, ◌⊎◌, ◌∙◌, arith, max,
}
use trust_post.Common.JsMap
use trust_post.Common.JsMap.{JsMap, IsKeyed, get-set, set-IsKeyed, set-IsFresh, length-set}
use trust_post.Throttling.{
  LocalHitState, LocalState, ThrottlerRecord, build_keys, compact_in_memory_state,
  increment_in_memory,
}
use trust_post.Throttling.Compaction.{IsSound, live_hits, live_blocks, compact-IsSound, compact-get}
use trust_post.Throttling.Window.{passed, increment_own, increment_other, increment-IsSound}

-- A call of `incrementInMemory`, with the two readings of the clock.
pub record Call : Type 0 where
  pub key : String
  pub throttler_name : String
  pub ttl : ℕ
  pub limit : ℕ
  pub block_duration : ℕ
  pub compacted_at : ℕ
  pub now : ℕ

abbrev pub hit_key : Call → String
hit_key c = (build_keys c.key c.throttler_name).0

abbrev pub serve : ℕ → Call → LocalState → ThrottlerRecord × LocalState
serve most c s =
    let (hit_key, block_key) = build_keys c.key c.throttler_name in
    increment_in_memory most hit_key block_key c.ttl c.limit c.block_duration c.compacted_at c.now s

-- The number of calls for the key `k` that a sequence of calls lets through.
pub passes : ℕ → String → List Call → LocalState → ℕ
passes most k [] s = 0
passes most k (c ∷ cs) s =
    let (r, s') = serve most c s in (if hit_key c == k then passed r else 0) + passes most k cs s'

-- The entries that have not run out fit the maps at a call's compaction, so that it evicts none of them.
abbrev pub Fits : ℕ → Call → LocalState → Type 0
Fits most c s =
    (length (live_hits c.compacted_at s) ≤ most) × (length (live_blocks c.compacted_at s) ≤ most)

-- No call of a sequence evicts an entry that has not run out. (Entries that have, and the number
-- of the calls, do not matter.)
abbrev pub AllFit : ℕ → List Call → LocalState → Type 0
AllFit most [] s = Unit
AllFit most (c ∷ cs) s = Fits most c s × AllFit most cs (serve most c s).1

literal : ◌≢◌ {A = String} "throttle:" ""
literal e = cc

build_keys_named :
    (key name : String) → ((build_keys key name).0 ≢ "") × ((build_keys key name).1 ≢ "")
unfolding build_keys
build_keys_named key name = (
  λ e. literal ((append-eq-nil_iff {p = "throttle:"}).0 e).0,
  λ e. literal ((append-eq-nil_iff {p = "throttle:"}).0 e).0,
)

pub serve-IsSound : (most : ℕ) (c : Call) (s : LocalState) → IsSound s → IsSound (serve most c s).1
unfolding increment_in_memory
serve-IsSound most c s sound =
    let (hit_key, block_key) = build_keys c.key c.throttler_name in
    let named = build_keys_named c.key c.throttler_name in
    increment-IsSound hit_key block_key c.ttl c.limit c.block_duration c.now
      (compact_in_memory_state most c.compacted_at s) named.0 named.1
      (compact-IsSound most c.compacted_at s sound)

module _ (most : ℕ) (c : Call) (s : LocalState) (sound : IsSound s) (fits : Fits most c s) where
  -- The compaction keeps a window that is still open.
  compacted_open :
      (k : String) (h : LocalHitState)
      → JsMap.get k s.local_hits ≡ some h
      → c.compacted_at < h.window_ends_at_ms
      → JsMap.get k (compact_in_memory_state most c.compacted_at s).local_hits ≡ some h
  compacted_open k h e is_open =
      rw ((compact-get most c.compacted_at s sound k k fits.0 fits.1).0, e) (ground arith)

  serve_own :
      (h : LocalHitState)
      → JsMap.get (hit_key c) s.local_hits ≡ some h
      → c.compacted_at < h.window_ends_at_ms
      → c.now < h.window_ends_at_ms
      → (n : ℕ) × (JsMap.get (hit_key c) (serve most c s).1.local_hits
          ≡ some (record { hits = n; window_ends_at_ms = h.window_ends_at_ms }))
        × (h.hits + passed (serve most c s).0 ≤ n)
        × (passed (serve most c s).0 ≡ 1 → n ≤ c.limit)
  unfolding increment_in_memory
  serve_own h e was_open is_open =
      increment_own _ _ c.ttl c.limit c.block_duration c.now
        (compact_in_memory_state most c.compacted_at s) h (compacted_open (hit_key c) h e was_open)
        is_open

  serve_same :
      (k : String) (h : LocalHitState)
      → hit_key c ≡ k
      → JsMap.get k s.local_hits ≡ some h
      → c.compacted_at < h.window_ends_at_ms
      → c.now < h.window_ends_at_ms
      → (n : ℕ) × (JsMap.get k (serve most c s).1.local_hits
          ≡ some (record { hits = n; window_ends_at_ms = h.window_ends_at_ms }))
        × (h.hits + passed (serve most c s).0 ≤ n)
        × (passed (serve most c s).0 ≡ 1 → n ≤ c.limit)
  serve_same k h same e was_open is_open = rw (← same) (serve_own h (rw same e) was_open is_open)

  serve_other :
      (k : String) (h : LocalHitState)
      → hit_key c ≢ k
      → JsMap.get k s.local_hits ≡ some h
      → c.compacted_at < h.window_ends_at_ms
      → JsMap.get k (serve most c s).1.local_hits ≡ some h
  unfolding increment_in_memory
  serve_other k h n e was_open =
      increment_other _ _ c.ttl c.limit c.block_duration c.now
        (compact_in_memory_state most c.compacted_at s) k n
      ∙ compacted_open k h e was_open

-- A call that comes before `ends`, and that has the limit `limit` if it is for the key `k`.
abbrev pub IsWithin : (k : String) (limit ends : ℕ) → Call → Type 0
IsWithin k limit ends c =
    (c.compacted_at < ends) × (c.now < ends) × (hit_key c ≡ k → c.limit ≡ limit)

passed_cases : (r : ThrottlerRecord) → (passed r ≡ 0) ⊎ (passed r ≡ 1)
passed_cases r = ground arith

tally :
    (n n' limit now_passed later : ℕ)
    → (now_passed ≡ 0) ⊎ (now_passed ≡ 1)
    → n + now_passed ≤ n'
    → (now_passed ≡ 1 → n' ≤ limit)
    → n' + later ≤ max n' limit
    → n + (now_passed + later) ≤ max n limit
tally n n' limit now_passed later c counted capped h = grind arith

-- From maps whose keys are distinct and named, and a key whose open window has counted `n` hits: if at each call of a
-- sequence the live entries of either map are at most `fallbackMaxKeys` (so nothing live is evicted),
-- every call comes before the window ends, and every call for the key has one limit, then `n` and the calls for the key that
-- are let through, whatever calls for other keys come between, are together at most the greater of `n` and the limit.
pub passes-le-limit :
    (most : ℕ) (k : String) (limit ends n : ℕ) (cs : List Call) (s : LocalState)
    → IsSound s
    → AllFit most cs s
    → JsMap.get k s.local_hits ≡ some (record { hits = n; window_ends_at_ms = ends })
    → All (IsWithin k limit ends) cs
    → n + passes most k cs s ≤ max n limit
unfolding passes
passes-le-limit most k limit ends n [] s sound fits e w = omega arith
passes-le-limit most k limit ends n (c ∷ cs) s sound (fit, fits) e (w, ws) =
    let window : LocalHitState = record { hits = n; window_ends_at_ms = ends } in
    let sound' = serve-IsSound most c s sound in
    let s' = (serve most c s).1 in
    elim (Bool-cases (hit_key c == k)) [
      | inl own ↦
          let same = (eq_iff (hit_key c) k).0 own in
          let (n', kept, counted, capped) = serve_same most c s sound fit k window same e w.0 w.1 in
          let later = passes-le-limit most k limit ends n' cs s' sound' fits kept ws in
          rw own (
            tally n n' limit (passed (serve most c s).0) (passes most k cs s')
              (passed_cases (serve most c s).0) counted (λ x. omega (arith, w.2 same, capped x))
              later)
      | inr other ↦
          let kept = serve_other most c s sound fit k window (apart other) e w.0 in
          rw other (omega (arith, passes-le-limit most k limit ends n cs s' sound' fits kept ws))
    ]
  where
    apart : hit_key c == k ≡ false → hit_key c ≢ k
    apart other same = ground (arith, eq_iff (hit_key c) k)
