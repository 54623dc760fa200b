-- ===== src/Throttling/Blocks.antt =====
-- The block of a key: a refused call leaves the key blocked, and the block holds until it runs out.
use text.Mathlib.TextPositions.{eq_refl}
use trust_post.Common.{
  ℕ, String, ◌+◌, ◌<◌, ◌≡◌, true, false, some, ltb, Bool-cases, inl, inr, arith, get_or,
  Option-cases,
}
use trust_post.Common.JsMap
use trust_post.Common.JsMap.{JsMap, get-set}
use trust_post.Throttling.{
  LocalState, build_keys, resolve_block_duration, compact_in_memory_state, next_window, count_hit,
  increment_compacted, increment_in_memory,
}
use trust_post.Throttling.Compaction.{IsSound, compact-get}
use trust_post.Throttling.Trace.{Call, Fits, serve}

abbrev pub block_key : Call → String
block_key c = (build_keys c.key c.throttler_name).1

resolve_block_duration_pos :
    (block_duration ttl : ℕ) → 0 < resolve_block_duration block_duration ttl
unfolding resolve_block_duration
resolve_block_duration_pos block_duration ttl = ground arith

module _ (hit_key block_key : String) (ttl limit block_duration now : ℕ) (s : LocalState) where
  count_hit_blocks :
      (count_hit hit_key block_key ttl limit block_duration now s).0.is_blocked ≡ true
      → (until : ℕ) × (JsMap.get block_key
            (count_hit hit_key block_key ttl limit block_duration now s).1.local_blocks
          ≡ some until)
        × (now < until)
  unfolding count_hit
  count_hit_blocks h =
      elim (Bool-cases (ltb limit (next_window ttl now (JsMap.get hit_key s.local_hits)).hits)) [
        | inl over ↦ rw over (
          now + resolve_block_duration block_duration ttl,
          rw get-set (rw (eq_refl block_key)),
          omega (arith, resolve_block_duration_pos block_duration ttl),
        )
        | inr within ↦ absurd (not_refused within h)
      ]
    where
      not_refused :
          ltb limit (next_window ttl now (JsMap.get hit_key s.local_hits)).hits ≡ false
          → (count_hit hit_key block_key ttl limit block_duration now s).0.is_blocked ≡ true
          → ⊥
      not_refused within h = cc (rw within at h)

  -- A refused call leaves a block that has not run out.
  increment_blocks :
      (increment_compacted hit_key block_key ttl limit block_duration now s).0.is_blocked ≡ true
      → (until : ℕ) × (JsMap.get block_key
            (increment_compacted hit_key block_key ttl limit block_duration now s).1.local_blocks
          ≡ some until)
        × (now < until)
  unfolding increment_compacted
  increment_blocks h = elim (Bool-cases (ltb now (get_or (JsMap.get block_key s.local_blocks) 0))) [
    | inl blocked ↦ rw blocked (still_blocked blocked)
    | inr free ↦ rw free (count_hit_blocks (rw free at h))
  ]
    where
      still_blocked :
          ltb now (get_or (JsMap.get block_key s.local_blocks) 0) ≡ true
          → (until : ℕ) × (JsMap.get block_key s.local_blocks ≡ some until) × (now < until)
      still_blocked b = elim (Option-cases (JsMap.get block_key s.local_blocks)) [
        | inl never ↦ absurd (ground arith)
        | inr (until, e) ↦ (until, e, ground arith)
      ]

  -- A call for a blocked key is refused, and changes nothing.
  increment_of_blocked :
      (until : ℕ)
      → JsMap.get block_key s.local_blocks ≡ some until
      → now < until
      → ((increment_compacted hit_key block_key ttl limit block_duration now s).0.is_blocked ≡ true)
        × ((increment_compacted hit_key block_key ttl limit block_duration now s).1 ≡ s)
  unfolding increment_compacted
  increment_of_blocked until e h = rw e (ground arith)

module _ (most : ℕ) (c : Call) (s : LocalState) where
  pub serve_blocks :
      (serve most c s).0.is_blocked ≡ true
      → (until : ℕ) × (JsMap.get (block_key c) (serve most c s).1.local_blocks ≡ some until)
        × (c.now < until)
  unfolding increment_in_memory
  serve_blocks h =
      increment_blocks _ _ c.ttl c.limit c.block_duration c.now
        (compact_in_memory_state most c.compacted_at s) h

  -- While the block of its key lasts, a call is refused, and the process's two maps are changed
  -- by the compaction alone.
  pub serve_of_blocked :
      IsSound s
      → Fits most c s
      → (until : ℕ) → JsMap.get (block_key c) s.local_blocks ≡ some until
      → c.compacted_at < until
      → c.now < until
      → ((serve most c s).0.is_blocked ≡ true)
        × ((serve most c s).1 ≡ compact_in_memory_state most c.compacted_at s)
  unfolding increment_in_memory
  serve_of_blocked sound fits until e was_blocked blocked =
      increment_of_blocked _ (block_key c) c.ttl c.limit c.block_duration c.now
        (compact_in_memory_state most c.compacted_at s) until
        (rw
          ((compact-get most c.compacted_at s sound (block_key c) (block_key c) fits.0 fits.1).1, e)
          (ground arith))
        blocked

-- `this.localBlocks.get(blockKey) ?? 0`.
abbrev pub blocked_until : Call → LocalState → ℕ
blocked_until c s = get_or (JsMap.get (block_key c) s.local_blocks) 0
