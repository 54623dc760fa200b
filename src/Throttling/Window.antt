-- ===== src/Throttling/Window.antt =====
-- A key's window while calls for it and for other keys come in.
use text.Mathlib.TextPositions.{eq_refl}
use trust_post.Common.{
  ℕ, String, ◌+◌, ◌≤◌, ◌<◌, ◌≡◌, ◌≢◌, some, ltb, if◌then◌else◌, length, Bool-cases, inl, inr, arith,
  eq_iff, get_or,
}
use trust_post.Common.JsMap
use trust_post.Common.JsMap.{JsMap, IsKeyed, get-set, set-IsKeyed, set-IsFresh, length-set}
use trust_post.Throttling.{
  LocalHitState, LocalState, ThrottlerRecord, next_window, count_hit, increment_compacted,
}
use trust_post.Throttling.Compaction.{IsSound}

-- 1 for a call that is let through.
abbrev pub passed : ThrottlerRecord → ℕ
passed r = if r.is_blocked then 0 else 1

module _ (hit_key block_key : String) (ttl limit block_duration now : ℕ) (s : LocalState) where
  -- A call for the key of an open window counts the hit, or leaves the window as it is.
  count_hit_own :
      (h : LocalHitState)
      → JsMap.get hit_key s.local_hits ≡ some h
      → now < h.window_ends_at_ms
      → (JsMap.get hit_key (count_hit hit_key block_key ttl limit block_duration now s).1.local_hits
          ≡ some (record { hits = h.hits + 1; window_ends_at_ms = h.window_ends_at_ms }))
        × (passed (count_hit hit_key block_key ttl limit block_duration now s).0 ≡ 1
            → h.hits + 1 ≤ limit)
  unfolding count_hit
  count_hit_own h e is_open =
      let counted : LocalHitState = record {
        hits = h.hits + 1;
        window_ends_at_ms = h.window_ends_at_ms;
      } in
      ground (arith, get-set hit_key hit_key counted s.local_hits, eq_refl hit_key)

  pub increment_own :
      (h : LocalHitState)
      → JsMap.get hit_key s.local_hits ≡ some h
      → now < h.window_ends_at_ms
      → (n : ℕ) × (JsMap.get hit_key
            (increment_compacted hit_key block_key ttl limit block_duration now s).1.local_hits
          ≡ some (record { hits = n; window_ends_at_ms = h.window_ends_at_ms }))
        × (h.hits + passed (increment_compacted hit_key block_key ttl limit block_duration now s).0
            ≤ n)
        × (passed (increment_compacted hit_key block_key ttl limit block_duration now s).0 ≡ 1
            → n ≤ limit)
  unfolding increment_compacted
  increment_own h e is_open =
      elim (Bool-cases (ltb now (get_or (JsMap.get block_key s.local_blocks) 0))) [
        | inl blocked ↦ rw blocked (h.hits, e, omega arith, λ x. cc)
        | inr free ↦
            let counted = count_hit_own h e is_open in
            rw free (h.hits + 1, counted.0, ground arith, counted.1)
      ]

  count_hit-hits :
      (count_hit hit_key block_key ttl limit block_duration now s).1.local_hits
      ≡ JsMap.set hit_key (next_window ttl now (JsMap.get hit_key s.local_hits)) s.local_hits
  unfolding count_hit
  count_hit-hits =
      elim (Bool-cases (ltb limit (next_window ttl now (JsMap.get hit_key s.local_hits)).hits)) [
        | inl over ↦ rw over
        | inr within ↦ rw within
      ]

  -- A call leaves the hits of every other key as they are.
  pub increment_other :
      (k : String)
      → hit_key ≢ k
      → JsMap.get k
          (increment_compacted hit_key block_key ttl limit block_duration now s).1.local_hits
        ≡ JsMap.get k s.local_hits
  unfolding increment_compacted
  increment_other k n =
      elim (Bool-cases (ltb now (get_or (JsMap.get block_key s.local_blocks) 0))) [
        | inl blocked ↦ rw blocked
        | inr free ↦ rw free (rw count_hit-hits (rw get-set (ground (arith, eq_iff hit_key k))))
      ]

  -- The window that a hit leaves.
  abbrev next : LocalHitState
  next = next_window ttl now (JsMap.get hit_key s.local_hits)

  count_hit-IsSound :
      hit_key ≢ ""
      → block_key ≢ ""
      → IsSound s
      → IsSound (count_hit hit_key block_key ttl limit block_duration now s).1
  unfolding count_hit
  count_hit-IsSound h b sound =
      let keyed = set-IsKeyed hit_key next s.local_hits sound.hits_keyed in
      let named = set-IsFresh hit_key "" next s.local_hits h sound.hits_named in
      elim (Bool-cases (ltb limit next.hits)) [
        | inl over ↦ rw over (record {
          hits_keyed = keyed;
          hits_named = named;
          blocks_keyed = set-IsKeyed _ _ _ sound.blocks_keyed;
          blocks_named = set-IsFresh _ _ _ _ b sound.blocks_named;
        })
        | inr within ↦ rw within (record {
          hits_keyed = keyed;
          hits_named = named;
          blocks_keyed = sound.blocks_keyed;
          blocks_named = sound.blocks_named;
        })
      ]

  pub increment-IsSound :
      hit_key ≢ ""
      → block_key ≢ ""
      → IsSound s
      → IsSound (increment_compacted hit_key block_key ttl limit block_duration now s).1
  unfolding increment_compacted
  increment-IsSound h b sound =
      elim (Bool-cases (ltb now (get_or (JsMap.get block_key s.local_blocks) 0))) [
        | inl blocked ↦ rw blocked sound
        | inr free ↦ rw free (count_hit-IsSound h b sound)
      ]

  count_hit-length :
      (length (count_hit hit_key block_key ttl limit block_duration now s).1.local_hits
        ≤ length s.local_hits + 1)
      × (length (count_hit hit_key block_key ttl limit block_duration now s).1.local_blocks
          ≤ length s.local_blocks + 1)
  unfolding count_hit
  count_hit-length =
      let one_more = length-set hit_key next s.local_hits in
      elim (Bool-cases (ltb limit next.hits)) [
        | inl over ↦ rw over (one_more, length-set _ _ _)
        | inr within ↦ rw within (one_more, omega arith)
      ]

  -- A call adds at most one entry to each map.
  pub increment-length :
      (length (increment_compacted hit_key block_key ttl limit block_duration now s).1.local_hits
        ≤ length s.local_hits + 1)
      × (length
            (increment_compacted hit_key block_key ttl limit block_duration now s).1.local_blocks
          ≤ length s.local_blocks + 1)
  unfolding increment_compacted
  increment-length = elim (Bool-cases (ltb now (get_or (JsMap.get block_key s.local_blocks) 0))) [
    | inl blocked ↦ rw blocked (omega arith)
    | inr free ↦ rw free count_hit-length
  ]
