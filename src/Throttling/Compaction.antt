-- ===== src/Throttling/Compaction.antt =====
-- What `compactInMemoryState` keeps: the entries that have not run out, and of these the newest.
use text.Mathlib.Text.{◌==◌}
use trust_post.Common.{
  ℕ, zero, suc, String, ◌-◌, ◌≤◌, ◌≡◌, ◌≢◌, false, not, [], ◌∷◌, ltb, leb, length, drop,
  length-drop, length-filter-le, filter, All, All-filter, All-drop, Bool-cases, inl, inr, arith,
  eq_iff,
}
use native.Mathlib.Nat.{sub-eq-zero_of_le, zero-sub}
use trust_post.Common.JsMap
use trust_post.Common.JsMap.{
  JsMap, IsKeyed, keep, purge_lem, delete-head, get-filter, filter-IsKeyed, drop-IsKeyed,
}
use trust_post.Throttling.{LocalHitState, LocalState, trim, compact_in_memory_state}

module _ {V : Type 0} where
  -- No key is the empty string. (The keys that `buildKeys` makes begin with "throttle:".)
  abbrev pub IsNamed : JsMap V → Type 0
  IsNamed m = All (λ e. e.0 ≢ "") m

  drop-all : (m : JsMap V) (k : ℕ) → length m ≤ k → drop (length m - k) m ≡ m
  drop-all m k h = rw (sub-eq-zero_of_le h)

  trim-eq-drop_fuel :
      (fuel most : ℕ) (m : JsMap V)
      → length m ≤ fuel
      → IsNamed m
      → trim fuel most m ≡ drop (length m - most) m
  unfolding trim
  trim-eq-drop_fuel zero most [] h n = rw (zero-sub most)
  trim-eq-drop_fuel zero most (e ∷ m) h n = elim h [ ]
  trim-eq-drop_fuel (suc fuel) most [] h n = rw (zero-sub most)
  trim-eq-drop_fuel (suc fuel) most ((k, v) ∷ m) h (p, n) =
      let named : k == "" ≡ false = ground (arith, eq_iff k "") in
      elim (Bool-cases (ltb most (length ((k, v) ∷ m)))) [
        | inl over ↦
            let count : suc (length m) - most ≡ suc (length m - most) = ground arith in
            rw (over, named, delete-head k v m, count)
              (trim-eq-drop_fuel fuel most m (omega arith) n)
        | inr within ↦
            let none_over : suc (length m) - most ≡ 0 = ground arith in rw (within, none_over)
      ]

  trim-eq-drop :
      (most : ℕ) (m : JsMap V) → IsNamed m → trim (length m) most m ≡ drop (length m - most) m
  trim-eq-drop most m n = trim-eq-drop_fuel (length m) most m (omega arith) n

module _ (now : ℕ) (s : LocalState) where
  abbrev pub live_hits : JsMap LocalHitState
  live_hits =
      filter (λ (e : String × LocalHitState). not (leb e.1.window_ends_at_ms now)) s.local_hits

  abbrev pub live_blocks : JsMap ℕ
  live_blocks = filter (λ (e : String × ℕ). not (leb e.1 now)) s.local_blocks

-- The keys of the process's two maps.
pub record IsSound (s : LocalState) : Type 0 where
  pub hits_keyed : IsKeyed s.local_hits
  pub hits_named : IsNamed s.local_hits
  pub blocks_keyed : IsKeyed s.local_blocks
  pub blocks_named : IsNamed s.local_blocks

module _ (fallback_max_keys now : ℕ) (s : LocalState) (sound : IsSound s) where
  compacted_hits :
      (compact_in_memory_state fallback_max_keys now s).local_hits
      ≡ drop (length (live_hits now s) - fallback_max_keys) (live_hits now s)
  unfolding compact_in_memory_state
  compacted_hits =
      rw
        (purge_lem (λ (h : LocalHitState). leb h.window_ends_at_ms now) s.local_hits
          sound.hits_keyed)
        (trim-eq-drop fallback_max_keys (live_hits now s)
          (All-filter _ _ s.local_hits sound.hits_named))

  compacted_blocks :
      (compact_in_memory_state fallback_max_keys now s).local_blocks
      ≡ drop (length (live_blocks now s) - fallback_max_keys) (live_blocks now s)
  unfolding compact_in_memory_state
  compacted_blocks = rw (purge_lem (λ until. leb until now) s.local_blocks sound.blocks_keyed) (
      trim-eq-drop fallback_max_keys (live_blocks now s)
        (All-filter _ _ s.local_blocks sound.blocks_named))

  -- The sizes of the two maps are at most `fallbackMaxKeys` after a compaction.
  pub compact_bounded :
      (length (compact_in_memory_state fallback_max_keys now s).local_hits ≤ fallback_max_keys)
      × (length (compact_in_memory_state fallback_max_keys now s).local_blocks ≤ fallback_max_keys)
  compact_bounded = (
    rw compacted_hits (rw length-drop (omega arith)),
    rw compacted_blocks (rw length-drop (omega arith)),
  )

  pub compact-length :
      (length (compact_in_memory_state fallback_max_keys now s).local_hits ≤ length s.local_hits)
      × (length (compact_in_memory_state fallback_max_keys now s).local_blocks
          ≤ length s.local_blocks)
  compact-length = (
    rw compacted_hits (
        rw length-drop (
          omega (
            arith,
            length-filter-le (λ (e : String × LocalHitState). not (leb e.1.window_ends_at_ms now))
                s.local_hits,
          ))),
    rw compacted_blocks (
        rw length-drop
          (omega (arith, length-filter-le (λ (e : String × ℕ). not (leb e.1 now)) s.local_blocks))),
  )

  pub compact-IsSound : IsSound (compact_in_memory_state fallback_max_keys now s)
  compact-IsSound = record {
    hits_keyed = rw compacted_hits (drop-IsKeyed _ _ (filter-IsKeyed _ _ sound.hits_keyed));
    hits_named = rw compacted_hits (All-drop _ _ _ (All-filter _ _ _ sound.hits_named));
    blocks_keyed = rw compacted_blocks (drop-IsKeyed _ _ (filter-IsKeyed _ _ sound.blocks_keyed));
    blocks_named = rw compacted_blocks (All-drop _ _ _ (All-filter _ _ _ sound.blocks_named));
  }

  -- While the live entries fit, the compaction loses no live entry: a key has the entry that it
  -- had, if that has not run out.
  pub compact-get :
      (hit_key block_key : String)
      → length (live_hits now s) ≤ fallback_max_keys
      → length (live_blocks now s) ≤ fallback_max_keys
      → (JsMap.get hit_key (compact_in_memory_state fallback_max_keys now s).local_hits
          ≡ keep
              (λ (h : LocalHitState). not (leb h.window_ends_at_ms now))
              (JsMap.get hit_key s.local_hits))
        × (JsMap.get block_key (compact_in_memory_state fallback_max_keys now s).local_blocks
            ≡ keep (λ until. not (leb until now)) (JsMap.get block_key s.local_blocks))
  compact-get hit_key block_key h b = (
    rw (compacted_hits, drop-all (live_hits now s) _ h)
        (get-filter _ hit_key s.local_hits sound.hits_keyed),
    rw (compacted_blocks, drop-all (live_blocks now s) _ b)
        (get-filter _ block_key s.local_blocks sound.blocks_keyed),
  )
