-- ===== src/Throttling/Tests.antt =====
-- The theorems of the counter in memory at concrete inputs.
use trust_post.Common.{
  ℕ, String, ◌+◌, ◌≤◌, ◌≡◌, refl, List, [], ◌∷◌, some, not, leb, length, max, arith,
}
use trust_post.Common.JsMap
use trust_post.Common.Text.{apart}
use trust_post.Common.JsMap.{JsMap, keep}
use trust_post.Throttling.{
  LocalHitState, LocalState, build_keys, compact_in_memory_state, increment_in_memory,
}
use trust_post.Throttling.Compaction.{IsSound, compact_bounded, compact-get}
use trust_post.Throttling.Trace.{Call, AllFit, passes, passes-le-limit}

abbrev own_key : String
own_key = "throttle:default:hits:10.0.0.1"

abbrev own_window : LocalHitState
own_window = record { hits = 2; window_ends_at_ms = 60000 }

abbrev memory : LocalState
memory = record {
  local_hits =
      ("throttle:default:hits:10.0.0.2", record { hits = 1; window_ends_at_ms = 900 })
      ∷ (own_key, own_window)
      ∷ [];
  local_blocks = ("throttle:default:block:10.0.0.3", 40000) ∷ [];
}

memory-IsSound : IsSound memory
memory-IsSound = record {
  hits_keyed = ((apart refl, tt), (tt, tt));
  hits_named = (apart refl, (apart refl, tt));
  blocks_keyed = (tt, tt);
  blocks_named = (apart refl, tt);
}

abbrev at_limit : ℕ → Call
at_limit now = record {
  key = "10.0.0.1";
  throttler_name = "default";
  ttl = 60000;
  limit = 2;
  block_duration = 5000;
  compacted_at = now;
  now = now;
}

compact_bounded_example :
    (length (compact_in_memory_state 1 1000 memory).local_hits ≤ 1)
    × (length (compact_in_memory_state 1 1000 memory).local_blocks ≤ 1)
compact_bounded_example = compact_bounded 1 1000 memory memory-IsSound

compact-get_example :
    (JsMap.get own_key (compact_in_memory_state 9 1000 memory).local_hits
      ≡ keep
          (λ (h : LocalHitState). not (leb h.window_ends_at_ms 1000))
          (JsMap.get own_key memory.local_hits))
    × (JsMap.get "throttle:default:block:10.0.0.3"
          (compact_in_memory_state 9 1000 memory).local_blocks
        ≡ keep
            (λ until. not (leb until 1000))
            (JsMap.get "throttle:default:block:10.0.0.3" memory.local_blocks))
compact-get_example =
    compact-get 9 1000 memory memory-IsSound own_key "throttle:default:block:10.0.0.3" (omega arith)
      (omega arith)

own_window_open : JsMap.get own_key memory.local_hits ≡ some own_window
unfolding JsMap.get
own_window_open = refl

abbrev two_calls : List Call
two_calls = at_limit 2000 ∷ at_limit 3000 ∷ []

-- Two entries are the most that the maps hold here.
two_calls-AllFit : AllFit 2 two_calls memory
unfolding increment_in_memory build_keys JsMap.get JsMap.set JsMap.purge JsMap.delete
two_calls-AllFit = ((omega arith, omega arith), ((omega arith, omega arith), tt))

passes-le-limit_example : 2 + passes 2 own_key two_calls memory ≤ max 2 2
passes-le-limit_example =
    passes-le-limit 2 own_key 2 60000 2 two_calls memory memory-IsSound two_calls-AllFit
      own_window_open
      ((omega arith, omega arith, λ e. refl), ((omega arith, omega arith, λ e. refl), tt))
