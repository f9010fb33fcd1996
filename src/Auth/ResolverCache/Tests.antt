-- ===== src/Auth/ResolverCache/Tests.antt =====
-- The cache on concrete inputs: what is found is a number, and every hash has one byte.
use grok_search_mcp.Base.{
  ℕ, ◌≡◌, ◌≤◌, refl, String, false, Option, none, some, List, [], ◌∷◌, arith,
}
use grok_search_mcp.Base.Int.{pos, positive_or}
use grok_search_mcp.Base.Keys.{string_key}
use grok_search_mcp.Base.Assoc.{lookup, insert, erase}
use grok_search_mcp.Base.Every.{Every}
use grok_search_mcp.RateLimit.Ip.{fnv_hash}
use grok_search_mcp.Auth.ResolverCache.{
  ApiKeyCacheConfig, normalize_api_key_cache_config, AuthCacheShard, new_cached_api_key_resolver,
  new_shards, load_cached_entry, store_in_shard, load_entry, store_entry, entry_of, shard_for,
  invalidate_all, clear_shards, clear_shard, push_entry, without, evict, remove, back,
}
use grok_search_mcp.Auth.ResolverCache.Recency.{occurs, Distinct}
use grok_search_mcp.Auth.ResolverCache.Shards.{is_there, Agrees, IsValid}
use grok_search_mcp.Auth.ResolverCache.Evictions.{load_cached_entry-store_in_shard}
use grok_search_mcp.Auth.ResolverCache.Freshness.{
  CacheCall, stores, loads, invalidates, cache_step, run_cache, ReadsFresh, load_entry-Fresh,
}
use grok_search_mcp.Auth.ResolverCache.Capacity.{entries_of, run_cache-IsBounded}

abbrev one_byte : String → List ℕ
one_byte hash = 7 ∷ []

abbrev small_config : ApiKeyCacheConfig
small_config = record {
  ttl = pos 100;
  negative_ttl = pos 10;
  cleanup_interval = pos 0;
  max_entries = pos 1;
  shard_count = pos 4;
  miss_max_concurrent = pos 0;
}

-- An answer is fresh in a generation if it names one that is not earlier.
abbrev NotEarlier : ℕ → Option ℕ → Type 0
NotEarlier generation none = Unit
NotEarlier generation (some read_in) = generation ≤ read_in

-- The second answer was read before the invalidation, and is not stored.
abbrev session : List (CacheCall ℕ)
session =
    stores "a" (some 0) 0 5
    ∷ loads "a" 6
    ∷ invalidates
    ∷ stores "b" (some 0) 0 7
    ∷ stores "c" (some 1) 1 8
    ∷ []

session-ReadsFresh : ReadsFresh one_byte NotEarlier session
unfolding ReadsFresh
session-ReadsFresh = (omega arith, (omega arith, (omega arith, tt)))

abbrev empty_shard : AuthCacheShard ℕ
empty_shard = record { by_hash = []; recency = []; max_entries = 1 }

empty_shard-Agrees : Agrees empty_shard
unfolding lookup occurs is_there Distinct
empty_shard-Agrees = record {
  unique = tt;
  distinct = tt;
  same_hashes = λ hash. refl;
  same_length = refl;
}

load_cached_entry-store_in_shard_example :
    (load_cached_entry
      (store_in_shard empty_shard "a" (record { found = some 3; until = 9 }))
      "a"
      8).0
    ≡ some (some 3)
load_cached_entry-store_in_shard_example =
    load_cached_entry-store_in_shard empty_shard "a" (record { found = some 3; until = 9 }) 8
      empty_shard-Agrees (omega arith) (omega arith)

run_cache-IsBounded_example :
    Every IsValid (run_cache one_byte (new_cached_api_key_resolver small_config) session).shards
    × (entries_of (run_cache one_byte (new_cached_api_key_resolver small_config) session).shards
        ≤ (normalize_api_key_cache_config small_config).max_entries)
run_cache-IsBounded_example = run_cache-IsBounded one_byte small_config session

session_open :
    (run_cache one_byte (new_cached_api_key_resolver small_config) session).closed ≡ false
unfolding run_cache cache_step store_entry load_entry new_cached_api_key_resolver
    normalize_api_key_cache_config positive_or new_shards shard_for fnv_hash invalidate_all
    clear_shards clear_shard
session_open = refl

c_found :
    (load_entry one_byte
      (run_cache one_byte (new_cached_api_key_resolver small_config) session)
      "c"
      9).0
    ≡ some (some 1)
unfolding run_cache cache_step store_entry load_entry new_cached_api_key_resolver
    normalize_api_key_cache_config positive_or new_shards shard_for fnv_hash invalidate_all
    clear_shards clear_shard store_in_shard push_entry without evict back remove lookup insert erase
    entry_of load_cached_entry
c_found = refl

load_entry-Fresh_example :
    NotEarlier
      (run_cache one_byte (new_cached_api_key_resolver small_config) session).generation
      (some 1)
load_entry-Fresh_example =
    load_entry-Fresh one_byte NotEarlier small_config session "c" 9 (some 1) session-ReadsFresh
      session_open c_found
