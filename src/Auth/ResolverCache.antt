-- ===== src/Auth/ResolverCache.antt =====
-- internal/auth/resolver_cache.go: the cache of authenticated API keys. A shard keeps its entries by the
-- hash of the key, and the hashes from the most to the least recently used one. What the store returned is
-- kept as it is, with no key for a hash that the store does not know.
pub mod Recency
pub mod Shards
pub mod Evictions
pub mod Freshness
pub mod Capacity
mod Tests
use grok_search_mcp.Base.{
  ℕ, zero, suc, ◌+◌, ◌*◌, ◌/◌, ◌%◌, ◌^◌, String, Bool, true, false, not, ◌&&◌, ◌||◌, Option, none,
  some, List, [], ◌∷◌, length, replicate, get_elem?, set, map, ltb, leb, eqb, if◌then◌else◌,
}
use grok_search_mcp.Base.Int.{ℤ, positive_or, at_most}
use grok_search_mcp.Base.Keys.{◌==◌, string_key}
use grok_search_mcp.RateLimit.Ip.{fnv_hash}
use grok_search_mcp.Base.Assoc.{lookup, insert, erase}

-- Durations are in nanoseconds.
abbrev pub default_auth_cache_ttl : ℕ
default_auth_cache_ttl = 30 * 10 ^ 9

abbrev pub default_auth_cache_max_entries : ℕ
default_auth_cache_max_entries = 4096

abbrev pub default_auth_cache_shard_count : ℕ
default_auth_cache_shard_count = 32

abbrev pub default_auth_negative_cache_ttl : ℕ
default_auth_negative_cache_ttl = 2 * 10 ^ 9

abbrev pub default_auth_miss_max_concurrent : ℕ
default_auth_miss_max_concurrent = 32

abbrev pub maximum_auth_miss_max_concurrent : ℕ
maximum_auth_miss_max_concurrent = 1024

abbrev pub auth_cache_cleanup_interval : ℕ
auth_cache_cleanup_interval = 60 * 10 ^ 9

-- `APIKeyCacheConfig`
pub record ApiKeyCacheConfig : Type 0 where
  pub ttl : ℤ
  pub negative_ttl : ℤ
  pub cleanup_interval : ℤ
  pub max_entries : ℤ
  pub shard_count : ℤ
  pub miss_max_concurrent : ℤ

-- A configuration whose values are positive.
pub record NormalConfig : Type 0 where
  pub ttl : ℕ
  pub negative_ttl : ℕ
  pub cleanup_interval : ℕ
  pub max_entries : ℕ
  pub shard_count : ℕ
  pub miss_max_concurrent : ℕ

-- `normalizeAPIKeyCacheConfig`
unfoldable pub normalize_api_key_cache_config : ApiKeyCacheConfig → NormalConfig
normalize_api_key_cache_config config =
    let max_entries = positive_or config.max_entries default_auth_cache_max_entries in
    record {
      ttl = positive_or config.ttl default_auth_cache_ttl;
      negative_ttl = positive_or config.negative_ttl default_auth_negative_cache_ttl;
      cleanup_interval = positive_or config.cleanup_interval auth_cache_cleanup_interval;
      max_entries = max_entries;
      shard_count =
          at_most max_entries (positive_or config.shard_count default_auth_cache_shard_count);
      miss_max_concurrent =
          at_most maximum_auth_miss_max_concurrent
            (positive_or config.miss_max_concurrent default_auth_miss_max_concurrent);
    }

-- `list.Remove` of the element that holds a hash.
unfoldable pub remove : String → List String → List String
remove hash [] = []
remove hash (other ∷ rest) =
    let left = remove hash rest in if other == hash then rest else other ∷ left

-- `list.Back`
unfoldable pub back : List String → Option String
back [] = none
back (hash ∷ []) = some hash
back (hash ∷ other ∷ rest) = back (other ∷ rest)

-- `cacheEntry`, where `Found` is what the store returned: a key and its user.
pub record CacheEntry (Found : Type 0) : Type 0 where
  pub found : Option Found
  pub until : ℕ

-- `authCacheShard`
pub record AuthCacheShard (Found : Type 0) : Type 0 where
  pub by_hash : List (String × CacheEntry Found)
  pub recency : List String
  pub max_entries : ℕ

-- The cache of a `CachedAPIKeyResolver`.
pub record CachedApiKeyResolver (Found : Type 0) : Type 0 where
  pub ttl : ℕ
  pub negative_ttl : ℕ
  pub shards : List (AuthCacheShard Found)
  pub generation : ℕ
  pub closed : Bool

abbrev pub fnv_offset_basis : ℕ
fnv_offset_basis = 14695981039346656037

-- `shardFor`: the index of the shard, from the bytes of the hash. There is at least one shard.
unfoldable pub shard_for : List ℕ → ℕ → ℕ
shard_for bytes count = fnv_hash fnv_offset_basis bytes % count

module _ {Found : Type 0} where
  -- The shards from an index on.
  unfoldable pub new_shards : ℕ → ℕ → ℕ → ℕ → List (AuthCacheShard Found)
  new_shards base extra index zero = []
  new_shards base extra index (suc n) =
      record {
        by_hash = [];
        recency = [];
        max_entries = if ltb index extra then base + 1 else base;
      }
      ∷ new_shards base extra (index + 1) n

  -- `NewCachedAPIKeyResolverWithConfig`
  unfoldable pub new_cached_api_key_resolver : ApiKeyCacheConfig → CachedApiKeyResolver Found
  new_cached_api_key_resolver raw =
      let config = normalize_api_key_cache_config raw in
      record {
        ttl = config.ttl;
        negative_ttl = config.negative_ttl;
        shards =
            new_shards (config.max_entries / config.shard_count)
              (config.max_entries % config.shard_count) 0 config.shard_count;
        generation = 0;
        closed = false;
      }

  -- `removeEntry`
  unfoldable pub remove_entry : AuthCacheShard Found → String → AuthCacheShard Found
  remove_entry s hash = record s { by_hash = erase hash s.by_hash; recency = remove hash s.recency }

  -- `loadCachedEntry` in the shard of the hash. `none` is a miss, and `some none` a hash that is known to
  -- be unknown.
  unfoldable pub load_cached_entry :
      AuthCacheShard Found → String → ℕ → Option (Option Found) × AuthCacheShard Found
  load_cached_entry s hash now = elim (lookup hash s.by_hash) [
    | none ↦ (none, s)
    | some entry ↦
        if ltb now entry.until
        then (some entry.found, record s { recency = hash ∷ remove hash s.recency })
        else (none, remove_entry s hash)
  ]

  -- The loop that evicts the least recently used entries, on fuel.
  unfoldable pub evict : ℕ → AuthCacheShard Found → AuthCacheShard Found
  evict zero s = s
  evict (suc fuel) s = elim (back s.recency) [
    | none ↦ s
    | some hash ↦
        let rest = evict fuel (remove_entry s hash) in
        if ltb s.max_entries (length s.by_hash) then rest else s
  ]

  -- An entry that is there is removed.
  unfoldable pub without : AuthCacheShard Found → String → AuthCacheShard Found
  without s hash = elim (lookup hash s.by_hash) [ none ↦ s | some old ↦ remove_entry s hash ]

  -- The entry is put in front.
  unfoldable pub push_entry :
      AuthCacheShard Found → String → CacheEntry Found → AuthCacheShard Found
  push_entry s hash entry =
      let cleared = without s hash in
      record cleared {
        by_hash = insert hash entry cleared.by_hash;
        recency = hash ∷ cleared.recency;
      }

  -- `storeEntry` in the shard of the hash, of a resolver that is open and of the same generation.
  unfoldable pub store_in_shard :
      AuthCacheShard Found → String → CacheEntry Found → AuthCacheShard Found
  store_in_shard s hash entry =
      let pushed = push_entry s hash entry in evict (length pushed.recency) pushed

  -- `removeExpiredEntries` in one shard: the loop over its entries.
  unfoldable pub remove_expired :
      List (String × CacheEntry Found) → ℕ → AuthCacheShard Found → AuthCacheShard Found
  remove_expired [] now s = s
  remove_expired ((hash, entry) ∷ entries) now s =
      let left = remove_entry s hash in
      remove_expired entries now (if ltb now entry.until then s else left)

  -- What `InvalidateAll` leaves of a shard.
  unfoldable pub clear_shard : AuthCacheShard Found → AuthCacheShard Found
  clear_shard s = record s { by_hash = []; recency = [] }

  unfoldable pub clear_shards : List (AuthCacheShard Found) → List (AuthCacheShard Found)
  clear_shards [] = []
  clear_shards (s ∷ shards) = clear_shard s ∷ clear_shards shards

  unfoldable pub expire_shards : ℕ → List (AuthCacheShard Found) → List (AuthCacheShard Found)
  expire_shards now [] = []
  expire_shards now (s ∷ shards) = remove_expired s.by_hash now s ∷ expire_shards now shards

  -- `removeExpiredEntries`
  unfoldable pub remove_expired_entries :
      CachedApiKeyResolver Found → ℕ → CachedApiKeyResolver Found
  remove_expired_entries c now = record c { shards = expire_shards now c.shards }

  -- `InvalidateAll`
  unfoldable pub invalidate_all : CachedApiKeyResolver Found → CachedApiKeyResolver Found
  invalidate_all c = record c { generation = c.generation + 1; shards = clear_shards c.shards }

  -- What `Close` does to the cache.
  unfoldable pub close_resolver : CachedApiKeyResolver Found → CachedApiKeyResolver Found
  close_resolver c =
      if c.closed then c else record c { closed = true; generation = c.generation + 1 }

  -- The entry of what the store returned: a hash that it does not know is kept for a shorter time.
  unfoldable pub entry_of : CachedApiKeyResolver Found → Option Found → ℕ → CacheEntry Found
  entry_of c none now = record { found = none; until = now + c.negative_ttl }
  entry_of c (some found) now = record { found = some found; until = now + c.ttl }

  -- `storeEntry`, where `bytes` gives the bytes of a hash.
  unfoldable pub store_entry :
      (String → List ℕ)
      → CachedApiKeyResolver Found
      → String
      → Option Found
      → ℕ
      → ℕ
      → CachedApiKeyResolver Found
  store_entry bytes c hash found load_generation now =
      let index = shard_for (bytes hash) (length c.shards) in
      if c.closed || not (eqb c.generation load_generation)
      then c
      else elim (get_elem? c.shards index) [
        | none ↦ c
        | some s ↦ record c {
          shards = set c.shards index (store_in_shard s hash (entry_of c found now));
        }
      ]

  -- The lookup that `Resolve` makes before it asks the store.
  unfoldable pub load_entry :
      (String → List ℕ)
      → CachedApiKeyResolver Found
      → String
      → ℕ
      → Option (Option Found) × CachedApiKeyResolver Found
  load_entry bytes c hash now =
      let index = shard_for (bytes hash) (length c.shards) in
      elim (get_elem? c.shards index) [
        | none ↦ (none, c)
        | some s ↦
            let loaded = load_cached_entry s hash now in
            (loaded.0, record c { shards = set c.shards index loaded.1 })
      ]
