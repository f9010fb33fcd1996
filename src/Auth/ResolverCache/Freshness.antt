-- ===== src/Auth/ResolverCache/Freshness.antt =====
-- resolver_cache.go: after an invalidation no answer of the store from before it is found. An invalidation
-- is one step.
use grok_search_mcp.Base.{
  ℕ, zero, suc, ◌+◌, ◌/◌, ◌%◌, ◌≡◌, refl, inl, inr, String, true, false, not, ◌||◌, Option, none,
  some, List, [], ◌∷◌, length, get_elem?, ltb, eqb, if_true, if_false, arith, Bool-cases,
  Option-cases, sym, subst,
}
use grok_search_mcp.Base.Keys.{string_key}
use grok_search_mcp.Base.Assoc.{
  lookup, AllValues, AllValues-erase, AllValues-insert, AllValues-lookup,
}
use grok_search_mcp.Base.Every.{Every, get_elem?-Every, set-Every}
use grok_search_mcp.Auth.ResolverCache.{
  ApiKeyCacheConfig, normalize_api_key_cache_config, back, CacheEntry, AuthCacheShard,
  CachedApiKeyResolver, new_shards, new_cached_api_key_resolver, remove_entry, load_cached_entry,
  evict, without, push_entry, store_in_shard, remove_expired, clear_shard, clear_shards,
  expire_shards, remove_expired_entries, invalidate_all, close_resolver, entry_of, store_entry,
  load_entry, shard_for,
}

-- The calls on a cache.
pub data CacheCall (Found : Type 0) : Type 0 where
  stores : (hash : String) → (found : Option Found) → (load_generation now : ℕ) → CacheCall Found
  loads : (hash : String) → (now : ℕ) → CacheCall Found
  expires : (now : ℕ) → CacheCall Found
  invalidates closes : CacheCall Found

module _ {Found : Type 0} (bytes : String → List ℕ) where
  unfoldable pub cache_step :
      CachedApiKeyResolver Found → CacheCall Found → CachedApiKeyResolver Found
  cache_step c (stores hash found load_generation now) =
      store_entry bytes c hash found load_generation now
  cache_step c (loads hash now) = (load_entry bytes c hash now).1
  cache_step c (expires now) = remove_expired_entries c now
  cache_step c invalidates = invalidate_all c
  cache_step c closes = close_resolver c

  unfoldable pub run_cache :
      CachedApiKeyResolver Found → List (CacheCall Found) → CachedApiKeyResolver Found
  run_cache c [] = c
  run_cache c (call ∷ calls) = run_cache (cache_step c call) calls

module _ {Found : Type 0} where
  pub close_resolver-closed :
      (c : CachedApiKeyResolver Found) → c.closed ≡ true → close_resolver c ≡ c
  unfolding close_resolver
  close_resolver-closed c closed =
      if_true c.closed c (record c { closed = true; generation = c.generation + 1 }) closed

  pub close_resolver-open :
      (c : CachedApiKeyResolver Found)
      → c.closed ≡ false
      → close_resolver c ≡ record c { closed = true; generation = c.generation + 1 }
  unfolding close_resolver
  close_resolver-open c opened =
      if_false c.closed c (record c { closed = true; generation = c.generation + 1 }) opened

module _ {Found : Type 0} (P : CacheEntry Found → Type 0) where
  abbrev Holds : AuthCacheShard Found → Type 0
  Holds s = AllValues P s.by_hash

  remove_entry-Holds :
      (s : AuthCacheShard Found) (hash : String) → Holds s → Holds (remove_entry s hash)
  unfolding remove_entry
  remove_entry-Holds s hash a = AllValues-erase P hash s.by_hash a

  load_cached_entry-Holds :
      (s : AuthCacheShard Found) (hash : String) (now : ℕ)
      → Holds s
      → Holds (load_cached_entry s hash now).1
  unfolding load_cached_entry
  load_cached_entry-Holds s hash now a = elim (Option-cases (lookup hash s.by_hash)) [
    | inl absent ↦ rw (absent, load_cached_entry) a
    | inr (entry, found) ↦ elim (Bool-cases (ltb now entry.until)) [
      | inl live ↦ rw (found, load_cached_entry, live) a
      | inr over ↦ rw (found, load_cached_entry, over) (remove_entry-Holds s hash a)
    ]
  ]

  evict-Holds : (fuel : ℕ) (s : AuthCacheShard Found) → Holds s → Holds (evict fuel s)
  unfolding evict
  evict-Holds zero s a = a
  evict-Holds (suc fuel) s a = elim (Option-cases (back s.recency)) [
    | inl empty ↦ rw (empty, evict) a
    | inr (hash, oldest) ↦ elim (Bool-cases (ltb s.max_entries (length s.by_hash))) [
      | inl over ↦
          rw (oldest, evict, over)
            (evict-Holds fuel (remove_entry s hash) (remove_entry-Holds s hash a))
      | inr fits ↦ rw (oldest, evict, fits) a
    ]
  ]

  without-Holds : (s : AuthCacheShard Found) (hash : String) → Holds s → Holds (without s hash)
  unfolding without
  without-Holds s hash a = elim (Option-cases (lookup hash s.by_hash)) [
    | inl absent ↦ rw (absent, without) a
    | inr (entry, found) ↦ rw (found, without) (remove_entry-Holds s hash a)
  ]

  store_in_shard-Holds :
      (s : AuthCacheShard Found) (hash : String) (entry : CacheEntry Found)
      → Holds s
      → P entry
      → Holds (store_in_shard s hash entry)
  unfolding store_in_shard push_entry
  store_in_shard-Holds s hash entry a p =
      evict-Holds (length (push_entry s hash entry).recency) (push_entry s hash entry)
        (AllValues-insert P hash entry (without s hash).by_hash (without-Holds s hash a) p)

  remove_expired-Holds :
      (entries : List (String × CacheEntry Found)) (now : ℕ) (s : AuthCacheShard Found)
      → Holds s
      → Holds (remove_expired entries now s)
  unfolding remove_expired
  remove_expired-Holds [] now s a = a
  remove_expired-Holds ((hash, entry) ∷ entries) now s a = elim (Bool-cases (ltb now entry.until)) [
    | inl live ↦ rw (live, remove_expired) (remove_expired-Holds entries now s a)
    | inr over ↦
        rw (over, remove_expired)
          (remove_expired-Holds entries now (remove_entry s hash) (remove_entry-Holds s hash a))
  ]

  expire_shards-Every :
      (now : ℕ) (shards : List (AuthCacheShard Found))
      → Every Holds shards
      → Every Holds (expire_shards now shards)
  unfolding expire_shards
  expire_shards-Every now [] e = tt
  expire_shards-Every now (s ∷ shards) e =
      (remove_expired-Holds s.by_hash now s e.0, expire_shards-Every now shards e.1)

  clear_shards-Every : (shards : List (AuthCacheShard Found)) → Every Holds (clear_shards shards)
  unfolding clear_shards clear_shard
  clear_shards-Every [] = tt
  clear_shards-Every (s ∷ shards) = (tt, clear_shards-Every shards)

  new_shards-Every : (base extra index n : ℕ) → Every Holds (new_shards base extra index n)
  unfolding new_shards
  new_shards-Every base extra index zero = tt
  new_shards-Every base extra index (suc n) = (tt, new_shards-Every base extra (index + 1) n)

module _ {Found : Type 0} (bytes : String → List ℕ) (Fresh : ℕ → Option Found → Type 0) where
  abbrev IsFresh : ℕ → CacheEntry Found → Type 0
  IsFresh generation entry = Fresh generation entry.found

  -- What an open cache holds was read from the store in its own generation.
  unfoldable pub HoldsFresh : CachedApiKeyResolver Found → Type 0
  HoldsFresh c = c.closed ≡ false → Every (Holds (IsFresh c.generation)) c.shards

  -- Every answer that is to be stored was read in the generation that it names.
  unfoldable pub ReadsFresh : List (CacheCall Found) → Type 0
  ReadsFresh [] = Unit
  ReadsFresh (stores hash found load_generation now ∷ calls) =
      Fresh load_generation found × ReadsFresh calls
  ReadsFresh (loads hash now ∷ calls) = ReadsFresh calls
  ReadsFresh (expires now ∷ calls) = ReadsFresh calls
  ReadsFresh (invalidates ∷ calls) = ReadsFresh calls
  ReadsFresh (closes ∷ calls) = ReadsFresh calls

  entry_of-found :
      (c : CachedApiKeyResolver Found) (found : Option Found) (now : ℕ)
      → (entry_of c found now).found ≡ found
  unfolding entry_of
  entry_of-found c none now = refl
  entry_of-found c (some x) now = refl

  store_entry-HoldsFresh :
      (c : CachedApiKeyResolver Found) (hash : String) (found : Option Found)
      (load_generation now : ℕ)
      → Fresh load_generation found
      → HoldsFresh c
      → HoldsFresh (store_entry bytes c hash found load_generation now)
  unfolding store_entry HoldsFresh
  store_entry-HoldsFresh c hash found load_generation now fresh v =
      elim (Bool-cases (c.closed || not (eqb c.generation load_generation))) [
        | inl refused ↦ rw refused v
        | inr allowed ↦
            let same : load_generation ≡ c.generation = ground arith in
            let current : Fresh c.generation found = subst (λ g. Fresh g found) same fresh in
            let entry_fresh : IsFresh c.generation (entry_of c found now) =
              subst (λ x. Fresh c.generation x) (sym (entry_of-found c found now)) current in
            elim (Option-cases (get_elem? c.shards (shard_for (bytes hash) (length c.shards)))) [
              | inl nowhere ↦ rw (allowed, nowhere) v
              | inr (s, there) ↦
                  rw (allowed, there)
                    (λ opened.
                      set-Every (Holds (IsFresh c.generation)) c.shards
                        (shard_for (bytes hash) (length c.shards))
                        (store_in_shard s hash (entry_of c found now)) (v opened)
                        (store_in_shard-Holds (IsFresh c.generation) s hash (entry_of c found now)
                          (get_elem?-Every (Holds (IsFresh c.generation)) c.shards
                            (shard_for (bytes hash) (length c.shards)) s (v opened) there)
                          entry_fresh))
            ]
      ]

  load_entry-HoldsFresh :
      (c : CachedApiKeyResolver Found) (hash : String) (now : ℕ)
      → HoldsFresh c
      → HoldsFresh (load_entry bytes c hash now).1
  unfolding load_entry HoldsFresh
  load_entry-HoldsFresh c hash now v =
      elim (Option-cases (get_elem? c.shards (shard_for (bytes hash) (length c.shards)))) [
        | inl nowhere ↦ rw (nowhere, load_entry) v
        | inr (s, there) ↦
            rw (there, load_entry)
              (λ opened.
                set-Every (Holds (IsFresh c.generation)) c.shards
                  (shard_for (bytes hash) (length c.shards)) (load_cached_entry s hash now).1
                  (v opened)
                  (load_cached_entry-Holds (IsFresh c.generation) s hash now (
                    get_elem?-Every (Holds (IsFresh c.generation)) c.shards
                      (shard_for (bytes hash) (length c.shards)) s (v opened) there)))
      ]

  close_resolver-HoldsFresh :
      (c : CachedApiKeyResolver Found) → HoldsFresh c → HoldsFresh (close_resolver c)
  unfolding HoldsFresh
  close_resolver-HoldsFresh c v = elim (Bool-cases c.closed) [
    | inl closed ↦ subst HoldsFresh (sym (close_resolver-closed c closed)) v
    | inr opened ↦ subst HoldsFresh (sym (close_resolver-open c opened)) (λ wrong. cc)
  ]

  step-HoldsFresh :
      (c : CachedApiKeyResolver Found) (call : CacheCall Found) (calls : List (CacheCall Found))
      → ReadsFresh (call ∷ calls)
      → HoldsFresh c
      → HoldsFresh (cache_step bytes c call) × ReadsFresh calls
  unfolding cache_step ReadsFresh HoldsFresh remove_expired_entries invalidate_all
  step-HoldsFresh c (stores hash found load_generation now) calls r v =
      (store_entry-HoldsFresh c hash found load_generation now r.0 v, r.1)
  step-HoldsFresh c (loads hash now) calls r v = (load_entry-HoldsFresh c hash now v, r)
  step-HoldsFresh c (expires now) calls r v =
      (λ opened. expire_shards-Every (IsFresh c.generation) now c.shards (v opened), r)
  step-HoldsFresh c invalidates calls r v =
      (λ opened. clear_shards-Every (IsFresh (c.generation + 1)) c.shards, r)
  step-HoldsFresh c closes calls r v = (close_resolver-HoldsFresh c v, r)

  run-HoldsFresh :
      (c : CachedApiKeyResolver Found) (calls : List (CacheCall Found))
      → ReadsFresh calls
      → HoldsFresh c
      → HoldsFresh (run_cache bytes c calls)
  unfolding run_cache
  run-HoldsFresh c [] r v = v
  run-HoldsFresh c (call ∷ calls) r v =
      let next = step-HoldsFresh c call calls r v in
      run-HoldsFresh (cache_step bytes c call) calls next.1 next.0

  load_cached_entry-Fresh :
      (generation : ℕ) (s : AuthCacheShard Found) (hash : String) (now : ℕ) (found : Option Found)
      → Holds (IsFresh generation) s
      → (load_cached_entry s hash now).0 ≡ some found
      → Fresh generation found
  unfolding load_cached_entry
  load_cached_entry-Fresh generation s hash now found a h =
      elim (Option-cases (lookup hash s.by_hash)) [
        | inl absent ↦ let wrong = rw (absent, load_cached_entry) at h in absurd (cc)
        | inr (entry, there) ↦ elim (Bool-cases (ltb now entry.until)) [
          | inr over ↦ let wrong = rw (there, load_cached_entry, over) at h in absurd (cc)
          | inl live ↦
              let hit : some entry.found ≡ some found = rw (there, load_cached_entry, live) at h in
              let same : entry.found ≡ found = cc in
              subst (λ x. Fresh generation x) same
                (AllValues-lookup (IsFresh generation) hash entry s.by_hash a there)
        ]
      ]

  -- Whatever calls a new cache has served, where each answer that was to be stored had been read from the
  -- store in the generation that it names: what an open cache finds was read in the current generation,
  -- that is after the last invalidation.
  pub load_entry-Fresh :
      (config : ApiKeyCacheConfig) (calls : List (CacheCall Found)) (hash : String) (now : ℕ)
      (found : Option Found)
      → ReadsFresh calls
      → (run_cache bytes (new_cached_api_key_resolver config) calls).closed ≡ false
      → (load_entry bytes (run_cache bytes (new_cached_api_key_resolver config) calls) hash now).0
        ≡ some found
      → Fresh (run_cache bytes (new_cached_api_key_resolver config) calls).generation found
  unfolding load_entry HoldsFresh new_cached_api_key_resolver
  load_entry-Fresh config calls hash now found r opened h =
      let normal = normalize_api_key_cache_config config in
      let c : CachedApiKeyResolver Found =
        run_cache bytes (new_cached_api_key_resolver config) calls in
      let index = shard_for (bytes hash) (length c.shards) in
      let fresh = run-HoldsFresh (new_cached_api_key_resolver config) calls r (λ new.
        new_shards-Every (IsFresh 0) (normal.max_entries / normal.shard_count)
          (normal.max_entries % normal.shard_count) 0 normal.shard_count) in
      elim (Option-cases (get_elem? c.shards index)) [
        | inl nowhere ↦ let wrong : none ≡ some found = rw (nowhere, load_entry) at h in absurd (cc)
        | inr (s, there) ↦
            let hit : (load_cached_entry s hash now).0 ≡ some found = rw (there, load_entry) at h in
            load_cached_entry-Fresh c.generation s hash now found
              (get_elem?-Every (Holds (IsFresh c.generation)) c.shards index s (fresh opened) there)
              hit
      ]
