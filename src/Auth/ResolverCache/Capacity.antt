-- ===== src/Auth/ResolverCache/Capacity.antt =====
-- resolver_cache.go: the whole cache stays valid and within the configured number of entries.
use grok_search_mcp.Base.{
  ℕ, zero, suc, ◌+◌, ◌*◌, ◌/◌, ◌%◌, ◌≡◌, ◌≢◌, ◌≤◌, ◌<◌, refl, inl, inr, String, not, ◌||◌, none,
  some, List, [], ◌∷◌, length, get_elem?, set, ltb, eqb, arith, min, Bool-cases, Option-cases, sym,
  subst, ◌∙◌,
}
use native.Mathlib.Nat.{mod-lt, div-add-mod}
use grok_search_mcp.Base.Int.{positive_or-pos}
use grok_search_mcp.Base.Keys.{◌==◌, string_key, beq_self, beq_of_ne, ne_of_beq}
use grok_search_mcp.Base.Assoc.{lookup, erase, Unique, lookup-erase_ne}
use grok_search_mcp.Base.Every.{Every, get_elem?-Every, set-Every, sum_of, sum_of-set}
use grok_search_mcp.Auth.ResolverCache.{
  default_auth_cache_max_entries, default_auth_cache_shard_count, ApiKeyCacheConfig,
  normalize_api_key_cache_config, CacheEntry, AuthCacheShard, CachedApiKeyResolver, new_shards,
  new_cached_api_key_resolver, remove_entry, load_cached_entry, store_in_shard, remove_expired,
  clear_shard, clear_shards, expire_shards, remove_expired_entries, invalidate_all, entry_of,
  store_entry, load_entry, shard_for,
}
use grok_search_mcp.Auth.ResolverCache.Recency.{occurs, Distinct}
use grok_search_mcp.Auth.ResolverCache.Shards.{
  is_there, IsValid, remove_entry-Agrees, remove_entry-length, load_cached_entry-IsValid,
  load_cached_entry-max,
}
use grok_search_mcp.Auth.ResolverCache.Evictions.{store_in_shard-IsValid, store_in_shard-max}
use grok_search_mcp.Auth.ResolverCache.Freshness.{
  CacheCall, stores, loads, expires, invalidates, closes, cache_step, run_cache,
  close_resolver-closed, close_resolver-open,
}

module _ {Found : Type 0} where
  -- The entries of a list are those of a map.
  abbrev Within : List (String × CacheEntry Found) → List (String × CacheEntry Found) → Type 0
  Within m entries = Every (λ entry. lookup entry.0 m ≡ some entry.1) entries

  absent-rest :
      (hash other : String) (entry : CacheEntry Found) (rest : List (String × CacheEntry Found))
      → lookup hash ((other, entry) ∷ rest) ≡ none
      → (hash ≢ other) × (lookup hash rest ≡ none)
  unfolding lookup
  absent-rest hash other entry rest h = elim (Bool-cases (other == hash)) [
    | inl same ↦ let wrong = rw same at h in absurd (cc)
    | inr different ↦ (λ same. ne_of_beq other hash different (sym same), rw different at h)
  ]

  Within-erase :
      (hash : String) (m entries : List (String × CacheEntry Found))
      → lookup hash entries ≡ none
      → Within m entries
      → Within (erase hash m) entries
  Within-erase hash m [] absent w = tt
  Within-erase hash m ((other, entry) ∷ rest) absent w =
      let split = absent-rest hash other entry rest absent in
      (lookup-erase_ne hash other m split.0 ∙ w.0, Within-erase hash m rest split.1 w.1)

  Within-cons :
      (hash : String) (entry : CacheEntry Found) (m entries : List (String × CacheEntry Found))
      → lookup hash entries ≡ none
      → Within m entries
      → Within ((hash, entry) ∷ m) entries
  unfolding lookup
  Within-cons hash entry m [] absent w = tt
  Within-cons hash entry m ((other, e) ∷ rest) absent w =
      let split = absent-rest hash other e rest absent in
      (rw (beq_of_ne hash other split.0) w.0, Within-cons hash entry m rest split.1 w.1)

  Within-self : (m : List (String × CacheEntry Found)) → Unique m → Within m m
  unfolding lookup
  Within-self [] u = tt
  Within-self ((hash, entry) ∷ m) u =
      (rw (beq_self hash) refl, Within-cons hash entry m m u.0 (Within-self m u.1))

  remove_entry-Within :
      (hash : String) (s : AuthCacheShard Found) (entries : List (String × CacheEntry Found))
      → lookup hash entries ≡ none
      → Within s.by_hash entries
      → Within (remove_entry s hash).by_hash entries
  unfolding remove_entry
  remove_entry-Within hash s entries absent w = Within-erase hash s.by_hash entries absent w

  -- What an operation leaves of a shard.
  record Keeps (before after : AuthCacheShard Found) : Type 0 where
    valid : IsValid after
    same_capacity : after.max_entries ≡ before.max_entries

  remove_expired-Keeps :
      (entries : List (String × CacheEntry Found)) (now : ℕ) (s : AuthCacheShard Found)
      → Unique entries
      → Within s.by_hash entries
      → IsValid s
      → Keeps s (remove_expired entries now s)
  unfolding remove_expired
  remove_expired-Keeps [] now s u w v = record { valid = v; same_capacity = refl }
  remove_expired-Keeps ((hash, entry) ∷ entries) now s u w v =
      elim (Bool-cases (ltb now entry.until)) [
        | inl live ↦ rw (live, remove_expired) (remove_expired-Keeps entries now s u.1 w.1 v)
        | inr over ↦
            let less = remove_entry-length s hash entry v.agrees w.0 in
            let rest =
              remove_expired-Keeps entries now (remove_entry s hash) u.1
                (remove_entry-Within hash s entries u.0 w.1)
                (record {
                  agrees = remove_entry-Agrees s hash entry v.agrees w.0;
                  bounded = omega (arith, less.0, less.1, v.bounded);
                }) in
            rw (over, remove_expired)
              (record { valid = rest.valid; same_capacity = rest.same_capacity ∙ less.1 })
      ]

  unfoldable pub sum_max : List (AuthCacheShard Found) → ℕ
  sum_max shards = sum_of (λ (s : AuthCacheShard Found). s.max_entries) shards

  -- The shards of a cache are valid, and their capacities add up to the configured number of entries.
  pub record IsValidCache (most : ℕ) (c : CachedApiKeyResolver Found) : Type 0 where
    pub valid : Every IsValid c.shards
    pub total : sum_max c.shards ≡ most

  set-IsValidCache :
      (most index : ℕ) (c : CachedApiKeyResolver Found) (before after : AuthCacheShard Found)
      → get_elem? c.shards index ≡ some before
      → Keeps before after
      → IsValidCache most c
      → IsValidCache most (record c { shards = set c.shards index after })
  unfolding sum_max
  set-IsValidCache most index c before after there k v = record {
    valid = set-Every IsValid c.shards index after v.valid k.valid;
    total = omega (
      arith,
      sum_of-set (λ (s : AuthCacheShard Found). s.max_entries) c.shards index before after there,
      k.same_capacity,
      v.total,
    );
  }

  expire_shards-Keeps :
      (now : ℕ) (shards : List (AuthCacheShard Found))
      → Every IsValid shards
      → Every IsValid (expire_shards now shards)
        × (sum_max (expire_shards now shards) ≡ sum_max shards)
  unfolding expire_shards sum_max sum_of
  expire_shards-Keeps now [] e = (tt, refl)
  expire_shards-Keeps now (s ∷ shards) e =
      let first =
        remove_expired-Keeps s.by_hash now s e.0.agrees.unique
          (Within-self s.by_hash e.0.agrees.unique) e.0 in
      let rest = expire_shards-Keeps now shards e.1 in
      ((first.valid, rest.0), omega (arith, first.same_capacity, rest.1))

  clear_shard-Keeps : (s : AuthCacheShard Found) → Keeps s (clear_shard s)
  unfolding clear_shard occurs is_there Distinct lookup
  clear_shard-Keeps s = record {
    valid = record {
      agrees = record {
        unique = tt;
        distinct = tt;
        same_hashes = λ hash. refl;
        same_length = refl;
      };
      bounded = omega arith;
    };
    same_capacity = refl;
  }

  clear_shards-Keeps :
      (shards : List (AuthCacheShard Found))
      → Every IsValid (clear_shards shards) × (sum_max (clear_shards shards) ≡ sum_max shards)
  unfolding clear_shards sum_max sum_of
  clear_shards-Keeps [] = (tt, refl)
  clear_shards-Keeps (s ∷ shards) =
      let first = clear_shard-Keeps s in
      let rest = clear_shards-Keeps shards in
      ((first.valid, rest.0), omega (arith, first.same_capacity, rest.1))

shards_pos : (config : ApiKeyCacheConfig) → 0 < (normalize_api_key_cache_config config).shard_count
unfolding normalize_api_key_cache_config
shards_pos config =
    let entries = positive_or-pos config.max_entries default_auth_cache_max_entries (omega arith) in
    let shards = positive_or-pos config.shard_count default_auth_cache_shard_count (omega arith) in
    ground (arith, entries, shards)

module _ (Found : Type 0) where
  new_shards-sum :
      (base extra index n : ℕ)
      → sum_max (new_shards {Found = Found} base extra index n) + min index extra
        ≡ n * base + min (index + n) extra
  unfolding sum_max sum_of new_shards
  new_shards-sum base extra index zero = omega arith
  new_shards-sum base extra index (suc n) =
      let ih = new_shards-sum base extra (index + 1) n in
      elim (Bool-cases (ltb index extra)) [
        | inl larger ↦ rw larger (ground (arith, ih))
        | inr plain ↦ rw plain (ground (arith, ih))
      ]

  -- The capacities share out all entries.
  new_shards-total :
      (most n : ℕ) → 0 < n → sum_max (new_shards {Found = Found} (most / n) (most % n) 0 n) ≡ most
  new_shards-total most n some_shards =
      let shared = new_shards-sum (most / n) (most % n) 0 n in
      let whole = div-add-mod most n in
      let less = mod-lt most some_shards in omega (arith, shared, whole, less)

  new_shards-IsValid :
      (base extra index n : ℕ) → Every IsValid (new_shards {Found = Found} base extra index n)
  unfolding new_shards occurs is_there Distinct lookup
  new_shards-IsValid base extra index zero = tt
  new_shards-IsValid base extra index (suc n) = (
    record {
      agrees = record {
        unique = tt;
        distinct = tt;
        same_hashes = λ hash. refl;
        same_length = refl;
      };
      bounded = omega arith;
    },
    new_shards-IsValid base extra (index + 1) n,
  )

module _ {Found : Type 0} where
  new-IsValidCache :
      (config : ApiKeyCacheConfig)
      → IsValidCache
          (normalize_api_key_cache_config config).max_entries
          (new_cached_api_key_resolver {Found = Found} config)
  unfolding new_cached_api_key_resolver normalize_api_key_cache_config
  new-IsValidCache config =
      let normal = normalize_api_key_cache_config config in
      record {
        valid =
            new_shards-IsValid Found (normal.max_entries / normal.shard_count)
              (normal.max_entries % normal.shard_count) 0 normal.shard_count;
        total = new_shards-total Found normal.max_entries normal.shard_count (shards_pos config);
      }

  -- The entries in all shards.
  unfoldable pub entries_of : List (AuthCacheShard Found) → ℕ
  entries_of shards = sum_of (λ (s : AuthCacheShard Found). length s.by_hash) shards

  entries_of-le :
      (shards : List (AuthCacheShard Found))
      → Every IsValid shards
      → entries_of shards ≤ sum_max shards
  unfolding entries_of sum_max sum_of
  entries_of-le [] e = omega arith
  entries_of-le (s ∷ shards) e = omega (arith, e.0.bounded, entries_of-le shards e.1)

  store_in_shard-Keeps :
      (s : AuthCacheShard Found) (hash : String) (entry : CacheEntry Found)
      → IsValid s
      → Keeps s (store_in_shard s hash entry)
  store_in_shard-Keeps s hash entry v = record {
    valid = store_in_shard-IsValid s hash entry v.agrees;
    same_capacity = store_in_shard-max s hash entry v.agrees;
  }

  load_cached_entry-Keeps :
      (s : AuthCacheShard Found) (hash : String) (now : ℕ)
      → IsValid s
      → Keeps s (load_cached_entry s hash now).1
  load_cached_entry-Keeps s hash now v = record {
    valid = load_cached_entry-IsValid s hash now v;
    same_capacity = load_cached_entry-max s hash now;
  }

module _ {Found : Type 0} (bytes : String → List ℕ) where
  step-IsValidCache :
      (most : ℕ) (c : CachedApiKeyResolver Found) (call : CacheCall Found)
      → IsValidCache most c
      → IsValidCache most (cache_step bytes c call)
  unfolding cache_step store_entry load_entry remove_expired_entries invalidate_all
  step-IsValidCache most c (stores hash found load_generation now) v =
      let index = shard_for (bytes hash) (length c.shards) in
      elim (Bool-cases (c.closed || not (eqb c.generation load_generation))) [
        | inl refused ↦ rw refused v
        | inr allowed ↦ elim (Option-cases (get_elem? c.shards index)) [
          | inl nowhere ↦ rw (allowed, nowhere) v
          | inr (s, there) ↦
              rw (allowed, there)
                (set-IsValidCache most index c s (store_in_shard s hash (entry_of c found now))
                  there
                  (store_in_shard-Keeps s hash (entry_of c found now)
                    (get_elem?-Every IsValid c.shards index s v.valid there))
                  v)
        ]
      ]
  step-IsValidCache most c (loads hash now) v =
      let index = shard_for (bytes hash) (length c.shards) in
      elim (Option-cases (get_elem? c.shards index)) [
        | inl nowhere ↦ rw (nowhere, cache_step, load_entry) v
        | inr (s, there) ↦
            rw (there, cache_step, load_entry)
              (set-IsValidCache most index c s (load_cached_entry s hash now).1 there
                (load_cached_entry-Keeps s hash now
                  (get_elem?-Every IsValid c.shards index s v.valid there))
                v)
      ]
  step-IsValidCache most c (expires now) v =
      let kept = expire_shards-Keeps now c.shards v.valid in
      record { valid = kept.0; total = kept.1 ∙ v.total }
  step-IsValidCache most c invalidates v =
      let kept = clear_shards-Keeps c.shards in record { valid = kept.0; total = kept.1 ∙ v.total }
  step-IsValidCache most c closes v = elim (Bool-cases c.closed) [
    | inl closed ↦ subst (IsValidCache most) (sym (close_resolver-closed c closed)) v
    | inr opened ↦
        subst (IsValidCache most) (sym (close_resolver-open c opened))
          (record { valid = v.valid; total = v.total })
  ]

  run-IsValidCache :
      (most : ℕ) (c : CachedApiKeyResolver Found) (calls : List (CacheCall Found))
      → IsValidCache most c
      → IsValidCache most (run_cache bytes c calls)
  unfolding run_cache
  run-IsValidCache most c [] v = v
  run-IsValidCache most c (call ∷ calls) v =
      run-IsValidCache most (cache_step bytes c call) calls (step-IsValidCache most c call v)

  -- Whatever the configuration and the calls, the shards stay valid: the map and the list of a shard hold
  -- the same hashes, each once, and together the shards hold at most the configured number of entries.
  pub run_cache-IsBounded :
      (config : ApiKeyCacheConfig) (calls : List (CacheCall Found))
      → Every IsValid (run_cache bytes (new_cached_api_key_resolver config) calls).shards
        × (entries_of (run_cache bytes (new_cached_api_key_resolver config) calls).shards
            ≤ (normalize_api_key_cache_config config).max_entries)
  run_cache-IsBounded config calls =
      let v =
        run-IsValidCache (normalize_api_key_cache_config config).max_entries
          (new_cached_api_key_resolver config) calls (new-IsValidCache config) in
      (
        v.valid,
        omega (
          arith,
          entries_of-le (run_cache bytes (new_cached_api_key_resolver config) calls).shards v.valid,
          v.total,
        ),
      )
