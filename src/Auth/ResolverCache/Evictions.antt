-- ===== src/Auth/ResolverCache/Evictions.antt =====
-- resolver_cache.go: the entries that are evicted for a new one.
use grok_search_mcp.Base.{
  ℕ, zero, suc, ◌≡◌, ◌≤◌, ◌<◌, refl, inl, inr, String, true, some, List, ◌∷◌, length, ltb, arith,
  Bool-cases, Option-cases, sym, ◌∙◌, ap,
}
use grok_search_mcp.Base.Keys.{string_key, beq_of_ne}
use grok_search_mcp.Base.Assoc.{lookup, lookup-erase_ne, lookup-insert_self}
use grok_search_mcp.Auth.ResolverCache.{
  remove, back, CacheEntry, AuthCacheShard, remove_entry, load_cached_entry, evict, without,
  push_entry, store_in_shard,
}
use grok_search_mcp.Auth.ResolverCache.Recency.{
  Distinct, back-occurs, back-none, back-not_front, remove-front,
}
use grok_search_mcp.Auth.ResolverCache.Shards.{
  Agrees, IsValid, remove_entry-Agrees, remove_entry-length, occurs-there, push_entry-Agrees,
  without-max,
}

module _ {Found : Type 0} where
  -- Enough fuel evicts all that is too much.
  pub evict-IsValid :
      (fuel : ℕ) (s : AuthCacheShard Found)
      → length s.recency ≤ fuel
      → Agrees s
      → IsValid (evict fuel s) × ((evict fuel s).max_entries ≡ s.max_entries)
  unfolding evict
  evict-IsValid zero s enough v =
      (record { agrees = v; bounded = omega (arith, v.same_length) }, refl)
  evict-IsValid (suc fuel) s enough v = elim (Option-cases (back s.recency)) [
    | inl empty ↦
        let nothing = back-none s.recency empty in
        rw (empty, evict)
          (record { agrees = v; bounded = omega (arith, v.same_length, nothing) }, refl)
    | inr (hash, oldest) ↦
        let there = occurs-there s hash v (back-occurs hash s.recency oldest) in
        let less = remove_entry-length s hash there.0 v there.1 in
        let left = remove_entry-Agrees s hash there.0 v there.1 in
        let rest =
          evict-IsValid fuel (remove_entry s hash)
            (omega (arith, left.same_length, v.same_length, less.0)) left in
        elim (Bool-cases (ltb s.max_entries (length s.by_hash))) [
          | inl over ↦ rw (oldest, evict, over) (rest.0, rest.1 ∙ less.1)
          | inr fits ↦
              rw (oldest, evict, fits) (record { agrees = v; bounded = ground arith }, refl)
        ]
  ]

  pub store_in_shard-IsValid :
      (s : AuthCacheShard Found) (hash : String) (entry : CacheEntry Found)
      → Agrees s
      → IsValid (store_in_shard s hash entry)
  unfolding store_in_shard
  store_in_shard-IsValid s hash entry v =
      (evict-IsValid (length (push_entry s hash entry).recency) (push_entry s hash entry)
        (omega arith) (push_entry-Agrees s hash entry v)).0

  -- The most recently used entry is not evicted.
  evict-keeps :
      (fuel : ℕ) (s : AuthCacheShard Found) (hash : String) (rest : List String)
      (entry : CacheEntry Found)
      → s.recency ≡ hash ∷ rest
      → 0 < s.max_entries
      → Agrees s
      → lookup hash s.by_hash ≡ some entry
      → lookup hash (evict fuel s).by_hash ≡ some entry
  unfolding evict remove_entry
  evict-keeps zero s hash rest entry front room v found = found
  evict-keeps (suc fuel) s hash rest entry front room v found =
      elim (Option-cases (back s.recency)) [
        | inl empty ↦ rw (empty, evict) found
        | inr (last, oldest) ↦ elim (Bool-cases (ltb s.max_entries (length s.by_hash))) [
          | inr fits ↦ rw (oldest, evict, fits) found
          | inl over ↦
              let there = occurs-there s last v (back-occurs last s.recency oldest) in
              let less = remove_entry-length s last there.0 v there.1 in
              let distinct : Distinct (hash ∷ rest) = rw front at v.distinct in
              let ends : back (hash ∷ rest) ≡ some last = rw front at oldest in
              let size : length s.recency ≡ suc (length rest) = rw front refl in
              let others : 0 < length rest = ground (arith, v.same_length, size) in
              let kept = back-not_front hash last rest others distinct ends in
              rw (oldest, evict, over)
                (evict-keeps fuel (remove_entry s last) hash (remove last rest) entry
                  (ap (λ xs. remove last xs) front
                    ∙ remove-front last hash rest (beq_of_ne hash last kept))
                  (omega (arith, less.1)) (remove_entry-Agrees s last there.0 v there.1)
                  (lookup-erase_ne last hash s.by_hash (λ same. kept (sym same)) ∙ found))
        ]
      ]

  -- An entry that is stored in a shard with room for one is found until it expires, whatever was evicted
  -- for it.
  pub load_cached_entry-store_in_shard :
      (s : AuthCacheShard Found) (hash : String) (entry : CacheEntry Found) (now : ℕ)
      → Agrees s
      → 0 < s.max_entries
      → now < entry.until
      → (load_cached_entry (store_in_shard s hash entry) hash now).0 ≡ some entry.found
  unfolding store_in_shard load_cached_entry push_entry
  load_cached_entry-store_in_shard s hash entry now v room live =
      let pushed = push_entry s hash entry in
      let kept =
        evict-keeps (length pushed.recency) pushed hash (without s hash).recency entry refl
          (omega (arith, without-max s hash, room)) (push_entry-Agrees s hash entry v)
          (lookup-insert_self hash entry (without s hash).by_hash) in
      let in_time : ltb now entry.until ≡ true = ground arith in
      rw (kept, load_cached_entry, in_time) refl

  pub store_in_shard-max :
      (s : AuthCacheShard Found) (hash : String) (entry : CacheEntry Found)
      → Agrees s
      → (store_in_shard s hash entry).max_entries ≡ s.max_entries
  unfolding store_in_shard push_entry
  store_in_shard-max s hash entry v =
      (evict-IsValid (length (push_entry s hash entry).recency) (push_entry s hash entry)
        (omega arith) (push_entry-Agrees s hash entry v)).1
      ∙ without-max s hash
