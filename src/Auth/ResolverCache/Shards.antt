-- ===== src/Auth/ResolverCache/Shards.antt =====
-- resolver_cache.go: the map and the list of a shard agree, and a shard stays within its capacity.
use grok_search_mcp.Base.{
  ℕ, suc, ◌≡◌, ◌≤◌, refl, inl, inr, String, Bool, true, false, Option, none, some, ◌∷◌, length, ltb,
  arith, Bool-cases, Option-cases, sym, ◌∙◌,
}
use grok_search_mcp.Base.Keys.{◌==◌, string_key, ne_of_beq}
use grok_search_mcp.Base.Assoc.{
  lookup, insert, Unique, erase-Unique, insert-Unique, lookup-erase_self, lookup-erase_ne,
  length-erase, lookup-insert_self, lookup-insert_ne, length-insert_new,
}
use grok_search_mcp.Auth.ResolverCache.{
  remove, CacheEntry, AuthCacheShard, remove_entry, load_cached_entry, without, push_entry,
}
use grok_search_mcp.Auth.ResolverCache.Recency.{
  occurs, Distinct, occurs-remove_other, occurs-remove_self, remove-Distinct, length-remove,
}

unfoldable pub is_there {ℓ} : {A : Type ℓ} → Option A → Bool
is_there none = false
is_there (some a) = true

module _ {Found : Type 0} where
  -- The list holds the hashes of the map, each once.
  pub record Agrees (s : AuthCacheShard Found) : Type 0 where
    pub unique : Unique s.by_hash
    pub distinct : Distinct s.recency
    pub same_hashes : (hash : String) → occurs hash s.recency ≡ is_there (lookup hash s.by_hash)
    pub same_length : length s.recency ≡ length s.by_hash

  pub record IsValid (s : AuthCacheShard Found) : Type 0 where
    pub agrees : Agrees s
    pub bounded : length s.by_hash ≤ s.max_entries

  there-occurs :
      (s : AuthCacheShard Found) (hash : String) (entry : CacheEntry Found)
      → Agrees s
      → lookup hash s.by_hash ≡ some entry
      → occurs hash s.recency ≡ true
  unfolding is_there
  there-occurs s hash entry v found = v.same_hashes hash ∙ rw found refl

  pub remove_entry-Agrees :
      (s : AuthCacheShard Found) (hash : String) (entry : CacheEntry Found)
      → Agrees s
      → lookup hash s.by_hash ≡ some entry
      → Agrees (remove_entry s hash)
  unfolding remove_entry is_there
  remove_entry-Agrees s hash entry v found = record {
    unique = erase-Unique hash s.by_hash v.unique;
    distinct = remove-Distinct hash s.recency v.distinct;
    same_hashes = λ other. elim (Bool-cases (hash == other)) [
      | inl same ↦
          let equal : hash ≡ other = (string_key.equal_iff hash other).0 same in
          rw
            (
              sym equal,
              occurs-remove_self hash s.recency v.distinct,
              lookup-erase_self hash s.by_hash,
            )
            refl
      | inr different ↦
          rw
            (
              occurs-remove_other hash other s.recency different,
              lookup-erase_ne hash other s.by_hash (ne_of_beq hash other different),
            )
            (v.same_hashes other)
    ];
    same_length = omega (
      arith,
      v.same_length,
      length-remove hash s.recency (there-occurs s hash entry v found),
      length-erase hash entry s.by_hash v.unique found,
    );
  }

  pub remove_entry-length :
      (s : AuthCacheShard Found) (hash : String) (entry : CacheEntry Found)
      → Agrees s
      → lookup hash s.by_hash ≡ some entry
      → (suc (length (remove_entry s hash).by_hash) ≡ length s.by_hash)
        × ((remove_entry s hash).max_entries ≡ s.max_entries)
  unfolding remove_entry
  remove_entry-length s hash entry v found =
      (length-erase hash entry s.by_hash v.unique found, refl)

  -- A hash that is used moves to the front.
  move-Agrees :
      (s : AuthCacheShard Found) (hash : String) (entry : CacheEntry Found)
      → Agrees s
      → lookup hash s.by_hash ≡ some entry
      → Agrees (record s { recency = hash ∷ remove hash s.recency })
  unfolding is_there occurs Distinct
  move-Agrees s hash entry v found = record {
    unique = v.unique;
    distinct =
        (occurs-remove_self hash s.recency v.distinct, remove-Distinct hash s.recency v.distinct);
    same_hashes = λ other. elim (Bool-cases (hash == other)) [
      | inl same ↦
          let equal : hash ≡ other = (string_key.equal_iff hash other).0 same in
          rw (same, sym equal, found) refl
      | inr different ↦
          rw (different, occurs-remove_other hash other s.recency different) (v.same_hashes other)
    ];
    same_length =
        omega
          (arith, v.same_length, length-remove hash s.recency (there-occurs s hash entry v found));
  }

  pub load_cached_entry-IsValid :
      (s : AuthCacheShard Found) (hash : String) (now : ℕ)
      → IsValid s
      → IsValid (load_cached_entry s hash now).1
  unfolding load_cached_entry
  load_cached_entry-IsValid s hash now v = elim (Option-cases (lookup hash s.by_hash)) [
    | inl absent ↦ rw (absent, load_cached_entry) v
    | inr (entry, found) ↦
        let shorter = remove_entry-length s hash entry v.agrees found in
        elim (Bool-cases (ltb now entry.until)) [
          | inl live ↦
              rw (found, load_cached_entry, live)
                (record { agrees = move-Agrees s hash entry v.agrees found; bounded = v.bounded })
          | inr over ↦
              rw (found, load_cached_entry, over)
                (record {
                  agrees = remove_entry-Agrees s hash entry v.agrees found;
                  bounded = omega (arith, shorter.0, shorter.1, v.bounded);
                })
        ]
  ]

  without-Agrees :
      (s : AuthCacheShard Found) (hash : String)
      → Agrees s
      → Agrees (without s hash) × (lookup hash (without s hash).by_hash ≡ none)
  unfolding without remove_entry
  without-Agrees s hash v = elim (Option-cases (lookup hash s.by_hash)) [
    | inl absent ↦ rw (absent, without) (v, absent)
    | inr (entry, found) ↦
        rw (found, without)
          (remove_entry-Agrees s hash entry v found, lookup-erase_self hash s.by_hash)
  ]

  pub without-max :
      (s : AuthCacheShard Found) (hash : String) → (without s hash).max_entries ≡ s.max_entries
  unfolding without remove_entry
  without-max s hash = elim (Option-cases (lookup hash s.by_hash)) [
    | inl absent ↦ rw (absent, without) refl
    | inr (entry, found) ↦ rw (found, without) refl
  ]

  push-Agrees :
      (s : AuthCacheShard Found) (hash : String) (entry : CacheEntry Found)
      → Agrees s
      → lookup hash s.by_hash ≡ none
      → Agrees (record s { by_hash = insert hash entry s.by_hash; recency = hash ∷ s.recency })
  unfolding is_there occurs Distinct
  push-Agrees s hash entry v absent = record {
    unique = insert-Unique hash entry s.by_hash v.unique;
    distinct = (v.same_hashes hash ∙ rw absent refl, v.distinct);
    same_hashes = λ other. elim (Bool-cases (hash == other)) [
      | inl same ↦
          let equal : hash ≡ other = (string_key.equal_iff hash other).0 same in
          rw (same, sym equal, lookup-insert_self hash entry s.by_hash) refl
      | inr different ↦
          rw
            (
              different,
              lookup-insert_ne hash other entry s.by_hash (ne_of_beq hash other different),
            )
            (v.same_hashes other)
    ];
    same_length = omega (arith, v.same_length, length-insert_new hash entry s.by_hash absent);
  }

  pub push_entry-Agrees :
      (s : AuthCacheShard Found) (hash : String) (entry : CacheEntry Found)
      → Agrees s
      → Agrees (push_entry s hash entry)
  unfolding push_entry
  push_entry-Agrees s hash entry v =
      let cleared = without-Agrees s hash v in
      push-Agrees (without s hash) hash entry cleared.0 cleared.1

  pub occurs-there :
      (s : AuthCacheShard Found) (hash : String)
      → Agrees s
      → occurs hash s.recency ≡ true
      → (entry : CacheEntry Found) × (lookup hash s.by_hash ≡ some entry)
  unfolding is_there
  occurs-there s hash v h = elim (Option-cases (lookup hash s.by_hash)) [
    | inr there ↦ there
    | inl absent ↦
        let missing : occurs hash s.recency ≡ false = v.same_hashes hash ∙ rw absent refl in
        absurd (cc)
  ]

  pub load_cached_entry-max :
      (s : AuthCacheShard Found) (hash : String) (now : ℕ)
      → (load_cached_entry s hash now).1.max_entries ≡ s.max_entries
  unfolding load_cached_entry remove_entry
  load_cached_entry-max s hash now = elim (Option-cases (lookup hash s.by_hash)) [
    | inl absent ↦ rw (absent, load_cached_entry) refl
    | inr (entry, found) ↦ elim (Bool-cases (ltb now entry.until)) [
      | inl live ↦ rw (found, load_cached_entry, live) refl
      | inr over ↦ rw (found, load_cached_entry, over) refl
    ]
  ]
