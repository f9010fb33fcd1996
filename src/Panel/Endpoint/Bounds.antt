-- ===== src/Panel/Endpoint/Bounds.antt =====
-- auth_protector.go: what holds of an endpoint's registry between two requests.
use grok_search_mcp.Base.{
  ℕ, ◌+◌, ◌%◌, ◌≤◌, ◌<◌, ◌≡◌, refl, inl, inr, String, Bool, false, ◌&&◌, ◌||◌, none, some, arith,
  ltb, leb, eqb, ltb→lt, if◌then◌else◌, length, length-set, length-replicate, Option-cases,
  Bool-cases,
}
use grok_search_mcp.Base.Keys.{string_key}
use grok_search_mcp.Base.Assoc.{
  lookup, retain, AllValues-insert, AllValues-lookup, insert-Unique, length-insert_old,
  lookup-retain-none,
}
use grok_search_mcp.Base.Expiry.{Tracked}
use grok_search_mcp.Base.Every.{get_elem?_total}
use grok_search_mcp.Base.Registry.{IsKept, retain-IsKept, insert_new-IsKept, retain_early}
use grok_search_mcp.Panel.Endpoint.{
  ReservingBucket, AuthEndpointLimit, AuthEndpointState, AuthRateLimitEntry, idle_ttl, expiry_of,
  cleanup_endpoint_limiters, make_room, new_auth_endpoint_state, allow_existing, admit,
  reserve_auth_request, new_auth_rate_limiter, fallback_bucket_index_for, allow_fallback,
  allow_at_endpoint,
}

-- The registry is within its capacity, counts its entries, and its next expiry check is no later than
-- any expiry; there is a shared bucket.
pub record IsEndpoint {B : Type 0} (s : AuthEndpointState B) : Type 0 where
  pub kept : IsKept expiry_of s.entries s.maximum_entries s.current_entries s.next_expiry_check
  pub has_fallback : 0 < length s.fallback_limiters

module _ {B : Type 0} where
  pub cleanup-IsEndpoint :
      (s : AuthEndpointState B) (now : ℕ)
      → IsEndpoint s
      → IsEndpoint (cleanup_endpoint_limiters s now)
  unfolding cleanup_endpoint_limiters
  cleanup-IsEndpoint s now v = record {
    kept =
        retain-IsKept expiry_of s.entries s.maximum_entries s.current_entries s.next_expiry_check
          (λ e. ltb now (expiry_of e)) (λ e. omega arith) v.kept;
    has_fallback = v.has_fallback;
  }

  make_room-IsEndpoint :
      (s : AuthEndpointState B) (now : ℕ) → IsEndpoint s → IsEndpoint (make_room s now)
  unfolding make_room
  make_room-IsEndpoint s now v =
      elim (Bool-cases (
        leb s.maximum_entries (length s.entries)
        && (eqb s.next_expiry_check 0 || leb s.next_expiry_check now))) [
          | inl cleans ↦ rw cleans (cleanup-IsEndpoint s now v)
          | inr skips ↦ rw skips v
        ]

  make_room-absent :
      (s : AuthEndpointState B) (client_ip : String) (now : ℕ)
      → lookup client_ip s.entries ≡ none
      → lookup client_ip (make_room s now).entries ≡ none
  unfolding make_room cleanup_endpoint_limiters
  make_room-absent s client_ip now h =
      ground (arith, lookup-retain-none client_ip (λ e. ltb now (expiry_of e)) s.entries h)

  -- At capacity, making room removes exactly the entries that have been idle for the whole limit, also
  -- where the expiry check lets it skip the scan; below capacity it removes nothing.
  pub endpoint_make_room_exact :
      (s : AuthEndpointState B) (now : ℕ)
      → IsEndpoint s
      → (make_room s now).entries ≡ (
          if leb s.maximum_entries (length s.entries)
          then retain (λ e. ltb now (expiry_of e)) s.entries
          else s.entries)
  unfolding make_room cleanup_endpoint_limiters
  endpoint_make_room_exact s now v = elim (Bool-cases (leb s.next_expiry_check now)) [
    | inl due ↦ ground arith
    | inr ahead ↦
        let same =
          retain_early expiry_of s.entries s.maximum_entries s.current_entries s.next_expiry_check
            (λ e. ltb now (expiry_of e)) (λ e h. ground arith) v.kept in
        ground (arith, same)
  ]

module _ (t : ReservingBucket) where
  open t use {Bucket}

  pub new_auth_endpoint_state-IsEndpoint :
      (c : AuthEndpointLimit) (maximum fallbacks : ℕ)
      → 0 < fallbacks
      → IsEndpoint (new_auth_endpoint_state t c maximum fallbacks)
  unfolding new_auth_endpoint_state
  new_auth_endpoint_state-IsEndpoint c maximum fallbacks h = record {
    kept = record { unique = tt; bounded = omega arith; counted = refl; tracked = tt };
    has_fallback = rw length-replicate h;
  }

  -- A later time for an entry leaves the next check no later than its expiry.
  allow_existing-IsEndpoint :
      (s : AuthEndpointState Bucket) (client_ip : String) (e : AuthRateLimitEntry Bucket) (now : ℕ)
      → IsEndpoint s
      → lookup client_ip s.entries ≡ some e
      → e.last_seen ≤ now
      → IsEndpoint (allow_existing t s client_ip e now).2
  unfolding allow_existing
  allow_existing-IsEndpoint s client_ip e now v found h =
      let x : AuthRateLimitEntry Bucket = record {
        limiter = (reserve_auth_request t e.limiter now).2;
        last_seen = now;
      } in
      let same = length-insert_old client_ip x e s.entries found in
      let due : AuthRateLimitEntry Bucket → Type 0 =
        λ y. Tracked s.next_expiry_check (expiry_of y) in
      let known : Tracked s.next_expiry_check (expiry_of e) =
        AllValues-lookup due client_ip e s.entries v.kept.tracked found in
      record {
        kept = record {
          unique = insert-Unique client_ip x s.entries v.kept.unique;
          bounded = omega (arith, same, v.kept.bounded);
          counted = omega (arith, same, v.kept.counted);
          tracked =
              AllValues-insert due client_ip x s.entries v.kept.tracked
                (known.0, omega (arith, known.1, h));
        };
        has_fallback = v.has_fallback;
      }

  admit-IsEndpoint :
      (s : AuthEndpointState Bucket) (client_ip : String) (now : ℕ)
      → IsEndpoint s
      → lookup client_ip s.entries ≡ none
      → length s.entries < s.maximum_entries
      → IsEndpoint (admit t s client_ip now).2
  unfolding admit
  admit-IsEndpoint s client_ip now v absent room = record {
    kept =
        insert_new-IsKept expiry_of s.entries s.maximum_entries s.current_entries
          s.next_expiry_check client_ip
          (record {
            limiter = (reserve_auth_request t (new_auth_rate_limiter t s.limit_config) now).2;
            last_seen = now;
          })
          (now + idle_ttl) absent room refl (omega arith) v.kept;
    has_fallback = v.has_fallback;
  }

  module _ (hash : String → ℕ) where
    allow_fallback_total :
        (s : AuthEndpointState Bucket) (client_ip : String) (now : ℕ)
        → IsEndpoint s
        → (x : Bool × ℕ × AuthEndpointState Bucket) × (allow_fallback t hash s client_ip now
            ≡ some x)
          × IsEndpoint x.2
    unfolding allow_fallback fallback_bucket_index_for
    allow_fallback_total s client_ip now v =
        let n = length s.fallback_limiters in
        let (b, found) =
          get_elem?_total s.fallback_limiters (hash client_ip % n)
            (omega (arith, v.has_fallback)) in
        let nonzero : eqb n 0 ≡ false = ground (arith, v.has_fallback) in
        rw (nonzero, found)
          (_, refl, record { kept = v.kept; has_fallback = rw length-set v.has_fallback })

    -- With a clock that does not run backwards, every request to an endpoint is answered without a panic
    -- and leaves its registry valid.
    pub allow_at_endpoint_total :
        (s : AuthEndpointState Bucket) (client_ip : String) (now : ℕ)
        → IsEndpoint s
        → ((e : AuthRateLimitEntry Bucket)
            → lookup client_ip s.entries ≡ some e
            → e.last_seen ≤ now)
        → (x : Bool × ℕ × AuthEndpointState Bucket) × (allow_at_endpoint t hash s client_ip now
            ≡ some x)
          × IsEndpoint x.2
    unfolding allow_at_endpoint
    allow_at_endpoint_total s client_ip now v clock =
        elim (Bool-cases (eqb s.limit_config.requests_per_minute 0)) [
          | inl unlimited ↦ rw unlimited (_, refl, v)
          | inr limited ↦ elim (Option-cases (lookup client_ip s.entries)) [
            | inr (e, found) ↦
                rw (limited, found, allow_at_endpoint)
                  (_, refl, allow_existing-IsEndpoint s client_ip e now v found (clock e found))
            | inl absent ↦
                let room = make_room s now in
                let valid = make_room-IsEndpoint s now v in
                elim (Bool-cases (ltb (length room.entries) room.maximum_entries)) [
                  | inl free ↦
                      rw (limited, absent, allow_at_endpoint, free)
                        (
                          _,
                          refl,
                          admit-IsEndpoint room client_ip now valid
                              (make_room-absent s client_ip now absent) (ltb→lt _ _ free),
                        )
                  | inr full ↦
                      rw (limited, absent, allow_at_endpoint, full)
                        (allow_fallback_total room client_ip now valid)
                ]
          ]
        ]
