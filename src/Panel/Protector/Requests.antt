-- ===== src/Panel/Protector/Requests.antt =====
-- auth_protector.go: every call on a valid protector returns and leaves it valid.
use grok_search_mcp.Base.{
  ◌≡◌, ◌<◌, ◌≤◌, refl, inl, inr, arith, length-replicate, Option-cases, ℕ, ◌%◌, String, Bool, false,
  some, eqb, length,
}
use grok_search_mcp.Base.Keys.{string_key}
use grok_search_mcp.Base.Assoc.{lookup, AllValues-insert, AllValues-lookup}
use grok_search_mcp.Panel.Failures.{Reserved, reserved, locked, full, reserve}
use grok_search_mcp.Panel.Endpoint.{ReservingBucket, AuthEndpointState, fallback_bucket_index_for}
use grok_search_mcp.Panel.Protector.{
  AuthProtectorConfig, AuthProtector, LoginFailureReservation, LoginAttempt, Answer, policy_of,
  bucket_entry, cleanup, granted, delayed,
}
use grok_search_mcp.Base.Every.{get_elem?_total}
use grok_search_mcp.Panel.Failures.Preservation.{reserve-IsValid}
use grok_search_mcp.Panel.Endpoint.{AuthRateLimitEntry}
use grok_search_mcp.Panel.Endpoint.Bounds.{
  IsEndpoint, new_auth_endpoint_state-IsEndpoint, allow_at_endpoint_total,
}
use grok_search_mcp.Panel.Protector.Admission.{
  new_auth_protector, allow_auth_request, reserve_username_bucket, username_answer,
  reserve_username_failure, after_source, begin_login_attempt, login_failure_key,
}
use grok_search_mcp.Panel.Protector.Validity.{
  IsValid, normalize-pos, policy_of-IsPolicy, new_registry-IsRegistry, cleanup-IsValid,
  reserve_source-IsValid, reserve_bucket-IsValid, pair_reservations-IsValid,
}

module _ (t : ReservingBucket) (normalize : String → String) (hash : String → ℕ) where
  open t use {Bucket}

  -- Whatever the configuration, the new protector is valid.
  pub new_auth_protector-IsValid :
      (c : AuthProtectorConfig) (now : ℕ) → IsValid (new_auth_protector t normalize hash c now)
  unfolding new_auth_protector
  new_auth_protector-IsValid c now =
      let some_bucket =
        normalize-pos c.auth_endpoint_fallback_buckets 16 1024 (omega arith) (omega arith) in
      record {
        endpoints = (
          new_auth_endpoint_state-IsEndpoint t _ _ _ some_bucket,
          (
            new_auth_endpoint_state-IsEndpoint t _ _ _ some_bucket,
            (new_auth_endpoint_state-IsEndpoint t _ _ _ some_bucket, tt),
          ),
        );
        policy = policy_of-IsPolicy c;
        failures = new_registry-IsRegistry (policy_of c) _;
        usernames = new_registry-IsRegistry (policy_of c) _;
        has_bucket =
            rw length-replicate (
              normalize-pos c.username_failure_fallback_buckets 16 1024 (omega arith)
                (omega arith));
      }

  -- With a clock that does not run backwards, every request to an authentication endpoint is answered
  -- without a panic and leaves a valid protector.
  pub allow_auth_request_total :
      (p : AuthProtector Bucket) (endpoint client_ip : String) (now : ℕ)
      → IsValid p
      → ((s : AuthEndpointState Bucket) (e : AuthRateLimitEntry Bucket)
          → lookup endpoint (cleanup p now).endpoint_states ≡ some s
          → lookup client_ip s.entries ≡ some e
          → e.last_seen ≤ now)
      → (x : Bool × ℕ × AuthProtector Bucket) × (allow_auth_request t normalize hash p endpoint
            client_ip now
          ≡ some x)
        × IsValid x.2
  unfolding allow_auth_request
  allow_auth_request_total p endpoint client_ip now v clock =
      let q = cleanup p now in
      let w = cleanup-IsValid p now v in
      elim (Option-cases (lookup endpoint q.endpoint_states)) [
        | inl unknown ↦ rw (unknown, allow_auth_request) (_, refl, w)
        | inr (s, found) ↦
            let valid =
              AllValues-lookup IsEndpoint endpoint s q.endpoint_states w.endpoints found in
            let (x, call, valid') =
              allow_at_endpoint_total t hash s client_ip now valid (λ e. clock s e found) in
            rw (found, allow_auth_request, call)
              (
                _,
                refl,
                record {
                  endpoints =
                      AllValues-insert IsEndpoint endpoint x.2 q.endpoint_states w.endpoints valid';
                  policy = w.policy;
                  failures = w.failures;
                  usernames = w.usernames;
                  has_bucket = w.has_bucket;
                },
              )
      ]

  reserve_username_bucket_total :
      (p : AuthProtector Bucket) (username : String) (now : ℕ)
      → IsValid p
      → (x : Answer LoginFailureReservation × AuthProtector Bucket) × (reserve_username_bucket t
            normalize hash p username now
          ≡ some x)
        × IsValid x.1
  unfolding reserve_username_bucket fallback_bucket_index_for
  reserve_username_bucket_total p username now v =
      let n = length p.username_failure_fallbacks in
      let (b, found) =
        get_elem?_total p.username_failure_fallbacks (hash username % n)
          (omega (arith, v.has_bucket)) in
      let nonzero : eqb n 0 ≡ false = ground (arith, v.has_bucket) in
      rw (nonzero, found)
        (
          _,
          refl,
          reserve_bucket-IsValid p (hash username % n) (bucket_entry (hash username % n) b) now v,
        )

  username_answer_total :
      (outcome : Reserved) (p : AuthProtector Bucket) (username : String) (now : ℕ)
      → IsValid p
      → (x : Answer LoginFailureReservation × AuthProtector Bucket) × (username_answer t normalize
            hash outcome p username now
          ≡ some x)
        × IsValid x.1
  unfolding username_answer
  username_answer_total (reserved id) p username now v = (_, refl, v)
  username_answer_total (locked d) p username now v = (_, refl, v)
  username_answer_total full p username now v = reserve_username_bucket_total p username now v

  reserve_username_total :
      (p : AuthProtector Bucket) (username : String) (now : ℕ)
      → IsValid p
      → (x : Answer LoginFailureReservation × AuthProtector Bucket) × (reserve_username_failure t
            normalize hash p username now
          ≡ some x)
        × IsValid x.1
  unfolding reserve_username_failure
  reserve_username_total p username now v =
      username_answer_total (reserve p.policy p.username_failures username now).0 _ username now
        (record {
          endpoints = v.endpoints;
          policy = v.policy;
          failures = v.failures;
          usernames =
              reserve-IsValid p.policy p.username_failures username now v.policy v.usernames;
          has_bucket = v.has_bucket;
        })

  after_source_total :
      (answer : Answer LoginFailureReservation × AuthProtector Bucket) (username : String) (now : ℕ)
      → 0 < now
      → IsValid answer.1
      → (x : Answer LoginAttempt × AuthProtector Bucket) × (after_source t normalize hash answer
            username now
          ≡ some x)
        × IsValid x.1
  unfolding after_source
  after_source_total (delayed d, p) username now h v = (_, refl, v)
  after_source_total (granted source, p) username now h v =
      let (x, call, valid) = reserve_username_total p (normalize username) now v in
      rw call (_, refl, pair_reservations-IsValid source now x h valid)

  -- On a valid protector, and at a time other than the zero time, the start of every login returns
  -- without a panic and leaves a valid protector, whether both registries admit it, one of them
  -- refuses, or the user name falls back to a shared bucket.
  pub begin_login_attempt_total :
      (p : AuthProtector Bucket) (username client_ip : String) (now : ℕ)
      → 0 < now
      → IsValid p
      → (x : Answer LoginAttempt × AuthProtector Bucket) × (begin_login_attempt t normalize hash p
            username client_ip now
          ≡ some x)
        × IsValid x.1
  unfolding begin_login_attempt
  begin_login_attempt_total p username client_ip now h v = after_source_total _ username now h (
      reserve_source-IsValid (cleanup p now) (login_failure_key t normalize hash username client_ip)
        now (cleanup-IsValid p now v))
