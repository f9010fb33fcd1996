-- ===== src/Panel/Protector/Admission.antt =====
-- auth_protector.go: the construction, the requests to an endpoint and the start of a login.
use Prim.Native.String.{◌++◌}
use grok_search_mcp.Base.{
  ℕ, String, Bool, true, Option, none, some, [], ◌∷◌, length, get_elem?, replicate, ◌>>=◌,
}
use grok_search_mcp.Base.Int.{positive_or}
use grok_search_mcp.Base.Keys.{string_key}
use grok_search_mcp.Base.Assoc.{lookup, insert}
use grok_search_mcp.Panel.Failures.{Reserved, reserved, locked, full, reserve, retry_after}
use grok_search_mcp.Panel.Endpoint.{
  ReservingBucket, AuthEndpointLimit, new_auth_endpoint_state, allow_at_endpoint,
  fallback_bucket_index_for,
}
use grok_search_mcp.Panel.Protector.{
  AuthProtectorConfig, AuthProtector, LoginFailureReservation, LoginAttempt, Answer,
  normalize_bounded_auth_capacity, policy_of, new_registry, bucket_entry, cleanup, reserve_bucket,
  reserve_source_failure, pair_reservations, granted, delayed, by_username,
}

-- `normalize` is `strings.ToLower(strings.TrimSpace(_))`, `hash` is `maphash.String` with the
-- protector's seed, and `none` is a panic.
module _ (t : ReservingBucket) (normalize : String → String) (hash : String → ℕ) where
  open t use {Bucket}

  -- `loginFailureKey`
  unfoldable pub login_failure_key : String → String → String
  login_failure_key username client_ip = normalize username ++ "\0" ++ client_ip

  -- `NewAuthProtector`
  unfoldable pub new_auth_protector : AuthProtectorConfig → ℕ → AuthProtector Bucket
  new_auth_protector c now =
      let login_rpm = positive_or c.login_ip_requests_per_minute 30 in
      let register_rpm = positive_or c.register_ip_requests_per_minute 10 in
      let login : AuthEndpointLimit = record {
        requests_per_minute = login_rpm;
        burst = positive_or c.login_ip_burst login_rpm;
      } in
      let register : AuthEndpointLimit = record {
        requests_per_minute = register_rpm;
        burst = positive_or c.register_ip_burst register_rpm;
      } in
      let buckets = normalize_bounded_auth_capacity c.auth_endpoint_fallback_buckets 16 1024 in
      record {
        endpoint_states =
            (
              "login",
              new_auth_endpoint_state t login
                  (normalize_bounded_auth_capacity c.login_ip_maximum_entries 4096 65536) buckets,
            )
            ∷ (
              "register",
              new_auth_endpoint_state t register
                  (normalize_bounded_auth_capacity c.register_ip_maximum_entries 2048 65536)
                  buckets,
            )
            ∷ (
              "registration-challenge",
              new_auth_endpoint_state t register
                  (normalize_bounded_auth_capacity c.registration_challenge_ip_maximum_entries 2048
                    65536)
                  buckets,
            )
            ∷ [];
        policy = policy_of c;
        failures =
            new_registry
              (normalize_bounded_auth_capacity c.login_failure_maximum_entries 8192 131072);
        username_failures =
            new_registry
              (normalize_bounded_auth_capacity c.username_failure_maximum_entries 8192 131072);
        username_failure_fallbacks =
            replicate (normalize_bounded_auth_capacity c.username_failure_fallback_buckets 16 1024)
              none;
        username_failure_fallback_attempts = 0;
        username_failure_fallback_rejections = 0;
        password_maximum_concurrent =
            normalize_bounded_auth_capacity c.password_maximum_concurrent 4 64;
        last_cleanup = now;
      }

  -- `allowAuthRequest`
  unfoldable pub allow_auth_request :
      AuthProtector Bucket → String → String → ℕ → Option (Bool × ℕ × AuthProtector Bucket)
  allow_auth_request p endpoint client_ip now =
      let q = cleanup p now in
      elim (lookup endpoint q.endpoint_states) [
        | none ↦ some (true, 0, q)
        | some s ↦ do
          (allowed, retry_after, s') ← allow_at_endpoint t hash s client_ip now
          some (
            allowed,
            retry_after,
            record q { endpoint_states = insert endpoint s' q.endpoint_states },
          )
      ]

  -- `reserveUsernameFailureLocked`, the registry has no room.
  unfoldable pub reserve_username_bucket :
      AuthProtector Bucket
      → String
      → ℕ
      → Option (Answer LoginFailureReservation × AuthProtector Bucket)
  reserve_username_bucket p username now = do
    index ← fallback_bucket_index_for t hash username (length p.username_failure_fallbacks)
    bucket ← get_elem? p.username_failure_fallbacks index
    some (reserve_bucket p index (bucket_entry index bucket) now)

  -- What `reserveUsernameFailureLocked` makes of the registry's answer.
  unfoldable pub username_answer :
      Reserved
      → AuthProtector Bucket
      → String
      → ℕ
      → Option (Answer LoginFailureReservation × AuthProtector Bucket)
  username_answer (reserved id) p username now = some (granted (by_username username id), p)
  username_answer (locked d) p username now = some (delayed d, p)
  username_answer full p username now = reserve_username_bucket p username now

  -- `reserveUsernameFailureLocked`
  unfoldable pub reserve_username_failure :
      AuthProtector Bucket
      → String
      → ℕ
      → Option (Answer LoginFailureReservation × AuthProtector Bucket)
  reserve_username_failure p username now =
      let (outcome, r) = reserve p.policy p.username_failures username now in
      username_answer outcome (record p { username_failures = r }) username now

  unfoldable pub after_source :
      Answer LoginFailureReservation × AuthProtector Bucket
      → String
      → ℕ
      → Option (Answer LoginAttempt × AuthProtector Bucket)
  after_source (delayed d, p) username now = some (delayed d, p)
  after_source (granted source, p) username now = do
    answer ← reserve_username_failure p (normalize username) now
    some (pair_reservations source now answer)

  -- `beginLoginAttempt`
  unfoldable pub begin_login_attempt :
      AuthProtector Bucket
      → String
      → String
      → ℕ
      → Option (Answer LoginAttempt × AuthProtector Bucket)
  begin_login_attempt p username client_ip now =
      after_source
        (reserve_source_failure (cleanup p now) (login_failure_key username client_ip) now) username
        now
