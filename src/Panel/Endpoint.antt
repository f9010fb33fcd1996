-- ===== src/Panel/Endpoint.antt =====
-- internal/panel/auth_protector.go: the token buckets of one public authentication endpoint, one for
-- each client address and some shared ones for when the registry is full.
pub mod Bounds
use grok_search_mcp.Base.{
  ℕ, zero, suc, ◌+◌, ◌-◌, ◌%◌, String, Bool, true, false, ◌&&◌, ◌||◌, not, Option, none, some, List,
  [], ◌∷◌, ltb, leb, eqb, if◌then◌else◌, length, get_elem?, set, replicate, ◌>>=◌,
}
use grok_search_mcp.Base.Keys.{string_key}
use grok_search_mcp.Base.Assoc.{lookup, insert, retain}
use grok_search_mcp.Base.Expiry.{earliest, next_expiry}
use grok_search_mcp.RateLimit.Bucket.{minute}

-- golang.org/x/time/rate with the reservations that this code uses.
pub record ReservingBucket : Type 1 where
  pub Bucket : Type 0
  pub Reservation : Type 0
  -- `rate.NewLimiter(rate.Limit(rpm) / 60, burst)`
  pub new_limiter : ℕ → ℕ → Bucket
  -- `ReserveN(now, n)`
  pub reserve_n : Bucket → ℕ → ℕ → Reservation × Bucket
  -- `OK()`, `DelayFrom(now)` and `CancelAt(now)`
  pub is_ok : Reservation → Bool
  pub delay_from : Reservation → ℕ → ℕ
  pub cancel_at : Reservation → ℕ → Bucket → Bucket

-- `authEndpointLimit`
pub record AuthEndpointLimit : Type 0 where
  pub requests_per_minute : ℕ
  pub burst : ℕ

-- `authRateLimitEntry`
pub record AuthRateLimitEntry (B : Type 0) : Type 0 where
  pub limiter : B
  pub last_seen : ℕ

-- `authEndpointState`
pub record AuthEndpointState (B : Type 0) : Type 0 where
  pub limit_config : AuthEndpointLimit
  pub entries : List (String × AuthRateLimitEntry B)
  pub fallback_limiters : List B
  pub maximum_entries : ℕ
  pub next_expiry_check : ℕ
  pub current_entries : ℕ
  pub dedicated_admissions : ℕ
  pub expired_entries_removed : ℕ
  pub fallback_requests : ℕ
  pub fallback_rejections : ℕ

-- `AuthEndpointMetricsSnapshot`
pub record AuthEndpointMetricsSnapshot : Type 0 where
  pub current_entries : ℕ
  pub maximum_entries : ℕ
  pub fallback_bucket_count : ℕ
  pub dedicated_admissions : ℕ
  pub expired_entries_removed : ℕ
  pub fallback_requests : ℕ
  pub fallback_rejections : ℕ

-- `authRateLimiterIdleTTL`
abbrev pub idle_ttl : ℕ
idle_ttl = 1_800_000_000_000

module _ {B : Type 0} where
  abbrev pub expiry_of : AuthRateLimitEntry B → ℕ
  expiry_of e = e.last_seen + idle_ttl

  -- `authEndpointMetricsSnapshot`; a state that is nil is `none`.
  unfoldable pub auth_endpoint_metrics_snapshot :
      Option (AuthEndpointState B) → AuthEndpointMetricsSnapshot
  auth_endpoint_metrics_snapshot none = record {
    current_entries = 0;
    maximum_entries = 0;
    fallback_bucket_count = 0;
    dedicated_admissions = 0;
    expired_entries_removed = 0;
    fallback_requests = 0;
    fallback_rejections = 0;
  }
  auth_endpoint_metrics_snapshot (some s) = record {
    current_entries = s.current_entries;
    maximum_entries = s.maximum_entries;
    fallback_bucket_count = length s.fallback_limiters;
    dedicated_admissions = s.dedicated_admissions;
    expired_entries_removed = s.expired_entries_removed;
    fallback_requests = s.fallback_requests;
    fallback_rejections = s.fallback_rejections;
  }

  -- `cleanupEndpointLimitersLocked`
  unfoldable pub cleanup_endpoint_limiters : AuthEndpointState B → ℕ → AuthEndpointState B
  cleanup_endpoint_limiters s now =
      let kept = retain (λ e. ltb now (expiry_of e)) s.entries in
      let removed = length s.entries - length kept in
      record s {
        entries = kept;
        next_expiry_check = next_expiry expiry_of kept 0;
        current_entries = s.current_entries - removed;
        expired_entries_removed = s.expired_entries_removed + removed;
      }

  -- The part of `allowAuthRequest` that makes room.
  unfoldable pub make_room : AuthEndpointState B → ℕ → AuthEndpointState B
  make_room s now =
      if leb s.maximum_entries (length s.entries)
        && (eqb s.next_expiry_check 0 || leb s.next_expiry_check now)
      then cleanup_endpoint_limiters s now
      else s

module _ (t : ReservingBucket) where
  open t use {Bucket, new_limiter, reserve_n, is_ok, delay_from, cancel_at}

  -- `newAuthRateLimiter`
  unfoldable pub new_auth_rate_limiter : AuthEndpointLimit → Bucket
  new_auth_rate_limiter c = new_limiter c.requests_per_minute (if ltb c.burst 1 then 1 else c.burst)

  -- `newAuthEndpointState`
  unfoldable pub new_auth_endpoint_state : AuthEndpointLimit → ℕ → ℕ → AuthEndpointState Bucket
  new_auth_endpoint_state c maximum_entries fallback_bucket_count = record {
    limit_config = c;
    entries = [];
    fallback_limiters = replicate fallback_bucket_count (new_auth_rate_limiter c);
    maximum_entries = maximum_entries;
    next_expiry_check = 0;
    current_entries = 0;
    dedicated_admissions = 0;
    expired_entries_removed = 0;
    fallback_requests = 0;
    fallback_rejections = 0;
  }

  -- `reserveAuthRequest`: whether it is allowed, the delay, and the bucket.
  unfoldable pub reserve_auth_request : Bucket → ℕ → Bool × ℕ × Bucket
  reserve_auth_request bucket now =
      let (reservation, used) = reserve_n bucket now 1 in
      if not (is_ok reservation)
      then (false, minute, used)
      else if ltb 0 (delay_from reservation now)
      then (false, delay_from reservation now, cancel_at reservation now used)
      else (true, 0, used)

  -- `allowAuthRequest`, the address has an entry.
  unfoldable pub allow_existing :
      AuthEndpointState Bucket
      → String
      → AuthRateLimitEntry Bucket
      → ℕ
      → Bool × ℕ × AuthEndpointState Bucket
  allow_existing s client_ip e now =
      let (allowed, retry_after, used) = reserve_auth_request e.limiter now in
      (
        allowed,
        retry_after,
        record s {
          entries = insert client_ip (record { limiter = used; last_seen = now }) s.entries;
        },
      )

  -- `allowAuthRequest`, a new address and there is room.
  unfoldable pub admit : AuthEndpointState Bucket → String → ℕ → Bool × ℕ × AuthEndpointState Bucket
  admit s client_ip now =
      let (allowed, retry_after, used) =
        reserve_auth_request (new_auth_rate_limiter s.limit_config) now in
      (
        allowed,
        retry_after,
        record s {
          entries = insert client_ip (record { limiter = used; last_seen = now }) s.entries;
          next_expiry_check = earliest s.next_expiry_check (now + idle_ttl);
          current_entries = s.current_entries + 1;
          dedicated_admissions = s.dedicated_admissions + 1;
        },
      )

  -- `allowAuthRequest` on the state of an endpoint; `hash` is `maphash.String` with the protector's
  -- seed, and `none` is a panic.
  module _ (hash : String → ℕ) where
    -- `fallbackBucketIndexFor`
    unfoldable pub fallback_bucket_index_for : String → ℕ → Option ℕ
    fallback_bucket_index_for key count = if eqb count 0 then none else some (hash key % count)

    unfoldable pub allow_fallback :
        AuthEndpointState Bucket → String → ℕ → Option (Bool × ℕ × AuthEndpointState Bucket)
    allow_fallback s client_ip now = do
      index ← fallback_bucket_index_for client_ip (length s.fallback_limiters)
      bucket ← get_elem? s.fallback_limiters index
      let (allowed, retry_after, used) = reserve_auth_request bucket now
      some (
        allowed,
        retry_after,
        record s {
          fallback_limiters = set s.fallback_limiters index used;
          fallback_requests = s.fallback_requests + 1;
          fallback_rejections = s.fallback_rejections + (if allowed then 0 else 1);
        },
      )

    unfoldable pub allow_at_endpoint :
        AuthEndpointState Bucket → String → ℕ → Option (Bool × ℕ × AuthEndpointState Bucket)
    allow_at_endpoint s client_ip now =
        if eqb s.limit_config.requests_per_minute 0
        then some (true, 0, s)
        else elim (lookup client_ip s.entries) [
          | some e ↦ some (allow_existing s client_ip e now)
          | none ↦
              let room = make_room s now in
              if ltb (length room.entries) room.maximum_entries
              then some (admit room client_ip now)
              else allow_fallback room client_ip now
        ]
