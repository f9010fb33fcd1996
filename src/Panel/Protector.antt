-- ===== src/Panel/Protector.antt =====
-- internal/panel/auth_protector.go: the protector as a whole. A call under its mutex is one step, and a
-- reservation on a token bucket runs right after it. The registration proof is not part of it here.
pub mod Admission
pub mod Validity
pub mod Requests
pub mod Refusals
pub mod Middleware
pub mod Metrics
mod Tests
use Prim.Native.String.{◌++◌}
use grok_search_mcp.Base.{
  ℕ, zero, suc, ◌+◌, ◌-◌, ◌%◌, String, Bool, true, false, ◌&&◌, not, Option, none, some, List, [],
  ◌∷◌, ltb, leb, eqb, if◌then◌else◌, length, get_elem?, set, replicate, ◌>>=◌,
}
use grok_search_mcp.Base.Int.{ℤ, pos, negsuc, positive_or}
use grok_search_mcp.Base.Keys.{string_key}
use grok_search_mcp.Base.Assoc.{lookup, insert}
use grok_search_mcp.RateLimit.Bucket.{minute}
use grok_search_mcp.Panel.Failures.{
  LoginFailureEntry, Policy, Registry, LoginAttemptOutcome, abandoned, failed, succeeded, Reserved,
  reserved, locked, full, reserve, retry_after, with_attempt, complete, settle, cleanup_failures,
}
use grok_search_mcp.Panel.Endpoint.{
  ReservingBucket, AuthEndpointLimit, AuthEndpointState, cleanup_endpoint_limiters,
  new_auth_endpoint_state, allow_at_endpoint, fallback_bucket_index_for,
}

-- `AuthProtectorConfig`, without the resolver and the settings of the registration proof.
pub record AuthProtectorConfig : Type 0 where
  pub login_ip_requests_per_minute : ℤ
  pub login_ip_burst : ℤ
  pub register_ip_requests_per_minute : ℤ
  pub register_ip_burst : ℤ
  pub login_failure_threshold : ℤ
  pub login_failure_window : ℤ
  pub login_base_lockout : ℤ
  pub login_max_lockout : ℤ
  pub login_ip_maximum_entries : ℤ
  pub register_ip_maximum_entries : ℤ
  pub registration_challenge_ip_maximum_entries : ℤ
  pub login_failure_maximum_entries : ℤ
  pub username_failure_maximum_entries : ℤ
  pub username_failure_fallback_buckets : ℤ
  pub password_maximum_concurrent : ℤ
  pub auth_endpoint_fallback_buckets : ℤ

-- `AuthProtector`
pub record AuthProtector (B : Type 0) : Type 0 where
  pub endpoint_states : List (String × AuthEndpointState B)
  pub policy : Policy
  pub failures : Registry
  pub username_failures : Registry
  pub username_failure_fallbacks : List (Option LoginFailureEntry)
  pub username_failure_fallback_attempts : ℕ
  pub username_failure_fallback_rejections : ℕ
  pub password_maximum_concurrent : ℕ
  pub last_cleanup : ℕ

-- `authProtectorCleanupInterval`
abbrev pub cleanup_interval : ℕ
cleanup_interval = 300_000_000_000

-- `normalizeBoundedAuthCapacity`
unfoldable pub normalize_bounded_auth_capacity : ℤ → ℕ → ℕ → ℕ
normalize_bounded_auth_capacity (negsuc n) fallback maximum = fallback
normalize_bounded_auth_capacity (pos zero) fallback maximum = fallback
normalize_bounded_auth_capacity (pos (suc n)) fallback maximum =
    if ltb maximum (suc n) then maximum else suc n

-- The policy that `NewAuthProtector` sets.
unfoldable pub policy_of : AuthProtectorConfig → Policy
policy_of c =
    let base = positive_or c.login_base_lockout 60_000_000_000 in
    let most = positive_or c.login_max_lockout 900_000_000_000 in
    record {
      threshold = positive_or c.login_failure_threshold 5;
      window = positive_or c.login_failure_window 900_000_000_000;
      base_lockout = base;
      max_lockout = if ltb most base then base else most;
    }

abbrev pub new_registry : ℕ → Registry
new_registry maximum_entries = record {
  entries = [];
  next_id = 0;
  maximum_entries = maximum_entries;
  next_expiry_check = 0;
  expiry_check_known = false;
  current_entries = 0;
  admissions = 0;
  expired_entries_removed = 0;
  capacity_rejections = 0;
}

abbrev pub blank_entry : ℕ → LoginFailureEntry
blank_entry id = record {
  id = id;
  failure_count = 0;
  last_failure = 0;
  locked_until = 0;
  in_flight_attempts = 0;
}

-- `loginFailureReservation`
pub data LoginFailureReservation : Type 0 where
  by_source by_username : (key : String) → (id : ℕ) → LoginFailureReservation
  by_fallback : (index : ℕ) → LoginFailureReservation

-- `loginAttempt`; `completed` is what its `sync.Once` remembers.
pub record LoginAttempt : Type 0 where
  pub source_reservation : LoginFailureReservation
  pub username_reservation : LoginFailureReservation
  pub completed : Bool

-- What a reservation ends in, or how long to wait.
pub data Answer (A : Type 0) : Type 0 where
  granted : A → Answer A
  delayed : ℕ → Answer A

-- The entry of `completeFailureReservationLocked` for a shared bucket.
unfoldable pub settle_fallback :
    Policy → Option LoginFailureEntry → LoginAttemptOutcome → ℕ → Option LoginFailureEntry
settle_fallback policy none outcome now = none
settle_fallback policy (some e) outcome now =
    if eqb e.in_flight_attempts 0 then some e else some (settle policy e outcome now)

-- A bucket that is nil is made when it is first used.
abbrev pub bucket_entry : ℕ → Option LoginFailureEntry → LoginFailureEntry
bucket_entry index none = blank_entry index
bucket_entry index (some e) = e

-- A source that finds no room waits a minute.
unfoldable pub source_answer : String → Reserved → Answer LoginFailureReservation
source_answer key (reserved id) = granted (by_source key id)
source_answer key (locked d) = delayed d
source_answer key full = delayed minute

module _ {B : Type 0} where
  unfoldable pub cleanup_endpoints :
      ℕ → List (String × AuthEndpointState B) → List (String × AuthEndpointState B)
  cleanup_endpoints now [] = []
  cleanup_endpoints now ((endpoint, s) ∷ rest) =
      (endpoint, cleanup_endpoint_limiters s now) ∷ cleanup_endpoints now rest

  -- `cleanupLocked`
  unfoldable pub cleanup : AuthProtector B → ℕ → AuthProtector B
  cleanup p now = if ltb (now - p.last_cleanup) cleanup_interval then p else record p {
    last_cleanup = now;
    endpoint_states = cleanup_endpoints now p.endpoint_states;
    failures = cleanup_failures p.policy p.failures now;
    username_failures = cleanup_failures p.policy p.username_failures now;
  }

  -- `completeFailureReservationLocked`
  unfoldable pub complete_failure_reservation :
      AuthProtector B → LoginFailureReservation → LoginAttemptOutcome → ℕ → AuthProtector B
  complete_failure_reservation p (by_source key id) outcome now = record p {
    failures = complete p.policy p.failures key id outcome now;
  }
  complete_failure_reservation p (by_username key id) outcome now = record p {
    username_failures = complete p.policy p.username_failures key id outcome now;
  }
  complete_failure_reservation p (by_fallback index) outcome now =
      elim (get_elem? p.username_failure_fallbacks index) [
        | none ↦ p
        | some bucket ↦ record p {
          username_failure_fallbacks =
              set p.username_failure_fallbacks index (settle_fallback p.policy bucket outcome now);
        }
      ]

  -- `loginAttempt.complete`
  unfoldable pub complete_attempt :
      AuthProtector B → LoginAttempt → LoginAttemptOutcome → ℕ → AuthProtector B × LoginAttempt
  complete_attempt p attempt outcome now = if attempt.completed then (p, attempt) else (
    complete_failure_reservation
        (complete_failure_reservation p attempt.source_reservation outcome now)
        attempt.username_reservation outcome now,
    record attempt { completed = true },
  )

  -- The end of `reserveUsernameFailureLocked`, on a shared bucket.
  unfoldable pub reserve_bucket :
      AuthProtector B → ℕ → LoginFailureEntry → ℕ → Answer LoginFailureReservation × AuthProtector B
  reserve_bucket p index e now =
      let q = record p {
        username_failure_fallback_attempts = p.username_failure_fallback_attempts + 1;
      } in
      if ltb 0 (retry_after p.policy e now)
      then (
        delayed (retry_after p.policy e now),
        record q {
          username_failure_fallbacks = set p.username_failure_fallbacks index (some e);
          username_failure_fallback_rejections = p.username_failure_fallback_rejections + 1;
        },
      )
      else (
        granted (by_fallback index),
        record q {
          username_failure_fallbacks =
              set p.username_failure_fallbacks index (some (with_attempt e));
        },
      )

  -- `reserveSourceFailureLocked`
  unfoldable pub reserve_source_failure :
      AuthProtector B → String → ℕ → Answer LoginFailureReservation × AuthProtector B
  reserve_source_failure p key now =
      let (outcome, r) = reserve p.policy p.failures key now in
      (source_answer key outcome, record p { failures = r })

  -- `beginLoginAttempt` once both reservations have been tried: the second one's delay abandons the
  -- first.
  unfoldable pub pair_reservations :
      LoginFailureReservation
      → ℕ
      → Answer LoginFailureReservation × AuthProtector B
      → Answer LoginAttempt × AuthProtector B
  pair_reservations source now (delayed d, p) =
      (delayed d, complete_failure_reservation p source abandoned now)
  pair_reservations source now (granted username, p) = (
    granted (record {
      source_reservation = source;
      username_reservation = username;
      completed = false;
    }),
    p,
  )
