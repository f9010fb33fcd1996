-- ===== src/Panel/Protector/Validity.antt =====
-- auth_protector.go: what holds of the protector between two calls.
use grok_search_mcp.Base.{
  ◌≡◌, ◌<◌, refl, inl, inr, arith, length-set, Bool-cases, Option-cases, ℕ, zero, suc, ◌-◌, String,
  List, [], ◌∷◌, ltb, length, get_elem?,
}
use grok_search_mcp.Base.Int.{positive_or-pos, ℤ, pos, negsuc}
use grok_search_mcp.Base.Keys.{string_key}
use grok_search_mcp.Base.Assoc.{AllValues}
use grok_search_mcp.Panel.Failures.{
  LoginFailureEntry, Policy, LoginAttemptOutcome, abandoned, retry_after,
}
use grok_search_mcp.Panel.Endpoint.{AuthEndpointState}
use grok_search_mcp.Panel.Protector.{
  AuthProtectorConfig, AuthProtector, LoginFailureReservation, LoginAttempt, Answer,
  cleanup_interval, normalize_bounded_auth_capacity, policy_of, new_registry, cleanup_endpoints,
  cleanup, complete_failure_reservation, complete_attempt, reserve_bucket, reserve_source_failure,
  pair_reservations, granted, delayed, by_source, by_username, by_fallback,
}
use grok_search_mcp.Panel.Failures.Lockout.{IsPolicy}
use grok_search_mcp.Panel.Failures.Invariant.{
  IsValid as IsRegistry, cleanup-IsValid as cleanup-IsRegistry,
}
use grok_search_mcp.Panel.Failures.Preservation.{reserve-IsValid, complete-IsValid}
use grok_search_mcp.Panel.Endpoint.Bounds.{IsEndpoint, cleanup-IsEndpoint}

-- The endpoints' registries, the two registries of failed logins and the policy are valid, and there is
-- a shared bucket for user names.
pub record IsValid {B : Type 0} (p : AuthProtector B) : Type 0 where
  pub endpoints : AllValues IsEndpoint p.endpoint_states
  pub policy : IsPolicy p.policy
  pub failures : IsRegistry p.policy p.failures
  pub usernames : IsRegistry p.policy p.username_failures
  pub has_bucket : 0 < length p.username_failure_fallbacks

pub normalize-pos :
    (v : ℤ) (fallback maximum : ℕ)
    → 0 < fallback
    → 0 < maximum
    → 0 < normalize_bounded_auth_capacity v fallback maximum
unfolding normalize_bounded_auth_capacity
normalize-pos (negsuc n) fallback maximum f m = f
normalize-pos (pos zero) fallback maximum f m = f
normalize-pos (pos (suc n)) fallback maximum f m = ground arith

-- The policy that the constructor sets is valid whatever the configuration: the maximum lockout is
-- never below the base.
pub policy_of-IsPolicy : (c : AuthProtectorConfig) → IsPolicy (policy_of c)
unfolding policy_of
policy_of-IsPolicy c = record {
  threshold_pos = positive_or-pos c.login_failure_threshold 5 (omega arith);
  window_pos = positive_or-pos c.login_failure_window 900_000_000_000 (omega arith);
  base_pos = positive_or-pos c.login_base_lockout 60_000_000_000 (omega arith);
  ordered = ground arith;
}

pub new_registry-IsRegistry : (p : Policy) (maximum : ℕ) → IsRegistry p (new_registry maximum)
new_registry-IsRegistry p maximum = record {
  unique = tt;
  bounded = omega arith;
  counted = refl;
  sound = tt;
}

module _ {B : Type 0} where
  cleanup_endpoints-valid :
      (now : ℕ) (m : List (String × AuthEndpointState B))
      → AllValues IsEndpoint m
      → AllValues IsEndpoint (cleanup_endpoints now m)
  unfolding cleanup_endpoints
  cleanup_endpoints-valid now [] a = tt
  cleanup_endpoints-valid now ((endpoint, s) ∷ m) a =
      (cleanup-IsEndpoint s now a.0, cleanup_endpoints-valid now m a.1)

  pub cleanup-IsValid : (p : AuthProtector B) (now : ℕ) → IsValid p → IsValid (cleanup p now)
  unfolding cleanup
  cleanup-IsValid p now v = elim (Bool-cases (ltb (now - p.last_cleanup) cleanup_interval)) [
    | inl recent ↦ rw recent v
    | inr due ↦ rw due (record {
      endpoints = cleanup_endpoints-valid now p.endpoint_states v.endpoints;
      policy = v.policy;
      failures = cleanup-IsRegistry p.policy p.failures now v.policy v.failures;
      usernames = cleanup-IsRegistry p.policy p.username_failures now v.policy v.usernames;
      has_bucket = v.has_bucket;
    })
  ]

  pub complete_reservation-IsValid :
      (p : AuthProtector B) (r : LoginFailureReservation) (o : LoginAttemptOutcome) (now : ℕ)
      → 0 < now
      → IsValid p
      → IsValid (complete_failure_reservation p r o now)
  unfolding complete_failure_reservation
  complete_reservation-IsValid p (by_source key id) o now h v = record {
    endpoints = v.endpoints;
    policy = v.policy;
    failures = complete-IsValid p.policy p.failures key id o now h v.failures;
    usernames = v.usernames;
    has_bucket = v.has_bucket;
  }
  complete_reservation-IsValid p (by_username key id) o now h v = record {
    endpoints = v.endpoints;
    policy = v.policy;
    failures = v.failures;
    usernames = complete-IsValid p.policy p.username_failures key id o now h v.usernames;
    has_bucket = v.has_bucket;
  }
  complete_reservation-IsValid p (by_fallback index) o now h v =
      elim (Option-cases (get_elem? p.username_failure_fallbacks index)) [
        | inl gone ↦ rw (gone, complete_failure_reservation) v
        | inr (bucket, found) ↦
            rw (found, complete_failure_reservation)
              (record {
                endpoints = v.endpoints;
                policy = v.policy;
                failures = v.failures;
                usernames = v.usernames;
                has_bucket = rw length-set v.has_bucket;
              })
      ]

  -- At a time other than the zero time, completing an attempt keeps a valid protector valid, and
  -- completing it once more, with whatever outcome, changes nothing.
  pub complete_attempt_once :
      (p : AuthProtector B) (a : LoginAttempt) (o o' : LoginAttemptOutcome) (now later : ℕ)
      → 0 < now
      → IsValid p
      → IsValid (complete_attempt p a o now).0
        × (complete_attempt (complete_attempt p a o now).0 (complete_attempt p a o now).1 o' later
            ≡ complete_attempt p a o now)
  unfolding complete_attempt
  complete_attempt_once p a o o' now later h v = elim (Bool-cases a.completed) [
    | inl done ↦ rw done (v, refl)
    | inr open_still ↦ rw open_still (
      complete_reservation-IsValid (complete_failure_reservation p a.source_reservation o now)
          a.username_reservation o now h
          (complete_reservation-IsValid p a.source_reservation o now h v),
      refl,
    )
  ]

  pub reserve_source-IsValid :
      (p : AuthProtector B) (key : String) (now : ℕ)
      → IsValid p
      → IsValid (reserve_source_failure p key now).1
  unfolding reserve_source_failure
  reserve_source-IsValid p key now v = record {
    endpoints = v.endpoints;
    policy = v.policy;
    failures = reserve-IsValid p.policy p.failures key now v.policy v.failures;
    usernames = v.usernames;
    has_bucket = v.has_bucket;
  }

  pub reserve_bucket-IsValid :
      (p : AuthProtector B) (index : ℕ) (e : LoginFailureEntry) (now : ℕ)
      → IsValid p
      → IsValid (reserve_bucket p index e now).1
  unfolding reserve_bucket
  reserve_bucket-IsValid p index e now v = elim (Bool-cases (ltb 0 (retry_after p.policy e now))) [
    | inl wait ↦ rw wait (record {
      endpoints = v.endpoints;
      policy = v.policy;
      failures = v.failures;
      usernames = v.usernames;
      has_bucket = rw length-set v.has_bucket;
    })
    | inr free ↦ rw free (record {
      endpoints = v.endpoints;
      policy = v.policy;
      failures = v.failures;
      usernames = v.usernames;
      has_bucket = rw length-set v.has_bucket;
    })
  ]

  pub pair_reservations-IsValid :
      (source : LoginFailureReservation) (now : ℕ)
      (answer : Answer LoginFailureReservation × AuthProtector B)
      → 0 < now
      → IsValid answer.1
      → IsValid (pair_reservations source now answer).1
  unfolding pair_reservations
  pair_reservations-IsValid source now (delayed d, p) h v =
      complete_reservation-IsValid p source abandoned now h v
  pair_reservations-IsValid source now (granted username, p) h v = v
