-- ===== src/Panel/Protector/Tests.antt =====
-- The protector on concrete inputs: a bucket is the number of tokens left, a reservation is granted or
-- not.
use grok_search_mcp.Base.{ℕ, ◌-◌, ◌≤◌, ◌≡◌, refl, String, Bool, false, none, some, [], arith, leb}
use grok_search_mcp.Base.Int.{pos, negsuc}
use grok_search_mcp.Base.Keys.{string_key}
use grok_search_mcp.Base.Assoc.{lookup}
use grok_search_mcp.Panel.Failures.{failed, succeeded}
use grok_search_mcp.Panel.Endpoint.{
  ReservingBucket, AuthEndpointState, AuthRateLimitEntry, new_auth_endpoint_state,
}
use grok_search_mcp.Panel.Protector.{
  AuthProtector, AuthProtectorConfig, LoginAttempt, Answer, policy_of, cleanup, complete_attempt,
  by_source, by_username,
}
use grok_search_mcp.Panel.Protector.Admission.{new_auth_protector, begin_login_attempt}
use grok_search_mcp.Panel.Protector.Validity.{IsValid, complete_attempt_once}
use grok_search_mcp.Panel.Protector.Requests.{new_auth_protector-IsValid, begin_login_attempt_total}
use grok_search_mcp.Base.{true, inl, inr, ◌∷◌}
use grok_search_mcp.Base.Int.{positive_or}
use grok_search_mcp.Panel.Failures.{
  LoginFailureEntry, login_failure_entry_expiry, reserve, reserve_new, make_room, retry_after,
}
use grok_search_mcp.Panel.Protector.{
  delayed, reserve_source_failure, pair_reservations, source_answer,
  normalize_bounded_auth_capacity,
}
use grok_search_mcp.Panel.Protector.Admission.{
  after_source, reserve_username_failure, username_answer, login_failure_key,
}
use grok_search_mcp.Panel.Protector.Refusals.{SameFlights, refused_leaves_nothing}

abbrev counting : ReservingBucket
counting = record {
  Bucket = ℕ;
  Reservation = Bool;
  new_limiter = λ rpm burst. burst;
  reserve_n = λ bucket now n. (leb n bucket, bucket - n);
  is_ok = λ r. r;
  delay_from = λ r now. 0;
  cancel_at = λ r now bucket. bucket;
}

abbrev defaults : AuthProtectorConfig
defaults = record {
  login_ip_requests_per_minute = pos 0;
  login_ip_burst = pos 0;
  register_ip_requests_per_minute = pos 0;
  register_ip_burst = pos 0;
  login_failure_threshold = pos 3;
  login_failure_window = pos 0;
  login_base_lockout = pos 0;
  login_max_lockout = negsuc 4;
  login_ip_maximum_entries = pos 0;
  register_ip_maximum_entries = pos 0;
  registration_challenge_ip_maximum_entries = pos 0;
  login_failure_maximum_entries = pos 1;
  username_failure_maximum_entries = pos 1;
  username_failure_fallback_buckets = pos 1;
  password_maximum_concurrent = pos 2;
  auth_endpoint_fallback_buckets = pos 1;
}

abbrev same_name : String → String
same_name s = s

abbrev first_bucket : String → ℕ
first_bucket s = 0

abbrev fresh : AuthProtector ℕ
fresh = new_auth_protector counting same_name first_bucket defaults 100

fresh-IsValid : IsValid fresh
fresh-IsValid = new_auth_protector-IsValid counting same_name first_bucket defaults 100

empty_unseen :
    (client_ip : String) (s s' : AuthEndpointState ℕ) (e : AuthRateLimitEntry ℕ)
    → some s' ≡ some s
    → s'.entries ≡ []
    → lookup client_ip s.entries ≡ some e
    → e.last_seen ≤ 150
unfolding lookup
empty_unseen client_ip s s' e found empty seen =
    let same : s' ≡ s = cc in
    let gone : lookup client_ip s.entries ≡ none = rw (← same, empty) refl in cc

no_address_seen :
    (client_ip : String) (s : AuthEndpointState ℕ) (e : AuthRateLimitEntry ℕ)
    → lookup "login" (cleanup fresh 150).endpoint_states ≡ some s
    → lookup client_ip s.entries ≡ some e
    → e.last_seen ≤ 150
unfolding cleanup new_auth_protector new_auth_endpoint_state lookup
no_address_seen client_ip s e found seen = empty_unseen client_ip s _ e found refl seen

begin_login_attempt_total_example :
    (x : Answer LoginAttempt × AuthProtector ℕ) × (begin_login_attempt counting same_name
        first_bucket fresh "ann" "10.0.0.1" 150
      ≡ some x)
    × IsValid x.1
begin_login_attempt_total_example =
    begin_login_attempt_total counting same_name first_bucket fresh "ann" "10.0.0.1" 150
      (omega arith) fresh-IsValid

abbrev ann_attempt : LoginAttempt
ann_attempt = record {
  source_reservation = by_source "ann" 0;
  username_reservation = by_username "ann" 0;
  completed = false;
}

complete_attempt_once_example :
    IsValid (complete_attempt fresh ann_attempt failed 150).0
    × (complete_attempt
          (complete_attempt fresh ann_attempt failed 150).0
          (complete_attempt fresh ann_attempt failed 150).1
          succeeded
          160
        ≡ complete_attempt fresh ann_attempt failed 150)
complete_attempt_once_example =
    complete_attempt_once fresh ann_attempt failed succeeded 150 160 (omega arith) fresh-IsValid

abbrev address_text : ℕ → String
address_text a = "10.0.0.1"

-- "ann" is locked until 200; the source has not been seen.
abbrev locked_ann : LoginFailureEntry
locked_ann = record {
  id = 0;
  failure_count = 3;
  last_failure = 110;
  locked_until = 200;
  in_flight_attempts = 0;
}

abbrev ann_locked : AuthProtector ℕ
ann_locked = record fresh {
  username_failures = record {
    entries = ("ann", locked_ann) ∷ [];
    next_id = 1;
    maximum_entries = 1;
    next_expiry_check = 200;
    expiry_check_known = true;
    current_entries = 1;
    admissions = 1;
    expired_entries_removed = 0;
    capacity_rejections = 0;
  };
}

ann_locked-IsValid : IsValid ann_locked
unfolding lookup login_failure_entry_expiry new_auth_protector policy_of positive_or
ann_locked-IsValid = record {
  endpoints = fresh-IsValid.endpoints;
  policy = fresh-IsValid.policy;
  failures = fresh-IsValid.failures;
  usernames = record {
    unique = (refl, tt);
    bounded = omega arith;
    counted = refl;
    sound = (
      (inl (omega arith), inr (omega arith, omega arith), inr (omega arith, refl, ground arith)),
      tt,
    );
  };
  has_bucket = fresh-IsValid.has_bucket;
}

abbrev after_refusal : AuthProtector ℕ
after_refusal =
    elim (begin_login_attempt counting same_name first_bucket ann_locked "ann" "10.0.0.1" 150) [
      | none ↦ ann_locked
      | some x ↦ x.1
    ]

ann_refused :
    begin_login_attempt counting same_name first_bucket ann_locked "ann" "10.0.0.1" 150
    ≡ some (delayed 50, after_refusal)
unfolding begin_login_attempt after_source reserve_source_failure reserve_username_failure
    username_answer pair_reservations source_answer cleanup reserve reserve_new make_room
    retry_after new_auth_protector lookup login_failure_key normalize_bounded_auth_capacity
ann_refused = refl

refused_leaves_nothing_example : SameFlights ann_locked after_refusal
refused_leaves_nothing_example =
    refused_leaves_nothing counting same_name first_bucket ann_locked after_refusal "ann" "10.0.0.1"
      150 50 ann_locked-IsValid ann_refused
