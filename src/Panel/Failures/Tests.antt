-- ===== src/Panel/Failures/Tests.antt =====
-- The registries of failed logins on concrete inputs.
use grok_search_mcp.Base.{
  ℕ, ◌≤◌, ◌<◌, ◌≡◌, refl, inl, inr, true, [], ◌∷◌, arith, leb, length, if◌then◌else◌,
}
use grok_search_mcp.Base.Keys.{string_key}
use grok_search_mcp.Base.Assoc.{lookup, retain}
use grok_search_mcp.Panel.Failures.{
  LoginFailureEntry, Policy, Registry, failed, lockout_duration_for_failures, excess_failures,
  scaled_lockout, reserve, complete, cleanup_failures, stays, make_room, locked,
}
use grok_search_mcp.Panel.Failures.Lockout.{IsPolicy, lockout_bounds, failure_locks}
use grok_search_mcp.Panel.Failures.Invariant.{IsValid, failures_make_room_exact}
use grok_search_mcp.Base.{false}
use grok_search_mcp.Panel.Failures.{reserved, reserve_new}
use grok_search_mcp.Panel.Failures.Balance.{in_flight, attempt_balance}

-- Two failures lock, for 10 at first and 35 at most.
abbrev policy : Policy
policy = record { threshold = 2; window = 100; base_lockout = 10; max_lockout = 35 }

policy-IsPolicy : IsPolicy policy
policy-IsPolicy = record {
  threshold_pos = omega arith;
  window_pos = omega arith;
  base_pos = omega arith;
  ordered = omega arith;
}

lockout_doubles : lockout_duration_for_failures policy 3 ≡ 20
unfolding lockout_duration_for_failures excess_failures scaled_lockout
lockout_doubles = refl

lockout_capped : lockout_duration_for_failures policy 4 ≡ 35
unfolding lockout_duration_for_failures excess_failures scaled_lockout
lockout_capped = refl

-- One failed login of "ann", and one in flight.
abbrev ann : LoginFailureEntry
ann = record {
  id = 0;
  failure_count = 1;
  last_failure = 50;
  locked_until = 0;
  in_flight_attempts = 1;
}

abbrev registry : Registry
registry = record {
  entries = ("ann", ann) ∷ [];
  next_id = 1;
  maximum_entries = 1;
  next_expiry_check = 0;
  expiry_check_known = true;
  current_entries = 1;
  admissions = 1;
  expired_entries_removed = 0;
  capacity_rejections = 0;
}

registry-IsValid : IsValid policy registry
unfolding lookup
registry-IsValid = record {
  unique = (refl, tt);
  bounded = omega arith;
  counted = refl;
  sound = ((inl (omega arith), inr (omega arith, omega arith), inl (omega arith)), tt);
}

lockout_bounds_example :
    (policy.base_lockout ≤ lockout_duration_for_failures policy 7)
    × (lockout_duration_for_failures policy 7 ≤ policy.max_lockout)
lockout_bounds_example = lockout_bounds policy 7 policy-IsPolicy

-- The second failure, at 60, locks until 70.
failure_locks_example :
    (d : ℕ) × ((reserve policy
        (cleanup_failures policy (complete policy registry "ann" 0 failed 60) 65)
        "ann"
        69).0
      ≡ locked d)
    × (0 < d)
unfolding lookup
failure_locks_example =
    failure_locks policy registry "ann" ann 60 65 69 policy-IsPolicy refl (omega arith)
      (omega arith) (omega arith) (omega arith) (omega arith)

failures_make_room_exact_example : (make_room policy registry 60).entries ≡ (
    if leb registry.maximum_entries (length registry.entries)
    then retain (stays policy 60) registry.entries
    else registry.entries)
failures_make_room_exact_example =
    failures_make_room_exact policy registry 60 policy-IsPolicy registry-IsValid

abbrev idle_registry : Registry
idle_registry = record {
  entries = [];
  next_id = 0;
  maximum_entries = 1;
  next_expiry_check = 0;
  expiry_check_known = false;
  current_entries = 0;
  admissions = 0;
  expired_entries_removed = 0;
  capacity_rejections = 0;
}

idle-IsValid : IsValid policy idle_registry
idle-IsValid = record { unique = tt; bounded = omega arith; counted = refl; sound = tt }

-- "ann" tries: her attempt is admitted, fails, and none is left in flight.
attempt_admitted : (reserve policy idle_registry "ann" 60).0 ≡ reserved 0
unfolding reserve reserve_new make_room lookup
attempt_admitted = refl

attempt_balance_example :
    in_flight (complete policy (reserve policy idle_registry "ann" 60).1 "ann" 0 failed 61).entries
    ≡ in_flight idle_registry.entries
attempt_balance_example =
    attempt_balance policy idle_registry "ann" 0 failed 60 61 policy-IsPolicy idle-IsValid
      attempt_admitted
