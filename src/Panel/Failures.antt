-- ===== src/Panel/Failures.antt =====
-- internal/panel/auth_protector.go: the registries of failed logins, one keyed by user name and
-- address and one by user name. Times are nanoseconds, and 0 is the zero `time.Time`. An entry's `id`
-- tells apart two entries that a key had at different times, as the pointers of the source do: a
-- reservation whose entry has left the map changes nothing.
pub mod Lockout
pub mod Invariant
pub mod Preservation
pub mod Balance
mod Tests
use grok_search_mcp.Base.{
  ℕ, zero, suc, ◌+◌, ◌-◌, ◌*◌, ◌/◌, ◌^◌, String, Bool, true, false, ◌&&◌, ◌||◌, not, Option, none,
  some, List, [], ◌∷◌, ltb, leb, eqb, if◌then◌else◌, length,
}
use grok_search_mcp.Base.Keys.{string_key}
use grok_search_mcp.Base.Assoc.{lookup, insert, erase, retain}
use grok_search_mcp.RateLimit.Bucket.{minute}

-- `loginFailureEntry`
pub record LoginFailureEntry : Type 0 where
  pub id : ℕ
  pub failure_count : ℕ
  pub last_failure : ℕ
  pub locked_until : ℕ
  pub in_flight_attempts : ℕ

-- The settings of `AuthProtector` that rule the lockout.
pub record Policy : Type 0 where
  pub threshold : ℕ
  pub window : ℕ
  pub base_lockout : ℕ
  pub max_lockout : ℕ

-- The fields of `AuthProtector` for one of its two registries.
pub record Registry : Type 0 where
  pub entries : List (String × LoginFailureEntry)
  pub next_id : ℕ
  pub maximum_entries : ℕ
  pub next_expiry_check : ℕ
  pub expiry_check_known : Bool
  pub current_entries : ℕ
  pub admissions : ℕ
  pub expired_entries_removed : ℕ
  pub capacity_rejections : ℕ

pub data LoginAttemptOutcome : Type 0 where
  abandoned failed succeeded : LoginAttemptOutcome

-- The failures beyond the threshold, at most eight.
unfoldable pub excess_failures : Policy → ℕ → ℕ
excess_failures p failure_count =
    if ltb 8 (failure_count - p.threshold) then 8 else failure_count - p.threshold

-- The base doubled once for each, unless that exceeds the maximum.
unfoldable pub scaled_lockout : Policy → ℕ → ℕ
scaled_lockout p excess =
    if ltb (p.max_lockout / 2 ^ excess) p.base_lockout
    then p.max_lockout
    else p.base_lockout * 2 ^ excess

-- `lockoutDurationForFailures`
unfoldable pub lockout_duration_for_failures : Policy → ℕ → ℕ
lockout_duration_for_failures p failure_count = scaled_lockout p (excess_failures p failure_count)

-- `loginFailureEntryExpiry`
unfoldable pub login_failure_entry_expiry : LoginFailureEntry → ℕ → ℕ
login_failure_entry_expiry e window =
    let expiry : ℕ = if eqb e.last_failure 0 then 0 else e.last_failure + window in
    if ltb expiry e.locked_until then e.locked_until else expiry

-- `reserveExistingFailureEntryLocked`: the delay, 0 if the attempt is admitted.
unfoldable pub retry_after : Policy → LoginFailureEntry → ℕ → ℕ
retry_after p e now =
    if ltb now e.locked_until
    then e.locked_until - now
    else if ltb 0 e.in_flight_attempts && leb p.threshold (e.failure_count + e.in_flight_attempts)
    then minute
    else 0

abbrev pub with_attempt : LoginFailureEntry → LoginFailureEntry
with_attempt e = record e { in_flight_attempts = e.in_flight_attempts + 1 }

abbrev pub first_attempt : ℕ → LoginFailureEntry
first_attempt id = record {
  id = id;
  failure_count = 0;
  last_failure = 0;
  locked_until = 0;
  in_flight_attempts = 1;
}

-- The test of the two clean-up loops: the entry stays.
unfoldable pub stays : Policy → ℕ → LoginFailureEntry → Bool
stays p now e = not (
    eqb e.in_flight_attempts 0
    && (eqb e.last_failure 0 || leb (e.last_failure + p.window) now)
    && leb e.locked_until now)

-- The next check and whether it is known, after the loop has passed one more entry that stays.
unfoldable pub scan_step : Policy → LoginFailureEntry → ℕ × Bool → ℕ × Bool
scan_step p e (next, known) =
    let expiry : ℕ = login_failure_entry_expiry e p.window in
    if eqb e.in_flight_attempts 0 && not (eqb expiry 0) && (not known || ltb expiry next)
    then (expiry, true)
    else (next, known)

unfoldable pub scan_expiry : Policy → List (String × LoginFailureEntry) → ℕ × Bool → ℕ × Bool
scan_expiry p [] acc = acc
scan_expiry p ((k, e) ∷ m) acc = scan_expiry p m (scan_step p e acc)

-- `cleanupLoginFailuresLocked`; `cleanupUsernameFailuresLocked` is the same on its registry.
unfoldable pub cleanup_failures : Policy → Registry → ℕ → Registry
cleanup_failures p r now =
    let kept = retain (stays p now) r.entries in
    let (next, known) = scan_expiry p kept (0, false) in
    let removed = length r.entries - length kept in
    record r {
      entries = kept;
      next_expiry_check = next;
      expiry_check_known = known;
      current_entries = r.current_entries - removed;
      expired_entries_removed = r.expired_entries_removed + removed;
    }

-- The next check and whether it is known, after an expiry has been recorded.
unfoldable pub expiry_step : ℕ → ℕ × Bool → ℕ × Bool
expiry_step expiry (next, known) =
    if eqb expiry 0
    then (next, known)
    else if not known || ltb expiry next
    then (expiry, true)
    else (next, known)

-- `recordLoginFailureExpiryLocked`; `recordUsernameFailureExpiryLocked` is the same.
unfoldable pub record_failure_expiry : Policy → Registry → LoginFailureEntry → Registry
record_failure_expiry p r e =
    let (next, known) =
      expiry_step (login_failure_entry_expiry e p.window)
        (r.next_expiry_check, r.expiry_check_known) in
    record r { next_expiry_check = next; expiry_check_known = known }

-- Room is made at capacity, unless nothing can have expired.
unfoldable pub make_room : Policy → Registry → ℕ → Registry
make_room p r now =
    if leb r.maximum_entries (length r.entries)
      && (r.expiry_check_known && leb r.next_expiry_check now)
    then cleanup_failures p r now
    else r

-- How a reservation ends: the entry's id, a delay, or no room for a new entry.
pub data Reserved : Type 0 where
  reserved : ℕ → Reserved
  locked : ℕ → Reserved
  full : Reserved

-- `reserveSourceFailureLocked`, and the common part of `reserveUsernameFailureLocked`.
unfoldable pub reserve_new : Registry → String → Reserved × Registry
reserve_new r key =
    if leb r.maximum_entries (length r.entries)
    then (full, record r { capacity_rejections = r.capacity_rejections + 1 })
    else (
      reserved r.next_id,
      record r {
        entries = insert key (first_attempt r.next_id) r.entries;
        next_id = r.next_id + 1;
        current_entries = r.current_entries + 1;
        admissions = r.admissions + 1;
      },
    )

unfoldable pub reserve : Policy → Registry → String → ℕ → Reserved × Registry
reserve p r key now = elim (lookup key r.entries) [
  | some e ↦
      if ltb 0 (retry_after p e now)
      then (locked (retry_after p e now), r)
      else (reserved e.id, record r { entries = insert key (with_attempt e) r.entries })
  | none ↦ reserve_new (make_room p r now) key
]

-- The outcome of an attempt on its entry: the `switch` of `completeFailureReservationLocked`.
unfoldable pub count_failure : Policy → LoginFailureEntry → ℕ → LoginFailureEntry
count_failure p e now =
    let window_expired : Bool = not (eqb e.last_failure 0) && leb (e.last_failure + p.window) now in
    let count : ℕ = if window_expired then 1 else e.failure_count + 1 in
    let still_locked : ℕ = if window_expired then 0 else e.locked_until in
    record e {
      failure_count = count;
      last_failure = now;
      locked_until =
          if leb p.threshold count
          then now + lockout_duration_for_failures p count
          else still_locked;
    }

unfoldable pub settle : Policy → LoginFailureEntry → LoginAttemptOutcome → ℕ → LoginFailureEntry
settle p e abandoned now = record e { in_flight_attempts = e.in_flight_attempts - 1 }
settle p e failed now =
    count_failure p (record e { in_flight_attempts = e.in_flight_attempts - 1 }) now
settle p e succeeded now = record e {
  in_flight_attempts = e.in_flight_attempts - 1;
  failure_count = 0;
  last_failure = 0;
  locked_until = 0;
}

-- The settled entry goes back into the map, leaves it, or has its expiry recorded.
unfoldable pub store_settled : Policy → Registry → String → LoginFailureEntry → ℕ → Registry
store_settled p r key e now =
    if eqb e.in_flight_attempts 0 && eqb e.failure_count 0 && leb e.locked_until now
    then record r { entries = erase key r.entries; current_entries = r.current_entries - 1 }
    else let stored = record r { entries = insert key e r.entries } in
      if eqb e.in_flight_attempts 0 then record_failure_expiry p stored e else stored

-- `completeFailureReservationLocked`, for a reservation in a registry.
unfoldable pub complete : Policy → Registry → String → ℕ → LoginAttemptOutcome → ℕ → Registry
complete p r key id outcome now = elim (lookup key r.entries) [
  | none ↦ r
  | some e ↦
      if not (eqb e.id id) || eqb e.in_flight_attempts 0
      then r
      else store_settled p r key (settle p e outcome now) now
]
