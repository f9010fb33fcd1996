-- ===== src/RateLimit/Search.antt =====
-- internal/ratelimit/search_concurrency_limiter.go: permits for concurrent searches, globally and
-- for each user. The map holds pointers to its entries and a permit keeps such a pointer, so the
-- entries live on a heap. Each call under the mutex is one step.
pub mod Invariant
pub mod Preservation
pub mod Admission
pub mod Bounds
pub mod Histories
mod Tests
use grok_search_mcp.Base.{
  ℕ, zero, suc, ◌+◌, ◌-◌, String, Bool, true, false, ◌&&◌, not, Option, none, some, List, [], ltb,
  leb, eqb, if◌then◌else◌,
}
use grok_search_mcp.Base.Int.{ℤ, pos, negsuc}
use grok_search_mcp.Base.Keys.{◌==◌, string_key, nat_key}
use grok_search_mcp.Base.Assoc.{lookup, insert, erase, retain}
use grok_search_mcp.Http.{Context, Verdict, forward, reject, service_unavailable}

-- `userConcurrencyEntry`
pub record UserConcurrencyEntry : Type 0 where
  pub active : ℕ
  pub last_seen : ℕ

-- What the closure `release` captures: the user's entry. The user is kept for the statements.
pub record Lease : Type 0 where
  pub user_id : String
  pub entry : ℕ

-- `SearchConcurrencyLimiter`, with its heap of entries and the permits whose `releaseOnce` has not
-- fired.
pub record SearchConcurrencyLimiter : Type 0 where
  pub global_limit : ℕ
  pub per_user_limit : ℕ
  pub global_active : ℕ
  pub entries : List (String × ℕ)
  pub heap : ℕ → UserConcurrencyEntry
  pub next_pointer : ℕ
  pub held : List (ℕ × Lease)
  pub next_lease : ℕ

pub data Acquisition : Type 0 where
  granted : ℕ → Acquisition
  rejected : String → Acquisition

abbrev pub blank : UserConcurrencyEntry
blank = record { active = 0; last_seen = 0 }

abbrev pub update : (ℕ → UserConcurrencyEntry) → ℕ → UserConcurrencyEntry → ℕ → UserConcurrencyEntry
update heap p e q = if eqb p q then e else heap q

-- The checks of `NewSearchConcurrencyLimiter` and `UpdateLimits`: the error, if there is one.
unfoldable pub limits_error : ℤ → ℤ → Option String
limits_error (pos zero) per_user = some "global search concurrency limit must be positive"
limits_error (negsuc n) per_user = some "global search concurrency limit must be positive"
limits_error (pos (suc g)) (pos zero) = some "per-user search concurrency limit must be positive"
limits_error (pos (suc g)) (negsuc n) = some "per-user search concurrency limit must be positive"
limits_error (pos (suc g)) (pos (suc p)) =
    if ltb (suc g) (suc p)
    then some "per-user search concurrency limit must not exceed global limit"
    else none

abbrev pub to_nat : ℤ → ℕ
to_nat (pos n) = n
to_nat (negsuc n) = 0

abbrev pub fresh_limiter : ℕ → ℕ → SearchConcurrencyLimiter
fresh_limiter global per_user = record {
  global_limit = global;
  per_user_limit = per_user;
  global_active = 0;
  entries = [];
  heap = λ p. blank;
  next_pointer = 0;
  held = [];
  next_lease = 0;
}

-- `NewSearchConcurrencyLimiter`: `none` is a panic.
unfoldable pub new_search_concurrency_limiter : ℤ → ℤ → Option SearchConcurrencyLimiter
new_search_concurrency_limiter global per_user = elim (limits_error global per_user) [
  | some message ↦ none
  | none ↦ some (fresh_limiter (to_nat global) (to_nat per_user))
]

-- `UpdateLimits`: the error, if there is one, and the limiter.
unfoldable pub update_limits :
    SearchConcurrencyLimiter → ℤ → ℤ → Option String × SearchConcurrencyLimiter
update_limits l global per_user = elim (limits_error global per_user) [
  | some message ↦ (some message, l)
  | none ↦ (none, record l { global_limit = to_nat global; per_user_limit = to_nat per_user })
]

-- The user's entry, allocated if the map has none.
unfoldable pub entry_for : SearchConcurrencyLimiter → String → ℕ × SearchConcurrencyLimiter
entry_for l user_id = elim (lookup user_id l.entries) [
  | some p ↦ (p, l)
  | none ↦ (
    l.next_pointer,
    record l {
      entries = insert user_id l.next_pointer l.entries;
      heap = update l.heap l.next_pointer blank;
      next_pointer = l.next_pointer + 1;
    },
  )
]

-- `userEntry.lastSeen = now`
unfoldable pub touch : SearchConcurrencyLimiter → ℕ → ℕ → SearchConcurrencyLimiter
touch l p now = record l { heap = update l.heap p (record (l.heap p) { last_seen = now }) }

-- Both counters go up, and a release closure is made.
unfoldable pub grant :
    SearchConcurrencyLimiter → String → ℕ → Acquisition × SearchConcurrencyLimiter
grant l user_id p = (
  granted l.next_lease,
  record l {
    global_active = l.global_active + 1;
    heap = update l.heap p (record (l.heap p) { active = (l.heap p).active + 1 });
    held = insert l.next_lease (record { user_id = user_id; entry = p }) l.held;
    next_lease = l.next_lease + 1;
  },
)

-- `tryAcquire`, behind the global check.
unfoldable pub acquire_for_user :
    SearchConcurrencyLimiter → String → ℕ → Acquisition × SearchConcurrencyLimiter
acquire_for_user l user_id p =
    if leb l.per_user_limit (l.heap p).active
    then (rejected "user search concurrency limit reached", l)
    else grant l user_id p

unfoldable pub try_acquire :
    SearchConcurrencyLimiter → String → ℕ → Acquisition × SearchConcurrencyLimiter
try_acquire l user_id now =
    if leb l.global_limit l.global_active
    then (rejected "global search concurrency limit reached", l)
    else let (p, found) = entry_for l user_id in acquire_for_user (touch found p now) user_id p

-- The closure `release`. A second call finds that `releaseOnce` has fired.
unfoldable pub release : SearchConcurrencyLimiter → ℕ → ℕ → SearchConcurrencyLimiter
release l id now = elim (lookup id l.held) [
  | none ↦ l
  | some lease ↦ record l {
    global_active = l.global_active - 1;
    heap =
        update l.heap lease.entry
          (record { active = (l.heap lease.entry).active - 1; last_seen = now });
    held = erase id l.held;
  }
]

-- `searchConcurrencyEntryIdleTimeout`
abbrev pub entry_idle_timeout : ℕ
entry_idle_timeout = 1_800_000_000_000

-- `cleanupIdleEntries`
unfoldable pub cleanup_idle_entries : SearchConcurrencyLimiter → ℕ → SearchConcurrencyLimiter
cleanup_idle_entries l now = record l {
  entries =
      retain
        (λ p. not (eqb (l.heap p).active 0 && ltb (l.heap p).last_seen (now - entry_idle_timeout)))
        l.entries;
}

-- The start of `Middleware`: what is done with the request, and the permit that `defer release()`
-- gives back when the next handler returns or panics.
unfoldable pub begin_search :
    SearchConcurrencyLimiter
    → Option (String → Bool)
    → Context
    → ℕ
    → Verdict × Option ℕ × SearchConcurrencyLimiter
begin_search l is_search_tool c now = elim c.tool_name [
  | none ↦ (forward, none, l)
  | some name ↦ elim is_search_tool [
    | none ↦ (forward, none, l)
    | some selects ↦
        if name == ""
        then (forward, none, l)
        else if not (selects name)
        then (forward, none, l)
        else elim c.user [
          | none ↦ (forward, none, l)
          | some user ↦
              if user.id == ""
              then (forward, none, l)
              else let (r, l') = try_acquire l user.id now in
                elim r [
                  | granted id ↦ (forward, some id, l')
                  | rejected message ↦ (reject service_unavailable message (some 1), none, l')
                ]
        ]
  ]
]
