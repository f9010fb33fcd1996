-- ===== src/RateLimit/User.antt =====
-- internal/ratelimit/user_limiter.go: the registry of token buckets, one for each user. Times are
-- nanoseconds and 0 is the zero `time.Time`. A call under the mutex is one step; `AllowN`, which runs
-- on the bucket after the unlock, is part of that step.
pub mod Bounds
pub mod Sharing
pub mod Middleware
pub mod Tests
pub mod Expiry
use grok_search_mcp.Base.{
  ℕ, zero, suc, ◌+◌, ◌-◌, ◌/◌, ◌%◌, String, Bool, ◌&&◌, ◌||◌, Option, none, some, List, [], ltb,
  leb, eqb, if◌then◌else◌, length, get_elem?, set, replicate, ◌>>=◌,
}
use grok_search_mcp.Base.Int.{ℤ, positive_or, at_most}
use grok_search_mcp.Base.Keys.{string_key}
use grok_search_mcp.Base.Assoc.{lookup, insert, retain}
use grok_search_mcp.Base.Expiry.{earliest, next_expiry}
use grok_search_mcp.RateLimit.Bucket.{TokenBucket, minute}

-- `entry`
pub record UserEntry (B : Type 0) : Type 0 where
  pub limiter : B
  pub rpm : ℕ
  pub last_seen : ℕ

-- `userLimiterFallbackBucket`; no limiter is `nil`.
pub record FallbackBucket (B : Type 0) : Type 0 where
  pub limiter : Option B
  pub rpm : ℕ
  pub last_seen : ℕ

-- `UserLimiterConfig`
pub record UserLimiterConfig : Type 0 where
  pub maximum_entries : ℤ
  pub fallback_bucket_count : ℤ
  pub entry_idle_ttl : ℤ
  pub cleanup_interval : ℤ

-- `UserLimiter`, without its mutex, hash seed and channels.
pub record UserLimiter (B : Type 0) : Type 0 where
  pub entries : List (String × UserEntry B)
  pub fallback_buckets : List (FallbackBucket B)
  pub maximum_entries : ℕ
  pub entry_idle_ttl : ℕ
  pub next_expiry_check : ℕ
  pub current_entries : ℕ
  pub dedicated_admissions : ℕ
  pub expired_entries : ℕ
  pub fallback_requests : ℕ
  pub fallback_rejections : ℕ
  pub cleanup_interval : ℕ

-- `UserLimiterMetricsSnapshot`
pub record UserLimiterMetricsSnapshot : Type 0 where
  pub current_entries : ℕ
  pub maximum_entries : ℕ
  pub fallback_bucket_count : ℕ
  pub dedicated_admissions : ℕ
  pub expired_entries_removed : ℕ
  pub fallback_requests : ℕ
  pub fallback_rejections : ℕ

module _ {B : Type 0} where
  unfoldable pub new_user_limiter : UserLimiterConfig → UserLimiter B
  unfolding positive_or
  new_user_limiter config = record {
    entries = [];
    fallback_buckets =
        replicate (at_most 1024 (positive_or config.fallback_bucket_count 64))
          (record { limiter = none; rpm = 0; last_seen = 0 });
    maximum_entries = at_most 65536 (positive_or config.maximum_entries 16384);
    entry_idle_ttl = positive_or config.entry_idle_ttl 1_800_000_000_000;
    next_expiry_check = 0;
    current_entries = 0;
    dedicated_admissions = 0;
    expired_entries = 0;
    fallback_requests = 0;
    fallback_rejections = 0;
    cleanup_interval = positive_or config.cleanup_interval 600_000_000_000;
  }

  abbrev pub expiry_of : UserLimiter B → UserEntry B → ℕ
  expiry_of l e = e.last_seen + l.entry_idle_ttl

  -- `recordPotentialExpiryLocked`
  unfoldable pub record_potential_expiry : UserLimiter B → ℕ → UserLimiter B
  record_potential_expiry l last_seen = record l {
    next_expiry_check = earliest l.next_expiry_check (last_seen + l.entry_idle_ttl);
  }

  -- `cleanupExpiredEntriesLocked`. An entry stays while `entryExpiry.After(now)`.
  unfoldable pub cleanup_expired_entries : UserLimiter B → ℕ → UserLimiter B
  cleanup_expired_entries l now =
      let kept = retain (λ e. ltb now (expiry_of l e)) l.entries in
      let removed = length l.entries - length kept in
      record l {
        entries = kept;
        next_expiry_check = next_expiry (expiry_of l) kept 0;
        current_entries = l.current_entries - removed;
        expired_entries = l.expired_entries + removed;
      }

  -- The part of `allowAt` that makes room: at capacity, and unless nothing can have expired.
  unfoldable pub make_room : UserLimiter B → ℕ → UserLimiter B
  make_room l now =
      if leb l.maximum_entries (length l.entries)
        && (eqb l.next_expiry_check 0 || leb l.next_expiry_check now)
      then cleanup_expired_entries l now
      else l

  -- `Metrics`
  unfoldable pub metrics : Option (UserLimiter B) → UserLimiterMetricsSnapshot
  metrics none = record {
    current_entries = 0;
    maximum_entries = 0;
    fallback_bucket_count = 0;
    dedicated_admissions = 0;
    expired_entries_removed = 0;
    fallback_requests = 0;
    fallback_rejections = 0;
  }
  metrics (some l) = record {
    current_entries = l.current_entries;
    maximum_entries = l.maximum_entries;
    fallback_bucket_count = length l.fallback_buckets;
    dedicated_admissions = l.dedicated_admissions;
    expired_entries_removed = l.expired_entries;
    fallback_requests = l.fallback_requests;
    fallback_rejections = l.fallback_rejections;
  }

-- `none` is a panic: a division by zero.
module _ (t : TokenBucket) where
  open t use {Bucket, Limit, every, new_limiter, allow_n, set_limit_at, set_burst_at}

  -- `limitFor`: a burst below one cannot arise, since `perMin` is at least one.
  unfoldable pub limit_for : ℕ → Bucket
  limit_for rpm =
      let per_min : ℕ = if eqb rpm 0 then 1 else rpm in
      new_limiter (every (minute / per_min)) (if ltb per_min 1 then 1 else per_min)

  -- `SetLimitAt(now, rate.Every(time.Minute/time.Duration(rpm)))` and `SetBurstAt(now, rpm)`
  unfoldable pub retune : Bucket → ℕ → ℕ → Option Bucket
  retune bucket zero now = none
  retune bucket (suc n) now =
      some (set_burst_at (set_limit_at bucket now (every (minute / suc n))) now (suc n))

  -- `allowAt`, the user has an entry.
  unfoldable pub allow_existing :
      UserLimiter Bucket → String → UserEntry Bucket → ℕ → ℕ → Option (Bool × UserLimiter Bucket)
  allow_existing l user_id e rpm now = do
    bucket ← (if eqb e.rpm rpm then some e.limiter else retune e.limiter rpm now)
    let (allowed, used) = allow_n bucket now 1
    let seen = record l {
      entries = insert user_id (record { limiter = used; rpm = rpm; last_seen = now }) l.entries;
    }
    some (allowed, record_potential_expiry seen now)

  -- `allowAt`, a new user and there is room.
  unfoldable pub admit : UserLimiter Bucket → String → ℕ → ℕ → Bool × UserLimiter Bucket
  admit l user_id rpm now =
      let (allowed, used) = allow_n (limit_for rpm) now 1 in
      let added = record l {
        entries = insert user_id (record { limiter = used; rpm = rpm; last_seen = now }) l.entries;
        current_entries = l.current_entries + 1;
        dedicated_admissions = l.dedicated_admissions + 1;
      } in
      (allowed, record_potential_expiry added now)

  -- The bucket and its rate after the test of a shared bucket: reset when it was idle, made stricter
  -- when the caller's rate is lower.
  unfoldable pub shared_bucket : ℕ → FallbackBucket Bucket → ℕ → ℕ → Option (Bucket × ℕ)
  shared_bucket ttl f rpm now = elim f.limiter [
    | none ↦ some (limit_for rpm, rpm)
    | some bucket ↦
        if leb (f.last_seen + ttl) now
        then some (limit_for rpm, rpm)
        else if ltb rpm f.rpm
        then (retune bucket rpm now >>= λ tuned. some (tuned, rpm))
        else some (bucket, f.rpm)
  ]

-- `hash` is `maphash.String` with the limiter's seed.
module _ (t : TokenBucket) (hash : String → ℕ) where
  open t use {Bucket, allow_n}

  -- `fallbackBucketIndexFor`
  unfoldable pub fallback_bucket_index : UserLimiter Bucket → String → Option ℕ
  fallback_bucket_index l user_id =
      if eqb (length l.fallback_buckets) 0
      then none
      else some (hash user_id % length l.fallback_buckets)

  -- `allowAt`, a new user and the registry is full.
  unfoldable pub allow_fallback :
      UserLimiter Bucket → String → ℕ → ℕ → Option (Bool × UserLimiter Bucket)
  allow_fallback l user_id rpm now = do
    index ← fallback_bucket_index l user_id
    f ← get_elem? l.fallback_buckets index
    (bucket, shared_rpm) ← shared_bucket t l.entry_idle_ttl f rpm now
    let (allowed, used) = allow_n bucket now 1
    some (
      allowed,
      record l {
        fallback_buckets =
            set l.fallback_buckets index
              (record { limiter = some used; rpm = shared_rpm; last_seen = now });
        fallback_requests = l.fallback_requests + 1;
        fallback_rejections = l.fallback_rejections + (if allowed then 0 else 1);
      },
    )

  unfoldable pub allow_at : UserLimiter Bucket → String → ℕ → ℕ → Option (Bool × UserLimiter Bucket)
  allow_at l user_id rpm now = elim (lookup user_id l.entries) [
    | some e ↦ allow_existing t l user_id e rpm now
    | none ↦
        let room = make_room l now in
        if ltb (length room.entries) room.maximum_entries
        then some (admit t room user_id rpm now)
        else allow_fallback room user_id rpm now
  ]
