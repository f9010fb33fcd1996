-- ===== src/RateLimit/Ip.antt =====
-- internal/ratelimit/ip_limiter.go: the sharded registry of token buckets, one for each client
-- address. Times are nanoseconds and 0 is the zero `time.Time`. A call under a shard's mutex is one
-- step; `AllowN` runs on the bucket right after it.
pub mod Shards
pub mod Limiter
pub mod Totals
pub mod Middleware
pub mod Tests
use Prim.Native.Nat.{bit_xor}
use grok_search_mcp.Base.{
  ℕ, zero, suc, ◌+◌, ◌-◌, ◌*◌, ◌/◌, ◌%◌, ◌^◌, Bool, true, false, ◌&&◌, ◌||◌, Option, none, some,
  List, [], ◌∷◌, ltb, leb, eqb, if◌then◌else◌, length, get_elem?, set, replicate, ◌>>=◌,
}
use grok_search_mcp.Base.Int.{ℤ, positive_or, at_most}
use grok_search_mcp.Base.Keys.{MapKey}
use grok_search_mcp.Base.Assoc.{lookup, insert, retain}
use grok_search_mcp.Base.Expiry.{earliest, next_expiry}
use grok_search_mcp.Http.{Verdict, forward, reject, forbidden, bad_request, too_many_requests}
use grok_search_mcp.RateLimit.Bucket.{TokenBucket, minute}

-- `ipEntry`
pub record IpEntry (B : Type 0) : Type 0 where
  pub limiter : B
  pub last_seen : ℕ

-- `ipLimiterShard`
pub record IpLimiterShard (A : Type 0) (B : Type 0) : Type 0 where
  pub entries : List (A × IpEntry B)
  pub fallback_limiters : List B
  pub maximum_entries : ℕ
  pub high_watermark : ℕ
  pub next_expiry_check : ℕ

-- `IPLimiterConfig`, without the resolver.
pub record IpLimiterConfig : Type 0 where
  pub requests_per_minute : ℤ
  pub shard_count : ℤ
  pub entry_idle_ttl : ℤ
  pub cleanup_interval : ℤ
  pub cleanup_shard_batch_size : ℤ
  pub maximum_entries_per_shard : ℤ
  pub fallback_buckets_per_shard : ℤ

-- `IPLimiter`, without its mutexes, hash seed and channels.
pub record IpLimiter (A : Type 0) (B : Type 0) : Type 0 where
  pub requests_per_minute : ℕ
  pub shards : List (IpLimiterShard A B)
  pub entry_idle_ttl : ℕ
  pub cleanup_shard_batch_size : ℕ
  pub cleanup_cursor : ℕ
  pub current_entries : ℕ
  pub dedicated_admissions : ℕ
  pub expired_entries_removed : ℕ
  pub fallback_requests : ℕ
  pub fallback_rejections : ℕ

-- `minimumShardHighWatermarkForRebuild` and `shardHighWatermarkRebuildDivisor`
abbrev pub minimum_watermark : ℕ
minimum_watermark = 256

abbrev pub rebuild_divisor : ℕ
rebuild_divisor = 4

-- The 64-bit FNV hash of `shardIndexFor`.
abbrev pub fnv_offset_basis : ℕ
fnv_offset_basis = 1469598103934665603

abbrev pub fnv_prime : ℕ
fnv_prime = 1099511628211

unfoldable pub fnv_hash : ℕ → List ℕ → ℕ
fnv_hash hash [] = hash
fnv_hash hash (b ∷ bs) = fnv_hash (bit_xor hash b * fnv_prime % 2 ^ 64) bs

-- What `allowAt` counts for one request.
pub data Served : Type 0 where
  existing dedicated : Served
  fallback : Bool → Served

module _ {B : Type 0} where
  abbrev pub expiry_of : ℕ → IpEntry B → ℕ
  expiry_of ttl x = x.last_seen + ttl

  -- The test of the clean-up: `!entry.lastSeen.Before(cutoff)`.
  unfoldable pub is_live : ℕ → ℕ → IpEntry B → Bool
  is_live ttl now x = leb (now - ttl) x.last_seen

module _ {A B : Type 0} ⦃e : MapKey A⦄ where
  -- `recordPotentialExpiryLocked`
  unfoldable pub record_potential_expiry : ℕ → IpLimiterShard A B → ℕ → IpLimiterShard A B
  record_potential_expiry ttl s last_seen = record s {
    next_expiry_check = earliest s.next_expiry_check (last_seen + ttl);
  }

  -- `cleanupShardLocked`: the shard and the number of entries removed. The rebuilt map has the same
  -- entries.
  unfoldable pub cleanup_shard_locked : ℕ → IpLimiterShard A B → ℕ → IpLimiterShard A B × ℕ
  cleanup_shard_locked ttl s now =
      let kept = retain (is_live ttl now) s.entries in
      (
        record s {
          entries = kept;
          next_expiry_check = next_expiry (expiry_of ttl) kept 0;
          high_watermark =
              if leb minimum_watermark s.high_watermark
                && leb (length kept) (s.high_watermark / rebuild_divisor)
              then length kept
              else s.high_watermark;
        },
        length s.entries - length kept,
      )

  -- The part of `allowAt` that makes room in a full shard.
  unfoldable pub make_room : ℕ → IpLimiterShard A B → ℕ → IpLimiterShard A B × ℕ
  make_room ttl s now =
      if leb s.maximum_entries (length s.entries)
        && (eqb s.next_expiry_check 0 || ltb s.next_expiry_check now)
      then cleanup_shard_locked ttl s now
      else (s, 0)

  -- `limiter.currentEntries.Add` and the other counters.
  unfoldable pub tally : IpLimiter A B → ℕ → Served → IpLimiter A B
  tally l removed existing = l
  tally l removed dedicated = record l {
    current_entries = l.current_entries - removed + 1;
    expired_entries_removed = l.expired_entries_removed + removed;
    dedicated_admissions = l.dedicated_admissions + 1;
  }
  tally l removed (fallback allowed) = record l {
    current_entries = l.current_entries - removed;
    expired_entries_removed = l.expired_entries_removed + removed;
    fallback_requests = l.fallback_requests + 1;
    fallback_rejections = l.fallback_rejections + (if allowed then 0 else 1);
  }

  -- `cleanupShard`
  unfoldable pub cleanup_shard : IpLimiter A B → ℕ → ℕ → Option (IpLimiter A B)
  cleanup_shard l i now = do
    s ← get_elem? l.shards i
    let (s', removed) = cleanup_shard_locked l.entry_idle_ttl s now
    some (record l {
      shards = set l.shards i s';
      current_entries = l.current_entries - removed;
      expired_entries_removed = l.expired_entries_removed + removed;
    })

  -- The loop of `cleanupNextShards`, with the rounds that are left.
  unfoldable pub cleanup_rounds : ℕ → IpLimiter A B → ℕ → Option (IpLimiter A B)
  cleanup_rounds zero l now = some l
  cleanup_rounds (suc n) l now = do
    l' ← cleanup_shard l l.cleanup_cursor now
    cleanup_rounds n (record l' { cleanup_cursor = (l'.cleanup_cursor + 1) % length l'.shards }) now

  -- `cleanupNextShards`
  unfoldable pub cleanup_next_shards : IpLimiter A B → ℕ → Option (IpLimiter A B)
  cleanup_next_shards l now = cleanup_rounds l.cleanup_shard_batch_size l now

-- `as16` is `netip.Addr.As16`, and `hash` is `maphash.Bytes` with the limiter's seed. `none` is a
-- panic.
module _ {A : Type 0} ⦃e : MapKey A⦄ (t : TokenBucket) (as16 : A → List ℕ) (hash : List ℕ → ℕ) where
  open t use {Bucket, every, new_limiter, allow_n}

  -- `newTokenBucket`
  unfoldable pub new_token_bucket : ℕ → Option Bucket
  new_token_bucket zero = none
  new_token_bucket (suc n) = some (new_limiter (every (minute / suc n)) (suc n))

  -- `NewIPLimiterWithConfig`
  unfoldable pub new_ip_limiter : IpLimiterConfig → Option (IpLimiter A Bucket)
  new_ip_limiter c = new_token_bucket (positive_or c.requests_per_minute 60) >>= λ bucket.
      let rpm = positive_or c.requests_per_minute 60 in
      let shard_count = positive_or c.shard_count 64 in
      let shard : IpLimiterShard A Bucket = record {
        entries = [];
        fallback_limiters =
            replicate (at_most 1024 (positive_or c.fallback_buckets_per_shard 16)) bucket;
        maximum_entries = at_most 65536 (positive_or c.maximum_entries_per_shard 2048);
        high_watermark = 0;
        next_expiry_check = 0;
      } in
      some (record {
        requests_per_minute = rpm;
        shards = replicate shard_count shard;
        entry_idle_ttl = positive_or c.entry_idle_ttl 300_000_000_000;
        cleanup_shard_batch_size = at_most shard_count (positive_or c.cleanup_shard_batch_size 4);
        cleanup_cursor = 0;
        current_entries = 0;
        dedicated_admissions = 0;
        expired_entries_removed = 0;
        fallback_requests = 0;
        fallback_rejections = 0;
      })

  -- `shardIndexFor`
  unfoldable pub shard_index_for : IpLimiter A Bucket → A → Option ℕ
  shard_index_for l a =
      if eqb (length l.shards) 0
      then none
      else some (fnv_hash fnv_offset_basis (as16 a) % length l.shards)

  -- `fallbackBucketIndexFor`
  unfoldable pub fallback_bucket_index_for : A → ℕ → Option ℕ
  fallback_bucket_index_for a count = if eqb count 0 then none else some (hash (as16 a) % count)

  -- `allowAt`, the address has an entry.
  unfoldable pub allow_existing :
      ℕ → IpLimiterShard A Bucket → A → IpEntry Bucket → ℕ → Bool × IpLimiterShard A Bucket
  allow_existing ttl s a x now =
      let (allowed, used) = allow_n x.limiter now 1 in
      (
        allowed,
        record_potential_expiry ttl
            (record s { entries = insert a (record { limiter = used; last_seen = now }) s.entries })
            now,
      )

  -- `allowAt`, a new address and there is room, with the bucket that was made for it.
  unfoldable pub admit :
      ℕ → Bucket → IpLimiterShard A Bucket → A → ℕ → Bool × IpLimiterShard A Bucket
  admit ttl bucket s a now =
      let (allowed, used) = allow_n bucket now 1 in
      let entries = insert a (record { limiter = used; last_seen = now }) s.entries in
      (
        allowed,
        record_potential_expiry ttl
            (record s {
              entries = entries;
              high_watermark =
                  if ltb s.high_watermark (length entries)
                  then length entries
                  else s.high_watermark;
            })
            now,
      )

  -- `allowAt`, a new address and the shard is full.
  unfoldable pub allow_fallback :
      IpLimiterShard A Bucket → A → ℕ → Option (Bool × IpLimiterShard A Bucket)
  allow_fallback s a now = do
    index ← fallback_bucket_index_for a (length s.fallback_limiters)
    bucket ← get_elem? s.fallback_limiters index
    let (allowed, used) = allow_n bucket now 1
    some (allowed, record s { fallback_limiters = set s.fallback_limiters index used })

  -- `allowAt` on the shard of the address, with the entries removed and how the call was served.
  unfoldable pub allow_in_shard :
      ℕ → ℕ → IpLimiterShard A Bucket → A → ℕ → Option (Bool × IpLimiterShard A Bucket × ℕ × Served)
  allow_in_shard ttl rpm s a now = elim (lookup a s.entries) [
    | some x ↦ let (allowed, s') = allow_existing ttl s a x now in some (allowed, s', 0, existing)
    | none ↦
        let (room, removed) = make_room ttl s now in
        if ltb (length room.entries) room.maximum_entries
        then (do
          bucket ← new_token_bucket rpm
          let (allowed, s') = admit ttl bucket room a now
          some (allowed, s', removed, dedicated))
        else do
          (allowed, s') ← allow_fallback room a now
          some (allowed, s', removed, fallback allowed)
  ]

  unfoldable pub allow_at : IpLimiter A Bucket → A → ℕ → Option (Bool × IpLimiter A Bucket)
  allow_at l a now = do
    i ← shard_index_for l a
    s ← get_elem? l.shards i
    (allowed, s', removed, served) ← allow_in_shard l.entry_idle_ttl l.requests_per_minute s a now
    some (allowed, tally (record l { shards = set l.shards i s' }) removed served)
