-- ===== src/RateLimit/Ip/Middleware.antt =====
-- ip_limiter.go: `Metrics`, and the limiter in front of every request.
use grok_search_mcp.Base.{
  ℕ, ◌*◌, ◌≡◌, refl, inl, inr, not, Option, none, some, List, [], ◌∷◌, if◌then◌else◌, ◌>>=◌, length,
  Bool-cases,
}
use grok_search_mcp.Base.Keys.{MapKey}
use grok_search_mcp.Base.Results.{ok, error, Result-cases}
use grok_search_mcp.Http.{Verdict, forward, reject, forbidden, bad_request, too_many_requests}
use grok_search_mcp.RateLimit.Bucket.{TokenBucket}
use grok_search_mcp.RateLimit.ClientIp.{
  Netip, Request, ClientIpError, invalid_identity, invalid_forwarded_headers, untrusted_peer,
  ClientIpResolver, resolve_address,
}
use grok_search_mcp.RateLimit.Ip.{IpLimiter, IpLimiterShard, allow_at}
use grok_search_mcp.RateLimit.Ip.Totals.{IsValid, ip_allow_at-IsValid}

pub record IpLimiterMetricsSnapshot : Type 0 where
  pub current_entries : ℕ
  pub maximum_entries : ℕ
  pub fallback_bucket_count : ℕ
  pub dedicated_admissions : ℕ
  pub expired_entries_removed : ℕ
  pub fallback_requests : ℕ
  pub fallback_rejections : ℕ

-- The capacity of the first shard, which stands for all.
unfoldable pub first_capacity : {A B : Type 0} → List (IpLimiterShard A B) → ℕ
first_capacity [] = 0
first_capacity (s ∷ shards) = s.maximum_entries

unfoldable pub first_fallbacks : {A B : Type 0} → List (IpLimiterShard A B) → ℕ
first_fallbacks [] = 0
first_fallbacks (s ∷ shards) = length s.fallback_limiters

-- `Metrics`; a limiter that is nil is `none`.
unfoldable pub ip_metrics : {A B : Type 0} → Option (IpLimiter A B) → IpLimiterMetricsSnapshot
ip_metrics none = record {
  current_entries = 0;
  maximum_entries = 0;
  fallback_bucket_count = 0;
  dedicated_admissions = 0;
  expired_entries_removed = 0;
  fallback_requests = 0;
  fallback_rejections = 0;
}
ip_metrics (some l) = record {
  current_entries = l.current_entries;
  maximum_entries = length l.shards * first_capacity l.shards;
  fallback_bucket_count = length l.shards * first_fallbacks l.shards;
  dedicated_admissions = l.dedicated_admissions;
  expired_entries_removed = l.expired_entries_removed;
  fallback_requests = l.fallback_requests;
  fallback_rejections = l.fallback_rejections;
}

-- The answer to a request whose address is refused.
unfoldable pub identity_verdict : ClientIpError → Verdict
identity_verdict untrusted_peer = reject forbidden "untrusted client IP peer" none
identity_verdict invalid_identity = reject bad_request "invalid client IP identity" none
identity_verdict invalid_forwarded_headers = reject bad_request "invalid client IP identity" none

module _ (t : TokenBucket) (n : Netip) (as16 : n.Addr → List ℕ) (hash : List ℕ → ℕ) where
  open t use {Bucket}
  open n use {Addr}

  instance abbrev addr_key : MapKey Addr
  addr_key = n.addr_eq

  -- The part of `Middleware` behind the resolver.
  unfoldable pub limit_address :
      IpLimiter Addr Bucket → Addr → ℕ → Option (Verdict × IpLimiter Addr Bucket)
  limit_address l a now =
      if not (n.is_valid a)
      then some (reject bad_request "invalid client IP identity" none, l)
      else do
        (allowed, l') ← allow_at t as16 hash l a now
        some (
          if allowed then forward else reject too_many_requests "rate limit exceeded" (some 60),
          l',
        )

  unfoldable pub ip_middleware :
      Option (ClientIpResolver n)
      → IpLimiter Addr Bucket
      → Request
      → ℕ
      → Option (Verdict × IpLimiter Addr Bucket)
  ip_middleware resolver l request now = elim (resolve_address n resolver (some request)) [
    | error e ↦ some (identity_verdict e, l)
    | ok a ↦ limit_address l a now
  ]

  -- On a valid limiter, whatever the request, the middleware answers without a panic and leaves a
  -- valid limiter.
  pub ip_middleware_total :
      (resolver : Option (ClientIpResolver n)) (l : IpLimiter Addr Bucket) (request : Request)
      (now : ℕ)
      → IsValid l
      → (x : Verdict × IpLimiter Addr Bucket) × (ip_middleware resolver l request now ≡ some x)
        × IsValid x.1
  unfolding ip_middleware limit_address
  ip_middleware_total resolver l request now v =
      elim (Result-cases (resolve_address n resolver (some request))) [
        | inr (e, refused) ↦ rw (refused, ip_middleware) (_, refl, v)
        | inl (a, resolved) ↦ elim (Bool-cases (not (n.is_valid a))) [
          | inl invalid ↦ rw (resolved, ip_middleware, limit_address, invalid) (_, refl, v)
          | inr fine ↦
              let (x, call, valid) = ip_allow_at-IsValid t as16 hash l a now v in
              rw (resolved, ip_middleware, limit_address, fine, call) (_, refl, valid)
        ]
      ]
