-- ===== src/Panel/Protector/Middleware.antt =====
-- auth_protector.go: `RateLimitAuthEndpoint`, the protector in front of a public endpoint.
use grok_search_mcp.Base.{
  ℕ, ◌+◌, ◌*◌, ◌/◌, ◌<◌, ◌≤◌, ◌≡◌, refl, inl, inr, String, not, Option, some, arith, ltb,
  if◌then◌else◌, ◌>>=◌,
}
use grok_search_mcp.Base.Keys.{string_key}
use grok_search_mcp.Base.Assoc.{lookup}
use grok_search_mcp.Base.Results.{Result, ok, error, Result-cases}
use grok_search_mcp.Http.{Verdict, forward, reject, too_many_requests}
use grok_search_mcp.RateLimit.ClientIp.{
  Netip, Request, ClientIpError, invalid_identity, ClientIpResolver, resolve_address,
}
use grok_search_mcp.RateLimit.Ip.Middleware.{identity_verdict}
use grok_search_mcp.Panel.Endpoint.{ReservingBucket, AuthEndpointState, AuthRateLimitEntry}
use grok_search_mcp.Panel.Protector.{AuthProtector, cleanup}
use grok_search_mcp.Panel.Protector.Admission.{allow_auth_request}
use grok_search_mcp.Panel.Protector.Validity.{IsValid}
use grok_search_mcp.Panel.Protector.Requests.{allow_auth_request_total}

-- The number of `writeRetryAfter`: whole seconds, rounded up, and at least one.
unfoldable pub retry_after_seconds : ℕ → ℕ
retry_after_seconds retry_after =
    let seconds : ℕ = (retry_after + 999_999_999) / 1_000_000_000 in
    if ltb seconds 1 then 1 else seconds

-- A client that waits as long as the header says has waited for the delay, and the header never says
-- zero.
pub retry_after_seconds_enough :
    (retry_after : ℕ)
    → (0 < retry_after_seconds retry_after)
      × (retry_after ≤ retry_after_seconds retry_after * 1_000_000_000)
unfolding retry_after_seconds
retry_after_seconds_enough retry_after = (ground arith, ground arith)

module _ (t : ReservingBucket) (n : Netip) (text_of : n.Addr → String) (normalize : String → String)
    (hash : String → ℕ) where
  open t use {Bucket}

  -- `clientIPForProtection`; `text_of` is `Addr.String`.
  unfoldable pub client_ip_for_protection :
      Option (ClientIpResolver n) → Request → Result ClientIpError String
  client_ip_for_protection resolver request = elim (resolve_address n resolver (some request)) [
    | error e ↦ error e
    | ok a ↦ if not (n.is_valid a) then error invalid_identity else ok (text_of a)
  ]

  unfoldable pub rate_limit_auth_endpoint :
      Option (ClientIpResolver n)
      → AuthProtector Bucket
      → String
      → Request
      → ℕ
      → Option (Verdict × AuthProtector Bucket)
  rate_limit_auth_endpoint resolver p endpoint request now =
      elim (client_ip_for_protection resolver request) [
        | error e ↦ some (identity_verdict e, p)
        | ok client_ip ↦ do
          (allowed, retry_after, q) ← allow_auth_request t normalize hash p endpoint client_ip now
          some (
            if allowed
                then forward
                else reject too_many_requests "rate limit exceeded"
                    (some (retry_after_seconds retry_after)),
            q,
          )
      ]

  -- On a valid protector, and where no entry of the endpoint was seen after now, every request is
  -- answered without a panic and leaves a valid protector.
  pub rate_limit_auth_endpoint_total :
      (resolver : Option (ClientIpResolver n)) (p : AuthProtector Bucket) (endpoint : String)
      (request : Request) (now : ℕ)
      → IsValid p
      → ((client_ip : String) (s : AuthEndpointState Bucket) (e : AuthRateLimitEntry Bucket)
          → lookup endpoint (cleanup p now).endpoint_states ≡ some s
          → lookup client_ip s.entries ≡ some e
          → e.last_seen ≤ now)
      → (x : Verdict × AuthProtector Bucket) × (rate_limit_auth_endpoint resolver p endpoint request
            now
          ≡ some x)
        × IsValid x.1
  unfolding rate_limit_auth_endpoint
  rate_limit_auth_endpoint_total resolver p endpoint request now v clock =
      elim (Result-cases (client_ip_for_protection resolver request)) [
        | inr (e, refused) ↦ rw (refused, rate_limit_auth_endpoint) (_, refl, v)
        | inl (client_ip, known) ↦
            let (x, call, valid) =
              allow_auth_request_total t normalize hash p endpoint client_ip now v
                (clock client_ip) in
            rw (known, rate_limit_auth_endpoint, call) (_, refl, valid)
      ]
