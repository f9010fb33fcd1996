-- ===== src/RateLimit/User/Middleware.antt =====
-- user_limiter.go: `UserMiddleware`, the limiter in front of the tool calls.
use grok_search_mcp.Base.{
  ℕ, zero, suc, String, Option, none, some, if◌then◌else◌, ◌>>=◌, ◌≡◌, refl, inl, inr, arith,
  Option-cases, Bool-cases,
}
use grok_search_mcp.Base.Int.{ℤ, pos, negsuc}
use grok_search_mcp.Base.Keys.{◌==◌, string_key}
use grok_search_mcp.Http.{
  AuthenticatedUser, Context, Verdict, forward, reject, too_many_requests, internal_server_error,
}
use grok_search_mcp.RateLimit.Bucket.{TokenBucket}
use grok_search_mcp.RateLimit.User.{UserLimiter, allow_at}
use grok_search_mcp.RateLimit.User.Bounds.{IsValid, allow_at-IsValid}

module _ (t : TokenBucket) (hash : String → ℕ) where
  open t use {Bucket}

  -- The part behind the checks of the context.
  unfoldable pub limit_user :
      UserLimiter Bucket → AuthenticatedUser → ℕ → Option (Verdict × UserLimiter Bucket)
  limit_user l user now = elim user.rpm [
    | negsuc n ↦ some (reject internal_server_error "invalid rate limit" none, l)
    | pos n ↦ elim n [
      | zero ↦ some (forward, l)
      | suc m ↦ do
        (allowed, l') ← allow_at t hash l user.id (suc m) now
        some (
          if allowed then forward else reject too_many_requests "rate limit exceeded" (some 60),
          l',
        )
    ]
  ]

  unfoldable pub user_middleware :
      UserLimiter Bucket → Context → ℕ → Option (Verdict × UserLimiter Bucket)
  user_middleware l c now = elim c.tool_name [
    | none ↦ some (forward, l)
    | some name ↦
        if name == ""
        then some (forward, l)
        else elim c.user [ none ↦ some (forward, l) | some user ↦ limit_user l user now ]
  ]

  limit_user_total :
      (l : UserLimiter Bucket) (user : AuthenticatedUser) (now : ℕ)
      → IsValid l
      → (x : Verdict × UserLimiter Bucket) × (limit_user l user now ≡ some x) × IsValid x.1
  unfolding limit_user
  limit_user_total l user now v = go user.rpm refl
    where
      go :
          (r : ℤ)
          → user.rpm ≡ r
          → (x : Verdict × UserLimiter Bucket) × (limit_user l user now ≡ some x) × IsValid x.1
      go (negsuc n) e = rw (e, limit_user) (_, refl, v)
      go (pos zero) e = rw (e, limit_user) (_, refl, v)
      go (pos (suc m)) e =
          let (x, call, valid) = allow_at-IsValid t hash l user.id (suc m) now v (omega arith) in
          rw (e, limit_user, call) (_, refl, valid)

  -- On a valid registry, whatever the request and the rate of its user, the middleware answers without
  -- a panic and leaves a valid registry.
  pub user_middleware_total :
      (l : UserLimiter Bucket) (c : Context) (now : ℕ)
      → IsValid l
      → (x : Verdict × UserLimiter Bucket) × (user_middleware l c now ≡ some x) × IsValid x.1
  unfolding user_middleware
  user_middleware_total l c now v = elim (Option-cases c.tool_name) [
    | inl e ↦ rw (e, user_middleware) (_, refl, v)
    | inr (name, e) ↦ elim (Bool-cases (name == "")) [
      | inl empty ↦ rw (e, user_middleware, empty) (_, refl, v)
      | inr named ↦ elim (Option-cases c.user) [
        | inl u ↦ rw (e, user_middleware, named, u) (_, refl, v)
        | inr (user, u) ↦ rw (e, user_middleware, named, u) (limit_user_total l user now v)
      ]
    ]
  ]
