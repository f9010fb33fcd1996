-- ===== src/Base/Int.antt =====
-- Signed configuration values over the native numbers.
use Prim.Native.Nat.{ℕ, zero, suc, ◌<◌}
use native.Mathlib.Omega.{arith}
use grok_search_mcp.Base.Tests.{ltb, if◌then◌else◌}

-- `negsuc n` is -(n + 1).
pub data ℤ : Type 0 where
  pos : ℕ → ℤ
  negsuc : ℕ → ℤ

-- `if value <= 0 { value = fallback }`, for a fallback that is not negative.
unfoldable pub positive_or : ℤ → ℕ → ℕ
positive_or (pos zero) fallback = fallback
positive_or (pos (suc n)) fallback = suc n
positive_or (negsuc n) fallback = fallback

-- `if n > limit { n = limit }`
abbrev pub at_most : ℕ → ℕ → ℕ
at_most limit n = if ltb limit n then limit else n

-- The value that is used is positive.
pub positive_or-pos : (v : ℤ) (fallback : ℕ) → 0 < fallback → 0 < positive_or v fallback
unfolding positive_or
positive_or-pos (pos zero) fallback h = h
positive_or-pos (pos (suc n)) fallback h = omega arith
positive_or-pos (negsuc n) fallback h = h
