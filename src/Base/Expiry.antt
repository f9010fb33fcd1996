-- ===== src/Base/Expiry.antt =====
-- The bookkeeping of the next expiry check that the bounded registries share. A time is a number of
-- nanoseconds, and 0 is Go's zero `time.Time`.
use Prim.Native.Nat.{ℕ, ◌≤◌, ◌<◌}
use mathlib.Core.Bool.{◌||◌}
use mathlib.Core.List.{List, [], ◌∷◌}
use native.Mathlib.Omega.{arith}
use grok_search_mcp.Base.Tests.{ltb, eqb, if◌then◌else◌}
use grok_search_mcp.Base.Keys.{MapKey}
use grok_search_mcp.Base.Assoc.{AllValues, AllValues-map}

-- `if next.IsZero() || expiry.Before(next) { next = expiry }`
unfoldable pub earliest : ℕ → ℕ → ℕ
earliest next expiry = if eqb next 0 || ltb expiry next then expiry else next

-- `earliest` over the entries of a map.
unfoldable pub next_expiry {ℓ κ} : {K : Type ℓ} {V : Type κ} → (V → ℕ) → List (K × V) → ℕ → ℕ
next_expiry expiry [] next = next
next_expiry expiry ((k, v) ∷ m) next = next_expiry expiry m (earliest next (expiry v))

-- The check is set, and no later than the expiry.
abbrev pub Tracked : ℕ → ℕ → Type 0
Tracked next expiry = (0 < next) × (next ≤ expiry)

pub earliest-Tracked : (next expiry : ℕ) → 0 < expiry → Tracked (earliest next expiry) expiry
unfolding earliest
earliest-Tracked next expiry h = ground arith

pub earliest-Tracked_old :
    (next expiry other : ℕ) → 0 < expiry → Tracked next other → Tracked (earliest next expiry) other
unfolding earliest
earliest-Tracked_old next expiry other h t = ground arith

module _ {ℓ κ} {K : Type ℓ} {V : Type κ} ⦃e : MapKey K⦄ where
  abbrev pub AllTracked : (V → ℕ) → ℕ → List (K × V) → Type 0
  AllTracked expiry next m = AllValues (λ v. Tracked next (expiry v)) m

  pub AllTracked-earliest :
      (expiry : V → ℕ) (next x : ℕ) (m : List (K × V))
      → 0 < x
      → AllTracked expiry next m
      → AllTracked expiry (earliest next x) m
  AllTracked-earliest expiry next x m h a =
      AllValues-map (λ v. Tracked next (expiry v)) (λ v. Tracked (earliest next x) (expiry v)) m
        (λ v. earliest-Tracked_old next x (expiry v) h) a

  next_expiry_old :
      (expiry : V → ℕ) (m : List (K × V)) (next other : ℕ)
      → AllValues (λ v. 0 < expiry v) m
      → Tracked next other
      → Tracked (next_expiry expiry m next) other
  unfolding next_expiry
  next_expiry_old expiry [] next other a t = t
  next_expiry_old expiry ((k, v) ∷ m) next other a t =
      next_expiry_old expiry m (earliest next (expiry v)) other a.1
        (earliest-Tracked_old next (expiry v) other a.0 t)

  -- A scan of a map finds a check that is no later than any of its expiries.
  pub next_expiry-AllTracked :
      (expiry : V → ℕ) (m : List (K × V)) (next : ℕ)
      → AllValues (λ v. 0 < expiry v) m
      → AllTracked expiry (next_expiry expiry m next) m
  unfolding next_expiry
  next_expiry-AllTracked expiry [] next a = tt
  next_expiry-AllTracked expiry ((k, v) ∷ m) next a = (
    next_expiry_old expiry m (earliest next (expiry v)) (expiry v) a.1
        (earliest-Tracked next (expiry v) a.0),
    next_expiry-AllTracked expiry m (earliest next (expiry v)) a.1,
  )
