-- ===== src/Base/Registry.antt =====
-- What the bounded registries have in common: a map within a capacity, the number of its entries,
-- and a next expiry check that is no later than any of its expiries.
use Prim.Native.Nat.{ℕ, ◌+◌, ◌-◌, ◌≤◌, ◌<◌}
use mathlib.Core.Path.{◌≡◌}
use mathlib.Core.Bool.{Bool, true}
use mathlib.Core.List.{List}
use mathlib.Core.Option.{none, some}
use native.Mathlib.Omega.{arith}
use grok_search_mcp.Base.Lists.{length}
use grok_search_mcp.Base.Keys.{MapKey}
use grok_search_mcp.Base.Assoc.{
  lookup, insert, retain, Unique, AllValues-all, AllValues-map, AllValues-insert, insert-Unique,
  retain-Unique, retain_all, length-insert_old, length-insert_new, length-retain-le,
}
use grok_search_mcp.Base.Expiry.{
  earliest, next_expiry, Tracked, AllTracked, AllTracked-earliest, earliest-Tracked,
  next_expiry-AllTracked,
}

module _ {K V : Type 0} ⦃e : MapKey K⦄ where
  pub record IsKept (expiry : V → ℕ) (m : List (K × V)) (maximum : ℕ) (count : ℕ) (next : ℕ)
      : Type 0 where
    pub unique : Unique m
    pub bounded : length m ≤ maximum
    pub counted : count ≡ length m
    pub tracked : AllTracked expiry next m

module _ {K V : Type 0} ⦃e : MapKey K⦄ (expiry : V → ℕ) (m : List (K × V))
    (maximum count next : ℕ) where
  -- A clean-up, with the check and the count computed anew.
  pub retain-IsKept :
      (keep : V → Bool)
      → ((v : V) → 0 < expiry v)
      → IsKept expiry m maximum count next
      → IsKept expiry
          (retain keep m)
          maximum
          (count - (length m - length (retain keep m)))
          (next_expiry expiry (retain keep m) 0)
  retain-IsKept keep pos v = record {
    unique = retain-Unique keep m v.unique;
    bounded = omega (arith, v.bounded, length-retain-le keep m);
    counted = omega (arith, v.counted, length-retain-le keep m);
    tracked =
        next_expiry-AllTracked expiry (retain keep m) 0
          (AllValues-all (λ x. 0 < expiry x) (retain keep m) pos);
  }

  tracked_insert :
      (k : K) (x : V) (time : ℕ)
      → time ≡ expiry x
      → 0 < time
      → IsKept expiry m maximum count next
      → AllTracked expiry (earliest next time) (insert k x m)
  tracked_insert k x time same pos v =
      AllValues-insert (λ y. Tracked (earliest next time) (expiry y)) k x m
        (AllTracked-earliest expiry next time m pos v.tracked)
        (rw (← same) (earliest-Tracked next time pos))

  -- A new value for a key of the map.
  pub insert_old-IsKept :
      (k : K) (x w : V) (time : ℕ)
      → lookup k m ≡ some w
      → time ≡ expiry x
      → 0 < time
      → IsKept expiry m maximum count next
      → IsKept expiry (insert k x m) maximum count (earliest next time)
  insert_old-IsKept k x w time found same pos v = record {
    unique = insert-Unique k x m v.unique;
    bounded = omega (arith, v.bounded, length-insert_old k x w m found);
    counted = omega (arith, v.counted, length-insert_old k x w m found);
    tracked = tracked_insert k x time same pos v;
  }

  -- A new key, where there is room.
  pub insert_new-IsKept :
      (k : K) (x : V) (time : ℕ)
      → lookup k m ≡ none
      → length m < maximum
      → time ≡ expiry x
      → 0 < time
      → IsKept expiry m maximum count next
      → IsKept expiry (insert k x m) maximum (count + 1) (earliest next time)
  insert_new-IsKept k x time absent room same pos v = record {
    unique = insert-Unique k x m v.unique;
    bounded = omega (arith, room, length-insert_new k x m absent);
    counted = omega (arith, v.counted, length-insert_new k x m absent);
    tracked = tracked_insert k x time same pos v;
  }

  -- A clean-up before the check removes nothing.
  pub retain_early :
      (keep : V → Bool)
      → ((v : V) → next ≤ expiry v → keep v ≡ true)
      → IsKept expiry m maximum count next
      → retain keep m ≡ m
  retain_early keep early v = retain_all keep m (
      AllValues-map (λ x. Tracked next (expiry x)) (λ x. keep x ≡ true) m (λ x t. early x t.1)
        v.tracked)
