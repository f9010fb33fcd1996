-- ===== src/Base/Count.antt =====
-- The number of entries of a map that pass a test.
use grok_search_mcp.Base.Tests.{Bool-cases}
use grok_search_mcp.Base.Keys.{MapKey}
use grok_search_mcp.Base.Assoc.{lookup, insert, erase, Unique, AllValues, erase-none}
use Prim.Native.Nat.{ℕ, ◌+◌}
use mathlib.Core.Path.{◌≡◌, refl}
use mathlib.Core.Logic.{inl, inr}
use mathlib.Core.Bool.{Bool, true, false}
use mathlib.Core.List.{List, [], ◌∷◌}
use mathlib.Core.Option.{none, some}
use native.Mathlib.Omega.{arith}

-- 1 if the test passes.
abbrev pub one_if : Bool → ℕ
one_if true = 1
one_if false = 0

module _ {ℓ κ} {K : Type ℓ} {V : Type κ} where
  unfoldable pub count_by : (V → Bool) → List (K × V) → ℕ
  count_by p [] = 0
  count_by p ((k, v) ∷ m) = one_if (p v) + count_by p m

module _ {ℓ κ} {K : Type ℓ} {V : Type κ} ⦃e : MapKey K⦄ where
  pub count_by-insert_new :
      (p : V → Bool) (k : K) (v : V) (m : List (K × V))
      → lookup k m ≡ none
      → count_by p (insert k v m) ≡ one_if (p v) + count_by p m
  unfolding lookup insert count_by
  count_by-insert_new p k v [] h = refl
  count_by-insert_new p k v ((i, w) ∷ m) h = ground (arith, count_by-insert_new p k v m)

  pub count_by-erase :
      (p : V → Bool) (k : K) (v : V) (m : List (K × V))
      → Unique m
      → lookup k m ≡ some v
      → one_if (p v) + count_by p (erase k m) ≡ count_by p m
  unfolding lookup erase count_by
  count_by-erase p k v [] u h = cc
  count_by-erase p k v ((i, w) ∷ m) u h =
      ground (arith, e.equal_iff i k, erase-none k m, count_by-erase p k v m u.1)

  -- Two tests that agree on every entry count the same.
  pub count_by-congr :
      (p q : V → Bool) (m : List (K × V))
      → AllValues (λ v. p v ≡ q v) m
      → count_by p m ≡ count_by q m
  unfolding count_by
  count_by-congr p q [] a = refl
  count_by-congr p q ((i, w) ∷ m) a = ground (arith, count_by-congr p q m a.1)

  pub count_by-none :
      (p : V → Bool) (m : List (K × V)) → AllValues (λ v. p v ≡ false) m → count_by p m ≡ 0
  unfolding count_by
  count_by-none p [] a = refl
  count_by-none p ((i, w) ∷ m) a = ground (arith, count_by-none p m a.1)

  -- A test that fails everywhere but counts none.
  pub count_by-zero :
      (p : V → Bool) (m : List (K × V)) → count_by p m ≡ 0 → AllValues (λ v. p v ≡ false) m
  unfolding count_by
  count_by-zero p [] h = tt
  count_by-zero p ((i, w) ∷ m) h = elim (Bool-cases (p w)) [
    | inl passes ↦ absurd (ground arith)
    | inr fails ↦ (fails, count_by-zero p m (ground arith))
  ]

  pub count_by-insert_old :
      (p : V → Bool) (k : K) (v w : V) (m : List (K × V))
      → lookup k m ≡ some w
      → one_if (p w) + count_by p (insert k v m) ≡ one_if (p v) + count_by p m
  unfolding lookup insert count_by
  count_by-insert_old p k v w [] h = cc
  count_by-insert_old p k v w ((i, x) ∷ m) h = elim (Bool-cases (e.equal i k)) [
    | inl hit ↦ let same : x ≡ w = ground arith in rw (hit, same) (omega arith)
    | inr miss ↦ rw miss (omega (arith, count_by-insert_old p k v w m (rw miss at h)))
  ]
