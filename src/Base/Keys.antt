-- ===== src/Base/Keys.antt =====
-- Types whose values can be compared: the keys of the Go maps.
use Prim.Native.Nat.{ℕ}
use Prim.Native.String.{String}
use mathlib.Core.Path.{◌≡◌, refl}
use mathlib.Core.Logic.{◌↔◌, ◌≢◌}
use mathlib.Core.Bool.{Bool, true, false}
use native.Mathlib.Omega.{arith}
use text.Mathlib.Text.{◌==◌ as same_text}
use text.Mathlib.TextEquality.{eq_iff}
use grok_search_mcp.Base.Tests.{eqb, eqb_iff}

-- `equal` decides equality.
pub record MapKey {ℓ} (K : Type ℓ) : Type ℓ where
  pub equal : K → K → Bool
  pub equal_iff : (i j : K) → (equal i j ≡ true) ↔ (i ≡ j)

infix 50 ◌==◌
abbrev pub ◌==◌ {ℓ} : {K : Type ℓ} ⦃key : MapKey K⦄ → K → K → Bool
◌==◌ ⦃key⦄ i j = key.equal i j

instance abbrev pub string_key : MapKey String
string_key = record { equal = same_text; equal_iff = eq_iff }

instance abbrev pub nat_key : MapKey ℕ
nat_key = record { equal = eqb; equal_iff = eqb_iff }

pub ne_of_beq {ℓ} : {A : Type ℓ} ⦃e : MapKey A⦄ (a b : A) → (a == b) ≡ false → a ≢ b
ne_of_beq ⦃e⦄ a b h q = ground (arith, e.equal_iff a b)

pub beq_of_ne {ℓ} : {A : Type ℓ} ⦃e : MapKey A⦄ (a b : A) → a ≢ b → (a == b) ≡ false
beq_of_ne ⦃e⦄ a b h = ground (arith, e.equal_iff a b)

pub beq_self {ℓ} : {A : Type ℓ} ⦃e : MapKey A⦄ (a : A) → (a == a) ≡ true
beq_self ⦃e⦄ a = (e.equal_iff a a).1 refl
