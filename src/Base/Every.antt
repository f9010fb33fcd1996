-- ===== src/Base/Every.antt =====
-- A predicate of every element of a list, under reads and writes by index.
use Prim.Native.Nat.{ℕ, zero, suc, ◌+◌, ◌≤◌, ◌<◌}
use mathlib.Core.Path.{◌≡◌, refl}
use mathlib.Core.List.{List, [], ◌∷◌}
use mathlib.Core.Option.{some}
use native.Mathlib.Omega.{arith}
use grok_search_mcp.Base.Lists.{length, get_elem?, set, replicate}

module _ {A : Type 0} where
  abbrev pub Every : (A → Type 0) → List A → Type 0
  Every P [] = Unit
  Every P (x ∷ xs) = P x × Every P xs

  pub get_elem?-Every :
      (P : A → Type 0) (xs : List A) (i : ℕ) (a : A) → Every P xs → get_elem? xs i ≡ some a → P a
  get_elem?-Every P [] i a e h = cc
  get_elem?-Every P (x ∷ xs) zero a e h = let same : x ≡ a = cc in rw same at e.0
  get_elem?-Every P (x ∷ xs) (suc i) a e h = get_elem?-Every P xs i a e.1 h

  pub set-Every :
      (P : A → Type 0) (xs : List A) (i : ℕ) (a : A) → Every P xs → P a → Every P (set xs i a)
  set-Every P [] i a e p = tt
  set-Every P (x ∷ xs) zero a e p = (p, e.1)
  set-Every P (x ∷ xs) (suc i) a e p = (e.0, set-Every P xs i a e.1 p)

  pub replicate-Every : (P : A → Type 0) (n : ℕ) (a : A) → P a → Every P (replicate n a)
  replicate-Every P zero a p = tt
  replicate-Every P (suc n) a p = (p, replicate-Every P n a p)

  pub get_elem?_total : (xs : List A) (i : ℕ) → i < length xs → (a : A) × (get_elem? xs i ≡ some a)
  get_elem?_total [] i h = elim h [ ]
  get_elem?_total (x ∷ xs) zero h = (x, refl)
  get_elem?_total (x ∷ xs) (suc i) h = get_elem?_total xs i (omega arith)

  -- A sum over a list.
  unfoldable pub sum_of : (A → ℕ) → List A → ℕ
  sum_of f [] = 0
  sum_of f (x ∷ xs) = f x + sum_of f xs

  pub sum_of-set :
      (f : A → ℕ) (xs : List A) (i : ℕ) (a b : A)
      → get_elem? xs i ≡ some a
      → sum_of f (set xs i b) + f a ≡ sum_of f xs + f b
  unfolding sum_of
  sum_of-set f [] i a b h = cc
  sum_of-set f (x ∷ xs) zero a b h = ground arith
  sum_of-set f (x ∷ xs) (suc i) a b h = omega (arith, sum_of-set f xs i a b h)

  pub sum_of-replicate : (f : A → ℕ) (n : ℕ) (a : A) → f a ≡ 0 → sum_of f (replicate n a) ≡ 0
  unfolding sum_of
  sum_of-replicate f zero a h = refl
  sum_of-replicate f (suc n) a h = omega (arith, h, sum_of-replicate f n a h)

  pub sum_of-ge :
      (f : A → ℕ) (xs : List A) (i : ℕ) (a : A) → get_elem? xs i ≡ some a → f a ≤ sum_of f xs
  unfolding sum_of
  sum_of-ge f [] i a h = cc
  sum_of-ge f (x ∷ xs) zero a h = ground arith
  sum_of-ge f (x ∷ xs) (suc i) a h = omega (arith, sum_of-ge f xs i a h)
