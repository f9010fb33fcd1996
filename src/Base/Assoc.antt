-- ===== src/Base/Assoc.antt =====
-- Go maps as association lists. A key occurs at most once (`Unique`), which every map built by
-- `insert`, `erase` and `retain` satisfies.
use Prim.Native.Nat.{suc, ◌≤◌}
use mathlib.Core.Path.{◌≡◌, refl, subst}
use mathlib.Core.Logic.{inl, inr, ◌≢◌, ◌⊎◌}
use mathlib.Core.Bool.{Bool, true, false}
use mathlib.Core.List.{List, [], ◌∷◌}
use mathlib.Core.Option.{Option, none, some}
use native.Mathlib.Omega.{arith}
use grok_search_mcp.Base.Tests.{if◌then◌else◌, Bool-cases, Option-cases}
use grok_search_mcp.Base.Lists.{length}
use grok_search_mcp.Base.Keys.{MapKey, ◌==◌, beq_self, ne_of_beq}

module _ {ℓ κ} {K : Type ℓ} {V : Type κ} ⦃e : MapKey K⦄ where
  -- `m[key]`, and whether it is there.
  unfoldable pub lookup : K → List (K × V) → Option V
  lookup key [] = none
  lookup key ((other, value) ∷ rest) = if other == key then some value else lookup key rest

  -- `m[key] = value`
  unfoldable pub insert : K → V → List (K × V) → List (K × V)
  insert key value [] = (key, value) ∷ []
  insert key value ((other, old) ∷ rest) =
      if other == key then (key, value) ∷ rest else (other, old) ∷ insert key value rest

  -- `delete(m, k)`
  unfoldable pub erase : K → List (K × V) → List (K × V)
  erase k [] = []
  erase k ((j, w) ∷ m) = let rest = erase k m in if j == k then rest else (j, w) ∷ rest

  -- The loop that deletes the entries for which the test fails.
  unfoldable pub retain : (V → Bool) → List (K × V) → List (K × V)
  retain keep [] = []
  retain keep ((j, w) ∷ m) = let rest = retain keep m in if keep w then (j, w) ∷ rest else rest

  abbrev pub Unique : List (K × V) → Type κ
  Unique [] = Unit
  Unique ((k, v) ∷ m) = (lookup k m ≡ none) × Unique m

  abbrev pub AllValues : (V → Type 0) → List (K × V) → Type 0
  AllValues P [] = Unit
  AllValues P ((k, v) ∷ m) = P v × AllValues P m

module _ {ℓ κ} {K : Type ℓ} {V : Type κ} ⦃e : MapKey K⦄ where
  pub lookup-insert :
      (key asked : K) (value : V) (entries : List (K × V))
      → lookup asked (insert key value entries)
        ≡ (if key == asked then some value else lookup asked entries)
  unfolding lookup insert
  lookup-insert key asked value [] = refl
  lookup-insert key asked value ((other, old) ∷ rest) =
      let ih = lookup-insert key asked value rest in
      ground (arith, ih, e.equal_iff key asked, e.equal_iff other key, e.equal_iff other asked)

  pub lookup-erase :
      (k j : K) (m : List (K × V)) → lookup j (erase k m) ≡ (if k == j then none else lookup j m)
  unfolding lookup erase
  lookup-erase k j [] = ground arith
  lookup-erase k j ((i, w) ∷ m) =
      ground (arith, e.equal_iff k j, e.equal_iff i k, e.equal_iff i j, lookup-erase k j m)

  pub length-insert_new :
      (k : K) (v : V) (m : List (K × V))
      → lookup k m ≡ none
      → length (insert k v m) ≡ suc (length m)
  unfolding lookup insert
  length-insert_new k v [] h = refl
  length-insert_new k v ((i, w) ∷ m) h = ground (arith, length-insert_new k v m)

  pub length-insert_old :
      (k : K) (v w : V) (m : List (K × V)) → lookup k m ≡ some w → length (insert k v m) ≡ length m
  unfolding lookup insert
  length-insert_old k v w [] h = cc
  length-insert_old k v w ((i, x) ∷ m) h = ground (arith, length-insert_old k v w m)

  pub erase-none : (k : K) (m : List (K × V)) → lookup k m ≡ none → erase k m ≡ m
  unfolding lookup erase
  erase-none k [] h = refl
  erase-none k ((i, w) ∷ m) h = ground (arith, erase-none k m)

  pub length-erase :
      (k : K) (v : V) (m : List (K × V))
      → Unique m
      → lookup k m ≡ some v
      → suc (length (erase k m)) ≡ length m
  unfolding lookup erase
  length-erase k v [] u h = cc
  length-erase k v ((i, w) ∷ m) u h =
      ground (arith, e.equal_iff i k, erase-none k m, length-erase k v m u.1)

  pub insert-Unique : (k : K) (v : V) (m : List (K × V)) → Unique m → Unique (insert k v m)
  unfolding lookup insert
  insert-Unique k v [] u = (refl, tt)
  insert-Unique k v ((i, w) ∷ m) u =
      ground
        (arith, e.equal_iff i k, e.equal_iff k i, insert-Unique k v m u.1, lookup-insert k i v m)

  pub erase-Unique : (k : K) (m : List (K × V)) → Unique m → Unique (erase k m)
  unfolding lookup erase
  erase-Unique k [] u = tt
  erase-Unique k ((i, w) ∷ m) u = ground (arith, erase-Unique k m u.1, lookup-erase k i m)

  pub AllValues-insert :
      (P : V → Type 0) (k : K) (v : V) (m : List (K × V))
      → AllValues P m
      → P v
      → AllValues P (insert k v m)
  unfolding insert
  AllValues-insert P k v [] a p = (p, tt)
  AllValues-insert P k v ((i, w) ∷ m) a p = elim (Bool-cases (i == k)) [
    | inl hit ↦ rw hit (p, a.1)
    | inr miss ↦ rw miss (a.0, AllValues-insert P k v m a.1 p)
  ]

  pub AllValues-erase :
      (P : V → Type 0) (k : K) (m : List (K × V)) → AllValues P m → AllValues P (erase k m)
  unfolding erase
  AllValues-erase P k [] a = tt
  AllValues-erase P k ((i, w) ∷ m) a = elim (Bool-cases (i == k)) [
    | inl hit ↦ rw hit (AllValues-erase P k m a.1)
    | inr miss ↦ rw miss (a.0, AllValues-erase P k m a.1)
  ]

  pub AllValues-map :
      (P Q : V → Type 0) (m : List (K × V)) → ((v : V) → P v → Q v) → AllValues P m → AllValues Q m
  AllValues-map P Q [] f a = tt
  AllValues-map P Q ((i, w) ∷ m) f a = (f w a.0, AllValues-map P Q m f a.1)

  pub AllValues-lookup :
      (P : V → Type 0) (k : K) (v : V) (m : List (K × V))
      → AllValues P m
      → lookup k m ≡ some v
      → P v
  unfolding lookup
  AllValues-lookup P k v [] a h = cc
  AllValues-lookup P k v ((i, w) ∷ m) a h = elim (Bool-cases (i == k)) [
    | inl hit ↦ let found : w ≡ v = ground arith in subst P found a.0
    | inr miss ↦ AllValues-lookup P k v m a.1 (rw miss at h)
  ]

  pub length-retain-le : (p : V → Bool) (m : List (K × V)) → length (retain p m) ≤ length m
  unfolding retain
  length-retain-le p [] = omega arith
  length-retain-le p ((i, w) ∷ m) = ground (arith, length-retain-le p m)

  pub lookup-retain-none :
      (k : K) (p : V → Bool) (m : List (K × V)) → lookup k m ≡ none → lookup k (retain p m) ≡ none
  unfolding lookup retain
  lookup-retain-none k p [] h = refl
  lookup-retain-none k p ((i, w) ∷ m) h = ground (arith, lookup-retain-none k p m)

  pub lookup-retain_kept :
      (k : K) (p : V → Bool) (v : V) (m : List (K × V))
      → lookup k m ≡ some v
      → p v ≡ true
      → lookup k (retain p m) ≡ some v
  unfolding lookup retain
  lookup-retain_kept k p v [] h t = cc
  lookup-retain_kept k p v ((i, w) ∷ m) h t = ground (arith, lookup-retain_kept k p v m)

  -- An entry that fails the test is gone, since no second entry has its key.
  pub lookup-retain_dropped :
      (k : K) (p : V → Bool) (v : V) (m : List (K × V))
      → Unique m
      → lookup k m ≡ some v
      → p v ≡ false
      → lookup k (retain p m) ≡ none
  unfolding lookup retain
  lookup-retain_dropped k p v [] u h t = refl
  lookup-retain_dropped k p v ((i, w) ∷ m) u h t =
      ground (arith, e.equal_iff i k, lookup-retain-none k p m, lookup-retain_dropped k p v m u.1)

  pub retain-Unique : (p : V → Bool) (m : List (K × V)) → Unique m → Unique (retain p m)
  unfolding retain
  retain-Unique p [] u = tt
  retain-Unique p ((i, w) ∷ m) u = ground (arith, lookup-retain-none i p m, retain-Unique p m u.1)

  -- What is left passed the test.
  pub AllValues-retain :
      (P Q : V → Type 0) (p : V → Bool) (m : List (K × V))
      → ((v : V) → P v → p v ≡ true → Q v)
      → AllValues P m
      → AllValues Q (retain p m)
  unfolding retain
  AllValues-retain P Q p [] f a = tt
  AllValues-retain P Q p ((i, w) ∷ m) f a = elim (Bool-cases (p w)) [
    | inl kept ↦ rw kept (f w a.0 kept, AllValues-retain P Q p m f a.1)
    | inr gone ↦ rw gone (AllValues-retain P Q p m f a.1)
  ]

  -- Nothing is removed where everything passes.
  pub retain_all :
      (p : V → Bool) (m : List (K × V)) → AllValues (λ v. p v ≡ true) m → retain p m ≡ m
  unfolding retain
  retain_all p [] a = refl
  retain_all p ((i, w) ∷ m) a = ground (arith, retain_all p m a.1)

  pub AllValues-all : (P : V → Type 0) (m : List (K × V)) → ((v : V) → P v) → AllValues P m
  AllValues-all P [] f = tt
  AllValues-all P ((i, w) ∷ m) f = (f w, AllValues-all P m f)

  pub lookup-insert_ne :
      (k j : K) (v : V) (m : List (K × V)) → k ≢ j → lookup j (insert k v m) ≡ lookup j m
  lookup-insert_ne k j v m h = ground (arith, lookup-insert k j v m, e.equal_iff k j)

  pub lookup-insert_self : (k : K) (v : V) (m : List (K × V)) → lookup k (insert k v m) ≡ some v
  lookup-insert_self k v m = ground (arith, lookup-insert k k v m, beq_self k)

  pub lookup-erase_ne : (k j : K) (m : List (K × V)) → k ≢ j → lookup j (erase k m) ≡ lookup j m
  lookup-erase_ne k j m h = ground (arith, lookup-erase k j m, e.equal_iff k j)

  pub lookup-erase_self : (k : K) (m : List (K × V)) → lookup k (erase k m) ≡ none
  lookup-erase_self k m = ground (arith, lookup-erase k k m, beq_self k)

  pub lookup-retain-some :
      (k : K) (p : V → Bool) (v : V) (m : List (K × V))
      → Unique m
      → lookup k (retain p m) ≡ some v
      → (lookup k m ≡ some v) × (p v ≡ true)
  lookup-retain-some k p v m u h = elim (Option-cases (lookup k m)) [
    | inl absent ↦ absurd (cc (lookup-retain-none k p m absent))
    | inr (w, found) ↦ elim (Bool-cases (p w)) [
      | inl kept ↦ let same = lookup-retain_kept k p w m found kept in ground arith
      | inr gone ↦ absurd (cc (lookup-retain_dropped k p w m u found gone))
    ]
  ]

  -- A predicate that holds wherever the map is looked up holds of all its values.
  pub AllValues-of_lookup :
      (P : V → Type 0) (m : List (K × V))
      → Unique m
      → ((k : K) (v : V) → lookup k m ≡ some v → P v)
      → AllValues P m
  unfolding lookup
  AllValues-of_lookup P [] u f = tt
  AllValues-of_lookup P ((i, w) ∷ m) u f = (
    f i w (rw (beq_self i)),
    AllValues-of_lookup P m u.1 (λ k v h. f k v (elim (Bool-cases (i == k)) [
      | inl same ↦ absurd (ground (arith, e.equal_iff i k))
      | inr other ↦ rw other h
    ])),
  )

  pub lookup-insert_cases :
      (key asked : K) (value v : V) (entries : List (K × V))
      → lookup asked (insert key value entries) ≡ some v
      → ((key ≡ asked) × (value ≡ v)) ⊎ ((key ≢ asked) × (lookup asked entries ≡ some v))
  lookup-insert_cases key asked value v entries h = elim (Bool-cases (key == asked)) [
    | inl same ↦
        let seen : some value ≡ some v = rw (lookup-insert key asked value entries, same) at h in
        inl ((e.equal_iff key asked).0 same, cc)
    | inr other ↦
        inr (ne_of_beq key asked other, rw (lookup-insert key asked value entries, other) at h)
  ]

  pub erase-insert_new :
      (k : K) (v : V) (m : List (K × V)) → lookup k m ≡ none → erase k (insert k v m) ≡ m
  unfolding lookup insert erase
  erase-insert_new k v [] h = rw (beq_self k) refl
  erase-insert_new k v ((i, w) ∷ m) h = ground (arith, erase-insert_new k v m)

  pub insert-insert :
      (k : K) (v w : V) (m : List (K × V)) → insert k w (insert k v m) ≡ insert k w m
  unfolding insert
  insert-insert k v w [] = rw (beq_self k) refl
  insert-insert k v w ((i, x) ∷ m) = ground (arith, insert-insert k v w m, beq_self k)
