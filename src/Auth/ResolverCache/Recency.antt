-- ===== src/Auth/ResolverCache/Recency.antt =====
-- resolver_cache.go: the list of hashes in the order of their use.
use grok_search_mcp.Base.{
  suc, ◌≡◌, ◌≢◌, ◌<◌, refl, sym, ◌∙◌, String, Bool, true, false, ◌||◌, none, some, List, [], ◌∷◌,
  length, arith,
}
use grok_search_mcp.Base.Keys.{◌==◌, string_key, beq_self}
use grok_search_mcp.Auth.ResolverCache.{remove, back}

unfoldable pub occurs : String → List String → Bool
occurs hash [] = false
occurs hash (other ∷ rest) = (other == hash) || occurs hash rest

-- No hash occurs twice.
unfoldable pub Distinct : List String → Type 0
Distinct [] = Unit
Distinct (hash ∷ rest) = (occurs hash rest ≡ false) × Distinct rest

pub occurs-remove_other :
    (hash other : String) (xs : List String)
    → (hash == other) ≡ false
    → occurs other (remove hash xs) ≡ occurs other xs
unfolding occurs remove
occurs-remove_other hash other [] h = refl
occurs-remove_other hash other (x ∷ xs) h = ground (
  arith,
  occurs-remove_other hash other xs h,
  string_key.equal_iff x hash,
  string_key.equal_iff hash other,
  string_key.equal_iff x other,
)

pub occurs-remove_self :
    (hash : String) (xs : List String) → Distinct xs → occurs hash (remove hash xs) ≡ false
unfolding occurs remove Distinct
occurs-remove_self hash [] d = refl
occurs-remove_self hash (x ∷ xs) d =
    ground (arith, occurs-remove_self hash xs d.1, string_key.equal_iff x hash)

-- What does not occur does not occur in less.
pub occurs-remove_none :
    (hash other : String) (xs : List String)
    → occurs other xs ≡ false
    → occurs other (remove hash xs) ≡ false
unfolding occurs remove
occurs-remove_none hash other [] h = refl
occurs-remove_none hash other (x ∷ xs) h = ground (arith, occurs-remove_none hash other xs)

pub remove-Distinct : (hash : String) (xs : List String) → Distinct xs → Distinct (remove hash xs)
unfolding remove Distinct occurs
remove-Distinct hash [] d = tt
remove-Distinct hash (x ∷ xs) d =
    ground (arith, remove-Distinct hash xs d.1, occurs-remove_none hash x xs)

pub length-remove :
    (hash : String) (xs : List String)
    → occurs hash xs ≡ true
    → suc (length (remove hash xs)) ≡ length xs
unfolding occurs remove
length-remove hash [] h = cc
length-remove hash (x ∷ xs) h = ground (arith, length-remove hash xs)

pub back-occurs : (hash : String) (xs : List String) → back xs ≡ some hash → occurs hash xs ≡ true
unfolding back occurs
back-occurs hash [] h = cc
back-occurs hash (x ∷ []) h = let same : x ≡ hash = cc in rw (same, beq_self hash) refl
back-occurs hash (x ∷ y ∷ rest) h = ground (arith, back-occurs hash (y ∷ rest) h)

pub back-none : (xs : List String) → back xs ≡ none → length xs ≡ 0
unfolding back
back-none [] h = refl
back-none (x ∷ []) h = cc
back-none (x ∷ y ∷ rest) h = let ih = back-none (y ∷ rest) h in absurd (omega arith)

pub remove-front :
    (last hash : String) (rest : List String)
    → (hash == last) ≡ false
    → remove last (hash ∷ rest) ≡ hash ∷ remove last rest
unfolding remove
remove-front last hash rest h = rw h refl

back-rest : (hash : String) (rest : List String) → 0 < length rest → back (hash ∷ rest) ≡ back rest
unfolding back
back-rest hash [] h = absurd (omega arith)
back-rest hash (x ∷ rest) h = refl

-- Of more than one different hashes, the last is not the first.
pub back-not_front :
    (hash last : String) (rest : List String)
    → 0 < length rest
    → Distinct (hash ∷ rest)
    → back (hash ∷ rest) ≡ some last
    → hash ≢ last
unfolding Distinct
back-not_front hash last rest others distinct ends same =
    let at_end = back-occurs last rest (sym (back-rest hash rest others) ∙ ends) in
    let twice : occurs hash rest ≡ true = rw same at_end in cc
