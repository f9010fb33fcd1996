-- ===== src/RateLimit/Search/Invariant.antt =====
-- search_concurrency_limiter.go: the counters count the permits that are out, and a permit's entry
-- stays its user's entry.
use grok_search_mcp.Base.{
  ℕ, ◌≤◌, ◌<◌, ◌≡◌, ◌∙◌, inl, inr, String, false, none, some, arith, eqb, length, Bool-cases,
}
use grok_search_mcp.Base.Keys.{◌==◌, string_key, nat_key, ne_of_beq}
use grok_search_mcp.Base.Assoc.{lookup, Unique, AllValues, AllValues-map}
use grok_search_mcp.Base.Count.{count_by, count_by-congr, count_by-none}
use grok_search_mcp.RateLimit.Search.{Lease, SearchConcurrencyLimiter}

-- The permits that are out at an entry, and those of a user.
abbrev pub at_entry : SearchConcurrencyLimiter → ℕ → ℕ
at_entry l p = count_by (λ x. eqb x.entry p) l.held

abbrev pub held_by : SearchConcurrencyLimiter → String → ℕ
held_by l u = count_by (λ x. x.user_id == u) l.held

pub record Inv (l : SearchConcurrencyLimiter) : Type 0 where
  pub held_unique : Unique l.held
  pub entries_unique : Unique l.entries
  pub fresh_lease : (id : ℕ) → l.next_lease ≤ id → lookup id l.held ≡ none
  pub counted : l.global_active ≡ length l.held
  pub counted_entry : (p : ℕ) → (l.heap p).active ≡ at_entry l p
  pub owned : AllValues (λ x. lookup x.user_id l.entries ≡ some x.entry) l.held
  pub below : (u : String) (p : ℕ) → lookup u l.entries ≡ some p → p < l.next_pointer
  pub separate :
      (u v : String) (p : ℕ) → lookup u l.entries ≡ some p → lookup v l.entries ≡ some p → u ≡ v

-- A permit of an entry's user is a permit at the entry, and the other way round.
same_holder :
    (l : SearchConcurrencyLimiter) (u : String) (p : ℕ)
    → Inv l
    → lookup u l.entries ≡ some p
    → (x : Lease) → lookup x.user_id l.entries ≡ some x.entry
    → eqb x.entry p ≡ (x.user_id == u)
same_holder l u p v found x own = elim (Bool-cases (x.user_id == u)) [
  | inl same ↦
      let user : x.user_id ≡ u = (string_key.equal_iff x.user_id u).0 same in
      let again : lookup u l.entries ≡ some x.entry = rw user at own in rw same (ground arith)
  | inr other ↦ rw other (elim (Bool-cases (eqb x.entry p)) [
    | inl hit ↦
        let at_p : x.entry ≡ p = ground arith in
        let again : lookup x.user_id l.entries ≡ some p = rw at_p at own in
        absurd (ne_of_beq x.user_id u other (v.separate x.user_id u p again found))
    | inr miss ↦ miss
  ])
]

-- The count in a user's entry is the number of permits that the user holds.
pub active-held_by :
    (l : SearchConcurrencyLimiter) (u : String) (p : ℕ)
    → Inv l
    → lookup u l.entries ≡ some p
    → (l.heap p).active ≡ held_by l u
active-held_by l u p v found =
    v.counted_entry p
    ∙ count_by-congr (λ x. eqb x.entry p) (λ x. x.user_id == u) l.held
        (AllValues-map (λ x. lookup x.user_id l.entries ≡ some x.entry)
          (λ x. eqb x.entry p ≡ (x.user_id == u)) l.held (same_holder l u p v found) v.owned)

-- A user without an entry holds no permit.
pub absent-held_by :
    (l : SearchConcurrencyLimiter) (u : String)
    → Inv l
    → lookup u l.entries ≡ none
    → held_by l u ≡ 0
absent-held_by l u v absent =
    count_by-none (λ x. x.user_id == u) l.held
      (AllValues-map (λ x. lookup x.user_id l.entries ≡ some x.entry)
        (λ x. (x.user_id == u) ≡ false) l.held
        (λ x own. elim (Bool-cases (x.user_id == u)) [
          | inl same ↦
              let user : x.user_id ≡ u = (string_key.equal_iff x.user_id u).0 same in
              let again : lookup u l.entries ≡ some x.entry = rw user at own in absurd (cc)
          | inr other ↦ other
        ])
        v.owned)

-- No permit is out at a pointer that is still free.
pub free-at_entry : (l : SearchConcurrencyLimiter) → Inv l → at_entry l l.next_pointer ≡ 0
free-at_entry l v =
    count_by-none (λ x. eqb x.entry l.next_pointer) l.held
      (AllValues-map (λ x. lookup x.user_id l.entries ≡ some x.entry)
        (λ x. eqb x.entry l.next_pointer ≡ false) l.held
        (λ x own. let lt = v.below x.user_id x.entry own in ground arith) v.owned)
