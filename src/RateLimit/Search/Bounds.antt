-- ===== src/RateLimit/Search/Bounds.antt =====
-- search_concurrency_limiter.go: an acquisition and a release keep the permits within bounds on the limits.
use grok_search_mcp.Base.{
  ℕ, ◌+◌, ◌≤◌, ◌<◌, ◌≡◌, subst, inl, inr, String, arith, length, Option-cases, Bool-cases,
}
use grok_search_mcp.Base.Keys.{◌==◌, string_key, nat_key}
use grok_search_mcp.Base.Assoc.{lookup, length-insert_new, length-erase}
use grok_search_mcp.Base.Count.{one_if, count_by-insert_new, count_by-erase}
use grok_search_mcp.RateLimit.Search.{
  Lease, SearchConcurrencyLimiter, touch, grant, acquire_for_user, try_acquire, release,
}
use grok_search_mcp.RateLimit.Search.Invariant.{Inv, held_by}
use grok_search_mcp.RateLimit.Search.Preservation.{entry_for_lem}
use grok_search_mcp.RateLimit.Search.Admission.{try_acquire-Admits}

-- The limits are within a bound each, and so are the permits that are out.
pub record IsBounded (most_global most_per_user : ℕ) (l : SearchConcurrencyLimiter) : Type 0 where
  pub global_limit : l.global_limit ≤ most_global
  pub per_user_limit : l.per_user_limit ≤ most_per_user
  pub global : length l.held ≤ most_global
  pub per_user : (u : String) → held_by l u ≤ most_per_user

try_acquire-limits :
    (l : SearchConcurrencyLimiter) (u : String) (now : ℕ)
    → Inv l
    → ((try_acquire l u now).1.global_limit ≡ l.global_limit)
      × ((try_acquire l u now).1.per_user_limit ≡ l.per_user_limit)
unfolding try_acquire acquire_for_user grant touch
try_acquire-limits l u now v = ground (arith, entry_for_lem l u v)

added_bound :
    (l : SearchConcurrencyLimiter) (u w : String) (most : ℕ)
    → held_by l u < most
    → held_by l w ≤ most
    → one_if (u == w) + held_by l w ≤ most
added_bound l u w most room h = elim (Bool-cases (u == w)) [
  | inl same ↦
      rw same
        (subst (λ x. 1 + held_by l x ≤ most) ((string_key.equal_iff u w).0 same) (omega arith))
  | inr other ↦ rw other (omega arith)
]

module _ (most_global most_per_user : ℕ) where
  pub try_acquire-IsBounded :
      (l : SearchConcurrencyLimiter) (u : String) (now : ℕ)
      → Inv l
      → IsBounded most_global most_per_user l
      → IsBounded most_global most_per_user (try_acquire l u now).1
  try_acquire-IsBounded l u now v b =
      let (global_same, user_same) = try_acquire-limits l u now v in
      elim (try_acquire-Admits l u now v) [
        | inl (m, refused, same) ↦ record {
          global_limit = rw global_same b.global_limit;
          per_user_limit = rw user_same b.per_user_limit;
          global = rw same b.global;
          per_user = λ w. rw same (b.per_user w);
        }
        | inr (p, given, more, room, user_room) ↦
            let new = v.fresh_lease l.next_lease (omega arith) in
            let x : Lease = record { user_id = u; entry = p } in
            record {
              global_limit = rw global_same b.global_limit;
              per_user_limit = rw user_same b.per_user_limit;
              global =
                  rw more
                    (omega (arith, b.global_limit, length-insert_new l.next_lease x l.held new));
              per_user = λ w.
                  rw (more, count_by-insert_new (λ y. y.user_id == w) l.next_lease x l.held new)
                    (added_bound l u w most_per_user (omega (arith, b.per_user_limit))
                      (b.per_user w));
            }
      ]

  pub release-IsBounded :
      (l : SearchConcurrencyLimiter) (id now : ℕ)
      → Inv l
      → IsBounded most_global most_per_user l
      → IsBounded most_global most_per_user (release l id now)
  unfolding release
  release-IsBounded l id now v b = elim (Option-cases (lookup id l.held)) [
    | inl gone ↦ rw (gone, release) b
    | inr (x, out) ↦
        rw (out, release)
          (record {
            global_limit = b.global_limit;
            per_user_limit = b.per_user_limit;
            global = omega (arith, b.global, length-erase id x l.held v.held_unique out);
            per_user = λ w. omega (
              arith,
              b.per_user w,
              count_by-erase (λ y. y.user_id == w) id x l.held v.held_unique out,
            );
          })
  ]
