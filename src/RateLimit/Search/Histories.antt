-- ===== src/RateLimit/Search/Histories.antt =====
-- search_concurrency_limiter.go: what holds over any sequence of calls.
use grok_search_mcp.Base.{
  ℕ, suc, ◌+◌, ◌≤◌, ◌≡◌, refl, subst, inl, inr, String, Option, none, some, eqb, List, [], ◌∷◌,
  arith, length, Option-cases,
}
use grok_search_mcp.Base.Keys.{string_key, nat_key}
use grok_search_mcp.Base.Assoc.{lookup, erase, AllValues-lookup, lookup-erase_self, length-erase}
use grok_search_mcp.Base.Count.{count_by, one_if, count_by-erase}
use grok_search_mcp.RateLimit.Search.{
  Lease, SearchConcurrencyLimiter, try_acquire, release, cleanup_idle_entries, update_limits,
  new_search_concurrency_limiter, limits_error, fresh_limiter, to_nat,
}
use grok_search_mcp.Base.Int.{ℤ}
use grok_search_mcp.RateLimit.Search.Invariant.{Inv, held_by, active-held_by}
use grok_search_mcp.RateLimit.Search.Preservation.{release-Inv, cleanup-Inv, try_acquire-Inv}
use grok_search_mcp.RateLimit.Search.Bounds.{IsBounded, try_acquire-IsBounded, release-IsBounded}

-- The counters of all entries count the permits before and after.
fewer_at :
    (l : SearchConcurrencyLimiter) (id now : ℕ) (x : Lease) (q : ℕ)
    → Inv l
    → lookup id l.held ≡ some x
    → one_if (eqb x.entry q) + ((release l id now).heap q).active ≡ (l.heap q).active
unfolding release
fewer_at l id now x q v out =
    let after = (release-Inv l id now v).counted_entry q in
    let fewer = count_by-erase (λ y. eqb y.entry q) id x l.held v.held_unique out in
    let still : ((release l id now).heap q).active
        ≡ count_by (λ y. eqb y.entry q) (erase id l.held) =
      rw (out, release) (rw (out, release) at after) in
    omega (arith, still, v.counted_entry q, fewer)

-- A permit that is given back is gone: the global counter goes down by one, and so does the counter of its
-- entry and no other. Both are then the permits that are still out, in all and of the user. Giving the
-- permit back once more changes nothing.
pub release_once :
    (l : SearchConcurrencyLimiter) (id now later : ℕ) (x : Lease) (q : ℕ)
    → Inv l
    → lookup id l.held ≡ some x
    → (suc (release l id now).global_active ≡ l.global_active)
      × (one_if (eqb x.entry q) + ((release l id now).heap q).active ≡ (l.heap q).active)
      × ((release l id now).global_active ≡ length (release l id now).held)
      × (((release l id now).heap x.entry).active ≡ held_by (release l id now) x.user_id)
      × (release (release l id now) id later ≡ release l id now)
unfolding release
release_once l id now later x q v out =
    let after = release-Inv l id now v in
    let kept : lookup x.user_id (release l id now).entries ≡ some x.entry =
      rw (out, release) (AllValues-lookup _ id x l.held v.owned out) in
    let fewer = length-erase id x l.held v.held_unique out in
    let gone = lookup-erase_self id l.held in
    (
      rw (out, release) (omega (arith, v.counted, fewer)),
      fewer_at l id now x q v out,
      after.counted,
      active-held_by (release l id now) x.user_id x.entry after kept,
      rw (out, release) (rw (gone, release) (rw (out, release))),
    )

-- The calls. The update of the limits carries the two new ones.
pub data Call : Type 0 where
  acquires : String → Call
  releases : ℕ → Call
  cleans : Call
  sets_limits : ℤ → ℤ → Call

unfoldable pub step : SearchConcurrencyLimiter → ℕ × Call → SearchConcurrencyLimiter
step l (now, acquires u) = (try_acquire l u now).1
step l (now, releases id) = release l id now
step l (now, cleans) = cleanup_idle_entries l now
step l (now, sets_limits global per_user) = (update_limits l global per_user).1

unfoldable pub run : SearchConcurrencyLimiter → List (ℕ × Call) → SearchConcurrencyLimiter
run l [] = l
run l (c ∷ cs) = run (step l c) cs

-- An update with that error is refused, or its limits are within the bounds.
unfoldable pub UpdateWithin : ℕ → ℕ → Option String → ℤ → ℤ → Type 0
UpdateWithin most_global most_per_user (some message) global per_user = Unit
UpdateWithin most_global most_per_user none global per_user =
    (to_nat global ≤ most_global) × (to_nat per_user ≤ most_per_user)

-- No update of the calls that is accepted sets a limit above its bound.
unfoldable pub LimitsWithin : ℕ → ℕ → List (ℕ × Call) → Type 0
LimitsWithin most_global most_per_user [] = Unit
LimitsWithin most_global most_per_user ((now, acquires u) ∷ cs) =
    LimitsWithin most_global most_per_user cs
LimitsWithin most_global most_per_user ((now, releases id) ∷ cs) =
    LimitsWithin most_global most_per_user cs
LimitsWithin most_global most_per_user ((now, cleans) ∷ cs) =
    LimitsWithin most_global most_per_user cs
LimitsWithin most_global most_per_user ((now, sets_limits global per_user) ∷ cs) =
    UpdateWithin most_global most_per_user (limits_error global per_user) global per_user
    × LimitsWithin most_global most_per_user cs

update_limits-Inv :
    (l : SearchConcurrencyLimiter) (global per_user : ℤ)
    → Inv l
    → Inv (update_limits l global per_user).1
unfolding update_limits
update_limits-Inv l global per_user v = elim (Option-cases (limits_error global per_user)) [
  | inr (message, bad) ↦ rw (bad, update_limits) v
  | inl good ↦
      rw (good, update_limits)
        (record {
          held_unique = v.held_unique;
          entries_unique = v.entries_unique;
          fresh_lease = v.fresh_lease;
          counted = v.counted;
          counted_entry = v.counted_entry;
          owned = v.owned;
          below = v.below;
          separate = v.separate;
        })
]

module _ (most_global most_per_user : ℕ) where
  update_limits-IsBounded :
      (l : SearchConcurrencyLimiter) (global per_user : ℤ)
      → UpdateWithin most_global most_per_user (limits_error global per_user) global per_user
      → IsBounded most_global most_per_user l
      → IsBounded most_global most_per_user (update_limits l global per_user).1
  unfolding update_limits UpdateWithin
  update_limits-IsBounded l global per_user within b =
      elim (Option-cases (limits_error global per_user)) [
        | inr (message, bad) ↦ rw (bad, update_limits) b
        | inl good ↦
            let (small, small_user) = rw good at within in
            rw (good, update_limits)
              (record {
                global_limit = small;
                per_user_limit = small_user;
                global = b.global;
                per_user = b.per_user;
              })
      ]

  run-Inv :
      (l : SearchConcurrencyLimiter) (cs : List (ℕ × Call))
      → LimitsWithin most_global most_per_user cs
      → Inv l
      → IsBounded most_global most_per_user l
      → Inv (run l cs) × IsBounded most_global most_per_user (run l cs)
  unfolding run step cleanup_idle_entries LimitsWithin
  run-Inv l [] within v b = (v, b)
  run-Inv l ((now, acquires u) ∷ cs) within v b =
      run-Inv (try_acquire l u now).1 cs within (try_acquire-Inv l u now v)
        (try_acquire-IsBounded most_global most_per_user l u now v b)
  run-Inv l ((now, releases id) ∷ cs) within v b =
      run-Inv (release l id now) cs within (release-Inv l id now v)
        (release-IsBounded most_global most_per_user l id now v b)
  run-Inv l ((now, cleans) ∷ cs) within v b =
      run-Inv (cleanup_idle_entries l now) cs within (cleanup-Inv l now v) (record {
        global_limit = b.global_limit;
        per_user_limit = b.per_user_limit;
        global = b.global;
        per_user = b.per_user;
      })
  run-Inv l ((now, sets_limits global per_user) ∷ cs) within v b =
      run-Inv (update_limits l global per_user).1 cs within.1
        (update_limits-Inv l global per_user v)
        (update_limits-IsBounded l global per_user within.0 b)

  fresh-Inv :
      (g p : ℕ)
      → g ≤ most_global
      → p ≤ most_per_user
      → Inv (fresh_limiter g p) × IsBounded most_global most_per_user (fresh_limiter g p)
  unfolding lookup count_by
  fresh-Inv g p small small_user = (
    record {
      held_unique = tt;
      entries_unique = tt;
      fresh_lease = λ id h. refl;
      counted = refl;
      counted_entry = λ q. refl;
      owned = tt;
      below = λ u q h. cc;
      separate = λ u w q h k. cc;
    },
    record {
      global_limit = small;
      per_user_limit = small_user;
      global = omega arith;
      per_user = λ u. omega arith;
    },
  )

  -- Whatever searches, releases, clean-ups and updates of the limits arrive, in whatever order, a limiter
  -- never has more permits out than the largest global limit that it was made with or was set to, nor more
  -- for one user than the largest per-user limit, and its counters stay true.
  pub run-IsBounded :
      (global per_user : ℤ) (l : SearchConcurrencyLimiter) (cs : List (ℕ × Call))
      → new_search_concurrency_limiter global per_user ≡ some l
      → to_nat global ≤ most_global
      → to_nat per_user ≤ most_per_user
      → LimitsWithin most_global most_per_user cs
      → Inv (run l cs) × IsBounded most_global most_per_user (run l cs)
  unfolding new_search_concurrency_limiter
  run-IsBounded global per_user l cs made small small_user within =
      elim (Option-cases (limits_error global per_user)) [
        | inr (message, bad) ↦ absurd (ground arith)
        | inl good ↦
            let same : fresh_limiter (to_nat global) (to_nat per_user) ≡ l = ground arith in
            let (v, b) =
              subst (λ x. Inv x × IsBounded most_global most_per_user x) same
                (fresh-Inv (to_nat global) (to_nat per_user) small small_user) in
            run-Inv l cs within v b
      ]
