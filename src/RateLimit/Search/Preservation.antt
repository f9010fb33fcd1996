-- ===== src/RateLimit/Search/Preservation.antt =====
-- search_concurrency_limiter.go: every operation keeps the invariant.
use grok_search_mcp.Base.{
  ℕ, ◌+◌, ◌-◌, ◌≡◌, refl, sym, ◌∙◌, inl, inr, String, Bool, ◌&&◌, not, none, some, arith, ltb, leb,
  eqb, Option-cases, Bool-cases,
}
use grok_search_mcp.Base.Keys.{◌==◌, string_key, nat_key, ne_of_beq}
use grok_search_mcp.Base.Assoc.{
  lookup, insert, retain, AllValues-map, AllValues-lookup, AllValues-of_lookup, AllValues-insert,
  AllValues-erase, insert-Unique, erase-Unique, retain-Unique, lookup-insert, lookup-insert_self,
  lookup-insert_ne, lookup-erase, lookup-retain_kept, lookup-retain-some, length-insert_new,
  length-erase,
}
use grok_search_mcp.Base.Count.{count_by-insert_new, count_by-erase}
use grok_search_mcp.RateLimit.Search.{
  Lease, SearchConcurrencyLimiter, blank, update, entry_for, touch, grant, acquire_for_user,
  try_acquire, release, cleanup_idle_entries, update_limits, entry_idle_timeout, limits_error,
}
use grok_search_mcp.Base.Int.{ℤ}
use grok_search_mcp.RateLimit.Search.Invariant.{Inv, free-at_entry}

-- With a new entry, still no two users share one.
insert-separate :
    (l : SearchConcurrencyLimiter) (u : String)
    → Inv l
    → (w x : String) (p : ℕ) → lookup w (insert u l.next_pointer l.entries) ≡ some p
    → lookup x (insert u l.next_pointer l.entries) ≡ some p
    → w ≡ x
insert-separate l u v w x p fw fx =
    let at_w = sym (lookup-insert u w l.next_pointer l.entries) ∙ fw in
    let at_x = sym (lookup-insert u x l.next_pointer l.entries) ∙ fx in
    elim (Bool-cases (u == w)) [
      | inl uw ↦ elim (Bool-cases (u == x)) [
        | inl ux ↦ sym ((string_key.equal_iff u w).0 uw) ∙ (string_key.equal_iff u x).0 ux
        | inr nx ↦ absurd (ground (arith, v.below x p))
      ]
      | inr nw ↦ elim (Bool-cases (u == x)) [
        | inl ux ↦ absurd (ground (arith, v.below w p))
        | inr nx ↦ v.separate w x p (rw nw at at_w) (rw nx at at_x)
      ]
    ]

-- Allocating an entry for a user who has none keeps the invariant.
allocated-Inv :
    (l : SearchConcurrencyLimiter) (u : String)
    → Inv l
    → lookup u l.entries ≡ none
    → Inv (record l {
      entries = insert u l.next_pointer l.entries;
      heap = update l.heap l.next_pointer blank;
      next_pointer = l.next_pointer + 1;
    })
allocated-Inv l u v absent = record {
  held_unique = v.held_unique;
  entries_unique = insert-Unique u l.next_pointer l.entries v.entries_unique;
  fresh_lease = v.fresh_lease;
  counted = v.counted;
  counted_entry = λ p. ground (arith, v.counted_entry p, free-at_entry l v);
  owned =
      AllValues-map (λ x. lookup x.user_id l.entries ≡ some x.entry)
        (λ x. lookup x.user_id (insert u l.next_pointer l.entries) ≡ some x.entry) l.held
        (λ x own. elim (Bool-cases (u == x.user_id)) [
          | inl same ↦
              let user : u ≡ x.user_id = (string_key.equal_iff u x.user_id).0 same in
              let none_there : lookup x.user_id l.entries ≡ none = rw user at absent in absurd (cc)
          | inr other ↦
              lookup-insert_ne u x.user_id l.next_pointer l.entries (ne_of_beq u x.user_id other)
              ∙ own
        ])
        v.owned;
  below = λ w p found. grind (arith, lookup-insert u w l.next_pointer l.entries, v.below w p);
  separate = λ w x p fw fx. insert-separate l u v w x p fw fx;
}

pub touch-Inv : (l : SearchConcurrencyLimiter) (p now : ℕ) → Inv l → Inv (touch l p now)
unfolding touch
touch-Inv l p now v = record {
  held_unique = v.held_unique;
  entries_unique = v.entries_unique;
  fresh_lease = v.fresh_lease;
  counted = v.counted;
  counted_entry = λ q. ground (arith, v.counted_entry q, v.counted_entry p);
  owned = v.owned;
  below = v.below;
  separate = v.separate;
}

-- A permit for the entry of its user keeps the invariant.
grant-Inv :
    (l : SearchConcurrencyLimiter) (u : String) (p : ℕ)
    → Inv l
    → lookup u l.entries ≡ some p
    → Inv (grant l u p).1
unfolding grant
grant-Inv l u p v found =
    let x : Lease = record { user_id = u; entry = p } in
    let new = v.fresh_lease l.next_lease (omega arith) in
    record {
      held_unique = insert-Unique l.next_lease x l.held v.held_unique;
      entries_unique = v.entries_unique;
      fresh_lease = λ id h.
          ground (arith, lookup-insert l.next_lease id x l.held, v.fresh_lease id (omega arith));
      counted = omega (arith, v.counted, length-insert_new l.next_lease x l.held new);
      counted_entry = λ q. ground (
        arith,
        v.counted_entry q,
        v.counted_entry p,
        count_by-insert_new (λ y. eqb y.entry q) l.next_lease x l.held new,
      );
      owned =
          AllValues-insert (λ y. lookup y.user_id l.entries ≡ some y.entry) l.next_lease x l.held
            v.owned found;
      below = v.below;
      separate = v.separate;
    }

-- Giving a permit back, or giving it back again, keeps the invariant.
pub release-Inv : (l : SearchConcurrencyLimiter) (id now : ℕ) → Inv l → Inv (release l id now)
unfolding release
release-Inv l id now v = elim (Option-cases (lookup id l.held)) [
  | inl gone ↦ rw (gone, release) v
  | inr (x, out) ↦
      rw (out, release)
        (record {
          held_unique = erase-Unique id l.held v.held_unique;
          entries_unique = v.entries_unique;
          fresh_lease = λ j h. ground (arith, lookup-erase id j l.held, v.fresh_lease j h);
          counted = omega (arith, v.counted, length-erase id x l.held v.held_unique out);
          counted_entry = λ q. ground (
            arith,
            v.counted_entry q,
            v.counted_entry x.entry,
            count_by-erase (λ y. eqb y.entry q) id x l.held v.held_unique out,
          );
          owned =
              AllValues-erase (λ y. lookup y.user_id l.entries ≡ some y.entry) id l.held v.owned;
          below = v.below;
          separate = v.separate;
        })
]

-- The clean-up never removes the entry of a user with a permit.
pub cleanup-Inv :
    (l : SearchConcurrencyLimiter) (now : ℕ) → Inv l → Inv (cleanup_idle_entries l now)
unfolding cleanup_idle_entries
cleanup-Inv l now v = record {
  held_unique = v.held_unique;
  entries_unique = retain-Unique keep l.entries v.entries_unique;
  fresh_lease = v.fresh_lease;
  counted = v.counted;
  counted_entry = v.counted_entry;
  owned =
      AllValues-of_lookup (λ x. lookup x.user_id (retain keep l.entries) ≡ some x.entry) l.held
        v.held_unique
        (λ id x out.
          lookup-retain_kept x.user_id keep x.entry l.entries
            (AllValues-lookup (λ y. lookup y.user_id l.entries ≡ some y.entry) id x l.held v.owned
              out)
            (ground (
              arith,
              v.counted_entry x.entry,
              count_by-erase (λ y. eqb y.entry x.entry) id x l.held v.held_unique out,
            )));
  below = λ u p found. v.below u p (lookup-retain-some u keep p l.entries v.entries_unique found).0;
  separate = λ u w p fu fw.
      v.separate u w p (lookup-retain-some u keep p l.entries v.entries_unique fu).0
        (lookup-retain-some w keep p l.entries v.entries_unique fw).0;
}
  where
    keep : ℕ → Bool
    keep p = not (eqb (l.heap p).active 0 && ltb (l.heap p).last_seen (now - entry_idle_timeout))

-- What `entry_for` gives: the entry of the user, in a limiter with the same permits.
pub entry_for_lem :
    (l : SearchConcurrencyLimiter) (u : String)
    → Inv l
    → let (p, l') = entry_for l u in
      Inv l'
      × (lookup u l'.entries ≡ some p)
      × (l'.held ≡ l.held)
      × (l'.per_user_limit ≡ l.per_user_limit)
      × (l'.global_limit ≡ l.global_limit)
      × (l'.next_lease ≡ l.next_lease)
unfolding entry_for
entry_for_lem l u v = elim (Option-cases (lookup u l.entries)) [
  | inr (p, found) ↦ rw (found, entry_for) (v, found, refl, refl, refl, refl)
  | inl absent ↦
      rw (absent, entry_for)
        (
          allocated-Inv l u v absent,
          lookup-insert_self u l.next_pointer l.entries,
          refl,
          refl,
          refl,
          refl,
        )
]

acquire_for_user-Inv :
    (l : SearchConcurrencyLimiter) (u : String) (p : ℕ)
    → Inv l
    → lookup u l.entries ≡ some p
    → Inv (acquire_for_user l u p).1
unfolding acquire_for_user
acquire_for_user-Inv l u p v found = elim (Bool-cases (leb l.per_user_limit (l.heap p).active)) [
  | inl full ↦ rw full v
  | inr room ↦ rw room (grant-Inv l u p v found)
]

pub try_acquire-Inv :
    (l : SearchConcurrencyLimiter) (u : String) (now : ℕ) → Inv l → Inv (try_acquire l u now).1
unfolding try_acquire touch
try_acquire-Inv l u now v = elim (Bool-cases (leb l.global_limit l.global_active)) [
  | inl full ↦ rw full v
  | inr room ↦ rw room (
      let lem = entry_for_lem l u v in
      acquire_for_user-Inv (touch (entry_for l u).1 (entry_for l u).0 now) u (entry_for l u).0
        (touch-Inv (entry_for l u).1 (entry_for l u).0 now lem.0) lem.1)
]

pub update_limits-Inv :
    (l : SearchConcurrencyLimiter) (global per_user : ℤ)
    → Inv l
    → Inv (update_limits l global per_user).1
unfolding update_limits
update_limits-Inv l global per_user v = elim (Option-cases (limits_error global per_user)) [
  | inr (message, e) ↦ rw (e, update_limits) v
  | inl e ↦
      rw (e, update_limits)
        (record {
          held_unique = v.held_unique;
          entries_unique = v.entries_unique;
          fresh_lease = v.fresh_lease;
          counted = v.counted;
          counted_entry = v.counted_entry;
          owned = v.owned;
          below = v.below;
          separate = v.separate;
        })
]
