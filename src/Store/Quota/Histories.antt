-- ===== src/Store/Quota/Histories.antt =====
-- users.go: histories of reserved and completed calls.
use grok_search_mcp.Base.{
  ℕ, zero, suc, ◌+◌, ◌≤◌, ◌<◌, ◌≡◌, refl, inl, inr, ◌≢◌, String, Bool, true, false, ◌&&◌, none,
  some, List, [], ◌∷◌, arith, eqb, if◌then◌else◌, Bool-cases, Option-cases, ap, ◌∙◌,
}
use grok_search_mcp.Base.Int.{ℤ, pos, negsuc}
use grok_search_mcp.Base.Keys.{◌==◌, string_key, nat_key}
use grok_search_mcp.Base.Assoc.{lookup, insert, erase, Unique, insert-Unique, erase-Unique}
use grok_search_mcp.Base.Count.{count_by, one_if, count_by-insert_new, count_by-erase}
use grok_search_mcp.Store.{User, SuccessQuotaReservation, Database}
use grok_search_mcp.Store.Transaction.{begin, exec}
use grok_search_mcp.Store.Quota.{
  charge_row, is_valid, effective_calls, is_within, count_call, insert_reservation,
  reserve_success_call, reserve_in, same_reservation, refund_call, refund, is_held, finish_call,
  complete_success_call, complete_in,
}
use grok_search_mcp.Store.Quota.Charges.{
  Charges, charge_here, charge_period, charge_user, charge_bounded,
}
use grok_search_mcp.Store.Quota.Ledger.{
  is_charge, charges, Ledger, total, QuotaCall, reserves, completes, Book, Books, insert-Books,
  effective_calls-total, count_call-Book, refund_call-Book,
}

-- The limit is positive and at most `most`.
unfoldable pub LimitsTo : ℕ → ℤ → Type 0
LimitsTo most (pos zero) = ⊥
LimitsTo most (pos (suc n)) = suc n ≤ most
LimitsTo most (negsuc n) = ⊥

-- The months of the reservations never go back, and their limits are positive and at most `most`.
unfoldable pub InOrder : ℕ → ℕ → List QuotaCall → Type 0
InOrder most clock [] = Unit
InOrder most clock (reserves id user_id limit period ∷ calls) =
    LimitsTo most limit × (clock ≤ period) × InOrder most period calls
InOrder most clock (completes id r succeeded ∷ calls) = InOrder most clock calls

-- Every total of a user and a month is at most `most`.
pub record IsBalanced (most clock : ℕ) (l : Ledger) : Type 0 where
  pub unique : Unique l.db.reservations
  pub books : Books clock l.db.users (total l)
  pub bounded : (k : String) (p : ℕ) → total l k p ≤ most

module _ (trim : String → String) where
  unfoldable pub quota_step : Ledger → QuotaCall → Ledger
  quota_step l (reserves id user_id limit period) = record l {
    db = (reserve_success_call l.db id user_id limit period).1;
  }
  quota_step l (completes id r succeeded) = record {
    db = (complete_success_call trim l.db id r succeeded).1;
    succeeded =
        if is_valid trim id r && is_held l.db id r && succeeded
        then r ∷ l.succeeded
        else l.succeeded;
  }

  unfoldable pub run_quota : Ledger → List QuotaCall → Ledger
  run_quota l [] = l
  run_quota l (c ∷ calls) = run_quota (quota_step l c) calls

limited :
    (most : ℕ) (limit : ℤ) (calls : ℕ)
    → LimitsTo most limit
    → is_within limit calls ≡ true
    → calls < most
unfolding LimitsTo is_within
limited most (pos zero) calls h w = elim h [ ]
limited most (pos (suc n)) calls h w = ground arith
limited most (negsuc n) calls h w = elim h [ ]

same_total-Book :
    (clock later : ℕ) (sum next : ℕ → ℕ) (u : User)
    → clock ≤ later
    → ((p : ℕ) → next p ≡ sum p)
    → Book clock sum u
    → Book later next u
same_total-Book clock later sum next u order same b = record {
  current = omega (arith, order, b.current);
  exact = omega (arith, same u.success_period, b.exact);
  no_future = λ p late. omega (arith, same p, b.no_future p late);
}

later-IsBalanced :
    (most clock later : ℕ) (l : Ledger)
    → clock ≤ later
    → IsBalanced most clock l
    → IsBalanced most later l
unfolding Books
later-IsBalanced most clock later l order v = record {
  unique = v.unique;
  books = λ k u h.
      same_total-Book clock later (total l k) (total l k) u order (λ p. refl) (v.books k u h);
  bounded = v.bounded;
}

-- A new charge, counted in its user's row.
charged-IsBalanced :
    (most clock : ℕ) (l : Ledger) (id : String) (r : SuccessQuotaReservation) (u : User)
    → clock ≤ r.period
    → lookup r.user_id l.db.users ≡ some u
    → lookup id l.db.reservations ≡ none
    → effective_calls r.period u < most
    → IsBalanced most clock l
    → IsBalanced most r.period (record l {
      db = record (l.db) {
        users = insert r.user_id (count_call r.period u) l.db.users;
        reservations = insert id r l.db.reservations;
      };
    })
unfolding total Books Charges
charged-IsBalanced most clock l id r u order found fresh room v =
    let next = λ (k : String) (p : ℕ).
      count_by (is_charge k p) (insert id r l.db.reservations) + charges k p l.succeeded in
    let grows : Charges r (total l) next =
      λ k p. omega (arith, count_by-insert_new (is_charge k p) id r l.db.reservations fresh) in
    let own = v.books r.user_id u found in
    record {
      unique = insert-Unique id r l.db.reservations v.unique;
      books =
          insert-Books clock r.period l.db.users (total l) next r.user_id (count_call r.period u)
            (count_call-Book clock r.period (total l r.user_id) (next r.user_id) u order
              (charge_here r (total l) next grows)
              (λ p other. charge_period r (total l) next r.user_id p grows other) own)
            (λ k w other b.
              same_total-Book clock r.period (total l k) (next k) w order
                (λ p. charge_user r (total l) next k p grows other) b)
            v.books;
      bounded = λ k p.
          charge_bounded most r (total l) next k p grows
            (omega (
              arith,
              charge_here r (total l) next grows,
              effective_calls-total clock r.period (total l r.user_id) u order own,
              room,
            ))
            (v.bounded k p);
    }

refund-Books :
    (clock : ℕ) (users : List (String × User)) (r : SuccessQuotaReservation)
    (sum next : String → ℕ → ℕ)
    → Charges r next sum
    → Books clock users sum
    → Books clock (refund r users) next
unfolding refund Books
refund-Books clock users r sum next c b = elim (Option-cases (lookup r.user_id users)) [
  | inl gone ↦
      rw (gone, refund)
        (λ k u h.
          let other : r.user_id ≢ k = λ same. absurd (cc) in
          same_total-Book clock clock (sum k) (next k) u (omega arith)
            (λ p. omega (arith, charge_user r next sum k p c other)) (b k u h))
  | inr (w, found) ↦
      rw (found, refund)
        (insert-Books clock clock users sum next r.user_id (refund_call r.period w)
          (refund_call-Book clock r.period (sum r.user_id) (next r.user_id) w
            (omega (arith, charge_here r next sum c))
            (λ p other. omega (arith, charge_period r next sum r.user_id p c other))
            (b r.user_id w found))
          (λ k u other own.
            same_total-Book clock clock (sum k) (next k) u (omega arith)
              (λ p. omega (arith, charge_user r next sum k p c other)) own)
          b)
]

-- A charge that is refunded, or that was refunded in a later month by its end.
dropped-IsBalanced :
    (most clock : ℕ) (l : Ledger) (id : String) (r : SuccessQuotaReservation)
    → lookup id l.db.reservations ≡ some r
    → IsBalanced most clock l
    → IsBalanced most clock (record l {
      db = record (l.db) { users = refund r l.db.users; reservations = erase id l.db.reservations };
    })
unfolding total Charges
dropped-IsBalanced most clock l id r held v =
    let next = λ (k : String) (p : ℕ).
      count_by (is_charge k p) (erase id l.db.reservations) + charges k p l.succeeded in
    let shrinks : Charges r next (total l) =
      λ k p. omega (arith, count_by-erase (is_charge k p) id r l.db.reservations v.unique held) in
    record {
      unique = erase-Unique id l.db.reservations v.unique;
      books = refund-Books clock l.db.users r (total l) next shrinks v.books;
      bounded = λ k p. omega (arith, shrinks k p, v.bounded k p);
    }

-- A charge that ended with success.
settled-IsBalanced :
    (most clock : ℕ) (l : Ledger) (id : String) (r : SuccessQuotaReservation)
    → lookup id l.db.reservations ≡ some r
    → IsBalanced most clock l
    → IsBalanced most clock (record {
      db = record (l.db) { reservations = erase id l.db.reservations };
      succeeded = r ∷ l.succeeded;
    })
unfolding total Books charges
settled-IsBalanced most clock l id r held v =
    let next = λ (k : String) (p : ℕ).
      count_by (is_charge k p) (erase id l.db.reservations)
      + (one_if (is_charge k p r) + charges k p l.succeeded) in
    let same : (k : String) (p : ℕ) → next k p ≡ total l k p =
      λ k p. omega (arith, count_by-erase (is_charge k p) id r l.db.reservations v.unique held) in
    record {
      unique = erase-Unique id l.db.reservations v.unique;
      books = λ k u h.
          same_total-Book clock clock (total l k) (next k) u (omega arith) (same k) (v.books k u h);
      bounded = λ k p. omega (arith, same k p, v.bounded k p);
    }

same_reservation_lem :
    (held r : SuccessQuotaReservation) → same_reservation held r ≡ true → held ≡ r
same_reservation_lem held r h = elim (Bool-cases (held.user_id == r.user_id)) [
  | inr other ↦ absurd (ground (arith, other, h))
  | inl user ↦
      let same_user : held.user_id ≡ r.user_id =
        (string_key.equal_iff held.user_id r.user_id).0 user in
      let period : eqb held.period r.period ≡ true = rw user at h in
      let same_period : held.period ≡ r.period =
        (nat_key.equal_iff held.period r.period).0 period in
      cc
]

is_held-lookup :
    (db : Database) (id : String) (r : SuccessQuotaReservation)
    → is_held db id r ≡ true
    → lookup id db.reservations ≡ some r
unfolding is_held
is_held-lookup db id r h = elim (Option-cases (lookup id db.reservations)) [
  | inl gone ↦ let wrong : false ≡ true = rw (gone, is_held) at h in cc
  | inr (held, found) ↦
      let same : same_reservation held r ≡ true = rw (found, is_held) at h in
      found ∙ ap some (same_reservation_lem held r same)
]

insert_reservation-IsBalanced :
    (most clock : ℕ) (l : Ledger) (id : String) (r : SuccessQuotaReservation) (u : User)
    → clock ≤ r.period
    → lookup r.user_id l.db.users ≡ some u
    → effective_calls r.period u < most
    → IsBalanced most clock l
    → IsBalanced most r.period (record l {
      db = (insert_reservation (exec (charge_row r u) (begin l.db)) id r).1.committed;
    })
unfolding insert_reservation
insert_reservation-IsBalanced most clock l id r u order found room v =
    elim (Option-cases (lookup id l.db.reservations)) [
      | inr (held, there) ↦
          rw (there, insert_reservation) (later-IsBalanced most clock r.period l order v)
      | inl fresh ↦
          rw (fresh, insert_reservation)
            (charged-IsBalanced most clock l id r u order found fresh room v)
    ]

reserve-IsBalanced :
    (most clock : ℕ) (l : Ledger) (id user_id : String) (limit : ℤ) (period : ℕ)
    → LimitsTo most limit
    → clock ≤ period
    → IsBalanced most clock l
    → IsBalanced most period
        (record l { db = (reserve_success_call l.db id user_id limit period).1 })
unfolding reserve_success_call reserve_in lookup
reserve-IsBalanced most clock l id user_id limit period limits order v =
    elim (Option-cases (lookup user_id l.db.users)) [
      | inl unknown ↦ rw (unknown, reserve_in) (later-IsBalanced most clock period l order v)
      | inr (u, found) ↦ elim (Bool-cases (is_within limit (effective_calls period u))) [
        | inr full ↦ rw (found, reserve_in, full) (later-IsBalanced most clock period l order v)
        | inl within ↦
            rw (found, reserve_in, within)
              (insert_reservation-IsBalanced most clock l id
                (record { user_id = user_id; period = period }) u order found
                (limited most limit (effective_calls period u) limits within) v)
      ]
    ]

-- The month of the last reservation.
unfoldable pub last_period : ℕ → List QuotaCall → ℕ
last_period clock [] = clock
last_period clock (reserves id user_id limit period ∷ calls) = last_period period calls
last_period clock (completes id r succeeded ∷ calls) = last_period clock calls

module _ (trim : String → String) where
  complete-IsBalanced :
      (most clock : ℕ) (l : Ledger) (id : String) (r : SuccessQuotaReservation) (succeeded : Bool)
      → IsBalanced most clock l
      → IsBalanced most clock (quota_step trim l (completes id r succeeded))
  unfolding quota_step complete_success_call complete_in finish_call is_held lookup
  complete-IsBalanced most clock l id r succeeded v = elim (Bool-cases (is_valid trim id r)) [
    | inr bad ↦ rw (bad, quota_step, complete_in) v
    | inl good ↦ elim (Bool-cases (is_held l.db id r)) [
      | inr gone ↦ rw (good, gone, quota_step, complete_in) v
      | inl held ↦ elim (Bool-cases succeeded) [
        | inl fine ↦
            rw (good, held, fine, quota_step, complete_in)
              (settled-IsBalanced most clock l id r (is_held-lookup l.db id r held) v)
        | inr failed ↦
            rw (good, held, failed, quota_step, complete_in)
              (dropped-IsBalanced most clock l id r (is_held-lookup l.db id r held) v)
      ]
    ]
  ]

  -- Along a history whose reservations are made in the order of their months, with positive limits of at
  -- most `most`, the books stay balanced: for every user the counter is the number of its calls of the
  -- counter's month that are reserved or ended with success, and no month of a user has more than
  -- `most` of them.
  pub run_quota-IsBalanced :
      (most clock : ℕ) (l : Ledger) (calls : List QuotaCall)
      → InOrder most clock calls
      → IsBalanced most clock l
      → IsBalanced most (last_period clock calls) (run_quota trim l calls)
  unfolding run_quota quota_step InOrder last_period
  run_quota-IsBalanced most clock l [] o v = v
  run_quota-IsBalanced most clock l (reserves id user_id limit period ∷ calls) o v =
      run_quota-IsBalanced most period (quota_step trim l (reserves id user_id limit period)) calls
        o.2 (reserve-IsBalanced most clock l id user_id limit period o.0 o.1 v)
  run_quota-IsBalanced most clock l (completes id r succeeded ∷ calls) o v =
      run_quota-IsBalanced most clock (quota_step trim l (completes id r succeeded)) calls o
        (complete-IsBalanced most clock l id r succeeded v)

  -- No user has more than `most` successful calls in a month, along a history whose reservations are
  -- made in the order of their months with positive limits of at most `most`, from a database without
  -- reservations whose counters are 0 for months up to the clock.
  pub run_quota-successes_le :
      (most clock : ℕ) (db : Database) (calls : List QuotaCall) (k : String) (p : ℕ)
      → db.reservations ≡ []
      → ((id : String) (u : User)
          → lookup id db.users ≡ some u
          → (u.success_calls ≡ 0) × (u.success_period ≤ clock))
      → InOrder most clock calls
      → charges k p (run_quota trim (record { db = db; succeeded = [] }) calls).succeeded ≤ most
  unfolding total Books charges count_by
  run_quota-successes_le most clock db calls k p empty fresh order =
      let start : Ledger = record { db = db; succeeded = [] } in
      let nothing : (k : String) (p : ℕ) → total start k p ≡ 0 = λ k p. rw empty refl in
      let balanced = run_quota-IsBalanced most clock start calls order (record {
        unique = rw empty tt;
        books = λ k u found. record {
          current = (fresh k u found).1;
          exact = omega (arith, (fresh k u found).0, nothing k u.success_period);
          no_future = λ p late. nothing k p;
        };
        bounded = λ k p. omega (arith, nothing k p);
      }) in
      omega (arith, balanced.bounded k p)
