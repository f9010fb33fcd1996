-- ===== src/Store/Quota/Ledger.antt =====
-- users.go: what the counter of a user's successful calls means. Of every month, the calls that count
-- are those that are reserved now and those that ended with success.
use grok_search_mcp.Base.{
  ℕ, ◌+◌, ◌≤◌, ◌<◌, ◌≡◌, refl, inl, inr, String, Bool, ◌&&◌, some, List, [], ◌∷◌, arith, ltb, eqb,
  Bool-cases, subst, ◌≢◌,
}
use grok_search_mcp.Base.Int.{ℤ}
use grok_search_mcp.Base.Keys.{◌==◌, string_key}
use grok_search_mcp.Base.Assoc.{lookup, insert, lookup-insert_cases}
use grok_search_mcp.Base.Count.{count_by, one_if}
use grok_search_mcp.Store.{User, SuccessQuotaReservation, Database}
use grok_search_mcp.Store.Quota.{effective_calls, count_call, refund_call}

abbrev pub is_charge : String → ℕ → SuccessQuotaReservation → Bool
is_charge user_id period r = (r.user_id == user_id) && eqb r.period period

unfoldable pub charges : String → ℕ → List SuccessQuotaReservation → ℕ
charges user_id period [] = 0
charges user_id period (r ∷ rest) =
    one_if (is_charge user_id period r) + charges user_id period rest

-- The database, and the reservations that were completed with success.
pub record Ledger : Type 0 where
  pub db : Database
  pub succeeded : List SuccessQuotaReservation

unfoldable pub total : Ledger → String → ℕ → ℕ
total l user_id period =
    count_by (is_charge user_id period) l.db.reservations + charges user_id period l.succeeded

-- The calls of a history, with the values that they draw.
pub data QuotaCall : Type 0 where
  reserves : (id user_id : String) → (limit : ℤ) → (period : ℕ) → QuotaCall
  completes : (id : String) → SuccessQuotaReservation → (succeeded : Bool) → QuotaCall

-- What the counter of one user says about the totals of its months.
pub record Book (clock : ℕ) (sum : ℕ → ℕ) (u : User) : Type 0 where
  pub current : u.success_period ≤ clock
  pub exact : u.success_calls ≡ sum u.success_period
  pub no_future : (p : ℕ) → u.success_period < p → sum p ≡ 0

-- The book of every user is true.
unfoldable pub Books : ℕ → List (String × User) → (String → ℕ → ℕ) → Type 0
Books clock users sum = (k : String) (u : User) → lookup k users ≡ some u → Book clock (sum k) u

-- The change of one row, where the books of the other users stay true.
pub insert-Books :
    (clock later : ℕ) (users : List (String × User)) (sum next : String → ℕ → ℕ) (key : String)
    (row : User)
    → Book later (next key) row
    → ((k : String) (u : User) → key ≢ k → Book clock (sum k) u → Book later (next k) u)
    → Books clock users sum
    → Books later (insert key row users) next
unfolding Books
insert-Books clock later users sum next key row book others b k u h =
    elim (lookup-insert_cases key k row u users h) [
      | inl (same, is_row) ↦
          subst (λ x. Book later (next k) x) is_row (subst (λ x. Book later (next x) row) same book)
      | inr (other, found) ↦ others k u other (b k u found)
    ]

-- The calls that a new one is added to.
pub effective_calls-total :
    (clock period : ℕ) (sum : ℕ → ℕ) (u : User)
    → clock ≤ period
    → Book clock sum u
    → effective_calls period u ≡ sum period
unfolding effective_calls
effective_calls-total clock period sum u order b = elim (Bool-cases (eqb u.success_period period)) [
  | inl same ↦
      let at_period : u.success_period ≡ period = ground arith in
      let counted : u.success_calls ≡ sum period = rw at_period at b.exact in rw same counted
  | inr other ↦ rw (other, b.no_future period (ground (arith, b.current))) refl
]

-- A reserved call is added to the counter and to the totals.
pub count_call-Book :
    (clock period : ℕ) (sum next : ℕ → ℕ) (u : User)
    → clock ≤ period
    → next period ≡ 1 + sum period
    → ((p : ℕ) → period ≢ p → next p ≡ sum p)
    → Book clock sum u
    → Book period next (count_call period u)
count_call-Book clock period sum next u order here elsewhere b = record {
  current = omega arith;
  exact = omega (arith, here, effective_calls-total clock period sum u order b);
  no_future = λ p late.
      omega
        (arith, elsewhere p (λ same. omega arith), b.no_future p (omega (arith, order, b.current)));
}

-- A total that one charge leaves was not empty.
stays_empty :
    (period p : ℕ) (sum next : ℕ → ℕ)
    → 1 + next period ≡ sum period
    → ((p : ℕ) → period ≢ p → next p ≡ sum p)
    → sum p ≡ 0
    → next p ≡ 0
stays_empty period p sum next here elsewhere empty = elim (Bool-cases (eqb period p)) [
  | inl same ↦
      let at_period : period ≡ p = ground arith in
      let none_here : sum period ≡ 0 = rw at_period empty in absurd (omega (arith, here, none_here))
  | inr other ↦ omega (arith, empty, elsewhere p (λ same. ground arith))
]

-- A reserved call is taken back.
pub refund_call-Book :
    (clock period : ℕ) (sum next : ℕ → ℕ) (u : User)
    → 1 + next period ≡ sum period
    → ((p : ℕ) → period ≢ p → next p ≡ sum p)
    → Book clock sum u
    → Book clock next (refund_call period u)
refund_call-Book clock period sum next u here elsewhere b =
    elim (Bool-cases (eqb u.success_period period && ltb 0 u.success_calls)) [
      | inl counted ↦
          let at_period : u.success_period ≡ period = ground arith in
          let calls : u.success_calls ≡ sum period = rw at_period at b.exact in
          rw counted (record {
            current = b.current;
            exact = rw at_period (omega (arith, calls, here));
            no_future = λ p late.
                omega (arith, elsewhere p (λ same. omega (arith, at_period)), b.no_future p late);
          })
      | inr gone ↦
          let away : period ≢ u.success_period = λ same.
            let calls : u.success_calls ≡ sum period = rw same b.exact in ground (arith, here) in
          rw gone (record {
            current = b.current;
            exact = omega (arith, b.exact, elsewhere u.success_period away);
            no_future = λ p late. stays_empty period p sum next here elsewhere (b.no_future p late);
          })
    ]
