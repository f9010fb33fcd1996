-- ===== src/Store/Quota/Charges.antt =====
-- users.go: what one reservation adds to the totals of its user and month.
use grok_search_mcp.Base.{
  ℕ, ◌+◌, ◌≤◌, ◌≡◌, inl, inr, ◌≢◌, String, true, arith, eqb, Bool-cases, subst,
}
use grok_search_mcp.Base.Keys.{◌==◌, string_key, nat_key, beq_self, beq_of_ne, ne_of_beq}
use grok_search_mcp.Base.Count.{one_if}
use grok_search_mcp.Store.{SuccessQuotaReservation}
use grok_search_mcp.Store.Quota.Ledger.{is_charge}

-- The totals of `more` are those of `less` and the charge of one reservation.
unfoldable pub Charges : SuccessQuotaReservation → (String → ℕ → ℕ) → (String → ℕ → ℕ) → Type 0
Charges r less more = (k : String) (p : ℕ) → more k p ≡ one_if (is_charge k p r) + less k p

pub charge_here :
    (r : SuccessQuotaReservation) (less more : String → ℕ → ℕ)
    → Charges r less more
    → more r.user_id r.period ≡ 1 + less r.user_id r.period
unfolding Charges
charge_here r less more c =
    let both : is_charge r.user_id r.period r ≡ true =
      rw (beq_self r.user_id) (ground (arith, beq_self r.period)) in
    let counted = c r.user_id r.period in rw both at counted

pub charge_period :
    (r : SuccessQuotaReservation) (less more : String → ℕ → ℕ) (k : String) (p : ℕ)
    → Charges r less more
    → r.period ≢ p
    → more k p ≡ less k p
unfolding Charges
charge_period r less more k p c other = ground (arith, beq_of_ne r.period p other, c k p)

pub charge_user :
    (r : SuccessQuotaReservation) (less more : String → ℕ → ℕ) (k : String) (p : ℕ)
    → Charges r less more
    → r.user_id ≢ k
    → more k p ≡ less k p
unfolding Charges
charge_user r less more k p c other =
    let full = c k p in
    let counted : more k p ≡ 0 + less k p = rw (beq_of_ne r.user_id k other) at full in
    omega (arith, counted)

pub charge_bounded :
    (most : ℕ) (r : SuccessQuotaReservation) (less more : String → ℕ → ℕ) (k : String) (p : ℕ)
    → Charges r less more
    → more r.user_id r.period ≤ most
    → less k p ≤ most
    → more k p ≤ most
charge_bounded most r less more k p c here rest = elim (Bool-cases (r.user_id == k)) [
  | inr other ↦ omega (arith, charge_user r less more k p c (ne_of_beq r.user_id k other), rest)
  | inl user ↦ elim (Bool-cases (eqb r.period p)) [
    | inr other ↦ omega (arith, charge_period r less more k p c (ne_of_beq r.period p other), rest)
    | inl period ↦
        let same_user : r.user_id ≡ k = (string_key.equal_iff r.user_id k).0 user in
        let same_period : r.period ≡ p = (nat_key.equal_iff r.period p).0 period in
        subst (λ x. more k x ≤ most) same_period
          (subst (λ x. more x r.period ≤ most) same_user here)
  ]
]
