-- ===== src/Panel/RegistrationProof/Barred.antt =====
-- registration_pow.go: a challenge that was accepted stays in the table until it has expired.
use grok_search_mcp.Base.{
  ℕ, ◌-◌, ◌*◌, ◌≡◌, ◌≢◌, ◌≤◌, ◌⊎◌, inl, inr, String, not, ◌&&◌, ◌||◌, some, List, [], ◌∷◌, length,
  leb, ltb, arith, Bool-cases, Option-cases, ◌∙◌,
}
use grok_search_mcp.Base.Keys.{◌==◌, string_key, MapKey}
use grok_search_mcp.Base.Assoc.{
  lookup, Unique, insert-Unique, retain-Unique, lookup-insert_ne, lookup-retain_kept,
}
use grok_search_mcp.Panel.RegistrationProof.{
  RegistrationProof, RegistrationProofChallenge, Primitives, RegistrationProofState, second,
  parse_and_verify_challenge, parse_registration_proof_nonce, calculate_registration_proof_digest,
  has_leading_zero_bits, cleanup_used_challenges, consume, verify_work, verify_and_consume,
}

-- A call of `verifyAndConsume`.
pub record ProofCall : Type 0 where
  pub now : ℕ
  pub proof : RegistrationProof
  pub username : String
  pub invite_code : String

-- The times of the calls do not go back, from one time to another.
unfoldable pub InOrder : ℕ → List ProofCall → ℕ → Type 0
InOrder clock [] last = clock ≤ last
InOrder clock (c ∷ calls) last = (clock ≤ c.now) × InOrder c.now calls last

module _ {Key : Type 0} ⦃key : MapKey Key⦄ (t : Primitives Key) where
  unfoldable pub run_proofs :
      RegistrationProofState Key → List ProofCall → RegistrationProofState Key
  run_proofs p [] = p
  run_proofs p (c ∷ calls) =
      run_proofs (verify_and_consume t p c.now c.proof c.username c.invite_code).1 calls

  -- The challenge with that key and expiry is in the table, or it has expired.
  pub record Barred (k : Key) (expires clock : ℕ) (p : RegistrationProofState Key) : Type 0 where
    pub unique : Unique p.used_challenges
    pub barred : (lookup k p.used_challenges ≡ some expires) ⊎ (expires ≤ clock)

  later-Barred :
      (k : Key) (expires clock now : ℕ) (p : RegistrationProofState Key)
      → clock ≤ now
      → Barred k expires clock p
      → Barred k expires now p
  later-Barred k expires clock now p order v = record {
    unique = v.unique;
    barred = elim v.barred [ inl kept ↦ inl kept | inr over ↦ inr (omega arith) ];
  }

  pub cleanup-Barred :
      (k : Key) (expires clock now : ℕ) (p : RegistrationProofState Key)
      → clock ≤ now
      → Barred k expires clock p
      → Barred k expires now (cleanup_used_challenges t p now)
  unfolding cleanup_used_challenges
  cleanup-Barred k expires clock now p order v =
      elim (Bool-cases (
        ltb (now - p.last_proof_cleanup_at) (60 * second)
        && ltb (length p.used_challenges) p.max_used_challenges)) [
          | inl waits ↦ rw waits (later-Barred k expires clock now p order v)
          | inr runs ↦ rw runs (record {
            unique = retain-Unique (λ e. ltb now e) p.used_challenges v.unique;
            barred = elim v.barred [
              | inr over ↦ inr (omega arith)
              | inl kept ↦ elim (Bool-cases (ltb now expires)) [
                | inl live ↦
                    inl (lookup-retain_kept k (λ e. ltb now e) expires p.used_challenges kept live)
                | inr over ↦ inr (ground arith)
              ]
            ];
          })
        ]

  consume-Barred :
      (k other : Key) (expires clock until : ℕ) (p : RegistrationProofState Key)
      → Barred k expires clock p
      → Barred k expires clock (consume t p other until).1
  unfolding consume
  consume-Barred k other expires clock until p v =
      elim (Option-cases (lookup other p.used_challenges)) [
        | inr (used, found) ↦ rw (found, consume) v
        | inl fresh ↦ elim (Bool-cases (leb p.max_used_challenges (length p.used_challenges))) [
          | inl full ↦ rw (fresh, consume, full) (record { unique = v.unique; barred = v.barred })
          | inr room ↦
              rw (fresh, consume, room)
                (record {
                  unique = insert-Unique other until p.used_challenges v.unique;
                  barred = elim v.barred [
                    | inr over ↦ inr over
                    | inl kept ↦
                        let different : other ≢ k = λ same. absurd (cc) in
                        inl (lookup-insert_ne other k until p.used_challenges different ∙ kept)
                  ];
                })
        ]
      ]

  verify_work-Barred :
      (k : Key) (expires clock now : ℕ) (p : RegistrationProofState Key) (proof : RegistrationProof)
      (username invite_code : String) (verified : RegistrationProofChallenge × String)
      → clock ≤ now
      → Barred k expires clock p
      → Barred k expires now (verify_work t p now proof username invite_code verified).1
  unfolding verify_work
  verify_work-Barred k expires clock now p proof username invite_code (challenge, payload) order v =
      let later = later-Barred k expires clock now p order v in
      elim (Bool-cases (leb challenge.expires_at now)) [
        | inl over ↦ rw over later
        | inr fresh ↦ elim (Option-cases (parse_registration_proof_nonce t proof.nonce)) [
          | inl bad ↦ rw (fresh, bad, verify_work) later
          | inr (nonce, good) ↦
              elim (Bool-cases (
                not (
                  has_leading_zero_bits
                    (calculate_registration_proof_digest t proof.challenge username invite_code
                      nonce)
                    challenge.difficulty_bits))) [
                      | inl weak ↦ rw (fresh, good, verify_work, weak) later
                      | inr strong ↦
                          rw (fresh, good, verify_work, strong)
                            (consume-Barred k (t.hash payload) expires now challenge.expires_at
                              (cleanup_used_challenges t p now)
                              (cleanup-Barred k expires clock now p order v))
                    ]
        ]
      ]

  verify-Barred :
      (k : Key) (expires clock : ℕ) (p : RegistrationProofState Key) (c : ProofCall)
      → clock ≤ c.now
      → Barred k expires clock p
      → Barred k expires c.now (verify_and_consume t p c.now c.proof c.username c.invite_code).1
  unfolding verify_and_consume
  verify-Barred k expires clock p c order v =
      let later = later-Barred k expires clock c.now p order v in
      elim (Bool-cases (t.trim c.proof.challenge == "" || t.trim c.proof.nonce == "")) [
        | inl empty ↦ rw empty later
        | inr given ↦ elim (Option-cases (parse_and_verify_challenge t p c.proof.challenge)) [
          | inl bad ↦ rw (given, bad, verify_and_consume) later
          | inr (verified, good) ↦
              rw (given, good, verify_and_consume)
                (verify_work-Barred k expires clock c.now p c.proof c.username c.invite_code
                  verified order v)
        ]
      ]

  pub run-Barred :
      (k : Key) (expires clock last : ℕ) (p : RegistrationProofState Key) (calls : List ProofCall)
      → InOrder clock calls last
      → Barred k expires clock p
      → Barred k expires last (run_proofs p calls)
  unfolding run_proofs InOrder
  run-Barred k expires clock last p [] order v = later-Barred k expires clock last p order v
  run-Barred k expires clock last p (c ∷ calls) order v =
      run-Barred k expires c.now last
        (verify_and_consume t p c.now c.proof c.username c.invite_code).1 calls order.1
        (verify-Barred k expires clock p c order.0 v)
