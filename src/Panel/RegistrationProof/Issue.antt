-- ===== src/Panel/RegistrationProof/Issue.antt =====
-- registration_pow.go: what is issued is what is verified, and the table of used challenges is bounded.
use grok_search_mcp.Base.{
  ℕ, ◌+◌, ◌-◌, ◌*◌, ◌/◌, ◌≡◌, ◌≤◌, ◌<◌, inl, inr, String, not, ◌&&◌, ◌||◌, some, List, [], ◌∷◌,
  length, leb, ltb, arith, Bool-cases, Option-cases,
}
use grok_search_mcp.Base.Int.{ℤ, pos, positive_or-pos}
use grok_search_mcp.Base.Keys.{◌==◌, string_key, MapKey}
use grok_search_mcp.Base.Assoc.{lookup, length-insert_new, length-retain-le}
use grok_search_mcp.Panel.RegistrationProof.{
  RegistrationProof, RegistrationProofChallenge, Primitives, RegistrationProofState, second,
  parse_and_verify_challenge, issue, issued_parts, sign_payload, new_registration_proof_state,
  parse_registration_proof_nonce, calculate_registration_proof_digest, has_leading_zero_bits,
  cleanup_used_challenges, consume, verify_work, verify_and_consume,
  default_registration_proof_difficulty_bits,
}
use grok_search_mcp.Panel.RegistrationProof.Barred.{ProofCall, run_proofs}

-- The difficulty is one that a challenge may have, and the table is within its bound.
pub record IsValid {Key : Type 0} (p : RegistrationProofState Key) : Type 0 where
  pub difficult : 0 < p.difficulty_bits
  pub feasible : p.difficulty_bits ≤ 32
  pub bounded : length p.used_challenges ≤ p.max_used_challenges

module _ {Key : Type 0} ⦃key : MapKey Key⦄ (t : Primitives Key) where
  -- What strings, strconv and base64 promise of a challenge that is issued: its parts hold no separator, so
  -- that the text splits into them, and numbers and bytes are read back.
  pub record Encodes (p : RegistrationProofState Key) (now : ℕ) (random : List ℕ) : Type 0 where
    pub splits :
        t.split (issue t p now random)
        ≡ "v1"
          ∷ t.format_int ((now + p.validity) / second)
          ∷ t.format_int p.difficulty_bits
          ∷ t.encode random
          ∷ t.encode (sign_payload t p (t.join (issued_parts t p now random)))
          ∷ []
    pub parses_expiry :
        t.parse_int (t.format_int ((now + p.validity) / second))
        ≡ some (pos ((now + p.validity) / second))
    pub parses_bits : t.parse_int (t.format_int p.difficulty_bits) ≡ some (pos p.difficulty_bits)
    pub decodes_random : t.decode (t.encode random) ≡ some random
    pub decodes_signature :
        t.decode (t.encode (sign_payload t p (t.join (issued_parts t p now random))))
        ≡ some (sign_payload t p (t.join (issued_parts t p now random)))

  new_registration_proof_state-IsValid :
      (difficulty_bits validity max_used_challenges : ℤ) (now : ℕ) (secret : List ℕ)
      → IsValid {Key = Key}
          (new_registration_proof_state difficulty_bits validity max_used_challenges now secret)
  unfolding new_registration_proof_state
  new_registration_proof_state-IsValid difficulty_bits validity max_used_challenges now secret =
      let low =
        positive_or-pos difficulty_bits default_registration_proof_difficulty_bits (omega arith) in
      record { difficult = ground (arith, low); feasible = ground arith; bounded = omega arith }

  cleanup-IsValid :
      (p : RegistrationProofState Key) (now : ℕ)
      → IsValid p
      → IsValid (cleanup_used_challenges t p now)
  unfolding cleanup_used_challenges
  cleanup-IsValid p now v =
      elim (Bool-cases (
        ltb (now - p.last_proof_cleanup_at) (60 * second)
        && ltb (length p.used_challenges) p.max_used_challenges)) [
          | inl waits ↦ rw waits v
          | inr runs ↦ rw runs (record {
            difficult = v.difficult;
            feasible = v.feasible;
            bounded = omega (arith, v.bounded, length-retain-le (λ e. ltb now e) p.used_challenges);
          })
        ]

  consume-IsValid :
      (p : RegistrationProofState Key) (k : Key) (expires : ℕ)
      → IsValid p
      → IsValid (consume t p k expires).1
  unfolding consume
  consume-IsValid p k expires v = elim (Option-cases (lookup k p.used_challenges)) [
    | inr (used, found) ↦ rw (found, consume) v
    | inl fresh ↦ elim (Bool-cases (leb p.max_used_challenges (length p.used_challenges))) [
      | inl full ↦
          rw (fresh, consume, full)
            (record { difficult = v.difficult; feasible = v.feasible; bounded = v.bounded })
      | inr room ↦
          rw (fresh, consume, room)
            (record {
              difficult = v.difficult;
              feasible = v.feasible;
              bounded = ground (arith, length-insert_new k expires p.used_challenges fresh);
            })
    ]
  ]

  verify_work-IsValid :
      (p : RegistrationProofState Key) (now : ℕ) (proof : RegistrationProof)
      (username invite_code : String) (challenge : RegistrationProofChallenge) (payload : String)
      → IsValid p
      → IsValid (verify_work t p now proof username invite_code (challenge, payload)).1
  unfolding verify_work
  verify_work-IsValid p now proof username invite_code challenge payload v =
      elim (Bool-cases (leb challenge.expires_at now)) [
        | inl over ↦ rw over v
        | inr fresh ↦ elim (Option-cases (parse_registration_proof_nonce t proof.nonce)) [
          | inl bad ↦ rw (fresh, bad, verify_work) v
          | inr (nonce, good) ↦
              elim (Bool-cases (
                not (
                  has_leading_zero_bits
                    (calculate_registration_proof_digest t proof.challenge username invite_code
                      nonce)
                    challenge.difficulty_bits))) [
                      | inl weak ↦ rw (fresh, good, verify_work, weak) v
                      | inr strong ↦
                          rw (fresh, good, verify_work, strong)
                            (consume-IsValid (cleanup_used_challenges t p now) (t.hash payload)
                              challenge.expires_at (cleanup-IsValid p now v))
                    ]
        ]
      ]

  verify-IsValid :
      (p : RegistrationProofState Key) (c : ProofCall)
      → IsValid p
      → IsValid (verify_and_consume t p c.now c.proof c.username c.invite_code).1
  unfolding verify_and_consume
  verify-IsValid p c v =
      elim (Bool-cases (t.trim c.proof.challenge == "" || t.trim c.proof.nonce == "")) [
        | inl empty ↦ rw empty v
        | inr given ↦ elim (Option-cases (parse_and_verify_challenge t p c.proof.challenge)) [
          | inl bad ↦ rw (given, bad, verify_and_consume) v
          | inr ((challenge, payload), good) ↦
              rw (given, good, verify_and_consume)
                (verify_work-IsValid p c.now c.proof c.username c.invite_code challenge payload v)
        ]
      ]

  run-IsValid :
      (p : RegistrationProofState Key) (calls : List ProofCall)
      → IsValid p
      → IsValid (run_proofs t p calls)
  unfolding run_proofs
  run-IsValid p [] v = v
  run-IsValid p (c ∷ calls) v =
      run-IsValid (verify_and_consume t p c.now c.proof c.username c.invite_code).1 calls
        (verify-IsValid p c v)

  -- Whatever the configuration and the proofs that arrive, the difficulty is between 1 and 32 bits and the
  -- table of used challenges is within its bound.
  pub run_proofs-IsValid :
      (difficulty_bits validity max_used_challenges : ℤ) (now : ℕ) (secret : List ℕ)
      (calls : List ProofCall)
      → IsValid (
          run_proofs t
            (new_registration_proof_state difficulty_bits validity max_used_challenges now secret)
            calls)
  run_proofs-IsValid difficulty_bits validity max_used_challenges now secret calls =
      run-IsValid
        (new_registration_proof_state difficulty_bits validity max_used_challenges now secret) calls
        (new_registration_proof_state-IsValid difficulty_bits validity max_used_challenges now
          secret)
