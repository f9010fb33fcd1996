-- ===== src/Panel/RegistrationProof/Replay.antt =====
-- registration_pow.go: a challenge is accepted once.
use grok_search_mcp.Base.{
  ℕ, ◌-◌, ◌*◌, ◌≡◌, ◌≢◌, ◌≤◌, ◌<◌, inl, inr, refl, String, not, ◌&&◌, ◌||◌, none, some, List,
  length, leb, ltb, arith, Bool-cases, Option-cases,
}
use grok_search_mcp.Base.Keys.{◌==◌, string_key, MapKey}
use grok_search_mcp.Base.Assoc.{lookup, Unique, insert-Unique, retain-Unique, lookup-insert_self}
use grok_search_mcp.Panel.RegistrationProof.Payload.{SplitsJoined, parse-same_expiry}
use grok_search_mcp.Panel.RegistrationProof.{
  RegistrationProof, RegistrationProofChallenge, Primitives, RegistrationProofState, second,
  parse_and_verify_challenge, parse_registration_proof_nonce, calculate_registration_proof_digest,
  has_leading_zero_bits, cleanup_used_challenges, consume, verify_work, verify_and_consume,
}
use grok_search_mcp.Panel.RegistrationProof.Barred.{
  ProofCall, InOrder, run_proofs, Barred, cleanup-Barred, run-Barred,
}

module _ {Key : Type 0} ⦃key : MapKey Key⦄ (t : Primitives Key) where
  -- A challenge that is barred is not accepted again.
  consume-again :
      (k : Key) (expires now : ℕ) (p : RegistrationProofState Key)
      → now < expires
      → Barred t k expires now p
      → (consume t p k expires).0 ≢ none
  unfolding consume
  consume-again k expires now p live v h = elim v.barred [
    | inr over ↦ omega arith
    | inl kept ↦ let wrong = rw (kept, consume) at h in cc
  ]

  verify_work-again :
      (k : Key) (clock now : ℕ) (p : RegistrationProofState Key) (proof : RegistrationProof)
      (username invite_code : String) (challenge : RegistrationProofChallenge) (payload : String)
      → clock ≤ now
      → t.hash payload ≡ k
      → Barred t k challenge.expires_at clock p
      → (verify_work t p now proof username invite_code (challenge, payload)).0 ≢ none
  unfolding verify_work
  verify_work-again k clock now p proof username invite_code challenge payload order same v h =
      elim (Bool-cases (leb challenge.expires_at now)) [
        | inl over ↦ let wrong = rw over at h in cc
        | inr fresh ↦ elim (Option-cases (parse_registration_proof_nonce t proof.nonce)) [
          | inl bad ↦ let wrong = rw (fresh, bad, verify_work) at h in cc
          | inr (nonce, good) ↦
              elim (Bool-cases (
                not (
                  has_leading_zero_bits
                    (calculate_registration_proof_digest t proof.challenge username invite_code
                      nonce)
                    challenge.difficulty_bits))) [
                      | inl weak ↦ let wrong = rw (fresh, good, verify_work, weak) at h in cc
                      | inr strong ↦
                          let accepted = rw (fresh, good, verify_work, strong, same) at h in
                          consume-again k challenge.expires_at now (cleanup_used_challenges t p now)
                            (ground arith)
                            (cleanup-Barred t k challenge.expires_at clock now p order v) accepted
                    ]
        ]
      ]

  consume-accepted :
      (k : Key) (expires now : ℕ) (p : RegistrationProofState Key)
      → Unique p.used_challenges
      → (consume t p k expires).0 ≡ none
      → Barred t k expires now (consume t p k expires).1
  unfolding consume
  consume-accepted k expires now p u h = elim (Option-cases (lookup k p.used_challenges)) [
    | inr (used, found) ↦ let wrong = rw (found, consume) at h in absurd (cc)
    | inl fresh ↦ elim (Bool-cases (leb p.max_used_challenges (length p.used_challenges))) [
      | inl full ↦ let wrong = rw (fresh, consume, full) at h in absurd (cc)
      | inr room ↦
          rw (fresh, consume, room)
            (record {
              unique = insert-Unique k expires p.used_challenges u;
              barred = inl (lookup-insert_self k expires p.used_challenges);
            })
    ]
  ]

  cleanup-Unique :
      (p : RegistrationProofState Key) (now : ℕ)
      → Unique p.used_challenges
      → Unique (cleanup_used_challenges t p now).used_challenges
  unfolding cleanup_used_challenges
  cleanup-Unique p now u =
      elim (Bool-cases (
        ltb (now - p.last_proof_cleanup_at) (60 * second)
        && ltb (length p.used_challenges) p.max_used_challenges)) [
          | inl waits ↦ rw waits u
          | inr runs ↦ rw runs (retain-Unique (λ e. ltb now e) p.used_challenges u)
        ]

  verify_work-accepted :
      (now : ℕ) (p : RegistrationProofState Key) (proof : RegistrationProof)
      (username invite_code : String) (challenge : RegistrationProofChallenge) (payload : String)
      → Unique p.used_challenges
      → (verify_work t p now proof username invite_code (challenge, payload)).0 ≡ none
      → Barred t
          (t.hash payload)
          challenge.expires_at
          now
          (verify_work t p now proof username invite_code (challenge, payload)).1
  unfolding verify_work
  verify_work-accepted now p proof username invite_code challenge payload u h =
      elim (Bool-cases (leb challenge.expires_at now)) [
        | inl over ↦ let wrong = rw over at h in absurd (cc)
        | inr fresh ↦ elim (Option-cases (parse_registration_proof_nonce t proof.nonce)) [
          | inl bad ↦ let wrong = rw (fresh, bad, verify_work) at h in absurd (cc)
          | inr (nonce, good) ↦
              elim (Bool-cases (
                not (
                  has_leading_zero_bits
                    (calculate_registration_proof_digest t proof.challenge username invite_code
                      nonce)
                    challenge.difficulty_bits))) [
                      | inl weak ↦
                          let wrong = rw (fresh, good, verify_work, weak) at h in absurd (cc)
                      | inr strong ↦
                          let accepted = rw (fresh, good, verify_work, strong) at h in
                          rw (fresh, good, verify_work, strong)
                            (consume-accepted (t.hash payload) challenge.expires_at now
                              (cleanup_used_challenges t p now) (cleanup-Unique p now u) accepted)
                    ]
        ]
      ]

  verify-runs :
      (now : ℕ) (p : RegistrationProofState Key) (proof : RegistrationProof)
      (username invite_code : String) (verified : RegistrationProofChallenge × String)
      → parse_and_verify_challenge t p proof.challenge ≡ some verified
      → (verify_and_consume t p now proof username invite_code).0 ≡ none
      → verify_and_consume t p now proof username invite_code
        ≡ verify_work t p now proof username invite_code verified
  unfolding verify_and_consume
  verify-runs now p proof username invite_code verified good h =
      elim (Bool-cases (t.trim proof.challenge == "" || t.trim proof.nonce == "")) [
        | inl empty ↦ let wrong = rw empty at h in absurd (cc)
        | inr given ↦ rw (given, good, verify_and_consume) refl
      ]

  -- After a challenge was accepted, no challenge with the same signed payload is accepted again, whatever
  -- calls lie between, where the times of the calls do not go back and the table of used challenges has
  -- different keys.
  pub verify_and_consume-once :
      (p : RegistrationProofState Key) (now : ℕ) (proof : RegistrationProof)
      (username invite_code : String) (calls : List ProofCall) (again : ProofCall)
      (c d : RegistrationProofChallenge) (payload : String)
      → SplitsJoined t
      → Unique p.used_challenges
      → parse_and_verify_challenge t p proof.challenge ≡ some (c, payload)
      → (verify_and_consume t p now proof username invite_code).0 ≡ none
      → InOrder now calls again.now
      → parse_and_verify_challenge t
          (run_proofs t (verify_and_consume t p now proof username invite_code).1 calls)
          again.proof.challenge
        ≡ some (d, payload)
      → (verify_and_consume t
          (run_proofs t (verify_and_consume t p now proof username invite_code).1 calls)
          again.now
          again.proof
          again.username
          again.invite_code).0
        ≢ none
  verify_and_consume-once p now proof username invite_code calls again c d payload s u good accepted
        order same h =
      let ran = verify-runs now p proof username invite_code (c, payload) good accepted in
      let barred : Barred t (t.hash payload) c.expires_at now
          (verify_and_consume t p now proof username invite_code).1 =
        rw ran (
          verify_work-accepted now p proof username invite_code c payload u (rw ran at accepted)) in
      let after : RegistrationProofState Key =
        run_proofs t (verify_and_consume t p now proof username invite_code).1 calls in
      let later =
        run-Barred t (t.hash payload) c.expires_at now again.now
          (verify_and_consume t p now proof username invite_code).1 calls order barred in
      let expiry =
        parse-same_expiry t p after proof.challenge again.proof.challenge payload c d s good same in
      let twice =
        verify-runs again.now after again.proof again.username again.invite_code (d, payload) same
          h in
      verify_work-again (t.hash payload) again.now again.now after again.proof again.username
        again.invite_code d payload (omega arith) refl (rw expiry at later) (rw twice at h)
