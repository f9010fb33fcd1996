-- ===== src/Panel/RegistrationProof/Payload.antt =====
-- registration_pow.go: the signed payload of a challenge determines its expiry.
use grok_search_mcp.Base.{
  ℕ, ◌≡◌, inl, inr, refl, String, Option, some, List, [], ◌∷◌, get_elem?, Bool-cases, Option-cases,
  ◌>>=◌, ap, sym,
}
use grok_search_mcp.Base.Keys.{◌==◌, string_key, MapKey}
use grok_search_mcp.Panel.RegistrationProof.{
  RegistrationProofChallenge, Primitives, RegistrationProofState, unix_time, checked_bits,
  check_signature, check_parts, parse_parts, parse_and_verify_challenge, same_bytes, sign_payload,
}

-- The first four parts of a token, joined and split again, are the same.
pub record SplitsJoined {Key : Type 0} (t : Primitives Key) : Type 0 where
  pub joined :
      (token version expires bits random signature : String)
      → t.split token ≡ version ∷ expires ∷ bits ∷ random ∷ signature ∷ []
      → t.split (t.join (version ∷ expires ∷ bits ∷ random ∷ []))
        ≡ version ∷ expires ∷ bits ∷ random ∷ []

module _ {Key : Type 0} ⦃key : MapKey Key⦄ (t : Primitives Key) where
  expiry_at : String → Option ℕ
  expiry_at expires = t.parse_int expires >>= λ parsed. some (unix_time parsed)

  -- The expiry in a payload.
  expiry_of : String → Option ℕ
  expiry_of payload = get_elem? (t.split payload) 1 >>= expiry_at

  check_signature-payload :
      (p : RegistrationProofState Key) (challenge c : RegistrationProofChallenge)
      (text signature payload : String)
      → check_signature t p challenge text signature ≡ some (c, payload)
      → (challenge ≡ c) × (text ≡ payload)
  unfolding check_signature
  check_signature-payload p challenge c text signature payload h =
      elim (Option-cases (t.decode signature)) [
        | inl bad ↦ let wrong = rw (bad, check_signature) at h in absurd (cc)
        | inr (bytes, good) ↦ elim (Bool-cases (same_bytes bytes (sign_payload t p text))) [
          | inr forged ↦ let wrong = rw (good, check_signature, forged) at h in absurd (cc)
          | inl signed ↦
              let made : some (challenge, text) ≡ some (c, payload) =
                rw (good, check_signature, signed) at h in
              let pair : (challenge, text) ≡ (c, payload) = cc in
              (
                ap (λ (x : RegistrationProofChallenge × String). x.0) pair,
                ap (λ (x : RegistrationProofChallenge × String). x.1) pair,
              )
        ]
      ]

  check_parts-expiry :
      (p : RegistrationProofState Key) (version expires bits random signature payload : String)
      (c : RegistrationProofChallenge)
      → check_parts t p version expires bits random signature ≡ some (c, payload)
      → (t.join (version ∷ expires ∷ bits ∷ random ∷ []) ≡ payload)
        × (expiry_at expires ≡ some c.expires_at)
  unfolding check_parts expiry_at
  check_parts-expiry p version expires bits random signature payload c h =
      elim (Bool-cases (version == "v1")) [
        | inr other ↦ let wrong = rw other at h in absurd (cc)
        | inl first ↦ elim (Option-cases (t.parse_int expires)) [
          | inl bad ↦ let wrong = rw (first, bad, check_parts) at h in absurd (cc)
          | inr (expires_unix, unix) ↦ elim (Option-cases (t.parse_int bits)) [
            | inl bad ↦ let wrong = rw (first, unix, bad, check_parts) at h in absurd (cc)
            | inr (parsed, number) ↦ elim (Option-cases (checked_bits parsed)) [
              | inl bad ↦ let wrong = rw (first, unix, number, bad, check_parts) at h in absurd (cc)
              | inr (difficulty_bits, within) ↦ elim (Option-cases (t.decode random)) [
                | inl bad ↦
                    let wrong = rw (first, unix, number, within, bad, check_parts) at h in
                    absurd (cc)
                | inr (bytes, decoded) ↦
                    let signed = rw (first, unix, number, within, decoded, check_parts) at h in
                    let made =
                      check_signature-payload p
                        (record {
                          expires_at = unix_time expires_unix;
                          difficulty_bits = difficulty_bits;
                        })
                        c (t.join (version ∷ expires ∷ bits ∷ random ∷ [])) signature payload
                        signed in
                    (
                      made.1,
                      rw unix (ap (λ (x : RegistrationProofChallenge). some x.expires_at) made.0),
                    )
              ]
            ]
          ]
        ]
      ]

  parse_parts-expiry :
      (p : RegistrationProofState Key) (token : String) (parts : List String) (payload : String)
      (c : RegistrationProofChallenge)
      → SplitsJoined t
      → t.split token ≡ parts
      → parse_parts t p parts ≡ some (c, payload)
      → expiry_of payload ≡ some c.expires_at
  unfolding parse_parts expiry_of
  parse_parts-expiry p token [] payload c s split h = cc
  parse_parts-expiry p token (a ∷ []) payload c s split h = cc
  parse_parts-expiry p token (a ∷ b ∷ []) payload c s split h = cc
  parse_parts-expiry p token (a ∷ b ∷ d ∷ []) payload c s split h = cc
  parse_parts-expiry p token (a ∷ b ∷ d ∷ e ∷ []) payload c s split h = cc
  parse_parts-expiry p token (a ∷ b ∷ d ∷ e ∷ f ∷ []) payload c s split h =
      let made = check_parts-expiry p a b d e f payload c h in
      let joined = s.joined token a b d e f split in rw (sym made.0, joined) made.1
  parse_parts-expiry p token (a ∷ b ∷ d ∷ e ∷ f ∷ g ∷ rest) payload c s split h = cc

  -- Two challenges with one payload expire at the same time.
  pub parse-same_expiry :
      (p q : RegistrationProofState Key) (token other payload : String)
      (c d : RegistrationProofChallenge)
      → SplitsJoined t
      → parse_and_verify_challenge t p token ≡ some (c, payload)
      → parse_and_verify_challenge t q other ≡ some (d, payload)
      → c.expires_at ≡ d.expires_at
  unfolding parse_and_verify_challenge
  parse-same_expiry p q token other payload c d s first second =
      let one = parse_parts-expiry p token (t.split token) payload c s refl first in
      let two = parse_parts-expiry q other (t.split other) payload d s refl second in cc
