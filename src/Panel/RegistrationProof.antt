-- ===== src/Panel/RegistrationProof.antt =====
-- internal/panel/registration_pow.go: the proof of work of registrations. The challenge that is issued
-- carries its own expiry and difficulty under a signature; of the proofs that were accepted, the hash of
-- the signed payload is kept until the challenge has expired.
pub mod Issue
pub mod Payload
pub mod Barred
pub mod Replay
mod Tests
use grok_search_mcp.Base.{
  ℕ, zero, suc, ◌+◌, ◌-◌, ◌*◌, ◌/◌, ◌%◌, ◌^◌, String, Bool, true, false, not, ◌&&◌, ◌||◌, Option,
  none, some, List, [], ◌∷◌, ◌++◌, length, leb, ltb, eqb, if◌then◌else◌,
}
use grok_search_mcp.Base.Int.{ℤ, pos, negsuc, positive_or}
use grok_search_mcp.Base.Keys.{◌==◌, string_key, MapKey}
use grok_search_mcp.Base.Assoc.{lookup, insert, retain}

abbrev pub second : ℕ
second = 10 ^ 9

abbrev pub default_registration_proof_difficulty_bits : ℕ
default_registration_proof_difficulty_bits = 20

abbrev pub default_registration_proof_validity : ℕ
default_registration_proof_validity = 5 * 60 * second

abbrev pub default_registration_proof_max_used_challenges : ℕ
default_registration_proof_max_used_challenges = 4096

-- `registrationProofPrefix`, without the byte 0 at its end.
abbrev pub registration_proof_prefix : String
registration_proof_prefix = "grok-registration-pow-v1"

abbrev pub max_registration_proof_nonce_digits : ℕ
max_registration_proof_nonce_digits = 20

pub data RegistrationProofError : Type 0 where
  proof_required proof_invalid proof_expired proof_replayed proof_capacity : RegistrationProofError

-- `RegistrationProof`
pub record RegistrationProof : Type 0 where
  pub challenge : String
  pub nonce : String

-- `registrationProofChallenge`
pub record RegistrationProofChallenge : Type 0 where
  pub expires_at : ℕ
  pub difficulty_bits : ℕ

-- The code of other packages: functions of strings and strconv, the base64 encoding of bytes, the signature
-- by a secret, the hash of a payload and SHA-256 of a message. A digest is an array, that is a function of
-- the index.
pub record Primitives (Key : Type 0) : Type 0 where
  pub trim : String → String
  pub split : String → List String
  pub join : List String → String
  pub format_int : ℕ → String
  pub parse_int : String → Option ℤ
  pub string_bytes : String → List ℕ
  pub encode : List ℕ → String
  pub decode : String → Option (List ℕ)
  pub sign : List ℕ → String → List ℕ
  pub hash : String → Key
  pub sum256 : List ℕ → ℕ → ℕ

-- `registrationProofState`
pub record RegistrationProofState (Key : Type 0) : Type 0 where
  pub secret : List ℕ
  pub difficulty_bits : ℕ
  pub validity : ℕ
  pub max_used_challenges : ℕ
  pub used_challenges : List (Key × ℕ)
  pub last_proof_cleanup_at : ℕ
  pub saturation_logged : Bool

-- `newRegistrationProofState`, with the secret that it draws.
unfoldable pub new_registration_proof_state :
    {Key : Type 0} → ℤ → ℤ → ℤ → ℕ → List ℕ → RegistrationProofState Key
new_registration_proof_state difficulty_bits validity max_used_challenges now secret =
    let bits = positive_or difficulty_bits default_registration_proof_difficulty_bits in
    record {
      secret = secret;
      difficulty_bits = if ltb 32 bits then 32 else bits;
      validity = positive_or validity default_registration_proof_validity;
      max_used_challenges =
          positive_or max_used_challenges default_registration_proof_max_used_challenges;
      used_challenges = [];
      last_proof_cleanup_at = now;
      saturation_logged = false;
    }

unfoldable pub same_bytes : List ℕ → List ℕ → Bool
same_bytes [] [] = true
same_bytes [] (y ∷ ys) = false
same_bytes (x ∷ xs) [] = false
same_bytes (x ∷ xs) (y ∷ ys) = eqb x y && same_bytes xs ys

-- `time.Unix`; what lies before the epoch is the zero time, which is in the past as well.
unfoldable pub unix_time : ℤ → ℕ
unix_time (pos seconds) = seconds * second
unix_time (negsuc n) = 0

-- A difficulty within 1..32.
unfoldable pub checked_bits : ℤ → Option ℕ
checked_bits (negsuc n) = none
checked_bits (pos n) = if ltb n 1 || ltb 32 n then none else some n

-- The value of decimal digits after those that were read.
unfoldable pub parse_digits : List ℕ → ℕ → Option ℕ
parse_digits [] value = some value
parse_digits (c ∷ rest) value =
    let parsed = parse_digits rest (value * 10 + (c - 48)) in
    if ltb c 48 || ltb 57 c then none else parsed

-- `ParseUint` of a value that does not fit 64 bits is an error.
unfoldable pub fits_uint64 : Option ℕ → Option ℕ
fits_uint64 none = none
fits_uint64 (some value) = if ltb value (2 ^ 64) then some value else none

-- `binary.BigEndian.PutUint64`, for that many bytes.
unfoldable pub big_endian : ℕ → ℕ → List ℕ
big_endian zero value = []
big_endian (suc n) value = (value / 2 ^ (8 * n)) % 256 ∷ big_endian n value

-- The loop over the bytes that must be 0.
unfoldable pub zero_bytes : (ℕ → ℕ) → ℕ → Bool
zero_bytes digest zero = true
zero_bytes digest (suc n) = zero_bytes digest n && eqb (digest n) 0

-- `hasLeadingZeroBits`
unfoldable pub has_leading_zero_bits : (ℕ → ℕ) → ℕ → Bool
has_leading_zero_bits digest difficulty_bits =
    let full_zero_bytes = difficulty_bits / 8 in
    let remaining_bits = difficulty_bits % 8 in
    if not (zero_bytes digest full_zero_bytes)
    then false
    else if eqb remaining_bits 0
    then true
    else eqb (digest full_zero_bytes / 2 ^ (8 - remaining_bits)) 0

module _ {Key : Type 0} ⦃key : MapKey Key⦄ (t : Primitives Key) where
  -- `sign`
  unfoldable pub sign_payload : RegistrationProofState Key → String → List ℕ
  sign_payload p payload = t.sign p.secret payload

  -- The payload of a challenge that is issued.
  unfoldable pub issued_parts : RegistrationProofState Key → ℕ → List ℕ → List String
  issued_parts p now random =
      "v1"
      ∷ t.format_int ((now + p.validity) / second)
      ∷ t.format_int p.difficulty_bits
      ∷ t.encode random
      ∷ []

  -- `issue`, with the random bytes that it draws: the text of the challenge.
  unfoldable pub issue : RegistrationProofState Key → ℕ → List ℕ → String
  issue p now random =
      let payload = t.join (issued_parts p now random) in
      t.join (payload ∷ t.encode (sign_payload p payload) ∷ [])

  -- The signature of a payload.
  unfoldable pub check_signature :
      RegistrationProofState Key
      → RegistrationProofChallenge
      → String
      → String
      → Option (RegistrationProofChallenge × String)
  check_signature p challenge payload signature = elim (t.decode signature) [
    | none ↦ none
    | some bytes ↦
        if same_bytes bytes (sign_payload p payload) then some (challenge, payload) else none
  ]

  unfoldable pub check_parts :
      RegistrationProofState Key
      → String
      → String
      → String
      → String
      → String
      → Option (RegistrationProofChallenge × String)
  check_parts p version expires bits random signature =
      if not (version == "v1") then none else elim (t.parse_int expires) [
        | none ↦ none
        | some expires_unix ↦ elim (t.parse_int bits) [
          | none ↦ none
          | some parsed ↦ elim (checked_bits parsed) [
            | none ↦ none
            | some difficulty_bits ↦ elim (t.decode random) [
              | none ↦ none
              | some bytes ↦
                  check_signature p
                    (record {
                      expires_at = unix_time expires_unix;
                      difficulty_bits = difficulty_bits;
                    })
                    (t.join (version ∷ expires ∷ bits ∷ random ∷ [])) signature
            ]
          ]
        ]
      ]

  -- `parseAndVerifyChallenge`, of the parts of the token.
  unfoldable pub parse_parts :
      RegistrationProofState Key → List String → Option (RegistrationProofChallenge × String)
  parse_parts p (version ∷ expires ∷ bits ∷ random ∷ signature ∷ []) =
      check_parts p version expires bits random signature
  parse_parts p other = none

  unfoldable pub parse_and_verify_challenge :
      RegistrationProofState Key → String → Option (RegistrationProofChallenge × String)
  parse_and_verify_challenge p token = parse_parts p (t.split token)

  -- `parseRegistrationProofNonce`
  unfoldable pub parse_registration_proof_nonce : String → Option ℕ
  parse_registration_proof_nonce raw =
      let digits = t.string_bytes (t.trim raw) in
      if eqb (length digits) 0 || ltb max_registration_proof_nonce_digits (length digits)
      then none
      else fits_uint64 (parse_digits digits 0)

  -- `calculateRegistrationProofDigest`. The prefix ends with a byte 0.
  unfoldable pub calculate_registration_proof_digest : String → String → String → ℕ → ℕ → ℕ
  calculate_registration_proof_digest challenge username invite_code nonce = t.sum256 (
      (t.string_bytes registration_proof_prefix ++ (0 ∷ []))
      ++ (t.string_bytes challenge
          ++ (0
              ∷ (t.string_bytes username
                  ++ (0 ∷ (t.string_bytes invite_code ++ (0 ∷ big_endian 8 nonce)))))))

  -- `cleanupUsedChallengesLocked`
  unfoldable pub cleanup_used_challenges :
      RegistrationProofState Key → ℕ → RegistrationProofState Key
  cleanup_used_challenges p now =
      let used = retain (λ expires_at. ltb now expires_at) p.used_challenges in
      if ltb (now - p.last_proof_cleanup_at) (60 * second)
        && ltb (length p.used_challenges) p.max_used_challenges
      then p
      else record p {
        used_challenges = used;
        last_proof_cleanup_at = now;
        saturation_logged =
            if ltb (length used) p.max_used_challenges then false else p.saturation_logged;
      }

  -- The end of `verifyAndConsume`, under the mutex. `none` is no error.
  unfoldable pub consume :
      RegistrationProofState Key
      → Key
      → ℕ
      → Option RegistrationProofError × RegistrationProofState Key
  consume p challenge_key expires_at = elim (lookup challenge_key p.used_challenges) [
    | some used ↦ (some proof_replayed, p)
    | none ↦
        if leb p.max_used_challenges (length p.used_challenges)
        then (some proof_capacity, record p { saturation_logged = true })
        else (
          none,
          record p { used_challenges = insert challenge_key expires_at p.used_challenges },
        )
  ]

  unfoldable pub verify_work :
      RegistrationProofState Key
      → ℕ
      → RegistrationProof
      → String
      → String
      → RegistrationProofChallenge × String
      → Option RegistrationProofError × RegistrationProofState Key
  verify_work p now proof username invite_code (challenge, payload) =
      if leb challenge.expires_at now
      then (some proof_expired, p)
      else elim (parse_registration_proof_nonce proof.nonce) [
        | none ↦ (some proof_invalid, p)
        | some nonce ↦
            if not (
              has_leading_zero_bits
                (calculate_registration_proof_digest proof.challenge username invite_code nonce)
                challenge.difficulty_bits)
            then (some proof_invalid, p)
            else consume (cleanup_used_challenges p now) (t.hash payload) challenge.expires_at
      ]

  -- `verifyAndConsume`
  unfoldable pub verify_and_consume :
      RegistrationProofState Key
      → ℕ
      → RegistrationProof
      → String
      → String
      → Option RegistrationProofError × RegistrationProofState Key
  verify_and_consume p now proof username invite_code =
      if t.trim proof.challenge == "" || t.trim proof.nonce == ""
      then (some proof_required, p)
      else elim (parse_and_verify_challenge p proof.challenge) [
        | none ↦ (some proof_invalid, p)
        | some verified ↦ verify_work p now proof username invite_code verified
      ]
