-- ===== src/Panel/RegistrationProof/Tests.antt =====
-- The proof of registrations on concrete inputs, with codecs of the few texts that occur.
use grok_search_mcp.Base.{
  ℕ, ◌*◌, ◌≡◌, ◌≢◌, refl, inl, inr, String, false, none, some, List, [], ◌∷◌, eqb, if◌then◌else◌,
  arith, Bool-cases,
}
use grok_search_mcp.Base.Int.{pos}
use grok_search_mcp.Base.Keys.{◌==◌, string_key}
use grok_search_mcp.Base.Assoc.{lookup, retain}
use grok_search_mcp.Panel.RegistrationProof.{
  RegistrationProof, RegistrationProofChallenge, Primitives, RegistrationProofState, second,
  unix_time, checked_bits, check_signature, check_parts, parse_parts, parse_and_verify_challenge,
  same_bytes, sign_payload, new_registration_proof_state, parse_registration_proof_nonce,
  calculate_registration_proof_digest, parse_digits, fits_uint64, has_leading_zero_bits, zero_bytes,
  cleanup_used_challenges, consume, verify_work, verify_and_consume,
}
use grok_search_mcp.Panel.RegistrationProof.Payload.{SplitsJoined}
use grok_search_mcp.Panel.RegistrationProof.Barred.{ProofCall, InOrder, run_proofs}
use grok_search_mcp.Panel.RegistrationProof.Replay.{verify_and_consume-once}
use grok_search_mcp.Panel.RegistrationProof.Issue.{IsValid, run_proofs-IsValid}

abbrev token : String
token = "v1.300.1.r.s"

abbrev signed_text : String
signed_text = "v1.300.1.r"

abbrev split_text : String → List String
split_text text =
    if text == token
    then "v1" ∷ "300" ∷ "1" ∷ "r" ∷ "s" ∷ []
    else if text == signed_text
    then "v1" ∷ "300" ∷ "1" ∷ "r" ∷ []
    else text ∷ []

abbrev join_texts : List String → String
join_texts (a ∷ b ∷ c ∷ d ∷ []) = signed_text
join_texts other = token

abbrev encode_bytes : List ℕ → String
encode_bytes [] = "s"
encode_bytes (x ∷ xs) = "r"

abbrev small_codec : Primitives String
small_codec = record {
  trim = λ text. text;
  split = split_text;
  join = join_texts;
  format_int = λ n. if eqb n 300 then "300" else "1";
  parse_int =
      λ text. if text == "300" then some (pos 300) else if text == "1" then some (pos 1) else none;
  string_bytes = λ text. 49 ∷ [];
  encode = encode_bytes;
  decode = λ text. if text == "r" then some (7 ∷ []) else some [];
  sign = λ secret payload. [];
  hash = λ payload. payload;
  sum256 = λ message index. 0;
}

abbrev start : RegistrationProofState String
start = record {
  secret = 1 ∷ [];
  difficulty_bits = 1;
  validity = 300 * second;
  max_used_challenges = 2;
  used_challenges = [];
  last_proof_cleanup_at = 0;
  saturation_logged = false;
}

abbrev solved : RegistrationProof
solved = record { challenge = token; nonce = "1" }

abbrev retried : ProofCall
retried = record { now = 20; proof = solved; username = "bob"; invite_code = "" }

abbrev others : List ProofCall
others =
    record {
      now = 15;
      proof = record { challenge = "x"; nonce = "1" };
      username = "eve";
      invite_code = "";
    }
    ∷ []

run_proofs-IsValid_example : IsValid (
    run_proofs small_codec
      (new_registration_proof_state (pos 64) (pos 0) (pos 2) 0 (1 ∷ []))
      others)
run_proofs-IsValid_example =
    run_proofs-IsValid small_codec (pos 64) (pos 0) (pos 2) 0 (1 ∷ []) others

small_codec-SplitsJoined : SplitsJoined small_codec
small_codec-SplitsJoined = record {
  joined = λ text version expires bits random signature h. elim (Bool-cases (text == token)) [
    | inl whole ↦
        let parts : "v1" ∷ "300" ∷ "1" ∷ "r" ∷ "s" ∷ []
            ≡ version ∷ expires ∷ bits ∷ random ∷ signature ∷ [] =
          rw whole at h in
        cc
    | inr other ↦ elim (Bool-cases (text == signed_text)) [
      | inl payload ↦ let wrong = rw (other, payload) at h in absurd (cc)
      | inr neither ↦ let wrong = rw (other, neither) at h in absurd (cc)
    ]
  ];
}

abbrev parsed : RegistrationProofChallenge
parsed = record { expires_at = 300 * second; difficulty_bits = 1 }

token_parses : parse_and_verify_challenge small_codec start token ≡ some (parsed, signed_text)
unfolding parse_and_verify_challenge parse_parts check_parts checked_bits check_signature same_bytes
    sign_payload unix_time
token_parses = refl

token_accepted : (verify_and_consume small_codec start 10 solved "ann" "").0 ≡ none
unfolding verify_and_consume parse_and_verify_challenge parse_parts check_parts checked_bits
    check_signature same_bytes sign_payload unix_time verify_work parse_registration_proof_nonce
    calculate_registration_proof_digest parse_digits fits_uint64 has_leading_zero_bits zero_bytes
    cleanup_used_challenges consume lookup retain
token_accepted = refl

others-InOrder : InOrder 10 others 20
unfolding InOrder
others-InOrder = (omega arith, omega arith)

token_parses_later :
    parse_and_verify_challenge small_codec
      (run_proofs small_codec (verify_and_consume small_codec start 10 solved "ann" "").1 others)
      token
    ≡ some (parsed, signed_text)
unfolding parse_and_verify_challenge parse_parts check_parts checked_bits check_signature same_bytes
    sign_payload unix_time
token_parses_later = refl

verify_and_consume-once_example :
    (verify_and_consume small_codec
      (run_proofs small_codec (verify_and_consume small_codec start 10 solved "ann" "").1 others)
      20
      solved
      "bob"
      "").0
    ≢ none
verify_and_consume-once_example =
    verify_and_consume-once small_codec start 10 solved "ann" "" others retried parsed parsed
      signed_text small_codec-SplitsJoined tt token_parses token_accepted others-InOrder
      token_parses_later
