-- ===== src/Usage/Inspector.antt =====
-- internal/usage/response_inspector.go and the JSON tests of middleware.go: whether a response reports a
-- tool error. A body is a list of bytes. `bytes.TrimSpace` and the decoders of encoding/json are
-- parameters: `decode_batch` gives the items of an array, and `decode_envelope` the members "error" and
-- "result.isError" of an object, both `none` where the payload does not decode.
pub mod Chunks
mod Tests
use grok_search_mcp.Base.{
  ℕ, zero, suc, ◌+◌, ◌-◌, ◌*◌, Bool, true, false, not, ◌&&◌, ◌||◌, Option, none, some, List, [],
  ◌∷◌, ◌++◌, length, take, drop, leb, ltb, eqb, if◌then◌else◌,
}

-- "data:"
abbrev pub data_prefix : List ℕ
data_prefix = 100 ∷ 97 ∷ 116 ∷ 97 ∷ 58 ∷ []

-- "null"
abbrev pub null_text : List ℕ
null_text = 110 ∷ 117 ∷ 108 ∷ 108 ∷ []

unfoldable pub same_bytes : List ℕ → List ℕ → Bool
same_bytes [] [] = true
same_bytes [] (y ∷ ys) = false
same_bytes (x ∷ xs) [] = false
same_bytes (x ∷ xs) (y ∷ ys) = eqb x y && same_bytes xs ys

unfoldable pub is_empty : List ℕ → Bool
is_empty [] = true
is_empty (x ∷ xs) = false

unfoldable pub starts_with : List ℕ → List ℕ → Bool
starts_with [] body = true
starts_with (p ∷ prefix) [] = false
starts_with (p ∷ prefix) (b ∷ body) = eqb p b && starts_with prefix body

-- The members that `toolCallResultIsError` decodes.
pub record ResultEnvelope : Type 0 where
  pub error_json : List ℕ
  pub is_error : Bool

abbrev pub max_outcome_inspection_bytes : ℕ
max_outcome_inspection_bytes = 256 * 1024

-- `responseOutcomeInspector`
pub record ResponseOutcomeInspector : Type 0 where
  pub inspected_bytes : ℕ
  pub json_capture : List ℕ
  pub sse_line_buffer : List ℕ
  pub latched_error : Bool
  pub finalized : Bool

abbrev pub new_inspector : ResponseOutcomeInspector
new_inspector = record {
  inspected_bytes = 0;
  json_capture = [];
  sse_line_buffer = [];
  latched_error = false;
  finalized = false;
}

-- What `inspect` counts and captures.
unfoldable pub count_bytes : List ℕ → ResponseOutcomeInspector → ResponseOutcomeInspector
count_bytes body i = record i {
  inspected_bytes = i.inspected_bytes + length body;
  json_capture = i.json_capture ++ body;
}

module _ (trim : List ℕ → List ℕ) (decode_batch : List ℕ → Option (List (List ℕ)))
    (decode_envelope : List ℕ → Option ResultEnvelope) where
  -- `toolCallResultIsError`
  unfoldable pub tool_call_result_is_error : List ℕ → Bool
  tool_call_result_is_error raw = elim (decode_envelope raw) [
    | none ↦ false
    | some envelope ↦
        let error_json = trim envelope.error_json in
        not (is_empty error_json) && not (same_bytes error_json null_text) || envelope.is_error
  ]

  unfoldable pub any_result_is_error : List (List ℕ) → Bool
  any_result_is_error [] = false
  any_result_is_error (item ∷ batch) = tool_call_result_is_error item || any_result_is_error batch

  unfoldable pub batch_has_tool_error : List ℕ → Bool
  batch_has_tool_error payload = elim (decode_batch payload) [
    | none ↦ false
    | some batch ↦ any_result_is_error batch
  ]

  unfoldable pub payload_has_tool_error : List ℕ → Bool
  payload_has_tool_error [] = false
  payload_has_tool_error (byte ∷ rest) =
      if eqb byte 91
      then batch_has_tool_error (byte ∷ rest)
      else tool_call_result_is_error (byte ∷ rest)

  -- `jsonRPCPayloadHasToolError`
  unfoldable pub json_rpc_payload_has_tool_error : List ℕ → Bool
  json_rpc_payload_has_tool_error payload = payload_has_tool_error (trim payload)

  -- Whether a line of an event stream carries a payload with a tool error.
  unfoldable pub sse_line_has_error : List ℕ → Bool
  sse_line_has_error line =
      let payload = trim (drop (length data_prefix) (trim line)) in
      starts_with data_prefix (trim line)
      && not (is_empty payload)
      && json_rpc_payload_has_tool_error payload

  -- `inspectSSELine`
  unfoldable pub inspect_sse_line : List ℕ → ResponseOutcomeInspector → ResponseOutcomeInspector
  inspect_sse_line line i =
      if i.latched_error
      then i
      else if sse_line_has_error line
      then record i { latched_error = true }
      else i

  unfoldable pub inspect_byte : ℕ → ResponseOutcomeInspector → ResponseOutcomeInspector
  inspect_byte byte i =
      if eqb byte 10
      then record (inspect_sse_line i.sse_line_buffer i) { sse_line_buffer = [] }
      else record i { sse_line_buffer = i.sse_line_buffer ++ byte ∷ [] }

  unfoldable pub inspect_bytes : List ℕ → ResponseOutcomeInspector → ResponseOutcomeInspector
  inspect_bytes [] i = i
  inspect_bytes (byte ∷ body) i = inspect_bytes body (inspect_byte byte i)

  -- `inspect`
  unfoldable pub inspect : List ℕ → ResponseOutcomeInspector → ResponseOutcomeInspector
  inspect body i =
      let seen = take (max_outcome_inspection_bytes - i.inspected_bytes) body in
      if i.finalized || is_empty body || leb max_outcome_inspection_bytes i.inspected_bytes
      then i
      else inspect_bytes seen (count_bytes seen i)

  unfoldable pub inspect_rest : ResponseOutcomeInspector → ResponseOutcomeInspector
  inspect_rest i = if is_empty i.sse_line_buffer then i else inspect_sse_line i.sse_line_buffer i

  unfoldable pub inspect_json : ResponseOutcomeInspector → ResponseOutcomeInspector
  inspect_json i =
      if not i.latched_error && json_rpc_payload_has_tool_error (trim i.json_capture)
      then record i { latched_error = true }
      else i

  -- `finalize`
  unfoldable pub finalize : ResponseOutcomeInspector → ResponseOutcomeInspector
  finalize i =
      if i.finalized then i else inspect_json (inspect_rest (record i { finalized = true }))

  -- `toolError`
  unfoldable pub tool_error : ResponseOutcomeInspector → Bool
  tool_error i = (finalize i).latched_error
