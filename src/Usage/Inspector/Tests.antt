-- ===== src/Usage/Inspector/Tests.antt =====
-- The inspector on concrete inputs, with a decoder that takes the payload "{!}" for an error.
use grok_search_mcp.Base.{ℕ, ◌≡◌, ◌||◌, Option, none, some, List, [], ◌∷◌, take}
use grok_search_mcp.Usage.Inspector.{
  ResultEnvelope, max_outcome_inspection_bytes, new_inspector, tool_error,
  json_rpc_payload_has_tool_error, same_bytes,
}
use grok_search_mcp.Usage.Inspector.Chunks.{any_line, concat, inspect_all, tool_error-inspect_all}

abbrev no_trim : List ℕ → List ℕ
no_trim payload = payload

abbrev no_batch : List ℕ → Option (List (List ℕ))
no_batch payload = none

abbrev bang : List ℕ
bang = 123 ∷ 33 ∷ 125 ∷ []

abbrev decode : List ℕ → Option ResultEnvelope
decode payload = some (record { error_json = []; is_error = same_bytes payload bang })

-- "data:{!}" and a line break, in two writes.
abbrev chunks : List (List ℕ)
chunks = (100 ∷ 97 ∷ 116 ∷ 97 ∷ 58 ∷ 123 ∷ []) ∷ (33 ∷ 125 ∷ 10 ∷ []) ∷ []

tool_error-inspect_all_example :
    tool_error no_trim no_batch decode (inspect_all no_trim no_batch decode chunks new_inspector)
    ≡ (any_line no_trim no_batch decode []
          (take max_outcome_inspection_bytes (concat no_trim no_batch decode chunks))
        || json_rpc_payload_has_tool_error no_trim no_batch decode
            (no_trim (take max_outcome_inspection_bytes (concat no_trim no_batch decode chunks))))
tool_error-inspect_all_example = tool_error-inspect_all no_trim no_batch decode chunks
