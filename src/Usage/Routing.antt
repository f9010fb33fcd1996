-- ===== src/Usage/Routing.antt =====
-- internal/usage/middleware.go: the tool name of a request, which the limits are applied to. A body is a
-- list of bytes, and `none` one that cannot be read. encoding/json is a parameter: `decode_object` gives
-- the members of a body that is one object and nothing more, in their order and with their raw values, and
-- `decode_string` the string of a raw value. `equal_fold` is `strings.EqualFold`.
pub mod Agreement
mod Tests
use grok_search_mcp.Base.{
  ℕ, ◌+◌, ◌^◌, String, Bool, true, false, not, ◌&&◌, ◌||◌, Option, none, some, List, [], ◌∷◌,
  length, take, ltb, eqb, if◌then◌else◌,
}
use grok_search_mcp.Base.Keys.{◌==◌, string_key}
use grok_search_mcp.Http.{Verdict, forward, reject, bad_request}

-- `jsonRPCRequestInspection`
pub record JsonRpcRequestInspection : Type 0 where
  pub tool_name : String
  pub is_batch_request : Bool
  pub has_ambiguous_tool_routing_fields : Bool

abbrev pub no_inspection : JsonRpcRequestInspection
no_inspection = record {
  tool_name = "";
  is_batch_request = false;
  has_ambiguous_tool_routing_fields = false;
}

abbrev pub ambiguous_inspection : JsonRpcRequestInspection
ambiguous_inspection = record no_inspection { has_ambiguous_tool_routing_fields = true }

abbrev pub max_parse_body : ℕ
max_parse_body = 2 ^ 20

-- What `inspectCaseSensitiveJSONObject` has seen of one routing field.
pub record FieldScan : Type 0 where
  pub exact_value : Option (List ℕ)
  pub seen : Bool
  pub ambiguous : Bool

abbrev pub new_scan : FieldScan
new_scan = record { exact_value = none; seen = false; ambiguous = false }

-- `len(trimmedBody) > 0 && trimmedBody[0] == '['`
unfoldable pub starts_batch : List ℕ → Bool
starts_batch [] = false
starts_batch (byte ∷ rest) = eqb byte 91

module _ (equal_fold : String → String → Bool) where
  -- The loop over the members, for one routing field. The names of two routing fields never fold alike,
  -- so that each member belongs to at most one of them.
  unfoldable pub scan_member : String → String → List ℕ → FieldScan → FieldScan
  scan_member canonical name value scan = if not (equal_fold name canonical) then scan else record {
    exact_value = if name == canonical then some value else scan.exact_value;
    seen = true;
    ambiguous = scan.ambiguous || not (name == canonical) || scan.seen;
  }

  unfoldable pub scan_members : String → List (String × List ℕ) → FieldScan → FieldScan
  scan_members canonical [] scan = scan
  scan_members canonical ((name, value) ∷ members) scan =
      scan_members canonical members (scan_member canonical name value scan)

  unfoldable pub scan_field : String → List (String × List ℕ) → FieldScan
  scan_field canonical members = scan_members canonical members new_scan

  module _ (trim : List ℕ → List ℕ) (decode_object : List ℕ → Option (List (String × List ℕ)))
      (decode_string : List ℕ → Option String) where
    -- The name in the parameters.
    unfoldable pub inspect_params : Option (List ℕ) → JsonRpcRequestInspection
    inspect_params none = no_inspection
    inspect_params (some params_json) = elim (decode_object params_json) [
      | none ↦ no_inspection
      | some members ↦
          let scan = scan_field "name" members in
          if scan.ambiguous then ambiguous_inspection else elim scan.exact_value [
            | none ↦ no_inspection
            | some name_json ↦ elim (decode_string name_json) [
              | none ↦ no_inspection
              | some name ↦ record no_inspection { tool_name = name }
            ]
          ]
    ]

    unfoldable pub is_tools_call : Option (List ℕ) → Bool
    is_tools_call none = false
    is_tools_call (some method_json) = elim (decode_string method_json) [
      | none ↦ false
      | some method ↦ method == "tools/call"
    ]

    unfoldable pub inspect_envelope : List (String × List ℕ) → JsonRpcRequestInspection
    inspect_envelope members =
        let method = scan_field "method" members in
        let params = scan_field "params" members in
        if method.ambiguous || params.ambiguous
        then ambiguous_inspection
        else if is_tools_call method.exact_value
        then inspect_params params.exact_value
        else no_inspection

    -- `inspectJSONRPCRequest`, of the bytes of the body.
    unfoldable pub inspect_json_rpc_request : Option (List ℕ) → JsonRpcRequestInspection
    inspect_json_rpc_request none = no_inspection
    inspect_json_rpc_request (some all) =
        let body = take (max_parse_body + 1) all in
        if starts_batch (trim body)
        then record no_inspection { is_batch_request = true }
        else if ltb max_parse_body (length body)
        then no_inspection
        else elim (decode_object body) [
          | none ↦ no_inspection
          | some members ↦ inspect_envelope members
        ]

    -- `ExtractToolNameMiddleware`: the answer, and the tool name of the context.
    unfoldable pub extract_tool_name_middleware : Option (List ℕ) → Verdict × String
    extract_tool_name_middleware body =
        let inspection = inspect_json_rpc_request body in
        if inspection.is_batch_request
        then (reject bad_request "JSON-RPC batch requests are not supported" none, "")
        else if inspection.has_ambiguous_tool_routing_fields
        then (
          reject bad_request "Ambiguous JSON-RPC tool routing fields are not supported" none,
          "",
        )
        else (forward, inspection.tool_name)
