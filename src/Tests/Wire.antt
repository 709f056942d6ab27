-- ===== src/Tests/Wire.antt =====
-- Messages written and read back, and ids normalized.
use mcp_module.Common.{none, some, [], ◌∷◌, ◌≡◌, ◌>>=◌, refl}
use mcp_module.Common.Int.{pos}
use mcp_module.Json.{Any, string, float64, int64, whole, int, str, object, marshal, unmarshal}
use mcp_module.Protocol.{Request, Response, code_method_not_found, jsonrpc_version}
use mcp_module.Protocol.Ids.{normalize_id, normalize_id_wire}
use mcp_module.Protocol.Codec.{encode_response, decode_response}
use mcp_module.Protocol.Codec.Messages.{Survives, decode-encode_response}
use mcp_module.Tests.Sample.{go}

abbrev seven : Any
seven = float64 (whole (pos 7))

seven-Survives : Survives go seven
unfolding marshal unmarshal
seven-Survives = record { written = int (pos 7); writes = refl; reads = refl }

why-Survives : Survives go (string "no such tool")
unfolding marshal unmarshal
why-Survives = record { written = str "no such tool"; writes = refl; reads = refl }

schema-Survives : Survives go (string "object")
unfolding marshal unmarshal
schema-Survives = record { written = str "object"; writes = refl; reads = refl }

abbrev call : Request
call = record {
  jsonrpc = jsonrpc_version;
  id = seven;
  method = "tools/call";
  params = some (object (("name", str "echo") ∷ []));
}

abbrev refusal : Response
refusal = record {
  jsonrpc = jsonrpc_version;
  id = seven;
  result = none;
  error = some (record {
    code = code_method_not_found;
    message = "Unknown tool: x";
    payload = string "no such tool";
  });
}

normalize_id_wire_example :
    (marshal (int64 (pos 7)) >>= λ v. some (normalize_id go (unmarshal go v)))
    ≡ some (int64 (pos 7))
normalize_id_wire_example = normalize_id_wire go (pos 7) refl refl

decode-encode_response_example : (encode_response refusal >>= decode_response go) ≡ some refusal
decode-encode_response_example =
    decode-encode_response go refusal seven-Survives
      (record { code_fits = refl; payload_survives = why-Survives })
