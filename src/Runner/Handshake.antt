-- ===== src/Runner/Handshake.antt =====
-- challenges/runner/main.go: section2StdioServerInitialize.
use mcp_module.Common.{Bool, false, ◌&&◌, some, List, [], ◌∷◌, ◌==◌}
use mcp_module.Json.{absent, Runtime}
use mcp_module.Protocol.{ok, mcp_protocol_version, is_some}
use mcp_module.Protocol.Content.{new_text_content, InitializeResult, ServerCapabilities}
use mcp_module.Protocol.Codec.Handshake.{
  encode_initialize_params, decode_initialize_result, or_null,
}
use mcp_module.Client.Operations.{to_params}
use mcp_module.Server.Tables.{
  Tables, new_tables, register_tool, register_resource, register_prompt, capabilities,
}
use mcp_module.Runner.{Verdict, pass, require, expect, must_request, run_one_rpc, require_answer}

-- The server with an entry of each kind.
unfoldable pub noop_server : Tables (Unit {0})
unfolding register_tool register_resource register_prompt new_tables
noop_server =
    register_prompt (record { name = "noop"; description = ""; arguments = [] })
      (λ w _. (w, ok (record { role = "user"; content = new_text_content "noop" } ∷ [])))
      (register_resource
        (record { uri = "mcp://noop"; name = "noop"; description = ""; mime_type = "" })
        (λ w _.
          (w, ok (some (record { uri = "mcp://noop"; mime_type = ""; text = "noop"; blob = "" }))))
        (register_tool (record { name = "noop"; description = ""; input_schema = [] })
          (λ w _.
            (w, ok (some (record { content = new_text_content "noop" ∷ []; is_error = false }))))
          (new_tables "round-267-mcp" "0.267.0")))

abbrev pub has_all : ServerCapabilities → Bool
has_all c = is_some c.tools && is_some c.resources && is_some c.prompts

-- The checks of what the server says of itself, and of the accessors.
unfoldable pub check_handshake : InitializeResult → List Verdict
unfolding require noop_server capabilities
check_handshake init =
    require (init.protocol_version == mcp_protocol_version) "[Section2][initialize]" (
      require (init.server_info.name == "round-267-mcp" && init.server_info.version == "0.267.0")
        "[Section2][ServerInfo]"
        (require (has_all init.capabilities) "[Section2][Capabilities]" (
          pass "[Section2][initialize]"
          ∷ pass "[Section2][Capabilities]"
          ∷ require (noop_server.info.name == "round-267-mcp") "[Section2][ServerInfo()]" (
              require (is_some (capabilities noop_server).tools) "[Section2][Capabilities()]"
                (pass "[Section2][ServerInfo()/Capabilities()]" ∷ [])))))

unfoldable pub section2 : Runtime → List Verdict
unfolding noop_server run_one_rpc require_answer expect check_handshake
section2 go =
    let rpc = run_one_rpc go noop_server tt (
      must_request go 1 "initialize" (
        to_params (
          encode_initialize_params (record {
            protocol_version = mcp_protocol_version;
            capabilities = absent;
            client_info = record { name = "round-267-runner"; version = "1.0.0" };
          })))) in
    require_answer rpc "[Section2][initialize]" λ result.
      expect (decode_initialize_result (or_null result)) "[Section2][initialize-unmarshal]"
        check_handshake
