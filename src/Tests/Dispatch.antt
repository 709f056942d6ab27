-- ===== src/Tests/Dispatch.antt =====
-- Requests to the sample server.
use mcp_module.Common.{String, none, some, [], ◌∷◌, ◌≡◌, ◌↔◌}
use mcp_module.Common.Int.{pos}
use mcp_module.Json.{string, float64, whole, str, object}
use mcp_module.I18n.{noop_translator}
use mcp_module.Protocol.{Request, jsonrpc_version}
use mcp_module.Server.Dispatch.{silent, panicked, handle_request}
use mcp_module.Server.Replies.{handle_request-silent_iff}
use mcp_module.Server.Panics.{ReturnsNil, handle_request-panicked_iff}
use mcp_module.Tests.Sample.{go, tables}

abbrev read_nil : Request
read_nil = record {
  jsonrpc = jsonrpc_version;
  id = float64 (whole (pos 4));
  method = "resources/read";
  params = some (object (("uri", str "mem://nil") ∷ []));
}

abbrev unknown_method : Request
unknown_method = record {
  jsonrpc = jsonrpc_version;
  id = string "a";
  method = "tools/run";
  params = none;
}

handle_request-silent_iff_example :
    ((handle_request go noop_translator unknown_method tables 0).1 ≡ silent)
    ↔ ◌≡◌ {A = String} "tools/run" "notifications/initialized"
handle_request-silent_iff_example =
    handle_request-silent_iff go noop_translator unknown_method tables 0

handle_request-panicked_iff_example :
    ((handle_request go noop_translator read_nil tables 0).1 ≡ panicked)
    ↔ ◌≡◌ {A = String} "resources/read" "resources/read" × ReturnsNil read_nil tables 0
handle_request-panicked_iff_example =
    handle_request-panicked_iff go noop_translator read_nil tables 0
