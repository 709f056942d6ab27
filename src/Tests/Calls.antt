-- ===== src/Tests/Calls.antt =====
-- One call of sendRequest from its start to its return, and its POST at a server.
use mathlib.Core.List.{filter_map}
use mcp_module.Common.{insert, traverse, keys}
use mcp_module.Json.{struct_of, string_of, find_field, fields, members, marshal, any_of, unmarshal}
use mcp_module.Range.{range}
use mcp_module.Protocol.{new_response}
use mcp_module.Protocol.Codec.{
  encode_response, encode_tool, encode_any_map, marshal_entry, encode_pointer,
}
use mcp_module.Server.Dispatch.{handle_request, dispatch, method_of, handle_list_tools, respond}
use mcp_module.Server.Http.Message.{read_body, written}
use mcp_module.Server.Http.{new_http_server, default_http_server_config}
use mcp_module.Server.Http.Sse.{connect}
use mcp_module.Common.{lookup}
use mcp_module.Protocol.Codec.{decode_request}
use mcp_module.Common.{some, codes, refl, ◌≡◌, ◌⊎◌}
use mcp_module.I18n.{noop_translator}
use mcp_module.Server.Http.{json_response, http_error}
use mcp_module.Server.Http.Message.{handle_message}
use mcp_module.Client.Transport.Calls.{awaiting, status, after_sending, post_error}
use mcp_module.Client.Transport.Posting.{handled-awaits}
use mcp_module.Tests.Sample.{go}
use mcp_module.Tests.Transport.{called}
use mcp_module.Tests.Http.{text, served}

handled-awaits_example :
    (after_sending 1 (post_error (status (json_response (codes "{}")).status)) called
      ≡ (called, awaiting 1))
    ⊎ (json_response (codes "{}") ≡ http_error "internal error" 500)
unfolding handle_message read_body lookup connect insert new_http_server default_http_server_config
    decode_request struct_of string_of find_field fields members handle_request dispatch method_of
    handle_list_tools written respond new_response encode_response marshal traverse range filter_map
    keys encode_tool encode_any_map marshal_entry any_of unmarshal encode_pointer
handled-awaits_example =
    handled-awaits go text noop_translator served 0 (some (codes "{}")) called 1 refl
