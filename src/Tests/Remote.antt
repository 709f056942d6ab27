-- ===== src/Tests/Remote.antt =====
-- Operations of a client answered by the sample server.
use mcp_module.Range.{range}
use mcp_module.Common.{ℕ, ◌+◌, Option}
use mcp_module.Json.{Value}
use mcp_module.Client.Exchange.{Joined}
use mcp_module.Common.{
  String, [], ◌∷◌, map, lookup, true, some, ◌>>=◌, ◌≡◌, ◌≢◌, refl, Perm, arith, eq_iff,
}
use mcp_module.Json.{absent, str, bool, marshal, unmarshal}
use mcp_module.Range.{values}
use mcp_module.I18n.{noop_translator}
use mcp_module.Protocol.{code_internal_error}
use mcp_module.Protocol.Codec.Messages.{MapSurvives}
use mcp_module.Client.Results.{rpc, received, refused}
use mcp_module.Client.Operations.{
  call_tool, list_tools, read_resource, get_prompt, stdio_initialize, initialized_line,
}
use mcp_module.Client.Exchange.{exchange, notify}
use mcp_module.Client.Remote.{after}
use mcp_module.Client.Remote.Tools.{call_tool-ok, call_tool-failed}
use mcp_module.Client.Remote.Reads.{read_resource-ok, get_prompt-ok}
use mcp_module.Client.Remote.Lists.{SchemasSurvive, list_tools-perm}
use mcp_module.Client.Remote.Handshake.{handshake, initialized_request, stdio_initialize-ok}
use mcp_module.Server.Dispatch.{handle_request, silent}
use mcp_module.Protocol.Codec.{decode_request}
use mcp_module.Tests.Sample.{
  go, go-VisitsAll, echoed, notes_content, greeting, tables, joined, joined-IsExact, args,
}

args-MapSurvives : MapSurvives go args
unfolding marshal unmarshal
args-MapSurvives = (
  record { written = str "hi"; writes = refl; reads = refl },
  (record { written = bool true; writes = refl; reads = refl }, tt),
)

tools-SchemasSurvive : SchemasSurvive go tables.tools
unfolding marshal unmarshal
tools-SchemasSurvive =
    ((record { written = str "object"; writes = refl; reads = refl }, tt), (tt, tt))

fail_not_echo : ◌≢◌ {A = String} "fail" "echo"
fail_not_echo = ground (arith, eq_iff "fail" "echo")

call_tool-ok_example :
    call_tool go (exchange go noop_translator tables) "echo" args joined
    ≡ (after joined 1, received echoed)
unfolding lookup
call_tool-ok_example =
    call_tool-ok go noop_translator tables joined joined-IsExact "echo" args args-MapSurvives refl
      echoed refl

call_tool-failed_example : call_tool go (exchange go noop_translator tables) "fail" args joined ≡ (
  after joined 1,
  refused (rpc (record { code = code_internal_error; message = "broken"; payload = absent })),
)
unfolding lookup
call_tool-failed_example =
    call_tool-failed go noop_translator tables joined joined-IsExact "fail" args args-MapSurvives
      refl "broken" refl

read_resource-ok_example :
    read_resource go (exchange go noop_translator tables) "mem://notes" joined
    ≡ (after joined 1, received notes_content)
unfolding lookup
read_resource-ok_example =
    read_resource-ok go noop_translator tables joined joined-IsExact "mem://notes" notes_content
      refl refl

get_prompt-ok_example :
    get_prompt go (exchange go noop_translator tables) "greet" (("who", "Ada") ∷ []) joined
    ≡ (after joined 1, received greeting)
unfolding lookup
get_prompt-ok_example =
    get_prompt-ok go noop_translator tables joined joined-IsExact "greet" (("who", "Ada") ∷ [])
      greeting refl refl

list_tools-perm_example :
    (list_tools go (exchange go noop_translator tables) joined
      ≡ (after joined 0, received (map (λ e. e.tool) (range go tables.tools))))
    × Perm (map (λ e. e.tool) (range go tables.tools)) (map (λ e. e.tool) (values tables.tools))
list_tools-perm_example =
    list_tools-perm go noop_translator tables joined joined-IsExact go-VisitsAll
      ((fail_not_echo, tt), (tt, tt)) tools-SchemasSurvive

-- Writing a line, with the lines counted in the world.
abbrev lines_counted : Joined ℕ → Option Value → Joined ℕ
lines_counted c _ = record c { world = c.world + 1 }

stdio_initialize-ok_example :
    (stdio_initialize go
        (exchange go noop_translator tables)
        lines_counted
        (record { name = "mcp-client"; version = "1.0.0" })
        joined
      ≡ (lines_counted (after joined 0) (initialized_line go), received (handshake tables)))
    × ((initialized_line go >>= decode_request go) ≡ some initialized_request)
    × (handle_request go noop_translator initialized_request tables 0 ≡ (0, silent))
    × (notify go noop_translator tables (after joined 0) (initialized_line go) ≡ after joined 0)
stdio_initialize-ok_example =
    stdio_initialize-ok go noop_translator tables joined joined-IsExact lines_counted
      (record { name = "mcp-client"; version = "1.0.0" })
