-- ===== src/Tests/Serving.antt =====
-- A stdio server over an input of four lines.
use mcp_module.Common.{ℕ, ◌+◌, [], ◌∷◌, List, some}
use mcp_module.Protocol.{ok}
use mcp_module.Server.Tables.{Tables, ResourceEntry}
use mcp_module.Common.Int.{pos}
use mcp_module.Json.{int, str, object}
use mcp_module.Server.Serve.{Round, Input, line, blank, malformed, document}
use mcp_module.Tests.Sample.{tables, notes, notes_content}

abbrev input : List Round
input =
    line blank
    ∷ line malformed
    ∷ line (document (object (("method", str "notifications/initialized") ∷ [])))
    ∷ line (document (object (("id", int (pos 4)) ∷ ("method", str "tools/list") ∷ [])))
    ∷ []

abbrev notes_entry : ResourceEntry ℕ
notes_entry = record { resource = notes; handler = λ w _. (w + 1, ok (some notes_content)) }

abbrev notes_only : Tables ℕ
notes_only = record tables { resources = ("mem://notes", notes_entry) ∷ [] }

abbrev lines : List Input
lines = malformed ∷ document (object (("id", int (pos 4)) ∷ ("method", str "tools/list") ∷ [])) ∷ []
