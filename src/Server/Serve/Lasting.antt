-- ===== src/Server/Serve/Lasting.antt =====
-- pkg/server/stdio_server.go: StdioServer.Serve over lines of any kind, and what comes after them.
use mcp_module.Common.{String, none, some, List, ◌++◌, lookup, ◌≡◌, ◌≢◌}
use mcp_module.Json.{Runtime}
use mcp_module.I18n.{Translator}
use mcp_module.Protocol.{ok}
use mcp_module.Server.Tables.{Tables, ResourceEntry}
use mcp_module.Server.Serve.{Round, returned, Served, serve}

-- The handlers of the resources return a content or an error.
abbrev pub NeverNil : {W : Type 0} → Tables W → Type 0
NeverNil {W} s =
    (uri : String) (entry : ResourceEntry W)
    → lookup uri s.resources ≡ some entry
    → (w : W) → (entry.handler w uri).1 ≢ ok none

-- A run that goes on where another has come to its end.
abbrev pub and_then : {W : Type 0} → Served W → Served W → Served W
and_then first later = record later { written = first.written ++ later.written }

module _ {W : Type 0} (go : Runtime) (translator : Translator) (s : Tables W) where
  abbrev Follows : List Round → Served W → Served W → Type 0
  Follows rs first whole =
      (first.ending ≡ returned none)
      × (whole ≡ and_then first (serve go translator s rs first.world))
