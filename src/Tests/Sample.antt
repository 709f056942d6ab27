-- ===== src/Tests/Sample.antt =====
-- A runtime, a server with one entry of each kind, and a client joined to it.
use mathlib.Core.List.Perm
use mcp_module.Common.{refl, ℕ, ◌+◌, true, false, none, some, List, [], ◌∷◌, Dict}
use mcp_module.Common.Int.{pos}
use mcp_module.Json.{Any, string, boolean, whole, Runtime}
use mcp_module.Range.{VisitsAll}
use mcp_module.Protocol.{ok, failed}
use mcp_module.Protocol.Content.{Tool, ToolResult, Resource, ResourceContent, Prompt, PromptMessage}
use mcp_module.Server.Tables.{Tables}
use mcp_module.Client.Exchange.{Joined, IsExact}

abbrev pub go : Runtime
go = record {
  nearest = whole;
  trunc = λ _. pos 0;
  unmarshal_error = λ _. "unexpected end of JSON input";
  marshal_error = "json: unsupported value";
  format = λ _. "data";
  range_order = λ ks. ks;
}

pub go-VisitsAll : VisitsAll go
go-VisitsAll ks = Perm.refl ks

abbrev pub echo : Tool
echo = record { name = "echo"; description = "Echo"; input_schema = ("type", string "object") ∷ [] }

abbrev pub echoed : ToolResult
echoed = record {
  content = record { type = "text"; text = "hi"; mime_type = ""; blob = "" } ∷ [];
  is_error = false;
}

abbrev pub notes : Resource
notes = record { uri = "mem://notes"; name = "notes"; description = ""; mime_type = "text/plain" }

abbrev pub notes_content : ResourceContent
notes_content = record {
  uri = "mem://notes";
  mime_type = "text/plain";
  text = "remember";
  blob = "";
}

abbrev pub greet : Prompt
greet = record {
  name = "greet";
  description = "";
  arguments = record { name = "who"; description = ""; required = true } ∷ [];
}

abbrev pub greeting : List PromptMessage
greeting =
    record {
      role = "user";
      content = record { type = "text"; text = "hello"; mime_type = ""; blob = "" };
    }
    ∷ []

-- The world counts the calls.
abbrev pub tables : Tables ℕ
tables = record {
  info = record { name = "demo"; version = "1.0.0" };
  tools =
      ("echo", record { tool = echo; handler = λ w _. (w + 1, ok (some echoed)) })
      ∷ (
        "fail",
        record {
          tool = record { name = "fail"; description = ""; input_schema = [] };
          handler = λ w _. (w + 1, failed "broken");
        },
      )
      ∷ [];
  resources =
      (
        "mem://notes",
        record { resource = notes; handler = λ w _. (w + 1, ok (some notes_content)) },
      )
      ∷ (
        "mem://nil",
        record {
          resource = record { uri = "mem://nil"; name = "nil"; description = ""; mime_type = "" };
          handler = λ w _. (w, ok none);
        },
      )
      ∷ [];
  prompts = ("greet", record { prompt = greet; handler = λ w _. (w + 1, ok greeting) }) ∷ [];
}

abbrev pub joined : Joined ℕ
joined = record { next_id = 6; world = 0 }

abbrev pub args : Dict Any
args = ("text", string "hi") ∷ ("loud", boolean true) ∷ []

pub joined-IsExact : IsExact go (joined.next_id + 1)
joined-IsExact = record { nearest_same = refl; in_range = refl }
