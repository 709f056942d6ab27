-- ===== src/Tests/Http.antt =====
-- An HTTP server with a client that is told of a response, and the same request over stdio.
use mcp_module.Common.{insert}
use mcp_module.Server.Http.Message.{frame, message_frame}
use mcp_module.Server.Http.Delivery.{texts_of}
use mcp_module.Common.{
  zero, suc, length, ◌++◌, ap, ℕ, some, List, [], ◌∷◌, codes, lookup, refl, arith, ◌≡◌,
}
use mcp_module.Common.Int.{pos}
use mcp_module.Json.{Value, int, str, object}
use mcp_module.I18n.{noop_translator}
use mcp_module.Server.Http.{Syntax, HttpServer, default_http_server_config, new_http_server}
use mcp_module.Server.Http.Message.{handle_message}
use mcp_module.Server.Http.Sse.{prologue, connect, disconnect, message_endpoint}
use mcp_module.Server.Http.Connections.{
  posts, joins, ticks, leaves, after_event, Reach, created, happened, IsCounted, Reach-IsCounted,
}
use mcp_module.Server.Http.Replies.{Leaves, handle_message-Leaves}
use mcp_module.Server.Http.Delivery.{Piece, message, ping}
use mcp_module.Client.Sse.{events_of}
use mcp_module.Client.Sse.Streams.{greeted, events_in, events_of-long}
use mcp_module.Client.Sse.Frames.{IsLine}
use mcp_module.Tests.Sample.{go, tables}

abbrev listing : Value
listing = object (("jsonrpc", str "2.0") ∷ ("id", int (pos 4)) ∷ ("method", str "tools/list") ∷ [])

-- Every text is the listing, and every document is written as a pair of braces.
abbrev pub text : Syntax
text = record { render = λ _. codes "{}"; parse = λ _. some listing }

abbrev server : HttpServer ℕ
server = record (new_http_server "demo" "1.0.0" default_http_server_config) { tables = tables }

abbrev host : List ℕ
host = codes "localhost:8080"

abbrev pub served : HttpServer ℕ
served = connect "a" host server

handle_message-Leaves_example :
    Leaves go text noop_translator served 0 "POST"
      (some (codes "{}"))
      (handle_message go text noop_translator served 0 "POST" (some (codes "{}")))
handle_message-Leaves_example =
    handle_message-Leaves go text noop_translator served 0 "POST" (some (codes "{}"))

reached : Reach go text noop_translator (disconnect "a" (connect "b" host served), 0)
unfolding after_event connect lookup disconnect new_http_server insert
reached =
    happened (leaves "a")
      (happened (joins "b" host)
        (happened (joins "a" host) (created "demo" "1.0.0" default_http_server_config tables 0)
          refl)
        refl)
      (λ e. cc)

Reach-IsCounted_example : IsCounted (disconnect "a" (connect "b" host served))
Reach-IsCounted_example = Reach-IsCounted go text noop_translator reached

abbrev course : List Piece
course = ping ∷ message (codes "{}") ∷ []

abbrev ticked : HttpServer ℕ × ℕ
ticked = after_event go text noop_translator (ticks "a") (served, 0)

abbrev after : HttpServer ℕ × ℕ
after = after_event go text noop_translator (posts "POST" (some (codes "{}"))) ticked

-- A line of n commas.
unfoldable commas : ℕ → List ℕ
commas zero = []
commas (suc n) = b',' ∷ commas n

length-commas : (n : ℕ) → length (commas n) ≡ n
unfolding commas
length-commas zero = refl
length-commas (suc n) = ap (λ k. suc k) (length-commas n)

commas-IsLine : (n : ℕ) → IsLine (commas n)
unfolding commas
commas-IsLine zero = tt
commas-IsLine (suc n) = ((λ e. omega (arith, e), λ e. omega (arith, e)), commas-IsLine n)

events_of-long_example :
    events_of (
      prologue "a" host
      ++ (texts_of course
          ++ (frame (codes "message") (commas 65_530) ++ message_frame (codes "{}"))))
    ≡ greeted "a" host (events_in course)
unfolding message_endpoint
events_of-long_example =
    events_of-long "a" host course (commas 65_530) (message_frame (codes "{}"))
      (omega arith, omega arith) (omega arith, omega arith) ((omega arith, omega arith), tt)
      (commas-IsLine 65_530) (omega (arith, length-commas 65_530))
