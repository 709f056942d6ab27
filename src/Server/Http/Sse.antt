-- ===== src/Server/Http/Sse.antt =====
-- pkg/server/http_server.go: handleSSE, from the connection of a client to its end.
use mcp_module.Common.{
  ℕ, String, Bool, Option, none, some, List, [], ◌∷◌, ◌++◌, lookup, insert, delete, codes,
  if◌then◌else◌, ◌==◌,
}
use mcp_module.Server.Http.{SseClient, HttpServer, HttpResponse, http_error, add_one, sub_one}
use mcp_module.Server.Http.Message.{frame, append_text}

-- The address under which a client is to post its messages; `host` is the request's Host.
unfoldable pub message_endpoint : List ℕ → List ℕ
message_endpoint host = codes "http://" ++ (host ++ codes "/message")

-- What a new client gets first.
unfoldable pub prologue : String → List ℕ → List ℕ
unfolding message_endpoint
prologue id host =
    frame (codes "connected") (codes "{\"clientId\":\"" ++ (codes id ++ codes "\"}"))
    ++ frame (codes "endpoint") (message_endpoint host)

abbrev pub heartbeat : List ℕ
heartbeat = codes ":heartbeat" ++ b'\n' ∷ b'\n' ∷ []

-- The guards of handleSSE; `none` lets the client in. The flag says that the writer can flush.
unfoldable pub refuse_sse : String → Bool → Option HttpResponse
refuse_sse method flushes =
    if method == "GET"
    then (if flushes then none else some (http_error "Streaming not supported" 500))
    else some (http_error "Method not allowed" 405)

module _ {W : Type 0} where
  -- A client that is let in, under the id that uuid.New has drawn.
  unfoldable pub connect : String → List ℕ → HttpServer W → HttpServer W
  unfolding prologue
  connect id host s = record s {
    clients = insert id (record { id = id; stream = prologue id host }) s.clients;
    active_conns = add_one s.active_conns;
  }

  -- A tick of the client's heartbeat.
  unfoldable pub beat_at : String → HttpServer W → Option SseClient → HttpServer W
  beat_at id s none = s
  beat_at id s (some c) = record s { clients = insert id (append_text heartbeat c) s.clients }

  unfoldable pub beat : String → HttpServer W → HttpServer W
  unfolding beat_at
  beat id s = beat_at id s (lookup id s.clients)

  -- The deferred function, when the request's context is done.
  unfoldable pub disconnect : String → HttpServer W → HttpServer W
  disconnect id s = record s {
    clients = delete id s.clients;
    active_conns = sub_one s.active_conns;
  }
