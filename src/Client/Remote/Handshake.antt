-- ===== src/Client/Remote/Handshake.antt =====
-- pkg/client Initialize against pkg/server handleInitialize.
use Prim.Native.Nat.{◌+◌}
use mcp_module.Common.{Option, ℕ, some, [], ◌≡◌, refl, ap, ◌∙◌, ◌>>=◌}
use mcp_module.Json.{Any, absent, Value, null, object, Runtime, marshal, unmarshal}
use mcp_module.I18n.{Translator}
use mcp_module.Protocol.{
  Request, jsonrpc_version, mcp_protocol_version, new_notification, new_request,
}
use mcp_module.Protocol.Codec.{decode_request}
use mcp_module.Protocol.Codec.Messages.{decode-encode_request}
use mcp_module.Protocol.Content.{ClientInfo, InitializeResult}
use mcp_module.Protocol.Codec.Handshake.{encode_initialize_params, encode_initialize_result}
use mcp_module.Protocol.Codec.HandshakeLaws.{decode-encode_initialize_result}
use mcp_module.Server.Tables.{Tables, capabilities}
use mcp_module.Server.Dispatch.{
  reply, silent, handle_request, respond, dispatch, method_of, handle_initialize,
}
use mcp_module.Client.Results.{received, parse_result}
use mcp_module.Protocol.{new_response}
use mcp_module.Client.Operations.{
  stdio_initialize, then_notify, initialized_line, notification_line, initialize, initialize_params,
  to_params, initialize_outcome, wrap_failure,
}
use mcp_module.Client.Exchange.{IsExact, Joined, exchange, notify, serve_one, serve_read, deliver}
use mcp_module.Client.Remote.{
  wire_id, arrived, after, serve_one-read, exchange-reply, respond_id, respond_error,
}

-- What a server says of itself.
abbrev pub handshake : {W : Type 0} → Tables W → InitializeResult
handshake s = record {
  protocol_version = mcp_protocol_version;
  capabilities = capabilities s;
  server_info = s.info;
}

initialize_outcome-respond :
    (go : Runtime) (id : Any) (r : InitializeResult)
    → initialize_outcome go (received (respond go id (some (encode_initialize_result r))))
      ≡ received r
unfolding initialize_outcome wrap_failure parse_result respond new_response
initialize_outcome-respond go id r = rw (decode-encode_initialize_result r) refl

pub initialize_handled :
    {W : Type 0} (go : Runtime) (translator : Translator) (s : Tables W) (w : W) (n : ℕ) (v : Value)
    → handle_request go translator (arrived n "initialize" (some v)) s w
      ≡ (w, reply (respond go (wire_id n) (some (encode_initialize_result (handshake s)))))
unfolding handle_request method_of dispatch handle_initialize
initialize_handled go translator s w n v = refl

module _ {W : Type 0} (go : Runtime) (translator : Translator) (s : Tables W) (c : Joined W)
    (exact : IsExact go (c.next_id + 1)) where
  -- Initialize returns the protocol version, the server's name and version, and a capability for
  -- exactly the kinds of entries that are registered, where the id is below 2^63 and exact as a float64.
  pub initialize-ok :
      (info : ClientInfo)
      → initialize go (exchange go translator s) info c ≡ (after c c.world, received (handshake s))
  unfolding initialize initialize_params encode_initialize_params marshal to_params
  initialize-ok info =
      rw
        (exchange-reply go translator s c exact "initialize" _
          (initialize_handled go translator s c.world (c.next_id + 1) _) (respond_id go _ _)
          (respond_error go _ _))
        (rw (initialize_outcome-respond go (wire_id (c.next_id + 1)) (handshake s)) refl)

-- The notification as the server reads it.
abbrev pub initialized_request : Request
initialized_request = record {
  jsonrpc = jsonrpc_version;
  id = absent;
  method = "notifications/initialized";
  params = some (object []);
}

initialized_arrives :
    (go : Runtime) → (initialized_line go >>= decode_request go) ≡ some initialized_request
unfolding initialized_line notification_line new_notification new_request marshal unmarshal
initialized_arrives go =
    decode-encode_request go initialized_request
      (record { written = null; writes = refl; reads = refl })

initialized_handled :
    {W : Type 0} (go : Runtime) (translator : Translator) (s : Tables W) (w : W)
    → handle_request go translator initialized_request s w ≡ (w, silent)
unfolding handle_request method_of dispatch
initialized_handled go translator s w = refl

module _ {W : Type 0} (go : Runtime) (translator : Translator) (s : Tables W) (c : Joined W) where
  notify_initialized : notify go translator s c (initialized_line go) ≡ c
  unfolding notify initialized_line notification_line new_notification new_request serve_one
      serve_read
  notify_initialized =
      ap (λ x. record c { world = x.0 })
        (serve_one-read go translator s c.next_id c.world _ _ (initialized_arrives go)
          ∙ ap (λ x. (x.0, deliver go c.next_id x.1)) (initialized_handled go translator s c.world))

module _ {W : Type 0} (go : Runtime) (translator : Translator) (s : Tables W) (c : Joined W) where
  -- StdioClient.Initialize returns what the server says of itself, and after that writes one line to
  -- the server, whatever the writing does to the client's state: a notification, which the server
  -- reads as one of the method "notifications/initialized", for which it runs no handler and sends
  -- no response, so that where it is written to that server nothing changes; where the id of the request is below 2^63 and exact as a float64.
  pub stdio_initialize-ok :
      IsExact go (c.next_id + 1)
      → (note : Joined W → Option Value → Joined W) (info : ClientInfo)
      → (stdio_initialize go (exchange go translator s) note info c
          ≡ (note (after c c.world) (initialized_line go), received (handshake s)))
        × ((initialized_line go >>= decode_request go) ≡ some initialized_request)
        × (handle_request go translator initialized_request s c.world ≡ (c.world, silent))
        × (notify go translator s (after c c.world) (initialized_line go) ≡ after c c.world)
  unfolding stdio_initialize then_notify
  stdio_initialize-ok exact note info = (
    rw (initialize-ok go translator s c exact info) refl,
    initialized_arrives go,
    initialized_handled go translator s c.world,
    notify_initialized go translator s (after c c.world),
  )
