-- ===== src/Lib.antt =====
-- A model of MCP_Module: clients and servers of the Model Context Protocol, a registry and adapters
-- of MCP servers, and their configuration. The Go packages below pkg/, and the program in
-- challenges/runner that exercises them, are translated into functions.
--
-- Parts, and the files that model them:
-- * pkg/protocol/protocol.go, by Protocol (requests, responses, errors, their constructors),
--   Protocol/Content (tools, resources, prompts, the handshake), Protocol/Ids (NormalizeID) and
--   Protocol/Codec with its children (what the json tags of the types mean for json.Marshal and
--   json.Unmarshal, one encoder and one decoder per type).
-- * pkg/i18n/translator.go and the two SetTranslator functions, by I18n.
-- * pkg/server/server.go, by Server/Dispatch: handleRequest with all its handlers. Server/Tables
--   has the maps of tools, resources and prompts that the two servers share, with registration and
--   Capabilities (pkg/server/stdio_server.go), and Server/Interface the interface Server without
--   Serve, with the methods of http_server.go for it. The handlers that a user registers are
--   arbitrary functions on a world of theirs, which may fail. Server/Serve is the loop of the stdio
--   server over the lines of its input.
-- * pkg/server/http_server.go, by Server/Http and its children: Message (handleMessage, writeError
--   and broadcastToSSE), Sse (handleSSE, in three steps: a client joins, its heartbeat ticks, it
--   leaves). A client's connection is the bytes written to it. Connections has the events at a
--   server in any order, Replies what a message may lead to, Parity the comparison with the stdio
--   server, Delivery what a course of events writes to one client.
-- * pkg/client, by Client/Config (the constructors), Client/Results (parseResult),
--   Client/Operations (the seven operations of the interface Client, over any sendRequest) and
--   Client/Exchange (a sendRequest that a server answers at once). Client/Remote and its children
--   join both sides: what an operation returns when the server of this module answers it.
--   Client/Sse is readSSE of http_client.go, from bytes to events; Client/Sse/Events is
--   handleSSEEvent, and its other children read what the HTTP server writes. Client/Transport is
--   the part of both clients that runs concurrently: sendRequest, the goroutine that reads, and
--   Close, as functions on the map of pending requests with its channels; Client/Transport/Steps
--   lets them take their steps in any order, and its other children have what holds then (Owned,
--   Ownership, Pending, Closing, Waking). Client/Transport/Calls is sendRequest from its start to
--   each of its returns, Runs a call of it among the steps of the others, and Posting its POST at
--   the HTTP server.
--   Client/Opening is Start and Connect.
-- * pkg/registry/registry.go, by Registry. An adapter is a record of methods on a world.
-- * pkg/config/config.go, by Config (validation), Config/Formats (the extensions) and
--   Config/Loading (LoadFromFile).
-- * pkg/adapter/adapter.go, by Adapter and a child for each kind of adapter. What a process, docker
--   or an HTTP server answers is an argument. The base of an adapter also has, beside the source's
--   fields, the states that SetState has set.
-- * challenges/runner/main.go, by Runner: the fixture file, pass and fail, mustReq and runOneRPC,
--   which sends a request through StdioServer.Serve; a child for each of the seven sections, from
--   Runner/Protocol to Runner/Seam; and Runner/Main, the exit status of the process. A section is
--   the list of passes and failures that it counts. Runner/Exits and Runner/Passing have the
--   theorems.
-- Common has lists, maps, texts, the case of letters and integers; Json the documents, the reading
-- of members and, in Json/Text, the text of a document with its escapes; Range the order of `range`
-- over a map; Tests runs at concrete inputs.
--
-- What stands outside of the source is a parameter. Json.Runtime holds what Go decides: rounding to
-- float64, the text of the errors of encoding/json, fmt's %v, and the order of `range`, which a
-- theorem asks, where it needs that, to visit each key once (Range.VisitsAll). Reading a file and
-- decoding a configuration are functions that Config/Loading takes. A request's id is a number that
-- a float64 holds exactly and that fits into 64 bits; in Go that holds of all counters up to 2^53,
-- and it is a hypothesis here. How a JSON document is written as bytes, and read, is
-- Server.Http.Syntax; where the runner searches that text, it is Json.Text.render with the digits
-- of numbers as a parameter. uuid.New draws an id that no client has.
--
-- Bounds: a map is a list of bindings with distinct keys; nil and empty slices and maps are the
-- same, and so are the members that encoding/json writes for them; documents are read as if they
-- had no member twice (Go reads each of two in turn, this model the last), and their numbers do not
-- exceed a float64. Time-outs of a client are not negative, and its transport is one of the
-- two that are named. An adapter in the registry has a fixed name, and its Config(), which the
-- registry does not call, is left out. An int is an integer, and is checked for 64 bits where it is
-- read; the counters of requests and of connections are int64, by their bits. Every loop of the
-- model is a recursion over a list, and no fuel is used. Texts are compared exactly, member names
-- with their letters folded, as encoding/json does.
--
-- Not modelled: HTTPServer.Serve, which starts net/http's server and shuts it down; that
-- StdioClient.Close closes the standard input of the server's process and kills it; timeouts; the
-- locks, since each section that a lock guards is one step; two handlers of the HTTP server at
-- once, since each request, heartbeat or disconnection is one event; a connection that breaks in
-- the middle of a write; panics of a user's handler; message bundles of translations; the headings
-- of the runner's lines and the values that it prints into them.
pub mod Common
pub mod Json
pub mod I18n
pub mod Protocol
pub mod Range
pub mod Server
pub mod Client
pub mod Registry
pub mod Config
pub mod Adapter
pub mod Runner
pub mod Tests
