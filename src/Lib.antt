-- ===== src/Lib.antt =====
-- zara-rpc: an RPC framework over HTTP. This library models the parts that decide what happens to
-- a call: which handler a path reaches, who may call it, how long it may take, which status comes
-- back, and when a client tries again.
--
-- The parts, and how they interact:
--   * Routing.Pattern (routing/pattern.go): `parse_pattern` is ParsePattern, `match` is
--     Pattern.Match. An index into the path is the text from there on.
--   * Routing.Tree (routing/route_tree.go): `insert` and `lookup` of the radix tree. A method that
--     returns the child to go on with takes a continuation, so that the change happens in place.
--     `lookup` passes the shared parameter map on, with what the caller sees of it after a
--     failure.
--   * Routing.Mux (routing/mux.go): `register` and `serve` over the exact routes and one tree for
--     each method. Templates come from Routing.Pattern. Handlers are opaque.
--   * Codes (codes/codes.go): the codes, their names and their HTTP statuses.
--   * Metadata (metadata/metadata.go): the Grpc-Timeout header, with int64 wrap-around written
--     out, and the Grpc-Deadline header.
--   * Auth.Rbac (auth/rbac/policy.go): policies and their evaluation. Auth.Rbac.Watcher
--     (auth/rbac/rbac.go) is the authorizer that reloads its file, as a run over the reads.
--   * Middleware (middleware/interceptor.go): the chain. Auth.Interceptor (auth/interceptor and
--     auth/jwt/jwt.go): the interceptors that Middleware chains, over the contexts of Auth.Rbac.
--   * Client.Retry (client/retry.go): the retry loop, with what it calls as a sequence of answers.
--     Client.Errors (client/interceptor.go, status/status.go) is the code of a chain of errors.
--   * Auth.Jwt (auth/jwt): where a token is found, and its custom claims. Auth.Jwt.Keys
--     (auth/jwt/jwt.go, auth/jwt/issuer.go): how validators are built, with their keys, and the
--     claims that an issuer signs.
--   * Metadata.Pairs (metadata/metadata.go): the headers that a gateway forwards.
--   * Runtime.Substitute (runtime/substitute.go, protoc-gen-zararpc/path.go): path parameters in a
--     template, for a message given as the list of its fields.
--   * Internal.Buffers (internal/xsync/buffers.go): the buffer pools as a step relation on
--     capacities.
--   * Status (status/status.go): errors as their chains, with what they are on the wire
--     (Status.Wire), over HTTP (Status.Http) and as gRPC's statuses (Status.Grpc).
--   * Kernel.Errors (kernel/handler.go): `write_error`, which Status.Http's `from_http` reads.
--     Kernel.Operation and Kernel.Build (kernel/kernel.go, builder.go, prepare.go, registry.go):
--     the operations, their builder and their registration. Kernel.Serve (kernel/handler.go): what
--     a request comes to in each of the four streaming modes, with the chains of Middleware.
--     Kernel.Respond: the response of a handler. Kernel.Negotiate: its codec, from Encoding, its
--     deadline, from Metadata, and its upgrade. Kernel.FirstFrame (kernel/handler.go,
--     kernel/kernel.go, transport/websocket/websocket.go): the request of a server's stream over a
--     WebSocket, which Client.Streams.Opening sends.
--   * Encoding (encoding/codec.go, encoding/proto.go): the registry and the choice of a codec.
--   * Transport (transport/ndjson, transport/sse, client/ndjson.go, client/streams.go): both ends
--     of the two text framings, as functions on the bytes that are left.
--   * Runtime.Convert, Runtime.Populate and Runtime.FieldCache (runtime/pathconvert.go,
--     runtime/populate.go): the fields of a request's message, as a tree of values.
--   * Runtime.Ctx (runtime/ctx.go): contexts whose copies share a state, in a store.
--     Runtime.Requests (runtime/request.go, response.go, handler_router.go, metadata/metadata.go):
--     what handlers read of a request, and the dispatch between gRPC and the mux.
--   * Client.Calls (client/client.go, client/unary.go): the configuration of a call, with the
--     header maps as a store that copies share, and the errors of an attempt.
--     Client.Request (client/unary.go, client/streams.go) is its HTTP request, with the query of
--     Runtime.Query, which Runtime.Populate reads on the server.
--   * Runtime.Query (runtime/substitute.go): messages as query parameters. The messages are those
--     of Runtime.Populate.
--   * Client.Streams (client/streams.go, streaming/stream.go, kernel/stream.go): the adapters of
--     streams and their interceptors; Client.Streams.Opening opens a server's stream over HTTP or
--     over a WebSocket (client/websocket.go).
--   * Transport.WebSocket (transport/websocket/websocket.go, client/websocket.go): messages as
--     frames. A direction of a connection is an interface with laws, and a call is a schedule of
--     what its two ends do. The laws on what arrives are for frames within the read limit that
--     package coder/websocket documents, 32768 bytes, and for a connection that is open.
--   * Internal.Atomic (internal/xsync/atomic.go): additions to a shared float, as a schedule of the
--     atomic steps of many goroutines.
--   * Generator (protoc-gen-zararpc/validate.go): the checks of HTTP rules. Generator.Fields
--     (protoc-gen-zararpc/path.go, endpoint.go, handler.go): the fields that paths name, the names
--     in the generated code, and what a request builder leaves out of the query.
--   * Common holds texts as lists of bytes, association lists for Go maps, int64, and results.
--   * Examples runs the theorems at concrete inputs.
--
-- Code of other packages is a parameter: jwt.ParseWithClaims, json.Unmarshal, the addresses of
-- package net, the float64 arithmetic of the backoff, protowire and the package proto, JSON
-- bodies, base64, the codecs of messages, net/http, package coder/websocket, url.Values.Encode,
-- and what strconv, fmt and time make of floats, structs and times. Each
-- theorem on such code takes its documented behaviour as a record of laws.
--
-- Bounds and fuel: `add_literal` takes the length of the prefix as fuel, and each of its recursive
-- calls drops at least one byte. The digits of a number have fuel 20, the digits of 2 ^ 64. The
-- loops over the braces of a template have its length as fuel, and each round drops at least two
-- bytes. The loops of `unmarshalStatus`, of the event stream's `Receive` and of
-- `headerContainsFold` have the length of their input, and each round takes a byte at least. All
-- other functions are structural; the retry loop counts the attempts that are left.
--
-- Not modelled: the connections of net/http and the dialing of WebSockets (I/O), the lifecycle of
-- the server, the codecs themselves (libraries), the Go code that the
-- generator prints, the bridge to grpc-go, and the raw memory of internal. strings.TrimSpace and
-- EqualFold are those of ASCII.

mod Common
pub mod Routing
pub mod Codes
pub mod Metadata
pub mod Auth
pub mod Client
pub mod Runtime
pub mod Status
pub mod Kernel
pub mod Transport
pub mod Encoding
pub mod Generator
pub mod Internal
pub mod Middleware
mod Examples
