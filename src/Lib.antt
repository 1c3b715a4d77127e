-- ===== src/Lib.antt =====
-- grpchan: gRPC over channels other than HTTP/2. A service registers its handlers (server.go),
-- calls and handlers can be wrapped in interceptors (intercept.go), and two transports carry the
-- calls: one inside the process, over Go channels of frames (inprocgrpc/), and one over HTTP 1.1
-- (httpgrpc/), with JSON streams as server-sent events (internal/sse/). A plugin of protoc generates
-- stubs that call a service over any of them (cmd/protoc-gen-grpchan/).
--
-- The files, and the code that they are about:
--   Registry            server.go: HandlerMap
--   Intercept.Client    intercept.go: InterceptClientConn and the intercepted channel
--   Intercept.Server    intercept.go: WithInterceptor, InterceptServer and the registrars
--   Internal.TransportStream, Internal.CallOptions, Internal.Misc
--                       internal/transport_stream.go, call_options.go, misc.go
--   Inproc              inprocgrpc/in_process.go: frames, readMessage and writeMessage
--   Inproc.Server       ... inProcessServerStream
--   Inproc.Client       ... inProcessClientStream
--   Inproc.Requests     ... RecvMsg of inProcessServerStream
--   Inproc.Unary        ... Channel.Invoke, from the request's check to the last frame
--   Inproc.Channel.Invoking
--                       ... Channel.Invoke as a whole, with the peer and the contexts
--   Inproc.Contexts     ... makeServerContext and ClientContext
--   Inproc.Channel      ... Channel with its setters, RegisterService and NewStream
--   Inproc.Cloners      inprocgrpc/cloner.go; internal/misc.go: CopyMessage, CloneMessage, ClearMessage
--   Httpgrpc.Frames, Httpgrpc.Headers
--                       httpgrpc/io.go: the size-prefixed framing; metadata as HTTP headers
--   Httpgrpc.Events     httpgrpc/io.go: the JSON and the server-sent event framings
--   Httpgrpc.Codes      httpgrpc/codes.go
--   Httpgrpc.Protocol   httpgrpc/protocol_versions.go
--   Httpgrpc.Status     httpgrpc/server.go: the status headers of handleMethod; httpgrpc/client.go:
--                       statFromResponse
--   Httpgrpc.Timeout    httpgrpc/client.go: headersFromContext; httpgrpc/server.go:
--                       contextFromHeaders
--   Httpgrpc.Method     httpgrpc/server.go: handleMethod and the default error renderer
--   Httpgrpc.Json       httpgrpc/json.go
--   Httpgrpc.Wire       httpgrpc/protocol_versions.go: the framings of a stream, as one interface
--   Httpgrpc.ServerStream
--                       httpgrpc/server.go: serverStream and handleStream
--   Httpgrpc.Server, Httpgrpc.Server.Routes
--                       httpgrpc/server.go: Server and its options, HandleServices, HandleMethod and
--                       HandleStream
--   Httpgrpc.ClientStream
--                       httpgrpc/client.go: clientStream and doHttpCall
--   Httpgrpc.Channel    httpgrpc/client.go: the channel, Invoke and NewStream
--   Sse                 internal/sse/sse.go
--   Codegen.Args, Codegen.Stubs
--                       cmd/protoc-gen-grpchan/protoc-gen-grpchan.go: parseArgs; generateChanStubs
--   Base, Stdio, Strconv, Grpc
--                       Go maps, strings, errors, readers and writers, decimal numbers, and the
--                       descriptors of package grpc
--   Tests               each theorem with conditions at concrete values
-- A module below one of these proves what its name says of the module above it.
--
-- State is passed explicitly: a method takes the stream and returns its result with the new stream.
-- A Go map is an association list, whose order is the order of a range loop over it; an int32 or an
-- int64 is its bit pattern. Methods that hold a mutex are atomic, so concurrent use of a stream is
-- a list of calls. What the scheduler and the contexts decide, such as the case that a select
-- takes, is an argument of the call. A Go channel is the list of frames sent and whether it is
-- closed; a receiver that would block is one whose frames are still to come, so the buffer's size
-- plays no part. The goroutine of a caller's stream over HTTP is a state of that stream: it reads, or
-- offers a message, or has ended, and its steps are operations like the calls. What a handler of a
-- stream over HTTP does is a tree of its calls, each depending on the results before it; what one of
-- an in-process stream does is a function of the requests that it can receive. The cloners work on a
-- heap of objects with addresses; elsewhere a message is its value.
--
-- Loops are structural: over the frames still to come, the options, the headers or the bytes of a
-- line. The digits of a number n are printed on fuel n + 1, which is enough since each digit
-- divides by ten. The callers that receive until there is an error do so on fuel: one receive for
-- each message and one for the error; over HTTP, where each message takes input, one for each byte of
-- the response and two more are enough whatever the response holds.
--
-- Parameters: message and detail codecs, base64, the texts of HTTP statuses, codes and errors,
-- packages proto, protojson and metadata, credentials, http.ServeMux, path.Join, the media type parser,
-- Go's reflection, and the types of contexts, handlers and interceptors.
--
-- Not modelled: the stats handlers, which observe calls, and the code generator's printing of files.
-- The status of a reply that is OK is `none`.
pub mod Base
pub mod Stdio
pub mod Strconv
pub mod Grpc
pub mod Sse
pub mod Internal
pub mod Registry
pub mod Intercept
pub mod Inproc
pub mod Httpgrpc
pub mod Codegen
pub mod Tests
