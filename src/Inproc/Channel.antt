-- ===== src/Inproc/Channel.antt =====
-- inprocgrpc/in_process.go: Channel with its setters, RegisterService, GetServiceInfo and NewStream.
-- What the goroutine of NewStream does is a function of the requests that its handler can receive;
-- stats handlers are left out, and so is the transport stream in the handler's context.
pub mod Streams
pub mod Routing
pub mod Opening
pub mod Invoking
use grpchan.Base.{
  drop, Bytes, codes, GoError, Result, ok, err, ℕ, suc, Bool, true, false, Option, none, some, List,
  [], ◌∷◌, ◌++◌,
}
use grpchan.Registry.{
  Outcome, value, panic, ServiceInfo, HandlerMap, register_service, query_service, get_service_info,
}
use grpchan.Grpc.{StreamDesc, ServiceDesc}
use grpchan.Internal.Misc.{find_streaming_method}
use grpchan.Internal.CallOptions.{
  Context, Metadata, CallOption, CallOptions, Store, set_peer, get_call_options,
  apply_per_rpc_creds,
}
use grpchan.Inproc.{Cloner, Frame}
use grpchan.Inproc.Contexts.{
  outgoing_key, Ctx, with_value, with_cancel, metadata_value, from_outgoing, inprocess_peer,
  make_server_context,
}
use grpchan.Inproc.Unary.{split_slash, with_slash, unimplemented}
use grpchan.Inproc.Server.{in_headers, Env, live}
use grpchan.Inproc.Server.Protocol.{Call, serve}
use grpchan.Inproc.Client.{ClientStream}

-- What a streaming handler does, given its server, its context and the frames of the requests: its
-- calls on the stream, and the error that it returns.
abbrev pub Running : Type 0 → Type 0
Running M = List (Frame M) → List (Env × Call M) × Option GoError

abbrev pub StreamHandler : Type 0 → Type 0 → Type 0
StreamHandler H M = H → Ctx → Running M

-- grpc.StreamServerInfo and grpc.StreamServerInterceptor
pub record StreamInfo : Type 0 where
  pub full_method : Bytes
  pub is_client_stream : Bool
  pub is_server_stream : Bool

abbrev pub StreamInterceptor : Type 0 → Type 0 → Type 0
StreamInterceptor H M = StreamInfo → StreamHandler H M → StreamHandler H M

-- U and I are the types of unary handlers and interceptors. A nil map, interceptor or cloner is `none`.
pub record Channel (U I H M : Type 0) : Type 0 where
  pub handlers : Option (HandlerMap U (StreamHandler H M) H)
  pub unary_interceptor : Option I
  pub stream_interceptor : Option (StreamInterceptor H M)
  pub cloner : Option (Cloner M)

-- What NewStream gives: the client's stream, and what the goroutine runs, with its context and the
-- context that is cancelled by the end of the RPC.
pub record Opened (M : Type 0) : Type 0 where
  pub client_end : ClientStream M
  pub server_ctx : Ctx
  pub done_ctx : Ctx
  pub running : Running M

module _ {U I H M : Type 0} where
  abbrev pub registered :
      Channel U I H M → Outcome (HandlerMap U (StreamHandler H M) H) → Outcome (Channel U I H M)
  registered c (panic why) = panic why
  registered c (value m) = value (record c { handlers = some m })

  abbrev pub handlers_of : Channel U I H M → HandlerMap U (StreamHandler H M) H
  handlers_of c = elim c.handlers [ none ↦ [] | some m ↦ m ]

  -- RegisterService
  unfoldable pub add_service :
      (H → Bytes → Bool)
      → Channel U I H M
      → ServiceDesc U (StreamHandler H M)
      → H
      → Outcome (Channel U I H M)
  unfolding register_service
  add_service implements c desc svr =
      registered c (register_service implements (handlers_of c) desc svr)

  -- GetServiceInfo; a nil map is `none`.
  unfoldable pub service_info : Channel U I H M → Option (List (Bytes × ServiceInfo))
  unfolding get_service_info
  service_info c = elim c.handlers [ none ↦ none | some m ↦ some (get_service_info m) ]

  unfoldable pub with_server_unary_interceptor : Channel U I H M → I → Channel U I H M
  with_server_unary_interceptor c i = record c { unary_interceptor = some i }

  unfoldable pub with_server_stream_interceptor :
      Channel U I H M → StreamInterceptor H M → Channel U I H M
  with_server_stream_interceptor c i = record c { stream_interceptor = some i }

  unfoldable pub with_cloner : Channel U I H M → Cloner M → Channel U I H M
  with_cloner c cl = record c { cloner = some cl }

module _ {U S H : Type 0} where
  -- The service's implementation and the stream's descriptor.
  unfoldable pub find_stream :
      HandlerMap U S H → Bytes × Option Bytes → Outcome (Result (H × StreamDesc S))
  find_stream handlers (service_name, none) = panic "index out of range"
  find_stream handlers (service_name, some method_name) =
      elim (query_service handlers service_name) [
        | none ↦
            value
              (err (unimplemented (codes "service " ++ service_name ++ codes " not implemented")))
        | some (sd, h) ↦ elim (find_streaming_method method_name sd.streams) [
          | none ↦ value (
              err (
                unimplemented (
                  codes "method "
                  ++ service_name
                  ++ (b'/' ∷ method_name)
                  ++ codes " not implemented")))
          | some md ↦ value (ok (h, md))
        ]
      ]

module _ {U I H M : Type 0} (api : Metadata) (proto_cloner : Cloner M) (c : Channel U I H M) where
  abbrev pub cloner_of : Cloner M
  cloner_of = elim c.cloner [ none ↦ proto_cloner | some cl ↦ cl ]

  abbrev pub intercepted : StreamInfo → StreamHandler H M → StreamHandler H M
  intercepted info handler = elim c.stream_interceptor [ none ↦ handler | some i ↦ i info handler ]

  -- NewStream behind the lookup: the contexts, the goroutine and the client's stream. `first` is the
  -- number of the first of the three contexts that it makes.
  unfoldable pub open_stream :
      ℕ → Store → CallOptions → Bool → Bytes → Ctx → H × StreamDesc (StreamHandler H M) → Opened M
  unfolding make_server_context
  open_stream first store copts response_stream full ctx (h, md) =
      let client_ctx = with_cancel first ctx in
      let server_ctx = with_cancel (suc first) (make_server_context client_ctx) in
      let info : StreamInfo = record {
        full_method = full;
        is_client_stream = md.client_streams;
        is_server_stream = md.server_streams;
      } in
      record {
        client_end = record {
          cloner = cloner_of;
          copts = copts;
          store = store;
          response_stream = response_stream;
          responses = [];
          turns = [];
          state = in_headers;
          last = none;
          headers = none;
          trailers = none;
          send_closed = false;
          requests = record { sent = []; closed = false; panicked = false };
        };
        server_ctx = server_ctx;
        done_ctx = with_cancel (suc (suc first)) server_ctx;
        running = intercepted info md.handler h server_ctx;
      }

  abbrev pub opened_with :
      ℕ
      → Store
      → CallOptions
      → Bool
      → Bytes
      → Ctx
      → Outcome (Result (H × StreamDesc (StreamHandler H M)))
      → Outcome (Result (Opened M))
  opened_with first store copts many full ctx (panic why) = panic why
  opened_with first store copts many full ctx (value (err e)) = value (err e)
  opened_with first store copts many full ctx (value (ok found)) =
      value (ok (open_stream first store copts many full ctx found))

  -- The context with the outgoing metadata that the credentials left.
  abbrev pub credited : Ctx → Context → Ctx
  credited ctx c' = elim c'.outgoing [
    | none ↦ ctx
    | some md ↦ with_value outgoing_key (metadata_value md) ctx
  ]

  abbrev pub new_stream_in :
      ℕ → Store → CallOptions → Bool → Bytes → Ctx → Result Context → Outcome (Result (Opened M))
  new_stream_in first store copts many full ctx (err e) = value (err e)
  new_stream_in first store copts many full ctx (ok c') =
      opened_with first store copts many full (credited ctx c')
        (find_stream (handlers_of c) (split_slash (drop 1 full)))

  abbrev pub new_stream_named :
      ℕ → Store → CallOptions → Bool → Ctx → Outcome Bytes → Outcome (Result (Opened M))
  new_stream_named first store copts many ctx (panic why) = panic why
  new_stream_named first store copts many ctx (value full) =
      new_stream_in first store copts many full ctx (
        apply_per_rpc_creds api (record { outgoing = from_outgoing ctx }) copts
          (codes "inproc:0" ++ full) true)

  -- NewStream, with the caller's variables behind SetPeer in the client's stream; `many` is whether the
  -- caller's descriptor streams responses.
  unfoldable pub new_stream :
      ℕ → Store → Ctx → Bool → Bytes → List CallOption → Outcome (Result (Opened M))
  unfolding open_stream find_stream split_slash set_peer
  new_stream first store ctx many method opts =
      let copts = get_call_options opts in
      new_stream_named first (set_peer copts inprocess_peer store) copts many ctx
        (with_slash method)

-- What the goroutine puts on the channel of responses when it ends with a live context, from what its
-- handler does.
abbrev pub sent_by : {M : Type 0} → Cloner M → List (Env × Call M) × Option GoError → List (Frame M)
sent_by cloner (calls, e) = (serve cloner calls live e []).responses.sent

unfoldable pub responses_of : {M : Type 0} → Cloner M → Opened M → List (Frame M) → List (Frame M)
unfolding serve
responses_of cloner o requests = sent_by cloner (o.running requests)
