-- ===== src/Inproc/Channel/Invoking.antt =====
-- inprocgrpc/in_process.go: Channel.Invoke as a whole: the peer, the server's context and the channel's
-- interceptor around the call, and what the caller's variables hold behind it. The transport stream that
-- the handler finds in its context is given to it on its own; stats handlers are left out.
use grpchan.Base.{Bytes, Md, GoError, Result, ok, ℕ, ◌≡◌, refl, ap, ◌∙◌, Option, none, some, List}
use grpchan.Grpc.{MethodDesc, ServiceDesc}
use grpchan.Registry.{Outcome, value, panic, query_service}
use grpchan.Internal.Misc.{find_unary_method}
use grpchan.Internal.CallOptions.{
  Metadata, CallOption, CallOptions, Store, set_peer, set_headers, set_trailers, get_call_options,
}
use grpchan.Internal.TransportStream.{UnaryStream, new}
use grpchan.Inproc.{code_internal, status_of, Cloner, IsFaithful}
use grpchan.Inproc.Contexts.{Ctx, with_cancel, from_outgoing, inprocess_peer, make_server_context}
use grpchan.Inproc.Unary.{Writes, all_written, Gathered, Handling}
use grpchan.Inproc.Unary.{invoke as invoke_behind_peer}
use grpchan.Inproc.Unary.Laws.{never, sent_md, unary_outcome}
use grpchan.Inproc.Unary.Laws.{invoke-unary_outcome as invoke_behind_peer-unary_outcome}
use grpchan.Inproc.Unary.Routing.{SlashFree, full_name}
use grpchan.Inproc.Channel.{StreamHandler, Channel, handlers_of, cloner_of, credited}

-- grpc.MethodHandler: the implementation, the context, what the decoding function makes of the request,
-- the interceptor, and the transport stream.
abbrev pub UnaryHandler : Type 0 → Type 0 → Type 0 → Type 0
UnaryHandler I H M =
    H → Ctx → Result M → Option I → UnaryStream → (Option M × Option GoError) × UnaryStream

-- What a call leaves: its error, the caller's message if it was written, and the caller's variables.
pub record Invoked (M : Type 0) : Type 0 where
  pub error : Option GoError
  pub response : Option M
  pub variables : Store

abbrev pub assign_headers : CallOptions → Option Md → Store → Store
assign_headers co none store = store
assign_headers co (some md) store = set_headers co md store

abbrev pub assign_trailers : CallOptions → Option Md → Store → Store
assign_trailers co none store = store
assign_trailers co (some md) store = set_trailers co md store

module _ {M : Type 0} where
  -- The maps that the client's loop came to, in the variables; headers come before trailers.
  abbrev pub given :
      CallOptions → Store → Outcome (Option GoError × Gathered M) → Outcome (Invoked M)
  given co store (panic why) = panic why
  given co store (value (e, g)) = value (record {
    error = e;
    response = g.response;
    variables = assign_trailers co g.seen_trailers (assign_headers co g.seen_headers store);
  })

module _ {I H M : Type 0} (api : Metadata) (proto_cloner : Cloner M)
    (c : Channel (UnaryHandler I H M) I H M) where
  -- The call of md.Handler, in the server context of the context that can be cancelled.
  abbrev pub handled : ℕ → Ctx → Handling (UnaryHandler I H M) H M
  handled first ctx client h handler request sts =
      handler h (make_server_context (with_cancel first (credited api proto_cloner c ctx client)))
        request c.unary_interceptor sts

  -- Channel.Invoke; `first` is the number of the context that it makes.
  unfoldable pub invoke :
      ℕ
      → Store
      → Ctx
      → List CallOption
      → Writes
      → (ℕ → Option GoError)
      → Bytes
      → Option M
      → Outcome (Invoked M)
  unfolding make_server_context set_peer set_headers set_trailers
  invoke first store ctx opts w done method req =
      given (get_call_options opts) (set_peer (get_call_options opts) inprocess_peer store) (
        invoke_behind_peer api (cloner_of api proto_cloner c) (handled first ctx) (handlers_of c)
          opts (record { outgoing = from_outgoing ctx }) w done method req)

module _ {M : Type 0} where
  -- What a caller is to get of a handler's return and the stream that it left.
  abbrev pub returned : CallOptions → Store → UnaryStream → Option M × Option GoError → Invoked M
  returned co store sts (v, some e) = record {
    error = some e;
    response = none;
    variables = assign_trailers co (sent_md sts.tlrs) (assign_headers co (sent_md sts.hdrs) store);
  }
  returned co store sts (none, none) = record {
    error = some (status_of code_internal "handler returned neither error nor response message");
    response = none;
    variables = assign_trailers co (sent_md sts.tlrs) (assign_headers co (sent_md sts.hdrs) store);
  }
  returned co store sts (some m, none) = record {
    error = none;
    response = some m;
    variables = assign_trailers co (sent_md sts.tlrs) (assign_headers co (sent_md sts.hdrs) store);
  }

  given-returned :
      (co : CallOptions) (store : Store) (sts : UnaryStream) (reply : Option M × Option GoError)
      → given co store (value (unary_outcome sts reply)) ≡ value (returned co store sts reply)
  unfolding unary_outcome
  given-returned co store sts (v, some e) = refl
  given-returned co store sts (none, none) = refl
  given-returned co store sts (some m, none) = refl

module _ {I H M : Type 0} (api : Metadata) (proto_cloner : Cloner M)
    (c : Channel (UnaryHandler I H M) I H M) where
  -- A call without credentials of a method that is registered for a service whose name has no slash, in
  -- a context that stays live and with faithful copies, runs the handler on a copy of the request, in
  -- a server context of the caller's, with the channel's interceptor and with the full method name in
  -- its stream, and gives the caller the error and the response that the handler returned, and in its
  -- variables the in-process peer and the headers and trailers that the handler left, where there are
  -- any; a handler that returns neither error nor response makes an Internal error.
  pub invoke-returned_by_handler :
      (first : ℕ) (store : Store) (ctx : Ctx) (opts : List CallOption) (service name : Bytes)
      (req : M) (sd : ServiceDesc (UnaryHandler I H M) (StreamHandler H M)) (h : H)
      (md : MethodDesc (UnaryHandler I H M))
      → SlashFree service
      → query_service (handlers_of c) service ≡ some (sd, h)
      → find_unary_method name sd.methods ≡ some md
      → (get_call_options opts).creds ≡ none
      → IsFaithful (cloner_of api proto_cloner c)
      → let (reply, sts) =
          md.handler h
            (make_server_context (
              with_cancel first
                (credited api proto_cloner c ctx (record { outgoing = from_outgoing ctx }))))
            (ok req)
            c.unary_interceptor
            (new (full_name service name)) in
        invoke api proto_cloner c first store ctx opts all_written never
          (full_name service name)
          (some req)
        ≡ value (
            returned
              (get_call_options opts)
              (set_peer (get_call_options opts) inprocess_peer store)
              sts
              reply)
  unfolding invoke
  invoke-returned_by_handler first store ctx opts service name req sd h md free found has none_set
        f =
      let co = get_call_options opts in
      let (reply, sts) =
        handled api proto_cloner c first ctx (record { outgoing = from_outgoing ctx }) h md.handler
          (ok req) (new (full_name service name)) in
      ap (given co (set_peer co inprocess_peer store)) (
        invoke_behind_peer-unary_outcome api (cloner_of api proto_cloner c)
          (handled api proto_cloner c first ctx) (handlers_of c) opts
          (record { outgoing = from_outgoing ctx }) service name req sd h md free found has none_set
          f)
      ∙ given-returned co (set_peer co inprocess_peer store) sts reply
