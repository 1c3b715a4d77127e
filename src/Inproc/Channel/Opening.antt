-- ===== src/Inproc/Channel/Opening.antt =====
-- What a stream is that NewStream opens behind a registration of the in-process channel.
use grpchan.Base.{Bytes, ℕ, suc, ◌≡◌, Bool, false, Option, none, some, List}
use grpchan.Grpc.{StreamDesc}
use grpchan.Internal.CallOptions.{Metadata, CallOption, Store, set_peer, get_call_options}
use grpchan.Inproc.{Cloner}
use grpchan.Inproc.Contexts.{Ctx, with_cancel, from_outgoing, inprocess_peer, make_server_context}
use grpchan.Inproc.Channel.{StreamInfo, StreamHandler, StreamInterceptor, Channel, Opened, credited}

-- A handler behind the interceptor, if there is one.
abbrev pub behind :
    {H M : Type 0}
    → Option (StreamInterceptor H M)
    → StreamInfo
    → StreamHandler H M
    → StreamHandler H M
behind none info handler = handler
behind (some i) info handler = i info handler

abbrev pub or_default : {M : Type 0} → Cloner M → Option (Cloner M) → Cloner M
or_default default none = default
or_default default (some cl) = cl

module _ {U I H M : Type 0} (api : Metadata) (proto_cloner : Cloner M) where
  -- A stream of a method with this descriptor, on this implementation: its handler, behind the
  -- channel's interceptor if there is one, which is told the full name and the two flags of the
  -- descriptor, is to run in a server context of the caller's; the caller's end has the caller's own
  -- flag, the options, and the peer in the variables that they ask for.
  abbrev pub Opens :
      Channel U I H M
      → ℕ
      → Store
      → Ctx
      → Bool
      → Bytes
      → List CallOption
      → H
      → StreamDesc (StreamHandler H M)
      → Opened M
      → Type 0
  Opens c first store ctx many full opts svr md o =
      (o.running
        ≡ behind c.stream_interceptor
            (record {
              full_method = full;
              is_client_stream = md.client_streams;
              is_server_stream = md.server_streams;
            })
            md.handler svr o.server_ctx)
      × (o.server_ctx
          ≡ with_cancel (suc first) (
              make_server_context (
                with_cancel first
                  (credited api proto_cloner c ctx (record { outgoing = from_outgoing ctx })))))
      × (o.done_ctx ≡ with_cancel (suc (suc first)) o.server_ctx)
      × (o.client_end.response_stream ≡ many)
      × (o.client_end.copts ≡ get_call_options opts)
      × (o.client_end.store ≡ set_peer (get_call_options opts) inprocess_peer store)
      × (o.client_end.cloner ≡ or_default proto_cloner c.cloner)
      × (o.client_end.send_closed ≡ false)
