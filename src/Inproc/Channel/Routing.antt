-- ===== src/Inproc/Channel/Routing.antt =====
-- What NewStream opens behind a registration of the in-process channel.
use grpchan.Base.{
  if◌then◌else◌, Bytes, codes, ◌=?◌, =?_refl, Result, ok, err, ℕ, ◌≡◌, refl, sym, ap, ◌∙◌, subst,
  Bool, true, false, none, some, List, ◌++◌, arith,
}
use grpchan.Registry.{Outcome, value, panic, HandlerMap, register_service, query_service}
use grpchan.Registry.Laws.{register_service-query_service}
use grpchan.Grpc.{StreamDesc, ServiceDesc}
use grpchan.Internal.Misc.{find_streaming_method}
use grpchan.Internal.CallOptions.{
  Metadata, CallOption, CallOptions, Store, set_peer, get_call_options,
}
use grpchan.Inproc.{Cloner}
use grpchan.Inproc.Contexts.{Ctx, from_outgoing, inprocess_peer}
use grpchan.Inproc.Unary.{with_slash}
use grpchan.Inproc.Unary.Routing.{
  SlashFree, split_slash-append, apply_per_rpc_creds-none, full_name,
}
use grpchan.Inproc.Channel.{
  StreamHandler, Channel, registered, handlers_of, add_service, find_stream, open_stream,
  opened_with, credited, new_stream,
}

module _ {U S H : Type 0} where
  find_stream_found :
      (handlers : HandlerMap U S H) (service name : Bytes) (sd : ServiceDesc U S) (h : H)
      (md : StreamDesc S)
      → query_service handlers service ≡ some (sd, h)
      → find_streaming_method name sd.streams ≡ some md
      → find_stream handlers (service, some name) ≡ value (ok (h, md))
  unfolding find_stream
  find_stream_found handlers service name sd h md e l = rw (e, find_stream, l) refl

  find_stream_same :
      (handlers handlers' : HandlerMap U S H) (service name : Bytes)
      → query_service handlers service ≡ query_service handlers' service
      → find_stream handlers (service, some name) ≡ find_stream handlers' (service, some name)
  unfolding find_stream
  find_stream_same handlers handlers' service name e = rw (find_stream, e) refl

module _ {U I H M : Type 0} (api : Metadata) (proto_cloner : Cloner M)
    (implements : H → Bytes → Bool) where
  -- A channel with other handlers.
  abbrev with_handlers : Channel U I H M → HandlerMap U (StreamHandler H M) H → Channel U I H M
  with_handlers c m = record c { handlers = some m }

  registered-with_handlers :
      (c : Channel U I H M) (r : Outcome (HandlerMap U (StreamHandler H M) H))
      {c' : Channel U I H M}
      → registered c r ≡ value c'
      → (m : HandlerMap U (StreamHandler H M) H) × (r ≡ value m) × (with_handlers c m ≡ c')
  registered-with_handlers c (panic why) e = ground arith
  registered-with_handlers c (value m) e = (m, refl, ground arith)

  find_stream-new_stream :
      (c : Channel U I H M) (first : ℕ) (store : Store) (ctx : Ctx) (many : Bool)
      (service name : Bytes) (opts : List CallOption)
      → SlashFree service
      → (get_call_options opts).creds ≡ none
      → new_stream api proto_cloner c first store ctx many (full_name service name) opts
        ≡ opened_with api proto_cloner c first
            (set_peer (get_call_options opts) inprocess_peer store)
            (get_call_options opts)
            many
            (full_name service name)
            (credited api proto_cloner c ctx (record { outgoing = from_outgoing ctx }))
            (find_stream (handlers_of c) (service, some name))
  unfolding new_stream with_slash
  find_stream-new_stream c first store ctx many service name opts free none_set =
      rw
        (apply_per_rpc_creds-none api (record { outgoing = from_outgoing ctx })
          (get_call_options opts) (codes "inproc:0" ++ full_name service name) true none_set)
        (ap
          (λ r.
            opened_with api proto_cloner c first
              (set_peer (get_call_options opts) inprocess_peer store) (get_call_options opts) many
              (full_name service name)
              (credited api proto_cloner c ctx (record { outgoing = from_outgoing ctx }))
              (find_stream (handlers_of c) r))
          (split_slash-append service name free))

  -- What is found is opened in the same way, whatever else is registered.
  opened_with-with_handlers :
      (c : Channel U I H M) (m : HandlerMap U (StreamHandler H M) H) (first : ℕ) (store : Store)
      (copts : CallOptions) (many : Bool) (full : Bytes) (ctx : Ctx)
      (r : Outcome (Result (H × StreamDesc (StreamHandler H M))))
      → opened_with api proto_cloner (with_handlers c m) first store copts many full ctx r
        ≡ opened_with api proto_cloner c first store copts many full ctx r
  unfolding open_stream
  opened_with-with_handlers c m first store copts many full ctx (panic why) = refl
  opened_with-with_handlers c m first store copts many full ctx (value (err e)) = refl
  opened_with-with_handlers c m first store copts many full ctx (value (ok found)) = refl

  new_stream-with_handlers :
      (c : Channel U I H M) (m : HandlerMap U (StreamHandler H M) H) (first : ℕ) (store : Store)
      (ctx : Ctx) (many : Bool) (service name : Bytes) (opts : List CallOption)
      {r : Outcome (Result (H × StreamDesc (StreamHandler H M)))}
      → SlashFree service
      → (get_call_options opts).creds ≡ none
      → find_stream m (service, some name) ≡ r
      → new_stream api proto_cloner
          (with_handlers c m)
          first
          store
          ctx
          many
          (full_name service name)
          opts
        ≡ opened_with api proto_cloner c first
            (set_peer (get_call_options opts) inprocess_peer store)
            (get_call_options opts)
            many
            (full_name service name)
            (credited api proto_cloner c ctx (record { outgoing = from_outgoing ctx }))
            r
  new_stream-with_handlers c m first store ctx many service name opts free none_set finds =
      find_stream-new_stream (with_handlers c m) first store ctx many service name opts free
        none_set
      ∙ opened_with-with_handlers c m first (set_peer (get_call_options opts) inprocess_peer store)
          (get_call_options opts) many (full_name service name)
          (credited api proto_cloner c ctx (record { outgoing = from_outgoing ctx }))
          (find_stream m (service, some name))
      ∙ ap
          (opened_with api proto_cloner c first
            (set_peer (get_call_options opts) inprocess_peer store) (get_call_options opts) many
            (full_name service name)
            (credited api proto_cloner c ctx (record { outgoing = from_outgoing ctx })))
          finds

  -- What NewStream does behind a registration, for the service and for the others.
  pub add_service-found :
      (c : Channel U I H M) (desc : ServiceDesc U (StreamHandler H M)) (svr : H)
      {c' : Channel U I H M} (first : ℕ) (store : Store) (ctx : Ctx) (many : Bool)
      (name another : Bytes) (md : StreamDesc (StreamHandler H M)) (opts : List CallOption)
      → add_service implements c desc svr ≡ value c'
      → SlashFree desc.service_name
      → SlashFree another
      → (desc.service_name =? another) ≡ false
      → find_streaming_method name desc.streams ≡ some md
      → (get_call_options opts).creds ≡ none
      → (new_stream api proto_cloner c' first store ctx many (full_name desc.service_name name) opts
          ≡ value (
              ok (
                open_stream api proto_cloner c first
                  (set_peer (get_call_options opts) inprocess_peer store)
                  (get_call_options opts)
                  many
                  (full_name desc.service_name name)
                  (credited api proto_cloner c ctx (record { outgoing = from_outgoing ctx }))
                  (svr, md))))
        × (new_stream api proto_cloner c' first store ctx many (full_name another name) opts
            ≡ new_stream api proto_cloner c first store ctx many (full_name another name) opts)
  unfolding add_service
  add_service-found c desc svr first store ctx many name another md opts adds free free' differ has
        none_set =
      let done =
        registered-with_handlers c (register_service implements (handlers_of c) desc svr) adds in
      let own =
        register_service-query_service implements (handlers_of c) desc svr desc.service_name
          done.1 in
      let others =
        register_service-query_service implements (handlers_of c) desc svr another done.1 in
      subst
        (λ x.
          (new_stream api proto_cloner x first store ctx many (full_name desc.service_name name)
              opts
            ≡ value (
                ok (
                  open_stream api proto_cloner c first
                    (set_peer (get_call_options opts) inprocess_peer store) (get_call_options opts)
                    many (full_name desc.service_name name)
                    (credited api proto_cloner c ctx (record { outgoing = from_outgoing ctx }))
                    (svr, md))))
          × (new_stream api proto_cloner x first store ctx many (full_name another name) opts
              ≡ new_stream api proto_cloner c first store ctx many (full_name another name) opts))
        done.2
        (
          new_stream-with_handlers c done.0 first store ctx many desc.service_name name opts free
              none_set
              (find_stream_found done.0 desc.service_name name desc svr md
                (own.2
                  ∙ ap
                      (λ b.
                        if b
                        then some (desc, svr)
                        else query_service (handlers_of c) desc.service_name)
                      (=?_refl desc.service_name))
                has),
          new_stream-with_handlers c done.0 first store ctx many another name opts free' none_set (
                find_stream_same done.0 (handlers_of c) another name (
                  others.2
                  ∙ ap (λ b. if b then some (desc, svr) else query_service (handlers_of c) another)
                      differ))
              ∙ sym
                  (find_stream-new_stream c first store ctx many another name opts free' none_set),
        )
