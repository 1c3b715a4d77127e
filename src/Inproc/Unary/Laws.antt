-- ===== src/Inproc/Unary/Laws.antt =====
-- A unary in-process call ends in what its handler returned.
use grpchan.Base.{
  Bytes, codes, Md, GoError, ok, ℕ, ◌≡◌, refl, ap, ◌≢◌, ◌⊎◌, inl, inr, true, false, Option, none,
  some, List, [], ◌∷◌, ◌++◌, arith,
}
use grpchan.Grpc.{MethodDesc, ServiceDesc}
use grpchan.Registry.{value, panic, HandlerMap, query_service}
use grpchan.Internal.Misc.{find_unary_method}
use grpchan.Internal.CallOptions.{Context, Metadata, CallOption, get_call_options}
use grpchan.Internal.TransportStream.{UnaryStream, new, get_headers, get_trailers}
use grpchan.Inproc.{code_internal, status_of, Cloner, IsFaithful, send, close, write_message}
use grpchan.Inproc.Unary.Routing.{
  SlashFree, split_slash-free, split_slash-append, apply_per_rpc_creds-none, with_slash_same,
  find_method_missing, find_method_lacking, find_method_found, full_name,
}
use grpchan.Inproc.Unary.{
  split_slash, with_slash, unimplemented, Writes, all_written, Gathered, nothing_yet, find_method,
  route, write_response, write_fault, serve_unary, collect, Handling, call_method, invoke_found,
  invoke_in, invoke_named, invoke,
}

-- The context stays live.
abbrev pub never : ℕ → Option GoError
never i = none

-- A map without entries is not sent.
abbrev pub sent_md : Option Md → Option Md
sent_md none = none
sent_md (some []) = none
sent_md (some (x ∷ xs)) = some (x ∷ xs)

module _ {M : Type 0} where
  -- What a caller gets of a handler's return and the stream it left behind.
  unfoldable pub unary_outcome :
      UnaryStream → Option M × Option GoError → Option GoError × Gathered M
  unary_outcome sts (v, some e) = (
    some e,
    record {
      got_response = false;
      response = none;
      seen_headers = sent_md sts.hdrs;
      seen_trailers = sent_md sts.tlrs;
    },
  )
  unary_outcome sts (none, none) = (
    some (status_of code_internal "handler returned neither error nor response message"),
    record {
      got_response = false;
      response = none;
      seen_headers = sent_md sts.hdrs;
      seen_trailers = sent_md sts.tlrs;
    },
  )
  unary_outcome sts (some m, none) = (
    none,
    record {
      got_response = true;
      response = some m;
      seen_headers = sent_md sts.hdrs;
      seen_trailers = sent_md sts.tlrs;
    },
  )

  pub collect-serve_unary :
      (cloner : Cloner M) (sts : UnaryStream) (reply : Option M × Option GoError)
      → IsFaithful cloner
      → collect cloner never 0 (serve_unary all_written sts reply).sent nothing_yet
        ≡ unary_outcome sts reply
  unfolding unary_outcome collect serve_unary write_response write_fault get_headers get_trailers
      write_message send close
  collect-serve_unary cloner sts reply f = by_maps sts.hdrs sts.tlrs reply
    where
      at : Option Md → Option Md → UnaryStream
      at h t = record sts { hdrs = h; tlrs = t }

      by_maps :
          (h t : Option Md) (r : Option M × Option GoError)
          → collect cloner never 0 (serve_unary all_written (at h t) r).sent nothing_yet
            ≡ unary_outcome (at h t) r
      by_maps h t (v, some e) = ground arith
      by_maps h t (none, none) = ground arith
      by_maps h t (some m, none) = ground (arith, f.copies m)

module _ {U S H M : Type 0} (api : Metadata) (cloner : Cloner M) (handling : Handling U H M) where
  routed :
      (handlers : HandlerMap U S H) (opts : List CallOption) (ctx : Context) (w : Writes)
      (done : ℕ → Option GoError) (s : Bytes) (req : M)
      → (get_call_options opts).creds ≡ none
      → invoke api cloner handling handlers opts ctx w done (b'/' ∷ s) (some req)
        ≡ invoke_found cloner handling w done
            (b'/' ∷ s)
            ctx
            req
            (find_method handlers (split_slash s))
  unfolding invoke invoke_named invoke_in with_slash route
  routed handlers opts ctx w done s req e =
      rw
        (apply_per_rpc_creds-none api ctx (get_call_options opts) (codes "inproc:0" ++ b'/' ∷ s)
          true e)
        refl

  -- Behind SetPeer, a call without credentials of a method that is registered, in a context that stays live and with
  -- faithful copies, runs its handler on a copy of the request, with the full method name in its
  -- stream, and gives the caller the error and the response that the handler returned, and the
  -- headers and trailers it left, where there are any; a handler that returns neither error nor
  -- response makes an Internal error.
  pub invoke-unary_outcome :
      (handlers : HandlerMap U S H) (opts : List CallOption) (ctx : Context) (service name : Bytes)
      (req : M) (sd : ServiceDesc U S) (h : H) (md : MethodDesc U)
      → SlashFree service
      → query_service handlers service ≡ some (sd, h)
      → find_unary_method name sd.methods ≡ some md
      → (get_call_options opts).creds ≡ none
      → IsFaithful cloner
      → invoke api cloner handling handlers opts ctx all_written never
          (full_name service name)
          (some req)
        ≡ value (
            unary_outcome
              (handling ctx h md.handler (ok req) (new (full_name service name))).1
              (handling ctx h md.handler (ok req) (new (full_name service name))).0)
  unfolding invoke_found call_method
  invoke-unary_outcome handlers opts ctx service name req sd h md free found has none_set f = rw (
    routed handlers opts ctx all_written never (service ++ (b'/' ∷ name)) req none_set,
    split_slash-append service name free,
    find_method_found handlers service name sd h md found has,
    f.copies req,
    collect-serve_unary cloner (handling ctx h md.handler (ok req) (new (full_name service name))).1
        (handling ctx h md.handler (ok req) (new (full_name service name))).0 f,
  )

  -- The slash in front of a method's name is optional.
  pub invoke_slash :
      (handlers : HandlerMap U S H) (opts : List CallOption) (ctx : Context) (w : Writes)
      (done : ℕ → Option GoError) (c : ℕ) (cs : Bytes) (req : Option M)
      → c ≢ b'/'
      → invoke api cloner handling handlers opts ctx w done (c ∷ cs) req
        ≡ invoke api cloner handling handlers opts ctx w done (b'/' ∷ c ∷ cs) req
  unfolding invoke
  invoke_slash handlers opts ctx w done c cs none differs = refl
  invoke_slash handlers opts ctx w done c cs (some req) differs = elim (with_slash_same c cs) [
    | inl same ↦ ap (invoke_named api cloner handling handlers opts ctx w done req) same
    | inr e ↦ absurd (differs e)
  ]

  -- A call without credentials of a service that is not registered, or of a method that the service
  -- does not have, ends in an Unimplemented error, and no handler runs.
  pub invoke_unknown :
      (handlers : HandlerMap U S H) (opts : List CallOption) (ctx : Context) (w : Writes)
      (done : ℕ → Option GoError) (service name : Bytes) (req : M)
      → SlashFree service
      → (get_call_options opts).creds ≡ none
      → (query_service handlers service ≡ none)
        ⊎ ((sd : ServiceDesc U S) × (h : H) × (query_service handlers service ≡ some (sd, h))
            × (find_unary_method name sd.methods ≡ none))
      → (text : Bytes) × (invoke api cloner handling handlers opts ctx w done
            (full_name service name)
            (some req)
          ≡ value (some (unimplemented text), nothing_yet))
  unfolding invoke_found
  invoke_unknown handlers opts ctx w done service name req free none_set (inl missing) = (
    codes "service " ++ service ++ codes " not implemented",
    rw
        (
          routed handlers opts ctx w done (service ++ (b'/' ∷ name)) req none_set,
          split_slash-append service name free,
          find_method_missing handlers service name missing,
        )
        refl,
  )
  invoke_unknown handlers opts ctx w done service name req free none_set
        (inr (sd, h, found, lacks)) =
      (
        codes "method " ++ service ++ (b'/' ∷ name) ++ codes " not implemented",
        rw
            (
              routed handlers opts ctx w done (service ++ (b'/' ∷ name)) req none_set,
              split_slash-append service name free,
              find_method_lacking handlers service name sd h found lacks,
            )
            refl,
      )

  -- A call without credentials whose method name has no slash behind the leading one panics, and so
  -- does one with an empty method name.
  pub invoke_panics :
      (handlers : HandlerMap U S H) (opts : List CallOption) (ctx : Context) (w : Writes)
      (done : ℕ → Option GoError) (service : Bytes) (req : M)
      → SlashFree service
      → (get_call_options opts).creds ≡ none
      → (invoke api cloner handling handlers opts ctx w done (b'/' ∷ service) (some req)
          ≡ panic "index out of range")
        × (invoke api cloner handling handlers opts ctx w done [] (some req)
            ≡ panic "index out of range")
  unfolding invoke invoke_named invoke_found find_method with_slash
  invoke_panics handlers opts ctx w done service req free none_set = (
    rw (routed handlers opts ctx w done service req none_set, split_slash-free service free) refl,
    refl,
  )
