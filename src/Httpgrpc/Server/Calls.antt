-- ===== src/Httpgrpc/Server/Calls.antt =====
-- Unary calls of a client's channel through the mux of a server.
use grpchan.Base.{
  All, All-at, Bytes, codes, ◌=?◌, Md, GoError, Result, ok, err, ◌>>=◌, ℕ, ◌≡◌, refl, ap, ◌∙◌,
  subst, Bool, Option, none, some, List, ◌∷◌, ◌++◌,
}
use grpchan.Registry.{value}
use grpchan.Grpc.{MethodDesc, ServiceDesc}
use grpchan.Internal.CallOptions.{
  Context, CallOption, CallOptions, Store, get_call_options, apply_per_rpc_creds,
}
use grpchan.Httpgrpc.Method.{Serving}
use grpchan.Httpgrpc.Channel.{
  Url, ChannelOptions, UnaryResponse, Transport, Channel, check_channel_params, channel_options,
  Calling, unary_headers, with_response, make_request, round_trip, invoke,
}
use grpchan.Httpgrpc.Channel.Calls.{served}
use grpchan.Httpgrpc.Server.{
  UnaryHandler, StreamHandler, Packages, HttpHandler, serves_method, serves_stream, method_path,
  serving_of, method_handler,
}
use grpchan.Httpgrpc.Server.Routes.{ServeMux, IsServeMux, HttpServer, serve_service, serve_http}
use grpchan.Httpgrpc.Server.Routes.Laws.{PlainPaths, serve_service-Routed}

module _ {M : Type 0} (env : Calling M) (line : Bytes) where
  -- The answer of a handler, if it serves a unary method, with the text of its status line; what any
  -- other path answers is a parameter.
  abbrev pub answer_of :
      (Md → Bytes → Result UnaryResponse)
      → Option (HttpHandler M)
      → Md
      → Bytes
      → Result UnaryResponse
  answer_of elsewhere none h b = elsewhere h b
  answer_of elsewhere (some (serves_stream srv)) h b = elsewhere h b
  answer_of elsewhere (some (serves_method srv)) h b = ok (served env srv line h b)

  -- A transport to one method.
  abbrev pub directly : Serving M → Transport
  directly srv text h b = ok (served env srv line h b)

  abbrev sent_as : Bytes → Md → Bytes → Result (Bytes × (Md × Bytes))
  sent_as text h b = ok (text, (h, b))

  -- Transports that agree on a URL give the same calls of it.
  round_trip-agree :
      (url : Url) (t t' : Transport) (o : ChannelOptions M) (copts : CallOptions)
      (ended : Option GoError) (store : Store) (text : Bytes) (head : Context → Md)
      (ctx : Result Context) (body : Result Bytes) (valid : Result (Unit {0}))
      → ((h : Md) (b : Bytes) → t text h b ≡ t' text h b)
      → let sent = ctx >>= λ c. body >>= λ b. valid >>= λ x. sent_as text (head c) b in
        round_trip env url t o copts ended store sent
        ≡ round_trip env url t' o copts ended store sent
  round_trip-agree url t t' o copts ended store text head (err e) body valid same = refl
  round_trip-agree url t t' o copts ended store text head (ok c) (err e) valid same = refl
  round_trip-agree url t t' o copts ended store text head (ok c) (ok b) (err e) same = refl
  round_trip-agree url t t' o copts ended store text head (ok c) (ok b) (ok x) same =
      ap (with_response env url o copts ended store) (same (head c) b)

  abbrev pub channel_over : Url → Transport → ChannelOptions M → Channel M
  channel_over url t o = record { base_url = some url; transport = some t; opts = some o }

  invoke-agree :
      (url : Url) (t t' : Transport) (o : ChannelOptions M) (ctx : Context)
      (left : Option (Bool × ℕ)) (method : Bytes) (req : M) (opts : List CallOption)
      (ended : Option GoError) (store : Store)
      → ((h : Md) (b : Bytes)
          → t (env.url_text (record url { path = env.join_path url.path method })) h b
            ≡ t' (env.url_text (record url { path = env.join_path url.path method })) h b)
      → invoke env (channel_over url t o) ctx left method req opts ended store
        ≡ invoke env (channel_over url t' o) ctx left method req opts ended store
  unfolding invoke make_request channel_options check_channel_params
  invoke-agree url t t' o ctx left method req opts ended store same =
      let text = env.url_text (record url { path = env.join_path url.path method }) in
      round_trip-agree url t t' o (get_call_options opts) ended store text
        (λ c. unary_headers env o.codec_name c left)
        (apply_per_rpc_creds env.metadata ctx (get_call_options opts) text
          (url.scheme =? codes "https"))
        (o.codec.marshal req) (env.check_url text) same

module _ {M H I Mux : Type 0} (env : Calling M) (line : Bytes) (pk : Packages M)
    (mx : ServeMux M Mux) (implements : H → Bytes → Bool) (path_of : Bytes → Bytes)
    (elsewhere : Md → Bytes → Result UnaryResponse) where
  -- A transport to a server; the path of a URL's text is a parameter.
  abbrev pub through : HttpServer M H I Mux → Transport
  through s text h b = answer_of env line elsewhere (serve_http mx s (path_of text)) h b

  -- Behind a RegisterService that succeeds, a unary call over HTTP of one of the service's methods
  -- is a call of the handler that is made of its descriptor,
  -- the implementation and the server's settings, if the request's path is the server's base path
  -- joined with the method's, and over a mux that keeps its documentation, if the paths of the service
  -- start with a slash and are made of letters, digits, dots, dashes, underscores and slashes, and no
  -- pattern names the request's host or method.
  pub invoke-registered :
      (s : HttpServer M H I Mux) (desc : ServiceDesc (UnaryHandler M H I) (StreamHandler M H))
      (svr : H) {s' : HttpServer M H I Mux} (before after : List (MethodDesc (UnaryHandler M H I)))
      (md : MethodDesc (UnaryHandler M H I)) (url : Url) (o : ChannelOptions M) (ctx : Context)
      (left : Option (Bool × ℕ)) (method : Bytes) (req : M) (opts : List CallOption)
      (ended : Option GoError) (store : Store)
      → IsServeMux pk.join_path mx
      → PlainPaths pk mx implements s desc
      → serve_service pk mx implements s desc svr ≡ value s'
      → desc.methods ≡ before ++ md ∷ after
      → path_of (env.url_text (record url { path = env.join_path url.path method }))
        ≡ pk.join_path s.base_path (method_path desc.service_name md.method_name)
      → invoke env (channel_over env line url (through s') o) ctx left method req opts ended store
        ≡ invoke env
            (channel_over env line url
              (directly env line (serving_of pk svr desc.service_name md s.unary_int s.opts))
              o)
            ctx
            left
            method
            req
            opts
            ended
            store
  unfolding method_handler
  invoke-registered s desc svr {s'} before after md url o ctx left method req opts ended store laws
        plain serves at path =
      let srv = serving_of pk svr desc.service_name md s.unary_int s.opts in
      let routed = serve_service-Routed pk mx implements s desc svr laws plain serves in
      let found =
        All-at
          (λ d.
            serve_http mx s'
              (pk.join_path s.base_path (method_path desc.service_name d.method_name))
            ≡ some (method_handler pk svr desc.service_name d s.unary_int s.opts))
          before md after (subst (All _) at routed.0) in
      invoke-agree env line url (through s') (directly env line srv) o ctx left method req opts
        ended store
        (λ h b. ap (λ x. answer_of env line elsewhere x h b) (ap (serve_http mx s') path ∙ found))
