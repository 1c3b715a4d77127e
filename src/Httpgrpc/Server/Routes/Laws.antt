-- ===== src/Httpgrpc/Server/Routes/Laws.antt =====
-- What a registration leaves in the mux and what it keeps; the mux of a Server against HandleServices.
use grpchan.Base.{
  Bool-cases, Option-cases, All, All-map2, Bytes, ◌=?◌, =?_iff, lookup, insert, ◌≡◌, refl, ap, ◌∙◌,
  subst, inl, inr, Bool, none, some, List, [], ◌∷◌, arith,
}
use grpchan.Registry.{Outcome, value, panic, Service, HandlerMap, register_service, for_each}
use grpchan.Grpc.{ServiceDesc}
use grpchan.Httpgrpc.Server.{
  UnaryHandler, StreamHandler, Packages, HttpHandler, method_path, method_handler, stream_handler,
}
use grpchan.Httpgrpc.Server.Routes.{
  ServeMux, IsPlainPath, IsServeMux, HttpServer, ServerOption, with_base_path,
  with_server_unary_interceptor, with_server_stream_interceptor, handler_option, and_then,
  mount_each, apply_all, new_server, method_route, stream_route, mount_service, handle_services,
  mounted_as, mounting, serve_service, serve_http,
}

and_then-value :
    {A B : Type 0} (r : Outcome A) (f : A → Outcome B) {b : B}
    → and_then r f ≡ value b
    → (a : A) × (r ≡ value a) × (f a ≡ value b)
and_then-value (value a) f e = (a, refl, e)
and_then-value (panic why) f e = ground arith

module _ {M Mux A : Type 0} {join_path : Bytes → Bytes → Bytes} {mx : ServeMux M Mux}
    (laws : IsServeMux join_path mx) (route : A → Bytes × HttpHandler M) where
  mount_each-kept :
      (ds : List A) {p : Bytes} {h : HttpHandler M} {m m' : Mux}
      → mx.registered m p ≡ some h
      → mount_each route mx.handle_func ds m ≡ value m'
      → mx.registered m' p ≡ some h
  unfolding mount_each
  mount_each-kept [] e mounted = ground arith
  mount_each-kept (d ∷ ds) {p} {h} {m} {m'} e mounted =
      let first =
        and_then-value (mx.handle_func (route d).0 (route d).1 m)
          (mount_each route mx.handle_func ds) mounted in
      elim (Bool-cases ((route d).0 =? p)) [
        | inl same ↦ ground (arith, laws.handle_func-fresh first.1, =?_iff (route d).0 p)
        | inr differ ↦
            mount_each-kept ds
              (laws.handle_func-other first.1 (λ same. ground (arith, =?_iff (route d).0 p)) ∙ e)
              first.2
      ]

  -- Each handler of the loop stands under its pattern.
  mount_each-registered :
      (ds : List A) (m : Mux) {m' : Mux}
      → mount_each route mx.handle_func ds m ≡ value m'
      → All (λ d. mx.registered m' (route d).0 ≡ some (route d).1) ds
  unfolding mount_each
  mount_each-registered [] m mounted = tt
  mount_each-registered (d ∷ ds) m mounted =
      let first =
        and_then-value (mx.handle_func (route d).0 (route d).1 m)
          (mount_each route mx.handle_func ds) mounted in
      (
        mount_each-kept ds (laws.handle_func-registered first.1) first.2,
        mount_each-registered ds first.0 first.2,
      )

module _ {M H I Mux : Type 0} (pk : Packages M) (mx : ServeMux M Mux)
    (implements : H → Bytes → Bool) where
  -- What a successful registration did.
  abbrev Served :
      HttpServer M H I Mux
      → ServiceDesc (UnaryHandler M H I) (StreamHandler M H)
      → H
      → HttpServer M H I Mux
      → Type 0
  Served s desc svr s' =
      (handlers' : HandlerMap (UnaryHandler M H I) (StreamHandler M H) H) × (m' : Mux)
      × (register_service implements s.handlers desc svr ≡ value handlers')
      × (mount_service pk mx s.base_path s.unary_int s.stream_int s.opts desc svr s.mux ≡ value m')
      × (record s { handlers = handlers'; mux = m' } ≡ s')

  mounted_as-value :
      (s : HttpServer M H I Mux) (handlers' : HandlerMap (UnaryHandler M H I) (StreamHandler M H) H)
      (r : Outcome Mux) {s' : HttpServer M H I Mux}
      → mounted_as pk mx implements s handlers' r ≡ value s'
      → (m' : Mux) × (r ≡ value m') × (record s { handlers = handlers'; mux = m' } ≡ s')
  mounted_as-value s handlers' (panic why) e = ground arith
  mounted_as-value s handlers' (value m) e = (m, refl, ground arith)

  mounting-Served :
      (s : HttpServer M H I Mux) (desc : ServiceDesc (UnaryHandler M H I) (StreamHandler M H))
      (svr : H) (r : Outcome (HandlerMap (UnaryHandler M H I) (StreamHandler M H) H))
      {s' : HttpServer M H I Mux}
      → register_service implements s.handlers desc svr ≡ r
      → mounting pk mx implements s desc svr r ≡ value s'
      → Served s desc svr s'
  mounting-Served s desc svr (panic why) registers e = ground arith
  mounting-Served s desc svr (value handlers') registers e =
      let mounted =
        mounted_as-value s handlers'
          (mount_service pk mx s.base_path s.unary_int s.stream_int s.opts desc svr s.mux) e in
      (handlers', mounted.0, registers, mounted.1, mounted.2)

  serve_service-Served :
      (s : HttpServer M H I Mux) (desc : ServiceDesc (UnaryHandler M H I) (StreamHandler M H))
      (svr : H) {s' : HttpServer M H I Mux}
      → serve_service pk mx implements s desc svr ≡ value s'
      → Served s desc svr s'
  unfolding serve_service
  serve_service-Served s desc svr e =
      mounting-Served s desc svr (register_service implements s.handlers desc svr) refl e

  -- The handlers that a server gives the paths of a service to, with the settings of another.
  abbrev pub Routed :
      HttpServer M H I Mux
      → ServiceDesc (UnaryHandler M H I) (StreamHandler M H)
      → H
      → HttpServer M H I Mux
      → Type 0
  Routed s desc svr s' =
      All
        (λ md.
          serve_http mx s' (pk.join_path s.base_path (method_path desc.service_name md.method_name))
          ≡ some (method_handler pk svr desc.service_name md s.unary_int s.opts))
        desc.methods
      × All
          (λ sd.
            serve_http mx s'
              (pk.join_path s.base_path (method_path desc.service_name sd.stream_name))
            ≡ some (stream_handler pk svr desc.service_name sd s.stream_int s.opts))
          desc.streams

  -- The paths of a service's methods and streams on a server are plain.
  abbrev pub PlainPaths :
      HttpServer M H I Mux → ServiceDesc (UnaryHandler M H I) (StreamHandler M H) → Type 0
  PlainPaths s desc =
      All
        (λ md.
          IsPlainPath (pk.join_path s.base_path (method_path desc.service_name md.method_name)))
        desc.methods
      × All
          (λ sd.
            IsPlainPath (pk.join_path s.base_path (method_path desc.service_name sd.stream_name)))
          desc.streams

  mount_service-Routed :
      (s : HttpServer M H I Mux) (desc : ServiceDesc (UnaryHandler M H I) (StreamHandler M H))
      (svr : H) (handlers' : HandlerMap (UnaryHandler M H I) (StreamHandler M H) H) {m' : Mux}
      → IsServeMux pk.join_path mx
      → PlainPaths s desc
      → mount_service pk mx s.base_path s.unary_int s.stream_int s.opts desc svr s.mux ≡ value m'
      → Routed s desc svr (record s { handlers = handlers'; mux = m' })
  mount_service-Routed s desc svr handlers' laws plain e =
      let methods =
        method_route pk s.base_path s.unary_int s.stream_int s.opts svr desc.service_name in
      let streams =
        stream_route pk s.base_path s.unary_int s.stream_int s.opts svr desc.service_name in
      let both =
        and_then-value (mount_each methods mx.handle_func desc.methods s.mux)
          (mount_each streams mx.handle_func desc.streams) e in
      (
        All-map2 desc.methods
            (λ md is found.
              laws.registered-handler_for is
                (mount_each-kept laws streams desc.streams found both.2))
            plain.0 (mount_each-registered laws methods desc.methods s.mux both.1),
        All-map2 desc.streams (λ sd. laws.registered-handler_for) plain.1
            (mount_each-registered laws streams desc.streams both.0 both.2),
      )

  mount_service-kept :
      (s : HttpServer M H I Mux) (desc : ServiceDesc (UnaryHandler M H I) (StreamHandler M H))
      (svr : H) {m' : Mux} {p : Bytes} {h : HttpHandler M}
      → IsServeMux pk.join_path mx
      → mount_service pk mx s.base_path s.unary_int s.stream_int s.opts desc svr s.mux ≡ value m'
      → mx.registered s.mux p ≡ some h
      → mx.registered m' p ≡ some h
  mount_service-kept s desc svr laws e found =
      let methods =
        method_route pk s.base_path s.unary_int s.stream_int s.opts svr desc.service_name in
      let streams =
        stream_route pk s.base_path s.unary_int s.stream_int s.opts svr desc.service_name in
      let both =
        and_then-value (mount_each methods mx.handle_func desc.methods s.mux)
          (mount_each streams mx.handle_func desc.streams) e in
      mount_each-kept laws streams desc.streams
        (mount_each-kept laws methods desc.methods found both.1) both.2

  -- When a registration succeeds, a request of each method's and each stream's path goes to the handler
  -- that is made of its descriptor, the implementation and the server's settings, over a mux that keeps
  -- its documentation, if these paths, joined with the base path, start with a slash and are made of
  -- letters, digits, dots, dashes, underscores and slashes, and no pattern names the request's host or
  -- method.
  pub serve_service-Routed :
      (s : HttpServer M H I Mux) (desc : ServiceDesc (UnaryHandler M H I) (StreamHandler M H))
      (svr : H) {s' : HttpServer M H I Mux}
      → IsServeMux pk.join_path mx
      → PlainPaths s desc
      → serve_service pk mx implements s desc svr ≡ value s'
      → Routed s desc svr s'
  serve_service-Routed s desc svr laws plain e =
      let served = serve_service-Served s desc svr e in
      subst (Routed s desc svr) served.4
        (mount_service-Routed s desc svr served.0 laws plain served.3)

  -- A later registration keeps the handlers of the earlier ones.
  pub serve_service-registered :
      (s : HttpServer M H I Mux) (desc : ServiceDesc (UnaryHandler M H I) (StreamHandler M H))
      (svr : H) {s' : HttpServer M H I Mux} {p : Bytes} {h : HttpHandler M}
      → IsServeMux pk.join_path mx
      → serve_service pk mx implements s desc svr ≡ value s'
      → mx.registered s.mux p ≡ some h
      → mx.registered s'.mux p ≡ some h
  serve_service-registered s desc svr {p = p} {h = h} laws e found =
      let served = serve_service-Served s desc svr e in
      subst (λ x. mx.registered x.mux p ≡ some h) served.4
        (mount_service-kept s desc svr laws served.3 found)

module _ {U S H : Type 0} where
  register_service-insert :
      (implements : H → Bytes → Bool) (m : HandlerMap U S H) (d : ServiceDesc U S) (h : H)
      {m' : HandlerMap U S H}
      → register_service implements m d h ≡ value m'
      → (lookup d.service_name m ≡ none)
        × (m' ≡ insert d.service_name (record { desc = d; impl = h }) m)
  unfolding register_service
  register_service-insert implements m d h e = (
    ground (arith, Option-cases (lookup d.service_name m)),
    ground (arith, Option-cases (lookup d.service_name m)),
  )

module _ {U S H St : Type 0} where
  for_each-insert :
      (k : Bytes) (svc : Service U S H) (fn : ServiceDesc U S → H → St → St) (m : HandlerMap U S H)
      (st : St)
      → lookup k m ≡ none
      → for_each (insert k svc m) fn st ≡ fn svc.desc svc.impl (for_each m fn st)
  unfolding insert lookup for_each
  for_each-insert k svc fn [] st new = refl
  for_each-insert k svc fn ((j, w) ∷ m) st new =
      ground (arith, for_each-insert k svc fn m (fn w.desc w.impl st))

module _ {M H I Mux : Type 0} (pk : Packages M) (mx : ServeMux M Mux)
    (implements : H → Bytes → Bool) where
  -- The mux holds what HandleServices registers from the server's map of handlers.
  abbrev pub IsMounted : HttpServer M H I Mux → Type 0
  IsMounted s =
      handle_services pk mx s.base_path s.unary_int s.stream_int s.opts s.handlers mx.empty_mux
      ≡ value s.mux

  apply_all-IsMounted :
      (os : List (ServerOption M H I)) (s : HttpServer M H I Mux)
      → (s.handlers ≡ [])
      → (s.mux ≡ mx.empty_mux)
      → IsMounted (apply_all os s)
  unfolding handle_services for_each
  apply_all-IsMounted [] s e f = ground arith
  apply_all-IsMounted (with_base_path path ∷ os) s e f = apply_all-IsMounted os _ e f
  apply_all-IsMounted (with_server_unary_interceptor i ∷ os) s e f = apply_all-IsMounted os _ e f
  apply_all-IsMounted (with_server_stream_interceptor i ∷ os) s e f = apply_all-IsMounted os _ e f
  apply_all-IsMounted (handler_option ho ∷ os) s e f = apply_all-IsMounted os _ e f

  -- A new server's mux is as the handlers say, whatever its options.
  pub new_server-IsMounted : (os : List (ServerOption M H I)) → IsMounted (new_server mx os)
  unfolding new_server
  new_server-IsMounted os = apply_all-IsMounted os _ refl refl

  -- A registration that succeeds keeps the mux at what HandleServices makes of the server's handlers.
  pub serve_service-IsMounted :
      (s : HttpServer M H I Mux) (desc : ServiceDesc (UnaryHandler M H I) (StreamHandler M H))
      (svr : H) {s' : HttpServer M H I Mux}
      → serve_service pk mx implements s desc svr ≡ value s'
      → IsMounted s
      → IsMounted s'
  unfolding handle_services
  serve_service-IsMounted s desc svr e mounted =
      let served = serve_service-Served pk mx implements s desc svr e in
      let inserted = register_service-insert implements s.handlers desc svr served.2 in
      let mount = mount_service pk mx s.base_path s.unary_int s.stream_int s.opts in
      subst IsMounted served.4 (
        ap
          (λ reg.
            handle_services pk mx s.base_path s.unary_int s.stream_int s.opts reg mx.empty_mux)
          inserted.1
        ∙ for_each-insert desc.service_name (record { desc = desc; impl = svr })
            (λ d h st. and_then st (mount d h)) s.handlers (value mx.empty_mux) inserted.0
        ∙ ap (λ st. and_then st (mount desc svr)) mounted
        ∙ served.3)
