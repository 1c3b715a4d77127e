-- ===== src/Httpgrpc/Server/Routes.antt =====
-- httpgrpc/server.go: Server with its options, RegisterService, GetServiceInfo and ServeHTTP, and
-- HandleServices, which registers the same handlers with any mux function. A panic of a mux loses the
-- state here; the code leaves the handlers registered so far.
pub mod Laws
use grpchan.Base.{
  All, leb, ◌==◌, ◌&&◌, ◌||◌, true, ℕ, Bytes, codes, ◌≡◌, Bool, Option, none, some, List, [], ◌∷◌,
}
use grpchan.Registry.{
  Outcome, value, panic, ServiceInfo, HandlerMap, register_service, get_service_info, for_each,
}
use grpchan.Grpc.{MethodDesc, StreamDesc, ServiceDesc}
use grpchan.Httpgrpc.Server.{
  UnaryHandler, StreamHandler, StreamInterceptor, Packages, HandlerOpts, HandlerOption, HttpHandler,
  no_handler_opts, method_path, method_handler, stream_handler,
}

-- http.ServeMux: HandleFunc, the handler registered for a pattern, and the handler that ServeHTTP gives
-- a request of a path to, where the request's method and host are none that a pattern names.
pub record ServeMux (M Mux : Type 0) : Type 0 where
  pub empty_mux : Mux
  pub handle_func : Bytes → HttpHandler M → Mux → Outcome Mux
  pub registered : Mux → Bytes → Option (HttpHandler M)
  pub handler_for : Mux → Bytes → Option (HttpHandler M)

-- A path that is a pattern of itself alone: it starts with a slash, so it names no host and no method,
-- and has no character of wildcards or escapes: letters, digits, dots, dashes, underscores and slashes.
abbrev pub is_plain_byte : ℕ → Bool
is_plain_byte c =
    (leb b'a' c && leb c b'z')
    || (leb b'A' c && leb c b'Z')
    || (leb b'0' c && leb c b'9')
    || c == b'.'
    || c == b'-'
    || c == b'_'
    || c == b'/'

abbrev pub IsPlainPath : Bytes → Type 0
IsPlainPath [] = ⊥
IsPlainPath (c ∷ cs) = (c ≡ b'/') × All (λ d. is_plain_byte d ≡ true) cs

-- Its documentation: a pattern is registered once, a second registration panics, and a plain path that
-- is registered itself takes precedence over wildcards and over the subtrees it lies in. What path.Join
-- gives is clean, so such a request is not redirected.
pub record IsServeMux {M Mux : Type 0} (join_path : Bytes → Bytes → Bytes) (mx : ServeMux M Mux)
    : Type 0 where
  pub handle_func-registered :
      {p : Bytes} {h : HttpHandler M} {m m' : Mux}
      → mx.handle_func p h m ≡ value m'
      → mx.registered m' p ≡ some h
  pub handle_func-fresh :
      {p : Bytes} {h : HttpHandler M} {m m' : Mux}
      → mx.handle_func p h m ≡ value m'
      → mx.registered m p ≡ none
  pub handle_func-other :
      {p q : Bytes} {h : HttpHandler M} {m m' : Mux}
      → mx.handle_func p h m ≡ value m'
      → ¬ (p ≡ q)
      → mx.registered m' q ≡ mx.registered m q
  pub registered-handler_for :
      {base x : Bytes} {h : HttpHandler M} {m : Mux}
      → IsPlainPath (join_path base x)
      → mx.registered m (join_path base x) ≡ some h
      → mx.handler_for m (join_path base x) ≡ some h

pub record HttpServer (M H I Mux : Type 0) : Type 0 where
  pub mux : Mux
  pub handlers : HandlerMap (UnaryHandler M H I) (StreamHandler M H) H
  pub base_path : Bytes
  pub unary_int : Option I
  pub stream_int : Option (StreamInterceptor M H)
  pub opts : HandlerOpts

-- A ServerOption: what the three functions and a HandlerOption give.
pub data ServerOption (M H I : Type 0) : Type 0 where
  with_base_path : Bytes → ServerOption M H I
  with_server_unary_interceptor : I → ServerOption M H I
  with_server_stream_interceptor : StreamInterceptor M H → ServerOption M H I
  handler_option : HandlerOption → ServerOption M H I

-- The next step of a loop, unless the last one panicked.
abbrev pub and_then : {A B : Type 0} → Outcome A → (A → Outcome B) → Outcome B
and_then (value a) f = f a
and_then (panic why) f = panic why

-- The loops over a service's methods and streams.
module _ {A Hd Mux : Type 0} (route : A → Bytes × Hd)
    (handle_func : Bytes → Hd → Mux → Outcome Mux) where
  unfoldable pub mount_each : List A → Mux → Outcome Mux
  mount_each [] m = value m
  mount_each (d ∷ ds) m = and_then (handle_func (route d).0 (route d).1 m) (mount_each ds)

module _ {M H I Mux : Type 0} where
  abbrev pub apply : ServerOption M H I → HttpServer M H I Mux → HttpServer M H I Mux
  apply (with_base_path path) s = record s { base_path = path }
  apply (with_server_unary_interceptor interceptor) s = record s { unary_int = some interceptor }
  apply (with_server_stream_interceptor interceptor) s = record s { stream_int = some interceptor }
  apply (handler_option ho) s = record s { opts = ho s.opts }

  abbrev pub apply_all : List (ServerOption M H I) → HttpServer M H I Mux → HttpServer M H I Mux
  apply_all [] s = s
  apply_all (o ∷ os) s = apply_all os (apply o s)

  unfoldable pub new_server : ServeMux M Mux → List (ServerOption M H I) → HttpServer M H I Mux
  new_server mx opts = apply_all opts (record {
    mux = mx.empty_mux;
    handlers = [];
    base_path = codes "/";
    unary_int = none;
    stream_int = none;
    opts = no_handler_opts;
  })

module _ {M H I : Type 0} (pk : Packages M) (base : Bytes) (unary_int : Option I)
    (stream_int : Option (StreamInterceptor M H)) (opts : HandlerOpts) (svr : H)
    (service : Bytes) where
  -- The pattern and the handler of a method.
  abbrev pub method_route : MethodDesc (UnaryHandler M H I) → Bytes × HttpHandler M
  method_route md = (
    pk.join_path base (method_path service md.method_name),
    method_handler pk svr service md unary_int opts,
  )

  abbrev pub stream_route : StreamDesc (StreamHandler M H) → Bytes × HttpHandler M
  stream_route sd = (
    pk.join_path base (method_path service sd.stream_name),
    stream_handler pk svr service sd stream_int opts,
  )

module _ {M H I Mux : Type 0} (pk : Packages M) (mx : ServeMux M Mux) (base : Bytes)
    (unary_int : Option I) (stream_int : Option (StreamInterceptor M H)) (opts : HandlerOpts) where
  abbrev pub mount_service :
      ServiceDesc (UnaryHandler M H I) (StreamHandler M H) → H → Mux → Outcome Mux
  mount_service desc svr m =
      and_then
        (mount_each (method_route pk base unary_int stream_int opts svr desc.service_name)
          mx.handle_func desc.methods m)
        (mount_each (stream_route pk base unary_int stream_int opts svr desc.service_name)
          mx.handle_func desc.streams)

  -- HandleServices, with HandleFunc of a ServeMux as its mux function.
  unfoldable pub handle_services :
      HandlerMap (UnaryHandler M H I) (StreamHandler M H) H → Mux → Outcome Mux
  unfolding mount_each for_each
  handle_services reg m =
      for_each reg (λ desc svr st. and_then st (mount_service desc svr)) (value m)

module _ {M H I Mux : Type 0} (pk : Packages M) (mx : ServeMux M Mux)
    (implements : H → Bytes → Bool) where
  abbrev pub mounted_as :
      HttpServer M H I Mux
      → HandlerMap (UnaryHandler M H I) (StreamHandler M H) H
      → Outcome Mux
      → Outcome (HttpServer M H I Mux)
  mounted_as s handlers' (panic why) = panic why
  mounted_as s handlers' (value m) = value (record s { handlers = handlers'; mux = m })

  abbrev pub mounting :
      HttpServer M H I Mux
      → ServiceDesc (UnaryHandler M H I) (StreamHandler M H)
      → H
      → Outcome (HandlerMap (UnaryHandler M H I) (StreamHandler M H) H)
      → Outcome (HttpServer M H I Mux)
  mounting s desc svr (panic why) = panic why
  mounting s desc svr (value handlers') =
      mounted_as s handlers'
        (mount_service pk mx s.base_path s.unary_int s.stream_int s.opts desc svr s.mux)

  -- RegisterService
  unfoldable pub serve_service :
      HttpServer M H I Mux
      → ServiceDesc (UnaryHandler M H I) (StreamHandler M H)
      → H
      → Outcome (HttpServer M H I Mux)
  unfolding mount_each register_service
  serve_service s desc svr = mounting s desc svr (register_service implements s.handlers desc svr)

module _ {M H I Mux : Type 0} (mx : ServeMux M Mux) where
  -- GetServiceInfo
  unfoldable pub server_info : HttpServer M H I Mux → List (Bytes × ServiceInfo)
  unfolding get_service_info
  server_info s = get_service_info s.handlers

  -- ServeHTTP, up to the handler that the mux calls.
  abbrev pub serve_http : HttpServer M H I Mux → Bytes → Option (HttpHandler M)
  serve_http s path = mx.handler_for s.mux path
