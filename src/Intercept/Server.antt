-- ===== src/Intercept/Server.antt =====
-- intercept.go, server side: WithInterceptor, InterceptServer and the interceptor chains.
pub mod Laws
use grpchan.Base.{Bytes, codes, Bool, Option, none, some, List, [], ◌∷◌, ◌++◌, map, reverse}
use grpchan.Grpc.{MethodDesc, StreamDesc, ServiceDesc}

-- The Go types that interceptors mention: a service implementation, a context, a request, the function
-- that decodes a request, a server stream, and the results of unary and streaming handlers.
pub record Types : Type 1 where
  pub Srv : Type 0
  pub Ctx : Type 0
  pub Req : Type 0
  pub Decode : Type 0
  pub Stream : Type 0
  pub UnaryResult : Type 0
  pub StreamResult : Type 0
  -- grpc.UnaryServerInfo; grpc.StreamServerInfo is StreamInfo
  pub Info : Type 0

pub record StreamInfo : Type 0 where
  pub full_method : Bytes
  pub info_client_stream : Bool
  pub info_server_stream : Bool

module _ (T : Types) where
  open T use {Srv, Ctx, Req, Decode, Stream, UnaryResult, StreamResult, Info}

  abbrev pub UnaryHandler : Type 0
  UnaryHandler = Ctx → Req → UnaryResult

  abbrev pub UnaryInterceptor : Type 0
  UnaryInterceptor = Ctx → Req → Info → UnaryHandler → UnaryResult

  -- grpc.MethodDesc.Handler; a nil interceptor is `none`
  abbrev pub MethodHandler : Type 0
  MethodHandler = Srv → Ctx → Decode → Option UnaryInterceptor → UnaryResult

  abbrev pub StreamHandler : Type 0
  StreamHandler = Srv → Stream → StreamResult

  abbrev pub StreamInterceptor : Type 0
  StreamInterceptor = Srv → Stream → StreamInfo → StreamHandler → StreamResult

  abbrev pub Desc : Type 0
  Desc = ServiceDesc MethodHandler StreamHandler

  -- The loop of chainUnaryServer over the interceptors, last one first.
  unfoldable pub wrap_unary : Info → List UnaryInterceptor → UnaryHandler → UnaryHandler
  wrap_unary info [] handler = handler
  wrap_unary info (curr ∷ rest) handler =
      wrap_unary info rest (λ ctx req. curr ctx req info handler)

  unfoldable pub chain_unary_server : List UnaryInterceptor → UnaryInterceptor
  chain_unary_server (i ∷ []) = i
  chain_unary_server ints = λ ctx req info handler. wrap_unary info (reverse ints) handler ctx req

  unfoldable pub wrap_stream : StreamInfo → List StreamInterceptor → StreamHandler → StreamHandler
  wrap_stream info [] handler = handler
  wrap_stream info (curr ∷ rest) handler =
      wrap_stream info rest (λ srv stream. curr srv stream info handler)

  unfoldable pub chain_stream_server : List StreamInterceptor → StreamInterceptor
  chain_stream_server (i ∷ []) = i
  chain_stream_server ints =
      λ srv stream info handler. wrap_stream info (reverse ints) handler srv stream

  -- The handler that InterceptServer puts in place of a unary method's.
  unfoldable pub intercepted_method : UnaryInterceptor → MethodHandler → MethodHandler
  intercepted_method int orig = λ srv ctx dec interceptor. orig srv ctx dec (
      some (elim interceptor [
        | none ↦ int
        | some outer ↦
            λ ctx req info handler. outer ctx req info (λ ctx req. int ctx req info handler)
      ]))

  unfoldable pub intercepted_method_desc :
      UnaryInterceptor → MethodDesc MethodHandler → MethodDesc MethodHandler
  intercepted_method_desc int m = record m { handler = intercepted_method int m.handler }

  unfoldable pub intercepted_stream :
      StreamInterceptor → Bytes → StreamDesc StreamHandler → StreamDesc StreamHandler
  intercepted_stream int service sd = record sd {
    handler = λ srv stream.
        int srv stream
          (record {
            full_method = codes "/" ++ (service ++ (codes "/" ++ sd.stream_name));
            info_client_stream = sd.client_streams;
            info_server_stream = sd.server_streams;
          })
          sd.handler;
  }

  unfoldable pub intercept_server : Desc → Option UnaryInterceptor → Option StreamInterceptor → Desc
  intercept_server d unary stream = record d {
    methods = elim unary [
      | none ↦ d.methods
      | some int ↦ map (intercepted_method_desc int) d.methods
    ];
    streams = elim stream [
      | none ↦ d.streams
      | some int ↦ map (intercepted_stream int d.service_name) d.streams
    ];
  }

  -- A grpc.ServiceRegistrar: an interceptingRegistry, or any other, named by a value of B.
  pub data Registrar (B : Type 0) : Type 0 where
    base : B → Registrar B
    intercepting : Registrar B → Option UnaryInterceptor → Option StreamInterceptor → Registrar B

  abbrev pub as_list : {I : Type 0} → Option I → List I
  as_list none = []
  as_list (some i) = i ∷ []

  -- WithUnaryInterceptors, on a list that is not empty.
  unfoldable pub add_unary : {B : Type 0} → Registrar B → List UnaryInterceptor → Registrar B
  add_unary (base b) ints = intercepting (base b) (some (chain_unary_server ints)) none
  add_unary (intercepting reg unary stream) ints =
      intercepting reg (some (chain_unary_server (ints ++ as_list unary))) stream

  unfoldable pub with_unary_interceptors :
      {B : Type 0} → Registrar B → List UnaryInterceptor → Registrar B
  unfolding add_unary
  with_unary_interceptors reg [] = reg
  with_unary_interceptors reg (i ∷ is) = add_unary reg (i ∷ is)

  unfoldable pub add_stream : {B : Type 0} → Registrar B → List StreamInterceptor → Registrar B
  add_stream (base b) ints = intercepting (base b) none (some (chain_stream_server ints))
  add_stream (intercepting reg unary stream) ints =
      intercepting reg unary (some (chain_stream_server (ints ++ as_list stream)))

  unfoldable pub with_stream_interceptors :
      {B : Type 0} → Registrar B → List StreamInterceptor → Registrar B
  unfolding add_stream
  with_stream_interceptors reg [] = reg
  with_stream_interceptors reg (i ∷ is) = add_stream reg (i ∷ is)

  -- WithInterceptor
  unfoldable pub with_interceptor :
      {B : Type 0} → Registrar B → Option UnaryInterceptor → Option StreamInterceptor → Registrar B
  unfolding with_unary_interceptors with_stream_interceptors
  with_interceptor reg unary stream =
      with_stream_interceptors (with_unary_interceptors reg (as_list unary)) (as_list stream)

  -- RegisterService of an interceptingRegistry: what the registrar at the bottom is given.
  unfoldable pub register_service : {B : Type 0} → Registrar B → Desc → B × Desc
  register_service (base b) d = (b, d)
  register_service (intercepting reg unary stream) d =
      register_service reg (intercept_server d unary stream)
