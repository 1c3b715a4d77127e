-- ===== src/Intercept/Client.antt =====
-- intercept.go, client side: InterceptClientConn, the interceptor chains and the intercepted channel.
pub mod Laws
use grpchan.Base.{Bytes, Option, none, some, List, [], ◌∷◌, ◌++◌, reverse}

-- The Go types that client interceptors mention. A *grpc.ClientConn is a Conn, nil is `none`; Args is
-- the rest of a call's arguments (request, reply and options, or a stream description and options).
pub record Types : Type 1 where
  pub Conn : Type 0
  pub Ctx : Type 0
  pub UnaryArgs : Type 0
  pub StreamArgs : Type 0
  pub UnaryResult : Type 0
  pub StreamResult : Type 0

module _ (T : Types) where
  open T use {Conn, Ctx, UnaryArgs, StreamArgs, UnaryResult, StreamResult}

  -- Invoke and NewStream of a connection. The method name stands second.
  abbrev pub Invoke : Type 0
  Invoke = Ctx → Bytes → UnaryArgs → UnaryResult

  abbrev pub NewStream : Type 0
  NewStream = Ctx → Bytes → StreamArgs → StreamResult

  -- grpc.UnaryInvoker and grpc.Streamer also take the *grpc.ClientConn.
  abbrev pub Invoker : Type 0
  Invoker = Ctx → Bytes → UnaryArgs → Option Conn → UnaryResult

  abbrev pub Streamer : Type 0
  Streamer = Ctx → Bytes → StreamArgs → Option Conn → StreamResult

  abbrev pub UnaryInterceptor : Type 0
  UnaryInterceptor = Ctx → Bytes → UnaryArgs → Option Conn → Invoker → UnaryResult

  abbrev pub StreamInterceptor : Type 0
  StreamInterceptor = Ctx → Bytes → StreamArgs → Option Conn → Streamer → StreamResult

  -- A grpc.ClientConnInterface: a *grpc.ClientConn, another implementation with no Unwrap method,
  -- another WrappedClientConn, whose Unwrap method returns a channel or nil, or an
  -- interceptedChannel.
  pub data Channel : Type 0 where
    client_conn : Conn → Invoke → NewStream → Channel
    plain : Invoke → NewStream → Channel
    wrapper : Channel → Invoke → NewStream → Channel
    empty_wrapper : Invoke → NewStream → Channel
    intercepted : Channel → Option UnaryInterceptor → Option StreamInterceptor → Channel

  -- The type assertion ch.(*grpc.ClientConn).
  unfoldable pub as_client_conn : Channel → Option Conn
  as_client_conn (client_conn c inv str) = some c
  as_client_conn (plain inv str) = none
  as_client_conn (wrapper ch inv str) = none
  as_client_conn (empty_wrapper inv str) = none
  as_client_conn (intercepted ch unary stream) = none

  unfoldable pub unwrap : Channel → Channel
  unwrap (wrapper ch inv str) = unwrap ch
  unwrap (intercepted ch unary stream) = unwrap ch
  unwrap (client_conn c inv str) = client_conn c inv str
  unwrap (plain inv str) = plain inv str
  unwrap (empty_wrapper inv str) = empty_wrapper inv str

  -- The loop of chainUnaryClient over the interceptors, last one first.
  unfoldable pub wrap_invoker : List UnaryInterceptor → Invoker → Invoker
  wrap_invoker [] invoker = invoker
  wrap_invoker (curr ∷ rest) invoker =
      wrap_invoker rest (λ ctx method args cc. curr ctx method args cc invoker)

  unfoldable pub chain_unary_client : List UnaryInterceptor → UnaryInterceptor
  chain_unary_client (i ∷ []) = i
  chain_unary_client ints =
      λ ctx method args cc invoker. wrap_invoker (reverse ints) invoker ctx method args cc

  unfoldable pub wrap_streamer : List StreamInterceptor → Streamer → Streamer
  wrap_streamer [] streamer = streamer
  wrap_streamer (curr ∷ rest) streamer =
      wrap_streamer rest (λ ctx method args cc. curr ctx method args cc streamer)

  unfoldable pub chain_stream_client : List StreamInterceptor → StreamInterceptor
  chain_stream_client (i ∷ []) = i
  chain_stream_client ints =
      λ ctx method args cc streamer. wrap_streamer (reverse ints) streamer ctx method args cc

  abbrev pub as_list : {I : Type 0} → Option I → List I
  as_list none = []
  as_list (some i) = i ∷ []

  -- InterceptClientConnUnary, on a list that is not empty.
  unfoldable pub add_unary : Channel → List UnaryInterceptor → Channel
  add_unary (intercepted ch unary stream) ints =
      intercepted ch (some (chain_unary_client (ints ++ as_list unary))) stream
  add_unary ch ints = intercepted ch (some (chain_unary_client ints)) none

  unfoldable pub intercept_client_conn_unary : Channel → List UnaryInterceptor → Channel
  unfolding add_unary
  intercept_client_conn_unary ch [] = ch
  intercept_client_conn_unary ch (i ∷ is) = add_unary ch (i ∷ is)

  -- InterceptClientConnStream, on a list that is not empty.
  unfoldable pub add_stream : Channel → List StreamInterceptor → Channel
  add_stream (intercepted ch unary stream) ints =
      intercepted ch unary (some (chain_stream_client (ints ++ as_list stream)))
  add_stream ch ints = intercepted ch none (some (chain_stream_client ints))

  unfoldable pub intercept_client_conn_stream : Channel → List StreamInterceptor → Channel
  unfolding add_stream
  intercept_client_conn_stream ch [] = ch
  intercept_client_conn_stream ch (i ∷ is) = add_stream ch (i ∷ is)

  -- InterceptClientConn and InterceptChannel
  unfoldable pub intercept_client_conn :
      Channel → Option UnaryInterceptor → Option StreamInterceptor → Channel
  unfolding intercept_client_conn_unary intercept_client_conn_stream
  intercept_client_conn ch unary stream =
      intercept_client_conn_stream (intercept_client_conn_unary ch (as_list unary)) (as_list stream)

  -- Invoke, by the channel's dynamic type.
  unfoldable pub invoke : Channel → Invoke
  invoke (client_conn c inv str) = inv
  invoke (plain inv str) = inv
  invoke (wrapper ch inv str) = inv
  invoke (empty_wrapper inv str) = inv
  invoke (intercepted ch none stream) = invoke ch
  invoke (intercepted ch (some int) stream) = λ ctx method args.
      int ctx method args (as_client_conn (unwrap ch))
        (λ ctx method args cc. invoke ch ctx method args)

  unfoldable pub new_stream : Channel → NewStream
  new_stream (client_conn c inv str) = str
  new_stream (plain inv str) = str
  new_stream (wrapper ch inv str) = str
  new_stream (empty_wrapper inv str) = str
  new_stream (intercepted ch unary none) = new_stream ch
  new_stream (intercepted ch unary (some int)) = λ ctx method args.
      int ctx method args (as_client_conn ch) (λ ctx method args cc. new_stream ch ctx method args)
