-- ===== src/Intercept/Client/Laws.antt =====
-- The order in which client interceptors run.
use grpchan.Base.{
  Bytes, ◌≡◌, refl, ap, Option, none, some, List, [], ◌∷◌, ◌++◌, reverse, append-nil, reverse-cons,
}
use grpchan.Intercept.Client.{
  Types, Invoke, NewStream, Invoker, Streamer, UnaryInterceptor, StreamInterceptor, Channel,
  client_conn, wrapper, intercepted, as_client_conn, unwrap, wrap_invoker, chain_unary_client,
  wrap_streamer, chain_stream_client, as_list, add_unary, intercept_client_conn_unary, add_stream,
  intercept_client_conn_stream, intercept_client_conn, invoke, new_stream,
}

module _ (T : Types) where
  open T use {Conn, Ctx, UnaryArgs, StreamArgs, UnaryResult, StreamResult}

  -- The first interceptor runs first; its invoker runs the second, and so on down to the last, whose
  -- invoker is the given one.
  abbrev pub run_unary : List (UnaryInterceptor T) → Invoker T → Invoker T
  run_unary [] invoker = invoker
  run_unary (i ∷ is) invoker = λ ctx method args cc. i ctx method args cc (run_unary is invoker)

  abbrev pub run_stream : List (StreamInterceptor T) → Streamer T → Streamer T
  run_stream [] streamer = streamer
  run_stream (i ∷ is) streamer = λ ctx method args cc. i ctx method args cc (run_stream is streamer)

  wrap_invoker-append :
      (xs ys : List (UnaryInterceptor T)) (inv : Invoker T)
      → wrap_invoker T (xs ++ ys) inv ≡ wrap_invoker T ys (wrap_invoker T xs inv)
  unfolding wrap_invoker
  wrap_invoker-append [] ys inv = refl
  wrap_invoker-append (x ∷ xs) ys inv = wrap_invoker-append xs ys _

  wrap_invoker-reverse :
      (is : List (UnaryInterceptor T)) (inv : Invoker T)
      → wrap_invoker T (reverse is) inv ≡ run_unary is inv
  unfolding wrap_invoker
  wrap_invoker-reverse [] inv = refl
  wrap_invoker-reverse (i ∷ is) inv = rw (
    reverse-cons i is,
    wrap_invoker-append (reverse is) (i ∷ []) inv,
    wrap_invoker-reverse is inv,
  )

  chain_unary_client-run_unary :
      (is : List (UnaryInterceptor T)) (inv : Invoker T)
      → (λ ctx method args cc. chain_unary_client T is ctx method args cc inv) ≡ run_unary is inv
  unfolding chain_unary_client
  chain_unary_client-run_unary [] inv = wrap_invoker-reverse [] inv
  chain_unary_client-run_unary (i ∷ []) inv = refl
  chain_unary_client-run_unary (i ∷ j ∷ is) inv = wrap_invoker-reverse (i ∷ j ∷ is) inv

  wrap_streamer-append :
      (xs ys : List (StreamInterceptor T)) (str : Streamer T)
      → wrap_streamer T (xs ++ ys) str ≡ wrap_streamer T ys (wrap_streamer T xs str)
  unfolding wrap_streamer
  wrap_streamer-append [] ys str = refl
  wrap_streamer-append (x ∷ xs) ys str = wrap_streamer-append xs ys _

  wrap_streamer-reverse :
      (is : List (StreamInterceptor T)) (str : Streamer T)
      → wrap_streamer T (reverse is) str ≡ run_stream is str
  unfolding wrap_streamer
  wrap_streamer-reverse [] str = refl
  wrap_streamer-reverse (i ∷ is) str = rw (
    reverse-cons i is,
    wrap_streamer-append (reverse is) (i ∷ []) str,
    wrap_streamer-reverse is str,
  )

  chain_stream_client-run_stream :
      (is : List (StreamInterceptor T)) (str : Streamer T)
      → (λ ctx method args cc. chain_stream_client T is ctx method args cc str) ≡ run_stream is str
  unfolding chain_stream_client
  chain_stream_client-run_stream [] str = wrap_streamer-reverse [] str
  chain_stream_client-run_stream (i ∷ []) str = refl
  chain_stream_client-run_stream (i ∷ j ∷ is) str = wrap_streamer-reverse (i ∷ j ∷ is) str

  -- The interceptors that a channel already has, and the channel below them.
  abbrev pub own_unary : Channel T → List (UnaryInterceptor T)
  own_unary (intercepted ch unary stream) = as_list T unary
  own_unary _ = []

  abbrev pub own_stream : Channel T → List (StreamInterceptor T)
  own_stream (intercepted ch unary stream) = as_list T stream
  own_stream _ = []

  abbrev pub below : Channel T → Channel T
  below (intercepted ch unary stream) = ch
  below ch = ch

  abbrev pub base_invoker : Channel T → Invoker T
  base_invoker ch = λ ctx method args cc. invoke T ch ctx method args

  abbrev pub base_streamer : Channel T → Streamer T
  base_streamer ch = λ ctx method args cc. new_stream T ch ctx method args

  invoke-chain :
      (ch : Channel T) (stream : Option (StreamInterceptor T)) (is : List (UnaryInterceptor T))
      (ctx : Ctx) (method : Bytes) (args : UnaryArgs)
      → invoke T (intercepted ch (some (chain_unary_client T is)) stream) ctx method args
        ≡ run_unary is (base_invoker ch) ctx method args (as_client_conn T (unwrap T ch))
  unfolding invoke
  invoke-chain ch stream is ctx method args =
      ap (λ (f : Invoker T). f ctx method args (as_client_conn T (unwrap T ch)))
        (chain_unary_client-run_unary is (base_invoker ch))

  new_stream-chain :
      (ch : Channel T) (unary : Option (UnaryInterceptor T)) (is : List (StreamInterceptor T))
      (ctx : Ctx) (method : Bytes) (args : StreamArgs)
      → new_stream T (intercepted ch unary (some (chain_stream_client T is))) ctx method args
        ≡ run_stream is (base_streamer ch) ctx method args (as_client_conn T ch)
  unfolding new_stream
  new_stream-chain ch unary is ctx method args =
      ap (λ (f : Streamer T). f ctx method args (as_client_conn T ch))
        (chain_stream_client-run_stream is (base_streamer ch))

  -- A unary call on an intercepted channel runs the interceptors added, the first one first, then
  -- those that the channel had, then the channel below; each is given the fully unwrapped connection
  -- unless an earlier one passes on another. Streams are not affected.
  pub intercept_client_conn_unary-invoke :
      (ch : Channel T) (i : UnaryInterceptor T) (is : List (UnaryInterceptor T)) (ctx : Ctx)
      (method : Bytes) (args : UnaryArgs)
      → (invoke T (intercept_client_conn_unary T ch (i ∷ is)) ctx method args
          ≡ run_unary
              (i ∷ (is ++ own_unary ch))
              (base_invoker (below ch))
              ctx
              method
              args
              (as_client_conn T (unwrap T ch)))
        × (new_stream T (intercept_client_conn_unary T ch (i ∷ is)) ≡ new_stream T ch)
  unfolding intercept_client_conn_unary add_unary new_stream unwrap
  intercept_client_conn_unary-invoke (intercepted ch unary none) i is ctx method args =
      (invoke-chain ch none (i ∷ (is ++ as_list T unary)) ctx method args, refl)
  intercept_client_conn_unary-invoke (intercepted ch unary (some s)) i is ctx method args =
      (invoke-chain ch (some s) (i ∷ (is ++ as_list T unary)) ctx method args, refl)
  intercept_client_conn_unary-invoke ch i is ctx method args =
      (rw append-nil (invoke-chain _ none (i ∷ is) ctx method args), refl)

  -- The same for streams, but for the connection that the interceptors are given: it is the channel
  -- right below, if that is a *grpc.ClientConn itself. Unary calls are not affected.
  pub intercept_client_conn_stream-new_stream :
      (ch : Channel T) (i : StreamInterceptor T) (is : List (StreamInterceptor T)) (ctx : Ctx)
      (method : Bytes) (args : StreamArgs)
      → (new_stream T (intercept_client_conn_stream T ch (i ∷ is)) ctx method args
          ≡ run_stream
              (i ∷ (is ++ own_stream ch))
              (base_streamer (below ch))
              ctx
              method
              args
              (as_client_conn T (below ch)))
        × (invoke T (intercept_client_conn_stream T ch (i ∷ is)) ≡ invoke T ch)
  unfolding intercept_client_conn_stream add_stream invoke
  intercept_client_conn_stream-new_stream (intercepted ch none stream) i is ctx method args =
      (new_stream-chain ch none (i ∷ (is ++ as_list T stream)) ctx method args, refl)
  intercept_client_conn_stream-new_stream (intercepted ch (some u) stream) i is ctx method args =
      (new_stream-chain ch (some u) (i ∷ (is ++ as_list T stream)) ctx method args, refl)
  intercept_client_conn_stream-new_stream ch i is ctx method args =
      (rw append-nil (new_stream-chain _ none (i ∷ is) ctx method args), refl)

  -- Around a wrapper of a connection, unary interceptors are given the connection and stream
  -- interceptors are given nil.
  pub wrapped_conn_differs :
      (c : Conn) (inv inv' : Invoke T) (str str' : NewStream T) (i : UnaryInterceptor T)
      (s : StreamInterceptor T) (ctx : Ctx) (method : Bytes) (uargs : UnaryArgs)
      (sargs : StreamArgs)
      → let ch =
          intercept_client_conn T (wrapper (client_conn c inv str) inv' str') (some i) (some s) in
        (invoke T ch ctx method uargs
          ≡ i ctx method uargs (some c) (λ ctx method args cc. inv' ctx method args))
        × (new_stream T ch ctx method sargs
            ≡ s ctx method sargs none (λ ctx method args cc. str' ctx method args))
  unfolding intercept_client_conn intercept_client_conn_unary intercept_client_conn_stream add_unary
      add_stream chain_unary_client chain_stream_client invoke new_stream unwrap as_client_conn
  wrapped_conn_differs c inv inv' str str' i s ctx method uargs sargs = (refl, refl)
