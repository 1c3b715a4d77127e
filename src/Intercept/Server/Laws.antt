-- ===== src/Intercept/Server/Laws.antt =====
-- The order in which server interceptors run.
use grpchan.Base.{
  Bytes, codes, ◌≡◌, refl, ap, fun_ext, Option, none, some, List, [], ◌∷◌, ◌++◌, map, reverse,
  append-nil, reverse-cons,
}
use grpchan.Grpc.{MethodDesc, StreamDesc}
use grpchan.Intercept.Server.{
  Types, StreamInfo, UnaryHandler, UnaryInterceptor, MethodHandler, StreamHandler,
  StreamInterceptor, Desc, wrap_unary, chain_unary_server, wrap_stream, chain_stream_server,
  intercepted_method, intercepted_method_desc, intercepted_stream, intercept_server, Registrar,
  base, intercepting, as_list, add_unary, with_unary_interceptors, register_service,
}

module _ (T : Types) where
  open T use {Srv, Ctx, Req, Decode, Stream, UnaryResult, StreamResult, Info}

  -- The first interceptor runs first; its handler runs the second, and so on down to the last, whose
  -- handler is the given one.
  abbrev pub run_unary : Info → List (UnaryInterceptor T) → UnaryHandler T → UnaryHandler T
  run_unary info [] handler = handler
  run_unary info (i ∷ is) handler = λ ctx req. i ctx req info (run_unary info is handler)

  abbrev pub run_stream :
      StreamInfo → List (StreamInterceptor T) → StreamHandler T → StreamHandler T
  run_stream info [] handler = handler
  run_stream info (i ∷ is) handler = λ srv stream. i srv stream info (run_stream info is handler)

  wrap_unary-append :
      (info : Info) (xs ys : List (UnaryInterceptor T)) (h : UnaryHandler T)
      → wrap_unary T info (xs ++ ys) h ≡ wrap_unary T info ys (wrap_unary T info xs h)
  unfolding wrap_unary
  wrap_unary-append info [] ys h = refl
  wrap_unary-append info (x ∷ xs) ys h = wrap_unary-append info xs ys _

  wrap_unary-reverse :
      (info : Info) (is : List (UnaryInterceptor T)) (h : UnaryHandler T)
      → wrap_unary T info (reverse is) h ≡ run_unary info is h
  unfolding wrap_unary
  wrap_unary-reverse info [] h = refl
  wrap_unary-reverse info (i ∷ is) h = rw (
    reverse-cons i is,
    wrap_unary-append info (reverse is) (i ∷ []) h,
    wrap_unary-reverse info is h,
  )

  -- A chain of unary server interceptors runs them in order.
  pub chain_unary_server-run_unary :
      (is : List (UnaryInterceptor T))
      → chain_unary_server T is ≡ (λ ctx req info h. run_unary info is h ctx req)
  unfolding chain_unary_server
  chain_unary_server-run_unary [] = λ j ctx req info h. wrap_unary-reverse info [] h j ctx req
  chain_unary_server-run_unary (i ∷ []) = refl
  chain_unary_server-run_unary (i ∷ i' ∷ is) =
      λ j ctx req info h. wrap_unary-reverse info (i ∷ i' ∷ is) h j ctx req

  wrap_stream-append :
      (info : StreamInfo) (xs ys : List (StreamInterceptor T)) (h : StreamHandler T)
      → wrap_stream T info (xs ++ ys) h ≡ wrap_stream T info ys (wrap_stream T info xs h)
  unfolding wrap_stream
  wrap_stream-append info [] ys h = refl
  wrap_stream-append info (x ∷ xs) ys h = wrap_stream-append info xs ys _

  wrap_stream-reverse :
      (info : StreamInfo) (is : List (StreamInterceptor T)) (h : StreamHandler T)
      → wrap_stream T info (reverse is) h ≡ run_stream info is h
  unfolding wrap_stream
  wrap_stream-reverse info [] h = refl
  wrap_stream-reverse info (i ∷ is) h = rw (
    reverse-cons i is,
    wrap_stream-append info (reverse is) (i ∷ []) h,
    wrap_stream-reverse info is h,
  )

  -- A chain of stream server interceptors runs them in order.
  pub chain_stream_server-run_stream :
      (is : List (StreamInterceptor T))
      → chain_stream_server T is ≡ (λ srv stream info h. run_stream info is h srv stream)
  unfolding chain_stream_server
  chain_stream_server-run_stream [] =
      λ j srv stream info h. wrap_stream-reverse info [] h j srv stream
  chain_stream_server-run_stream (i ∷ []) = refl
  chain_stream_server-run_stream (i ∷ i' ∷ is) =
      λ j srv stream info h. wrap_stream-reverse info (i ∷ i' ∷ is) h j srv stream

  -- A method whose handler is given an interceptor that runs `is` behind the caller's own.
  abbrev pub layered :
      List (UnaryInterceptor T) → MethodDesc (MethodHandler T) → MethodDesc (MethodHandler T)
  layered is m = record m {
    handler = λ srv ctx dec outer.
        m.handler srv ctx dec
          (some (λ ctx req info h. run_unary info (as_list T outer ++ is) h ctx req));
  }

  intercepted_method-layered :
      (is : List (UnaryInterceptor T))
      → intercepted_method_desc T (chain_unary_server T is) ≡ layered is
  unfolding intercepted_method_desc intercepted_method
  intercepted_method-layered is = rw (chain_unary_server-run_unary is) (
      fun_ext λ m.
        ap (λ (f : MethodHandler T). record m { handler = f })
          (fun_ext λ srv. fun_ext λ ctx. fun_ext λ dec. fun_ext λ outer. same m srv ctx dec outer))
    where
      same :
          (m : MethodDesc (MethodHandler T)) (srv : Srv) (ctx : Ctx) (dec : Decode)
          (outer : Option (UnaryInterceptor T))
          → intercepted_method T
              (λ ctx req info h. run_unary info is h ctx req)
              m.handler
              srv
              ctx
              dec
              outer
            ≡ m.handler srv ctx dec
                (some (λ ctx req info h. run_unary info (as_list T outer ++ is) h ctx req))
      same m srv ctx dec none = refl
      same m srv ctx dec (some o) = refl

  -- A stream whose handler runs inside the interceptors `is`, which are told the method's full name.
  abbrev pub layered_stream :
      Bytes
      → List (StreamInterceptor T)
      → StreamDesc (StreamHandler T)
      → StreamDesc (StreamHandler T)
  layered_stream service is sd = record sd {
    handler =
        run_stream
          (record {
            full_method = codes "/" ++ (service ++ (codes "/" ++ sd.stream_name));
            info_client_stream = sd.client_streams;
            info_server_stream = sd.server_streams;
          })
          is sd.handler;
  }

  intercepted_stream-layered :
      (service : Bytes) (is : List (StreamInterceptor T))
      → intercepted_stream T (chain_stream_server T is) service ≡ layered_stream service is
  unfolding intercepted_stream
  intercepted_stream-layered service is = rw (chain_stream_server-run_stream is)

  -- The interceptors that a registrar already has, and the registrar below them.
  abbrev pub own_unary : {B : Type 0} → Registrar T B → List (UnaryInterceptor T)
  own_unary (base b) = []
  own_unary (intercepting reg unary stream) = as_list T unary

  abbrev pub own_stream : {B : Type 0} → Registrar T B → Option (StreamInterceptor T)
  own_stream (base b) = none
  own_stream (intercepting reg unary stream) = stream

  abbrev pub below : {B : Type 0} → Registrar T B → Registrar T B
  below (base b) = base b
  below (intercepting reg unary stream) = reg

  -- Registering through a registrar with unary interceptors added registers, with the registrar
  -- below, methods that run an outer interceptor first, then the added ones in order, then those that
  -- were there before. The streams are those that the old registrar makes.
  pub with_unary_interceptors-register_service :
      {B : Type 0} (reg : Registrar T B) (i : UnaryInterceptor T) (is : List (UnaryInterceptor T))
      (d : Desc T)
      → register_service T (with_unary_interceptors T reg (i ∷ is)) d
        ≡ register_service T (below reg) (record d {
          methods = map (layered (i ∷ (is ++ own_unary reg))) d.methods;
          streams = (intercept_server T d none (own_stream reg)).streams;
        })
  unfolding with_unary_interceptors add_unary register_service intercept_server
  with_unary_interceptors-register_service (base b) i is d =
      rw (append-nil, intercepted_method-layered (i ∷ is))
  with_unary_interceptors-register_service (intercepting reg unary stream) i is d =
      ap
        (λ (f : MethodDesc (MethodHandler T) → MethodDesc (MethodHandler T)).
          register_service T reg (record d {
            methods = map f d.methods;
            streams = (intercept_server T d none stream).streams;
          }))
        (intercepted_method-layered (i ∷ (is ++ as_list T unary)))

  -- InterceptServer with chains: it keeps the names and flags of all methods and streams, and lays the
  -- interceptors around each handler.
  pub intercept_server-layers :
      (d : Desc T) (us : List (UnaryInterceptor T)) (ss : List (StreamInterceptor T))
      → intercept_server T d (some (chain_unary_server T us)) (some (chain_stream_server T ss))
        ≡ record d {
          methods = map (layered us) d.methods;
          streams = map (layered_stream d.service_name ss) d.streams;
        }
  unfolding intercept_server
  intercept_server-layers d us ss =
      rw (intercepted_method-layered us, intercepted_stream-layered d.service_name ss)
