-- ===== src/Tests/ServerChains.antt =====
-- Interceptors that note their number around a service.
use grpchan.Base.{Bytes, codes, ℕ, ◌≡◌, true, false, none, some, List, [], ◌∷◌, map}
use grpchan.Intercept.Server.{
  Types, UnaryInterceptor, MethodHandler, StreamInterceptor, Desc, chain_unary_server,
  chain_stream_server, intercept_server, Registrar, base, intercepting, with_unary_interceptors,
  register_service,
}
use grpchan.Intercept.Server.Laws.{
  run_unary, run_stream, chain_unary_server-run_unary, chain_stream_server-run_stream, layered,
  layered_stream, with_unary_interceptors-register_service, intercept_server-layers,
}

abbrev traces : Types
traces = record {
  Srv = ℕ;
  Ctx = Bytes;
  Req = ℕ;
  Decode = ℕ;
  Stream = ℕ;
  UnaryResult = List ℕ;
  StreamResult = List ℕ;
  Info = Bytes;
}

abbrev noting : ℕ → UnaryInterceptor traces
noting n = λ ctx req info handler. n ∷ handler ctx req

abbrev noting_stream : ℕ → StreamInterceptor traces
noting_stream n = λ srv stream info handler. n ∷ handler srv stream

abbrev answering : MethodHandler traces
answering = λ srv ctx dec interceptor. elim interceptor [
  | none ↦ dec ∷ []
  | some int ↦ int ctx dec [] (λ ctx req. req ∷ [])
]

abbrev service : Desc traces
service = record {
  service_name = codes "s";
  handler_type = codes "S";
  methods = record { method_name = codes "M"; handler = answering } ∷ [];
  streams =
      record {
        stream_name = codes "N";
        client_streams = true;
        server_streams = false;
        handler = λ srv stream. stream ∷ [];
      }
      ∷ [];
  metadata = [];
}

chain_unary_server-run_unary_example :
    chain_unary_server traces (noting 1 ∷ noting 2 ∷ [])
    ≡ (λ ctx req info h. run_unary traces info (noting 1 ∷ noting 2 ∷ []) h ctx req)
chain_unary_server-run_unary_example =
    chain_unary_server-run_unary traces (noting 1 ∷ noting 2 ∷ [])

chain_stream_server-run_stream_example :
    chain_stream_server traces (noting_stream 1 ∷ noting_stream 2 ∷ []) ≡ (λ srv stream info h.
      run_stream traces info (noting_stream 1 ∷ noting_stream 2 ∷ []) h srv stream)
chain_stream_server-run_stream_example =
    chain_stream_server-run_stream traces (noting_stream 1 ∷ noting_stream 2 ∷ [])

abbrev registrar : Registrar traces ℕ
registrar = intercepting (base 9) (some (noting 3)) none

with_unary_interceptors-register_service_example :
    register_service traces
      (with_unary_interceptors traces registrar (noting 1 ∷ noting 2 ∷ []))
      service
    ≡ register_service traces (base 9) (record service {
      methods = map (layered traces (noting 1 ∷ noting 2 ∷ noting 3 ∷ [])) service.methods;
      streams = (intercept_server traces service none none).streams;
    })
with_unary_interceptors-register_service_example =
    with_unary_interceptors-register_service traces registrar (noting 1) (noting 2 ∷ []) service

intercept_server-layers_example :
    intercept_server traces service
      (some (chain_unary_server traces (noting 1 ∷ [])))
      (some (chain_stream_server traces (noting_stream 2 ∷ [])))
    ≡ record service {
      methods = map (layered traces (noting 1 ∷ [])) service.methods;
      streams = map (layered_stream traces (codes "s") (noting_stream 2 ∷ [])) service.streams;
    }
intercept_server-layers_example =
    intercept_server-layers traces service (noting 1 ∷ []) (noting_stream 2 ∷ [])
