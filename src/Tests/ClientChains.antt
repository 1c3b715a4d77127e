-- ===== src/Tests/ClientChains.antt =====
-- Interceptors that note their number around a connection.
use grpchan.Base.{Bytes, ℕ, ◌≡◌, some, List, [], ◌∷◌}
use grpchan.Intercept.Client.{
  Types, Invoke, UnaryInterceptor, StreamInterceptor, Channel, client_conn, wrapper, intercepted,
  as_client_conn, unwrap, intercept_client_conn_unary, intercept_client_conn_stream, invoke,
  new_stream,
}
use grpchan.Intercept.Client.Laws.{
  run_unary, run_stream, base_invoker, base_streamer, intercept_client_conn_unary-invoke,
  intercept_client_conn_stream-new_stream,
}

-- A result is the list of what ran; a connection is a number.
abbrev traces : Types
traces = record {
  Conn = ℕ;
  Ctx = Bytes;
  UnaryArgs = ℕ;
  StreamArgs = ℕ;
  UnaryResult = List ℕ;
  StreamResult = List ℕ;
}

abbrev noting : ℕ → UnaryInterceptor traces
noting n = λ ctx method args cc invoker. n ∷ invoker ctx method args cc

abbrev noting_stream : ℕ → StreamInterceptor traces
noting_stream n = λ ctx method args cc streamer. n ∷ streamer ctx method args cc

abbrev calls : ℕ → Invoke traces
calls n = λ ctx method args. n ∷ []

abbrev wrapped : Channel traces
wrapped = wrapper (client_conn 1 (calls 10) (calls 20)) (calls 11) (calls 21)

abbrev noted : Channel traces
noted = intercepted wrapped (some (noting 3)) (some (noting_stream 4))

intercept_client_conn_unary-invoke_example :
    (invoke traces (intercept_client_conn_unary traces noted (noting 1 ∷ noting 2 ∷ [])) [] [] 0
      ≡ run_unary traces
          (noting 1 ∷ noting 2 ∷ noting 3 ∷ [])
          (base_invoker traces wrapped)
          []
          []
          0
          (as_client_conn traces (unwrap traces noted)))
    × (new_stream traces (intercept_client_conn_unary traces noted (noting 1 ∷ noting 2 ∷ []))
        ≡ new_stream traces noted)
intercept_client_conn_unary-invoke_example =
    intercept_client_conn_unary-invoke traces noted (noting 1) (noting 2 ∷ []) [] [] 0

intercept_client_conn_stream-new_stream_example :
    (new_stream traces
        (intercept_client_conn_stream traces noted (noting_stream 1 ∷ noting_stream 2 ∷ []))
        []
        []
        0
      ≡ run_stream traces
          (noting_stream 1 ∷ noting_stream 2 ∷ noting_stream 4 ∷ [])
          (base_streamer traces wrapped)
          []
          []
          0
          (as_client_conn traces wrapped))
    × (invoke traces
          (intercept_client_conn_stream traces noted (noting_stream 1 ∷ noting_stream 2 ∷ []))
        ≡ invoke traces noted)
intercept_client_conn_stream-new_stream_example =
    intercept_client_conn_stream-new_stream traces noted (noting_stream 1) (noting_stream 2 ∷ []) []
      [] 0
