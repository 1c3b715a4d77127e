-- ===== src/Inproc/Unary.antt =====
-- inprocgrpc/in_process.go: Channel.Invoke behind its first statement, SetPeer, a unary call from the routing to the client's loop over
-- the frames. The handler with its interceptor is a function on the stream that collects its headers
-- and trailers; the goroutine that runs it is taken to end before the client's loop reads, which is
-- one schedule, and the moment at which the client's select sees the context end is an argument.
pub mod Routing
pub mod Laws
use grpchan.Base.{
  ◌==◌, if◌then◌else◌, drop, Bytes, codes, Md, GoError, eof, status_error, Result, ok, err, ℕ, suc,
  Bool, true, false, Option, none, some, List, [], ◌∷◌, ◌++◌,
}
use grpchan.Grpc.{MethodDesc}
use grpchan.Registry.{Outcome, value, panic, HandlerMap, query_service}
use grpchan.Internal.Misc.{translate_context_error, find_unary_method}
use grpchan.Internal.CallOptions.{
  Context, Metadata, CallOption, get_call_options, apply_per_rpc_creds,
}
use grpchan.Internal.TransportStream.{UnaryStream, new, get_headers, get_trailers}
use grpchan.Inproc.{
  code_internal, code_unimplemented, status_of, Cloner, Frame, Outbox, Choice, delivered, close,
  write_message,
}

-- strings.SplitN(s, "/", 2)
unfoldable pub split_slash : Bytes → Bytes × Option Bytes
split_slash [] = ([], none)
split_slash (c ∷ cs) =
    let (before, behind) = split_slash cs in
    if c == b'/' then ([], some cs) else (c ∷ before, behind)

-- The method with its slash in front; indexing an empty string panics.
unfoldable pub with_slash : Bytes → Outcome Bytes
with_slash [] = panic "index out of range"
with_slash (c ∷ cs) = value (if c == b'/' then c ∷ cs else b'/' ∷ c ∷ cs)

abbrev pub unimplemented : Bytes → GoError
unimplemented text =
    status_error (record { code = code_unimplemented; message = text; details = [] })

-- Which cases the selects of the handler goroutine's writes take.
pub record Writes : Type 0 where
  pub of_headers : Choice
  pub of_data : Choice
  pub of_trailers : Choice
  pub of_error : Choice

abbrev pub all_written : Writes
all_written = record {
  of_headers = delivered;
  of_data = delivered;
  of_trailers = delivered;
  of_error = delivered;
}

-- What the client's loop has collected: whether a response came, the response, and the maps given
-- to the header and trailer options.
pub record Gathered (M : Type 0) : Type 0 where
  pub got_response : Bool
  pub response : Option M
  pub seen_headers : Option Md
  pub seen_trailers : Option Md

abbrev pub nothing_yet : {M : Type 0} → Gathered M
nothing_yet = record {
  got_response = false;
  response = none;
  seen_headers = none;
  seen_trailers = none;
}

module _ {U S H : Type 0} where
  -- The service's descriptor and implementation, and the method's descriptor.
  unfoldable pub find_method :
      HandlerMap U S H → Bytes × Option Bytes → Outcome (Result (H × MethodDesc U))
  find_method handlers (service_name, none) = panic "index out of range"
  find_method handlers (service_name, some method_name) =
      elim (query_service handlers service_name) [
        | none ↦
            value
              (err (unimplemented (codes "service " ++ service_name ++ codes " not implemented")))
        | some (sd, h) ↦ elim (find_unary_method method_name sd.methods) [
          | none ↦ value (
              err (
                unimplemented (
                  codes "method "
                  ++ service_name
                  ++ (b'/' ∷ method_name)
                  ++ codes " not implemented")))
          | some md ↦ value (ok (h, md))
        ]
      ]

  -- From a method with its slash in front to the method's descriptor.
  unfoldable pub route : HandlerMap U S H → Bytes → Outcome (Result (H × MethodDesc U))
  unfolding split_slash find_method
  route handlers full = find_method handlers (split_slash (drop 1 full))

module _ {M : Type 0} where
  -- The write of a header or trailer map that is not empty.
  abbrev pub write_md : Choice → Option Md → Frame M → Outbox M → Outbox M
  write_md c none m ch = ch
  write_md c (some []) m ch = ch
  write_md c (some (x ∷ xs)) m ch = (write_message c m ch).1

  -- The response or, where there is neither a response nor an error, the error that stands for it.
  unfoldable pub write_response :
      Choice → Option M × Option GoError → Outbox M → Option GoError × Outbox M
  write_response c (v, some e) ch = (some e, ch)
  write_response c (none, none) ch =
      (some (status_of code_internal "handler returned neither error nor response message"), ch)
  write_response c (some m, none) ch = (
    none,
    (write_message c (record { payload = some m; headers = none; trailers = none; fault = none })
        ch).1,
  )

  unfoldable pub write_fault : Choice → Option GoError × Outbox M → Outbox M
  write_fault c (none, ch) = ch
  write_fault c (some e, ch) =
      (write_message c (record { payload = none; headers = none; trailers = none; fault = some e })
        ch).1

  -- The body of the handler goroutine behind the handler's return, and its deferred close.
  unfoldable pub serve_unary : Writes → UnaryStream → Option M × Option GoError → Outbox M
  unfolding write_response write_fault
  serve_unary w sts reply =
      let opened =
        write_md w.of_headers (get_headers sts)
          (record { payload = none; headers = get_headers sts; trailers = none; fault = none })
          (record { sent = []; closed = false; panicked = false }) in
      let (e, answered) = write_response w.of_data reply opened in
      let trailed =
        write_md w.of_trailers (get_trailers sts)
          (record { payload = none; headers = none; trailers = get_trailers sts; fault = none })
          answered in
      close (write_fault w.of_error (e, trailed))

  -- The client's loop over a channel that is closed behind its frames. `done i` is the error of the
  -- context if the select of iteration i sees it ended.
  unfoldable pub collect :
      Cloner M
      → (ℕ → Option GoError)
      → ℕ
      → List (Frame M)
      → Gathered M
      → Option GoError × Gathered M
  collect cloner done i [] g = elim (done i) [
    | some e ↦ (some (translate_context_error e), g)
    | none ↦ if g.got_response then (none, g) else (some eof, g)
  ]
  collect cloner done i (r ∷ rs) g = elim (done i) [
    | some e ↦ (some (translate_context_error e), g)
    | none ↦ elim r.fault [
      | some e ↦ (some e, g)
      | none ↦ elim r.payload [
        | some m ↦ elim g.got_response [
          | true ↦ (some (status_of code_internal "server sent unexpected response message"), g)
          | false ↦ elim (cloner.copy m) [
            | err e ↦ (some e, record g { got_response = true })
            | ok m' ↦
                collect cloner done (suc i) rs
                  (record g { got_response = true; response = some m' })
          ]
        ]
        | none ↦ elim r.headers [
          | some md ↦ collect cloner done (suc i) rs (record g { seen_headers = some md })
          | none ↦ elim r.trailers [
            | some md ↦ collect cloner done (suc i) rs (record g { seen_trailers = some md })
            | none ↦ (some (status_of code_internal "server sent empty frame"), g)
          ]
        ]
      ]
    ]
  ]

-- The handler of a method with the interceptor of the channel, in the server context made of the
-- client's. It is given what the decoding function makes of the request: a copy, or an error.
abbrev pub Handling : Type 0 → Type 0 → Type 0 → Type 0
Handling U H M =
    Context → H → U → Result M → UnaryStream → (Option M × Option GoError) × UnaryStream

module _ {U H M : Type 0} (cloner : Cloner M) (handling : Handling U H M) where
  -- The call of the method that was found.
  unfoldable pub call_method :
      Writes
      → (ℕ → Option GoError)
      → Bytes
      → Context
      → M
      → H × MethodDesc U
      → Option GoError × Gathered M
  unfolding serve_unary
  call_method w done full ctx req (h, md) =
      let (reply, sts) = handling ctx h md.handler (cloner.copy req) (new full) in
      collect cloner done 0 (serve_unary w sts reply).sent nothing_yet

  -- Invoke behind the routing, behind the credentials, and behind the check of the method's name.
  unfoldable pub invoke_found :
      Writes
      → (ℕ → Option GoError)
      → Bytes
      → Context
      → M
      → Outcome (Result (H × MethodDesc U))
      → Outcome (Option GoError × Gathered M)
  invoke_found w done full ctx req (panic s) = panic s
  invoke_found w done full ctx req (value (err e)) = value (some e, nothing_yet)
  invoke_found w done full ctx req (value (ok found)) =
      value (call_method w done full ctx req found)

module _ {U S H M : Type 0} (api : Metadata) (cloner : Cloner M) (handling : Handling U H M) where
  unfoldable pub invoke_in :
      HandlerMap U S H
      → Writes
      → (ℕ → Option GoError)
      → Bytes
      → M
      → Result Context
      → Outcome (Option GoError × Gathered M)
  unfolding invoke_found
  invoke_in handlers w done full req (err e) = value (some e, nothing_yet)
  invoke_in handlers w done full req (ok ctx) =
      invoke_found cloner handling w done full ctx req (route handlers full)

  unfoldable pub invoke_named :
      HandlerMap U S H
      → List CallOption
      → Context
      → Writes
      → (ℕ → Option GoError)
      → M
      → Outcome Bytes
      → Outcome (Option GoError × Gathered M)
  unfolding invoke_in
  invoke_named handlers opts ctx w done req (panic s) = panic s
  invoke_named handlers opts ctx w done req (value full) =
      invoke_in handlers w done full req
        (apply_per_rpc_creds api ctx (get_call_options opts) (codes "inproc:0" ++ full) true)

  -- Channel.Invoke behind SetPeer: the error, and what the caller's message and options hold behind the call.
  unfoldable pub invoke :
      HandlerMap U S H
      → List CallOption
      → Context
      → Writes
      → (ℕ → Option GoError)
      → Bytes
      → Option M
      → Outcome (Option GoError × Gathered M)
  unfolding invoke_named
  invoke handlers opts ctx w done name none =
      value (some (status_of code_internal "request message is nil"), nothing_yet)
  invoke handlers opts ctx w done name (some req) =
      invoke_named handlers opts ctx w done req (with_slash name)
