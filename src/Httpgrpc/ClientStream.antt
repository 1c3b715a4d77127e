-- ===== src/Httpgrpc/ClientStream.antt =====
-- httpgrpc/client.go: clientStream, the caller's end of a stream over HTTP, and doHttpCall, the
-- goroutine that reads the response. Sends on the unbuffered channel rCh are steps of that goroutine:
-- it is reading the rest of the body, offering a message to RecvMsg, or done. What an Unmarshal that
-- fails leaves in its target is taken to be what was there.
pub mod Safety
pub mod Starting
pub mod Runs
pub mod Schedules
pub mod Receiving
pub mod Single
pub mod EndToEnd
pub mod Termination
pub mod Requests
pub mod Ending
use grpchan.Base.{
  ◌==◌, if◌then◌else◌, is_some, is_empty, Bytes, codes, Md, put_values, Status, GoError, eof,
  unexpected_eof, status_error, other, Result, ok, err, Bool, true, false, ◌||◌, Option, none, some,
  [], ◌++◌, String,
}
use grpchan.Stdio.{Reader, Writer}
use grpchan.Registry.{Outcome, value, panic}
use grpchan.Internal.CallOptions.{Peer, CallOptions, Store, set_headers, set_trailers, set_peer}
use grpchan.Internal.Misc.{translate_context_error}
use grpchan.Httpgrpc.Frames.{StreamMsg}
use grpchan.Httpgrpc.Protocol.{CodecName, Framing, get_client_stream_reader}
use grpchan.Httpgrpc.Headers.{Base64, as_metadata}
use grpchan.Httpgrpc.Status.{DetailsCodec, Response, first, get_header, stat_from_response}
use grpchan.Httpgrpc.Wire.{HttpTrailer, Wire}

pub data Producer : Type 0 where
  reading : Reader → Producer
  offering : StreamMsg → Reader → Producer
  finished : Producer

-- The fields of clientStream that change, with the caller's variables in `store` and what was written
-- on the pipe of the request's body.
pub record ClientStream : Type 0 where
  pub copts : CallOptions
  pub store : Store
  pub resp_stream : Bool
  pub hd : Option Md
  pub hd_err : Option GoError
  pub producer : Producer
  pub done : Bool
  pub r_err : Option GoError
  pub tr : HttpTrailer
  pub cancelled : Bool
  pub pipe : Writer
  pub w_err : Option GoError
  pub closed_send : Bool

abbrev pub no_trailer : HttpTrailer
no_trailer = record {
  trailer_code = 0;
  trailer_message = [];
  trailer_details = [];
  trailer_metadata = [];
}

-- newClientStream
unfoldable pub new_client_stream : CallOptions → Store → Bool → Writer → ClientStream
new_client_stream copts store recv_stream pipe = record {
  copts = copts;
  store = store;
  resp_stream = recv_stream;
  hd = none;
  hd_err = none;
  producer = reading (record { input = []; fail = eof });
  done = false;
  r_err = none;
  tr = no_trailer;
  cancelled = false;
  pipe = pipe;
  w_err = none;
  closed_send = false;
}

unfoldable pub metadata_from_proto : Md → Md
metadata_from_proto trailers = put_values [] trailers

abbrev pub or_nil : Option Md → Md
or_nil none = []
or_nil (some md) = md

abbrev pub or_else : Option GoError → Option GoError → Option GoError
or_else none e = e
or_else (some x) e = some x

-- The deferred function of doHttpCall: rErr is kept only if there is no error yet.
unfoldable pub finish : Option GoError → ClientStream → ClientStream
finish e s = record s { r_err = or_else s.r_err e; done = true; producer = finished }

abbrev pub or_unexpected : GoError → GoError
or_unexpected eof = unexpected_eof
or_unexpected e = e

-- The trailers that the options ask for; the Go code asks whether there are any of both.
unfoldable pub give_trailers : ClientStream → ClientStream
give_trailers s =
    if is_empty s.tr.trailer_metadata || is_empty s.copts.trailers then s else record s {
      store = set_trailers s.copts (metadata_from_proto s.tr.trailer_metadata) s.store;
    }

-- The final message. This sets rErr of the stream itself, whatever it was.
abbrev pub on_trailer : Result HttpTrailer → ClientStream → ClientStream
on_trailer (ok t) s = finish none (give_trailers (record s { r_err = none; tr = t }))
on_trailer (err e) s = finish none (give_trailers (record s { r_err = some (or_unexpected e) }))

module _ {M : Type 0} (wire : Wire M) where
  -- What doHttpCall does with what it has read.
  unfoldable pub on_response : Result StreamMsg × Reader → ClientStream → ClientStream
  on_response (err e, r) s = finish (some (or_unexpected e)) s
  on_response (ok msg, r) s =
      if msg.is_trailer
      then on_trailer (wire.decode_trailer msg) s
      else record s { producer = offering msg r }

  abbrev pub produced : Producer → ClientStream → ClientStream
  produced (reading r) s = on_response (wire.read_response r) s
  produced (offering msg r) s = s
  produced finished s = s

  -- doHttpCall goes on up to its next select, or to its end.
  unfoldable pub produce : ClientStream → ClientStream
  unfolding on_response
  produce s = produced s.producer s

-- doHttpCall sees the end of the context in its select.
abbrev pub abandoned : GoError → Producer → ClientStream → ClientStream
abandoned e (offering msg r) s = finish (some (translate_context_error e)) s
abandoned e (reading r) s = s
abandoned e finished s = s

unfoldable pub abandon : GoError → ClientStream → ClientStream
abandon e s = abandoned e s.producer s

abbrev pub trailer_error : HttpTrailer → GoError
trailer_error t =
    if t.trailer_code == 0
    then eof
    else status_error
        (record { code = t.trailer_code; message = t.trailer_message; details = t.trailer_details })

abbrev pub final_error : Option GoError → HttpTrailer → GoError
final_error (some e) t = e
final_error none t = trailer_error t

-- readErrorIfDone; `none` if it is not done.
unfoldable pub read_error_if_done : ClientStream → Option GoError
read_error_if_done s = if s.done then some (final_error s.r_err s.tr) else none

-- Header, behind its wait for the response.
unfoldable pub header : ClientStream → Option Md × Option GoError
header s = (s.hd, s.hd_err)

unfoldable pub trailer : ClientStream → Option Md
trailer s = if s.done then some (metadata_from_proto s.tr.trailer_metadata) else none

-- Which case a select of RecvMsg takes: the channel, or the context with its error.
pub data Select : Type 0 where
  from_channel : Select
  from_context : GoError → Select

abbrev pub too_many_responses : GoError
too_many_responses = status_error (record {
  code = 13;
  message = codes "method should return 1 response message but server sent >1";
  details = [];
})

abbrev pub not_done : String
not_done = "cs.rCh was closed but cs.done == false!"

-- What a receive from rCh gives, as far as `produce` has come: a message, or that it is closed.
abbrev pub taken : Producer → ClientStream → Option StreamMsg × ClientStream
taken (offering msg r) s = (some msg, record s { producer = reading r })
taken (reading r) s = (none, s)
taken finished s = (none, s)

module _ {M : Type 0} (wire : Wire M) (error_text : GoError → Bytes) where
  unfoldable pub take : ClientStream → Option StreamMsg × ClientStream
  unfolding produce
  take s = let s' = produce wire s in taken s'.producer s'

  abbrev pub closed : Option GoError → ClientStream → Outcome (Result M) × ClientStream
  closed (some e) s = (value (err e), s)
  closed none s = (panic not_done, s)

  -- A second message, where one is expected; the context is cancelled.
  abbrev pub too_many : Option GoError → ClientStream → Outcome (Result M) × ClientStream
  too_many (some e) s = (value (err e), s)
  too_many none s = (
    value (err too_many_responses),
    record s { r_err = some too_many_responses; done = true; cancelled = true },
  )

  abbrev pub after_single : M → Option GoError → ClientStream → Outcome (Result M) × ClientStream
  after_single m none s = (panic not_done, s)
  after_single m (some eof) s = (value (ok m), s)
  after_single m (some e) s = (value (err e), s)

  abbrev pub on_second : M → Option StreamMsg × ClientStream → Outcome (Result M) × ClientStream
  on_second m (some msg, s) = too_many s.r_err s
  on_second m (none, s) = after_single m (read_error_if_done s) s

  abbrev pub check_single : Select → M → ClientStream → Outcome (Result M) × ClientStream
  check_single (from_context e) m s = (value (err (translate_context_error e)), s)
  check_single from_channel m s = on_second m (take s)

  abbrev pub on_msg : Select → Result M → ClientStream → Outcome (Result M) × ClientStream
  on_msg second (err e) s = (
    value (
        err (
          status_error (record {
            code = 13;
            message = codes "server sent invalid message: " ++ error_text e;
            details = [];
          }))),
    s,
  )
  on_msg second (ok m) s = if s.resp_stream then (value (ok m), s) else check_single second m s

  abbrev pub on_channel :
      Select → Option StreamMsg × ClientStream → Outcome (Result M) × ClientStream
  on_channel second (none, s) = closed (read_error_if_done s) s
  on_channel second (some msg, s) = on_msg second (wire.decode_msg msg) s

  abbrev pub on_select : Select → Select → ClientStream → Outcome (Result M) × ClientStream
  on_select (from_context e) second s = (value (err (translate_context_error e)), s)
  on_select from_channel second s = on_channel second (take s)

  abbrev pub unless_done :
      Select → Select → Option GoError → ClientStream → Outcome (Result M) × ClientStream
  unless_done first second (some e) s = (value (err e), s)
  unless_done first second none s = on_select first second s

  -- RecvMsg, by what its selects do.
  unfoldable pub recv_msg : Select → Select → ClientStream → Outcome (Result M) × ClientStream
  unfolding take
  recv_msg first second s = unless_done first second (read_error_if_done s) s

module _ {M : Type 0} (wire : Wire M) where
  abbrev pub after_request :
      Outcome (Result (Unit {0}) × Writer)
      → ClientStream
      → Outcome (Result (Unit {0})) × ClientStream
  after_request (panic why) s = (panic why, s)
  after_request (value (ok _, p)) s = (value (ok tt), record s { pipe = p; w_err = none })
  after_request (value (err e, p)) s = (value (err e), record s { pipe = p; w_err = some e })

  unfoldable pub send_msg : M → ClientStream → Outcome (Result (Unit {0})) × ClientStream
  send_msg m s =
      if s.done || is_some s.w_err
      then (value (err eof), s)
      else after_request (wire.write_request m s.pipe) s

-- CloseSend closes the pipe: a writer finds no room in it, and a reader its end behind what was
-- written.
unfoldable pub close_send : ClientStream → ClientStream
close_send s = record s { pipe = record s.pipe { room = some 0 }; closed_send = true }

-- The body of the request, as far as it has been written; it ends cleanly if the pipe is closed, and
-- otherwise with an error that stands for a reader who waits.
unfoldable pub request_body : ClientStream → Reader
request_body s = record {
  input = s.pipe.written;
  fail = if s.closed_send then eof else other "waiting";
}

-- The response that RoundTrip gives: http.Response with its body.
pub record HttpResponse : Type 0 where
  pub response : Response
  pub body : Reader

module _ (url64 raw64 : Base64) (details : DetailsCodec) (media_type : Bytes → Bytes) where
  -- onReady: the headers, or why there are none.
  unfoldable pub on_ready : Option GoError → Option Md → ClientStream → ClientStream
  on_ready e headers s = record s {
    hd = headers;
    hd_err = e;
    store =
        (if is_empty (or_nil headers) || is_empty s.copts.headers
          then s.store
          else set_headers s.copts (or_nil headers) s.store);
  }

  -- A body that no reader is for calls onReady a second time, whose ready.Done() panics.
  abbrev pub on_reader :
      Option (CodecName × Framing) → HttpResponse → ClientStream → Outcome ClientStream
  on_reader none reply s = panic "sync: negative WaitGroup counter"
  on_reader (some chosen) reply s = value (record s { producer = reading reply.body })

  -- Behind the headers: a status that is not OK ends the call.
  abbrev pub on_status : Option Status → HttpResponse → ClientStream → Outcome ClientStream
  on_status (some st) reply s = value (
      finish none (record s {
        tr = record s.tr {
          trailer_code = st.code;
          trailer_message = st.message;
          trailer_details = st.details;
        };
      }))
  on_status none reply s =
      on_reader
        (get_client_stream_reader media_type
          (media_type (get_header reply.response.header (codes "Content-Type"))))
        reply s

  abbrev pub on_headers : Result Md → Peer → HttpResponse → ClientStream → Outcome ClientStream
  on_headers (err e) p reply s = value (finish (some e) (on_ready (some e) none s))
  on_headers (ok md) p reply s =
      on_status (stat_from_response raw64 details reply.response) reply (on_ready none (some md) s)

  -- doHttpCall up to its loop, with the peer that getPeer makes of the connection.
  unfoldable pub start : Result HttpResponse → Peer → ClientStream → Outcome ClientStream
  unfolding on_ready
  start (err e) p s = value (
      finish (some (translate_context_error e))
        (on_ready (some (translate_context_error e)) none s))
  start (ok reply) p s =
      on_headers (as_metadata url64 reply.response.header) p reply
        (record s { store = set_peer s.copts p s.store })
