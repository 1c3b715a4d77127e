-- ===== src/Httpgrpc/ServerStream.antt =====
-- httpgrpc/server.go: serverStream, the handler's end of a stream over HTTP, and handleStream. Each
-- method holds its mutex for its whole body. The peer in the handler's context is left out.
pub mod Handlers
pub mod Sent
pub mod Delivery
pub mod Receiving
use grpchan.Base.{
  ◌==◌, if◌then◌else◌, Bytes, codes, ◌=?◌, Md, put_values, Status, GoError, eof, status_error,
  other, Result, ok, err, ℕ, suc, Bool, true, false, not, ◌&&◌, Option, none, some, List, [], ◌∷◌,
  ◌++◌,
}
use grpchan.Stdio.{Reader, Writer}
use grpchan.Httpgrpc.Frames.{StreamMsg}
use grpchan.Httpgrpc.Protocol.{CodecName, ServerStreaming, get_server_stream_reader_and_writer}
use grpchan.Httpgrpc.Headers.{Base64, to_headers}
use grpchan.Httpgrpc.Status.{get_header, set_header as set_http_header}
use grpchan.Httpgrpc.Timeout.{context_from_headers}
use grpchan.Httpgrpc.Wire.{HttpTrailer, Wire, Codecs, wire_of}
use grpchan.Httpgrpc.Method.{Reply, write_error}

-- The fields of serverStream that change. `input` is what is still to come of the request's body,
-- `output` what was written of the response's.
pub record ServerStream : Type 0 where
  pub input : Reader
  pub recvd : ℕ
  pub output : Writer
  pub response_header : Md
  pub headers_sent : Bool
  pub write_failed : Bool
  pub tr : List Md

module _ (b64 : Base64) where
  unfoldable pub set_header_with : Md → Bool → ServerStream → Result (Unit {0}) × ServerStream
  set_header_with md send s = if s.headers_sent then (err (other "headers already sent"), s) else (
    ok tt,
    record s { response_header = to_headers b64 md s.response_header []; headers_sent = send },
  )

  unfoldable pub set_header : Md → ServerStream → Result (Unit {0}) × ServerStream
  unfolding set_header_with
  set_header md s = set_header_with md false s

  unfoldable pub send_header : Md → ServerStream → Result (Unit {0}) × ServerStream
  unfolding set_header_with
  send_header md s = set_header_with md true s

unfoldable pub set_trailer : Md → ServerStream → ServerStream
set_trailer md s = record s { tr = s.tr ++ md ∷ [] }

module _ {M : Type 0} (wire : Wire M) where
  abbrev pub after_send :
      Result (Unit {0}) × Writer → ServerStream → Result (Unit {0}) × ServerStream
  after_send (ok _, out) s = (ok tt, record s { output = out })
  after_send (err e, out) s = (err e, record s { output = out; write_failed = true })

  unfoldable pub send_msg : M → ServerStream → Result (Unit {0}) × ServerStream
  send_msg m s =
      if s.write_failed
      then (err eof, s)
      else after_send (wire.write_response m s.output) (record s { headers_sent = true })

  abbrev pub too_many_requests : GoError
  too_many_requests = status_error (record {
    code = 3;
    message = codes "method accepts 1 request message but client sent >1";
    details = [];
  })

  -- The second read of RecvMsg, where one request is expected.
  abbrev pub check_last : M → Result StreamMsg × Reader → ServerStream → Result M × ServerStream
  check_last m (err eof, r) s = (ok m, record s { input = r })
  check_last m (_, r) s = (err too_many_requests, record s { input = r })

  -- client_streams is the field respStream, which handleStream sets from desc.ClientStreams.
  abbrev pub on_decoded : Bool → Result M → ServerStream → Result M × ServerStream
  on_decoded client_streams (err e) s = (err e, s)
  on_decoded true (ok m) s = (ok m, s)
  on_decoded false (ok m) s = check_last m (wire.read_request s.input) s

  abbrev pub on_request : Bool → Result StreamMsg × Reader → ServerStream → Result M × ServerStream
  on_request client_streams (err e, r) s = (err e, record s { input = r })
  on_request client_streams (ok msg, r) s =
      on_decoded client_streams (wire.decode_msg msg) (record s { input = r })

  unfoldable pub recv_msg : Bool → ServerStream → Result M × ServerStream
  recv_msg client_streams s =
      if not client_streams && not (s.recvd == 0)
      then (err eof, s)
      else on_request client_streams (wire.read_request s.input) (record s { recvd = suc s.recvd })

-- A handler: what it calls on its stream, each call depending on the results before it, and the error
-- that it returns.
pub data Handler (M : Type 0) : Type 0 where
  returns : Option GoError → Handler M
  sets_header sends_header : Md → (Result (Unit {0}) → Handler M) → Handler M
  sets_trailer : Md → Handler M → Handler M
  sends_msg : M → (Result (Unit {0}) → Handler M) → Handler M
  recvs_msg : (Result M → Handler M) → Handler M

unfoldable pub as_trailer_proto : Md → Md
as_trailer_proto md = put_values [] md

-- What handleStream captures, and the packages that it calls.
pub record StreamServing (M : Type 0) : Type 0 where
  pub base64 : Base64
  pub codecs : CodecName → Codecs M
  -- mime.ParseMediaType, http.StatusText, status.FromError, and metadata.Join of a list
  pub media_type_of : Bytes → Bytes
  pub text_of : ℕ → Bytes
  pub status_from : GoError → Status
  pub join_all : List Md → Md
  pub client_streams : Bool
  -- the handler, inside the interceptor if there is one, by its incoming metadata and timeout
  pub handler : Md × Option ℕ → Handler M

-- An http.Request with a body that is read in parts.
pub record StreamRequest : Type 0 where
  pub stream_verb : Bytes
  pub stream_header : Md
  pub stream_body : Reader

module _ {M : Type 0} (srv : StreamServing M) where
  -- The handler's run on its stream.
  unfoldable pub run_handler : Wire M → Handler M → ServerStream → Option GoError × ServerStream
  unfolding set_header send_header set_trailer send_msg recv_msg
  run_handler wire (returns e) s = (e, s)
  run_handler wire (sets_header md next) s =
      let (r, s') = set_header srv.base64 md s in run_handler wire (next r) s'
  run_handler wire (sends_header md next) s =
      let (r, s') = send_header srv.base64 md s in run_handler wire (next r) s'
  run_handler wire (sets_trailer md next) s = run_handler wire next (set_trailer md s)
  run_handler wire (sends_msg m next) s =
      let (r, s') = send_msg wire m s in run_handler wire (next r) s'
  run_handler wire (recvs_msg next) s =
      let (r, s') = recv_msg wire srv.client_streams s in run_handler wire (next r) s'

  -- A handler that failed does not answer OK.
  abbrev pub stream_status : Option GoError → Status
  stream_status none = record { code = 0; message = codes "OK"; details = [] }
  stream_status (some e) =
      let st = srv.status_from e in if st.code == 0 then record st { code = 13 } else st

  unfoldable pub trailer_of : Option GoError → List Md → HttpTrailer
  trailer_of e tr =
      let st = stream_status e in
      record {
        trailer_code = st.code;
        trailer_message = st.message;
        trailer_details = st.details;
        trailer_metadata = as_trailer_proto (srv.join_all tr);
      }

  -- Behind the handler: the trailer, whose write error is ignored.
  unfoldable pub finish_stream : Wire M → Option GoError × ServerStream → ServerStream
  finish_stream wire (e, s) =
      if s.write_failed
      then s
      else record s { output = (wire.write_trailer (trailer_of e s.tr) s.output).1 }

  abbrev pub new_stream : Bytes → Reader → Writer → ServerStream
  new_stream content_type body out = record {
    input = body;
    recvd = 0;
    output = out;
    response_header = set_http_header [] (codes "Content-Type") content_type;
    headers_sent = false;
    write_failed = false;
    tr = [];
  }

  abbrev pub reply_of : ServerStream → Reply
  reply_of s = record {
    reply_status = 200;
    reply_header = s.response_header;
    reply_body = s.output.written;
  }

  abbrev pub serve_stream :
      StreamRequest → Writer → ServerStreaming → Result (Md × Option ℕ) → Reply
  serve_stream req out io (err e) = write_error srv.text_of 400 []
  serve_stream req out io (ok ctx) =
      let wire = wire_of srv.codecs io.stream_codec in
      reply_of (
        finish_stream wire
          (run_handler wire (srv.handler ctx) (new_stream io.content_type req.stream_body out)))

  abbrev pub with_streaming : StreamRequest → Writer → Option ServerStreaming → Reply
  with_streaming req out none = write_error srv.text_of 415 []
  with_streaming req out (some io) =
      serve_stream req out io (context_from_headers srv.base64 req.stream_header)

  -- The handler that handleStream returns, on a connection `out`.
  unfoldable pub handle_stream : StreamRequest → Writer → Reply
  unfolding run_handler finish_stream
  handle_stream req out =
      if not (req.stream_verb =? codes "POST")
      then write_error srv.text_of 405 (set_http_header [] (codes "Allow") (codes "POST"))
      else with_streaming req out (
          get_server_stream_reader_and_writer srv.media_type_of
            (get_header req.stream_header (codes "Content-Type")))
