-- ===== src/Httpgrpc/Method.antt =====
-- httpgrpc/server.go: handleMethod, which serves a unary method over HTTP. The peer that it puts into
-- the context of the handler is left out.
pub mod Failures
use grpchan.Base.{
  ◌==◌, if◌then◌else◌, length, is_empty, Bytes, codes, ◌=?◌, Md, Status, GoError, status_error,
  Result, ok, err, ℕ, Bool, not, ◌&&◌, ◌||◌, Option, none, some, [], ◌∷◌, ◌++◌,
}
use grpchan.Strconv.{print_decimal}
use grpchan.Internal.TransportStream.{UnaryStream, new, entries, get_headers, get_trailers}
use grpchan.Httpgrpc.Frames.{Codec}
use grpchan.Httpgrpc.Codes.{http_status_from_code}
use grpchan.Httpgrpc.Protocol.{CodecName, get_codec_for_server_unary_response}
use grpchan.Httpgrpc.Headers.{Base64, to_headers}
use grpchan.Httpgrpc.Status.{DetailsCodec, set_header, get_header, error_status, status_headers}
use grpchan.Httpgrpc.Timeout.{context_from_headers}

-- What handleMethod reads of an http.Request: Method, Header, what reading the body gives, and whether
-- the request's context has ended when an error is rendered.
pub record Request : Type 0 where
  pub verb : Bytes
  pub request_header : Md
  pub request_body : Result Bytes
  pub request_ended : Bool

-- What an http.ResponseWriter was given.
pub record Reply : Type 0 where
  pub reply_status : ℕ
  pub reply_header : Md
  pub reply_body : Bytes

-- An errFunc, less the ResponseWriter's state other than its headers.
abbrev pub ErrorRenderer : Type 0
ErrorRenderer = Bool → Status → Md → Reply

-- The captured variables of handleMethod, and the packages that it calls. Messages M include nil.
pub record Serving (M : Type 0) : Type 0 where
  -- base64.URLEncoding and base64.RawURLEncoding
  pub url_base64 : Base64
  pub raw_base64 : Base64
  pub codec_of : CodecName → Codec M
  pub details_of : CodecName → DetailsCodec
  -- mime.ParseMediaType
  pub media_type : Bytes → Bytes
  -- status.FromError and codes.Code.String
  pub from_error : GoError → Status
  pub code_text : ℕ → Bytes
  -- err.Error()
  pub error_text : GoError → Bytes
  -- http.StatusText
  pub status_text : ℕ → Bytes
  pub err_func : Option ErrorRenderer
  pub full_method : Bytes
  -- desc.Handler with its server and interceptor, on the incoming metadata and timeout
  pub run_handler : Md × Option ℕ → Result M → UnaryStream → Result M × UnaryStream

-- http.Error; a Content-Length, which it would remove, is never set here.
unfoldable pub http_error : Bytes → ℕ → Md → Reply
http_error msg code h = record {
  reply_status = code;
  reply_header =
      set_header (set_header h (codes "Content-Type") (codes "text/plain; charset=utf-8"))
        (codes "X-Content-Type-Options") (codes "nosniff");
  reply_body = msg ++ b'\n' ∷ [];
}

-- With the texts of package net/http.
unfoldable pub write_error : (ℕ → Bytes) → ℕ → Md → Reply
unfolding http_error
write_error status_text code h =
    http_error
      (if is_empty (status_text code)
        then (if code == 499 then codes "Client Closed Request" else codes "Unknown")
        else status_text code)
      code h

module _ {M : Type 0} (srv : Serving M) where
  unfoldable pub default_error_renderer : ErrorRenderer
  unfolding http_error
  default_error_renderer ended st h =
      let code = http_status_from_code st.code in
      if (st.code == 1 || st.code == 4) && ended
      then http_error (codes "Client Closed Request") 499 h
      else http_error
          (if is_empty (srv.status_text code) then srv.code_text st.code else srv.status_text code)
          code h

  -- A nil errFunc stands for the default.
  abbrev pub renderer : Option ErrorRenderer → ErrorRenderer
  renderer none = default_error_renderer
  renderer (some render) = render

  -- The decoding function that the handler is given.
  abbrev pub decoded : Result M → Result M
  decoded (ok m) = ok m
  decoded (err e) =
      err (status_error (record { code = 3; message = srv.error_text e; details = [] }))

  abbrev pub write_marshalled : Bytes → Md → Result Bytes → Reply
  write_marshalled content_type h (err e) = write_error srv.status_text 500 h
  write_marshalled content_type h (ok b) = record {
    reply_status = 200;
    reply_header =
        set_header (set_header h (codes "Content-Type") content_type) (codes "Content-Length")
          (print_decimal (length b));
    reply_body = b;
  }

  -- Behind the handler, with its headers and trailers in `h`.
  unfoldable pub answer : CodecName → Request → Md → Result M → Reply
  unfolding write_error
  answer name req h (ok m) =
      write_marshalled (get_header req.request_header (codes "Content-Type")) h
        ((srv.codec_of name).marshal m)
  answer name req h (err e) =
      let st = srv.from_error e in
      renderer srv.err_func req.request_ended (error_status srv.raw_base64 (srv.details_of name) st)
        (status_headers srv.raw_base64 (srv.details_of name) st h)

  -- The headers and trailers that a handler left, as HTTP headers.
  abbrev pub collected : UnaryStream → Md
  collected sts =
      to_headers srv.url_base64 (entries (get_trailers sts))
        (to_headers srv.url_base64 (entries (get_headers sts)) [] []) (codes "X-GRPC-Trailer-")

  abbrev pub after_handler : CodecName → Request → Result M × UnaryStream → Reply
  after_handler name req (r, sts) = answer name req (collected sts) r

  abbrev pub with_body : CodecName → Request → Md × Option ℕ → Result Bytes → Reply
  with_body name req ctx (err e) = write_error srv.status_text 499 []
  with_body name req ctx (ok b) =
      after_handler name req
        (srv.run_handler ctx (decoded ((srv.codec_of name).unmarshal b)) (new srv.full_method))

  abbrev pub with_context : CodecName → Request → Result (Md × Option ℕ) → Reply
  with_context name req (err e) = write_error srv.status_text 400 []
  with_context name req (ok ctx) = with_body name req ctx req.request_body

  abbrev pub with_codec : Request → Option CodecName → Reply
  with_codec req none = write_error srv.status_text 415 []
  with_codec req (some name) =
      with_context name req (context_from_headers srv.url_base64 req.request_header)

  -- The handler that handleMethod returns.
  unfoldable pub handle_method : Request → Reply
  handle_method req =
      if not (req.verb =? codes "POST")
      then write_error srv.status_text 405 (set_header [] (codes "Allow") (codes "POST"))
      else with_codec req (
          get_codec_for_server_unary_response srv.media_type
            (get_header req.request_header (codes "Content-Type")))
