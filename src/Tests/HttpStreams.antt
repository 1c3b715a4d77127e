-- ===== src/Tests/HttpStreams.antt =====
-- A stream over HTTP with the size-prefixed framing, at concrete values: messages are their bytes, and
-- a trailer is its code, in one byte, and its message, with the same metadata each time.
use grpchan.Base.{
  All, length, Bytes, codes, insert, Md, put_values, Status, GoError, eof, unexpected_eof, other,
  Result, ok, err, ℕ, ◌≤◌, ◌≡◌, refl, sym, ap, true, false, Option, none, some, List, [], ◌∷◌, ◌++◌,
  arith,
}
use grpchan.Stdio.{
  Reader, short_read, read_full, write, int32_bytes, bytes_int32, is_negative_int32,
}
use grpchan.Httpgrpc.Frames.{
  max_message_size, write_frame, write_proto_message, read_size_preface, decode, read_body,
  read_frame, frame_bytes,
}
use grpchan.Httpgrpc.Headers.{Base64, to_headers}
use grpchan.Httpgrpc.Wire.{HttpTrailer, Wire, Codecs, size_prefixed_wire}
use grpchan.Httpgrpc.Wire.Laws.{IsFaithful, IsLossless, size_prefixed_wire-IsFaithful}
use grpchan.Httpgrpc.ServerStream.{
  ServerStream, Handler, returns, sets_header, sends_header, sets_trailer, sends_msg, recvs_msg,
  as_trailer_proto, StreamServing, run_handler, trailer_of,
}
use grpchan.Httpgrpc.ServerStream.Delivery.{sent_by, fresh}
use grpchan.Httpgrpc.ServerStream.Sent.{run_handler-Sent}

abbrev pub some_md : Md
some_md = (codes "k", codes "v" ∷ []) ∷ []

abbrev pub trailer_with : ℕ → Bytes → HttpTrailer
trailer_with c text = record {
  trailer_code = c;
  trailer_message = text;
  trailer_details = [];
  trailer_metadata = some_md;
}

abbrev read_trailer : Bytes → Result HttpTrailer
read_trailer [] = err unexpected_eof
read_trailer (c ∷ text) = ok (trailer_with c text)

abbrev pub bytes_codecs : Codecs Bytes
bytes_codecs = record {
  message_codec = record { marshal = λ m. ok m; unmarshal = λ b. ok b };
  trailer_codec = record {
    marshal = λ t. ok (t.trailer_code ∷ t.trailer_message);
    unmarshal = read_trailer;
  };
  next_value = λ r. (err r.fail, r);
  flushed = ok tt;
}

abbrev pub IsSmall : Bytes → Type 0
IsSmall m = length m ≤ max_message_size

abbrev pub trailer_text : HttpTrailer → Bytes
trailer_text t = t.trailer_code ∷ t.trailer_message

abbrev pub IsPlain : HttpTrailer → Type 0
IsPlain t =
    (t ≡ trailer_with t.trailer_code t.trailer_message)
    × (length (trailer_text t) ≤ max_message_size)

pub message_codec-IsLossless :
    (Fits : Bytes → Type 0) → IsLossless bytes_codecs.message_codec (λ m. m) Fits
message_codec-IsLossless Fits = record { marshals = λ a fits. refl; unmarshals = λ a fits. refl }

trailer_codec-IsLossless :
    (Fits : HttpTrailer → Type 0)
    → ((t : HttpTrailer) → Fits t → t ≡ trailer_with t.trailer_code t.trailer_message)
    → IsLossless bytes_codecs.trailer_codec trailer_text Fits
trailer_codec-IsLossless Fits plain = record {
  marshals = λ t fits. refl;
  unmarshals = λ t fits. ap ok (sym (plain t fits));
}

abbrev pub frames : Wire Bytes
frames = size_prefixed_wire bytes_codecs

-- The same, for a caller.
pub frames_faithful : IsFaithful frames IsSmall IsPlain
frames_faithful =
    size_prefixed_wire-IsFaithful bytes_codecs (λ m. m) trailer_text IsSmall IsPlain
      (message_codec-IsLossless IsSmall) (trailer_codec-IsLossless IsPlain (λ t fits. fits.0))
      (λ m fits. fits) (λ t fits. (omega arith, fits.1))

abbrev plain_base64 : Base64
plain_base64 = record { encode = λ b. b; decode = λ b. some b; decode-encode = λ b. refl }

abbrev pub failure : GoError
failure = other "failure"

abbrev pub internal : Status
internal = record { code = 0; message = codes "failure"; details = [] }

abbrev joined : List Md → Md
joined [] = []
joined (md ∷ mds) = md ++ joined mds

-- Receives twice, sends two messages, and fails with the status OK.
abbrev pub handler : Handler Bytes
handler = recvs_msg (λ r. recvs_msg (λ r'. sends_header some_md (λ x.
    sets_trailer some_md
      (sends_msg (codes "ab") (λ y. sends_msg (codes "c") (λ z. returns (some failure)))))))

abbrev pub serving : StreamServing Bytes
serving = record {
  base64 = plain_base64;
  codecs = λ name. bytes_codecs;
  media_type_of = λ b. b;
  text_of = λ n. [];
  status_from = λ e. internal;
  join_all = joined;
  client_streams = false;
  handler = λ ctx. handler;
}

abbrev pub requests : Reader
requests = record { input = frame_bytes (codes "one") false; fail = eof }

abbrev pub at_start : ServerStream
at_start = fresh serving frames frames_faithful (codes "type") requests

abbrev pub after_run : Option GoError × ServerStream
after_run = run_handler serving frames handler at_start

-- Sends its headers, and then tries to set others.
abbrev sends_twice : Handler Bytes
sends_twice =
    sends_header some_md
      (λ x. sets_header [] (λ y. sends_msg (codes "ab") (λ z. sends_header [] (λ w. returns none))))

run_handler-Sent_example :
    ((run_handler serving frames sends_twice at_start).1.headers_sent ≡ true)
    × ((run_handler serving frames sends_twice at_start).1.response_header
        ≡ to_headers plain_base64 some_md at_start.response_header [])
run_handler-Sent_example =
    run_handler-Sent serving frames sends_twice at_start
      (to_headers plain_base64 some_md at_start.response_header []) refl

-- What the handler sends.
pub sent_by-handler : sent_by serving frames handler at_start ≡ codes "ab" ∷ codes "c" ∷ []
unfolding sent_by
sent_by-handler = refl

pub after_run-tr : after_run.1.tr ≡ some_md ∷ []
unfolding run_handler size_prefixed_wire read_frame read_size_preface read_full int32_bytes
    bytes_int32 is_negative_int32 read_body decode short_read write_proto_message write_frame write
after_run-tr = refl

pub trailer_of-handler :
    trailer_of serving after_run.0 after_run.1.tr ≡ trailer_with 13 (codes "failure")
unfolding trailer_of run_handler as_trailer_proto put_values insert size_prefixed_wire read_frame
    read_size_preface read_full int32_bytes bytes_int32 is_negative_int32 read_body decode
    short_read write_proto_message write_frame write
trailer_of-handler = refl

pub handler_messages : All IsSmall (sent_by serving frames handler at_start)
handler_messages = rw sent_by-handler (omega arith, (omega arith, tt))

pub handler_trailer : IsPlain (trailer_of serving after_run.0 after_run.1.tr)
handler_trailer = rw trailer_of-handler (refl, omega arith)
