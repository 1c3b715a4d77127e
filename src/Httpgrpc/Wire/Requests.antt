-- ===== src/Httpgrpc/Wire/Requests.antt =====
-- What the requests of a stream rely on of their framing, and that both framings keep it.
use grpchan.Base.{
  length, Bytes, GoError, eof, ok, err, ◌≤◌, ◌≡◌, refl, ap, ◌∙◌, false, none, [], ◌++◌,
}
use grpchan.Stdio.{short_read, read_full, Writer, write, write-room_none}
use grpchan.Registry.{value}
use grpchan.Httpgrpc.Frames.{
  max_message_size, check_preface, read_size_preface, StreamMsg, decode, read_sized, read_frame,
  frame_bytes,
}
use grpchan.Httpgrpc.Frames.RoundTrip.{read_frame-frame_bytes}
use grpchan.Httpgrpc.Events.{read_json, write_json}
use grpchan.Httpgrpc.Wire.{Wire, Codecs, size_prefixed_wire, event_wire}
use grpchan.Httpgrpc.Wire.Laws.{IsLossless, write_proto_message-frame_bytes}

-- Requests are read back as they were written, one behind the other, and the end of the body is one of
-- the messages.
pub record Carries {M : Type 0} (w : Wire M) (Fits : M → Type 0) : Type 0 where
  pub request_bytes : M → Bytes
  pub request_as : M → StreamMsg
  pub writes_request :
      (m : M) (out : Writer)
      → Fits m
      → out.room ≡ none
      → w.write_request m out
        ≡ value (ok tt, record out { written = out.written ++ request_bytes m })
  pub reads_request :
      (m : M) (rest : Bytes) (e : GoError)
      → Fits m
      → w.read_request (record { input = request_bytes m ++ rest; fail = e })
        ≡ (ok (request_as m), record { input = rest; fail = e })
  pub reads_end :
      w.read_request (record { input = []; fail = eof })
      ≡ (err eof, record { input = []; fail = eof })
  pub decodes_request : (m : M) → Fits m → w.decode_msg (request_as m) ≡ ok m

module _ {M : Type 0} (c : Codecs M) (bytes_of : M → Bytes) (Fits : M → Type 0)
    (messages : IsLossless c.message_codec bytes_of Fits) where
  -- With a lossless codec, the size-prefixed framing carries requests that stay within the size limit.
  pub size_prefixed_wire-Carries :
      ((m : M) → Fits m → length (bytes_of m) ≤ max_message_size)
      → Carries (size_prefixed_wire c) Fits
  unfolding size_prefixed_wire read_frame read_size_preface read_full short_read check_preface
      read_sized decode
  size_prefixed_wire-Carries small = record {
    request_bytes = λ m. frame_bytes (bytes_of m) false;
    request_as = λ m. record { payload = bytes_of m; is_trailer = false };
    writes_request = λ m out fits open_ended. ap value (
        write_proto_message-frame_bytes c.message_codec bytes_of Fits messages m false out fits
          (small m fits) open_ended);
    reads_request =
        λ m rest e fits. read_frame-frame_bytes (bytes_of m) rest false e (small m fits) (λ x. cc);
    reads_end = refl;
    decodes_request = λ m fits. messages.unmarshals m fits;
  }

  write_json-marshals :
      (m : M) (b : Bytes) (out : Writer)
      → c.message_codec.marshal m ≡ ok b
      → write_json c.message_codec m false out ≡ value (write b out)
  unfolding write_json
  write_json-marshals m b out h = rw (h, write_json) refl

  -- With a lossless codec, JSON carries requests, if the decoder of package json takes each value that
  -- fits off the input, and finds the end.
  pub event_wire-Carries :
      ((m : M) (rest : Bytes) (e : GoError)
        → Fits m
        → c.next_value (record { input = bytes_of m ++ rest; fail = e })
          ≡ (ok (bytes_of m), record { input = rest; fail = e }))
      → c.next_value (record { input = []; fail = eof })
        ≡ (err eof, record { input = []; fail = eof })
      → Carries (event_wire c) Fits
  unfolding event_wire read_json decode
  event_wire-Carries takes ends = record {
    request_bytes = bytes_of;
    request_as = λ m. record { payload = bytes_of m; is_trailer = false };
    writes_request = λ m out fits open_ended.
        write_json-marshals m (bytes_of m) out (messages.marshals m fits)
        ∙ ap value (write-room_none (bytes_of m) out open_ended);
    reads_request = λ m rest e fits. rw (takes m rest e fits) refl;
    reads_end = rw ends refl;
    decodes_request = λ m fits. messages.unmarshals m fits;
  }
