-- ===== src/Httpgrpc/Wire/Laws.antt =====
-- What a stream relies on of its framing, and that both framings keep it.
use grpchan.Base.{
  length, Bytes, GoError, Result, ok, ◌≤◌, ◌<◌, ◌≡◌, refl, ◌∙◌, Bool, true, false, none, ◌++◌,
  arith,
}
use grpchan.Stdio.{Writer, write-room_none}
use grpchan.Sse.{encoded, encode}
use grpchan.Sse.RoundTrip.{IsLine}
use grpchan.Httpgrpc.Frames.{
  Codec, max_message_size, write_proto_message, StreamMsg, decode, frame_bytes,
}
use grpchan.Httpgrpc.Frames.RoundTrip.{write_frame-frame_bytes, read_frame-frame_bytes}
use grpchan.Httpgrpc.Events.{event_of, write_event}
use grpchan.Httpgrpc.Events.RoundTrip.{as_message, read_event-encoded}
use grpchan.Httpgrpc.Wire.{HttpTrailer, Wire, Codecs, size_prefixed_wire, event_wire}

-- Responses are read back as they were written: each message or trailer that fits has its bytes, which
-- a writer with no limit takes whole, and which the reader takes off, whatever follows.
pub record IsFaithful {M : Type 0} (w : Wire M) (Fits : M → Type 0)
    (FitsTrailer : HttpTrailer → Type 0) : Type 0 where
  pub message_bytes : M → Bytes
  pub trailer_bytes : HttpTrailer → Bytes
  pub message_as : M → StreamMsg
  pub trailer_as : HttpTrailer → StreamMsg
  pub writes_response :
      (m : M) (out : Writer)
      → Fits m
      → out.room ≡ none
      → w.write_response m out ≡ (ok tt, record out { written = out.written ++ message_bytes m })
  pub writes_trailer :
      (t : HttpTrailer) (out : Writer)
      → FitsTrailer t
      → out.room ≡ none
      → w.write_trailer t out ≡ (ok tt, record out { written = out.written ++ trailer_bytes t })
  pub reads_message :
      (m : M) (rest : Bytes) (e : GoError)
      → Fits m
      → w.read_response (record { input = message_bytes m ++ rest; fail = e })
        ≡ (ok (message_as m), record { input = rest; fail = e })
  pub reads_trailer :
      (t : HttpTrailer) (rest : Bytes) (e : GoError)
      → FitsTrailer t
      → w.read_response (record { input = trailer_bytes t ++ rest; fail = e })
        ≡ (ok (trailer_as t), record { input = rest; fail = e })
  pub message_kind : (m : M) → (message_as m).is_trailer ≡ false
  pub trailer_kind : (t : HttpTrailer) → (trailer_as t).is_trailer ≡ true
  pub decodes_message : (m : M) → Fits m → w.decode_msg (message_as m) ≡ ok m
  pub decodes_trailer : (t : HttpTrailer) → FitsTrailer t → w.decode_trailer (trailer_as t) ≡ ok t

-- A codec that marshals every value that fits, to the given bytes, and reads it back.
pub record IsLossless {A : Type 0} (codec : Codec A) (bytes_of : A → Bytes) (Fits : A → Type 0)
    : Type 0 where
  pub marshals : (a : A) → Fits a → codec.marshal a ≡ ok (bytes_of a)
  pub unmarshals : (a : A) → Fits a → codec.unmarshal (bytes_of a) ≡ ok a

module _ {A : Type 0} (codec : Codec A) (bytes_of : A → Bytes) (Fits : A → Type 0)
    (lossless : IsLossless codec bytes_of Fits) where
  pub write_proto_message-frame_bytes :
      (a : A) (end : Bool) (out : Writer)
      → Fits a
      → length (bytes_of a) ≤ max_message_size
      → out.room ≡ none
      → write_proto_message codec a end out
        ≡ (ok tt, record out { written = out.written ++ frame_bytes (bytes_of a) end })
  unfolding write_proto_message
  write_proto_message-frame_bytes a end out fits small open_ended =
      rw (lossless.marshals a fits, write_proto_message)
        (write_frame-frame_bytes (bytes_of a) end out open_ended (omega arith))

  decode-bytes_of :
      (a : A) (end : Bool)
      → Fits a
      → decode codec (record { payload = bytes_of a; is_trailer = end }) ≡ ok a
  unfolding decode
  decode-bytes_of a end fits = lossless.unmarshals a fits

  write_event-event_of :
      (flushed : Result (Unit {0})) (a : A) (end : Bool) (out : Writer)
      → Fits a
      → out.room ≡ none
      → write_event codec flushed a end out
        ≡ (flushed, record out { written = out.written ++ encoded (event_of (bytes_of a) end) })
  unfolding write_event encode
  write_event-event_of flushed a end out fits open_ended =
      rw
        (
          lossless.marshals a fits,
          write-room_none (encoded (event_of (bytes_of a) end)) out open_ended,
        )
        refl

module _ {M : Type 0} (c : Codecs M) (message_bytes_of : M → Bytes)
    (trailer_bytes_of : HttpTrailer → Bytes) (Fits : M → Type 0)
    (FitsTrailer : HttpTrailer → Type 0)
    (messages : IsLossless c.message_codec message_bytes_of Fits)
    (trailers : IsLossless c.trailer_codec trailer_bytes_of FitsTrailer) where
  -- With lossless codecs, the size-prefixed framing is faithful: each response that fits is written as
  -- its bytes and read back off them, if what fits stays within the size limit and no trailer is
  -- empty.
  pub size_prefixed_wire-IsFaithful :
      ((m : M) → Fits m → length (message_bytes_of m) ≤ max_message_size)
      → ((t : HttpTrailer)
          → FitsTrailer t
          → (0 < length (trailer_bytes_of t)) × (length (trailer_bytes_of t) ≤ max_message_size))
      → IsFaithful (size_prefixed_wire c) Fits FitsTrailer
  unfolding size_prefixed_wire
  size_prefixed_wire-IsFaithful small small_trailer = record {
    message_bytes = λ m. frame_bytes (message_bytes_of m) false;
    trailer_bytes = λ t. frame_bytes (trailer_bytes_of t) true;
    message_as = λ m. record { payload = message_bytes_of m; is_trailer = false };
    trailer_as = λ t. record { payload = trailer_bytes_of t; is_trailer = true };
    writes_response = λ m out fits open_ended.
        write_proto_message-frame_bytes c.message_codec message_bytes_of Fits messages m false out
          fits (small m fits) open_ended;
    writes_trailer = λ t out fits open_ended.
        write_proto_message-frame_bytes c.trailer_codec trailer_bytes_of FitsTrailer trailers t true
          out fits (small_trailer t fits).1 open_ended;
    reads_message = λ m rest e fits.
        read_frame-frame_bytes (message_bytes_of m) rest false e (small m fits) (λ x. cc);
    reads_trailer = λ t rest e fits.
        read_frame-frame_bytes (trailer_bytes_of t) rest true e (small_trailer t fits).1
          (λ x. (small_trailer t fits).0);
    message_kind = λ m. refl;
    trailer_kind = λ t. refl;
    decodes_message =
        λ m fits. decode-bytes_of c.message_codec message_bytes_of Fits messages m false fits;
    decodes_trailer =
        λ t fits. decode-bytes_of c.trailer_codec trailer_bytes_of FitsTrailer trailers t true fits;
  }

  -- With lossless codecs, the framing in server-sent events is faithful, if what fits is marshalled to
  -- one line and flushing succeeds.
  pub event_wire-IsFaithful :
      c.flushed ≡ ok tt
      → ((m : M) → Fits m → IsLine (message_bytes_of m))
      → ((t : HttpTrailer) → FitsTrailer t → IsLine (trailer_bytes_of t))
      → IsFaithful (event_wire c) Fits FitsTrailer
  unfolding event_wire
  event_wire-IsFaithful flushes line line_trailer = record {
    message_bytes = λ m. encoded (event_of (message_bytes_of m) false);
    trailer_bytes = λ t. encoded (event_of (trailer_bytes_of t) true);
    message_as = λ m. as_message (message_bytes_of m, false);
    trailer_as = λ t. as_message (trailer_bytes_of t, true);
    writes_response = λ m out fits open_ended.
        write_event-event_of c.message_codec message_bytes_of Fits messages c.flushed m false out
          fits open_ended
        ∙ rw flushes refl;
    writes_trailer = λ t out fits open_ended.
        write_event-event_of c.trailer_codec trailer_bytes_of FitsTrailer trailers c.flushed t true
          out fits open_ended
        ∙ rw flushes refl;
    reads_message =
        λ m rest e fits. read_event-encoded (message_bytes_of m) false rest e (line m fits);
    reads_trailer =
        λ t rest e fits. read_event-encoded (trailer_bytes_of t) true rest e (line_trailer t fits);
    message_kind = λ m. refl;
    trailer_kind = λ t. refl;
    decodes_message =
        λ m fits. decode-bytes_of c.message_codec message_bytes_of Fits messages m false fits;
    decodes_trailer =
        λ t fits. decode-bytes_of c.trailer_codec trailer_bytes_of FitsTrailer trailers t true fits;
  }
