-- ===== src/Httpgrpc/Events.antt =====
-- httpgrpc/io.go: the stream framings of the JSON protocol. Responses are server-sent events, requests
-- are JSON values one behind the other, which encoding/json, a parameter, takes apart.
pub mod RoundTrip
use grpchan.Base.{if◌then◌else◌, Bytes, codes, ◌=?◌, Result, ok, err, Bool, true, false, []}
use grpchan.Stdio.{Reader, Writer, write}
use grpchan.Sse.{Event, decode, encode}
use grpchan.Registry.{Outcome, value, panic}
use grpchan.Httpgrpc.Frames.{Codec, StreamMsg}

abbrev pub trailer_kind : Bytes
trailer_kind = codes "trailer"

-- Encode and then Flush, whose result is given.
abbrev pub then_flush : Result (Unit {0}) → Result (Unit {0}) × Writer → Result (Unit {0}) × Writer
then_flush flushed (ok _, w) = (flushed, w)
then_flush flushed (err e, w) = (err e, w)

-- The event of a message, or of the trailer.
abbrev pub event_of : Bytes → Bool → Event
event_of b end = record { kind = if end then trailer_kind else []; payload = b }

-- json.Decoder.Decode into a json.RawMessage: the next value of the input, and what follows it.
abbrev pub NextValue : Type 0
NextValue = Reader → Result Bytes × Reader

abbrev pub raw_message : Result Bytes × Reader → Result StreamMsg × Reader
raw_message (ok b, r) = (ok (record { payload = b; is_trailer = false }), r)
raw_message (err e, r) = (err e, r)

-- The function that newJSONReader returns.
unfoldable pub read_json : NextValue → Reader → Result StreamMsg × Reader
read_json next r = raw_message (next r)

abbrev pub event_message : Result Event × Reader → Result StreamMsg × Reader
event_message (ok e, r) =
    (ok (record { payload = e.payload; is_trailer = e.kind =? trailer_kind }), r)
event_message (err e, r) = (err e, r)

-- The function that newSSEReader returns.
unfoldable pub read_event : Reader → Result StreamMsg × Reader
read_event r = event_message (decode r)

module _ {M : Type 0} (codec : Codec M) where
  -- The function that newJSONWriter returns.
  unfoldable pub write_json : M → Bool → Writer → Outcome (Result (Unit {0}) × Writer)
  write_json m true w = panic "trailers are not supported for JSON"
  write_json m false w = elim (codec.marshal m) [
    | err e ↦ value (err e, w)
    | ok b ↦ value (write b w)
  ]

  abbrev pub write_marshalled :
      Result (Unit {0}) → Bool → Result Bytes → Writer → Result (Unit {0}) × Writer
  write_marshalled flushed end (err e) w = (err e, w)
  write_marshalled flushed end (ok b) w = then_flush flushed (encode (event_of b end) w)

  -- The function that newSSEWriter returns.
  unfoldable pub write_event : Result (Unit {0}) → M → Bool → Writer → Result (Unit {0}) × Writer
  write_event flushed m end w = write_marshalled flushed end (codec.marshal m) w
