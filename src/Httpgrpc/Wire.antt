-- ===== src/Httpgrpc/Wire.antt =====
-- httpgrpc/protocol_versions.go: the readers and writers of a streaming call, for each codec, as one
-- interface that the two ends of a stream use.
pub mod Laws
pub mod Progress
pub mod Requests
use grpchan.Base.{Bytes, Md, Result, ℕ, true, false, List}
use grpchan.Stdio.{Reader, Writer}
use grpchan.Registry.{Outcome, value}
use grpchan.Httpgrpc.Frames.{Codec, write_proto_message, StreamMsg, decode, read_frame}
use grpchan.Httpgrpc.Events.{NextValue, read_json, read_event, write_json, write_event}
use grpchan.Httpgrpc.Protocol.{CodecName, proto_codec, json_codec}

-- HttpTrailer of httpgrpc.proto; its map of TrailerValues is metadata.
pub record HttpTrailer : Type 0 where
  pub trailer_code : ℕ
  pub trailer_message : Bytes
  pub trailer_details : List Bytes
  pub trailer_metadata : Md

-- The requests of a streaming call, which carry messages, and its responses, which carry messages and
-- at the end a trailer. What Decode makes of the bytes of a message depends on the target's type.
pub record Wire (M : Type 0) : Type 0 where
  pub write_request : M → Writer → Outcome (Result (Unit {0}) × Writer)
  pub read_request : Reader → Result StreamMsg × Reader
  pub write_response : M → Writer → Result (Unit {0}) × Writer
  pub write_trailer : HttpTrailer → Writer → Result (Unit {0}) × Writer
  pub read_response : Reader → Result StreamMsg × Reader
  pub decode_msg : StreamMsg → Result M
  pub decode_trailer : StreamMsg → Result HttpTrailer

-- The registered codec of a name, for messages and for trailers, the reader of encoding/json, and
-- what Flush returns.
pub record Codecs (M : Type 0) : Type 0 where
  pub message_codec : Codec M
  pub trailer_codec : Codec HttpTrailer
  pub next_value : NextValue
  pub flushed : Result (Unit {0})

module _ {M : Type 0} (c : Codecs M) where
  unfoldable pub size_prefixed_wire : Wire M
  size_prefixed_wire = record {
    write_request = λ m w. value (write_proto_message c.message_codec m false w);
    read_request = read_frame;
    write_response = λ m w. write_proto_message c.message_codec m false w;
    write_trailer = λ t w. write_proto_message c.trailer_codec t true w;
    read_response = read_frame;
    decode_msg = decode c.message_codec;
    decode_trailer = decode c.trailer_codec;
  }

  unfoldable pub event_wire : Wire M
  event_wire = record {
    write_request = λ m w. write_json c.message_codec m false w;
    read_request = read_json c.next_value;
    write_response = λ m w. write_event c.message_codec c.flushed m false w;
    write_trailer = λ t w. write_event c.trailer_codec c.flushed t true w;
    read_response = read_event;
    decode_msg = decode c.message_codec;
    decode_trailer = decode c.trailer_codec;
  }

-- What a codec's name selects, at both ends.
unfoldable pub wire_of : {M : Type 0} → (CodecName → Codecs M) → CodecName → Wire M
wire_of codecs proto_codec = size_prefixed_wire (codecs proto_codec)
wire_of codecs json_codec = event_wire (codecs json_codec)
