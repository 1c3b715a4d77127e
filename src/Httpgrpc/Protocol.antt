-- ===== src/Httpgrpc/Protocol.antt =====
-- httpgrpc/protocol_versions.go: the content types and the codec and framing that they select. The
-- media type is what mime.ParseMediaType finds in a header, a parameter; codecs are named, a framing
-- says how a stream is cut into messages.
use grpchan.Base.{if◌then◌else◌, Bytes, codes, ◌=?◌, ◌≡◌, refl, Option, none, some}

pub data CodecName : Type 0 where
  proto_codec json_codec : CodecName

pub data Framing : Type 0 where
  size_prefixed json_values server_sent_events : Framing

abbrev pub unary_rpc_content_type_v1 : Bytes
unary_rpc_content_type_v1 = codes "application/x-protobuf"

abbrev pub stream_rpc_content_type_v1 : Bytes
stream_rpc_content_type_v1 = codes "application/x-httpgrpc-proto+v1"

abbrev pub application_json : Bytes
application_json = codes "application/json"

abbrev pub event_stream_content_type : Bytes
event_stream_content_type = codes "text/event-stream"

-- What getServerStreamReaderAndWriter returns, if the content type is known.
pub record ServerStreaming : Type 0 where
  pub stream_codec : CodecName
  pub reads : Framing
  pub writes : Framing
  pub content_type : Bytes

-- What the client puts in the headers of a request, and how it writes a streaming request.
pub record ClientHeaders : Type 0 where
  pub request_type : Bytes
  pub accept : Option Bytes
  pub request_framing : Option Framing

module _ (media_type : Bytes → Bytes) where
  unfoldable pub get_codec_for_server_unary_response : Bytes → Option CodecName
  get_codec_for_server_unary_response content_type =
      if media_type content_type =? unary_rpc_content_type_v1
      then some proto_codec
      else if media_type content_type =? application_json
      then some json_codec
      else none

  unfoldable pub get_server_stream_reader_and_writer : Bytes → Option ServerStreaming
  get_server_stream_reader_and_writer content_type =
      if media_type content_type =? stream_rpc_content_type_v1
      then some (record {
        stream_codec = proto_codec;
        reads = size_prefixed;
        writes = size_prefixed;
        content_type = stream_rpc_content_type_v1;
      })
      else if media_type content_type =? application_json
      then some (record {
        stream_codec = json_codec;
        reads = json_values;
        writes = server_sent_events;
        content_type = event_stream_content_type;
      })
      else none

  unfoldable pub get_client_stream_reader : Bytes → Option (CodecName × Framing)
  get_client_stream_reader content_type =
      if media_type content_type =? stream_rpc_content_type_v1
      then some (proto_codec, size_prefixed)
      else if media_type content_type =? event_stream_content_type
      then some (json_codec, server_sent_events)
      else none

-- getHeadersForClientUnaryRequest: opts.codecName == jsonCodecName
unfoldable pub get_headers_for_client_unary_request : CodecName → ClientHeaders
get_headers_for_client_unary_request json_codec = record {
  request_type = application_json;
  accept = none;
  request_framing = none;
}
get_headers_for_client_unary_request proto_codec = record {
  request_type = unary_rpc_content_type_v1;
  accept = none;
  request_framing = none;
}

-- getHeadersAndWriterForClientStreamingRequest
unfoldable pub get_headers_and_writer_for_client_streaming_request : CodecName → ClientHeaders
get_headers_and_writer_for_client_streaming_request json_codec = record {
  request_type = application_json;
  accept = some event_stream_content_type;
  request_framing = some json_values;
}
get_headers_and_writer_for_client_streaming_request proto_codec = record {
  request_type = stream_rpc_content_type_v1;
  accept = some stream_rpc_content_type_v1;
  request_framing = some size_prefixed;
}

-- mime.ParseMediaType of this package's content types, which are in lower case and have no parameters.
abbrev pub KeepsTypes : (Bytes → Bytes) → Type 0
KeepsTypes media_type =
    (media_type unary_rpc_content_type_v1 ≡ unary_rpc_content_type_v1)
    × (media_type stream_rpc_content_type_v1 ≡ stream_rpc_content_type_v1)
    × (media_type application_json ≡ application_json)
    × (media_type event_stream_content_type ≡ event_stream_content_type)

-- A client and a server of this package agree: on a unary call on the codec; on a streaming call on the
-- codec and on the framing of the requests, and the server's answer has the content type that the
-- client accepts and is read by the client in the framing in which the server writes it, if these
-- types are their own media types.
pub client_server_agree :
    (media_type : Bytes → Bytes)
    → KeepsTypes media_type
    → (c : CodecName)
    → (get_codec_for_server_unary_response media_type
          (get_headers_for_client_unary_request c).request_type
        ≡ some c)
      × ((s : ServerStreaming) × (get_server_stream_reader_and_writer media_type
              (get_headers_and_writer_for_client_streaming_request c).request_type
            ≡ some s)
          × (s.stream_codec ≡ c)
          × (some s.reads ≡ (get_headers_and_writer_for_client_streaming_request c).request_framing)
          × (some s.content_type ≡ (get_headers_and_writer_for_client_streaming_request c).accept)
          × (get_client_stream_reader media_type s.content_type ≡ some (c, s.writes)))
unfolding get_codec_for_server_unary_response get_headers_for_client_unary_request
    get_server_stream_reader_and_writer get_headers_and_writer_for_client_streaming_request
    get_client_stream_reader ◌=?◌
client_server_agree media_type bare proto_codec = (
  rw (bare.0),
  (
    record {
      stream_codec = proto_codec;
      reads = size_prefixed;
      writes = size_prefixed;
      content_type = stream_rpc_content_type_v1;
    },
    rw (bare.1),
    refl,
    refl,
    refl,
    rw (bare.1),
  ),
)
client_server_agree media_type bare json_codec = (
  rw bare.2,
  (
    record {
      stream_codec = json_codec;
      reads = json_values;
      writes = server_sent_events;
      content_type = event_stream_content_type;
    },
    rw (bare.2),
    refl,
    refl,
    refl,
    rw (bare.3),
  ),
)
