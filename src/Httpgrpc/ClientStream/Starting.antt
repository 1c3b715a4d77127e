-- ===== src/Httpgrpc/ClientStream/Starting.antt =====
-- What doHttpCall makes of a response whose body is of a type that no reader is for.
use grpchan.Base.{Bytes, codes, =?_iff, Md, ok, ◌≡◌, ◌≢◌, none, arith}
use grpchan.Registry.{panic}
use grpchan.Internal.CallOptions.{Peer}
use grpchan.Httpgrpc.Protocol.{
  stream_rpc_content_type_v1, event_stream_content_type, get_client_stream_reader,
}
use grpchan.Httpgrpc.Headers.{Base64, as_metadata}
use grpchan.Httpgrpc.Status.{DetailsCodec, get_header, stat_from_response}
use grpchan.Httpgrpc.ClientStream.{ClientStream, HttpResponse, start}

module _ (url64 raw64 : Base64) (details : DetailsCodec) (media_type : Bytes → Bytes) where
  abbrev pub type_of : HttpResponse → Bytes
  type_of reply = media_type (media_type (get_header reply.response.header (codes "Content-Type")))

  -- If the response has the status OK and headers that can be read, but a content type that is not
  -- one of the two for streams, doHttpCall does not end the call with an error: it panics, whatever
  -- the caller asked for.
  pub start-other_type :
      (reply : HttpResponse) (md : Md) (p : Peer) (s : ClientStream)
      → as_metadata url64 reply.response.header ≡ ok md
      → stat_from_response raw64 details reply.response ≡ none
      → type_of reply ≢ stream_rpc_content_type_v1
      → type_of reply ≢ event_stream_content_type
      → start url64 raw64 details media_type (ok reply) p s
        ≡ panic "sync: negative WaitGroup counter"
  unfolding start get_client_stream_reader
  start-other_type reply md p s readable fine not_proto not_events =
      rw (readable, fine)
        (ground (
          arith,
          =?_iff (type_of reply) stream_rpc_content_type_v1,
          =?_iff (type_of reply) event_stream_content_type,
        ))
