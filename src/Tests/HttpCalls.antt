-- ===== src/Tests/HttpCalls.antt =====
-- A unary call over HTTP at concrete values, and the metadata of its response.
use grpchan.Base.{
  is_empty, Bytes, codes, ◌=?◌, strip_prefix, has_suffix, lower_byte, upper_byte, to_lower, lookup,
  insert, Md, values, append_values, gathered, status_error, ok, err, ◌≡◌, refl, false, none, some,
  [], ◌∷◌, ◌++◌, arith,
}
use grpchan.Internal.CallOptions.{
  Context, Store, set_headers, set_trailers, no_options, add_options, get_call_options,
  apply_per_rpc_creds,
}
use grpchan.Internal.TransportStream.{get_headers, get_trailers}
use grpchan.Httpgrpc.Frames.{Codec}
use grpchan.Httpgrpc.Protocol.{proto_codec, get_headers_for_client_unary_request}
use grpchan.Httpgrpc.Headers.{
  is_token_byte, is_token, capitalize, canonical_key, add_header, reserved_headers, is_member,
  is_reserved, add_decoded, add_headers, as_metadata, add_encoded, to_headers,
}
use grpchan.Httpgrpc.Headers.RoundTrip.{IsSendable}
use grpchan.Httpgrpc.Status.{status_header, set_header, get_header, error_status}
use grpchan.Httpgrpc.Timeout.{
  split_last, parse_timeout, request_timeout, add_timeout, headers_from_context,
  context_from_headers,
}
use grpchan.Httpgrpc.Method.{Serving, collected}
use grpchan.Httpgrpc.Channel.{
  Url, Transport, Channel, codec_by_name, set_codec, default_channel_options, check_channel_params,
  channel_options, trailer_prefix, named_trailer, set_metadata, Calling, unary_headers, gather,
  invoke,
}
use grpchan.Httpgrpc.Channel.Trailers.{IsTrailers, NamesNone, set_metadata-to_headers}
use grpchan.Httpgrpc.Channel.Calls.{
  reply_to, served, Reaches, sent_header, with_peer, Handles, invoke-returned, invoke-failed,
}
use grpchan.Tests.Https.{plain64, plain_details, not_found_status, left_behind, failing, left_clean}
use grpchan.Tests.Invocations.{tables}

abbrev bytes_codec : Codec Bytes
bytes_codec = record { marshal = λ m. ok m; unmarshal = λ b. ok b }

abbrev pub calling : Calling Bytes
calling = record {
  codecs = λ name. some bytes_codec;
  metadata = tables;
  join_path = λ a b. a ++ b;
  url_text = λ u. u.path;
  check_url = λ b. ok tt;
  url64 = plain64;
  raw64 = plain64;
  details_for = λ name. plain_details;
}

-- Answers with the request.
abbrev echoing : Serving Bytes
echoing = record failing { run_handler = λ ctx m sts. (m, left_behind) }

abbrev pub base : Url
base = record { scheme = codes "http"; host = codes "host"; path = codes "/base" }

abbrev pub status_line : Bytes
status_line = codes "200 OK"

abbrev transport_to : Serving Bytes → Transport
transport_to srv text h b = ok (served calling srv status_line h b)

abbrev channel_to : Serving Bytes → Channel Bytes
channel_to srv = record { base_url = some base; transport = some (transport_to srv); opts = none }

abbrev pub quiet : Context
quiet = record { outgoing = none }

abbrev pub nothing : Store
nothing = record { md_at = λ a. []; peer_at = λ a. none }

configured :
    (srv : Serving Bytes)
    → channel_options calling.codecs (channel_to srv)
      ≡ ok ((base, transport_to srv), record { codec_name = proto_codec; codec = bytes_codec })
unfolding channel_options check_channel_params default_channel_options set_codec codec_by_name
configured srv = refl

no_creds :
    apply_per_rpc_creds tables quiet
      (get_call_options [])
      (codes "/base/s/m")
      (base.scheme =? codes "https")
    ≡ ok quiet
unfolding apply_per_rpc_creds get_call_options add_options
no_creds = refl

abbrev reaches :
    (srv : Serving Bytes)
    → Reaches calling srv (channel_to srv) quiet none (codes "/s/m") (codes "hello") [] status_line
reaches srv = record {
  url = base;
  transport = transport_to srv;
  o = record { codec_name = proto_codec; codec = bytes_codec };
  sent_ctx = quiet;
  b = codes "hello";
  configured = configured srv;
  target = codes "/base/s/m";
  at = refl;
  creds = no_creds;
  marshalled = refl;
  valid = refl;
  arrives = refl;
}

readable :
    (srv : Serving Bytes)
    → context_from_headers plain64 (sent_header calling srv (reaches srv))
      ≡ ok ((codes "content-type", codes "application/x-protobuf" ∷ []) ∷ [], none)
unfolding context_from_headers as_metadata add_headers add_decoded append_values insert values
    lookup to_lower lower_byte has_suffix ◌=?◌ request_timeout get_header canonical_key is_token
    is_token_byte capitalize upper_byte parse_timeout split_last unary_headers headers_from_context
    add_timeout set_header get_headers_for_client_unary_request
readable srv = refl

gathered_nothing :
    (h : Md) (store : Store) → gather calling (get_call_options []) h store ≡ ok store
unfolding gather get_call_options add_options
gathered_nothing h store = refl

no_status : values (canonical_key status_header) (collected echoing left_behind) ≡ []
unfolding values lookup to_headers get_trailers get_headers is_reserved ◌=?◌ to_lower add_encoded
    add_header append_values insert canonical_key
no_status = refl

echoing-Handles : Handles calling echoing (reaches echoing) (ok (codes "hello")) left_behind
echoing-Handles = record {
  bare = (refl, refl, refl, refl);
  server_ctx = ((codes "content-type", codes "application/x-protobuf" ∷ []) ∷ [], none);
  readable = readable echoing;
  m = codes "hello";
  unmarshalled = refl;
  ran = refl;
}

failing-Handles :
    Handles calling failing (reaches failing) (err (status_error not_found_status)) left_behind
failing-Handles = record {
  bare = (refl, refl, refl, refl);
  server_ctx = ((codes "content-type", codes "application/x-protobuf" ∷ []) ∷ [], none);
  readable = readable failing;
  m = codes "hello";
  unmarshalled = refl;
  ran = refl;
}

invoke-returned_example :
    invoke calling (channel_to echoing) quiet none (codes "/s/m") (codes "hello") [] none nothing
    ≡ (ok (codes "hello"), with_peer calling echoing (reaches echoing) nothing)
invoke-returned_example =
    invoke-returned calling echoing (reaches echoing) (codes "hello") (codes "hello") left_behind
      (codes "hello") nothing (with_peer calling echoing (reaches echoing) nothing) echoing-Handles
      refl refl no_status
      (gathered_nothing
        (reply_to calling echoing (sent_header calling echoing (reaches echoing))
          (codes "hello")).reply_header
        (with_peer calling echoing (reaches echoing) nothing))

invoke-failed_example :
    invoke calling (channel_to failing) quiet none (codes "/s/m") (codes "hello") [] none nothing
    ≡ (
      err (status_error (error_status plain64 plain_details not_found_status)),
      with_peer calling failing (reaches failing) nothing,
    )
invoke-failed_example =
    invoke-failed calling failing (reaches failing) (status_error not_found_status) left_behind
      nothing (with_peer calling failing (reaches failing) nothing) failing-Handles refl
      (omega arith) left_clean (λ d. (d, refl, refl)) refl refl
      (gathered_nothing
        (reply_to calling failing (sent_header calling failing (reaches failing))
          (codes "hello")).reply_header
        (with_peer calling failing (reaches failing) nothing))

abbrev sent_headers : Md
sent_headers = (codes "k", codes "v" ∷ []) ∷ []

abbrev sent_trailers : Md
sent_trailers = (codes "t-bin", codes "w" ∷ codes "x" ∷ []) ∷ []

sent_headers-IsSendable : IsSendable sent_headers
unfolding to_lower lower_byte is_reserved is_member reserved_headers ◌=?◌
sent_headers-IsSendable = (refl, refl, tt)

sent_headers-NamesNone : NamesNone sent_headers
unfolding strip_prefix
sent_headers-NamesNone = (refl, tt)

sent_trailers-IsTrailers : IsTrailers sent_trailers
unfolding to_lower lower_byte is_reserved is_member reserved_headers ◌=?◌ is_token is_token_byte
    has_suffix
sent_trailers-IsTrailers = (refl, refl, refl, refl, refl, tt)

set_metadata-to_headers_example :
    (h : Md) × (t : Md) × (set_metadata plain64
        (to_headers plain64 sent_trailers
          (to_headers plain64 sent_headers [] [])
          (codes "X-GRPC-Trailer-"))
        no_options
        nothing
      ≡ ok (set_trailers no_options t (set_headers no_options h nothing)))
    × ((k : Bytes)
        → named_trailer k (strip_prefix trailer_prefix k) ≡ none
        → values k h ≡ gathered k sent_headers)
    × ((k : Bytes) → is_empty k ≡ false → values k t ≡ gathered k sent_trailers)
set_metadata-to_headers_example =
    set_metadata-to_headers plain64 sent_headers sent_trailers no_options nothing
      sent_headers-IsSendable sent_headers-NamesNone sent_trailers-IsTrailers
