-- ===== src/Httpgrpc/Channel.antt =====
-- httpgrpc/client.go: the channel, its options, and Invoke, a unary call over HTTP. Package url, path
-- and http, the registered codecs and the transport are parameters. The body of the response is what
-- reading it gives; whether the context ends before that is an argument.
pub mod Calls
pub mod Splitting
pub mod Trailers
use grpchan.Base.{
  ◌==◌, if◌then◌else◌, length, is_empty, drop, Bytes, codes, ◌=?◌, strip_prefix, to_lower, insert,
  Md, Status, GoError, status_error, other, Result, ok, err, ◌>>=◌, ℕ, Bool, false, ◌&&◌, ◌||◌,
  Option, none, some, List, [], ◌∷◌, ◌++◌,
}
use grpchan.Stdio.{Writer}
use grpchan.Internal.CallOptions.{
  Context, Metadata, Peer, CallOption, CallOptions, Store, set_headers, set_trailers, set_peer,
  get_call_options, apply_per_rpc_creds,
}
use grpchan.Internal.Misc.{translate_context_error}
use grpchan.Httpgrpc.Frames.{Codec}
use grpchan.Httpgrpc.Protocol.{
  CodecName, proto_codec, json_codec, get_headers_for_client_unary_request,
  get_headers_and_writer_for_client_streaming_request,
}
use grpchan.Httpgrpc.Headers.{Base64, as_metadata}
use grpchan.Httpgrpc.Status.{DetailsCodec, Response, set_header, stat_from_response}
use grpchan.Httpgrpc.Timeout.{headers_from_context}
use grpchan.Httpgrpc.ClientStream.{ClientStream, new_client_stream}

-- url.URL
pub record Url : Type 0 where
  pub scheme : Bytes
  pub host : Bytes
  pub path : Bytes

-- channelOptions
pub record ChannelOptions (M : Type 0) : Type 0 where
  pub codec_name : CodecName
  pub codec : Codec M

-- A function that changes the options, or fails.
abbrev pub ChannelOption : Type 0 → Type 0
ChannelOption M = ChannelOptions M → Result (ChannelOptions M)

-- The response of RoundTrip to a unary call.
pub record UnaryResponse : Type 0 where
  pub reply : Response
  pub content : Result Bytes

-- http.RoundTripper, on a POST request with this URL, header and body.
abbrev pub Transport : Type 0
Transport = Bytes → Md → Bytes → Result UnaryResponse

-- Channel; a nil URL, transport or set of options is `none`.
pub record Channel (M : Type 0) : Type 0 where
  pub base_url : Option Url
  pub transport : Option Transport
  pub opts : Option (ChannelOptions M)

module _ {M : Type 0} (registered : CodecName → Option (Codec M)) where
  unfoldable pub codec_by_name : CodecName → Result (Codec M)
  codec_by_name name = elim (registered name) [
    | none ↦ err (other "no codec registered")
    | some codec ↦ ok codec
  ]

  -- setCodec replaces all that the options hold.
  unfoldable pub set_codec : CodecName → Result (ChannelOptions M)
  set_codec name = codec_by_name name >>= λ codec. ok (record { codec_name = name; codec = codec })

  unfoldable pub default_channel_options : Result (ChannelOptions M)
  default_channel_options = set_codec proto_codec

  unfoldable pub with_json_encoding : Bool → ChannelOption M
  with_json_encoding use_json o = set_codec (if use_json then json_codec else proto_codec)

  unfoldable pub check_channel_params : Option Url → Option Transport → Result (Url × Transport)
  check_channel_params none transport = err (other "channel base URL is required")
  check_channel_params (some url) none = err (other "channel transport is required")
  check_channel_params (some url) (some transport) = ok (url, transport)

  -- for _, opt := range opts
  unfoldable pub apply_options : List (ChannelOption M) → ChannelOption M
  apply_options [] o = ok o
  apply_options (opt ∷ opts) o = opt o >>= apply_options opts

  unfoldable pub new_channel :
      Option Url → Option Transport → List (ChannelOption M) → Result (Channel M)
  new_channel url transport opts = do
    _ ← check_channel_params url transport
    defaults ← default_channel_options
    chosen ← apply_options opts defaults
    ok (record { base_url = url; transport = transport; opts = some chosen })

  -- channelOptions, with the URL and the transport that it has checked.
  unfoldable pub channel_options : Channel M → Result ((Url × Transport) × ChannelOptions M)
  channel_options ch = do
    params ← check_channel_params ch.base_url ch.transport
    o ← elim ch.opts [ some o ↦ ok o | none ↦ default_channel_options ]
    ok (params, o)

abbrev contains_colon : Bytes → Bool
contains_colon [] = false
contains_colon (c ∷ cs) = c == b':' || contains_colon cs

unfoldable pub get_peer : Url → Option Bytes → Peer
get_peer url tls = record {
  addr =
      if contains_colon url.host
      then url.host
      else if url.scheme =? codes "https"
      then url.host ++ codes ":443"
      else if url.scheme =? codes "http"
      then url.host ++ codes ":80"
      else url.host;
  auth_info = tls;
}

abbrev pub trailer_prefix : Bytes
trailer_prefix = codes "x-grpc-trailer-"

-- The name of a trailer, if the key of a header has the prefix and more.
abbrev pub named_trailer : Bytes → Option Bytes → Option Bytes
named_trailer k none = none
named_trailer k (some rest) =
    if is_empty (drop (length trailer_prefix) k)
    then none
    else some (drop (length trailer_prefix) k)

-- tlr[trailerName] = v and delete(hdr, k), if the key names a trailer.
abbrev pub moved : Option Bytes → List Bytes → Md → Md
moved none v tlr = tlr
moved (some name) v tlr = insert name v tlr

abbrev pub kept : Option Bytes → Bytes → List Bytes → Md × Md → Md × Md
kept none k v (hdr, tlr) = ((k, v) ∷ hdr, tlr)
kept (some name) k v (hdr, tlr) = (hdr, tlr)

-- The loop of setMetadata: what stays in the headers, and the trailers.
unfoldable pub split_trailers : Md → Md → Md × Md
split_trailers [] tlr = ([], tlr)
split_trailers ((k, v) ∷ hdr) tlr =
    let name = named_trailer k (strip_prefix trailer_prefix (to_lower k)) in
    kept name k v (split_trailers hdr (moved name v tlr))

unfoldable pub set_metadata : Base64 → Md → CallOptions → Store → Result Store
set_metadata b64 h copts store = as_metadata b64 h >>= λ hdr.
    let (headers, trailers) = split_trailers hdr [] in
    ok (set_trailers copts trailers (set_headers copts headers store))

-- The packages that Invoke calls.
pub record Calling (M : Type 0) : Type 0 where
  pub codecs : CodecName → Option (Codec M)
  pub metadata : Metadata
  -- path.Join and url.URL.String
  pub join_path : Bytes → Bytes → Bytes
  pub url_text : Url → Bytes
  -- whether http.NewRequest takes a URL
  pub check_url : Bytes → Result (Unit {0})
  pub url64 : Base64
  pub raw64 : Base64
  pub details_for : CodecName → DetailsCodec

module _ {M : Type 0} (env : Calling M) where
  -- The headers of getHeadersForClientUnaryRequest.
  unfoldable pub unary_headers : CodecName → Context → Option (Bool × ℕ) → Md
  unary_headers name ctx left =
      set_header (headers_from_context env.url64 ctx.outgoing left) (codes "Content-Type")
        (get_headers_for_client_unary_request name).request_type

  -- The metadata of the response, if the options ask for any.
  unfoldable pub gather : CallOptions → Md → Store → Result Store
  unfolding set_metadata
  gather copts h store =
      if is_empty copts.headers && is_empty copts.trailers
      then ok store
      else set_metadata env.url64 h copts store

  -- Behind the status: `ended` if the context ends before the body is read.
  abbrev pub read_content : Codec M → Option GoError → Result Bytes → Result M
  read_content codec (some e) content = err (translate_context_error e)
  read_content codec none (err e) = err e
  read_content codec none (ok b) = codec.unmarshal b

  abbrev pub check_status : Codec M → Option GoError → Option Status → Result Bytes → Result M
  check_status codec ended (some st) content = err (status_error st)
  check_status codec ended none content = read_content codec ended content

  abbrev pub with_metadata :
      ChannelOptions M → Option GoError → UnaryResponse → Store → Result Store → Result M × Store
  with_metadata o ended r store (err e) = (err e, store)
  with_metadata o ended r store (ok store') = (
    check_status o.codec ended (stat_from_response env.raw64 (env.details_for o.codec_name) r.reply)
        r.content,
    store',
  )

  -- The peer is made of r.TLS of the request, which a client's request does not have.
  abbrev pub with_response :
      Url
      → ChannelOptions M
      → CallOptions
      → Option GoError
      → Store
      → Result UnaryResponse
      → Result M × Store
  with_response url o copts ended store (err e) = (err (translate_context_error e), store)
  with_response url o copts ended store (ok r) =
      let store' = set_peer copts (get_peer url none) store in
      with_metadata o ended r store' (gather copts r.reply.header store')

  -- What is sent: the URL, the headers and the body.
  unfoldable pub make_request :
      Url
      → ChannelOptions M
      → CallOptions
      → Context
      → Option (Bool × ℕ)
      → Bytes
      → M
      → Result (Bytes × (Md × Bytes))
  make_request url o copts ctx left method req = do
    let text = env.url_text (record url { path = env.join_path url.path method })
    ctx' ← apply_per_rpc_creds env.metadata ctx copts text (url.scheme =? codes "https")
    b ← o.codec.marshal req
    _ ← env.check_url text
    ok (text, (unary_headers o.codec_name ctx' left, b))

  abbrev pub round_trip :
      Url
      → Transport
      → ChannelOptions M
      → CallOptions
      → Option GoError
      → Store
      → Result (Bytes × (Md × Bytes))
      → Result M × Store
  round_trip url transport o copts ended store (err e) = (err e, store)
  round_trip url transport o copts ended store (ok (text, (h, b))) =
      with_response url o copts ended store (transport text h b)

  abbrev pub on_channel :
      Context
      → Option (Bool × ℕ)
      → Bytes
      → M
      → CallOptions
      → Option GoError
      → Store
      → Result ((Url × Transport) × ChannelOptions M)
      → Result M × Store
  on_channel ctx left method req copts ended store (err e) = (err e, store)
  on_channel ctx left method req copts ended store (ok ((url, transport), o)) =
      round_trip url transport o copts ended store (make_request url o copts ctx left method req)

  -- Invoke. `left` is the time until the context's deadline, if there is one.
  unfoldable pub invoke :
      Channel M
      → Context
      → Option (Bool × ℕ)
      → Bytes
      → M
      → List CallOption
      → Option GoError
      → Store
      → Result M × Store
  unfolding make_request gather
  invoke ch ctx left method req opts ended store =
      on_channel ctx left method req (get_call_options opts) ended store
        (channel_options env.codecs ch)

  abbrev accepting : Option Bytes → Md → Md
  accepting none h = h
  accepting (some t) h = set_header h (codes "Accept") t

  -- The headers of getHeadersAndWriterForClientStreamingRequest.
  unfoldable pub stream_headers : CodecName → Context → Option (Bool × ℕ) → Md
  stream_headers name ctx left =
      let chosen = get_headers_and_writer_for_client_streaming_request name in
      accepting chosen.accept (
        set_header (headers_from_context env.url64 ctx.outgoing left) (codes "Content-Type")
          chosen.request_type)

  -- NewStream: the URL and the headers of the request, and the stream, which writes on a pipe.
  unfoldable pub new_stream :
      Channel M
      → Context
      → Option (Bool × ℕ)
      → Bytes
      → Bool
      → List CallOption
      → Writer
      → Store
      → Result ((Bytes × Md) × ClientStream)
  unfolding stream_headers
  new_stream ch ctx left method server_streams opts pipe store = do
    ((url, transport), o) ← channel_options env.codecs ch
    let copts = get_call_options opts
    let text = env.url_text (record url { path = env.join_path url.path method })
    ctx' ← apply_per_rpc_creds env.metadata ctx copts text (url.scheme =? codes "https")
    _ ← env.check_url text
    ok (
      (text, stream_headers o.codec_name ctx' left),
      new_client_stream copts store server_streams pipe,
    )
