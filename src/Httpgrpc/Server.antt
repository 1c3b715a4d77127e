-- ===== src/Httpgrpc/Server.antt =====
-- httpgrpc/server.go: Server, its options and RegisterService, HandleServices, HandleMethod and
-- HandleStream. http.ServeMux and path.Join are parameters. A handler of package http is what
-- handleMethod or handleStream makes of its arguments.
pub mod Routes
pub mod Calls
use grpchan.Base.{
  Bytes, codes, Md, Status, GoError, Result, ℕ, Bool, Option, none, some, List, [], ◌∷◌, ◌++◌,
}
use grpchan.Grpc.{MethodDesc, StreamDesc}
use grpchan.Internal.TransportStream.{UnaryStream}
use grpchan.Httpgrpc.Frames.{Codec}
use grpchan.Httpgrpc.Protocol.{CodecName}
use grpchan.Httpgrpc.Headers.{Base64}
use grpchan.Httpgrpc.Status.{DetailsCodec}
use grpchan.Httpgrpc.Wire.{Codecs}
use grpchan.Httpgrpc.Method.{ErrorRenderer, Serving}
use grpchan.Httpgrpc.ServerStream.{Handler, StreamServing, run_handler}

-- A handler in a service description, given its server and an interceptor.
abbrev pub UnaryHandler : Type 0 → Type 0 → Type 0 → Type 0
UnaryHandler M H I = H → Option I → Md × Option ℕ → Result M → UnaryStream → Result M × UnaryStream

abbrev pub StreamHandler : Type 0 → Type 0 → Type 0
StreamHandler M H = H → Md × Option ℕ → Handler M

-- grpc.StreamServerInfo
pub record StreamInfo : Type 0 where
  pub stream_full_method : Bytes
  pub is_client_stream : Bool
  pub is_server_stream : Bool

-- grpc.StreamServerInterceptor
abbrev pub StreamInterceptor : Type 0 → Type 0 → Type 0
StreamInterceptor M H = StreamInfo → StreamHandler M H → StreamHandler M H

-- The packages that the handlers call: base64.URLEncoding and RawURLEncoding, the registered codecs,
-- mime.ParseMediaType, status.FromError, codes.Code.String, err.Error(), http.StatusText,
-- metadata.Join and path.Join.
pub record Packages (M : Type 0) : Type 0 where
  pub url64 : Base64
  pub raw64 : Base64
  pub unary_codecs : CodecName → Codec M
  pub details_codecs : CodecName → DetailsCodec
  pub stream_codecs : CodecName → Codecs M
  pub parse_media_type : Bytes → Bytes
  pub status_of_error : GoError → Status
  pub name_of_code : ℕ → Bytes
  pub text_of_error : GoError → Bytes
  pub text_of_status : ℕ → Bytes
  pub join_metadata : List Md → Md
  pub join_path : Bytes → Bytes → Bytes

-- handlerOpts, and a HandlerOption
pub record HandlerOpts : Type 0 where
  pub err_render : Option ErrorRenderer

abbrev pub HandlerOption : Type 0
HandlerOption = HandlerOpts → HandlerOpts

-- An http.HandlerFunc of this package.
pub data HttpHandler (M : Type 0) : Type 0 where
  serves_method : Serving M → HttpHandler M
  serves_stream : StreamServing M → HttpHandler M

unfoldable pub error_renderer : ErrorRenderer → HandlerOption
error_renderer err_func h = record { err_render = some err_func }

-- for _, opt := range opts { opt(&hOpts) }
unfoldable pub apply_handler_options : List HandlerOption → HandlerOption
apply_handler_options [] h = h
apply_handler_options (opt ∷ opts) h = apply_handler_options opts (opt h)

abbrev pub no_handler_opts : HandlerOpts
no_handler_opts = record { err_render = none }

-- "%s/%s" and "/%s/%s"
abbrev pub method_path : Bytes → Bytes → Bytes
method_path service method = service ++ codes "/" ++ method

abbrev pub full_method_of : Bytes → Bytes → Bytes
full_method_of service method = codes "/" ++ method_path service method

module _ {M H I : Type 0} (pk : Packages M) where
  -- What handleMethod captures.
  abbrev pub serving_of :
      H → Bytes → MethodDesc (UnaryHandler M H I) → Option I → HandlerOpts → Serving M
  serving_of svr service desc unary_int opts = record {
    url_base64 = pk.url64;
    raw_base64 = pk.raw64;
    codec_of = pk.unary_codecs;
    details_of = pk.details_codecs;
    media_type = pk.parse_media_type;
    from_error = pk.status_of_error;
    code_text = pk.name_of_code;
    error_text = pk.text_of_error;
    status_text = pk.text_of_status;
    err_func = opts.err_render;
    full_method = full_method_of service desc.method_name;
    run_handler = desc.handler svr unary_int;
  }

  unfoldable pub method_handler :
      H → Bytes → MethodDesc (UnaryHandler M H I) → Option I → HandlerOpts → HttpHandler M
  method_handler svr service desc unary_int opts =
      serves_method (serving_of svr service desc unary_int opts)

  -- HandleMethod
  unfoldable pub public_method_handler :
      H → Bytes → MethodDesc (UnaryHandler M H I) → Option I → List HandlerOption → HttpHandler M
  unfolding method_handler
  public_method_handler svr service desc unary_int opts =
      method_handler svr service desc unary_int (apply_handler_options opts no_handler_opts)

module _ {M H : Type 0} (pk : Packages M) where
  abbrev intercepted :
      Option (StreamInterceptor M H) → StreamInfo → StreamHandler M H → StreamHandler M H
  intercepted none info handler = handler
  intercepted (some stream_int) info handler = stream_int info handler

  -- What handleStream captures; the options play no part in it.
  unfoldable pub stream_handler :
      H
      → Bytes
      → StreamDesc (StreamHandler M H)
      → Option (StreamInterceptor M H)
      → HandlerOpts
      → HttpHandler M
  stream_handler svr service desc stream_int opts =
      let info : StreamInfo = record {
        stream_full_method = full_method_of service desc.stream_name;
        is_client_stream = desc.client_streams;
        is_server_stream = desc.server_streams;
      } in
      serves_stream (record {
        base64 = pk.url64;
        codecs = pk.stream_codecs;
        media_type_of = pk.parse_media_type;
        text_of = pk.text_of_status;
        status_from = pk.status_of_error;
        join_all = pk.join_metadata;
        client_streams = desc.client_streams;
        handler = intercepted stream_int info desc.handler svr;
      })

  -- HandleStream
  unfoldable pub public_stream_handler :
      H
      → Bytes
      → StreamDesc (StreamHandler M H)
      → Option (StreamInterceptor M H)
      → List HandlerOption
      → HttpHandler M
  unfolding stream_handler
  public_stream_handler svr service desc stream_int opts =
      stream_handler svr service desc stream_int (apply_handler_options opts no_handler_opts)
