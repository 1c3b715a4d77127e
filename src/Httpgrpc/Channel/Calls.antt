-- ===== src/Httpgrpc/Channel/Calls.antt =====
-- Invoke against the server's handleMethod: a whole unary call over HTTP.
use grpchan.Base.{
  length, Bytes, codes, ◌=?◌, lower_byte, upper_byte, Md, values, GoError, status_error, Result, ok,
  err, ℕ, ◌<◌, ◌≡◌, refl, ap, ◌∙◌, Bool, false, Option, none, some, List, [],
}
use grpchan.Strconv.{print_decimal}
use grpchan.Internal.CallOptions.{
  Context, CallOption, Store, set_peer, get_call_options, apply_per_rpc_creds,
}
use grpchan.Internal.TransportStream.{UnaryStream, new}
use grpchan.Httpgrpc.Protocol.{
  get_codec_for_server_unary_response, get_headers_for_client_unary_request, client_server_agree,
  KeepsTypes,
}
use grpchan.Httpgrpc.Headers.{is_token_byte, is_token, capitalize, canonical_key}
use grpchan.Httpgrpc.Status.{
  DetailsCodec, status_header, details_header, set_header, get_header, split_colon, error_status,
  read_code, stat_from_response,
}
use grpchan.Httpgrpc.Timeout.{headers_from_context, context_from_headers}
use grpchan.Httpgrpc.Timeout.Deadlines.{get_header-set_header}
use grpchan.Httpgrpc.Status.RoundTrip.{values-set_header}
use grpchan.Httpgrpc.Codes.{code_from_http_status}
use grpchan.Httpgrpc.Method.{Request, Reply, Serving, answer, collected, handle_method}
use grpchan.Httpgrpc.Method.Failures.{response_of, answered, handle_method-stat_from_response}
use grpchan.Httpgrpc.Channel.{
  Url, ChannelOptions, UnaryResponse, Transport, Channel, channel_options, get_peer, Calling,
  unary_headers, gather, check_status, make_request, invoke,
}

-- The headers of the content are not that of the status.
status_header-Apart :
    (h : Md) (kind size : Bytes)
    → values
        (canonical_key status_header)
        (set_header (set_header h (codes "Content-Type") kind) (codes "Content-Length") size)
      ≡ values (canonical_key status_header) h
unfolding canonical_key is_token is_token_byte capitalize upper_byte lower_byte ◌=?◌
status_header-Apart h kind size =
    values-set_header (set_header h (codes "Content-Type") kind) (codes "Content-Length") size
      (canonical_key status_header)
    ∙ values-set_header h (codes "Content-Type") kind (canonical_key status_header)

module _ {M : Type 0} (env : Calling M) (srv : Serving M) where
  -- The request that handleMethod is given.
  abbrev pub posted : Md → Bytes → Request
  posted h b = record {
    verb = codes "POST";
    request_header = h;
    request_body = ok b;
    request_ended = false;
  }

  -- What comes back, with the text of its status line.
  abbrev pub reply_to : Md → Bytes → Reply
  reply_to h b = handle_method srv (posted h b)

  abbrev pub served : Bytes → Md → Bytes → UnaryResponse
  served text h b = record {
    reply = response_of (reply_to h b) text;
    content = ok (reply_to h b).reply_body;
  }

  -- A call whose request can be made, and reaches the server.
  pub record Reaches (ch : Channel M) (ctx : Context) (left : Option (Bool × ℕ)) (method : Bytes)
      (req : M) (opts : List CallOption) (text : Bytes) : Type 0 where
    pub url : Url
    pub transport : Transport
    pub o : ChannelOptions M
    pub sent_ctx : Context
    pub b : Bytes
    pub configured : channel_options env.codecs ch ≡ ok ((url, transport), o)
    pub target : Bytes
    pub at : env.url_text (record url { path = env.join_path url.path method }) ≡ target
    pub creds :
        apply_per_rpc_creds env.metadata ctx
          (get_call_options opts)
          target
          (url.scheme =? codes "https")
        ≡ ok sent_ctx
    pub marshalled : o.codec.marshal req ≡ ok b
    pub valid : env.check_url target ≡ ok tt
    pub arrives :
        transport target (unary_headers env o.codec_name sent_ctx left) b
        ≡ ok (served text (unary_headers env o.codec_name sent_ctx left) b)

  module _ {ch : Channel M} {ctx : Context} {left : Option (Bool × ℕ)} {method : Bytes} {req : M}
      {opts : List CallOption} {text : Bytes} (c : Reaches ch ctx left method req opts text) where
    abbrev pub sent_header : Md
    sent_header = unary_headers env c.o.codec_name c.sent_ctx left

    abbrev pub with_peer : Store → Store
    with_peer store = set_peer (get_call_options opts) (get_peer c.url none) store

    invoke-check_status :
        (store store' : Store)
        → gather env
            (get_call_options opts)
            (reply_to sent_header c.b).reply_header
            (with_peer store)
          ≡ ok store'
        → invoke env ch ctx left method req opts none store ≡ (
          check_status env c.o.codec none
              (stat_from_response env.raw64
                (env.details_for c.o.codec_name)
                (response_of (reply_to sent_header c.b) text))
              (ok (reply_to sent_header c.b).reply_body),
          store',
        )
    unfolding invoke make_request
    invoke-check_status store store' g =
        rw (c.configured, c.at, c.creds, c.marshalled, c.valid, c.arrives, g) refl

    -- What the server makes of the request, up to what its handler returns and leaves.
    pub record Handles (r : Result M) (sts : UnaryStream) : Type 0 where
      pub bare : KeepsTypes srv.media_type
      pub server_ctx : Md × Option ℕ
      pub readable : context_from_headers srv.url_base64 sent_header ≡ ok server_ctx
      pub m : M
      pub unmarshalled : (srv.codec_of c.o.codec_name).unmarshal c.b ≡ ok m
      pub ran : srv.run_handler server_ctx (ok m) (new srv.full_method) ≡ (r, sts)

    known :
        KeepsTypes srv.media_type
        → get_codec_for_server_unary_response srv.media_type
            (get_header sent_header (codes "Content-Type"))
          ≡ some c.o.codec_name
    unfolding unary_headers
    known bare =
        rw
          (get_header-set_header (headers_from_context env.url64 c.sent_ctx.outgoing left)
            (codes "Content-Type")
            (get_headers_for_client_unary_request c.o.codec_name).request_type)
          (client_server_agree srv.media_type bare c.o.codec_name).0

    reply_to-answer :
        (r : Result M) (sts : UnaryStream)
        → Handles r sts
        → reply_to sent_header c.b
          ≡ answer srv c.o.codec_name (posted sent_header c.b) (collected srv sts) r
    reply_to-answer r sts s =
        answered srv (posted sent_header c.b) c.o.codec_name s.server_ctx c.b (r, sts) refl
          (known s.bare) s.readable refl (rw s.unmarshalled s.ran)

    stat_from_response-ok :
        (codec : DetailsCodec) (text : Bytes) (h : Md)
        → values (canonical_key status_header) h ≡ []
        → stat_from_response env.raw64 codec
            (record { status_code = 200; status_text = text; header = h })
          ≡ none
    unfolding stat_from_response read_code get_header split_colon code_from_http_status
    stat_from_response-ok codec text h clean = rw clean refl

    answer-marshalled :
        (h : Md) (resp : M) (out : Bytes)
        → (srv.codec_of c.o.codec_name).marshal resp ≡ ok out
        → answer srv c.o.codec_name (posted sent_header c.b) h (ok resp) ≡ record {
          reply_status = 200;
          reply_header =
              set_header
                (set_header h
                  (codes "Content-Type")
                  (get_header sent_header (codes "Content-Type")))
                (codes "Content-Length")
                (print_decimal (length out));
          reply_body = out;
        }
    unfolding answer
    answer-marshalled h resp out marshals = rw marshals refl

    -- A call that reaches the server and whose handler returns a message that is marshalled gives the
    -- caller what its codec reads of that, and leaves in its variables the peer and the metadata of the
    -- response, if that can be read, nothing that the handler left is taken for the status, and this
    -- package's content types are their own media types.
    pub invoke-returned :
        (resp resp' : M) (sts : UnaryStream) (out : Bytes) (store store' : Store)
        → Handles (ok resp) sts
        → (srv.codec_of c.o.codec_name).marshal resp ≡ ok out
        → c.o.codec.unmarshal out ≡ ok resp'
        → values (canonical_key status_header) (collected srv sts) ≡ []
        → gather env
            (get_call_options opts)
            (reply_to sent_header c.b).reply_header
            (with_peer store)
          ≡ ok store'
        → invoke env ch ctx left method req opts none store ≡ (ok resp', store')
    invoke-returned resp resp' sts out store store' s marshals reads clean g =
        let h = collected srv sts in
        let typed =
          set_header h (codes "Content-Type") (get_header sent_header (codes "Content-Type")) in
        let sized = set_header typed (codes "Content-Length") (print_decimal (length out)) in
        let replied : reply_to sent_header c.b
            ≡ record { reply_status = 200; reply_header = sized; reply_body = out } =
          reply_to-answer (ok resp) sts s
          ∙ answer-marshalled (collected srv sts) resp out marshals in
        invoke-check_status store store' g
        ∙ ap
            (λ x. (
              check_status env c.o.codec none
                  (stat_from_response env.raw64 (env.details_for c.o.codec_name)
                    (response_of x text))
                  (ok x.reply_body),
              store',
            ))
            replied
        ∙ rw
            (
              stat_from_response-ok (env.details_for c.o.codec_name) text sized (
                  status_header-Apart h (get_header sent_header (codes "Content-Type"))
                    (print_decimal (length out))
                  ∙ clean),
              reads,
            )
            refl

    -- A call that reaches the server and whose handler returns an error gives the caller its status,
    -- with OK turned into Internal, and leaves in its variables the peer and the metadata of the
    -- response, with the default renderer and the same encodings at both ends, if the metadata can be
    -- read, the code fits in 32 bits, the handler left no details header of its own, the details'
    -- codec is faithful, and this package's content types are their own media types.
    pub invoke-failed :
        (e : GoError) (sts : UnaryStream) (store store' : Store)
        → Handles (err e) sts
        → srv.err_func ≡ none
        → (srv.from_error e).code < 4294967296
        → values (canonical_key details_header) (collected srv sts) ≡ []
        → ((d : Bytes)
            → (b : Bytes) × ((srv.details_of c.o.codec_name).marshal_any d ≡ some b)
              × ((srv.details_of c.o.codec_name).unmarshal_any b ≡ some d))
        → env.raw64 ≡ srv.raw_base64
        → env.details_for c.o.codec_name ≡ srv.details_of c.o.codec_name
        → gather env
            (get_call_options opts)
            (reply_to sent_header c.b).reply_header
            (with_peer store)
          ≡ ok store'
        → invoke env ch ctx left method req opts none store ≡ (
          err (
              status_error
                (error_status srv.raw_base64 (srv.details_of c.o.codec_name) (srv.from_error e))),
          store',
        )
    invoke-failed e sts store store' s plain small clean faithful same_raw same_details g =
        let response = response_of (reply_to sent_header c.b) text in
        let stat : stat_from_response env.raw64 (env.details_for c.o.codec_name) response
            ≡ some
                (error_status srv.raw_base64 (srv.details_of c.o.codec_name) (srv.from_error e)) =
          ap (λ raw. stat_from_response raw (env.details_for c.o.codec_name) response) same_raw
          ∙ ap (λ d. stat_from_response srv.raw_base64 d response) same_details
          ∙ handle_method-stat_from_response srv (posted sent_header c.b) c.o.codec_name
              s.server_ctx c.b e sts text refl (known s.bare) s.readable refl
              (rw s.unmarshalled s.ran) plain small clean faithful in
        invoke-check_status store store' g
        ∙ ap
            (λ st. (
              check_status env c.o.codec none st (ok (reply_to sent_header c.b).reply_body),
              store',
            ))
            stat
