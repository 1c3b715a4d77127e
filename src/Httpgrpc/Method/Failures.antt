-- ===== src/Httpgrpc/Method/Failures.antt =====
-- The error of a handler reaches the client of a unary call.
use grpchan.Base.{
  ◌==◌, if◌then◌else◌, Bool-cases, is_empty, Bytes, codes, ◌=?◌, =?_refl, lower_byte, upper_byte,
  Md, values, Status, GoError, Result, ok, err, ℕ, ◌<◌, ◌≡◌, refl, ap, ◌∙◌, inl, inr, Bool, false,
  ◌&&◌, ◌||◌, Option, none, some, [],
}
use grpchan.Internal.TransportStream.{UnaryStream, new}
use grpchan.Httpgrpc.Codes.{http_status_from_code}
use grpchan.Httpgrpc.Protocol.{CodecName, get_codec_for_server_unary_response}
use grpchan.Httpgrpc.Headers.{Base64, is_token_byte, is_token, capitalize, canonical_key}
use grpchan.Httpgrpc.Status.{
  DetailsCodec, Response, status_header, details_header, set_header, first, get_header,
  error_status, status_headers, read_code, stat_from_response,
}
use grpchan.Httpgrpc.Status.RoundTrip.{values-set_header, stat_from_response-status_headers}
use grpchan.Httpgrpc.Timeout.{context_from_headers}
use grpchan.Httpgrpc.Method.{
  Request, Reply, Serving, http_error, default_error_renderer, decoded, answer, collected,
  handle_method,
}

abbrev pub response_of : Reply → Bytes → Response
response_of r text = record {
  status_code = r.reply_status;
  status_text = text;
  header = r.reply_header;
}

-- The headers of http.Error are neither those of the status nor those of the details.
abbrev Apart : Bytes → Type 0
Apart k =
    ((canonical_key k =? canonical_key status_header) ≡ false)
    × ((canonical_key k =? canonical_key details_header) ≡ false)

content_type-Apart : Apart (codes "Content-Type")
unfolding canonical_key is_token is_token_byte capitalize upper_byte lower_byte ◌=?◌
content_type-Apart = (refl, refl)

nosniff-Apart : Apart (codes "X-Content-Type-Options")
unfolding canonical_key is_token is_token_byte capitalize upper_byte lower_byte ◌=?◌
nosniff-Apart = (refl, refl)

values-http_error :
    (msg : Bytes) (code : ℕ) (h : Md)
    → (values (canonical_key status_header) (http_error msg code h).reply_header
        ≡ values (canonical_key status_header) h)
      × (values (canonical_key details_header) (http_error msg code h).reply_header
          ≡ values (canonical_key details_header) h)
unfolding http_error
values-http_error msg code h =
    let h' : Md = set_header h (codes "Content-Type") (codes "text/plain; charset=utf-8") in
    (
      values-set_header h' (codes "X-Content-Type-Options") (codes "nosniff")
            (canonical_key status_header)
          ∙ rw nosniff-Apart.0 (
              values-set_header h (codes "Content-Type") (codes "text/plain; charset=utf-8")
                (canonical_key status_header)
              ∙ rw content_type-Apart.0 refl),
      values-set_header h' (codes "X-Content-Type-Options") (codes "nosniff")
            (canonical_key details_header)
          ∙ rw nosniff-Apart.1 (
              values-set_header h (codes "Content-Type") (codes "text/plain; charset=utf-8")
                (canonical_key details_header)
              ∙ rw content_type-Apart.1 refl),
    )

get_header-same :
    (a b : Md) (k : Bytes)
    → values (canonical_key k) a ≡ values (canonical_key k) b
    → get_header a k ≡ get_header b k
unfolding get_header
get_header-same a b k p = ap first p

-- statFromResponse reads no other headers than the two.
stat_from_response-same :
    (raw : Base64) (codec : DetailsCodec) (a b : Md) (code : ℕ) (text : Bytes)
    → values (canonical_key status_header) a ≡ values (canonical_key status_header) b
    → values (canonical_key details_header) a ≡ values (canonical_key details_header) b
    → stat_from_response raw codec (record { status_code = code; status_text = text; header = a })
      ≡ stat_from_response raw codec (record { status_code = code; status_text = text; header = b })
unfolding stat_from_response read_code
stat_from_response-same raw codec a b code text p q =
    rw (get_header-same a b status_header p, q) refl

module _ {M : Type 0} (srv : Serving M) where
  -- The default renderer calls http.Error, with some message and status.
  renders :
      (ended : Bool) (st : Status) (h : Md)
      → (msg : Bytes) × (code : ℕ) × (default_error_renderer srv ended st h ≡ http_error msg code h)
  unfolding default_error_renderer
  renders ended st h = elim (Bool-cases ((st.code == 1 || st.code == 4) && ended)) [
    | inl closed ↦ (codes "Client Closed Request", 499, rw closed refl)
    | inr open_ended ↦
        let code = http_status_from_code st.code in
        (
          (if is_empty (srv.status_text code) then srv.code_text st.code else srv.status_text code),
          code,
          rw open_ended refl,
        )
  ]

  pub answer-error :
      (name : CodecName) (req : Request) (h : Md) (e : GoError)
      → srv.err_func ≡ none
      → answer srv name req h (err e)
        ≡ default_error_renderer srv req.request_ended
            (error_status srv.raw_base64 (srv.details_of name) (srv.from_error e))
            (status_headers srv.raw_base64 (srv.details_of name) (srv.from_error e) h)
  unfolding answer
  answer-error name req h e plain = rw plain refl

  -- A request that passes all checks is answered by the handler.
  pub answered :
      (req : Request) (name : CodecName) (ctx : Md × Option ℕ) (b : Bytes)
      (r : Result M × UnaryStream)
      → req.verb ≡ codes "POST"
      → get_codec_for_server_unary_response srv.media_type
          (get_header req.request_header (codes "Content-Type"))
        ≡ some name
      → context_from_headers srv.url_base64 req.request_header ≡ ok ctx
      → req.request_body ≡ ok b
      → srv.run_handler ctx (decoded srv ((srv.codec_of name).unmarshal b)) (new srv.full_method)
        ≡ r
      → handle_method srv req ≡ answer srv name req (collected srv r.1) r.0
  unfolding handle_method
  answered req name ctx b r post known context body ran =
      rw (post, =?_refl (codes "POST"), known, context, body, ran) refl

  -- A handler's error, rendered by default, in the eyes of the client.
  default_error_renderer-stat :
      (name : CodecName) (ended : Bool) (st : Status) (h : Md) (text : Bytes)
      → st.code < 4294967296
      → values (canonical_key details_header) h ≡ []
      → ((d : Bytes)
          → (b : Bytes) × ((srv.details_of name).marshal_any d ≡ some b)
            × ((srv.details_of name).unmarshal_any b ≡ some d))
      → stat_from_response srv.raw_base64 (srv.details_of name) (
          response_of
            (default_error_renderer srv ended
              (error_status srv.raw_base64 (srv.details_of name) st)
              (status_headers srv.raw_base64 (srv.details_of name) st h))
            text)
        ≡ some (error_status srv.raw_base64 (srv.details_of name) st)
  default_error_renderer-stat name ended st h text small clean faithful =
      let raw = srv.raw_base64 in
      let codec = srv.details_of name in
      let sent : Md = status_headers raw codec st h in
      let (msg, code, e) = renders ended (error_status raw codec st) sent in
      let (p, q) = values-http_error msg code sent in
      rw e (
        stat_from_response-same raw codec (http_error msg code sent).reply_header sent
          (http_error msg code sent).reply_status text p q
        ∙ stat_from_response-status_headers raw codec st h (http_error msg code sent).reply_status
            text small clean faithful)

  -- A POST request in a known content type whose headers and body can be read, and whose handler
  -- returns an error, is answered, with the default renderer, so that the client reads the error's
  -- status off the response, with OK turned into Internal, if the code fits in 32 bits, the handler
  -- left no details header of its own and the details' codec is faithful.
  pub handle_method-stat_from_response :
      (req : Request) (name : CodecName) (ctx : Md × Option ℕ) (b : Bytes) (e : GoError)
      (sts : UnaryStream) (text : Bytes)
      → req.verb ≡ codes "POST"
      → get_codec_for_server_unary_response srv.media_type
          (get_header req.request_header (codes "Content-Type"))
        ≡ some name
      → context_from_headers srv.url_base64 req.request_header ≡ ok ctx
      → req.request_body ≡ ok b
      → srv.run_handler ctx (decoded srv ((srv.codec_of name).unmarshal b)) (new srv.full_method)
        ≡ (err e, sts)
      → srv.err_func ≡ none
      → (srv.from_error e).code < 4294967296
      → values (canonical_key details_header) (collected srv sts) ≡ []
      → ((d : Bytes)
          → (b : Bytes) × ((srv.details_of name).marshal_any d ≡ some b)
            × ((srv.details_of name).unmarshal_any b ≡ some d))
      → stat_from_response srv.raw_base64
          (srv.details_of name)
          (response_of (handle_method srv req) text)
        ≡ some (error_status srv.raw_base64 (srv.details_of name) (srv.from_error e))
  handle_method-stat_from_response req name ctx b e sts text post known context body ran plain small
        clean faithful =
      rw
        (
          answered req name ctx b (err e, sts) post known context body ran,
          answer-error name req (collected srv sts) e plain,
        )
        (default_error_renderer-stat name req.request_ended (srv.from_error e) (collected srv sts)
          text small clean faithful)
