-- ===== src/Httpgrpc/ClientStream/EndToEnd.antt =====
-- The two ends of a stream of responses: what a handler does, and what the caller then gets.
use grpchan.Base.{
  ◌==◌, if◌then◌else◌, All, length, Bytes, Md, IsUnique, put_values, put_values-nil, GoError, eof,
  status_error, ℕ, ◌<◌, ◌≡◌, refl, sym, ap, ◌∙◌, true, Option, none, some, List, [], ◌∷◌, ◌++◌,
  append-nil, append_assoc, arith,
}
use grpchan.Stdio.{Reader}
use grpchan.Httpgrpc.Wire.{HttpTrailer, Wire}
use grpchan.Httpgrpc.Wire.Laws.{IsFaithful}
use grpchan.Httpgrpc.ClientStream.{
  reading, ClientStream, metadata_from_proto, trailer_error, trailer,
}
use grpchan.Httpgrpc.ServerStream.{
  Handler, as_trailer_proto, StreamServing, run_handler, trailer_of, finish_stream,
}
use grpchan.Httpgrpc.ServerStream.Delivery.{sent_by, all_bytes, fresh, finish_stream-written}
use grpchan.Httpgrpc.ClientStream.Receiving.{drain, Reads, response_bytes, drain-response_bytes}

-- Trailers cross in the message as they are.
metadata_from_proto-as_trailer_proto :
    (md : Md) → IsUnique md → metadata_from_proto (as_trailer_proto md) ≡ md
unfolding metadata_from_proto as_trailer_proto
metadata_from_proto-as_trailer_proto md u =
    ap (put_values []) (put_values-nil md u) ∙ put_values-nil md u

module _ {M : Type 0} {Fits : M → Type 0} {FitsTrailer : HttpTrailer → Type 0}
    (srv : StreamServing M) (wire : Wire M) (error_text : GoError → Bytes)
    (f : IsFaithful wire Fits FitsTrailer) where
  response_bytes-all_bytes :
      (ms : List M) (t : HttpTrailer)
      → response_bytes wire error_text f ms t [] ≡ all_bytes srv wire f ms ++ f.trailer_bytes t
  response_bytes-all_bytes [] t = rw append-nil refl
  response_bytes-all_bytes (m ∷ ms) t =
      rw (response_bytes-all_bytes ms t)
        (sym (append_assoc (f.message_bytes m) (all_bytes srv wire f ms) (f.trailer_bytes t)))

  -- What the caller should see of what a handler returns: EOF, or its status, which is never OK.
  abbrev pub answered : Option GoError → GoError
  answered none = eof
  answered (some e) =
      let st = srv.status_from e in
      status_error (if st.code == 0 then record st { code = 13 } else st)

  trailer_error-trailer_of :
      (e : Option GoError) (tr : List Md) → trailer_error (trailer_of srv e tr) ≡ answered e
  unfolding trailer_of
  trailer_error-trailer_of none tr = refl
  trailer_error-trailer_of (some e) tr = ground arith

  -- On a stream of responses, with a faithful framing, a connection with no limit and a context that
  -- stays live for the caller, whose selects take the channel: whatever a handler does, its caller, on that response, gets the messages that the handler sent, in order, then
  -- EOF if the handler returned no error, and else the status of the error, and as trailers the
  -- metadata that the handler set there, if all of that fits, each key is there once, and the caller
  -- receives often enough.
  pub drain-handler :
      (p : Handler M) (content_type : Bytes) (body : Reader) (s : ClientStream) (n : ℕ)
      → let sent = sent_by srv wire p (fresh srv wire f content_type body) in
        let ended = run_handler srv wire p (fresh srv wire f content_type body) in
        length sent < n
        → All Fits sent
        → FitsTrailer (trailer_of srv ended.0 ended.1.tr)
        → IsUnique (srv.join_all ended.1.tr)
        → s.resp_stream ≡ true
        → Reads (finish_stream srv wire ended).output.written eof s
        → let d = drain wire error_text n s in
          (d.messages ≡ sent)
          × (d.ended ≡ some (answered ended.0))
          × (trailer d.stream ≡ some (srv.join_all ended.1.tr))
  unfolding trailer_of
  drain-handler p content_type body s n enough fits fits_trailer unique streams at =
      let start = fresh srv wire f content_type body in
      let sent = sent_by srv wire p start in
      let ended = run_handler srv wire p start in
      let t = trailer_of srv ended.0 ended.1.tr in
      let bytes =
        finish_stream-written srv wire f p content_type body fits fits_trailer
        ∙ sym (response_bytes-all_bytes sent t) in
      let (same, over, md) =
        drain-response_bytes wire error_text f sent t [] eof s n enough fits fits_trailer streams
          (at.0 ∙ ap (λ b. reading (record { input = b; fail = eof })) bytes, at.1) in
      (
        same,
        over ∙ ap some (trailer_error-trailer_of ended.0 ended.1.tr),
        md ∙ ap some (metadata_from_proto-as_trailer_proto (srv.join_all ended.1.tr) unique),
      )
