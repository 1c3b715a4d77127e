-- ===== src/Httpgrpc/ServerStream/Delivery.antt =====
-- What a handler's run writes on the connection.
use grpchan.Base.{
  All, Bytes, Md, ◌≡◌, refl, ◌∙◌, Bool, true, false, none, List, [], ◌∷◌, ◌++◌, append-nil,
  append_assoc, arith,
}
use grpchan.Httpgrpc.Wire.{HttpTrailer, Wire}
use grpchan.Httpgrpc.Wire.Laws.{IsFaithful}
use grpchan.Stdio.{Reader}
use grpchan.Httpgrpc.ServerStream.Handlers.{recv_msg-SameOutput}
use grpchan.Httpgrpc.ServerStream.{
  ServerStream, set_header_with, set_header, send_header, set_trailer, send_msg, recv_msg, Handler,
  returns, sets_header, sends_header, sets_trailer, sends_msg, recvs_msg, StreamServing,
  run_handler, trailer_of, finish_stream, new_stream,
}

module _ {M : Type 0} (srv : StreamServing M) (wire : Wire M) where
  -- The messages that a handler passes to SendMsg in its run, in order.
  unfoldable pub sent_by : Handler M → ServerStream → List M
  unfolding set_header send_header set_trailer send_msg recv_msg
  sent_by (returns e) s = []
  sent_by (sets_header md next) s = let (r, s') = set_header srv.base64 md s in sent_by (next r) s'
  sent_by (sends_header md next) s =
      let (r, s') = send_header srv.base64 md s in sent_by (next r) s'
  sent_by (sets_trailer md next) s = sent_by next (set_trailer md s)
  sent_by (sends_msg m next) s = let (r, s') = send_msg wire m s in m ∷ sent_by (next r) s'
  sent_by (recvs_msg next) s =
      let (r, s') = recv_msg wire srv.client_streams s in sent_by (next r) s'

-- That the connection has no limit and nothing failed on it, with these bytes written.
abbrev pub Wrote : Bytes → ServerStream → Type 0
Wrote b s = (s.output ≡ record { written = b; room = none }) × (s.write_failed ≡ false)

module _ {M : Type 0} {Fits : M → Type 0} {FitsTrailer : HttpTrailer → Type 0}
    (srv : StreamServing M) (wire : Wire M) (f : IsFaithful wire Fits FitsTrailer) where
  abbrev pub all_bytes : List M → Bytes
  all_bytes [] = []
  all_bytes (m ∷ ms) = f.message_bytes m ++ all_bytes ms

  Wrote-set_header_with :
      (md : Md) (send : Bool) (s : ServerStream) (b : Bytes)
      → Wrote b s
      → Wrote b (set_header_with srv.base64 md send s).1
  unfolding set_header_with
  Wrote-set_header_with md send s b h = ground arith

  Wrote-recv_msg :
      (s : ServerStream) (b : Bytes) → Wrote b s → Wrote b (recv_msg wire srv.client_streams s).1
  Wrote-recv_msg s b h =
      let (out, failed, _, _, _) = recv_msg-SameOutput wire srv.client_streams s in
      (out ∙ h.0, failed ∙ h.1)

  Wrote-send_msg :
      (m : M) (s : ServerStream) (b : Bytes)
      → Fits m
      → Wrote b s
      → Wrote (b ++ f.message_bytes m) (send_msg wire m s).1
  unfolding send_msg
  Wrote-send_msg m s b fits h =
      rw (h.1, h.0, f.writes_response m (record { written = b; room = none }) fits refl)
        (refl, refl)

  Wrote-run_handler :
      (p : Handler M) (s : ServerStream) (b : Bytes)
      → All Fits (sent_by srv wire p s)
      → Wrote b s
      → Wrote (b ++ all_bytes (sent_by srv wire p s)) (run_handler srv wire p s).1
  unfolding run_handler sent_by set_header send_header set_trailer
  Wrote-run_handler (returns e) s b fits h = (h.0 ∙ rw append-nil refl, h.1)
  Wrote-run_handler (sets_header md next) s b fits h =
      let (r, s') = set_header srv.base64 md s in
      Wrote-run_handler (next r) s' b fits (Wrote-set_header_with md false s b h)
  Wrote-run_handler (sends_header md next) s b fits h =
      let (r, s') = send_header srv.base64 md s in
      Wrote-run_handler (next r) s' b fits (Wrote-set_header_with md true s b h)
  Wrote-run_handler (sets_trailer md next) s b fits h =
      Wrote-run_handler next (set_trailer md s) b fits h
  Wrote-run_handler (sends_msg m next) s b fits h =
      let (r, s') = send_msg wire m s in
      rw⁻¹ (append_assoc b (f.message_bytes m) (all_bytes (sent_by srv wire (next r) s'))) (
        Wrote-run_handler (next r) s' (b ++ f.message_bytes m) fits.1
          (Wrote-send_msg m s b fits.0 h))
  Wrote-run_handler (recvs_msg next) s b fits h =
      let (r, s') = recv_msg wire srv.client_streams s in
      Wrote-run_handler (next r) s' b fits (Wrote-recv_msg s b h)

  -- The stream on which a handler starts, on a connection with no limit.
  abbrev pub fresh : Bytes → Reader → ServerStream
  fresh content_type body = new_stream srv content_type body (record { written = []; room = none })

  -- On a connection with no limit and with a faithful framing, the body of the response is the
  -- messages that the handler sent, in order, if they fit, and then the trailer of what it returned,
  -- if that fits.
  pub finish_stream-written :
      (p : Handler M) (content_type : Bytes) (body : Reader)
      → let ended = run_handler srv wire p (fresh content_type body) in
        All Fits (sent_by srv wire p (fresh content_type body))
        → FitsTrailer (trailer_of srv ended.0 ended.1.tr)
        → (finish_stream srv wire ended).output.written
          ≡ all_bytes (sent_by srv wire p (fresh content_type body))
            ++ f.trailer_bytes (trailer_of srv ended.0 ended.1.tr)
  unfolding finish_stream
  finish_stream-written p content_type body fits fits_trailer =
      let start = fresh content_type body in
      let (e, s) = run_handler srv wire p start in
      let (out, failed) = Wrote-run_handler p start [] fits (refl, refl) in
      rw
        (
          failed,
          out,
          f.writes_trailer (trailer_of srv e s.tr)
              (record { written = all_bytes (sent_by srv wire p start); room = none }) fits_trailer
              refl,
        )
        refl
