-- ===== src/Httpgrpc/ServerStream/Sent.antt =====
-- When the headers of a stream are sent, and that no handler can change them after that.
use grpchan.Base.{
  if◌then◌else◌, Bool-cases, Md, Result, ok, err, ◌≡◌, refl, sym, subst, ◌∙◌, eof, ◌⊎◌, inl, inr,
  Bool, true, false, [], arith,
}
use grpchan.Stdio.{Writer}
use grpchan.Httpgrpc.Headers.{to_headers}
use grpchan.Httpgrpc.Wire.{Wire}
use grpchan.Httpgrpc.ServerStream.{
  ServerStream, set_header_with, set_header, send_header, set_trailer, after_send, send_msg,
  recv_msg, Handler, returns, sets_header, sends_header, sets_trailer, sends_msg, recvs_msg,
  StreamServing, run_handler,
}
use grpchan.Httpgrpc.ServerStream.Handlers.{recv_msg-SameOutput}

module _ {M : Type 0} (srv : StreamServing M) (wire : Wire M) where
  -- The headers are sent, and are these.
  abbrev pub Sent : Md → ServerStream → Type 0
  Sent h s = (s.headers_sent ≡ true) × (s.response_header ≡ h)

  set_header_with-Sent :
      (md : Md) (send : Bool) (s : ServerStream) (h : Md)
      → Sent h s
      → Sent h (set_header_with srv.base64 md send s).1
  unfolding set_header_with
  set_header_with-Sent md send s h sent = ground arith

  after_send-Sent :
      (r : Result (Unit {0}) × Writer) (s : ServerStream) (h : Md)
      → Sent h s
      → Sent h (after_send wire r s).1
  after_send-Sent (ok x, out) s h sent = sent
  after_send-Sent (err e, out) s h sent = sent

  send_msg-Sent : (m : M) (s : ServerStream) (h : Md) → Sent h s → Sent h (send_msg wire m s).1
  unfolding send_msg
  send_msg-Sent m s h sent =
      ground (
        arith,
        after_send-Sent (wire.write_response m s.output) (record s { headers_sent = true }) h,
      )

  stays-Sent :
      (p : Handler M) (s : ServerStream) (h : Md) → Sent h s → Sent h (run_handler srv wire p s).1
  unfolding run_handler set_header send_header set_trailer
  stays-Sent (returns e) s h sent = sent
  stays-Sent (sets_header md next) s h sent =
      let (r, s') = set_header srv.base64 md s in
      stays-Sent (next r) s' h (set_header_with-Sent md false s h sent)
  stays-Sent (sends_header md next) s h sent =
      let (r, s') = send_header srv.base64 md s in
      stays-Sent (next r) s' h (set_header_with-Sent md true s h sent)
  stays-Sent (sets_trailer md next) s h sent = stays-Sent next (set_trailer md s) h sent
  stays-Sent (sends_msg m next) s h sent =
      let (r, s') = send_msg wire m s in stays-Sent (next r) s' h (send_msg-Sent m s h sent)
  stays-Sent (recvs_msg next) s h sent =
      let (r, s') = recv_msg wire srv.client_streams s in
      let (_, _, same, flag, _) = recv_msg-SameOutput wire srv.client_streams s in
      stays-Sent (next r) s' h (flag ∙ sent.0, same ∙ sent.1)

  -- The headers are sent by a handler's first call at the latest, and are these: SendHeader sends what
  -- was set before with its own, a message what was set before.
  abbrev pub SentBy : Handler M → ServerStream → Md → Type 0
  SentBy (sends_header md next) s h = h ≡ (
      if s.headers_sent then s.response_header else to_headers srv.base64 md s.response_header [])
  SentBy (sends_msg m next) s h =
      ((s.headers_sent ≡ true) ⊎ (s.write_failed ≡ false)) × (s.response_header ≡ h)
  SentBy (returns e) s h = Sent h s
  SentBy (sets_header md next) s h = Sent h s
  SentBy (sets_trailer md next) s h = Sent h s
  SentBy (recvs_msg next) s h = Sent h s

  send_header-Sent :
      (md : Md) (s : ServerStream) (h : Md)
      → h ≡ (
          if s.headers_sent
          then s.response_header
          else to_headers srv.base64 md s.response_header [])
      → Sent h (send_header srv.base64 md s).1
  unfolding send_header set_header_with
  send_header-Sent md s h e = elim (Bool-cases s.headers_sent) [
    | inl sent ↦ ground arith
    | inr unsent ↦ ground arith
  ]

  first_message-Sent :
      (m : M) (s : ServerStream) (h : Md)
      → (s.headers_sent ≡ true) ⊎ (s.write_failed ≡ false)
      → s.response_header ≡ h
      → Sent h (send_msg wire m s).1
  unfolding send_msg
  first_message-Sent m s h (inl sent) same = send_msg-Sent m s h (sent, same)
  first_message-Sent m s h (inr writable) same =
      let sent =
        after_send wire (wire.write_response m s.output) (record s { headers_sent = true }) in
      subst (λ b. Sent h (if b then (err eof, s) else sent).1) (sym writable)
        (after_send-Sent (wire.write_response m s.output) (record s { headers_sent = true }) h
          (refl, same))

  -- SendHeader sends the headers that were set before it and its own, and the first message those that
  -- were set before it, unless a message could not be written before; and once they are sent, whatever
  -- else the handler does, they stay sent and as they are.
  pub run_handler-Sent :
      (p : Handler M) (s : ServerStream) (h : Md)
      → SentBy p s h
      → Sent h (run_handler srv wire p s).1
  unfolding run_handler
  run_handler-Sent (sends_header md next) s h by =
      let (r, s') = send_header srv.base64 md s in
      stays-Sent (next r) s' h (send_header-Sent md s h by)
  run_handler-Sent (sends_msg m next) s h by =
      let (r, s') = send_msg wire m s in
      stays-Sent (next r) s' h (first_message-Sent m s h by.0 by.1)
  run_handler-Sent (returns e) s h by = stays-Sent (returns e) s h by
  run_handler-Sent (sets_header md next) s h by = stays-Sent (sets_header md next) s h by
  run_handler-Sent (sets_trailer md next) s h by = stays-Sent (sets_trailer md next) s h by
  run_handler-Sent (recvs_msg next) s h by = stays-Sent (recvs_msg next) s h by
