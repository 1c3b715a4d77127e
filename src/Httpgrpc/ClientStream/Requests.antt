-- ===== src/Httpgrpc/ClientStream/Requests.antt =====
-- The requests of a stream over HTTP, from the caller's SendMsg to the handler's RecvMsg.
use grpchan.Base.{
  All, length, Bytes, eof, ok, ℕ, ◌<◌, ◌≡◌, refl, ap, ◌∙◌, false, none, some, List, [], ◌∷◌, ◌++◌,
  append-nil, append_assoc,
}
use grpchan.Registry.{value}
use grpchan.Httpgrpc.Wire.{Wire}
use grpchan.Httpgrpc.Wire.Requests.{Carries}
use grpchan.Httpgrpc.ClientStream.{ClientStream, send_msg, close_send, request_body}
use grpchan.Httpgrpc.ServerStream.{ServerStream}
use grpchan.Httpgrpc.ServerStream.Receiving.{
  receive_requests, single_request, body_bytes, receive_requests-body_bytes,
  recv_msg-single_request,
}
use grpchan.Httpgrpc.ServerStream.{recv_msg as recv_request}

-- A caller who sends these messages, whatever each SendMsg returns.
unfoldable pub send_all : {M : Type 0} → Wire M → List M → ClientStream → ClientStream
send_all wire [] s = s
send_all wire (m ∷ ms) s = send_all wire ms (send_msg wire m s).1

-- A stream on which sending works, with these bytes in the pipe.
abbrev pub Sends : Bytes → ClientStream → Type 0
Sends b s = (s.done ≡ false) × (s.w_err ≡ none) × (s.pipe ≡ record { written = b; room = none })

module _ {M : Type 0} {Fits : M → Type 0} (wire : Wire M) (f : Carries wire Fits) where
  send_msg-request :
      (m : M) (b : Bytes) (s : ClientStream)
      → Fits m
      → Sends b s
      → (send_msg wire m s).0 ≡ value (ok tt) × Sends (b ++ f.request_bytes m) (send_msg wire m s).1
  unfolding send_msg
  send_msg-request m b s fits h =
      rw (h.0, h.1, h.2, f.writes_request m (record { written = b; room = none }) fits refl)
        (refl, (refl, refl, refl))

  send_all-Sends :
      (ms : List M) (b : Bytes) (s : ClientStream)
      → All Fits ms
      → Sends b s
      → Sends (b ++ body_bytes wire f ms) (send_all wire ms s)
  unfolding send_all
  send_all-Sends [] b s fits h = rw append-nil h
  send_all-Sends (m ∷ ms) b s fits h =
      rw⁻¹ (append_assoc b (f.request_bytes m) (body_bytes wire f ms)) (
        send_all-Sends ms (b ++ f.request_bytes m) (send_msg wire m s).1 fits.1
          (send_msg-request m b s fits.0 h).1)

  request_body-close_send :
      (ms : List M) (s : ClientStream)
      → All Fits ms
      → Sends [] s
      → request_body (close_send (send_all wire ms s))
        ≡ record { input = body_bytes wire f ms; fail = eof }
  unfolding request_body close_send
  request_body-close_send ms s fits h =
      ap (λ p. record { input = p.written; fail = eof }) (send_all-Sends ms [] s fits h).2

  -- The handler of a method with many requests, receiving until there is an error, gets the messages
  -- that the caller sent before CloseSend, in order, and then EOF, on a stream that was not done and
  -- with a framing that carries them, if they fit and the handler receives often enough.
  pub receive_requests-send_all :
      (ms : List M) (c : ClientStream) (s : ServerStream) (n : ℕ)
      → length ms < n
      → All Fits ms
      → Sends [] c
      → s.input ≡ request_body (close_send (send_all wire ms c))
      → receive_requests wire n s ≡ record { requests = ms; failed = some eof }
  receive_requests-send_all ms c s n enough fits sends at =
      receive_requests-body_bytes wire f ms s n enough fits
        (at ∙ request_body-close_send ms c fits sends)

  -- The handler of a method with one request gets from its first RecvMsg the message that the caller
  -- sent before CloseSend, EOF if it sent none, and an error if it sent more, on a stream that was not
  -- done and with a framing that carries them, if they fit.
  pub recv_msg-send_all :
      (ms : List M) (c : ClientStream) (s : ServerStream)
      → All Fits ms
      → Sends [] c
      → s.recvd ≡ 0
      → s.input ≡ request_body (close_send (send_all wire ms c))
      → (recv_request wire false s).0 ≡ single_request wire ms
  recv_msg-send_all ms c s fits sends none_yet at =
      recv_msg-single_request wire f ms s fits none_yet
        (at ∙ request_body-close_send ms c fits sends)
