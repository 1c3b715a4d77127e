-- ===== src/Httpgrpc/ServerStream/Handlers.antt =====
-- What no handler can do to its stream: receive a second message of a method that takes one.
use grpchan.Base.{
  ◌==◌, if◌then◌else◌, Bool-cases, Bytes, Md, Result, ok, err, ℕ, suc, ◌+◌, ◌≤◌, ◌≡◌, refl, ap, inl,
  inr, Bool, true, false, not, ◌&&◌, arith,
}
use grpchan.Stdio.{Reader, Writer}
use grpchan.Httpgrpc.Frames.{StreamMsg}
use grpchan.Httpgrpc.Wire.{Wire}
use grpchan.Httpgrpc.ServerStream.{
  ServerStream, set_header_with, set_header, send_header, set_trailer, after_send, send_msg,
  check_last, on_decoded, on_request, recv_msg, Handler, returns, sets_header, sends_header,
  sets_trailer, sends_msg, recvs_msg, StreamServing, new_stream,
}

-- The side of the stream that answers is as it was.
abbrev pub SameOutput : ServerStream → ServerStream → Type 0
SameOutput s t =
    (t.output ≡ s.output)
    × (t.write_failed ≡ s.write_failed)
    × (t.response_header ≡ s.response_header)
    × (t.headers_sent ≡ s.headers_sent)
    × (t.tr ≡ s.tr)

module _ {M : Type 0} (wire : Wire M) where
  check_last-SameOutput :
      (m : M) (r : Result StreamMsg × Reader) (s : ServerStream)
      → SameOutput s (check_last wire m r s).1
  check_last-SameOutput m (ok x, r) s = (refl, refl, refl, refl, refl)
  check_last-SameOutput m (err e, r) s = ground arith

  on_decoded-SameOutput :
      (many : Bool) (r : Result M) (s : ServerStream) → SameOutput s (on_decoded wire many r s).1
  on_decoded-SameOutput many (err e) s = (refl, refl, refl, refl, refl)
  on_decoded-SameOutput true (ok m) s = (refl, refl, refl, refl, refl)
  on_decoded-SameOutput false (ok m) s = check_last-SameOutput m (wire.read_request s.input) s

  on_request-SameOutput :
      (many : Bool) (r : Result StreamMsg × Reader) (s : ServerStream)
      → SameOutput s (on_request wire many r s).1
  on_request-SameOutput many (err e, r) s = (refl, refl, refl, refl, refl)
  on_request-SameOutput many (ok x, r) s =
      on_decoded-SameOutput many (wire.decode_msg x) (record s { input = r })

  -- RecvMsg leaves the answer alone.
  pub recv_msg-SameOutput : (many : Bool) (s : ServerStream) → SameOutput s (recv_msg wire many s).1
  unfolding recv_msg
  recv_msg-SameOutput many s = elim (Bool-cases (not many && not (s.recvd == 0))) [
    | inl refused ↦ rw refused (refl, refl, refl, refl, refl)
    | inr taken ↦
        rw taken (
          on_request-SameOutput many (wire.read_request s.input) (record s { recvd = suc s.recvd }))
  ]

abbrev pub count_ok : {M : Type 0} → Result M → ℕ
count_ok (ok m) = 1
count_ok (err e) = 0

module _ {M : Type 0} (srv : StreamServing M) (wire : Wire M) where
  -- How many messages RecvMsg hands to a handler in its run.
  unfoldable pub received_by : Handler M → ServerStream → ℕ
  unfolding set_header send_header set_trailer send_msg recv_msg
  received_by (returns e) s = 0
  received_by (sets_header md next) s =
      let (r, s') = set_header srv.base64 md s in received_by (next r) s'
  received_by (sends_header md next) s =
      let (r, s') = send_header srv.base64 md s in received_by (next r) s'
  received_by (sets_trailer md next) s = received_by next (set_trailer md s)
  received_by (sends_msg m next) s = let (r, s') = send_msg wire m s in received_by (next r) s'
  received_by (recvs_msg next) s =
      let (r, s') = recv_msg wire srv.client_streams s in count_ok r + received_by (next r) s'

  one_left : ℕ → ℕ
  one_left n = if n == 0 then 1 else 0

  set_header_with-recvd :
      (md : Md) (send : Bool) (s : ServerStream)
      → (set_header_with srv.base64 md send s).1.recvd ≡ s.recvd
  unfolding set_header_with
  set_header_with-recvd md send s = ground arith

  after_send-recvd :
      (r : Result (Unit {0}) × Writer) (s : ServerStream) → (after_send wire r s).1.recvd ≡ s.recvd
  after_send-recvd (ok x, out) s = refl
  after_send-recvd (err e, out) s = refl

  send_msg-recvd : (m : M) (s : ServerStream) → (send_msg wire m s).1.recvd ≡ s.recvd
  unfolding send_msg
  send_msg-recvd m s =
      ground (
        arith,
        after_send-recvd (wire.write_response m s.output) (record s { headers_sent = true }),
      )

  check_last-recvd :
      (m : M) (r : Result StreamMsg × Reader) (s : ServerStream)
      → (check_last wire m r s).1.recvd ≡ s.recvd
  check_last-recvd m (ok x, r) s = refl
  check_last-recvd m (err e, r) s = ground arith

  on_decoded-recvd :
      (many : Bool) (r : Result M) (s : ServerStream) → (on_decoded wire many r s).1.recvd ≡ s.recvd
  on_decoded-recvd many (err e) s = refl
  on_decoded-recvd true (ok m) s = refl
  on_decoded-recvd false (ok m) s = check_last-recvd m (wire.read_request s.input) s

  on_request-recvd :
      (many : Bool) (r : Result StreamMsg × Reader) (s : ServerStream)
      → (on_request wire many r s).1.recvd ≡ s.recvd
  on_request-recvd many (err e, r) s = refl
  on_request-recvd many (ok x, r) s =
      on_decoded-recvd many (wire.decode_msg x) (record s { input = r })

  count_ok-le : (r : Result M) → count_ok r ≤ 1
  count_ok-le (ok m) = omega arith
  count_ok-le (err e) = omega arith

  recv_msg-one_left_le :
      (s : ServerStream)
      → srv.client_streams ≡ false
      → count_ok (recv_msg wire srv.client_streams s).0
          + one_left (recv_msg wire srv.client_streams s).1.recvd
        ≤ one_left s.recvd
  unfolding recv_msg one_left
  recv_msg-one_left_le s one =
      let s' : ServerStream = record s { recvd = suc s.recvd } in
      rw one (
        ground (
          arith,
          on_request-recvd false (wire.read_request s.input) s',
          count_ok-le (on_request wire false (wire.read_request s.input) s').0,
        ))

  received_by-le :
      (h : Handler M) (s : ServerStream)
      → srv.client_streams ≡ false
      → received_by h s ≤ one_left s.recvd
  unfolding received_by set_header send_header set_trailer
  received_by-le (returns e) s one = omega arith
  received_by-le (sets_header md next) s one =
      let (r, s') = set_header srv.base64 md s in
      omega (arith, received_by-le (next r) s' one, ap one_left (set_header_with-recvd md false s))
  received_by-le (sends_header md next) s one =
      let (r, s') = send_header srv.base64 md s in
      omega (arith, received_by-le (next r) s' one, ap one_left (set_header_with-recvd md true s))
  received_by-le (sets_trailer md next) s one = received_by-le next (set_trailer md s) one
  received_by-le (sends_msg m next) s one =
      let (r, s') = send_msg wire m s in
      omega (arith, received_by-le (next r) s' one, ap one_left (send_msg-recvd m s))
  received_by-le (recvs_msg next) s one =
      let (r, s') = recv_msg wire srv.client_streams s in
      omega (arith, received_by-le (next r) s' one, recv_msg-one_left_le s one)

  -- A handler of a method that takes one request, whatever it does, is given at most one message on
  -- its stream.
  pub received_by-one :
      (h : Handler M) (content_type : Bytes) (body : Reader) (out : Writer)
      → srv.client_streams ≡ false
      → received_by h (new_stream srv content_type body out) ≤ 1
  unfolding one_left
  received_by-one h content_type body out one =
      received_by-le h (new_stream srv content_type body out) one
