-- ===== src/Httpgrpc/ServerStream/Receiving.antt =====
-- What RecvMsg makes of the requests of a body that is written as the framing says.
use grpchan.Base.{
  All, length, Bytes, GoError, eof, Result, ok, err, ℕ, zero, suc, ◌<◌, ◌≡◌, refl, ap, true, false,
  Option, none, some, List, [], ◌∷◌, ◌++◌, arith,
}
use grpchan.Httpgrpc.Wire.{Wire}
use grpchan.Httpgrpc.Wire.Requests.{Carries}
use grpchan.Httpgrpc.ServerStream.{ServerStream, too_many_requests, recv_msg}

-- A handler's loop: RecvMsg until it fails, which gives the messages and the error.
pub record Requests (M : Type 0) : Type 0 where
  pub requests : List M
  pub failed : Option GoError

abbrev pub with_request : {M : Type 0} → Result M → Requests M → Requests M
with_request (ok m) rest = record rest { requests = m ∷ rest.requests }
with_request (err e) rest = record { requests = []; failed = some e }

unfoldable pub receive_requests : {M : Type 0} → Wire M → ℕ → ServerStream → Requests M
receive_requests wire zero s = record { requests = []; failed = none }
receive_requests wire (suc n) s =
    let (r, s') = recv_msg wire true s in with_request r (receive_requests wire n s')

module _ {M : Type 0} (wire : Wire M) where
  -- What RecvMsg should give a handler of a method that takes one request.
  abbrev pub single_request : List M → Result M
  single_request [] = err eof
  single_request (m ∷ []) = ok m
  single_request (m ∷ m' ∷ ms) = err (too_many_requests wire)

module _ {M : Type 0} {Fits : M → Type 0} (wire : Wire M) (f : Carries wire Fits) where
  abbrev pub body_bytes : List M → Bytes
  body_bytes [] = []
  body_bytes (m ∷ ms) = f.request_bytes m ++ body_bytes ms

  recv_msg-request :
      (m : M) (rest : Bytes) (s : ServerStream)
      → Fits m
      → s.input ≡ record { input = f.request_bytes m ++ rest; fail = eof }
      → recv_msg wire true s
        ≡ (ok m, record s { input = record { input = rest; fail = eof }; recvd = suc s.recvd })
  unfolding recv_msg
  recv_msg-request m rest s fits at =
      rw (at, f.reads_request m rest eof fits, f.decodes_request m fits) refl

  recv_msg-end :
      (s : ServerStream)
      → s.input ≡ record { input = []; fail = eof }
      → (recv_msg wire true s).0 ≡ err eof
  unfolding recv_msg
  recv_msg-end s at = rw (at, f.reads_end) refl

  -- A handler that receives until there is an error gets all the requests of a body, in order, and
  -- then EOF, if they fit and it receives often enough.
  pub receive_requests-body_bytes :
      (ms : List M) (s : ServerStream) (n : ℕ)
      → length ms < n
      → All Fits ms
      → s.input ≡ record { input = body_bytes ms; fail = eof }
      → receive_requests wire n s ≡ record { requests = ms; failed = some eof }
  unfolding receive_requests
  receive_requests-body_bytes ms s zero enough fits at = absurd (omega (arith, enough))
  receive_requests-body_bytes [] s (suc n) enough fits at = rw (recv_msg-end s at) refl
  receive_requests-body_bytes (m ∷ ms) s (suc n) enough fits at =
      let s' : ServerStream = record s {
        input = record { input = body_bytes ms; fail = eof };
        recvd = suc s.recvd;
      } in
      rw (recv_msg-request m (body_bytes ms) s fits.0 at) (
        ap (with_request (ok m))
          (receive_requests-body_bytes ms s' n (omega (arith, enough)) fits.1 refl))

  -- On a method that takes one request, the first RecvMsg gives it if it is the only one of the body,
  -- EOF if there is none, and an error if there are more, each of them fitting.
  pub recv_msg-single_request :
      (ms : List M) (s : ServerStream)
      → All Fits ms
      → s.recvd ≡ 0
      → s.input ≡ record { input = body_bytes ms; fail = eof }
      → (recv_msg wire false s).0 ≡ single_request wire ms
  unfolding recv_msg
  recv_msg-single_request [] s fits none_yet at = rw (none_yet, at, f.reads_end) refl
  recv_msg-single_request (m ∷ []) s fits none_yet at =
      rw (none_yet, at, f.reads_request m [] eof fits.0, f.decodes_request m fits.0, f.reads_end)
        refl
  recv_msg-single_request (m ∷ m' ∷ ms) s fits none_yet at =
      rw
        (
          none_yet,
          at,
          f.reads_request m (f.request_bytes m' ++ body_bytes ms) eof fits.0,
          f.decodes_request m fits.0,
          f.reads_request m' (body_bytes ms) eof fits.1.0,
        )
        refl
