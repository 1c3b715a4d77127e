-- ===== src/Httpgrpc/ClientStream/Runs.antt =====
-- Runs of the caller's stream, from the response on: the caller's calls and the steps of the goroutine,
-- in any order.
use grpchan.Base.{
  Bytes, codes, Md, Status, GoError, eof, Result, ok, err, ◌≡◌, refl, sym, ap, ◌∙◌, subst, true,
  Option, none, some, arith,
}
use grpchan.Stdio.{Writer}
use grpchan.Registry.{Outcome, value, panic}
use grpchan.Internal.CallOptions.{Peer, set_peer}
use grpchan.Httpgrpc.Protocol.{CodecName, Framing, get_client_stream_reader}
use grpchan.Httpgrpc.Headers.{Base64, as_metadata}
use grpchan.Httpgrpc.Status.{DetailsCodec, first, get_header, stat_from_response}
use grpchan.Httpgrpc.Wire.{Wire}
use grpchan.Httpgrpc.ClientStream.{
  Producer, reading, offering, finished, ClientStream, finish, produced, produce, abandoned,
  abandon, final_error, trailer, Select, recv_msg, after_request, send_msg, HttpResponse, on_ready,
  on_reader, on_status, on_headers, start, close_send,
}
use grpchan.Httpgrpc.ClientStream.Safety.{
  IsSettled, produce-AtRest, AtRest-Ended, Returns, read_error_if_done-done, recv_msg-IsSafe,
}

pub data Step {M : Type 0} (wire : Wire M) (error_text : GoError → Bytes)
    : ClientStream → ClientStream → Type 0 where
  receives :
      (first second : Select) (s : ClientStream)
      → Step wire error_text s (recv_msg wire error_text first second s).1
  sends : (m : M) (s : ClientStream) → Step wire error_text s (send_msg wire m s).1
  reads : (s : ClientStream) → Step wire error_text s (produce wire s)
  gives_up : (e : GoError) (s : ClientStream) → Step wire error_text s (abandon e s)
  closes : (s : ClientStream) → Step wire error_text s (close_send s)

pub data Runs {M : Type 0} (wire : Wire M) (error_text : GoError → Bytes) (s : ClientStream)
    : ClientStream → Type 0 where
  here : Runs wire error_text s s
  next :
      {t u : ClientStream}
      → Runs wire error_text s t
      → Step wire error_text t u
      → Runs wire error_text s u

-- The goroutine has ended, and the stream with this error.
abbrev pub Over : GoError → ClientStream → Type 0
Over e s = (s.producer ≡ finished) × (s.done ≡ true) × (final_error s.r_err s.tr ≡ e)

module _ {M : Type 0} (wire : Wire M) (error_text : GoError → Bytes) where
  after_request-IsSettled :
      (r : Outcome (Result (Unit {0}) × Writer)) (s : ClientStream)
      → IsSettled s
      → IsSettled (after_request wire r s).1
  after_request-IsSettled (panic why) s h = h
  after_request-IsSettled (value (ok x, p)) s h = h
  after_request-IsSettled (value (err e, p)) s h = h

  send_msg-IsSettled : (m : M) (s : ClientStream) → IsSettled s → IsSettled (send_msg wire m s).1
  unfolding send_msg
  send_msg-IsSettled m s h =
      ground (arith, after_request-IsSettled (wire.write_request m s.pipe) s h)

  abandoned-IsSettled :
      (e : GoError) (p : Producer) (s : ClientStream) → IsSettled s → IsSettled (abandoned e p s)
  unfolding finish
  abandoned-IsSettled e (offering msg r) s h = refl
  abandoned-IsSettled e (reading r) s h = h
  abandoned-IsSettled e finished s h = h

  close_send-IsSettled : (s : ClientStream) → IsSettled s → IsSettled (close_send s)
  unfolding close_send
  close_send-IsSettled s h = h

  Step-IsSettled : {s t : ClientStream} → Step wire error_text s t → IsSettled s → IsSettled t
  unfolding abandon
  Step-IsSettled (receives first second s) h = (recv_msg-IsSafe wire error_text first second s h).1
  Step-IsSettled (sends m s) h = send_msg-IsSettled m s h
  Step-IsSettled (reads s) h =
      let t = produce wire s in AtRest-Ended wire t.producer t.done (produce-AtRest wire s h)
  Step-IsSettled (gives_up e s) h = abandoned-IsSettled e s.producer s h
  Step-IsSettled (closes s) h = close_send-IsSettled s h

  pub Runs-IsSettled : {s t : ClientStream} → IsSettled s → Runs wire error_text s t → IsSettled t
  Runs-IsSettled h here = h
  Runs-IsSettled h (next runs step) = Step-IsSettled step (Runs-IsSettled h runs)

abbrev pub WellStarted : Outcome ClientStream → Type 0
WellStarted (value s) = IsSettled s
WellStarted (panic why) = Unit

module _ (url64 raw64 : Base64) (details : DetailsCodec) (media_type : Bytes → Bytes) where
  on_reader-WellStarted :
      (chosen : Option (CodecName × Framing)) (reply : HttpResponse) (s : ClientStream)
      → WellStarted (on_reader url64 raw64 details media_type chosen reply s)
  on_reader-WellStarted none reply s = tt
  on_reader-WellStarted (some chosen) reply s = tt

  on_status-WellStarted :
      (st : Option Status) (reply : HttpResponse) (s : ClientStream)
      → WellStarted (on_status url64 raw64 details media_type st reply s)
  unfolding finish
  on_status-WellStarted (some st) reply s = refl
  on_status-WellStarted none reply s =
      on_reader-WellStarted
        (get_client_stream_reader media_type
          (media_type (get_header reply.response.header (codes "Content-Type"))))
        reply s

  on_headers-WellStarted :
      (md : Result Md) (p : Peer) (reply : HttpResponse) (s : ClientStream)
      → WellStarted (on_headers url64 raw64 details media_type md p reply s)
  unfolding finish
  on_headers-WellStarted (err e) p reply s = refl
  on_headers-WellStarted (ok md) p reply s =
      on_status-WellStarted (stat_from_response raw64 details reply.response) reply
        (on_ready url64 raw64 details media_type none (some md) s)

  pub start-WellStarted :
      (response : Result HttpResponse) (p : Peer) (s : ClientStream)
      → WellStarted (start url64 raw64 details media_type response p s)
  unfolding start finish
  start-WellStarted (err e) p s = refl
  start-WellStarted (ok reply) p s =
      on_headers-WellStarted (as_metadata url64 reply.response.header) p reply
        (record s { store = set_peer s.copts p s.store })

  -- From what doHttpCall makes of a response on, whatever calls of RecvMsg, SendMsg and CloseSend
  -- and whatever steps of the goroutine there have been, RecvMsg returns: its check that a closed channel is that of a finished stream does not fail.
  pub recv_msg-Returns :
      {M : Type 0} (wire : Wire M) (error_text : GoError → Bytes) (response : Result HttpResponse)
      (p : Peer) (new s t : ClientStream) (first second : Select)
      → start url64 raw64 details media_type response p new ≡ value s
      → Runs wire error_text s t
      → Returns (recv_msg wire error_text first second t).0
  recv_msg-Returns wire error_text response p new s t first second started runs =
      (recv_msg-IsSafe wire error_text first second t (
        Runs-IsSettled wire error_text
          (subst WellStarted started (start-WellStarted response p new)) runs)).0

module _ {M : Type 0} (wire : Wire M) (error_text : GoError → Bytes) (e : GoError) where
  -- What each operation does on a stream that is over.
  pub Over-recv_msg :
      (first second : Select) (s : ClientStream)
      → Over e s
      → recv_msg wire error_text first second s ≡ (value (err e), s)
  unfolding recv_msg
  Over-recv_msg x y s h = rw (read_error_if_done-done s h.1, h.2) refl

  pub Over-send_msg :
      (m : M) (s : ClientStream) → Over e s → send_msg wire m s ≡ (value (err eof), s)
  unfolding send_msg
  Over-send_msg m s h = ground arith

  -- A stream that is over stays so, with the same trailer; only CloseSend still changes it.
  abbrev Lasts : ClientStream → ClientStream → Type 0
  Lasts s t = Over e t × (t.tr ≡ s.tr)

  unchanged-Lasts : {s t : ClientStream} → t ≡ s → Over e s → Lasts s t
  unchanged-Lasts {s} same h = (subst (Over e) (sym same) h, ap (λ r. r.tr) same)

  close_send-Lasts : (s : ClientStream) → Over e s → Lasts s (close_send s)
  unfolding close_send
  close_send-Lasts s h = (h, refl)

  Step-Lasts : {s t : ClientStream} → Step wire error_text s t → Over e s → Lasts s t
  unfolding produce abandon
  Step-Lasts (receives x y s) h = unchanged-Lasts (ap (λ r. r.1) (Over-recv_msg x y s h)) h
  Step-Lasts (sends m s) h = unchanged-Lasts (ap (λ r. r.1) (Over-send_msg m s h)) h
  Step-Lasts (reads s) h = unchanged-Lasts (ap (λ p. produced wire p s) h.0) h
  Step-Lasts (gives_up x s) h = unchanged-Lasts (ap (λ p. abandoned x p s) h.0) h
  Step-Lasts (closes s) h = close_send-Lasts s h

  pub Runs-Lasts : {s t : ClientStream} → Over e s → Runs wire error_text s t → Lasts s t
  Runs-Lasts h here = (h, refl)
  Runs-Lasts h (next runs step) =
      let (over, same) = Runs-Lasts h runs in
      let (over', same') = Step-Lasts step over in (over', same' ∙ same)

  trailer-Lasts : (s t : ClientStream) → Over e s → Lasts s t → trailer t ≡ trailer s
  unfolding trailer
  trailer-Lasts s t h lasts = rw (h.1, lasts.0.1, lasts.1) refl

  -- Once the goroutine has ended, whatever calls of RecvMsg, SendMsg and CloseSend come after that,
  -- each RecvMsg returns the error that the stream ended with, each SendMsg EOF, and Trailer the same
  -- metadata.
  pub Over-Runs :
      (s t : ClientStream) (a b : Select) (m : M)
      → Over e s
      → Runs wire error_text s t
      → (recv_msg wire error_text a b t ≡ (value (err e), t))
        × (send_msg wire m t ≡ (value (err eof), t))
        × (trailer t ≡ trailer s)
  Over-Runs s t a b m over runs =
      let lasts = Runs-Lasts over runs in
      (Over-recv_msg a b t lasts.0, Over-send_msg m t lasts.0, trailer-Lasts s t over lasts)
