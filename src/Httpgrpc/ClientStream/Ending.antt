-- ===== src/Httpgrpc/ClientStream/Ending.antt =====
-- What the end of the context does to the goroutine of a caller's stream.
use grpchan.Base.{Bytes, GoError, eof, Result, err, ◌≡◌, refl, sym, subst, true}
use grpchan.Registry.{value}
use grpchan.Internal.CallOptions.{Peer}
use grpchan.Httpgrpc.Headers.{Base64}
use grpchan.Httpgrpc.Status.{DetailsCodec}
use grpchan.Httpgrpc.Wire.{Wire}
use grpchan.Httpgrpc.ClientStream.{
  Producer, reading, offering, finished, ClientStream, finish, produce, abandoned, abandon,
  final_error, Select, recv_msg, send_msg, HttpResponse, start,
}
use grpchan.Httpgrpc.ClientStream.Safety.{AtRest, produce-AtRest}
use grpchan.Httpgrpc.ClientStream.Runs.{
  Runs, Runs-IsSettled, WellStarted, start-WellStarted, Over-recv_msg, Over-send_msg, Runs-Lasts,
}

abandoned-Ended :
    (e : GoError) (p : Producer) (s : ClientStream)
    → p ≡ s.producer
    → AtRest p s.done
    → ((abandoned e p s).producer ≡ finished) × ((abandoned e p s).done ≡ true)
unfolding finish
abandoned-Ended e (offering msg r) s same rest = (refl, refl)
abandoned-Ended e finished s same rest = (sym same, rest)
abandoned-Ended e (reading r) s same rest = absurd rest

module _ {M : Type 0} (url64 raw64 : Base64) (details : DetailsCodec) (media_type : Bytes → Bytes)
    (wire : Wire M) (error_text : GoError → Bytes) where
  -- From what doHttpCall makes of a response on, whatever calls of RecvMsg, SendMsg and CloseSend and
  -- whatever steps of the goroutine there have been: once the context has ended, the goroutine ends
  -- after its next read, whether or not anyone receives, and there is one error that from then on,
  -- whatever calls come in between and whatever the selects take, each RecvMsg returns, while each
  -- SendMsg returns EOF.
  pub abandon_ends :
      (response : Result HttpResponse) (p : Peer) (new s t : ClientStream) (e : GoError)
      → start url64 raw64 details media_type response p new ≡ value s
      → Runs wire error_text s t
      → ((abandon e (produce wire t)).producer ≡ finished)
        × ((last : GoError) × ((u : ClientStream)
              → Runs wire error_text (abandon e (produce wire t)) u
              → (a b : Select) (m : M)
              → (recv_msg wire error_text a b u ≡ (value (err last), u))
                × (send_msg wire m u ≡ (value (err eof), u))))
  unfolding abandon
  abandon_ends response p new s t e started runs =
      let settled =
        Runs-IsSettled wire error_text
          (subst WellStarted started
            (start-WellStarted url64 raw64 details media_type response p new))
          runs in
      let read = produce wire t in
      let ended = abandoned-Ended e read.producer read refl (produce-AtRest wire t settled) in
      let last = final_error (abandon e read).r_err (abandon e read).tr in
      (
        ended.0,
        (
          last,
          λ u later a b m.
              let over = (Runs-Lasts wire error_text last (ended.0, ended.1, refl) later).0 in
              (
                Over-recv_msg wire error_text last a b u over,
                Over-send_msg wire error_text last m u over,
              ),
        ),
      )
