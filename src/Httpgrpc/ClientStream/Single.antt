-- ===== src/Httpgrpc/ClientStream/Single.antt =====
-- RecvMsg of a call whose response is one message: it looks for a second one, and for the trailer.
use grpchan.Base.{
  ◌==◌, if◌then◌else◌, All, Bytes, GoError, Result, ok, err, ◌≡◌, refl, ap, ◌∙◌, true, false, none,
  some, List, [], ◌∷◌, ◌++◌, arith,
}
use grpchan.Registry.{value}
use grpchan.Httpgrpc.Wire.{HttpTrailer, Wire}
use grpchan.Httpgrpc.Wire.Laws.{IsFaithful}
use grpchan.Httpgrpc.ClientStream.{
  ClientStream, produce, trailer_error, read_error_if_done, Select, from_channel,
  too_many_responses, take, after_single, on_second, recv_msg,
}
use grpchan.Httpgrpc.ClientStream.Safety.{read_error_if_done-done}
use grpchan.Httpgrpc.ClientStream.Receiving.{
  Reads, recv_msg-not_done, on_msg-single, ended_with, read_error_if_done-ended_with, take-message,
  produce-trailer, take-trailer, response_bytes, recv_msg-trailer, reads_on,
}

-- What a caller should get of these messages and this trailer: the message if it is the only one and
-- the status is OK, and else an error; that of the status if there are not too many messages.
abbrev pub single_result : {M : Type 0} → List M → HttpTrailer → Result M
single_result [] t = err (trailer_error t)
single_result (m ∷ []) t = if t.trailer_code == 0 then ok m else err (trailer_error t)
single_result (m ∷ m' ∷ ms) t = err too_many_responses

module _ {M : Type 0} {Fits : M → Type 0} {FitsTrailer : HttpTrailer → Type 0} (wire : Wire M)
    (error_text : GoError → Bytes) (f : IsFaithful wire Fits FitsTrailer) where
  -- The first message is taken, and the goroutine reads on.
  recv_msg-first :
      (m : M) (rest : Bytes) (e : GoError) (s : ClientStream)
      → Fits m
      → s.resp_stream ≡ false
      → Reads (f.message_bytes m ++ rest) e s
      → recv_msg wire error_text from_channel from_channel s
        ≡ on_second wire error_text m (take wire error_text (reads_on wire error_text f rest e s))
  recv_msg-first m rest e s fits single at =
      recv_msg-not_done wire error_text from_channel from_channel s at.1
      ∙ rw (take-message wire error_text f m rest e s fits at.0, f.decodes_message m fits)
          (on_msg-single wire error_text from_channel m (reads_on wire error_text f rest e s)
            single)

  after_single-trailer_error :
      (m : M) (t : HttpTrailer) (s : ClientStream)
      → (after_single wire error_text m (some (trailer_error t)) s).0
        ≡ value (if t.trailer_code == 0 then ok m else err (trailer_error t))
  after_single-trailer_error m t s = ground arith

  -- On a call with one response message whose context stays live, RecvMsg gives what the caller should get, on a response that
  -- was written as the framing says, each part fitting, and if no error is set.
  pub recv_msg-single_result :
      (ms : List M) (t : HttpTrailer) (rest : Bytes) (e : GoError) (s : ClientStream)
      → All Fits ms
      → FitsTrailer t
      → s.resp_stream ≡ false
      → s.r_err ≡ none
      → Reads (response_bytes wire error_text f ms t rest) e s
      → (recv_msg wire error_text from_channel from_channel s).0 ≡ value (single_result ms t)
  recv_msg-single_result [] t rest e s fits fits_trailer single clean at =
      ap (λ r. r.0) (recv_msg-trailer wire error_text f t rest e s fits_trailer at)
  recv_msg-single_result (m ∷ []) t rest e s fits fits_trailer single clean at =
      let s' = reads_on wire error_text f (f.trailer_bytes t ++ rest) e s in
      rw
        (
          recv_msg-first m (f.trailer_bytes t ++ rest) e s fits.0 single at,
          take-trailer wire error_text f t rest e s' fits_trailer refl,
          read_error_if_done-ended_with t s',
        )
        (after_single-trailer_error m t (ended_with t s'))
  recv_msg-single_result (m ∷ m' ∷ ms) t rest e s fits fits_trailer single clean at =
      let more = response_bytes wire error_text f ms t rest in
      let s' = reads_on wire error_text f (f.message_bytes m' ++ more) e s in
      rw
        (
          recv_msg-first m (f.message_bytes m' ++ more) e s fits.0 single at,
          take-message wire error_text f m' more e s' fits.1.0 refl,
          clean,
        )
        refl

  abbrev too_many_at : Bytes → GoError → ClientStream → ClientStream
  too_many_at b e s = record (reads_on wire error_text f b e s) {
    r_err = some too_many_responses;
    done = true;
    cancelled = true;
  }

  recv_msg-too_many :
      (m m' : M) (rest : Bytes) (e : GoError) (s : ClientStream)
      → Fits m
      → Fits m'
      → s.resp_stream ≡ false
      → s.r_err ≡ none
      → Reads (f.message_bytes m ++ (f.message_bytes m' ++ rest)) e s
      → recv_msg wire error_text from_channel from_channel s
        ≡ (value (err too_many_responses), too_many_at rest e s)
  recv_msg-too_many m m' rest e s fits fits' single clean at =
      let s' = reads_on wire error_text f (f.message_bytes m' ++ rest) e s in
      rw
        (
          recv_msg-first m (f.message_bytes m' ++ rest) e s fits single at,
          take-message wire error_text f m' rest e s' fits' refl,
          clean,
        )
        refl

  recv_msg-done :
      (x y : Select) (s : ClientStream) (e : GoError)
      → read_error_if_done s ≡ some e
      → (recv_msg wire error_text x y s).0 ≡ value (err e)
  unfolding recv_msg
  recv_msg-done x y s e h = rw h refl

  -- A response of two messages where one is expected, each part fitting, on a stream with no error yet
  -- and while the selects of RecvMsg take the channel: RecvMsg reports that there are too many, and again if it is called; but after the goroutine has read the trailer behind them,
  -- it gives the trailer's status instead, EOF if that is OK.
  pub too_many-forgotten :
      (m m' : M) (t : HttpTrailer) (rest : Bytes) (e : GoError) (s : ClientStream) (x y : Select)
      → Fits m
      → Fits m'
      → FitsTrailer t
      → s.resp_stream ≡ false
      → s.r_err ≡ none
      → Reads (response_bytes wire error_text f (m ∷ m' ∷ []) t rest) e s
      → let (r, s') = recv_msg wire error_text from_channel from_channel s in
        (r ≡ value (err too_many_responses))
        × ((recv_msg wire error_text x y s').0 ≡ value (err too_many_responses))
        × ((recv_msg wire error_text x y (produce wire s')).0 ≡ value (err (trailer_error t)))
  too_many-forgotten m m' t rest e s x y fits fits' fits_trailer single clean at =
      let s' = too_many_at (f.trailer_bytes t ++ rest) e s in
      rw (recv_msg-too_many m m' (f.trailer_bytes t ++ rest) e s fits fits' single clean at) (
        refl,
        recv_msg-done x y s' too_many_responses (read_error_if_done-done s' refl),
        rw (produce-trailer wire error_text f t rest e s' fits_trailer refl) (
            recv_msg-done x y (ended_with t s') (trailer_error t)
              (read_error_if_done-ended_with t s')),
      )
