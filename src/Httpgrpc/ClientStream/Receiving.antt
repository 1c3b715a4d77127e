-- ===== src/Httpgrpc/ClientStream/Receiving.antt =====
-- What RecvMsg makes of a response that is written as the framing says.
use grpchan.Base.{
  if◌then◌else◌, All, length, Bytes, GoError, Result, ok, err, ℕ, zero, suc, ◌<◌, ◌≡◌, refl, ap,
  ◌∙◌, true, false, Option, none, some, List, [], ◌∷◌, ◌++◌, arith,
}
use grpchan.Registry.{Outcome, value, panic}
use grpchan.Httpgrpc.Wire.{HttpTrailer, Wire}
use grpchan.Httpgrpc.Wire.Laws.{IsFaithful}
use grpchan.Httpgrpc.ClientStream.{
  reading, offering, ClientStream, metadata_from_proto, finish, give_trailers, on_response,
  produced, produce, trailer_error, final_error, read_error_if_done, trailer, Select, from_channel,
  take, check_single, on_msg, on_select, unless_done, recv_msg,
}

-- A caller's loop: RecvMsg until it fails, which gives the messages and the error; no error if the
-- calls run out first, or one panics.
pub record Drained (M : Type 0) : Type 0 where
  pub messages : List M
  pub ended : Option GoError
  pub stream : ClientStream

abbrev pub drained : {M : Type 0} → Outcome (Result M) × ClientStream → Drained M → Drained M
drained (value (ok m), s) rest = record rest { messages = m ∷ rest.messages }
drained (value (err e), s) rest = record { messages = []; ended = some e; stream = s }
drained (panic why, s) rest = record { messages = []; ended = none; stream = s }

unfoldable pub drain : {M : Type 0} → Wire M → (GoError → Bytes) → ℕ → ClientStream → Drained M
drain wire error_text zero s = record { messages = []; ended = none; stream = s }
drain wire error_text (suc n) s =
    let r = recv_msg wire error_text from_channel from_channel s in
    drained r (drain wire error_text n r.1)

-- A stream that is not done, whose response's body has this input.
abbrev pub Reads : Bytes → GoError → ClientStream → Type 0
Reads b e s = (s.producer ≡ reading (record { input = b; fail = e })) × (s.done ≡ false)

module _ {M : Type 0} (wire : Wire M) (error_text : GoError → Bytes) where
  pub recv_msg-not_done :
      (x y : Select) (s : ClientStream)
      → s.done ≡ false
      → recv_msg wire error_text x y s ≡ on_select wire error_text x y s
  unfolding recv_msg read_error_if_done
  recv_msg-not_done x y s h =
      ap
        (λ b.
          unless_done wire error_text x y (if b then some (final_error s.r_err s.tr) else none) s)
        h

  on_msg-streaming :
      (y : Select) (m : M) (s : ClientStream)
      → s.resp_stream ≡ true
      → on_msg wire error_text y (ok m) s ≡ (value (ok m), s)
  on_msg-streaming y m s h =
      ap (λ b. if b then (value (ok m), s) else check_single wire error_text y m s) h

  pub on_msg-single :
      (y : Select) (m : M) (s : ClientStream)
      → s.resp_stream ≡ false
      → on_msg wire error_text y (ok m) s ≡ check_single wire error_text y m s
  on_msg-single y m s h =
      ap (λ b. if b then (value (ok m), s) else check_single wire error_text y m s) h

-- The stream at the end of a response with this trailer.
abbrev pub ended_with : HttpTrailer → ClientStream → ClientStream
ended_with t s = finish none (give_trailers (record s { r_err = none; tr = t }))

give_trailers-r_err : (s : ClientStream) → (give_trailers s).r_err ≡ s.r_err
unfolding give_trailers
give_trailers-r_err s = ground arith

give_trailers-tr : (s : ClientStream) → (give_trailers s).tr ≡ s.tr
unfolding give_trailers
give_trailers-tr s = ground arith

pub read_error_if_done-ended_with :
    (t : HttpTrailer) (s : ClientStream)
    → read_error_if_done (ended_with t s) ≡ some (trailer_error t)
unfolding read_error_if_done finish
read_error_if_done-ended_with t s =
    let before : ClientStream = record s { r_err = none; tr = t } in
    rw (give_trailers-r_err before, give_trailers-tr before) refl

pub trailer-ended_with :
    (t : HttpTrailer) (s : ClientStream)
    → trailer (ended_with t s) ≡ some (metadata_from_proto t.trailer_metadata)
unfolding trailer finish
trailer-ended_with t s = rw (give_trailers-tr (record s { r_err = none; tr = t })) refl

module _ {M : Type 0} {Fits : M → Type 0} {FitsTrailer : HttpTrailer → Type 0} (wire : Wire M)
    (error_text : GoError → Bytes) (f : IsFaithful wire Fits FitsTrailer) where
  -- The goroutine reads a message, and offers it.
  pub produce-message :
      (m : M) (rest : Bytes) (e : GoError) (s : ClientStream)
      → Fits m
      → s.producer ≡ reading (record { input = f.message_bytes m ++ rest; fail = e })
      → produce wire s
        ≡ record s { producer = offering (f.message_as m) (record { input = rest; fail = e }) }
  unfolding produce on_response
  produce-message m rest e s fits at =
      ap (λ p. produced wire p s) at ∙ rw (f.reads_message m rest e fits, f.message_kind m) refl

  pub take-message :
      (m : M) (rest : Bytes) (e : GoError) (s : ClientStream)
      → Fits m
      → s.producer ≡ reading (record { input = f.message_bytes m ++ rest; fail = e })
      → take wire error_text s ≡ (
        some (f.message_as m),
        record s { producer = reading (record { input = rest; fail = e }) },
      )
  unfolding take
  take-message m rest e s fits at = rw (produce-message m rest e s fits at) refl

  pub produce-trailer :
      (t : HttpTrailer) (rest : Bytes) (e : GoError) (s : ClientStream)
      → FitsTrailer t
      → s.producer ≡ reading (record { input = f.trailer_bytes t ++ rest; fail = e })
      → produce wire s ≡ ended_with t s
  unfolding produce on_response
  produce-trailer t rest e s fits at =
      ap (λ p. produced wire p s) at
      ∙ rw (f.reads_trailer t rest e fits, f.decodes_trailer t fits, f.trailer_kind t) refl

  pub take-trailer :
      (t : HttpTrailer) (rest : Bytes) (e : GoError) (s : ClientStream)
      → FitsTrailer t
      → s.producer ≡ reading (record { input = f.trailer_bytes t ++ rest; fail = e })
      → take wire error_text s ≡ (none, ended_with t s)
  unfolding take finish
  take-trailer t rest e s fits at = rw (produce-trailer t rest e s fits at) refl

  abbrev pub response_bytes : List M → HttpTrailer → Bytes → Bytes
  response_bytes [] t rest = f.trailer_bytes t ++ rest
  response_bytes (m ∷ ms) t rest = f.message_bytes m ++ response_bytes ms t rest

  pub recv_msg-message :
      (m : M) (rest : Bytes) (e : GoError) (s : ClientStream)
      → Fits m
      → s.resp_stream ≡ true
      → Reads (f.message_bytes m ++ rest) e s
      → recv_msg wire error_text from_channel from_channel s
        ≡ (value (ok m), record s { producer = reading (record { input = rest; fail = e }) })
  recv_msg-message m rest e s fits streams at =
      recv_msg-not_done wire error_text from_channel from_channel s at.1
      ∙ rw (take-message m rest e s fits at.0, f.decodes_message m fits)
          (on_msg-streaming wire error_text from_channel m
            (record s { producer = reading (record { input = rest; fail = e }) }) streams)

  pub recv_msg-trailer :
      (t : HttpTrailer) (rest : Bytes) (e : GoError) (s : ClientStream)
      → FitsTrailer t
      → Reads (f.trailer_bytes t ++ rest) e s
      → recv_msg wire error_text from_channel from_channel s
        ≡ (value (err (trailer_error t)), ended_with t s)
  recv_msg-trailer t rest e s fits at =
      recv_msg-not_done wire error_text from_channel from_channel s at.1
      ∙ rw (take-trailer t rest e s fits at.0, read_error_if_done-ended_with t s) refl

  -- The stream, with this input still to come.
  abbrev pub reads_on : Bytes → GoError → ClientStream → ClientStream
  reads_on b e s = record s { producer = reading (record { input = b; fail = e }) }

  -- On a stream of responses that were written as the framing says, each fitting, a caller who receives
  -- until an error, with a call for every message and one more, gets all the messages in order and
  -- then the error of the trailer's status, or EOF if that is OK; and Trailer gives the trailer's
  -- metadata.
  pub drain-response_bytes :
      (ms : List M) (t : HttpTrailer) (rest : Bytes) (e : GoError) (s : ClientStream) (n : ℕ)
      → length ms < n
      → All Fits ms
      → FitsTrailer t
      → s.resp_stream ≡ true
      → Reads (response_bytes ms t rest) e s
      → let d = drain wire error_text n s in
        (d.messages ≡ ms)
        × (d.ended ≡ some (trailer_error t))
        × (trailer d.stream ≡ some (metadata_from_proto t.trailer_metadata))
  unfolding drain
  drain-response_bytes ms t rest e s zero enough fits fits_trailer streams at =
      absurd (omega (arith, enough))
  drain-response_bytes [] t rest e s (suc n) enough fits fits_trailer streams at =
      rw (recv_msg-trailer t rest e s fits_trailer at) (refl, refl, trailer-ended_with t s)
  drain-response_bytes (m ∷ ms) t rest e s (suc n) enough fits fits_trailer streams at =
      let s' = reads_on (response_bytes ms t rest) e s in
      let (same, over, md) =
        drain-response_bytes ms t rest e s' n (omega (arith, enough)) fits.1 fits_trailer streams
          (refl, at.1) in
      rw (recv_msg-message m (response_bytes ms t rest) e s fits.0 streams at)
        (ap (λ l. m ∷ l) same, over, md)
