-- ===== src/Inproc/Client/Laws.antt =====
-- What a caller receives from the frames of a server that follows the protocol, while the context is
-- live and the cloner makes faithful copies.
use grpchan.Base.{
  length, Md, merge, GoError, eof, other, Result, ok, err, ℕ, zero, suc, ◌≡◌, refl, sym, ap, ◌∙◌,
  ◌≢◌, ◌⊎◌, true, false, Option, none, some, List, [], ◌∷◌, ◌++◌, arith,
}
use grpchan.Internal.Misc.{translate_context_error}
use grpchan.Inproc.{IsFaithful, Frame, kind, Turn, received_late, cancelled, read_message}
use grpchan.Inproc.Server.{in_headers, in_messages, live}
use grpchan.Inproc.Server.Protocol.{Call, serve}
use grpchan.Inproc.Server.Delivery.{
  all_live, header_entries, trailer_entries, messages, data_frame, header_frames, trailer_frames,
  error_frames, expected_tail, serve-expected_frames,
}
use grpchan.Inproc.Client.{
  ClientStream, or_eof, too_many, After, take_headers, take_trailers, with_message, take_data,
  on_frame, on_read_error, recv_loop, recv_msg_locked, no_check, refuse_more, ensure_no_more_locked,
  recv_msg, header,
}

module _ {M : Type 0} where
  -- A stream that has peeked nothing, with these frames to come and a live context.
  abbrev pub awaiting : List (Frame M) → ClientStream M → ClientStream M
  awaiting fs s = record s { last = none; turns = []; responses = fs }

  -- After the headers, if there are any.
  abbrev pub past_headers : Md → ClientStream M → ClientStream M
  past_headers [] s = s
  past_headers (e ∷ es) s = take_headers (some (e ∷ es)) (record s { state = in_messages })

  abbrev pub past_trailers : Md → ClientStream M → ClientStream M
  past_trailers [] s = s
  past_trailers (e ∷ es) s = take_trailers (some (e ∷ es)) s

  recv-header_frames :
      (after : After M) (hd : Md) (fs : List (Frame M)) (s : ClientStream M)
      → recv_msg_locked after (awaiting (header_frames hd ++ fs) s)
        ≡ recv_msg_locked after (awaiting fs (past_headers hd s))
  unfolding recv_msg_locked recv_loop on_frame kind read_message take_headers
  recv-header_frames after [] fs s = refl
  recv-header_frames after (e ∷ es) fs s = refl

  recv-trailer_frames :
      (after : After M) (tlr : Md) (fs : List (Frame M)) (s : ClientStream M)
      → recv_msg_locked after (awaiting (trailer_frames tlr ++ fs) s)
        ≡ recv_msg_locked after (awaiting fs (past_trailers tlr s))
  unfolding recv_msg_locked recv_loop on_frame kind read_message take_trailers
  recv-trailer_frames after [] fs s = refl
  recv-trailer_frames after (e ∷ es) fs s = refl

  recv-error_frames :
      (after : After M) (e : Option GoError) (s : ClientStream M)
      → (recv_msg_locked after (awaiting (error_frames e) s)).0
        ≡ err (translate_context_error (or_eof e))
  unfolding recv_msg_locked recv_loop on_frame kind read_message on_read_error
      translate_context_error
  recv-error_frames after none s = refl
  recv-error_frames after (some e) s = refl

  recv-data_frame :
      (after : After M) (m : M) (fs : List (Frame M)) (s : ClientStream M)
      → IsFaithful s.cloner
      → recv_msg_locked after (awaiting (data_frame m ∷ fs) s)
        ≡ with_message m (after (awaiting fs s))
  unfolding recv_msg_locked recv_loop on_frame kind read_message take_data
  recv-data_frame after m fs s f = ground (arith, f.copies m)

  past_headers-keeps :
      (hd : Md) (s : ClientStream M)
      → ((past_headers hd s).response_stream ≡ s.response_stream)
        × ((past_headers hd s).cloner ≡ s.cloner)
        × ((past_headers hd s).trailers ≡ s.trailers)
  unfolding take_headers
  past_headers-keeps [] s = (refl, refl, refl)
  past_headers-keeps (e ∷ es) s = (refl, refl, refl)

  recv_tail :
      (after : After M) (tlr : Md) (e : Option GoError) (s : ClientStream M)
      → (recv_msg_locked after (awaiting (trailer_frames tlr ++ error_frames e) s)).0
        ≡ err (translate_context_error (or_eof e))
  recv_tail after tlr e s =
      rw (recv-trailer_frames after tlr (error_frames e) s)
        (recv-error_frames after e (past_trailers tlr s))

  -- What a call that expects one response gets: the message, whatever error comes behind it; the
  -- error, if there is no message; or a refusal of a second message.
  abbrev pub single_result : List M → Option GoError → Result M
  single_result [] e = err (translate_context_error (or_eof e))
  single_result (m ∷ []) e = ok m
  single_result (m ∷ m' ∷ ms) e = err too_many

  refuse_more-err :
      {e : GoError} (r : Result M × ClientStream M) → r.0 ≡ err e → (refuse_more r).0 ≡ ok tt
  refuse_more-err (ok m, s) h = cc
  refuse_more-err (err e', s) h = refl

  with_message-ok :
      (m : M) (r : Result (Unit {0}) × ClientStream M) → r.0 ≡ ok tt → (with_message m r).0 ≡ ok m
  with_message-ok m (ok _, s) h = refl
  with_message-ok m (err e, s) h = cc

  recv_single :
      (tlr : Md) (ms : List M) (e : Option GoError) (s : ClientStream M)
      → IsFaithful s.cloner
      → (recv_msg_locked ensure_no_more_locked (awaiting (expected_tail tlr ms e) s)).0
        ≡ single_result ms e
  unfolding ensure_no_more_locked
  recv_single tlr [] e s f = recv_tail ensure_no_more_locked tlr e s
  recv_single tlr (m ∷ []) e s f =
      rw (recv-data_frame ensure_no_more_locked m (trailer_frames tlr ++ error_frames e) s f)
        (with_message-ok m _ (refuse_more-err _ (recv_tail no_check tlr e s)))
  recv_single tlr (m ∷ m' ∷ ms) e s f =
      rw (recv-data_frame ensure_no_more_locked m (expected_tail tlr (m' ∷ ms) e) s f)
        (rw (recv-data_frame no_check m' (expected_tail tlr ms e) s f))

  recv_msg_one :
      (s : ClientStream M)
      → s.response_stream ≡ false
      → recv_msg s ≡ recv_msg_locked ensure_no_more_locked s
  unfolding recv_msg
  recv_msg_one s one = ground arith

  recv_msg_many :
      (s : ClientStream M) → s.response_stream ≡ true → recv_msg s ≡ recv_msg_locked no_check s
  unfolding recv_msg
  recv_msg_many s many = ground arith

  -- RecvMsg of a call that expects one response, on a stream that follows the protocol.
  pub recv_msg-single_result :
      (hd tlr : Md) (ms : List M) (e : Option GoError) (s : ClientStream M)
      → s.response_stream ≡ false
      → IsFaithful s.cloner
      → (recv_msg (awaiting (header_frames hd ++ expected_tail tlr ms e) s)).0 ≡ single_result ms e
  recv_msg-single_result hd tlr ms e s one f =
      let (_, same, _) = past_headers-keeps hd s in
      rw
        (
          recv_msg_one (awaiting (header_frames hd ++ expected_tail tlr ms e) s) one,
          recv-header_frames ensure_no_more_locked hd (expected_tail tlr ms e) s,
        )
        (recv_single tlr ms e (past_headers hd s) (rw same f))

  -- A caller's loop: receive until there is an error.
  abbrev pub with_rest :
      Result M × ClientStream M → (ClientStream M → List M × GoError) → List M × GoError
  with_rest (err e, s) rest = ([], e)
  with_rest (ok m, s) rest = let (ms, e) = rest s in (m ∷ ms, e)

  unfoldable pub receive_all : ℕ → ClientStream M → List M × GoError
  receive_all zero s = ([], other "out of fuel")
  receive_all (suc n) s = with_rest (recv_msg s) (receive_all n)

  with_rest-err :
      {e : GoError} (r : Result M × ClientStream M) (rest : ClientStream M → List M × GoError)
      → r.0 ≡ err e
      → with_rest r rest ≡ ([], e)
  with_rest-err (ok m, s) rest h = cc
  with_rest-err (err e', s) rest h = ground arith

  receive_all-tail :
      (tlr : Md) (ms : List M) (e : Option GoError) (s : ClientStream M)
      → s.response_stream ≡ true
      → IsFaithful s.cloner
      → receive_all (suc (length ms)) (awaiting (expected_tail tlr ms e) s)
        ≡ (ms, translate_context_error (or_eof e))
  unfolding receive_all
  receive_all-tail tlr [] e s many f =
      rw (recv_msg_many (awaiting (expected_tail tlr [] e) s) many) (
        with_rest-err (recv_msg_locked no_check (awaiting (trailer_frames tlr ++ error_frames e) s))
          (receive_all 0) (recv_tail no_check tlr e s))
  receive_all-tail tlr (m ∷ ms) e s many f =
      rw
        (
          recv_msg_many (awaiting (expected_tail tlr (m ∷ ms) e) s) many,
          recv-data_frame no_check m (expected_tail tlr ms e) s f,
        )
        (ground (arith, receive_all-tail tlr ms e s many f))

  -- RecvMsg of a streaming call, on a stream that follows the protocol, gives the messages in order
  -- and then the error, as a gRPC error, or EOF.
  pub receive_all-expected :
      (hd tlr : Md) (ms : List M) (e : Option GoError) (s : ClientStream M)
      → s.response_stream ≡ true
      → IsFaithful s.cloner
      → receive_all (suc (length ms)) (awaiting (header_frames hd ++ expected_tail tlr ms e) s)
        ≡ (ms, translate_context_error (or_eof e))
  receive_all-expected hd tlr ms e s many f =
      let (streams, same, _) = past_headers-keeps hd s in
      skip_headers ∙ receive_all-tail tlr ms e (past_headers hd s) (streams ∙ many) (rw same f)
    where
      skip_headers :
          receive_all (suc (length ms)) (awaiting (header_frames hd ++ expected_tail tlr ms e) s)
          ≡ receive_all (suc (length ms)) (awaiting (expected_tail tlr ms e) (past_headers hd s))
      skip_headers =
          let rest : List (Frame M) = expected_tail tlr ms e in
          let (streams, _, _) = past_headers-keeps hd s in
          unfold receive_all in
          ap (λ r. with_rest r (receive_all (length ms)))
            (recv_msg_many (awaiting (header_frames hd ++ rest) s) many
              ∙ recv-header_frames no_check hd rest s
              ∙ sym (recv_msg_many (awaiting rest (past_headers hd s)) (streams ∙ many)))

  -- From the calls of a handler to the messages of a caller, across the whole in-process stream, in a
  -- live context and with faithful copies: the caller receives what the handler sent, in order, and
  -- then the handler's error, as a gRPC error, or EOF.
  pub stream_end_to_end :
      (cs : List (Call M)) (e : Option GoError) (s : ClientStream M)
      → s.response_stream ≡ true
      → IsFaithful s.cloner
      → receive_all
          (suc (length (messages cs)))
          (awaiting (serve s.cloner (all_live cs) live e []).responses.sent s)
        ≡ (messages cs, translate_context_error (or_eof e))
  stream_end_to_end cs e s many f = rw (serve-expected_frames s.cloner f cs e) (
      receive_all-expected (merge [] (header_entries cs)) (merge [] (trailer_entries cs))
        (messages cs) e s many f)

  -- From the calls of a handler to a caller that expects one response, in a live context and with
  -- faithful copies: RecvMsg gives the handler's error if no message was sent, the message if there was
  -- one, whatever error the handler returned behind it, and an Internal error if there were more.
  pub single_end_to_end :
      (cs : List (Call M)) (e : Option GoError) (s : ClientStream M)
      → s.response_stream ≡ false
      → IsFaithful s.cloner
      → (recv_msg (awaiting (serve s.cloner (all_live cs) live e []).responses.sent s)).0
        ≡ single_result (messages cs) e
  single_end_to_end cs e s one f = rw (serve-expected_frames s.cloner f cs e) (
      recv_msg-single_result (merge [] (header_entries cs)) (merge [] (trailer_entries cs))
        (messages cs) e s one f)

  -- Once the context of the call has ended, before any headers and with an error that is not EOF,
  -- RecvMsg gives that error as a gRPC status and Header gives it as it is, whatever frames there are.
  pub ended_context :
      (fs : List (Frame M)) (t : Turn) (e : GoError) (s : ClientStream M)
      → s.state ≡ in_headers
      → e ≢ eof
      → (t ≡ cancelled e) ⊎ (t ≡ received_late e)
      → ((recv_msg (record s { last = none; responses = fs; turns = t ∷ [] })).0
          ≡ err (translate_context_error e))
        × ((header (record s { last = none; responses = fs; turns = t ∷ [] })).0 ≡ err e)
  unfolding recv_msg recv_msg_locked recv_loop on_read_error read_message header
  ended_context [] t e s h n k = ground arith
  ended_context (f ∷ fs) t e s h n k = ground arith
