-- ===== src/Inproc/Requests/EndToEnd.antt =====
-- What a handler receives is what the caller sent.
use grpchan.Base.{
  length, GoError, eof, Result, ok, err, ℕ, zero, suc, ◌≡◌, refl, sym, ap, ◌∙◌, true, false, Option,
  none, some, List, [], ◌∷◌, ◌++◌, append-nil, append_assoc, arith,
}
use grpchan.Inproc.{
  Cloner, IsFaithful, Frame, empty_frame, Outbox, delivered, received, send, close, write_message,
  read_message,
}
use grpchan.Inproc.Client.{ClientStream, close_send, send_msg}
use grpchan.Inproc.Requests.{recv_request}

module _ {M : Type 0} where
  -- A caller that sends messages with a live context; the results are dropped.
  unfoldable pub send_all : List M → ClientStream M → ClientStream M
  send_all [] s = s
  send_all (m ∷ ms) s = send_all ms (send_msg delivered (some m) s).1

  abbrev pub with_next :
      Result M × List (Frame M)
      → (List (Frame M) → Option (List M × GoError))
      → Option (List M × GoError)
  with_next (err e, rest) go_on = some ([], e)
  with_next (ok m, rest) go_on = elim (go_on rest) [ none ↦ none | some (ms, e) ↦ some (m ∷ ms, e) ]

  -- A handler that receives until there is an error, which is the second part; `none` if there is no
  -- error within n receives.
  unfoldable pub receive_requests :
      Cloner M → GoError → ℕ → List (Frame M) → Option (List M × GoError)
  receive_requests cloner of_nil zero fs = none
  receive_requests cloner of_nil (suc n) fs =
      with_next (recv_request cloner of_nil received fs) (receive_requests cloner of_nil n)

  abbrev pub request_frames : List M → List (Frame M)
  request_frames [] = []
  request_frames (m ∷ ms) = record (empty_frame {M = M}) { payload = some m } ∷ request_frames ms

  abbrev pub after_sends : List M → ClientStream M → ClientStream M
  after_sends ms s = record s {
    requests = record s.requests { sent = s.requests.sent ++ request_frames ms };
  }

  send_msg-after_sends :
      (m : M) (s : ClientStream M)
      → IsFaithful s.cloner
      → s.send_closed ≡ false
      → s.requests.closed ≡ false
      → (send_msg delivered (some m) s).1 ≡ after_sends (m ∷ []) s
  unfolding send_msg write_message send
  send_msg-after_sends m s f c d = ground (arith, f.clones m)

  pub send_all-after_sends :
      (ms : List M) (s : ClientStream M)
      → IsFaithful s.cloner
      → s.send_closed ≡ false
      → s.requests.closed ≡ false
      → send_all ms s ≡ after_sends ms s
  unfolding send_all
  send_all-after_sends [] s f c d =
      ap (λ (fs : List (Frame M)). record s { requests = record s.requests { sent = fs } })
        (sym (append-nil s.requests.sent))
  send_all-after_sends (m ∷ ms) s f c d =
      ap (send_all ms) (send_msg-after_sends m s f c d)
      ∙ send_all-after_sends ms (after_sends (m ∷ []) s) f c d
      ∙ ap (λ (fs : List (Frame M)). record s { requests = record s.requests { sent = fs } })
          (append_assoc s.requests.sent (request_frames (m ∷ [])) (request_frames ms))

  receive_requests-request_frames :
      (cloner : Cloner M) (of_nil : GoError) (ms : List M)
      → IsFaithful cloner
      → receive_requests cloner of_nil (suc (length ms)) (request_frames ms) ≡ some (ms, eof)
  unfolding receive_requests recv_request read_message
  receive_requests-request_frames cloner of_nil [] f = refl
  receive_requests-request_frames cloner of_nil (m ∷ ms) f =
      rw (f.copies m, receive_requests-request_frames cloner of_nil ms f) refl

  -- On a fresh stream, with a live context and faithful copies at both ends, a handler receives the
  -- messages that the caller sent before CloseSend, in order, and then EOF; the channel of requests is
  -- closed, and nothing has panicked, however often the caller closes it.
  pub requests_end_to_end :
      (server : Cloner M) (of_nil : GoError) (ms : List M) (s : ClientStream M)
      → IsFaithful server
      → IsFaithful s.cloner
      → s.send_closed ≡ false
      → s.requests ≡ record { sent = []; closed = false; panicked = false }
      → (receive_requests server of_nil (suc (length ms)) (close_send (send_all ms s)).requests.sent
          ≡ some (ms, eof))
        × ((close_send (close_send (send_all ms s))).requests
            ≡ record { sent = request_frames ms; closed = true; panicked = false })
  unfolding close_send close
  requests_end_to_end server of_nil ms s f g c fresh =
      let sent = send_all-after_sends ms s g c (ap (λ (o : Outbox M). o.closed) fresh) in
      rw (sent, c, fresh) (receive_requests-request_frames server of_nil ms f, refl)
