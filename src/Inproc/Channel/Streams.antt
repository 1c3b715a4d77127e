-- ===== src/Inproc/Channel/Streams.antt =====
-- NewStream of the in-process channel, from a registration to the messages at both ends.
use grpchan.Base.{
  length, drop, Bytes, codes, GoError, eof, Result, ok, err, ℕ, suc, ◌≡◌, refl, sym, ap, ◌∙◌, subst,
  Bool, true, false, Option, some, List, [], ◌++◌, arith,
}
use grpchan.Registry.{Outcome, value, panic}
use grpchan.Grpc.{StreamDesc}
use grpchan.Internal.Misc.{translate_context_error}
use grpchan.Internal.CallOptions.{
  Context, Metadata, CallOption, CallOptions, Store, set_peer, get_call_options,
  apply_per_rpc_creds,
}
use grpchan.Inproc.{Cloner, IsFaithful, Outbox}
use grpchan.Inproc.Contexts.{Ctx, from_outgoing, inprocess_peer}
use grpchan.Inproc.Unary.{split_slash, with_slash}
use grpchan.Inproc.Server.{live}
use grpchan.Inproc.Server.Protocol.{Call, serve}
use grpchan.Inproc.Server.Delivery.{all_live, messages}
use grpchan.Inproc.Client.{ClientStream, or_eof, close_send}
use grpchan.Inproc.Client.Laws.{awaiting, receive_all, stream_end_to_end}
use grpchan.Inproc.Requests.EndToEnd.{
  send_all, receive_requests, send_all-after_sends, requests_end_to_end,
}
use grpchan.Inproc.Channel.{
  StreamHandler, Channel, Opened, handlers_of, find_stream, cloner_of, open_stream, opened_with,
  credited, new_stream_in, new_stream_named, new_stream, sent_by, responses_of,
}

module _ {U I H M : Type 0} (api : Metadata) (proto_cloner : Cloner M) (c : Channel U I H M)
    (first : ℕ) (store : Store) (ctx : Ctx) (many : Bool) where
  -- A stream that NewStream gives for some method and context.
  abbrev IsOpened : CallOptions → Opened M → Type 0
  IsOpened copts o =
      (full : Bytes) × (ctx' : Ctx) × (found : H × StreamDesc (StreamHandler H M)) × (open_stream
          api proto_cloner c first (set_peer copts inprocess_peer store) copts many full ctx' found
        ≡ o)

  opened_with-IsOpened :
      (copts : CallOptions) (full : Bytes) (ctx' : Ctx) {o : Opened M}
      (r : Outcome (Result (H × StreamDesc (StreamHandler H M))))
      → opened_with api proto_cloner c first
          (set_peer copts inprocess_peer store)
          copts
          many
          full
          ctx'
          r
        ≡ value (ok o)
      → IsOpened copts o
  opened_with-IsOpened copts full ctx' (panic why) e = ground arith
  opened_with-IsOpened copts full ctx' (value (err why)) e = ground arith
  opened_with-IsOpened copts full ctx' (value (ok found)) e = (full, ctx', found, ground arith)

  new_stream_in-IsOpened :
      (copts : CallOptions) (full : Bytes) {o : Opened M} (r : Result Context)
      → new_stream_in api proto_cloner c first
          (set_peer copts inprocess_peer store)
          copts
          many
          full
          ctx
          r
        ≡ value (ok o)
      → IsOpened copts o
  new_stream_in-IsOpened copts full (err why) e = ground arith
  new_stream_in-IsOpened copts full (ok c') e =
      opened_with-IsOpened copts full (credited api proto_cloner c ctx c')
        (find_stream (handlers_of c) (split_slash (drop 1 full))) e

  new_stream_named-IsOpened :
      (copts : CallOptions) {o : Opened M} (r : Outcome Bytes)
      → new_stream_named api proto_cloner c first
          (set_peer copts inprocess_peer store)
          copts
          many
          ctx
          r
        ≡ value (ok o)
      → IsOpened copts o
  new_stream_named-IsOpened copts (panic why) e = ground arith
  new_stream_named-IsOpened copts (value full) e =
      new_stream_in-IsOpened copts full
        (apply_per_rpc_creds api (record { outgoing = from_outgoing ctx }) copts
          (codes "inproc:0" ++ full) true)
        e

  new_stream-IsOpened :
      (method : Bytes) (opts : List CallOption) {o : Opened M}
      → new_stream api proto_cloner c first store ctx many method opts ≡ value (ok o)
      → IsOpened (get_call_options opts) o
  unfolding new_stream
  new_stream-IsOpened method opts e =
      new_stream_named-IsOpened (get_call_options opts) (with_slash method) e

module _ {M : Type 0} where
  close_send-keeps :
      (ms : List M) (s : ClientStream M)
      → IsFaithful s.cloner
      → s.send_closed ≡ false
      → s.requests.closed ≡ false
      → ((close_send (send_all ms s)).cloner ≡ s.cloner)
        × ((close_send (send_all ms s)).response_stream ≡ s.response_stream)
  unfolding close_send
  close_send-keeps ms s f unsent fresh =
      rw (send_all-after_sends ms s f unsent fresh, unsent) (refl, refl)

  -- `stream_end_to_end`, with the server's cloner apart.
  receive_all-serve :
      (cloner : Cloner M) (cs : List (Call M)) (e : Option GoError) (s : ClientStream M)
      → IsFaithful cloner
      → s.cloner ≡ cloner
      → s.response_stream ≡ true
      → receive_all
          (suc (length (messages cs)))
          (awaiting (serve cloner (all_live cs) live e []).responses.sent s)
        ≡ (messages cs, translate_context_error (or_eof e))
  receive_all-serve cloner cs e s f same many =
      subst
        (λ cl.
          receive_all (suc (length (messages cs)))
            (awaiting (serve cl (all_live cs) live e []).responses.sent s)
          ≡ (messages cs, translate_context_error (or_eof e)))
        same (stream_end_to_end cs e s many (rw same f))

  opened_end_to_end :
      (cloner : Cloner M) (o : Opened M) (of_nil : GoError) (ms : List M) (cs : List (Call M))
      (e : Option GoError)
      → IsFaithful cloner
      → o.client_end.cloner ≡ cloner
      → o.client_end.response_stream ≡ true
      → o.client_end.send_closed ≡ false
      → o.client_end.requests ≡ record { sent = []; closed = false; panicked = false }
      → o.running (close_send (send_all ms o.client_end)).requests.sent ≡ (all_live cs, e)
      → (receive_requests cloner of_nil
            (suc (length ms))
            (close_send (send_all ms o.client_end)).requests.sent
          ≡ some (ms, eof))
        × (receive_all (suc (length (messages cs))) (
              awaiting
                (responses_of cloner o (close_send (send_all ms o.client_end)).requests.sent)
                (close_send (send_all ms o.client_end)))
            ≡ (messages cs, translate_context_error (or_eof e)))
  unfolding responses_of
  opened_end_to_end cloner o of_nil ms cs e f same many unsent fresh runs =
      let sent = close_send (send_all ms o.client_end) in
      let g : IsFaithful o.client_end.cloner = rw same f in
      let kept =
        close_send-keeps ms o.client_end g unsent (ap (λ (b : Outbox M). b.closed) fresh) in
      (
        (requests_end_to_end cloner of_nil ms o.client_end f g unsent fresh).0,
        ap (λ r. receive_all (suc (length (messages cs))) (awaiting (sent_by cloner r) sent)) runs
            ∙ receive_all-serve cloner cs e sent f (kept.0 ∙ same) (kept.1 ∙ many),
      )

module _ {U I H M : Type 0} (api : Metadata) (proto_cloner : Cloner M) (c : Channel U I H M)
    (first : ℕ) (store : Store) (ctx : Ctx) (opts : List CallOption) where
  -- On a stream of responses that NewStream gives, with faithful copies and a live context, the handler
  -- receives the messages that the caller sent before CloseSend, in order, and then EOF, and the caller
  -- receives those that the handler sends on these requests, and then its error as a gRPC error, or EOF.
  pub new_stream_end_to_end :
      (method : Bytes) {o : Opened M} (of_nil : GoError) (ms : List M) (cs : List (Call M))
      (e : Option GoError)
      → IsFaithful (cloner_of api proto_cloner c)
      → new_stream api proto_cloner c first store ctx true method opts ≡ value (ok o)
      → o.running (close_send (send_all ms o.client_end)).requests.sent ≡ (all_live cs, e)
      → (receive_requests
            (cloner_of api proto_cloner c)
            of_nil
            (suc (length ms))
            (close_send (send_all ms o.client_end)).requests.sent
          ≡ some (ms, eof))
        × (receive_all (suc (length (messages cs))) (
              awaiting
                (responses_of
                  (cloner_of api proto_cloner c)
                  o
                  (close_send (send_all ms o.client_end)).requests.sent)
                (close_send (send_all ms o.client_end)))
            ≡ (messages cs, translate_context_error (or_eof e)))
  unfolding open_stream
  new_stream_end_to_end method {o} of_nil ms cs e f opens runs =
      let (full, ctx', found, is) =
        new_stream-IsOpened api proto_cloner c first store ctx true method opts opens in
      opened_end_to_end (cloner_of api proto_cloner c) o of_nil ms cs e f
        (sym (ap (λ (x : Opened M). x.client_end.cloner) is))
        (sym (ap (λ (x : Opened M). x.client_end.response_stream) is))
        (sym (ap (λ (x : Opened M). x.client_end.send_closed) is))
        (sym (ap (λ (x : Opened M). x.client_end.requests) is)) runs
