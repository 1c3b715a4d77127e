-- ===== src/Inproc/Client.antt =====
-- inprocgrpc/in_process.go: inProcessClientStream, the caller's end of an in-process stream. The
-- frames that the server sends until it closes the channel are in `responses`; a receive that would
-- block is one whose frame is still to come, so the order of frames is all that matters. What the
-- selects of readMessage do is in `turns`, in order; once these are used up, frames are received with
-- a live context. Stats handlers are observers and are left out.
pub mod Laws
pub mod Headers
use grpchan.Base.{
  if◌then◌else◌, Md, GoError, eof, other, Result, ok, err, Bool, true, Option, none, some, List, [],
  ◌∷◌,
}
use grpchan.Inproc.{
  code_internal, status_of, Cloner, Frame, FrameKind, kind_headers, kind_data, kind_trailers,
  kind_error, kind_unknown, empty_frame, kind, Outbox, Choice, Turn, received, close, write_message,
  read_message,
}
use grpchan.Inproc.Server.{StreamState, in_messages, in_closed, entries, is_in_headers}
use grpchan.Internal.CallOptions.{CallOptions, Store, set_headers, set_trailers}
use grpchan.Internal.Misc.{translate_context_error}

pub record ClientStream (M : Type 0) : Type 0 where
  pub cloner : Cloner M
  pub copts : CallOptions
  -- the caller's variables that the options point to
  pub store : Store
  pub response_stream : Bool
  pub responses : List (Frame M)
  pub turns : List Turn
  pub state : StreamState
  pub last : Option (Frame M)
  pub headers : Option Md
  pub trailers : Option Md
  pub send_closed : Bool
  pub requests : Outbox M

abbrev pub next_turn : List Turn → Turn
next_turn [] = received
next_turn (t ∷ ts) = t

abbrev pub later_turns : List Turn → List Turn
later_turns [] = []
later_turns (t ∷ ts) = ts

abbrev pub or_eof : Option GoError → GoError
or_eof none = eof
or_eof (some e) = e

abbrev pub too_many : GoError
too_many = status_of code_internal "method should return 1 response message but server sent >1"

-- What happens behind a data frame: nothing, or the check that it was the last one.
abbrev pub After : Type 0 → Type 0
After M = ClientStream M → Result (Unit {0}) × ClientStream M

module _ {M : Type 0} where
  -- s.headers = r.headers; s.copts.SetHeaders(s.headers)
  unfoldable pub take_headers : Option Md → ClientStream M → ClientStream M
  take_headers h s = record s { headers = h; store = set_headers s.copts (entries h) s.store }

  unfoldable pub take_trailers : Option Md → ClientStream M → ClientStream M
  take_trailers t s = record s { trailers = t; store = set_trailers s.copts (entries t) s.store }

  abbrev pub with_message : M → Result (Unit {0}) × ClientStream M → Result M × ClientStream M
  with_message m (ok _, s) = (ok m, s)
  with_message m (err e, s) = (err e, s)

  -- Copy a data frame into the caller's message; if that succeeds, `after`.
  unfoldable pub take_data : After M → Option M → ClientStream M → Result M × ClientStream M
  take_data after none s = (err eof, s)
  take_data after (some d) s = elim (s.cloner.copy d) [
    | err e ↦ (err e, s)
    | ok c ↦ with_message c (after s)
  ]

  -- The switch of recvMsgLocked on a frame; `again` is the rest of the loop.
  unfoldable pub on_frame :
      After M
      → (ClientStream M → Result M × ClientStream M)
      → FrameKind
      → Frame M
      → ClientStream M
      → Result M × ClientStream M
  unfolding take_data take_headers take_trailers
  on_frame after again kind_headers r s =
      again (take_headers r.headers (record s { state = in_messages }))
  on_frame after again kind_trailers r s = again (take_trailers r.trailers s)
  on_frame after again kind_error r s = (
    err (translate_context_error (or_eof r.fault)),
    record s { state = in_closed; last = some r },
  )
  on_frame after again kind_data r s = take_data after r.payload s
  on_frame after again kind_unknown r s = again s

  -- A readMessage that fails.
  unfoldable pub on_read_error : GoError → ClientStream M → Result M × ClientStream M
  on_read_error eof s = (err eof, record s { state = in_closed })
  on_read_error e s = (err (translate_context_error e), s)

  abbrev pub on_read :
      After M
      → (ClientStream M → Result M × ClientStream M)
      → Result (Frame M) × List (Frame M)
      → ClientStream M
      → Result M × ClientStream M
  on_read after again (err e, rest) s =
      on_read_error e (record s { responses = rest; turns = later_turns s.turns })
  on_read after again (ok r, rest) s =
      on_frame after again (kind r) r (record s { responses = rest; turns = later_turns s.turns })

  -- The loop of recvMsgLocked, over the frames still to come. A read from [] gives no frame.
  unfoldable pub recv_loop : After M → List (Frame M) → ClientStream M → Result M × ClientStream M
  unfolding on_frame on_read_error kind read_message
  recv_loop after [] s = on_read after (λ s. (err eof, s)) (read_message (next_turn s.turns) []) s
  recv_loop after (m ∷ ms) s =
      on_read after (recv_loop after ms) (read_message (next_turn s.turns) (m ∷ ms)) s

  -- The peeked frame of recvMsgLocked.
  unfoldable pub recv_last :
      After M → FrameKind → Frame M → ClientStream M → Result M × ClientStream M
  unfolding recv_loop take_data
  recv_last after kind_data f s = take_data (λ s. after (record s { last = none })) f.payload s
  recv_last after kind_error f s =
      (err (translate_context_error (or_eof f.fault)), record s { state = in_closed })
  recv_last after _ f s = recv_loop after s.responses s

  abbrev pub recv_peeked : After M → Option (Frame M) → ClientStream M → Result M × ClientStream M
  recv_peeked after none s = recv_loop after s.responses s
  recv_peeked after (some f) s = recv_last after (kind f) f s

  -- recvMsgLocked, by what it does behind a message.
  unfoldable pub recv_msg_locked : After M → ClientStream M → Result M × ClientStream M
  unfolding recv_last
  recv_msg_locked after s = recv_peeked after s.last s

  abbrev pub no_check : After M
  no_check s = (ok tt, s)

  abbrev pub refuse_more : Result M × ClientStream M → Result (Unit {0}) × ClientStream M
  refuse_more (ok _, s) = (
    err too_many,
    record s {
      last = some (record (empty_frame {M = M}) { fault = some too_many });
      state = in_closed;
    },
  )
  refuse_more (err e, s) = (ok tt, s)

  unfoldable pub ensure_no_more_locked : After M
  ensure_no_more_locked s = refuse_more (recv_msg_locked no_check s)

  unfoldable pub recv_msg : ClientStream M → Result M × ClientStream M
  recv_msg s =
      if s.response_stream
      then recv_msg_locked no_check s
      else recv_msg_locked ensure_no_more_locked s

  -- The switch of Header on the first frame.
  unfoldable pub on_first_frame : FrameKind → Frame M → ClientStream M → ClientStream M
  unfolding take_headers take_trailers
  on_first_frame kind_headers m s = take_headers m.headers s
  on_first_frame kind_trailers m s = take_trailers m.trailers s
  on_first_frame kind_error m s = record s { state = in_closed; last = some m }
  on_first_frame _ m s = record s { last = some m }

  abbrev pub on_first_read :
      Result (Frame M) × List (Frame M) → ClientStream M → Result (Option Md) × ClientStream M
  on_first_read (ok m, rest) s =
      let s' =
        on_first_frame (kind m) m
          (record s { responses = rest; turns = later_turns s.turns; state = in_messages }) in
      (ok s'.headers, s')
  on_first_read (err eof, rest) s =
      (ok s.headers, record s { responses = rest; turns = later_turns s.turns; state = in_closed })
  on_first_read (err e, rest) s =
      (err e, record s { responses = rest; turns = later_turns s.turns })

  unfoldable pub header : ClientStream M → Result (Option Md) × ClientStream M
  unfolding on_first_frame kind read_message
  header s =
      if is_in_headers s.state
      then on_first_read (read_message (next_turn s.turns) s.responses) s
      else (ok s.headers, s)

  unfoldable pub trailer : ClientStream M → Option Md
  trailer s = s.trailers

  unfoldable pub close_send : ClientStream M → ClientStream M
  unfolding close
  close_send s =
      if s.send_closed then s else record s { send_closed = true; requests = close s.requests }

  -- SendMsg; a nil message is `none`. The remote context is the server's, which ends with the RPC.
  unfoldable pub send_msg : Choice → Option M → ClientStream M → Result (Unit {0}) × ClientStream M
  unfolding write_message
  send_msg c none s =
      if s.send_closed
      then (err (other "send closed"), s)
      else (err (status_of code_internal "message to send is nil"), s)
  send_msg c (some m) s =
      if s.send_closed then (err (other "send closed"), s) else elim (s.cloner.clone m) [
        | err e ↦ (err e, s)
        | ok d ↦
            let (r, ch) =
              write_message c (record (empty_frame {M = M}) { payload = some d }) s.requests in
            (r, record s { requests = ch })
      ]
