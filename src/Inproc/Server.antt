-- ===== src/Inproc/Server.antt =====
-- inprocgrpc/in_process.go: inProcessServerStream, the handler's end of an in-process stream. Each
-- method holds the mutex for its whole body. What the environment decides during a call, the state of
-- the context and the cases that its selects take, is an argument of the call. Stats handlers are
-- observers and are left out.
pub mod Protocol
pub mod Delivery
use grpchan.Base.{
  if◌then◌else◌, is_some, is_empty, Md, merge, GoError, eof, other, Result, ok, err, Bool, true,
  false, not, ◌&&◌, ◌||◌, Option, none, some, [], ◌∷◌,
}
use grpchan.Inproc.{
  code_internal, status_of, Cloner, Frame, empty_frame, Outbox, Choice, delivered, send, close,
  write_message,
}

pub data StreamState : Type 0 where
  in_headers in_messages in_closed : StreamState

pub record ServerStream (M : Type 0) : Type 0 where
  pub headers : Option Md
  pub trailers : Option Md
  pub state : StreamState
  pub responses : Outbox M

-- The environment of one call: s.ctx.Err(), and the choices of up to three writes.
pub record Env : Type 0 where
  pub ctx_err : Option GoError
  pub first : Choice
  pub second : Choice
  pub third : Choice

-- The context is live throughout, so no write is given up.
abbrev pub live : Env
live = record { ctx_err = none; first = delivered; second = delivered; third = delivered }

abbrev pub entries : Option Md → Md
entries none = []
entries (some m) = m

abbrev pub is_in_headers : StreamState → Bool
is_in_headers in_headers = true
is_in_headers _ = false

abbrev pub is_closed : StreamState → Bool
is_closed in_closed = true
is_closed _ = false

abbrev pub non_empty : Option Md → Bool
non_empty h = not (is_empty (entries h))

module _ {M : Type 0} where
  abbrev pub new_stream : ServerStream M
  new_stream = record {
    headers = none;
    trailers = none;
    state = in_headers;
    responses = record { sent = []; closed = false; panicked = false };
  }

  abbrev pub opened :
      Result (Unit {0}) × Outbox M → ServerStream M → Result (Unit {0}) × ServerStream M
  opened (ok _, ch) s = (ok tt, record s { responses = ch; headers = none; state = in_messages })
  opened (err e, ch) s = (err e, record s { responses = ch })

  -- len(s.headers) > 0
  unfoldable pub send_headers_locked : Choice → ServerStream M → Result (Unit {0}) × ServerStream M
  send_headers_locked c s = elim (entries s.headers) [
    | [] ↦ (ok tt, record s { headers = none; state = in_messages })
    | e ∷ es ↦
        opened
          (write_message c (record (empty_frame {M = M}) { headers = some (e ∷ es) }) s.responses) s
  ]

  unfoldable pub set_header_with :
      Env → Md → Bool → ServerStream M → Result (Unit {0}) × ServerStream M
  set_header_with env md send s =
      if not (is_in_headers s.state)
      then (err (other "headers already sent"), s)
      else let s' = record s { headers = some (merge (entries s.headers) md) } in
        if send then send_headers_locked env.first s' else (ok tt, s')

  unfoldable pub set_header : Env → Md → ServerStream M → Result (Unit {0}) × ServerStream M
  unfolding set_header_with
  set_header env md s = set_header_with env md false s

  unfoldable pub send_header : Env → Md → ServerStream M → Result (Unit {0}) × ServerStream M
  unfolding set_header_with
  send_header env md s = set_header_with env md true s

  unfoldable pub try_set_trailer : Md → ServerStream M → Result (Unit {0}) × ServerStream M
  try_set_trailer md s =
      if is_closed s.state
      then (err (other "trailers already sent"), s)
      else (ok tt, record s { trailers = some (merge (entries s.trailers) md) })

  -- SetTrailer must ignore the error.
  unfoldable pub set_trailer : Md → ServerStream M → ServerStream M
  unfolding try_set_trailer
  set_trailer md s = (try_set_trailer md s).1

  abbrev pub put :
      Result (Unit {0}) × Outbox M → ServerStream M → Result (Unit {0}) × ServerStream M
  put (r, ch) s = (r, record s { responses = ch })

  -- The last part of SendMsg, behind the headers.
  unfoldable pub send_payload :
      Cloner M → Env → Option M → ServerStream M → Result (Unit {0}) × ServerStream M
  send_payload cloner env none s = (err (status_of code_internal "message to send is nil"), s)
  send_payload cloner env (some m) s = elim (cloner.clone m) [
    | err e ↦ (err e, s)
    | ok c ↦
        put
          (write_message env.second (record (empty_frame {M = M}) { payload = some c }) s.responses)
          s
  ]

  abbrev pub then_payload :
      Cloner M
      → Env
      → Option M
      → Result (Unit {0}) × ServerStream M
      → Result (Unit {0}) × ServerStream M
  then_payload cloner env m (ok _, s) = send_payload cloner env m s
  then_payload cloner env m (err e, s) = (err e, s)

  -- SendMsg; a nil message is `none`.
  unfoldable pub send_msg :
      Cloner M → Env → Option M → ServerStream M → Result (Unit {0}) × ServerStream M
  send_msg cloner env m s =
      if is_some env.ctx_err || is_closed s.state
      then (err eof, s)
      else then_payload cloner env m
          (if is_in_headers s.state then send_headers_locked env.first s else (ok tt, s))

  -- A frame that is written if there is something to say, its error ignored.
  abbrev pub write_some : Bool → Choice → Frame M → Outbox M → Outbox M
  write_some false c m ch = ch
  write_some true c m ch = (write_message c m ch).1

  unfoldable pub finish : Env → Option GoError → ServerStream M → ServerStream M
  finish env e s =
      let hs =
        write_some (is_in_headers s.state && non_empty s.headers) env.first
          (record (empty_frame {M = M}) { headers = s.headers }) s.responses in
      let ts =
        write_some (non_empty s.trailers) env.second
          (record (empty_frame {M = M}) { trailers = s.trailers }) hs in
      let es = write_some (is_some e) env.third (record (empty_frame {M = M}) { fault = e }) ts in
      record s { trailers = none; state = in_closed; responses = close es }
