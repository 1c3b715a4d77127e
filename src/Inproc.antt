-- ===== src/Inproc.antt =====
-- inprocgrpc/in_process.go: frames, the Go channels that carry them, and message copies.
pub mod Server
pub mod Client
pub mod Unary
pub mod Requests
pub mod Cloners
pub mod Contexts
pub mod Channel
use grpchan.Base.{
  if◌then◌else◌, is_some, codes, Md, GoError, eof, status_error, Result, ok, err, ℕ, ◌≡◌, Bool,
  true, Option, none, List, [], ◌∷◌, ◌++◌, String,
}

abbrev pub code_internal : ℕ
code_internal = 13

abbrev pub code_unimplemented : ℕ
code_unimplemented = 12

abbrev pub status_of : ℕ → String → GoError
status_of code message =
    status_error (record { code = code; message = codes message; details = [] })

-- Cloner, on the messages of a call. Copy(out, in) is the new content of `out`.
pub record Cloner (M : Type 0) : Type 0 where
  pub copy : M → Result M
  pub clone : M → Result M

-- A cloner whose copies have the value of the original.
pub record IsFaithful {M : Type 0} (c : Cloner M) : Type 0 where
  pub copies : (m : M) → c.copy m ≡ ok m
  pub clones : (m : M) → c.clone m ≡ ok m

-- frame; a nil field is `none`
pub record Frame (M : Type 0) : Type 0 where
  pub payload : Option M
  pub headers : Option Md
  pub trailers : Option Md
  pub fault : Option GoError

pub data FrameKind : Type 0 where
  kind_headers kind_data kind_trailers kind_error kind_unknown : FrameKind

abbrev pub empty_frame : {M : Type 0} → Frame M
empty_frame = record { payload = none; headers = none; trailers = none; fault = none }

module _ {M : Type 0} where
  unfoldable pub kind : Frame M → FrameKind
  kind m =
      if is_some m.headers
      then kind_headers
      else if is_some m.payload
      then kind_data
      else if is_some m.trailers
      then kind_trailers
      else if is_some m.fault
      then kind_error
      else kind_unknown

-- The sending side of a Go channel: what was sent, and whether it is closed. A send on a closed
-- channel, or a second close, panics.
pub record Outbox (M : Type 0) : Type 0 where
  pub sent : List (Frame M)
  pub closed : Bool
  pub panicked : Bool

-- Which case of the select in writeMessage is taken, with the state of the context: the send, with
-- the context live or ended by then, the end of the context, or that of the remote context.
pub data Choice : Type 0 where
  delivered remote_closed : Choice
  delivered_late dropped : GoError → Choice

-- The same for the select in readMessage: a receive, with the context live or ended by then, or the
-- end of the context.
pub data Turn : Type 0 where
  received : Turn
  received_late cancelled : GoError → Turn

module _ {M : Type 0} where
  unfoldable pub send : Frame M → Outbox M → Outbox M
  send m ch =
      if ch.closed then record ch { panicked = true } else record ch { sent = ch.sent ++ m ∷ [] }

  unfoldable pub close : Outbox M → Outbox M
  close ch = if ch.closed then record ch { panicked = true } else record ch { closed = true }

  unfoldable pub write_message : Choice → Frame M → Outbox M → Result (Unit {0}) × Outbox M
  unfolding send
  write_message delivered m ch = (ok tt, send m ch)
  write_message (delivered_late e) m ch = (err e, send m ch)
  write_message (dropped e) m ch = (err e, ch)
  write_message remote_closed m ch = (err eof, ch)

  -- What readMessage returns, and what is left in a channel that its sender closes at the end.
  unfoldable pub read_message : Turn → List (Frame M) → Result (Frame M) × List (Frame M)
  read_message received [] = (err eof, [])
  read_message received (m ∷ ms) = (ok m, ms)
  read_message (received_late e) [] = (err e, [])
  read_message (received_late e) (m ∷ ms) = (err e, ms)
  read_message (cancelled e) ms = (err e, ms)
