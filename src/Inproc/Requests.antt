-- ===== src/Inproc/Requests.antt =====
-- inprocgrpc/in_process.go: the channel of requests, from inProcessClientStream.SendMsg and CloseSend
-- to inProcessServerStream.RecvMsg.
pub mod EndToEnd
use grpchan.Base.{GoError, Result, ok, err, Option, none, some, List}
use grpchan.Inproc.{Cloner, Frame, Turn, read_message}

module _ {M : Type 0} where
  -- What Copy makes of a nil message is given; frames of the client's SendMsg always have one.
  abbrev pub copy_payload : Cloner M → GoError → Option M → Result M
  copy_payload cloner of_nil none = err of_nil
  copy_payload cloner of_nil (some m) = cloner.copy m

  abbrev pub on_request :
      Cloner M → GoError → Result (Frame M) × List (Frame M) → Result M × List (Frame M)
  on_request cloner of_nil (err e, rest) = (err e, rest)
  on_request cloner of_nil (ok r, rest) = elim r.fault [
    | some e ↦ (err e, rest)
    | none ↦ (copy_payload cloner of_nil r.payload, rest)
  ]

  -- RecvMsg of the server's stream, with the frames that are left in the channel.
  unfoldable pub recv_request :
      Cloner M → GoError → Turn → List (Frame M) → Result M × List (Frame M)
  recv_request cloner of_nil turn requests = on_request cloner of_nil (read_message turn requests)
