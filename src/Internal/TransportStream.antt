-- ===== src/Internal/TransportStream.antt =====
-- internal/transport_stream.go: the streams that collect the headers and trailers of a handler. A
-- method holds the mutex for its whole body, so calls from several goroutines take effect one after
-- another, and a history is a list of calls.
pub mod Collects
use grpchan.Base.{
  if◌then◌else◌, Bytes, Md, merge, other, Result, ok, err, Bool, true, false, Option, none, some,
  List, [], ◌∷◌,
}

-- UnaryServerTransportStream; a nil map is `none`.
pub record UnaryStream : Type 0 where
  pub name : Bytes
  pub hdrs : Option Md
  pub hdrs_sent : Bool
  pub tlrs : Option Md
  pub tlrs_sent : Bool

-- &UnaryServerTransportStream{Name: name}
unfoldable pub new : Bytes → UnaryStream
new name = record { name = name; hdrs = none; hdrs_sent = false; tlrs = none; tlrs_sent = false }

abbrev pub entries : Option Md → Md
entries none = []
entries (some m) = m

unfoldable pub method : UnaryStream → Bytes
method sts = sts.name

unfoldable pub finish : UnaryStream → UnaryStream
finish sts = record sts { hdrs_sent = true; tlrs_sent = true }

unfoldable pub set_header : Md → UnaryStream → Result (Unit {0}) × UnaryStream
set_header md sts =
    if sts.hdrs_sent
    then (err (other "headers already sent"), sts)
    else (ok tt, record sts { hdrs = some (merge (entries sts.hdrs) md) })

abbrev mark_sent : Result (Unit {0}) × UnaryStream → Result (Unit {0}) × UnaryStream
mark_sent (ok _, sts) = (ok tt, record sts { hdrs_sent = true })
mark_sent (err e, sts) = (err e, sts)

unfoldable pub send_header : Md → UnaryStream → Result (Unit {0}) × UnaryStream
unfolding set_header
send_header md sts = mark_sent (set_header md sts)

unfoldable pub get_headers : UnaryStream → Option Md
get_headers sts = sts.hdrs

unfoldable pub set_trailer : Md → UnaryStream → Result (Unit {0}) × UnaryStream
set_trailer md sts =
    if sts.tlrs_sent
    then (err (other "trailers already sent"), sts)
    else (ok tt, record sts { tlrs = some (merge (entries sts.tlrs) md) })

unfoldable pub get_trailers : UnaryStream → Option Md
get_trailers sts = sts.tlrs

-- The calls that change the stream.
pub data Call : Type 0 where
  sets_header sends_header sets_trailer : Md → Call
  finishes : Call

unfoldable pub step : UnaryStream → Call → Result (Unit {0}) × UnaryStream
unfolding set_header send_header set_trailer finish
step sts (sets_header md) = set_header md sts
step sts (sends_header md) = send_header md sts
step sts (sets_trailer md) = set_trailer md sts
step sts finishes = (ok tt, finish sts)

unfoldable pub run : UnaryStream → List Call → UnaryStream
run sts [] = sts
run sts (c ∷ cs) = run (step sts c).1 cs

-- A grpc.ServerStream over a state `S`, with the TrySetTrailer that some implementations have.
pub record StreamOps (S : Type 0) : Type 0 where
  pub set_header_on : Md → S → Result (Unit {0}) × S
  pub send_header_on : Md → S → Result (Unit {0}) × S
  pub set_trailer_on : Md → S → S
  pub try_set_trailer_on : Option (Md → S → Result (Unit {0}) × S)

module _ {S : Type 0} (ops : StreamOps S) where
  -- ServerTransportStream.SetTrailer
  unfoldable pub delegated_set_trailer : Md → S → Result (Unit {0}) × S
  delegated_set_trailer md s = elim ops.try_set_trailer_on [
    | some try ↦ try md s
    | none ↦ (ok tt, ops.set_trailer_on md s)
  ]

  -- ServerTransportStream.SetHeader and SendHeader
  unfoldable pub delegated_set_header : Md → S → Result (Unit {0}) × S
  delegated_set_header md s = ops.set_header_on md s

  unfoldable pub delegated_send_header : Md → S → Result (Unit {0}) × S
  delegated_send_header md s = ops.send_header_on md s
