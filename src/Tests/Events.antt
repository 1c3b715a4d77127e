-- ===== src/Tests/Events.antt =====
-- Server-sent events at concrete values.
use grpchan.Base.{codes, eof, ok, ◌≡◌, ◌++◌, arith}
use grpchan.Sse.{Event, named, decode, encoded}
use grpchan.Sse.RoundTrip.{IsLine, decode-encoded}

abbrev trailer_event : Event
trailer_event = record { kind = codes "trailer"; payload = codes "{}" }

abbrev kind-IsLine : IsLine (codes "trailer")
kind-IsLine = omega arith

abbrev payload-IsLine : IsLine (codes "{}")
payload-IsLine = omega arith

decode-encoded_example :
    decode (record { input = encoded trailer_event ++ codes "next"; fail = eof })
    ≡ (ok (named trailer_event), record { input = codes "next"; fail = eof })
decode-encoded_example = decode-encoded trailer_event (codes "next") eof kind-IsLine payload-IsLine
