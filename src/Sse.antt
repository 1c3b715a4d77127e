-- ===== src/Sse.antt =====
-- internal/sse/sse.go: the encoder and the decoder of server-sent events.
pub mod RoundTrip
pub mod Progress
use grpchan.Base.{
  ◌==◌, if◌then◌else◌, is_empty, Bytes, codes, ◌=?◌, strip_prefix, GoError, eof, unexpected_eof,
  other, Result, ok, err, ℕ, Bool, true, false, ◌&&◌, ◌||◌, Option, none, some, [], ◌∷◌, ◌++◌,
}
use grpchan.Stdio.{Reader, Writer, write}

-- Event; the Go field Type is `kind`.
pub record Event : Type 0 where
  pub kind : Bytes
  pub payload : Bytes

abbrev is_line_end : ℕ → Bool
is_line_end c = c == b'\r' || c == b'\n'

-- bytes.TrimRight(line, "\r\n")
unfoldable pub trim_right : Bytes → Bytes
trim_right [] = []
trim_right (c ∷ cs) =
    let rest = trim_right cs in if is_empty rest && is_line_end c then [] else c ∷ rest

abbrev pub default_kind : Bytes
default_kind = codes "message"

unfoldable pub named : Event → Event
named e = if is_empty e.kind then record e { kind = default_kind } else e

abbrev add_data : Option Event → Bytes → Event
add_data none d = record { kind = []; payload = d }
add_data (some e) d = record e { payload = e.payload ++ d }

abbrev set_kind : Option Event → Bytes → Event
set_kind none k = record { kind = k; payload = [] }
set_kind (some e) k = record e { kind = k }

-- What one line does to the loop of Decode: go on with the event so far, or return.
pub data Step : Type 0 where
  more : Option Event → Step
  return : Result Event → Step

abbrev blank_line : Option Event → Step
blank_line none = more none
blank_line (some e) = return (ok (named e))

-- The switch of Decode, on a trimmed line.
unfoldable pub take_line : Option Event → Bytes → Step
take_line current line = elim (strip_prefix (codes "data: ") line) [
  | some payload ↦ more (some (add_data current payload))
  | none ↦ elim (strip_prefix (codes "event: ") line) [
    | some kind ↦ more (some (set_kind current kind))
    | none ↦ if is_empty line then blank_line current else return (err (other "malformed event"))
  ]
]

-- Decode on the last line, which the error `fail` of the reader ends.
unfoldable pub at_end : GoError → Option Event → Bytes → Result Event
at_end eof current (c ∷ cs) = err unexpected_eof
at_end eof (some e) [] = ok (named e)
at_end eof none [] = err eof
at_end fail current line = err fail

-- The loop of Decode; `line` is what ReadBytes has read of the current line.
unfoldable pub decode_from : GoError → Option Event → Bytes → Bytes → Result Event × Bytes
decode_from fail current line [] = (at_end fail current (trim_right line), [])
decode_from fail current line (c ∷ cs) = elim (c == b'\n') [
  | true ↦ elim (take_line current (trim_right (line ++ c ∷ []))) [
    | more next ↦ decode_from fail next [] cs
    | return r ↦ (r, cs)
  ]
  | false ↦ decode_from fail current (line ++ c ∷ []) cs
]

-- Decode: an event, and the reader with what follows it.
unfoldable pub decode : Reader → Result Event × Reader
decode r = let (e, rest) = decode_from r.fail none [] r.input in (e, record r { input = rest })

unfoldable pub encoded : Event → Bytes
encoded e =
    if is_empty e.kind || e.kind =? default_kind
    then codes "data: " ++ (e.payload ++ codes "\n\n")
    else codes "event: " ++ (e.kind ++ (codes "\ndata: " ++ (e.payload ++ codes "\n\n")))

unfoldable pub encode : Event → Writer → Result (Unit {0}) × Writer
encode e w = write (encoded e) w
