-- ===== src/Sse/RoundTrip.antt =====
-- The decoder reads back what the encoder wrote.
use grpchan.Base.{
  Bool-cases, All, All-append, is_empty, Bytes, codes, ◌=?◌, =?_iff, strip_prefix, GoError, Result,
  ok, ◌≡◌, refl, ◌∙◌, ◌≢◌, inl, inr, true, false, ◌||◌, Option, none, some, List, [], ◌∷◌, ◌++◌,
  append-nil, append_assoc, arith,
}
use grpchan.Sse.{
  Event, trim_right, default_kind, named, more, return, take_line, decode_from, decode, encoded,
}

abbrev EndsClean : Bytes → Type 0
EndsClean [] = Unit {0}
EndsClean (c ∷ []) = c ≢ b'\r'
EndsClean (c ∷ d ∷ cs) = EndsClean (d ∷ cs)

-- A text that one line can carry: no newline in it, and no carriage return at its end.
pub record IsLine (s : Bytes) : Type 0 where
  pub one_line : All (λ c. c ≢ b'\n') s
  pub clean : EndsClean s

trim_right-line :
    (s : Bytes) → All (λ c. c ≢ b'\n') s → EndsClean s → trim_right (s ++ b'\n' ∷ []) ≡ s
unfolding trim_right
trim_right-line [] h k = refl
trim_right-line (c ∷ []) h k = ground (arith, h.0)
trim_right-line (c ∷ d ∷ cs) h k = rw (trim_right-line (d ∷ cs) h.1 k)

-- The decoder takes one line, whatever part of it was read before.
decode_from-line :
    (fail : GoError) (current : Option Event) (line s rest : Bytes)
    → All (λ c. c ≢ b'\n') s
    → decode_from fail current line (s ++ b'\n' ∷ rest)
      ≡ decode_from fail current (line ++ s) (b'\n' ∷ rest)
unfolding decode_from
decode_from-line fail current line [] rest h = rw append-nil
decode_from-line fail current line (c ∷ cs) rest h = ground (
  arith,
  h.0,
  append_assoc line (c ∷ []) cs,
  decode_from-line fail current (line ++ c ∷ []) cs rest h.1,
)

decode_from-more :
    (fail : GoError) (current next : Option Event) (s rest : Bytes)
    → IsLine s
    → take_line current s ≡ more next
    → decode_from fail current [] (s ++ b'\n' ∷ rest) ≡ decode_from fail next [] rest
unfolding decode_from
decode_from-more fail current next s rest l e = ground (
  arith,
  e,
  trim_right-line s l.one_line l.clean,
  decode_from-line fail current [] s rest l.one_line,
)

decode_from-return :
    (fail : GoError) (current : Option Event) (s rest : Bytes) (r : Result Event)
    → IsLine s
    → take_line current s ≡ return r
    → decode_from fail current [] (s ++ b'\n' ∷ rest) ≡ (r, rest)
unfolding decode_from
decode_from-return fail current s rest r l e = ground (
  arith,
  e,
  trim_right-line s l.one_line l.clean,
  decode_from-line fail current [] s rest l.one_line,
)

strip_event-IsLine :
    (k : Bytes)
    → take_line none (codes "event: " ++ k) ≡ more (some (record { kind = k; payload = [] }))
unfolding take_line strip_prefix
strip_event-IsLine k = refl

take_line-data :
    (e : Event) (d : Bytes)
    → take_line (some e) (codes "data: " ++ d) ≡ more (some (record e { payload = e.payload ++ d }))
unfolding take_line strip_prefix
take_line-data e d = refl

take_line-first_data :
    (d : Bytes)
    → take_line none (codes "data: " ++ d) ≡ more (some (record { kind = []; payload = d }))
unfolding take_line strip_prefix
take_line-first_data d = refl

take_line_blank : (e : Event) → take_line (some e) [] ≡ return (ok (named e))
unfolding take_line strip_prefix
take_line_blank e = refl

EndsClean-append : (p s : Bytes) → EndsClean p → EndsClean s → EndsClean (p ++ s)
EndsClean-append [] s h k = k
EndsClean-append (c ∷ []) [] h k = h
EndsClean-append (c ∷ []) (d ∷ s) h k = k
EndsClean-append (c ∷ d ∷ p) s h k = EndsClean-append (d ∷ p) s h k

IsLine-append : (p : Bytes) {s : Bytes} → IsLine p → IsLine s → IsLine (p ++ s)
IsLine-append p {s} h k = record {
  one_line = All-append _ p s h.one_line k.one_line;
  clean = EndsClean-append p s h.clean k.clean;
}

IsLine-data : IsLine (codes "data: ")
IsLine-data = omega arith

IsLine-event : IsLine (codes "event: ")
IsLine-event = omega arith

pub IsLine-trailer : IsLine (codes "trailer")
IsLine-trailer = omega arith

pub IsLine-nil : IsLine []
IsLine-nil = omega arith

-- The data line and the blank line that end every event.
decode_from-data :
    (fail : GoError) (current : Option Event) (e : Event) (d rest : Bytes)
    → IsLine d
    → take_line current (codes "data: " ++ d) ≡ more (some e)
    → decode_from fail current [] (codes "data: " ++ (d ++ codes "\n\n") ++ rest)
      ≡ (ok (named e), rest)
decode_from-data fail current e d rest l h = rw (append_assoc d (codes "\n\n") rest) (
    decode_from-more fail current (some e) (codes "data: " ++ d) (b'\n' ∷ rest)
      (IsLine-append (codes "data: ") IsLine-data l) h
    ∙ decode_from-return fail (some e) [] rest (ok (named e)) IsLine-nil (take_line_blank e))

named_default :
    (e : Event)
    → (is_empty e.kind || e.kind =? default_kind) ≡ true
    → named (record { kind = []; payload = e.payload }) ≡ named e
unfolding named
named_default e h = ground (arith, =?_iff e.kind default_kind)

named_typed : (e : Event) → (is_empty e.kind || e.kind =? default_kind) ≡ false → named e ≡ e
unfolding named
named_typed e h = ground arith

decode_from-encoded :
    (e : Event) (rest : Bytes) (fail : GoError)
    → IsLine e.kind
    → IsLine e.payload
    → decode_from fail none [] (encoded e ++ rest) ≡ (ok (named e), rest)
unfolding encoded
decode_from-encoded e rest fail k l =
    elim (Bool-cases (is_empty e.kind || e.kind =? default_kind)) [
      | inl plain ↦
          rw (plain, encoded)
            (decode_from-data fail none _ e.payload rest l (take_line-first_data e.payload)
              ∙ rw (named_default e plain))
      | inr typed ↦
          let tail = codes "data: " ++ (e.payload ++ codes "\n\n") in
          let begun : Event = record { kind = e.kind; payload = [] } in
          rw (typed, encoded)
            (rw (append_assoc e.kind (b'\n' ∷ tail) rest) (
              decode_from-more fail none (some begun) (codes "event: " ++ e.kind) (tail ++ rest)
                (IsLine-append (codes "event: ") IsLine-event k) (strip_event-IsLine e.kind)
              ∙ decode_from-data fail (some begun) e e.payload rest l
                  (take_line-data begun e.payload)))
    ]

-- Decode returns the event that Encode wrote, its type defaulted to "message", and leaves the reader
-- behind it, where type and data fit on one line each.
pub decode-encoded :
    (e : Event) (rest : Bytes) (fail : GoError)
    → IsLine e.kind
    → IsLine e.payload
    → decode (record { input = encoded e ++ rest; fail = fail })
      ≡ (ok (named e), record { input = rest; fail = fail })
unfolding decode
decode-encoded e rest fail k l = rw (decode_from-encoded e rest fail k l)

abbrev data_lines : List Bytes → Bytes
data_lines [] = b'\n' ∷ []
data_lines (d ∷ ds) = codes "data: " ++ (d ++ b'\n' ∷ data_lines ds)

abbrev joined : List Bytes → Bytes
joined [] = []
joined (d ∷ ds) = d ++ joined ds

decode_from-data_lines :
    (e : Event) (ds : List Bytes) (rest : Bytes) (fail : GoError)
    → All IsLine ds
    → decode_from fail (some e) [] (data_lines ds ++ rest)
      ≡ (ok (named (record e { payload = e.payload ++ joined ds })), rest)
decode_from-data_lines e [] rest fail l =
    rw append-nil
      (decode_from-return fail (some e) [] rest (ok (named e)) IsLine-nil (take_line_blank e))
decode_from-data_lines e (d ∷ ds) rest fail l = rw (append_assoc d (b'\n' ∷ data_lines ds) rest) (
    decode_from-more fail (some e) _ (codes "data: " ++ d) (data_lines ds ++ rest)
      (IsLine-append (codes "data: ") IsLine-data l.0) (take_line-data e d)
    ∙ decode_from-data_lines _ ds rest fail l.1
    ∙ rw (append_assoc e.payload d (joined ds)))

-- An event of several data lines carries their texts joined, with nothing between them, and has the
-- type "message".
pub decode_data_lines :
    (d : Bytes) (ds : List Bytes) (rest : Bytes) (fail : GoError)
    → All IsLine (d ∷ ds)
    → decode (record { input = data_lines (d ∷ ds) ++ rest; fail = fail }) ≡ (
      ok (record { kind = default_kind; payload = joined (d ∷ ds) }),
      record { input = rest; fail = fail },
    )
unfolding decode
decode_data_lines d ds rest fail l =
    rw
      (
        append_assoc d (b'\n' ∷ data_lines ds) rest,
        decode_from-more fail none _ (codes "data: " ++ d) (data_lines ds ++ rest)
            (IsLine-append (codes "data: ") IsLine-data l.0) (take_line-first_data d),
        decode_from-data_lines (record { kind = []; payload = d }) ds rest fail l.1,
      )
      (unfold named in refl)
