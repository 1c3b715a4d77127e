-- ===== src/Sse/Progress.antt =====
-- internal/sse/sse.go: an event that Decode returns takes input.
use grpchan.Base.{
  length, Bytes, GoError, Result, ok, err, ℕ, suc, ◌+◌, ◌≤◌, Option, none, some, [], ◌∷◌, ◌++◌,
  arith,
}
use grpchan.Stdio.{Reader}
use grpchan.Sse.{Event, trim_right, Step, more, return, take_line, at_end, decode_from, decode}

abbrev pub ok_count : {A : Type 0} → Result A → ℕ
ok_count (ok a) = 1
ok_count (err e) = 0

pub ok_count-le : {A : Type 0} (r : Result A) → ok_count r ≤ 1
ok_count-le (ok a) = omega arith
ok_count-le (err e) = omega arith

-- Whether the loop has read part of an event.
abbrev begun : Option Event → ℕ
begun none = 0
begun (some e) = 1

begun-le : (current : Option Event) → begun current ≤ 1
begun-le none = omega arith
begun-le (some e) = omega arith

at_end-begun :
    (fail : GoError) (current : Option Event) (line : Bytes)
    → ok_count (at_end fail current line) ≤ begun current
unfolding at_end
at_end-begun fail none line = ground arith
at_end-begun fail (some e) line = ok_count-le (at_end fail (some e) line)

-- The loop behind a line.
after_line : GoError → Step → Bytes → Result Event × Bytes
after_line fail (more next) cs = decode_from fail next [] cs
after_line fail (return r) cs = (r, cs)

after_line-begun :
    (fail : GoError) (step : Step) (cs : Bytes)
    → ((next : Option Event)
        → let (e, rest) = decode_from fail next [] cs in
          ok_count e + length rest ≤ begun next + length cs)
    → let (e, rest) = after_line fail step cs in ok_count e + length rest ≤ suc (length cs)
unfolding after_line
after_line-begun fail (more next) cs h = omega (arith, h next, begun-le next)
after_line-begun fail (return r) cs h = omega (arith, ok_count-le r)

decode_from-begun :
    (fail : GoError) (current : Option Event) (line input : Bytes)
    → let (e, rest) = decode_from fail current line input in
      ok_count e + length rest ≤ begun current + length input
unfolding decode_from after_line
decode_from-begun fail current line [] = omega (arith, at_end-begun fail current (trim_right line))
decode_from-begun fail current line (c ∷ cs) = ground (
  arith,
  after_line-begun fail (take_line current (trim_right (line ++ c ∷ []))) cs
      (λ next. decode_from-begun fail next [] cs),
  decode_from-begun fail current (line ++ c ∷ []) cs,
)

pub decode-progress :
    (r : Reader) → let (e, r') = decode r in ok_count e + length r'.input ≤ length r.input
unfolding decode
decode-progress r = omega (arith, decode_from-begun r.fail none [] r.input)
