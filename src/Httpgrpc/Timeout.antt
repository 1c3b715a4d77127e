-- ===== src/Httpgrpc/Timeout.antt =====
-- httpgrpc/client.go headersFromContext and httpgrpc/server.go contextFromHeaders: metadata and the
-- deadline of a call across HTTP. A time.Duration is an int64 of nanoseconds, as a bit pattern below
-- 2 ^ 64; the time that a client has left is given by its sign and its size.
pub mod Deadlines
use grpchan.Base.{
  ◌==◌, if◌then◌else◌, Bytes, codes, Md, Result, ok, ◌>>=◌, ℕ, ◌-◌, ◌*◌, ◌/◌, ◌%◌, Bool, true,
  false, Option, none, some, [], ◌∷◌, ◌++◌,
}
use grpchan.Strconv.{print_decimal, parse_int}
use grpchan.Httpgrpc.Headers.{Base64, as_metadata, to_headers}
use grpchan.Httpgrpc.Status.{set_header, get_header}

abbrev pub timeout_header : Bytes
timeout_header = codes "GRPC-Timeout"

-- int64(timeout / time.Millisecond), and at least 1.
unfoldable pub timeout_millis : Bool → ℕ → ℕ
timeout_millis true nanos = 1
timeout_millis false nanos = if nanos / 1000000 == 0 then 1 else nanos / 1000000

-- All but the last byte, and the last one.
unfoldable pub split_last : Bytes → Option (Bytes × ℕ)
split_last [] = none
split_last (c ∷ cs) = elim (split_last cs) [
  | none ↦ some ([], c)
  | some (before, last) ↦ some (c ∷ before, last)
]

-- The nanoseconds of a unit; 0 for a letter that is none.
unfoldable pub unit_of : ℕ → ℕ
unit_of c =
    if c == b'H'
    then 3600000000000
    else if c == b'M'
    then 60000000000
    else if c == b'S'
    then 1000000000
    else if c == b'm'
    then 1000000
    else if c == b'u'
    then 1000
    else if c == b'n'
    then 1
    else 0

-- The int64 with a sign and a size.
unfoldable pub int64_of : Bool × ℕ → ℕ
int64_of (false, n) = n
int64_of (true, n) = (18446744073709551616 - n) % 18446744073709551616

-- time.Duration(timeoutVal) * unit, in int64; `none` where no timeout is set.
unfoldable pub scaled : ℕ → Option (Bool × ℕ) → Option ℕ
scaled unit none = none
scaled unit (some p) = if unit == 0 then none else some (int64_of p * unit % 18446744073709551616)

abbrev pub parse_parts : Option (Bytes × ℕ) → Option ℕ
parse_parts none = none
parse_parts (some (digits, suffix)) = scaled (unit_of suffix) (parse_int 9223372036854775808 digits)

unfoldable pub parse_timeout : Bytes → Option ℕ
parse_timeout timeout = parse_parts (split_last timeout)

-- The timeout that a request asks for.
unfoldable pub request_timeout : Md → Option ℕ
request_timeout h = parse_timeout (get_header h timeout_header)

unfoldable pub add_timeout : Md → Option (Bool × ℕ) → Md
unfolding timeout_millis
add_timeout h none = h
add_timeout h (some (past, nanos)) =
    set_header h timeout_header (print_decimal (timeout_millis past nanos) ++ b'm' ∷ [])

module _ (b64 : Base64) where
  abbrev pub outgoing_headers : Option Md → Md
  outgoing_headers none = []
  outgoing_headers (some md) = to_headers b64 md [] []

  -- From the outgoing metadata, if any, and the time until the deadline, if there is one.
  unfoldable pub headers_from_context : Option Md → Option (Bool × ℕ) → Md
  headers_from_context outgoing left = add_timeout (outgoing_headers outgoing) left

  -- The incoming metadata of the server's context, and its timeout.
  unfoldable pub context_from_headers : Md → Result (Md × Option ℕ)
  context_from_headers h = as_metadata b64 h >>= λ md. ok (md, request_timeout h)
