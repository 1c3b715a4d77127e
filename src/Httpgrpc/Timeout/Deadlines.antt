-- ===== src/Httpgrpc/Timeout/Deadlines.antt =====
-- A deadline that crosses HTTP.
use grpchan.Httpgrpc.Status.RoundTrip.{values-set_header}
use grpchan.Base.{
  ltb, if◌then◌else◌, Bytes, =?_refl, Md, ℕ, ◌*◌, ◌/◌, ◌%◌, ◌≤◌, ◌<◌, ◌≡◌, refl, ap, ◌∙◌, Bool,
  true, false, ◌||◌, Option, some, [], ◌∷◌, ◌++◌, arith,
}
use grpchan.Strconv.{print_decimal, parse_int-print_decimal}
use grpchan.Httpgrpc.Headers.{Base64, canonical_key}
use grpchan.Httpgrpc.Status.{set_header, get_header}
use grpchan.Httpgrpc.Timeout.{
  timeout_header, timeout_millis, split_last, unit_of, int64_of, scaled, parse_timeout,
  request_timeout, add_timeout, outgoing_headers, headers_from_context,
}

split_last-append : (s : Bytes) (c : ℕ) → split_last (s ++ c ∷ []) ≡ some (s, c)
unfolding split_last
split_last-append [] c = refl
split_last-append (b ∷ bs) c = rw (split_last-append bs c, split_last) refl

-- A number with a unit.
parse_timeout-print_decimal :
    (n c : ℕ)
    → n < 9223372036854775808
    → parse_timeout (print_decimal n ++ c ∷ []) ≡ scaled (unit_of c) (some (false, n))
unfolding parse_timeout
parse_timeout-print_decimal n c h =
    rw (split_last-append (print_decimal n) c, parse_int-print_decimal 9223372036854775808 n h) refl

pub get_header-set_header : (h : Md) (k v : Bytes) → get_header (set_header h k v) k ≡ v
unfolding get_header
get_header-set_header h k v =
    rw (values-set_header h k v (canonical_key k), =?_refl (canonical_key k)) refl

-- The hours from 2562048 to 5124095, all of them timeouts that gRPC allows, overflow the int64 of
-- nanoseconds: the timeout that the server sets is negative.
pub hours_overflow :
    (n : ℕ)
    → 2562048 ≤ n
    → n ≤ 5124095
    → (d : ℕ) × (parse_timeout (print_decimal n ++ b'H' ∷ []) ≡ some d)
      × (9223372036854775808 ≤ d)
      × (d < 18446744073709551616)
unfolding scaled unit_of int64_of
hours_overflow n low high = (
  n * 3600000000000 % 18446744073709551616,
  parse_timeout-print_decimal n b'H' (omega arith),
  omega arith,
  omega arith,
)

millis_fit :
    (past : Bool) (nanos : ℕ)
    → nanos < 9223372036854775808
    → timeout_millis past nanos < 9223372036854775808
unfolding timeout_millis
millis_fit true nanos h = omega arith
millis_fit false nanos h = ground arith

scaled_millis :
    (past : Bool) (nanos : ℕ)
    → nanos < 9223372036854775808
    → scaled (unit_of b'm') (some (false, timeout_millis past nanos))
      ≡ some (if past || ltb nanos 1000000 then 1000000 else nanos / 1000000 * 1000000)
unfolding timeout_millis scaled unit_of int64_of
scaled_millis true nanos h = refl
scaled_millis false nanos h = ground arith

module _ (b64 : Base64) where
  -- The timeout that a server sets is the time that the client had left, in whole milliseconds, or
  -- one millisecond if there was less.
  pub request_timeout-headers_from_context :
      (outgoing : Option Md) (past : Bool) (nanos : ℕ)
      → nanos < 9223372036854775808
      → request_timeout (headers_from_context b64 outgoing (some (past, nanos)))
        ≡ some (if past || ltb nanos 1000000 then 1000000 else nanos / 1000000 * 1000000)
  unfolding request_timeout headers_from_context add_timeout
  request_timeout-headers_from_context outgoing past nanos h =
      let n : ℕ = timeout_millis past nanos in
      ap parse_timeout (
        get_header-set_header (outgoing_headers b64 outgoing) timeout_header
          (print_decimal n ++ b'm' ∷ []))
      ∙ parse_timeout-print_decimal n b'm' (millis_fit past nanos h)
      ∙ scaled_millis past nanos h
