-- ===== src/Httpgrpc/ClientStream/Termination.antt =====
-- That a caller who receives until an error comes to one, whatever the response holds.
use grpchan.Base.{
  is_some, length, Bytes, GoError, Result, ok, err, ℕ, zero, suc, ◌+◌, ◌≤◌, ◌<◌, ◌≡◌, refl, ap,
  true, Option, none, some, arith,
}
use grpchan.Stdio.{Reader}
use grpchan.Registry.{Outcome, value, panic}
use grpchan.Httpgrpc.Frames.{StreamMsg}
use grpchan.Httpgrpc.Wire.{HttpTrailer, Wire}
use grpchan.Httpgrpc.ClientStream.{
  Producer, reading, offering, finished, ClientStream, finish, on_trailer, on_response, produced,
  produce, read_error_if_done, Select, from_channel, from_context, taken, take, closed, too_many,
  after_single, on_second, check_single, on_msg, on_channel, unless_done, recv_msg,
}
use grpchan.Httpgrpc.ClientStream.Safety.{IsSettled, Returns, recv_msg-IsSafe}
use grpchan.Httpgrpc.ClientStream.Receiving.{Drained, drained, drain}
use grpchan.Sse.Progress.{ok_count, ok_count-le}
use grpchan.Httpgrpc.Wire.Progress.{IsProgressing}

-- How much the goroutine may still do: a message costs at least a byte of input.
abbrev left_of : Producer → ℕ
left_of (reading r) = suc (length r.input)
left_of (offering msg r) = suc (suc (length r.input))
left_of finished = 0

abbrev found : Option StreamMsg → ℕ
found none = 0
found (some msg) = 1

abbrev pub received : {M : Type 0} → Outcome (Result M) → ℕ
received (value r) = ok_count r
received (panic why) = 0

module _ {M : Type 0} (wire : Wire M) (error_text : GoError → Bytes)
    (progress : IsProgressing wire.read_response) where
  on_trailer-left_of :
      (t : Result HttpTrailer) (s : ClientStream) → left_of (on_trailer t s).producer ≡ 0
  unfolding finish
  on_trailer-left_of (ok t) s = refl
  on_trailer-left_of (err e) s = refl

  on_response-left_of :
      (m : Result StreamMsg) (r : Reader) (s : ClientStream)
      → left_of (on_response wire (m, r) s).producer ≤ suc (ok_count m + length r.input)
  unfolding on_response finish
  on_response-left_of (err e) r s = omega arith
  on_response-left_of (ok msg) r s = ground (arith, on_trailer-left_of (wire.decode_trailer msg) s)

  produced-left_of :
      (p : Producer) (s : ClientStream)
      → p ≡ s.producer
      → left_of (produced wire p s).producer ≤ left_of p
  produced-left_of (reading r) s e =
      let (m, r') = wire.read_response r in omega (arith, on_response-left_of m r' s, progress r)
  produced-left_of (offering msg r) s e = rw⁻¹ e (omega arith)
  produced-left_of finished s e = rw⁻¹ e (omega arith)

  taken-left_of :
      (p : Producer) (s : ClientStream)
      → p ≡ s.producer
      → let (msg, t) = taken p s in found msg + left_of t.producer ≤ left_of p
  taken-left_of (reading r) s e = rw⁻¹ e (omega arith)
  taken-left_of (offering msg r) s e = omega arith
  taken-left_of finished s e = rw⁻¹ e (omega arith)

  take-left_of :
      (s : ClientStream)
      → let (msg, t) = take wire error_text s in found msg + left_of t.producer ≤ left_of s.producer
  unfolding take produce
  take-left_of s =
      let s' = produce wire s in
      omega (arith, taken-left_of s'.producer s' refl, produced-left_of s.producer s refl)

  received-le : (r : Outcome (Result M)) → received r ≤ 1
  received-le (value r) = ok_count-le r
  received-le (panic why) = omega arith

  too_many-left_of :
      (e : Option GoError) (s : ClientStream)
      → (too_many wire error_text e s).1.producer ≡ s.producer
  too_many-left_of (some e) s = refl
  too_many-left_of none s = refl

  after_single-left_of :
      (m : M) (e : Option GoError) (s : ClientStream)
      → (after_single wire error_text m e s).1.producer ≡ s.producer
  after_single-left_of m none s = refl
  after_single-left_of m (some e) s = ground arith

  on_second-left_of :
      (m : M) (r : Option StreamMsg × ClientStream)
      → (on_second wire error_text m r).1.producer ≡ r.1.producer
  on_second-left_of m (some msg, s) = too_many-left_of s.r_err s
  on_second-left_of m (none, s) = after_single-left_of m (read_error_if_done s) s

  check_single-left_of :
      (y : Select) (m : M) (s : ClientStream)
      → left_of (check_single wire error_text y m s).1.producer ≤ left_of s.producer
  check_single-left_of (from_context e) m s = omega arith
  check_single-left_of from_channel m s =
      omega (arith, take-left_of s, ap left_of (on_second-left_of m (take wire error_text s)))

  on_msg-left_of :
      (y : Select) (m : Result M) (s : ClientStream)
      → left_of (on_msg wire error_text y m s).1.producer ≤ left_of s.producer
  on_msg-left_of y (err e) s = omega arith
  on_msg-left_of y (ok m) s = ground (arith, check_single-left_of y m s)

  closed-left_of :
      (e : Option GoError) (s : ClientStream)
      → let (r, t) = closed wire error_text e s in (received r ≡ 0) × (t.producer ≡ s.producer)
  closed-left_of (some e) s = (refl, refl)
  closed-left_of none s = (refl, refl)

  on_channel-left_of :
      (y : Select) (m : Option StreamMsg) (s : ClientStream)
      → let (r, t) = on_channel wire error_text y (m, s) in
        received r + left_of t.producer ≤ found m + left_of s.producer
  on_channel-left_of y none s =
      let (none_received, same) = closed-left_of (read_error_if_done s) s in
      omega (arith, none_received, ap left_of same)
  on_channel-left_of y (some msg) s = omega (
    arith,
    on_msg-left_of y (wire.decode_msg msg) s,
    received-le (on_msg wire error_text y (wire.decode_msg msg) s).0,
  )

  unless_done-left_of :
      (x y : Select) (e : Option GoError) (s : ClientStream)
      → let (r, t) = unless_done wire error_text x y e s in
        received r + left_of t.producer ≤ left_of s.producer
  unless_done-left_of x y (some e) s = omega arith
  unless_done-left_of (from_context e) y none s = omega arith
  unless_done-left_of from_channel y none s =
      let (m, t) = take wire error_text s in omega (arith, on_channel-left_of y m t, take-left_of s)

  recv_msg-left_of :
      (x y : Select) (s : ClientStream)
      → let (r, t) = recv_msg wire error_text x y s in
        received r + left_of t.producer ≤ left_of s.producer
  unfolding recv_msg
  recv_msg-left_of x y s = unless_done-left_of x y (read_error_if_done s) s

  -- A caller's loop comes to an end.
  drained-ended :
      (r : Outcome (Result M)) (s : ClientStream) (rest : Drained M)
      → Returns r
      → (received r ≡ 1 → is_some rest.ended ≡ true)
      → is_some (drained (r, s) rest).ended ≡ true
  drained-ended (value (ok m)) s rest h g = g refl
  drained-ended (value (err e)) s rest h g = refl
  drained-ended (panic why) s rest h g = absurd h

  drain-left_of :
      (n : ℕ) (s : ClientStream)
      → IsSettled s
      → left_of s.producer < n
      → is_some (drain wire error_text n s).ended ≡ true
  unfolding drain
  drain-left_of zero s settled enough = absurd (omega (arith, enough))
  drain-left_of (suc n) s settled enough =
      let (r, t) = recv_msg wire error_text from_channel from_channel s in
      let (no_panic, settled') =
        recv_msg-IsSafe wire error_text from_channel from_channel s settled in
      drained-ended r t (drain wire error_text n t) no_panic (λ one.
        drain-left_of n t settled'
          (omega (arith, enough, one, recv_msg-left_of from_channel from_channel s)))

  -- Whatever bytes a response holds, a caller who receives until an error, from the channel, comes to
  -- one: as many calls
  -- as the body has bytes, and two more, are enough, with a reader of which every message takes input.
  pub drain-terminates :
      (r : Reader) (s : ClientStream)
      → s.producer ≡ reading r
      → is_some (drain wire error_text (suc (suc (length r.input))) s).ended ≡ true
  drain-terminates r s at =
      drain-left_of (suc (suc (length r.input))) s (rw at tt) (omega (arith, ap left_of at))
