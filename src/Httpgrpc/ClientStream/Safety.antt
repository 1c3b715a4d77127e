-- ===== src/Httpgrpc/ClientStream/Safety.antt =====
-- Runs of the caller's stream, from the response on: the calls of the caller and the steps of the
-- goroutine, in any order, and what holds at each point.
use grpchan.Base.{
  if◌then◌else◌, Bytes, GoError, Result, ok, err, ◌≡◌, refl, Bool, true, false, Option, none, some,
  arith,
}
use grpchan.Stdio.{Reader}
use grpchan.Registry.{Outcome, value, panic}
use grpchan.Httpgrpc.Frames.{StreamMsg}
use grpchan.Httpgrpc.Status.{first}
use grpchan.Httpgrpc.Wire.{HttpTrailer, Wire}
use grpchan.Httpgrpc.ClientStream.{
  Producer, reading, offering, finished, ClientStream, finish, on_trailer, on_response, produced,
  produce, final_error, read_error_if_done, Select, from_channel, from_context, taken, take, closed,
  too_many, after_single, on_second, check_single, on_msg, on_channel, unless_done, recv_msg,
}

-- The channel is closed only if the stream is done.
abbrev pub Ended : Producer → Bool → Type 0
Ended finished done = done ≡ true
Ended (reading r) done = Unit
Ended (offering msg r) done = Unit

abbrev pub IsSettled : ClientStream → Type 0
IsSettled s = Ended s.producer s.done

-- The goroutine waits for a receiver, or is done.
abbrev pub AtRest : Producer → Bool → Type 0
AtRest finished done = done ≡ true
AtRest (reading r) done = ⊥
AtRest (offering msg r) done = Unit

-- No message means that the stream is done.
abbrev pub Found : Option StreamMsg → Bool → Type 0
Found none done = done ≡ true
Found (some msg) done = Unit

Ended-true : (p : Producer) → Ended p true
Ended-true finished = refl
Ended-true (reading r) = tt
Ended-true (offering msg r) = tt

on_trailer-AtRest :
    (t : Result HttpTrailer) (s : ClientStream) → let u = on_trailer t s in AtRest u.producer u.done
unfolding finish
on_trailer-AtRest (ok t) s = refl
on_trailer-AtRest (err e) s = refl

module _ {M : Type 0} (wire : Wire M) where
  message_or_trailer-AtRest :
      (end : Bool) (msg : StreamMsg) (r : Reader) (s : ClientStream)
      → let t =
          if end
          then on_trailer (wire.decode_trailer msg) s
          else record s { producer = offering msg r } in
        AtRest t.producer t.done
  message_or_trailer-AtRest true msg r s = on_trailer-AtRest (wire.decode_trailer msg) s
  message_or_trailer-AtRest false msg r s = tt

  on_response-AtRest :
      (r : Result StreamMsg × Reader) (s : ClientStream)
      → let t = on_response wire r s in AtRest t.producer t.done
  unfolding on_response finish
  on_response-AtRest (err e, r) s = refl
  on_response-AtRest (ok msg, r) s = message_or_trailer-AtRest msg.is_trailer msg r s

  produced-AtRest :
      (p : Producer) (s : ClientStream)
      → p ≡ s.producer
      → Ended p s.done
      → let t = produced wire p s in AtRest t.producer t.done
  produced-AtRest (reading r) s e h = on_response-AtRest (wire.read_response r) s
  produced-AtRest (offering msg r) s e h = rw⁻¹ e tt
  produced-AtRest finished s e h = rw⁻¹ e h

  pub produce-AtRest :
      (s : ClientStream) → IsSettled s → let t = produce wire s in AtRest t.producer t.done
  unfolding produce
  produce-AtRest s h = produced-AtRest s.producer s refl h

  pub AtRest-Ended : (p : Producer) (done : Bool) → AtRest p done → Ended p done
  AtRest-Ended (offering msg r) done h = tt
  AtRest-Ended finished done h = h
  AtRest-Ended (reading r) done h = tt

  taken-Ended :
      (p : Producer) (s : ClientStream)
      → p ≡ s.producer
      → AtRest p s.done
      → let (msg, t) = taken p s in Found msg t.done × IsSettled t
  taken-Ended (offering msg r) s e h = (tt, tt)
  taken-Ended finished s e h = (h, rw⁻¹ e h)
  taken-Ended (reading r) s e h = absurd h

  -- What RecvMsg finds on the channel: if nothing, then the stream is done.
  take-Ended :
      (error_text : GoError → Bytes) (s : ClientStream)
      → IsSettled s
      → let (msg, t) = take wire error_text s in Found msg t.done × IsSettled t
  unfolding take
  take-Ended error_text s h =
      let s' = produce wire s in taken-Ended s'.producer s' refl (produce-AtRest s h)

-- A call returns; it does not panic.
abbrev pub Returns : {A : Type 0} → Outcome A → Type 0
Returns (value a) = Unit
Returns (panic why) = ⊥

abbrev pub IsSafe : {A : Type 0} → Outcome A × ClientStream → Type 0
IsSafe (r, s) = Returns r × IsSettled s

pub read_error_if_done-done :
    (s : ClientStream) → s.done ≡ true → read_error_if_done s ≡ some (final_error s.r_err s.tr)
unfolding read_error_if_done
read_error_if_done-done s d = ground arith

module _ {M : Type 0} (wire : Wire M) (error_text : GoError → Bytes) where
  closed-IsSafe :
      (s : ClientStream)
      → s.done ≡ true
      → IsSettled s
      → IsSafe (closed wire error_text (read_error_if_done s) s)
  closed-IsSafe s d h = rw (read_error_if_done-done s d) (tt, h)

  after_single-IsSafe :
      (m : M) (e : GoError) (s : ClientStream)
      → IsSettled s
      → IsSafe (after_single wire error_text m (some e) s)
  after_single-IsSafe m e s h = ground arith

  too_many-IsSafe :
      (e : Option GoError) (s : ClientStream) → IsSettled s → IsSafe (too_many wire error_text e s)
  too_many-IsSafe (some e) s h = (tt, h)
  too_many-IsSafe none s h = (tt, Ended-true s.producer)

  on_second-IsSafe :
      (m : M) (r : Option StreamMsg × ClientStream)
      → Found r.0 r.1.done × IsSettled r.1
      → IsSafe (on_second wire error_text m r)
  on_second-IsSafe m (some msg, s) h = too_many-IsSafe s.r_err s h.1
  on_second-IsSafe m (none, s) h =
      rw (read_error_if_done-done s h.0) (after_single-IsSafe m (final_error s.r_err s.tr) s h.1)

  check_single-IsSafe :
      (second : Select) (m : M) (s : ClientStream)
      → IsSettled s
      → IsSafe (check_single wire error_text second m s)
  check_single-IsSafe (from_context e) m s h = (tt, h)
  check_single-IsSafe from_channel m s h =
      on_second-IsSafe m (take wire error_text s) (take-Ended wire error_text s h)

  on_msg-IsSafe :
      (second : Select) (r : Result M) (s : ClientStream)
      → IsSettled s
      → IsSafe (on_msg wire error_text second r s)
  on_msg-IsSafe second (err e) s h = (tt, h)
  on_msg-IsSafe second (ok m) s h = ground (arith, check_single-IsSafe second m s h)

  on_channel-IsSafe :
      (second : Select) (r : Option StreamMsg × ClientStream)
      → Found r.0 r.1.done × IsSettled r.1
      → IsSafe (on_channel wire error_text second r)
  on_channel-IsSafe second (none, s) h = closed-IsSafe s h.0 h.1
  on_channel-IsSafe second (some msg, s) h = on_msg-IsSafe second (wire.decode_msg msg) s h.1

  unless_done-IsSafe :
      (first second : Select) (e : Option GoError) (s : ClientStream)
      → IsSettled s
      → IsSafe (unless_done wire error_text first second e s)
  unless_done-IsSafe first second (some e) s h = (tt, h)
  unless_done-IsSafe (from_context e) second none s h = (tt, h)
  unless_done-IsSafe from_channel second none s h =
      on_channel-IsSafe second (take wire error_text s) (take-Ended wire error_text s h)

  -- RecvMsg returns, and keeps the invariant.
  pub recv_msg-IsSafe :
      (first second : Select) (s : ClientStream)
      → IsSettled s
      → IsSafe (recv_msg wire error_text first second s)
  unfolding recv_msg
  recv_msg-IsSafe first second s h = unless_done-IsSafe first second (read_error_if_done s) s h
