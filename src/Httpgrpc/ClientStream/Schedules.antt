-- ===== src/Httpgrpc/ClientStream/Schedules.antt =====
-- It does not matter to RecvMsg how far the goroutine has come.
use grpchan.Base.{
  if◌then◌else◌, Bytes, GoError, Result, ok, err, ◌≡◌, refl, sym, ap, ◌∙◌, subst, Bool, true, false,
}
use grpchan.Stdio.{Reader}
use grpchan.Httpgrpc.Frames.{StreamMsg}
use grpchan.Httpgrpc.Wire.{HttpTrailer, Wire}
use grpchan.Httpgrpc.ClientStream.{
  Producer, reading, offering, finished, ClientStream, finish, on_trailer, on_response, produced,
  produce, Select, from_channel, not_done, taken, take, on_channel, recv_msg,
}
use grpchan.Httpgrpc.ClientStream.Safety.{Ended, IsSettled, read_error_if_done-done}
use grpchan.Httpgrpc.ClientStream.Receiving.{recv_msg-not_done}

-- The goroutine is done, or waits for a receiver, with `done` as it was.
abbrev Waits : Bool → Producer → Bool → Type 0
Waits was finished done = done ≡ true
Waits was (reading r) done = ⊥
Waits was (offering msg r) done = done ≡ was

on_trailer-Waits :
    (was : Bool) (t : Result HttpTrailer) (s : ClientStream)
    → let u = on_trailer t s in Waits was u.producer u.done
unfolding finish
on_trailer-Waits was (ok t) s = refl
on_trailer-Waits was (err e) s = refl

module _ {M : Type 0} (wire : Wire M) (error_text : GoError → Bytes) where
  message_or_trailer-Waits :
      (end : Bool) (msg : StreamMsg) (r : Reader) (s : ClientStream)
      → let t =
          if end
          then on_trailer (wire.decode_trailer msg) s
          else record s { producer = offering msg r } in
        Waits s.done t.producer t.done
  message_or_trailer-Waits true msg r s = on_trailer-Waits s.done (wire.decode_trailer msg) s
  message_or_trailer-Waits false msg r s = refl

  on_response-Waits :
      (r : Result StreamMsg × Reader) (s : ClientStream)
      → let t = on_response wire r s in Waits s.done t.producer t.done
  unfolding on_response finish
  on_response-Waits (err e, r) s = refl
  on_response-Waits (ok msg, r) s = message_or_trailer-Waits msg.is_trailer msg r s

  produced-Waits :
      (p : Producer) (s : ClientStream)
      → p ≡ s.producer
      → Ended p s.done
      → let t = produced wire p s in Waits s.done t.producer t.done
  produced-Waits (reading r) s e h = on_response-Waits (wire.read_response r) s
  produced-Waits (offering msg r) s e h = rw⁻¹ e refl
  produced-Waits finished s e h = rw⁻¹ e h

  -- RecvMsg on the state `t` that a stream has come to, and on what it takes from there.
  recv_msg-taken :
      (y : Select) (p : Producer) (t : ClientStream)
      → p ≡ t.producer
      → Waits false p t.done
      → recv_msg wire error_text from_channel y t ≡ on_channel wire error_text y (taken p t)
  unfolding recv_msg take produce
  recv_msg-taken y (offering msg r) t e w =
      recv_msg-not_done wire error_text from_channel y t w
      ∙ ap
          (λ q.
            on_channel wire error_text y (taken (produced wire q t).producer (produced wire q t)))
          (sym e)
      ∙ ap (λ q. on_channel wire error_text y (taken q t)) (sym e)
  recv_msg-taken y finished t e w = rw (read_error_if_done-done t w) refl
  recv_msg-taken y (reading r) t e w = absurd w

  -- On a stream that is not done, nor its goroutine ended, a RecvMsg whose first select takes the channel, as it does
  -- while the context is live, gives the same result and leaves the same stream, whether the goroutine
  -- has read on before the call or reads on during it.
  pub recv_msg-produce :
      (y : Select) (s : ClientStream)
      → IsSettled s
      → s.done ≡ false
      → recv_msg wire error_text from_channel y (produce wire s)
        ≡ recv_msg wire error_text from_channel y s
  unfolding produce take
  recv_msg-produce y s settled not_done =
      let t = produce wire s in
      recv_msg-taken y t.producer t refl (
        subst (λ was. Waits was t.producer t.done) not_done
          (produced-Waits s.producer s refl settled))
      ∙ sym (recv_msg-not_done wire error_text from_channel y s not_done)
