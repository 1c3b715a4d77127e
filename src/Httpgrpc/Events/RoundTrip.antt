-- ===== src/Httpgrpc/Events/RoundTrip.antt =====
-- A stream of server-sent events carries its messages and its trailer.
use grpchan.Base.{
  length, All, Bytes, ◌=?◌, GoError, ok, ℕ, zero, suc, ◌≡◌, refl, sym, ◌∙◌, ap, Bool, true, false,
  none, List, [], ◌∷◌, ◌++◌, map, append_assoc, append-nil, arith, Result,
}
use grpchan.Stdio.{Reader, Writer, write-room_none}
use grpchan.Sse.{encode, encoded, named}
use grpchan.Sse.RoundTrip.{IsLine, decode-encoded, IsLine-nil, IsLine-trailer}
use grpchan.Httpgrpc.Frames.{Codec, StreamMsg}
use grpchan.Httpgrpc.Events.{event_of, read_event, write_event}

-- A message as the reader returns it.
abbrev pub as_message : Bytes × Bool → StreamMsg
as_message (b, end) = record { payload = b; is_trailer = end }

-- The events of a list of messages and trailers.
abbrev all_encoded : List (Bytes × Bool) → Bytes
all_encoded [] = []
all_encoded ((b, end) ∷ ms) = encoded (event_of b end) ++ all_encoded ms

pub read_event-encoded :
    (b : Bytes) (end : Bool) (rest : Bytes) (e : GoError)
    → IsLine b
    → read_event (record { input = encoded (event_of b end) ++ rest; fail = e })
      ≡ (ok (as_message (b, end)), record { input = rest; fail = e })
unfolding read_event named ◌=?◌
read_event-encoded b true rest e l =
    rw (decode-encoded (event_of b true) rest e IsLine-trailer l) refl
read_event-encoded b false rest e l =
    rw (decode-encoded (event_of b false) rest e IsLine-nil l) refl

-- Reads until the reader has given n messages or an error.
unfoldable pub read_events : ℕ → Reader → List (Result StreamMsg) × Reader
read_events zero r = ([], r)
read_events (suc n) r =
    let (m, r') = read_event r in let (ms, r'') = read_events n r' in (m ∷ ms, r'')

read_events-all_encoded :
    (ms : List (Bytes × Bool)) (rest : Bytes) (e : GoError)
    → All (λ p. IsLine p.0) ms
    → read_events (length ms) (record { input = all_encoded ms ++ rest; fail = e })
      ≡ (map (λ p. ok (as_message p)) ms, record { input = rest; fail = e })
unfolding read_events
read_events-all_encoded [] rest e l = refl
read_events-all_encoded ((b, end) ∷ ms) rest e l =
    rw
      (
        append_assoc (encoded (event_of b end)) (all_encoded ms) rest,
        read_event-encoded b end (all_encoded ms ++ rest) e l.0,
        read_events-all_encoded ms rest e l.1,
      )
      refl

module _ {M : Type 0} (codec : Codec M) (bytes_of : M → Bytes) where
  -- The writer behind a message after the other, with what Flush returns; the results are dropped.
  unfoldable pub write_events : Result (Unit {0}) → List (M × Bool) → Writer → Writer
  write_events flushed [] w = w
  write_events flushed ((m, end) ∷ ms) w =
      write_events flushed ms (write_event codec flushed m end w).1

  abbrev pub sent_bytes : List (M × Bool) → List (Bytes × Bool)
  sent_bytes [] = []
  sent_bytes ((m, end) ∷ ms) = (bytes_of m, end) ∷ sent_bytes ms

  write_event-encoded :
      (flushed : Result (Unit {0})) (m : M) (end : Bool) (w : Writer)
      → codec.marshal m ≡ ok (bytes_of m)
      → w.room ≡ none
      → (write_event codec flushed m end w).1
        ≡ record w { written = w.written ++ encoded (event_of (bytes_of m) end) }
  unfolding write_event encode
  write_event-encoded flushed m end w marshals open_ended =
      rw (marshals, write-room_none (encoded (event_of (bytes_of m) end)) w open_ended) refl

  write_events-all_encoded :
      (flushed : Result (Unit {0})) (ms : List (M × Bool)) (w : Writer)
      → ((m : M) → codec.marshal m ≡ ok (bytes_of m))
      → w.room ≡ none
      → (write_events flushed ms w).written ≡ w.written ++ all_encoded (sent_bytes ms)
  unfolding write_events
  write_events-all_encoded flushed [] w marshals open_ended = ground (arith, append-nil w.written)
  write_events-all_encoded flushed ((m, end) ∷ ms) w marshals open_ended =
      let line : Bytes = encoded (event_of (bytes_of m) end) in
      rw (write_event-encoded flushed m end w (marshals m) open_ended, write_events)
        (write_events-all_encoded flushed ms (record w { written = w.written ++ line }) marshals
            open_ended
          ∙ append_assoc w.written line (all_encoded (sent_bytes ms)))

  -- What the writer of server-sent events puts on a connection with no limit, the reader at the other
  -- end gives back: the bytes of each message in order, and which of them are trailers, where no
  -- message has a line break in its bytes, whatever Flush returns.
  pub read_events-write_events :
      (flushed : Result (Unit {0})) (ms : List (M × Bool)) (fail : GoError)
      → ((m : M) → codec.marshal m ≡ ok (bytes_of m))
      → All (λ p. IsLine p.0) (sent_bytes ms)
      → read_events (length (sent_bytes ms)) (record {
        input = (write_events flushed ms (record { written = []; room = none })).written;
        fail = fail;
      })
        ≡ (map (λ p. ok (as_message p)) (sent_bytes ms), record { input = []; fail = fail })
  read_events-write_events flushed ms fail marshals lines =
      rw (write_events-all_encoded flushed ms (record { written = []; room = none }) marshals refl)
        (ap
            (λ (i : Bytes).
              read_events (length (sent_bytes ms)) (record { input = i; fail = fail }))
            (sym (append-nil (all_encoded (sent_bytes ms))))
          ∙ read_events-all_encoded (sent_bytes ms) [] fail lines)
