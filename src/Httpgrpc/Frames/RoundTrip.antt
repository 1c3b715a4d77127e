-- ===== src/Httpgrpc/Frames/RoundTrip.antt =====
-- What the size-prefixed writer writes, and that the size-prefixed reader reads it back.
use grpchan.Base.{
  if◌then◌else◌, le→ltb, length, Bytes, GoError, ok, ℕ, ◌≤◌, ◌<◌, ◌≡◌, refl, ◌≢◌, Bool, true, false,
  none, ◌++◌, append_assoc, arith,
}
use grpchan.Stdio.{
  Writer, int32_bytes, neg_int32, bytes_int32-int32_bytes, read_full-append, write-room_none,
  neg_int32_lem, is_negative_int32-small, read_full-preface,
}
use grpchan.Httpgrpc.Frames.{
  max_message_size, max_int32, write_frame, read_size_preface, read_body, read_frame, frame_bytes,
}

-- A frame goes out whole on a writer with no limit.
pub write_frame-frame_bytes :
    (b : Bytes) (end : Bool) (w : Writer)
    → w.room ≡ none
    → length b ≤ max_int32
    → write_frame b end w ≡ (ok tt, record w { written = w.written ++ frame_bytes b end })
unfolding write_frame
write_frame-frame_bytes b end w room small =
    let preface = int32_bytes (if end then neg_int32 (length b) else length b) in
    ground (
      arith,
      write-room_none preface w room,
      write-room_none b (record w { written = w.written ++ preface }) room,
      append_assoc w.written preface b,
    )

pub read_size_preface-int32_bytes :
    (n : ℕ) (rest : Bytes) (e : GoError)
    → n < 4294967296
    → n ≢ 2147483648
    → read_size_preface (record { input = int32_bytes n ++ rest; fail = e })
      ≡ (ok n, record { input = rest; fail = e })
unfolding read_size_preface
read_size_preface-int32_bytes n rest e small proper =
    rw (read_full-preface n rest e) (ground (arith, bytes_int32-int32_bytes n small))

read_body-append :
    (b rest : Bytes) (end : Bool) (e : GoError)
    → length b ≤ max_message_size
    → read_body end (length b) (record { input = b ++ rest; fail = e })
      ≡ (ok (record { payload = b; is_trailer = end }), record { input = rest; fail = e })
unfolding read_body
read_body-append b rest end e small =
    rw (read_full-append b rest e, le→ltb max_message_size (length b) small)

-- The reader reads back what stands on the wire for a message of an admitted size; a trailer must
-- not be empty.
pub read_frame-frame_bytes :
    (b rest : Bytes) (end : Bool) (e : GoError)
    → length b ≤ max_message_size
    → (end ≡ true → 0 < length b)
    → read_frame (record { input = frame_bytes b end ++ rest; fail = e })
      ≡ (ok (record { payload = b; is_trailer = end }), record { input = rest; fail = e })
unfolding read_frame
read_frame-frame_bytes b rest false e small nonempty =
    rw
      (
        append_assoc (int32_bytes (length b)) b rest,
        read_size_preface-int32_bytes (length b) (b ++ rest) e (omega arith) (omega arith),
        is_negative_int32-small (length b) (omega arith),
      )
      (read_body-append b rest false e small)
read_frame-frame_bytes b rest true e small nonempty =
    let (below, proper, negative, back) = neg_int32_lem (length b) (nonempty refl) (omega arith) in
    rw
      (
        append_assoc (int32_bytes (neg_int32 (length b))) b rest,
        read_size_preface-int32_bytes (neg_int32 (length b)) (b ++ rest) e below proper,
        negative,
        back,
      )
      (read_body-append b rest true e small)
