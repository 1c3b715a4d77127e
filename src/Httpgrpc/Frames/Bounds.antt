-- ===== src/Httpgrpc/Frames/Bounds.antt =====
-- The size limits of the reader and the writer, and streams that end inside a frame.
use grpchan.Base.{
  ◌==◌, if◌then◌else◌, lt→ltb, le→ltb, length, is_empty, take, length-take-le, Bytes, GoError, eof,
  unexpected_eof, other, Result, ok, err, ℕ, zero, suc, ◌≤◌, ◌<◌, ◌≡◌, refl, Bool, true, false,
  none, [], ◌∷◌, ◌++◌, append_assoc, arith,
}
use grpchan.Stdio.{
  Reader, short_read, read_full, Writer, int32_bytes, neg_int32, neg_int32_lem,
  is_negative_int32-small, read_full_short,
}
use grpchan.Httpgrpc.Frames.{
  max_message_size, max_int32, write_frame, read_size_preface, StreamMsg, finish_body, read_body,
  read_sized, read_frame, frame_bytes,
}
use grpchan.Httpgrpc.Frames.RoundTrip.{write_frame-frame_bytes, read_size_preface-int32_bytes}

read_full-length :
    (n : ℕ) (r : Reader) {b : Bytes} {r' : Reader} → read_full n r ≡ (ok b, r') → length b ≤ n
unfolding read_full
read_full-length n r h = ground (arith, length-take-le n r.input)

read_body-bounded :
    (end : Bool) (size : ℕ) (r : Reader) {m : StreamMsg} {r' : Reader}
    → read_body end size r ≡ (ok m, r')
    → length m.payload ≤ max_message_size
unfolding read_body
read_body-bounded end size r {m} {r'} h = split (read_full size r) refl
  where
    split : (p : Result Bytes × Reader) → read_full size r ≡ p → length m.payload ≤ max_message_size
    split (ok b, q) e = ground (arith, read_full-length size r e)
    split (err eof, q) e = ground arith
    split (err _, q) e = ground arith

-- Whatever the peer sends, a message that the reader returns is within the size limit, and so is the
-- buffer that it allocated.
pub read_frame-bounded :
    (r : Reader) {m : StreamMsg} {r' : Reader}
    → read_frame r ≡ (ok m, r')
    → length m.payload ≤ max_message_size
unfolding read_frame
read_frame-bounded r {m} {r'} h = split (read_size_preface r) refl
  where
    split : (p : Result ℕ × Reader) → read_size_preface r ≡ p → length m.payload ≤ max_message_size
    split (err e, q) e' = ground arith
    split (ok size, q) e' = ground (
      arith,
      read_body-bounded true (neg_int32 size) q {m = m} {r' = r'},
      read_body-bounded false size q {m = m} {r' = r'},
    )

-- On a writer with no limit to its bytes, a message between the two size limits is sent, and the
-- reader at the other end refuses it: the writer's limit is the int32, the reader's 100 MiB.
pub oversize_refused :
    (b rest : Bytes) (end : Bool) (w : Writer) (e : GoError)
    → w.room ≡ none
    → max_message_size < length b
    → length b ≤ max_int32
    → (write_frame b end w ≡ (ok tt, record w { written = w.written ++ frame_bytes b end }))
      × (read_frame (record { input = frame_bytes b end ++ rest; fail = e }) ≡ (
        err (other "bad size preface: indicated size is too large"),
        record { input = b ++ rest; fail = e },
      ))
unfolding read_frame read_body
oversize_refused b rest false w e room big small = (
  write_frame-frame_bytes b false w room small,
  rw (
    append_assoc (int32_bytes (length b)) b rest,
    read_size_preface-int32_bytes (length b) (b ++ rest) e (omega arith) (omega arith),
    is_negative_int32-small (length b) small,
    lt→ltb max_message_size (length b) big,
  ),
)
oversize_refused b rest true w e room big small =
    let (below, proper, negative, back) = neg_int32_lem (length b) (omega arith) small in
    (
      write_frame-frame_bytes b true w room small,
      rw (
        append_assoc (int32_bytes (neg_int32 (length b))) b rest,
        read_size_preface-int32_bytes (neg_int32 (length b)) (b ++ rest) e below proper,
        negative,
        back,
        lt→ltb max_message_size (length b) big,
      ),
    )

-- A message that an int32 cannot measure is refused by the writer, and nothing is sent.
pub write_frame_too_large :
    (b : Bytes) (end : Bool) (w : Writer)
    → max_int32 < length b
    → write_frame b end w ≡ (err (other "message too large to send"), w)
unfolding write_frame
write_frame_too_large b end w h = rw (lt→ltb max_int32 (length b) h)

read_body_cut :
    (end : Bool) (b : Bytes) (k : ℕ)
    → length b ≤ max_message_size
    → k < length b
    → read_body end (length b) (record { input = take k b; fail = eof })
      ≡ (err unexpected_eof, record { input = []; fail = eof })
unfolding read_body
read_body_cut end b k small short =
    rw
      (
        le→ltb max_message_size (length b) small,
        read_full_short (length b) (record { input = take k b; fail = eof })
            (omega (arith, length-take-le k b)),
      )
      (cut (take k b))
  where
    cut :
        (p : Bytes)
        → finish_body end (err (short_read eof p), record { input = []; fail = eof })
          ≡ (err unexpected_eof, record { input = []; fail = eof })
    cut [] = unfold short_read in refl
    cut (c ∷ p) = unfold short_read in refl

read_frame_cut_body :
    (b : Bytes) (end : Bool) (k : ℕ)
    → length b ≤ max_message_size
    → k < length b
    → read_frame (record {
      input = int32_bytes (if end then neg_int32 (length b) else length b) ++ take k b;
      fail = eof;
    })
      ≡ (err unexpected_eof, record { input = []; fail = eof })
unfolding read_frame
read_frame_cut_body b false k small short =
    rw
      (
        read_size_preface-int32_bytes (length b) (take k b) eof (omega arith) (omega arith),
        is_negative_int32-small (length b) (omega arith),
      )
      (read_body_cut false b k small short)
read_frame_cut_body b true k small short =
    let (below, proper, negative, back) = neg_int32_lem (length b) (omega arith) (omega arith) in
    rw
      (
        read_size_preface-int32_bytes (neg_int32 (length b)) (take k b) eof below proper,
        negative,
        back,
      )
      (read_body_cut true b k small short)

read_frame_cut_preface :
    (p : Bytes)
    → length p < 4
    → read_frame (record { input = p; fail = eof })
      ≡ (err (if is_empty p then eof else unexpected_eof), record { input = []; fail = eof })
unfolding read_frame read_size_preface
read_frame_cut_preface p h = rw (read_full_short 4 (record { input = p; fail = eof }) h) (cut p)
  where
    cut :
        (p : Bytes)
        → read_sized (err (short_read eof p), record { input = []; fail = eof })
          ≡ (err (if is_empty p then eof else unexpected_eof), record { input = []; fail = eof })
    cut [] = unfold short_read in refl
    cut (c ∷ p) = unfold short_read in refl

-- A stream that ends cleanly inside a frame is an unexpected end; one that ends before the frame is
-- a plain end of the stream.
pub read_frame_cut :
    (b : Bytes) (end : Bool) (n : ℕ)
    → length b ≤ max_message_size
    → n < length (frame_bytes b end)
    → read_frame (record { input = take n (frame_bytes b end); fail = eof })
      ≡ (err (if n == 0 then eof else unexpected_eof), record { input = []; fail = eof })
unfolding int32_bytes
read_frame_cut b end zero small short = read_frame_cut_preface [] (omega arith)
read_frame_cut b end (suc zero) small short = read_frame_cut_preface _ (omega arith)
read_frame_cut b end (suc (suc zero)) small short = read_frame_cut_preface _ (omega arith)
read_frame_cut b end (suc (suc (suc zero))) small short = read_frame_cut_preface _ (omega arith)
read_frame_cut b end (suc (suc (suc (suc k)))) small short =
    ground (arith, read_frame_cut_body b end k small (omega arith))
