-- ===== src/Httpgrpc/Wire/Progress.antt =====
-- Both framings read: a message that is returned takes input.
use grpchan.Base.{
  leb→le, length, drop, Bytes, Result, ok, err, ℕ, zero, suc, ◌+◌, ◌≤◌, Bool, true, false, List, [],
  ◌∷◌, arith,
}
use grpchan.Stdio.{Reader, read_full, neg_int32}
use grpchan.Sse.{Event, decode}
use grpchan.Sse.Progress.{ok_count, ok_count-le, decode-progress}
use grpchan.Httpgrpc.Frames.{
  check_preface, read_size_preface, StreamMsg, finish_body, read_body, read_sized, read_frame,
}
use grpchan.Httpgrpc.Events.{event_message, read_event}

abbrev pub IsProgressing : (Reader → Result StreamMsg × Reader) → Type 0
IsProgressing read =
    (r : Reader) → let (m, r') = read r in ok_count m + length r'.input ≤ length r.input

length-drop_le {ℓ} : {A : Type ℓ} (n : ℕ) (xs : List A) → length (drop n xs) ≤ length xs
length-drop_le zero xs = omega arith
length-drop_le (suc n) [] = omega arith
length-drop_le (suc n) (x ∷ xs) = omega (arith, length-drop_le n xs)

length-drop_lt {ℓ} :
    {A : Type ℓ} (n : ℕ) (xs : List A)
    → suc n ≤ length xs
    → suc (length (drop (suc n) xs)) ≤ length xs
length-drop_lt n [] h = absurd (omega (arith, h))
length-drop_lt n (x ∷ xs) h = omega (arith, length-drop_le n xs)

read_full-le : (n : ℕ) (r : Reader) → length (read_full n r).1.input ≤ length r.input
unfolding read_full
read_full-le n r = ground (arith, length-drop_le n r.input)

read_full-progress :
    (n : ℕ) (r : Reader)
    → ok_count (read_full (suc n) r).0 + length (read_full (suc n) r).1.input ≤ length r.input
unfolding read_full
read_full-progress n r = ground (arith, length-drop_lt n r.input, leb→le (suc n) (length r.input))

check_preface-le :
    (b : Result Bytes) (r : Reader)
    → let (n, r') = check_preface (b, r) in
      ok_count n + length r'.input ≤ ok_count b + length r.input
unfolding check_preface
check_preface-le (err e) r = omega arith
check_preface-le (ok b) r = ground arith

finish_body-le :
    (end : Bool) (b : Result Bytes) (r : Reader)
    → length (finish_body end (b, r)).1.input ≤ length r.input
unfolding finish_body
finish_body-le end (ok b) r = omega arith
finish_body-le end (err e) r = ground arith

read_body-le :
    (end : Bool) (n : ℕ) (r : Reader) → length (read_body end n r).1.input ≤ length r.input
unfolding read_body
read_body-le end n r =
    ground (arith, finish_body-le end (read_full n r).0 (read_full n r).1, read_full-le n r)

read_sized-le :
    (n : Result ℕ) (r : Reader)
    → let (m, r') = read_sized (n, r) in ok_count m + length r'.input ≤ ok_count n + length r.input
unfolding read_sized
read_sized-le (err e) r = omega arith
read_sized-le (ok n) r = ground (
  arith,
  read_body-le true (neg_int32 n) r,
  read_body-le false n r,
  ok_count-le (read_body true (neg_int32 n) r).0,
  ok_count-le (read_body false n r).0,
)

pub read_frame-IsProgressing : IsProgressing read_frame
unfolding read_frame read_size_preface
read_frame-IsProgressing r =
    let (b, r') = read_full 4 r in
    let (n, r'') = read_size_preface r in
    omega (arith, read_full-progress 3 r, check_preface-le b r', read_sized-le n r'')

event_message-le :
    (e : Result Event) (r : Reader)
    → ok_count (event_message (e, r)).0 + length (event_message (e, r)).1.input
      ≤ ok_count e + length r.input
event_message-le (ok e) r = omega arith
event_message-le (err e) r = omega arith

pub read_event-IsProgressing : IsProgressing read_event
unfolding read_event
read_event-IsProgressing r =
    let (e, r') = decode r in omega (arith, decode-progress r, event_message-le e r')
