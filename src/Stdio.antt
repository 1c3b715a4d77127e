-- ===== src/Stdio.antt =====
-- Package io as the transport uses it: a reader that holds the bytes still to come and the error
-- that ends them, a writer that may run out of room, io.ReadFull, and encoding/binary's big-endian
-- int32. An int32 is its bit pattern, a number below 2 ^ 32.
use grpchan.Base.{
  leb, if◌then◌else◌, le→leb, length, take, drop, length-append, take-append, drop-append, Bytes,
  GoError, eof, unexpected_eof, other, Result, ok, err, ℕ, ◌+◌, ◌-◌, ◌*◌, ◌/◌, ◌%◌, ◌≤◌, ◌<◌, ◌≡◌,
  ◌≢◌, Bool, true, false, Option, none, some, [], ◌∷◌, ◌++◌, arith,
}

pub record Reader : Type 0 where
  pub input : Bytes
  -- what Read returns once the input is used up; `eof` for a clean end
  pub fail : GoError

-- io.ReadFull on a short input: EOF only if no byte was read.
unfoldable pub short_read : GoError → Bytes → GoError
short_read eof [] = eof
short_read eof (b ∷ bs) = unexpected_eof
short_read e bs = e

-- io.ReadFull, which is io.ReadAtLeast with the buffer's length.
unfoldable pub read_full : ℕ → Reader → Result Bytes × Reader
read_full n r =
    if leb n (length r.input)
    then (ok (take n r.input), record r { input = drop n r.input })
    else (err (short_read r.fail r.input), record r { input = [] })

pub record Writer : Type 0 where
  pub written : Bytes
  -- how many more bytes the peer takes; `none` for no limit
  pub room : Option ℕ

-- Write: a short write returns an error.
unfoldable pub write : Bytes → Writer → Result (Unit {0}) × Writer
write b w = elim w.room [
  | none ↦ (ok tt, record w { written = w.written ++ b })
  | some n ↦
      if leb (length b) n
      then (ok tt, record { written = w.written ++ b; room = some (n - length b) })
      else (err (other "write failed"), record { written = w.written ++ take n b; room = some 0 })
]

unfoldable pub int32_bytes : ℕ → Bytes
int32_bytes n = (n / 16777216 % 256) ∷ (n / 65536 % 256) ∷ (n / 256 % 256) ∷ (n % 256) ∷ []

unfoldable pub bytes_int32 : Bytes → ℕ
bytes_int32 (a ∷ b ∷ c ∷ d ∷ _) = (a * 16777216 + b * 65536 + c * 256 + d) % 4294967296
bytes_int32 _ = 0

-- The two's complement of a bit pattern, and its sign.
unfoldable pub neg_int32 : ℕ → ℕ
neg_int32 n = (4294967296 - n) % 4294967296

unfoldable pub is_negative_int32 : ℕ → Bool
is_negative_int32 n = leb 2147483648 n

pub bytes_int32-int32_bytes : (n : ℕ) → n < 4294967296 → bytes_int32 (int32_bytes n) ≡ n
unfolding bytes_int32 int32_bytes
bytes_int32-int32_bytes n h = omega arith

pub read_full-append :
    (b rest : Bytes) (e : GoError)
    → read_full (length b) (record { input = b ++ rest; fail = e })
      ≡ (ok b, record { input = rest; fail = e })
unfolding read_full
read_full-append b rest e = rw (
  le→leb (length b) (length (b ++ rest)) (omega (arith, length-append b rest)),
  take-append b rest,
  drop-append b rest,
)

pub write-room_none :
    (b : Bytes) (w : Writer)
    → w.room ≡ none
    → write b w ≡ (ok tt, record w { written = w.written ++ b })
unfolding write
write-room_none b w h = ground arith

-- A negative size is the two's complement of a positive one.
pub neg_int32_lem :
    (n : ℕ)
    → 0 < n
    → n ≤ 2147483647
    → (neg_int32 n < 4294967296)
      × (neg_int32 n ≢ 2147483648)
      × (is_negative_int32 (neg_int32 n) ≡ true)
      × (neg_int32 (neg_int32 n) ≡ n)
unfolding neg_int32 is_negative_int32
neg_int32_lem n h k = (
  omega arith,
  omega arith,
  le→leb 2147483648 ((4294967296 - n) % 4294967296) (omega arith),
  omega arith,
)

pub is_negative_int32-small : (n : ℕ) → n ≤ 2147483647 → is_negative_int32 n ≡ false
unfolding is_negative_int32
is_negative_int32-small n h = ground arith

-- The four bytes of an int32 are read whole.
pub read_full-preface :
    (n : ℕ) (rest : Bytes) (e : GoError)
    → read_full 4 (record { input = int32_bytes n ++ rest; fail = e })
      ≡ (ok (int32_bytes n), record { input = rest; fail = e })
unfolding int32_bytes
read_full-preface n rest e = read_full-append (int32_bytes n) rest e

pub read_full_short :
    (n : ℕ) (r : Reader)
    → length r.input < n
    → read_full n r ≡ (err (short_read r.fail r.input), record r { input = [] })
unfolding read_full
read_full_short n r h = ground arith
