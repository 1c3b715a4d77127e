-- ===== src/Httpgrpc/Frames.antt =====
-- httpgrpc/io.go: the size-prefixed framing of protobuf streams. The message codec is a parameter.
pub mod RoundTrip
pub mod Bounds
use grpchan.Base.{
  ltb, ◌==◌, if◌then◌else◌, length, Bytes, eof, unexpected_eof, other, Result, ok, err, ℕ, Bool,
  true, false, ◌++◌,
}
use grpchan.Stdio.{
  Reader, read_full, Writer, write, int32_bytes, bytes_int32, neg_int32, is_negative_int32,
}

-- google.golang.org/grpc/encoding.CodecV2, over the messages of one call.
pub record Codec (M : Type 0) : Type 0 where
  pub marshal : M → Result Bytes
  pub unmarshal : Bytes → Result M

abbrev pub max_message_size : ℕ
max_message_size = 104857600

abbrev pub max_int32 : ℕ
max_int32 = 2147483647

unfoldable pub write_size_preface : ℕ → Writer → Result (Unit {0}) × Writer
write_size_preface sz w = write (int32_bytes sz) w

-- A step that is taken only if the one before it succeeded.
abbrev pub after_write :
    Result (Unit {0}) × Writer → (Writer → Result (Unit {0}) × Writer) → Result (Unit {0}) × Writer
after_write (ok _, w) next = next w
after_write (err e, w) next = (err e, w)

-- The writes of writeProtoMessage, once the message is encoded. The flush sends no bytes.
unfoldable pub write_frame : Bytes → Bool → Writer → Result (Unit {0}) × Writer
unfolding write_size_preface
write_frame b end w =
    if ltb max_int32 (length b)
    then (err (other "message too large to send"), w)
    else after_write (write_size_preface (if end then neg_int32 (length b) else length b) w)
        (write b)

unfoldable pub write_proto_message :
    {M : Type 0} → Codec M → M → Bool → Writer → Result (Unit {0}) × Writer
write_proto_message codec m end w = elim (codec.marshal m) [
  | err e ↦ (err e, w)
  | ok b ↦ write_frame b end w
]

unfoldable pub check_preface : Result Bytes × Reader → Result ℕ × Reader
check_preface (err e, r) = (err e, r)
check_preface (ok b, r) =
    if bytes_int32 b == 2147483648
    then (err (other "bad size preface: size overflow"), r)
    else (ok (bytes_int32 b), r)

unfoldable pub read_size_preface : Reader → Result ℕ × Reader
unfolding check_preface
read_size_preface r = check_preface (read_full 4 r)

-- streamMsg, less the codec that decodes it.
pub record StreamMsg : Type 0 where
  pub payload : Bytes
  pub is_trailer : Bool

unfoldable pub decode : {M : Type 0} → Codec M → StreamMsg → Result M
decode codec s = codec.unmarshal s.payload

-- errors.Is(err, io.EOF): io.EOF is returned if no bytes were read.
unfoldable pub finish_body : Bool → Result Bytes × Reader → Result StreamMsg × Reader
finish_body end (ok b, r) = (ok (record { payload = b; is_trailer = end }), r)
finish_body end (err eof, r) = (err unexpected_eof, r)
finish_body end (err e, r) = (err e, r)

unfoldable pub read_body : Bool → ℕ → Reader → Result StreamMsg × Reader
unfolding finish_body
read_body end size r =
    if ltb max_message_size size
    then (err (other "bad size preface: indicated size is too large"), r)
    else finish_body end (read_full size r)

unfoldable pub read_sized : Result ℕ × Reader → Result StreamMsg × Reader
read_sized (err e, r) = (err e, r)
read_sized (ok size, r) =
    if is_negative_int32 size then read_body true (neg_int32 size) r else read_body false size r

-- The function that newSizePrefixedReader returns.
unfoldable pub read_frame : Reader → Result StreamMsg × Reader
unfolding read_sized
read_frame r = read_sized (read_size_preface r)

-- The bytes of one message on the wire, written as the protocol describes them.
abbrev pub frame_bytes : Bytes → Bool → Bytes
frame_bytes b end = int32_bytes (if end then neg_int32 (length b) else length b) ++ b
