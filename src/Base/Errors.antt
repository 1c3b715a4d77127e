-- ===== src/Base/Errors.antt =====
-- The Go errors that the code tells apart, and the (value, error) results.
use Prim.Native.Nat.{ℕ}
use Prim.Native.String.{String}
use mathlib.Core.List.{List}
use grpchan.Base.Text.{Bytes}

-- google.rpc.Status: a code, a message, and details kept as opaque values.
pub record Status : Type 0 where
  pub code : ℕ
  pub message : Bytes
  pub details : List Bytes

pub data GoError : Type 0 where
  -- io.EOF and io.ErrUnexpectedEOF
  eof unexpected_eof : GoError
  -- context.DeadlineExceeded and context.Canceled
  deadline_exceeded canceled : GoError
  -- an error made by package status
  status_error : Status → GoError
  -- any other error, by its text
  other : String → GoError

pub data Result {ℓ} (A : Type ℓ) : Type ℓ where
  ok : A → Result A
  err : GoError → Result A

infixl 5 ◌>>=◌
abbrev pub ◌>>=◌ {ℓ κ} : {A : Type ℓ} {B : Type κ} → Result A → (A → Result B) → Result B
ok a >>= f = f a
err e >>= f = err e
