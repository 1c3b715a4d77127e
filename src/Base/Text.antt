-- ===== src/Base/Text.antt =====
-- Go strings and byte slices: lists of bytes, with the comparisons and the ASCII case mapping that
-- package strings and package bytes give.
use Prim.Native.Nat.{ℕ, ◌+◌, ◌-◌}
use Prim.Native.Char.{code}
use Prim.Native.String.{String}
use mathlib.Core.Path.{◌≡◌, refl}
use mathlib.Core.Logic.{◌↔◌}
use mathlib.Core.Bool.{Bool, true, false, ◌&&◌, ◌||◌}
use mathlib.Core.Option.{Option, none, some}
use mathlib.Core.List.{List, [], ◌∷◌, ◌++◌, map}
use native.Mathlib.Omega.{arith}
use grpchan.Base.Tests.{◌==◌, leb, if◌then◌else◌}

abbrev pub Bytes : Type 0
Bytes = List ℕ

-- The bytes of an ASCII literal.
abbrev pub codes : String → Bytes
codes String.[] = []
codes (String.◌∷◌ c s) = code c ∷ codes s

infix 50 ◌=?◌
unfoldable pub ◌=?◌ : Bytes → Bytes → Bool
[] =? [] = true
[] =? (y ∷ ys) = false
(x ∷ xs) =? [] = false
(x ∷ xs) =? (y ∷ ys) = x == y && xs =? ys

pub =?_iff : (a b : Bytes) → ((a =? b) ≡ true) ↔ (a ≡ b)
unfolding ◌=?◌
=?_iff [] [] = ground arith
=?_iff [] (y ∷ ys) = ground arith
=?_iff (x ∷ xs) [] = ground arith
=?_iff (x ∷ xs) (y ∷ ys) = ground (arith, =?_iff xs ys)

pub =?_refl : (a : Bytes) → (a =? a) ≡ true
=?_refl a = (=?_iff a a).1 refl

-- strings.TrimPrefix with the test strings.HasPrefix: what follows the prefix, if it is one.
unfoldable pub strip_prefix : Bytes → Bytes → Option Bytes
strip_prefix [] s = some s
strip_prefix (p ∷ ps) [] = none
strip_prefix (p ∷ ps) (c ∷ cs) = if p == c then strip_prefix ps cs else none

pub strip_prefix-append : (p s : Bytes) → strip_prefix p (p ++ s) ≡ some s
unfolding strip_prefix
strip_prefix-append [] s = refl
strip_prefix-append (p ∷ ps) s = ground (arith, strip_prefix-append ps s)

-- strings.HasSuffix.
unfoldable pub has_suffix : Bytes → Bytes → Bool
unfolding ◌=?◌
has_suffix s [] = [] =? s
has_suffix s (c ∷ cs) = (c ∷ cs) =? s || has_suffix s cs

-- strings.ToLower, on the bytes of an ASCII text.
unfoldable pub lower_byte : ℕ → ℕ
lower_byte c = if leb b'A' c && leb c b'Z' then c + 32 else c

unfoldable pub upper_byte : ℕ → ℕ
upper_byte c = if leb b'a' c && leb c b'z' then c - 32 else c

unfoldable pub to_lower : Bytes → Bytes
unfolding lower_byte
to_lower = map lower_byte
