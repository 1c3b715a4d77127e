-- ===== src/Strconv.antt =====
-- Package strconv and the %d of package fmt: decimal numbers.
use grpchan.Base.{
  ltb, leb, ◌==◌, if◌then◌else◌, Bool-cases, Bytes, ℕ, zero, suc, ◌+◌, ◌-◌, ◌*◌, ◌/◌, ◌%◌, ◌≤◌, ◌<◌,
  ◌≡◌, refl, ◌∙◌, subst, ◌≢◌, inl, inr, Bool, true, false, ◌&&◌, Option, none, some, [], ◌∷◌, arith,
}

-- The decimal digits of n in front of `rest`, on fuel.
unfoldable pub digits_onto : ℕ → ℕ → Bytes → Bytes
digits_onto zero n rest = rest
digits_onto (suc f) n rest =
    let longer = digits_onto f (n / 10) ((b'0' + n % 10) ∷ rest) in
    if ltb n 10 then (b'0' + n) ∷ rest else longer

-- Fuel n + 1 is enough: each digit divides by ten.
unfoldable pub print_decimal : ℕ → Bytes
unfolding digits_onto
print_decimal n = digits_onto (suc n) n []

-- %d of an int32, given by its bit pattern.
unfoldable pub print_int32 : ℕ → Bytes
unfolding print_decimal
print_int32 n = if ltb n 2147483648 then print_decimal n else b'-' ∷ print_decimal (4294967296 - n)

unfoldable pub parse_digits : ℕ → Bytes → Option ℕ
parse_digits n [] = some n
parse_digits n (c ∷ cs) =
    if leb b'0' c && leb c b'9' then parse_digits (n * 10 + (c - b'0')) cs else none

unfoldable pub parse_unsigned : Bytes → Option ℕ
parse_unsigned [] = none
parse_unsigned (c ∷ cs) = parse_digits 0 (c ∷ cs)

-- The range check of ParseInt; `limit` is 2 ^ (bitSize - 1).
abbrev pub in_range : ℕ → Bool → ℕ → Option (Bool × ℕ)
in_range limit negative n =
    if (if negative then leb n limit else ltb n limit) then some (negative, n) else none

abbrev pub signed : ℕ → Bool → Option ℕ → Option (Bool × ℕ)
signed limit negative none = none
signed limit negative (some n) = in_range limit negative n

-- strconv.ParseInt(s, 10, bitSize): the sign and the absolute value.
unfoldable pub parse_int : ℕ → Bytes → Option (Bool × ℕ)
parse_int limit [] = none
parse_int limit (c ∷ cs) =
    if c == b'-'
    then signed limit true (parse_unsigned cs)
    else if c == b'+'
    then signed limit false (parse_unsigned cs)
    else signed limit false (parse_unsigned (c ∷ cs))

parse_digits-digits_onto :
    (f n : ℕ) (rest : Bytes) → n < f → parse_digits 0 (digits_onto f n rest) ≡ parse_digits n rest
unfolding parse_digits digits_onto
parse_digits-digits_onto zero n rest h = elim h [ ]
parse_digits-digits_onto (suc f) n rest h =
    ground (arith, parse_digits-digits_onto f (n / 10) ((b'0' + n % 10) ∷ rest))

-- Every byte of a printed number is a digit, and there is one.
abbrev AllDigits : Bytes → Type 0
AllDigits [] = Unit {0}
AllDigits (c ∷ cs) = (b'0' ≤ c) × (c ≤ b'9') × AllDigits cs

digits_onto-AllDigits :
    (f n : ℕ) (rest : Bytes)
    → n < f
    → AllDigits rest
    → AllDigits (digits_onto f n rest) × (digits_onto f n rest ≢ [])
unfolding digits_onto
digits_onto-AllDigits zero n rest h a = elim h [ ]
digits_onto-AllDigits (suc f) n rest h a = elim (Bool-cases (ltb n 10)) [
  | inl short ↦ rw short ((ground arith, ground arith, a), λ e. cc)
  | inr long ↦ rw long (
      digits_onto-AllDigits f (n / 10) ((b'0' + n % 10) ∷ rest) (ground arith)
        (omega arith, omega arith, a))
]

parse_unsigned-digits : (n : ℕ) → parse_unsigned (print_decimal n) ≡ some n
unfolding print_decimal parse_unsigned
parse_unsigned-digits n = shown (digits_onto (suc n) n []) refl
  where
    all_read : parse_digits n [] ≡ some n
    all_read = unfold parse_digits in refl

    shown : (s : Bytes) → digits_onto (suc n) n [] ≡ s → parse_unsigned s ≡ some n
    shown [] e = absurd ((digits_onto-AllDigits (suc n) n [] (omega arith) tt).1 e)
    shown (c ∷ cs) e =
        subst (λ s. parse_digits 0 s ≡ some n) e
          (parse_digits-digits_onto (suc n) n [] (omega arith) ∙ all_read)

parse_int-AllDigits :
    (limit n c : ℕ) (cs : Bytes)
    → AllDigits (c ∷ cs)
    → parse_unsigned (c ∷ cs) ≡ some n
    → n < limit
    → parse_int limit (c ∷ cs) ≡ some (false, n)
unfolding parse_int
parse_int-AllDigits limit n c cs d p h = ground arith

-- ParseInt reads back a printed number below its limit.
pub parse_int-print_decimal :
    (limit n : ℕ) → n < limit → parse_int limit (print_decimal n) ≡ some (false, n)
unfolding print_decimal
parse_int-print_decimal limit n h = shown (digits_onto (suc n) n []) refl
  where
    shown : (s : Bytes) → digits_onto (suc n) n [] ≡ s → parse_int limit s ≡ some (false, n)
    shown [] e = absurd ((digits_onto-AllDigits (suc n) n [] (omega arith) tt).1 e)
    shown (c ∷ cs) e =
        parse_int-AllDigits limit n c cs
          (subst AllDigits e (digits_onto-AllDigits (suc n) n [] (omega arith) tt).0)
          (subst (λ s. parse_unsigned s ≡ some n) e (parse_unsigned-digits n)) h

-- codes.Code of a parsed int32, as the bit pattern of a uint32.
abbrev pub uint32_of : Bool × ℕ → ℕ
uint32_of (true, n) = (4294967296 - n) % 4294967296
uint32_of (false, n) = n

-- ParseInt to 32 bits reads back every printed int32.
pub parse_int-print_int32 :
    (n : ℕ)
    → n < 4294967296
    → (p : Bool × ℕ) × (parse_int 2147483648 (print_int32 n) ≡ some p) × (uint32_of p ≡ n)
unfolding print_int32
parse_int-print_int32 n h = elim (Bool-cases (ltb n 2147483648)) [
  | inl positive ↦
      ((false, n), rw positive (parse_int-print_decimal 2147483648 n (ground arith)), refl)
  | inr negative ↦ (
    (true, 4294967296 - n),
    rw negative (unfold parse_int in ground (arith, parse_unsigned-digits (4294967296 - n))),
    ground arith,
  )
]

-- A printed int32 holds no byte that is neither a digit nor a minus sign.
abbrev pub ColonFree : Bytes → Type 0
ColonFree [] = Unit {0}
ColonFree (c ∷ cs) = (c ≢ b':') × ColonFree cs

AllDigits-ColonFree : (s : Bytes) → AllDigits s → ColonFree s
AllDigits-ColonFree [] a = tt
AllDigits-ColonFree (c ∷ cs) a = (omega arith, AllDigits-ColonFree cs a.2)

pub print_int32-ColonFree : (n : ℕ) → ColonFree (print_int32 n) × (print_int32 n ≢ [])
unfolding print_int32 print_decimal
print_int32-ColonFree n = elim (Bool-cases (ltb n 2147483648)) [
  | inl positive ↦
      let (a, ne) = digits_onto-AllDigits (suc n) n [] (omega arith) tt in
      rw positive (AllDigits-ColonFree _ a, ne)
  | inr negative ↦
      let m : ℕ = 4294967296 - n in
      let (a, ne) = digits_onto-AllDigits (suc m) m [] (omega arith) tt in
      rw negative ((omega arith, AllDigits-ColonFree (digits_onto (suc m) m []) a), λ e. cc)
]
