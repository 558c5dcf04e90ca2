-- ===== src/Common/Decimal.antt =====
-- common/functions.go: `UnsafeUTF8DecimalCodePointsToInt`. The variables of the loop are `int`s,
-- kept as their 64-bit patterns; the result is read as the signed number that it is.
use go_syslog.Base.{
  sym, ◌∙◌, ◌<◌, ◌≤◌, ok, refl, ap, ℕ, ◌+◌, ◌-◌, ◌*◌, ◌/◌, ◌%◌, ◌^◌, ◌≡◌, [], ◌∷◌, ◌++◌, Bytes, All,
  arith,
}
use go_syslog.Base.Int.{ℤ, pos, negsuc, to_int, to_int-pos, to_int-mod}
use go_syslog.Strconv.Decimal.{IsDigit}
use go_syslog.Strconv.{digits_loop, parse_uint}
use mathlib.Core.List.{reverse-append, reverse, reverse-reverse}

abbrev pub int_mod : ℕ
int_mod = 2 ^ 64

-- The loop, from the last byte to the first: `out` and `ord` are its variables.
unfoldable pub loop : Bytes → ℕ → ℕ → ℕ
loop [] out ord = out
loop (c ∷ cs) out ord = loop cs ((out + (c + int_mod - 48) * ord) % int_mod) ((ord * 10) % int_mod)

-- `UnsafeUTF8DecimalCodePointsToInt`.
unfoldable pub unsafe_utf8_decimal_code_points_to_int : Bytes → ℤ
unfolding loop
unsafe_utf8_decimal_code_points_to_int chars = to_int (loop (reverse chars) 0 1)

not_digit : unsafe_utf8_decimal_code_points_to_int (10 ∷ []) ≡ negsuc 37
unfolding unsafe_utf8_decimal_code_points_to_int
not_digit = refl

all_digits : unsafe_utf8_decimal_code_points_to_int (48 ∷ 48 ∷ 50 ∷ []) ≡ pos 2
unfolding unsafe_utf8_decimal_code_points_to_int
all_digits = refl

-- The value of digits, the least significant first.
abbrev pub little : Bytes → ℕ
little [] = 0
little (c ∷ cs) = (c - 48) + 10 * little cs

-- The value of digits, the most significant first.
abbrev pub value : ℕ → Bytes → ℕ
value n [] = n
value n (c ∷ cs) = value (n * 10 + (c - 48)) cs

split_mod : (b : ℕ) → b ≡ int_mod * (b / int_mod) + b % int_mod
split_mod b = omega arith

split_product : (b d : ℕ) → b * d ≡ int_mod * ((b / int_mod) * d) + (b % int_mod) * d
split_product b d = omega (arith, ap (λ (t : ℕ). t * d) (split_mod b))

-- One round, on representatives.
round_mod :
    (a b c d : ℕ)
    → c ≡ d + 48
    → (a % int_mod + (c + int_mod - 48) * (b % int_mod)) % int_mod ≡ (a + b * d) % int_mod
round_mod a b c d e =
    let k : c + int_mod - 48 ≡ d + int_mod = omega arith in rw k (omega (arith, split_product b d))

loop-little :
    (cs : Bytes) (a b : ℕ)
    → All IsDigit cs
    → loop cs (a % int_mod) (b % int_mod) ≡ (a + b * little cs) % int_mod
unfolding loop
loop-little [] a b h = omega arith
loop-little (c ∷ cs) a b (h, hs) =
    let e : c ≡ c - 48 + 48 = ground arith in
    let ten : b % int_mod * 10 % int_mod ≡ b * 10 % int_mod = omega arith in
    rw (round_mod a b c (c - 48) e, ten)
      (loop-little cs (a + b * (c - 48)) (b * 10) hs ∙ ap (λ (t : ℕ). t % int_mod) (omega arith))

value-append : (xs : Bytes) (n c : ℕ) → value n (xs ++ (c ∷ [])) ≡ value n xs * 10 + (c - 48)
value-append [] n c = refl
value-append (x ∷ xs) n c = value-append xs (n * 10 + (x - 48)) c

value-reverse : (xs : Bytes) → value 0 (reverse xs) ≡ little xs
value-reverse [] = refl
value-reverse (x ∷ xs) =
    rw (reverse-append (x ∷ []) xs) (omega (arith, value-append (reverse xs) 0 x, value-reverse xs))

All-append : (xs ys : Bytes) → All IsDigit xs → All IsDigit ys → All IsDigit (xs ++ ys)
All-append [] ys h k = k
All-append (x ∷ xs) ys (h, hs) k = (h, All-append xs ys hs k)

All-reverse : (xs : Bytes) → All IsDigit xs → All IsDigit (reverse xs)
All-reverse [] h = tt
All-reverse (x ∷ xs) (h, hs) =
    rw (reverse-append (x ∷ []) xs) (All-append (reverse xs) (x ∷ []) (All-reverse xs hs) (h, tt))

-- On digits the conversion gives their value, wrapped to the width of `int`: the signed number
-- whose 64-bit pattern is that of the value.
pub conversion-value :
    (chars : Bytes)
    → All IsDigit chars
    → unsafe_utf8_decimal_code_points_to_int chars ≡ to_int (value 0 chars % int_mod)
unfolding unsafe_utf8_decimal_code_points_to_int
conversion-value chars h = ap to_int (
    loop-little (reverse chars) 0 1 (All-reverse chars h)
    ∙ ap (λ (t : ℕ). t % int_mod)
        (omega (arith, sym (value-reverse (reverse chars)) ∙ ap (value 0) (reverse-reverse chars))))

-- A value that an `int` holds is given as it is.
pub conversion-small :
    (chars : Bytes)
    → All IsDigit chars
    → value 0 chars ≤ 2 ^ 63 - 1
    → unsafe_utf8_decimal_code_points_to_int chars ≡ pos (value 0 chars)
conversion-small chars h k =
    conversion-value chars h ∙ to_int-mod (value 0 chars) ∙ to_int-pos (value 0 chars) k

digits_loop_sound :
    (s : Bytes) (max n : ℕ) {r : ℕ}
    → n ≤ max
    → digits_loop max n s ≡ ok r
    → All IsDigit s × (r ≡ value n s) × (r ≤ max)
unfolding digits_loop
digits_loop_sound [] max n h e = ground arith
digits_loop_sound (c ∷ s) max n {r} h e =
    ground (arith, digits_loop_sound s max (n * 10 + (c - 48)) {r = r})

-- Where `ParseUint` accepts a text, with a maximum that an `int` holds, the conversion that checks
-- nothing gives the same number, and not a negative one.
pub conversion-parse_uint :
    (s : Bytes) (max : ℕ) {n : ℕ}
    → max < 2 ^ 63
    → parse_uint max s ≡ ok n
    → unsafe_utf8_decimal_code_points_to_int s ≡ pos n
unfolding parse_uint
conversion-parse_uint [] max h e = cc
conversion-parse_uint (c ∷ s) max h e =
    let (d, v, k) = digits_loop_sound (c ∷ s) max 0 (omega arith) e in
    conversion-small (c ∷ s) d (omega arith) ∙ ap pos (sym v)

-- A text that `ParseUint` accepts is made of digits, and what it gives is their value, which is
-- within the maximum.
pub parse_uint_sound :
    (s : Bytes) (max : ℕ) {n : ℕ}
    → parse_uint max s ≡ ok n
    → All IsDigit s × (n ≡ value 0 s) × (n ≤ max)
unfolding parse_uint
parse_uint_sound [] max e = cc
parse_uint_sound (c ∷ s) max e = digits_loop_sound (c ∷ s) max 0 (omega arith) e
