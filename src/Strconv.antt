-- ===== src/Strconv.antt =====
-- What the program uses of the standard library's strconv: `ParseUint` in base 10, and decimal text.
pub mod Decimal
use Prim.Native.Nat.{zero}
use go_syslog.Base.Int.{ℤ, pos, negsuc}
use go_syslog.Base.{
  ◌^◌, suc, ◌==◌, some, none, Option, ℕ, ◌+◌, ◌-◌, ◌*◌, Bool, not, ◌&&◌, [], ◌∷◌, Bytes, Except, ok,
  err, leb, ltb, if◌then◌else◌,
}

pub data NumError : Type 0 where
  syntax range : NumError

abbrev pub in_digits : ℕ → Bool
in_digits c = leb 48 c && leb c 57

-- The loop of `ParseUint`; `n` is the value so far and `max` is 2 ^ bitSize - 1.
-- The source's cutoff test refuses n with n * 10 above 2 ^ 64 - 1, which the one test covers.
unfoldable pub digits_loop : ℕ → ℕ → Bytes → Except NumError ℕ
digits_loop max n [] = ok n
digits_loop max n (c ∷ cs) =
    let n' = n * 10 + (c - 48) in
    if not (in_digits c)
    then err syntax
    else if ltb max n'
    then err range
    else digits_loop max n' cs

-- `strconv.ParseUint(s, 10, bits)`.
unfoldable pub parse_uint : ℕ → Bytes → Except NumError ℕ
unfolding digits_loop
parse_uint max [] = err syntax
parse_uint max (c ∷ cs) = digits_loop max 0 (c ∷ cs)

abbrev non_negative : Except NumError ℕ → Option ℤ
non_negative (err e) = none
non_negative (ok n) = some (pos n)

abbrev negated : Except NumError ℕ → Option ℤ
negated (err e) = none
negated (ok zero) = some (pos zero)
negated (ok (suc n)) = some (negsuc n)

-- `Atoi`, less the kind of its error: a sign is taken, and the number is a 64-bit `int`.
unfoldable pub atoi : Bytes → Option ℤ
atoi [] = none
atoi (c ∷ s) =
    if c == 45
    then negated (parse_uint (2 ^ 63) s)
    else if c == 43
    then non_negative (parse_uint (2 ^ 63 - 1) s)
    else non_negative (parse_uint (2 ^ 63 - 1) (c ∷ s))
