-- ===== src/Strconv/Decimal.antt =====
-- Decimal text, and that `ParseUint` reads it back.
use mathlib.Core.List.{concat-ne-nil}
use native.Mathlib.Nat.{pow-suc}
use go_syslog.Base.{
  length, length-append, ◌^◌, inr, ltb→lt, inl, ◌∙◌, Bool-cases, ◌≢◌, ◌<◌, All, ℕ, zero, suc, ◌+◌,
  ◌/◌, ◌%◌, ◌≤◌, ◌≡◌, refl, true, [], ◌∷◌, ◌++◌, Bytes, ok, ◌>>=◌, ltb, if◌then◌else◌, arith, ◌-◌,
  ◌*◌,
}
use go_syslog.Strconv.{parse_uint, in_digits, digits_loop}

abbrev pub IsDigit : ℕ → Type 0
IsDigit c = in_digits c ≡ true

-- The digits of `n`, most significant first; each round divides by ten, so `n` rounds are enough.
decimal_fuel : ℕ → ℕ → Bytes
decimal_fuel zero n = (48 + n % 10) ∷ []
decimal_fuel (suc f) n =
    let higher = decimal_fuel f (n / 10) in
    if ltb n 10 then (48 + n) ∷ [] else higher ++ ((48 + n % 10) ∷ [])

unfoldable pub decimal : ℕ → Bytes
unfolding decimal_fuel
decimal n = decimal_fuel n n

digits_loop-append :
    (max n : ℕ) (xs ys : Bytes)
    → digits_loop max n (xs ++ ys) ≡ (digits_loop max n xs >>= λ k. digits_loop max k ys)
unfolding digits_loop
digits_loop-append max n [] ys = refl
digits_loop-append max n (x ∷ xs) ys =
    ground (arith, digits_loop-append max (n * 10 + (x - 48)) xs ys)

digits_loop-decimal_fuel :
    (max f n : ℕ) → n ≤ f → n ≤ max → digits_loop max 0 (decimal_fuel f n) ≡ ok n
unfolding digits_loop decimal_fuel
digits_loop-decimal_fuel max zero n h k = ground arith
digits_loop-decimal_fuel max (suc f) n h k = ground (
  arith,
  digits_loop-append max 0 (decimal_fuel f (n / 10)) ((48 + n % 10) ∷ []),
  digits_loop-decimal_fuel max f (n / 10),
)

-- A decimal text that is no longer than it must be: it starts with a digit from 1 to 9.
pub data IsNumeral : Bytes → Type 0 where
  numeral : {d : ℕ} {ds : Bytes} → 49 ≤ d → d ≤ 57 → All IsDigit ds → IsNumeral (d ∷ ds)

All-IsDigit-concat :
    (ds : Bytes) (c : ℕ) → All IsDigit ds → IsDigit c → All IsDigit (ds ++ (c ∷ []))
All-IsDigit-concat [] c h k = (k, tt)
All-IsDigit-concat (d ∷ ds) c (h, hs) k = (h, All-IsDigit-concat ds c hs k)

IsNumeral-concat : {ds : Bytes} (c : ℕ) → IsNumeral ds → IsDigit c → IsNumeral (ds ++ (c ∷ []))
IsNumeral-concat c (numeral {d} {ds} lo hi h) k = numeral lo hi (All-IsDigit-concat ds c h k)

last-IsDigit : (n : ℕ) → IsDigit (48 + n % 10)
last-IsDigit n = ground arith

decimal_fuel-IsNumeral : (f n : ℕ) → 0 < n → n ≤ f → IsNumeral (decimal_fuel f n)
unfolding decimal_fuel
decimal_fuel-IsNumeral zero n h k = absurd (omega arith)
decimal_fuel-IsNumeral (suc f) n h k = elim (Bool-cases (ltb n 10)) [
  | inl small ↦ rw small (numeral (omega arith) (omega (arith, ltb→lt n 10 small)) tt)
  | inr large ↦ rw large (
      IsNumeral-concat (48 + n % 10)
        (decimal_fuel-IsNumeral f (n / 10) (ground arith) (omega arith)) (last-IsDigit n))
]

pub decimal-IsNumeral : (n : ℕ) → 0 < n → IsNumeral (decimal n)
unfolding decimal
decimal-IsNumeral n h = decimal_fuel-IsNumeral n n h (omega arith)

decimal_fuel-ne-nil : (f n : ℕ) → decimal_fuel f n ≢ []
unfolding decimal_fuel
decimal_fuel-ne-nil zero n = cc
decimal_fuel-ne-nil (suc f) n =
    ground (arith, concat-ne-nil (48 + n % 10) (decimal_fuel f (n / 10)))

parse_uint-digits_loop : (max : ℕ) (s : Bytes) → s ≢ [] → parse_uint max s ≡ digits_loop max 0 s
unfolding parse_uint
parse_uint-digits_loop max [] h = absurd (h refl)
parse_uint-digits_loop max (c ∷ s) h = refl

-- `ParseUint` reads the decimal text of every number in range.
pub parse_uint-decimal : (max n : ℕ) → n ≤ max → parse_uint max (decimal n) ≡ ok n
unfolding decimal
parse_uint-decimal max n h =
    parse_uint-digits_loop max (decimal n) (decimal_fuel-ne-nil n n)
    ∙ digits_loop-decimal_fuel max n n (omega arith) h

decimal_fuel-length : (f n k : ℕ) → n < 10 ^ suc k → length (decimal_fuel f n) ≤ suc k
unfolding decimal_fuel
decimal_fuel-length zero n k h = omega arith
decimal_fuel-length (suc f) n zero h = ground (arith, decimal_fuel-length f (n / 10) 0)
decimal_fuel-length (suc f) n (suc k) h =
    let step : n < 10 ^ suc k * 10 = rw pow-suc at h in
    ground (
      arith,
      decimal_fuel-length f (n / 10) k (omega arith),
      length-append (decimal_fuel f (n / 10)) ((48 + n % 10) ∷ []),
    )

-- The text of a number below 10 ^ (k + 1) has at most k + 1 digits.
pub length-decimal : (n k : ℕ) → n < 10 ^ suc k → length (decimal n) ≤ suc k
unfolding decimal
length-decimal n k h = decimal_fuel-length n n k h

decimal_fuel-digits : (f n : ℕ) → All IsDigit (decimal_fuel f n)
unfolding decimal_fuel
decimal_fuel-digits zero n = (last-IsDigit n, tt)
decimal_fuel-digits (suc f) n = elim (Bool-cases (ltb n 10)) [
  | inl small ↦ rw small (ground (arith, ltb→lt n 10 small))
  | inr large ↦ rw large (
      All-IsDigit-concat (decimal_fuel f (n / 10)) (48 + n % 10) (decimal_fuel-digits f (n / 10))
        (last-IsDigit n))
]

pub decimal-digits : (n : ℕ) → All IsDigit (decimal n)
unfolding decimal
decimal-digits n = decimal_fuel-digits n n

pub decimal-ne-nil : (n : ℕ) → decimal n ≢ []
unfolding decimal
decimal-ne-nil n = decimal_fuel-ne-nil n n
