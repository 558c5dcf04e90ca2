-- ===== src/Auto/Detect.antt =====
-- auto/detect.go.
pub mod Laws
use go_syslog.Base.{
  ℕ, suc, ◌+◌, Option, none, some, List, [], ◌∷◌, ◌++◌, Bytes, codes, Bool, true, false, not, ◌&&◌,
  ◌||◌, equal, length, take, leb, ltb, ◌==◌, if◌then◌else◌,
}
use go_syslog.Auto.Format.{Format, rfc3164, rfc5424}

abbrev pub is_digit : ℕ → Bool
is_digit b = leb 48 b && leb b 57

abbrev months : List Bytes
months =
    codes "Jan"
    ∷ codes "Feb"
    ∷ codes "Mar"
    ∷ codes "Apr"
    ∷ codes "May"
    ∷ codes "Jun"
    ∷ codes "Jul"
    ∷ codes "Aug"
    ∷ codes "Sep"
    ∷ codes "Oct"
    ∷ codes "Nov"
    ∷ codes "Dec"
    ∷ []

unfoldable pub one_of : Bytes → List Bytes → Bool
unfolding equal
one_of s [] = false
one_of s (t ∷ ts) = equal s t || one_of s ts

-- `hasRFC3164MonthPrefix`.
unfoldable pub has_rfc3164_month_prefix : Bytes → Bool
unfolding one_of
has_rfc3164_month_prefix (a ∷ b ∷ c ∷ d ∷ rest) =
    if not (d == 32) then false else one_of (a ∷ b ∷ c ∷ []) months
has_rfc3164_month_prefix _ = false

-- Four digits and a dash.
abbrev has_year_prefix : Bytes → Bool
has_year_prefix (a ∷ b ∷ c ∷ d ∷ e ∷ rest) =
    is_digit a && (is_digit b && (is_digit c && (is_digit d && e == 45)))
has_year_prefix _ = false

-- `detectWithoutPRI`.
unfoldable pub detect_without_pri : Bytes → Format
unfolding has_rfc3164_month_prefix
detect_without_pri input =
    if has_rfc3164_month_prefix input
    then rfc3164
    else if has_year_prefix input
    then rfc3164
    else rfc5424

-- The bytes behind the first `>`, if there is one.
unfoldable pub after_close : Bytes → Option Bytes
after_close [] = none
after_close (b ∷ bs) = if b == 62 then some bs else after_close bs

-- The loop over a run of digits: its length added to a count, and what stands behind it.
unfoldable pub count_digits : ℕ → Bytes → ℕ × Bytes
count_digits n [] = (n, [])
count_digits n (b ∷ bs) = if is_digit b then count_digits (suc n) bs else (n, b ∷ bs)

abbrev byte_after_digits : Bytes → Format
byte_after_digits [] = rfc5424
byte_after_digits (b ∷ bs) = if b == 32 then rfc5424 else if b == 58 then rfc3164 else rfc5424

abbrev is_letter : ℕ → Bool
is_letter b = leb 65 b && leb b 90 || leb 97 b && leb b 122

-- What stands behind the PRI.
unfoldable pub detect_body : Bytes → Format
detect_body [] = rfc5424
detect_body (b ∷ bs) =
    if is_letter b || (b == 32 || b == 42)
    then rfc3164
    else if b == 48
    then rfc3164
    else if leb 49 b && leb b 57
    then (let (digit_count, rest) = count_digits 1 bs in
        if ltb 3 digit_count then rfc3164 else byte_after_digits rest)
    else rfc5424

abbrev detect_behind : Bytes → Option Bytes → Format
detect_behind input none = detect_without_pri input
detect_behind input (some body) = detect_body body

-- `detect`.
unfoldable pub detect : Bytes → Format
detect [] = detect_without_pri []
detect (b ∷ bs) =
    if not (b == 60)
    then detect_without_pri (b ∷ bs)
    else detect_behind (b ∷ bs) (after_close (b ∷ bs))
