-- ===== src/Common/Tests.antt =====
-- Runs of the conversions of digits.
use go_syslog.Base.{◌%◌, ◌≤◌, ◌≡◌, refl, ok, arith, codes, All}
use go_syslog.Base.Int.{pos, to_int}
use go_syslog.Strconv.{parse_uint}
use go_syslog.Strconv.Decimal.{IsDigit}
use go_syslog.Common.Decimal.{
  int_mod, value, unsafe_utf8_decimal_code_points_to_int, conversion-value, conversion-parse_uint,
  parse_uint_sound,
}

parses : parse_uint 255 (codes "0191") ≡ ok 191
unfolding parse_uint
parses = refl

conversion-parse_uint_example : unsafe_utf8_decimal_code_points_to_int (codes "0191") ≡ pos 191
conversion-parse_uint_example = conversion-parse_uint (codes "0191") 255 (omega arith) parses

parse_uint_sound_example : All IsDigit (codes "0191") × (191 ≡ value 0 (codes "0191")) × (191 ≤ 255)
parse_uint_sound_example = parse_uint_sound (codes "0191") 255 parses

conversion-value_example :
    unsafe_utf8_decimal_code_points_to_int (codes "18446744073709551617")
    ≡ to_int (value 0 (codes "18446744073709551617") % int_mod)
conversion-value_example = conversion-value (codes "18446744073709551617") (by_digits)
  where
    by_digits : All IsDigit (codes "18446744073709551617")
    by_digits = ground arith
