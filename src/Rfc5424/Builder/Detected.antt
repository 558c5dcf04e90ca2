-- ===== src/Rfc5424/Builder/Detected.antt =====
-- What auto/detect.go makes of the text that `String` of rfc5424/builder.go prints.
use go_syslog.Base.{
  ◌<◌, ◌^◌, ℕ, ◌≤◌, ◌≡◌, ◌≢◌, refl, ap, ◌∙◌, some, [], ◌∷◌, ◌++◌, Bytes, true, false, All, length,
  arith, ltb,
}
use go_syslog.Auto.Detect.{detect}
use go_syslog.Auto.Detect.Laws.{Digits, detect_number}
use go_syslog.Auto.Format.{rfc5424}
use go_syslog.Common.{valid_version, in_between}
use go_syslog.Rfc5424.Builder.Print.{string, print_rest, print_valid}
use go_syslog.Rfc5424.Builder.Store.{Elements}
use go_syslog.Rfc5424.Message.{SyslogMessage, valid}
use go_syslog.Strconv.Decimal.{
  decimal, IsDigit, IsNumeral, numeral, decimal-IsNumeral, length-decimal, decimal-digits,
}

no_close : (ds : Bytes) → All IsDigit ds → All (λ c. c ≢ 62) ds
no_close [] h = tt
no_close (d ∷ ds) (h, hs) = (ground arith, no_close ds hs)

are-Digits : (ds : Bytes) → All IsDigit ds → Digits ds
are-Digits [] h = tt
are-Digits (d ∷ ds) (h, hs) = (ground arith, are-Digits ds hs)

-- A version of at most three digits and a space behind it.
detect_version :
    (priority : ℕ) (version rest : Bytes)
    → IsNumeral version
    → length version ≤ 3
    → detect (60 ∷ (decimal priority ++ (62 ∷ (version ++ (32 ∷ rest))))) ≡ rfc5424
detect_version priority _ rest (numeral {d} {ds} lo hi h) l =
    detect_number (decimal priority) ds (32 ∷ rest) d
      (no_close (decimal priority) (decimal-digits priority)) lo hi (are-Digits ds h) refl
    ∙ (let f : ltb 2 (length ds) ≡ false = ground (arith, l) in rw f refl)

-- A valid message has a version of one to three digits.
numbered :
    {Time : Type 0} (sm : SyslogMessage Time Elements)
    → valid sm ≡ true
    → (0 < sm.version) × (sm.version < 10 ^ 3)
unfolding valid valid_version in_between
numbered sm h = ground arith

module _ {Time : Type 0} (format_time : Time → Bytes) where
  -- `String` prints a message with a priority if it is valid, and what it prints is detected as
  -- RFC 5424, whatever stands in the message.
  pub string-detect :
      (sm : SyslogMessage Time Elements) (priority : ℕ)
      → sm.base.priority ≡ some priority
      → valid sm ≡ true
      → (out : Bytes) × (string format_time sm ≡ some out) × (detect out ≡ rfc5424)
  unfolding string
  string-detect sm priority e h = (
    60 ∷ (decimal priority ++ (62 ∷ (decimal sm.version ++ (32 ∷ print_rest format_time sm)))),
    ap (print_valid format_time sm) e ∙ rw h refl,
    detect_version priority (decimal sm.version) (print_rest format_time sm)
        (decimal-IsNumeral sm.version (numbered sm h).0)
        (length-decimal sm.version 2 (numbered sm h).1),
  )
