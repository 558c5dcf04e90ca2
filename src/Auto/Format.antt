-- ===== src/Auto/Format.antt =====
-- auto/format.go and auto/errors.go.
use go_syslog.Base.{Option, none, some, Bytes, codes, ◌++◌}

-- `Format`.
pub data Format : Type 0 where
  unknown rfc3164 rfc5424 : Format

-- `Format.String`.
abbrev pub format_string : Format → Bytes
format_string unknown = codes "unknown"
format_string rfc3164 = codes "rfc3164"
format_string rfc5424 = codes "rfc5424"

-- A syslog.Message by its concrete type: of one of the two packages, or of any other type.
pub data Message (M3164 M5424 Other : Type 0) : Type 0 where
  of_rfc3164 : M3164 → Message M3164 M5424 Other
  of_rfc5424 : M5424 → Message M3164 M5424 Other
  of_other : Other → Message M3164 M5424 Other

-- `DetectFormat`; `none` is a nil message.
unfoldable pub detect_format :
    {M3164 M5424 Other : Type 0} → Option (Message M3164 M5424 Other) → Format
detect_format none = unknown
detect_format (some (of_rfc3164 m)) = rfc3164
detect_format (some (of_rfc5424 m)) = rfc5424
detect_format (some (of_other m)) = unknown

-- `ParseError`: the error of a machine, and the input that could not be parsed. A machine that
-- gave no message may have given no error.
pub record ParseError (E : Type 0) : Type 0 where
  pub err : Option E
  pub raw_message : Bytes

-- `Unwrap`.
abbrev pub unwrap : {E : Type 0} → ParseError E → Option E
unwrap e = e.err

-- `Error`, with the text of the wrapped error.
abbrev pub error_string : {E : Type 0} → (Option E → Bytes) → ParseError E → Bytes
error_string text e = codes "auto-detect parse failed: " ++ text e.err
