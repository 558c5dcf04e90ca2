-- ===== src/OctetCounting/Scanner/Frames.antt =====
-- The scanner of octetcounting/scanner.go on the pieces of a well-formed frame.
use go_syslog.Base.{
  ℕ, ◌≤◌, ◌≡◌, refl, Option, none, some, [], ◌∷◌, ◌++◌, Bytes, Bool, true, false, All, append_assoc,
  append-nil, length, take-length-append, drop-length-append, length-append, arith, ok,
}
use go_syslog.Reader.{Reader, peek, discard}
use go_syslog.Strconv.{parse_uint}
use go_syslog.Strconv.Decimal.{IsDigit, IsNumeral, numeral}
use go_syslog.OctetCounting.Tokens.{eof, lf, ws, msglen, syslogmsg}
use go_syslog.OctetCounting.Scanner.{
  Scanner, max_int, max_uint, digit_run, scan_msg_len, scan_syslog_msg, scan_byte, scan,
}

-- A scanner by its fields.
abbrev pub at : Bytes → Option ℕ → ℕ → ℕ → Bool → ℕ → Scanner
at rest last size len ready maxlen = record {
  r = record { rest = rest; last = last; size = size };
  msglen = len;
  ready = ready;
  maxlen = maxlen;
}

digit_run-digits :
    (ds : Bytes) (r : Reader) (buf rest : Bytes)
    → All IsDigit ds
    → digit_run r buf (ds ++ (32 ∷ rest))
      ≡ (buf ++ ds, record { rest = 32 ∷ rest; last = none; size = r.size })
unfolding digit_run
digit_run-digits [] r buf rest h = ground (arith, append-nil buf)
digit_run-digits (d ∷ ds) r buf rest (h, hs) = ground (
  arith,
  append_assoc buf (d ∷ []) ds,
  digit_run-digits ds (record r { rest = ds ++ (32 ∷ rest); last = some d }) (buf ++ (d ∷ [])) rest
      hs,
)

module _ (last : Option ℕ) (size len : ℕ) (ready : Bool) (max : ℕ) where
  pub scan_length :
      {num : Bytes} (n : ℕ) (rest : Bytes)
      → IsNumeral num
      → parse_uint max_uint num ≡ ok n
      → n ≤ max
      → scan (at (num ++ (32 ∷ rest)) last size len ready max)
        ≡ (record { typ = msglen; lit = num }, at (32 ∷ rest) none size n false max)
  unfolding scan scan_msg_len
  scan_length n rest (numeral {d} {ds} lo hi h) e k = ground (
    arith,
    digit_run-digits ds (record { rest = ds ++ (32 ∷ rest); last = some d; size = size }) (d ∷ [])
        rest h,
  )

  pub scan_space :
      (rest : Bytes)
      → scan (at (32 ∷ rest) last size len ready max)
        ≡ (record { typ = ws; lit = 32 ∷ [] }, at rest (some 32) size len true max)
  unfolding scan scan_byte
  scan_space rest = refl

  pub scan_newline :
      (rest : Bytes)
      → scan (at (10 ∷ rest) last size len ready max)
        ≡ (record { typ = lf; lit = 10 ∷ [] }, at rest (some 10) size len true max)
  unfolding scan scan_byte
  scan_newline rest = refl

  pub scan_end :
      scan (at [] last size len ready max)
      ≡ (record { typ = eof; lit = [] }, at [] last size len false max)
  unfolding scan scan_byte
  scan_end = refl

-- A message starts with `<` and fits into the buffer and the range of `int`.
pub scan_message :
    (m rest : Bytes) (last : Option ℕ) (size max : ℕ)
    → length (60 ∷ m) ≤ size
    → length (60 ∷ m) ≤ max_int
    → scan (at (60 ∷ (m ++ rest)) last size (length (60 ∷ m)) true max)
      ≡ (record { typ = syslogmsg; lit = 60 ∷ m }, at rest none size 0 false max)
unfolding scan scan_byte scan_syslog_msg peek discard
scan_message m rest last size max h k = ground (
  arith,
  take-length-append (60 ∷ m) rest,
  drop-length-append (60 ∷ m) rest,
  length-append (60 ∷ m) rest,
)
