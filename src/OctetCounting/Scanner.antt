-- ===== src/OctetCounting/Scanner.antt =====
-- octetcounting/scanner.go: the lexical scanner. `maxlen` is an `int` that `NewScanner` and
-- `SetMaxLength` keep positive, so it is a number here; `msglen` is a uint64. The pool of readers
-- is not modelled: it only decides whether a buffer larger than asked for is used again.
pub mod Split
pub mod Frames
use go_syslog.Base.{
  ℕ, zero, suc, ◌+◌, ◌-◌, ◌^◌, Option, none, some, [], ◌∷◌, ◌++◌, Bytes, codes, Bool, true, false,
  not, ◌&&◌, leb, ltb, ◌==◌, if◌then◌else◌, Except, ok, err,
}
use go_syslog.Base.Int.{to_int, ℤ, pos, negsuc}
use go_syslog.Reader.{Reader, read_byte, unread_byte, peek, discard}
use go_syslog.Strconv.{NumError, parse_uint}
use go_syslog.OctetCounting.Tokens.{illegal, eof, lf, ws, msglen, syslogmsg, Token}

abbrev pub max_uint : ℕ
max_uint = 2 ^ 64 - 1

abbrev pub max_int : ℕ
max_int = 2 ^ 63 - 1

abbrev pub default_max_size : ℕ
default_max_size = 8192

abbrev pub err_msg_invalid_length : Bytes
err_msg_invalid_length = codes "invalid message length"

abbrev pub err_msg_too_large : Bytes
err_msg_too_large = codes "message length (%d) exceeds maximum length (%d)"

abbrev pub err_msg_exceeds_int_limit : Bytes
err_msg_exceeds_int_limit = codes "message length exceeds system limit"

abbrev pub is_digit : ℕ → Bool
is_digit ch = leb 48 ch && leb ch 57

abbrev pub is_non_zero_digit : ℕ → Bool
is_non_zero_digit ch = leb 49 ch && leb ch 57

pub record Scanner : Type 0 where
  pub r : Reader
  pub msglen : ℕ
  pub ready : Bool
  pub maxlen : ℕ

abbrev max_length_of : ℤ → ℕ
max_length_of (pos zero) = default_max_size
max_length_of (pos (suc n)) = suc n
max_length_of (negsuc n) = default_max_size

-- `getReader`: a pooled buffer of some size is taken if it is large enough; else a new one is made,
-- of at least 16 bytes. The size is an `int`, which may be negative.
abbrev pub reader_size : Option ℕ → ℤ → ℕ
reader_size none (pos size) = if ltb size 16 then 16 else size
reader_size none (negsuc n) = 16
reader_size (some pooled) (pos size) =
    if ltb pooled size then (if ltb size 16 then 16 else size) else pooled
reader_size (some pooled) (negsuc n) = pooled

abbrev get_reader : Option ℕ → Bytes → ℤ → Reader
get_reader pooled source size = record {
  rest = source;
  last = none;
  size = reader_size pooled size;
}

-- `NewScanner`; the sum with 20 is an `int`, which is negative for a limit near `MaxInt`.
unfoldable pub new_scanner : Option ℕ → Bytes → ℤ → Scanner
new_scanner pooled source max_length =
    let n = max_length_of max_length in
    record { r = get_reader pooled source (to_int (n + 20)); msglen = 0; ready = false; maxlen = n }

-- `SetMaxLength`.
unfoldable pub set_max_length : ℤ → Scanner → Scanner
set_max_length (pos zero) s = s
set_max_length (pos (suc n)) s = record s { maxlen = suc n }
set_max_length (negsuc n) s = s

abbrev read_of : Option ℕ × Reader → Scanner → ℕ × Scanner
read_of (none, r') s = (0, record s { r = r' })
read_of (some b, r') s = (b, record s { r = r' })

-- `read`: the byte 0 stands for the end of the source.
abbrev pub read : Scanner → ℕ × Scanner
read s = read_of (read_byte s.r) s

abbrev pub unread : Scanner → Scanner
unread s = record s { r = unread_byte s.r }

-- The loop of `scanMsgLen`, over the bytes that the reader holds. It gives the digits, and the
-- reader: the byte that ends the loop is put back unless it is 0.
unfoldable pub digit_run : Reader → Bytes → Bytes → Bytes × Reader
digit_run r buf [] = (buf, record r { rest = [] })
digit_run r buf (b ∷ bs) =
    let r' : Reader = record r { rest = bs; last = some b } in
    if b == 0
    then (buf, r')
    else if not (is_digit b)
    then (buf, unread_byte r')
    else digit_run r' (buf ++ (b ∷ [])) bs

abbrev check_length : Bytes → Scanner → Except NumError ℕ → Token × Scanner
check_length buf s (err e) = (record { typ = illegal; lit = err_msg_invalid_length }, s)
check_length buf s (ok l) =
    if ltb s.maxlen l
    then (record { typ = illegal; lit = err_msg_too_large }, record s { msglen = l })
    else (record { typ = msglen; lit = buf }, record s { msglen = l })

unfoldable pub scan_msg_len : Scanner → Token × Scanner
scan_msg_len s =
    let (b, s1) = read s in
    let (buf, r') = digit_run s1.r (b ∷ []) s1.r.rest in
    check_length buf (record s1 { r = r' }) (parse_uint max_uint buf)

unfoldable pub scan_syslog_msg : Scanner → Token × Scanner
scan_syslog_msg s =
    if ltb max_int s.msglen
    then (
      record { typ = illegal; lit = err_msg_exceeds_int_limit },
      record s { ready = false; msglen = 0 },
    )
    else let (b, full, r') = peek s.msglen s.r in
      if full
      then (
        record { typ = syslogmsg; lit = b },
        record s { r = discard s.msglen r'; ready = false; msglen = 0 },
      )
      else (record { typ = eof; lit = b }, record s { r = r' })

-- The switch of `Scan` on the byte read, which is no digit from 1 to 9.
unfoldable pub scan_byte : ℕ → Scanner → Token × Scanner
scan_byte b s =
    if b == 0
    then (record { typ = eof; lit = [] }, record s { ready = false })
    else if b == 10
    then (record { typ = lf; lit = 10 ∷ [] }, record s { ready = true })
    else if b == 32
    then (record { typ = ws; lit = 32 ∷ [] }, record s { ready = true })
    else if b == 60 && (ltb 0 s.msglen && s.ready)
    then scan_syslog_msg (unread s)
    else (record { typ = illegal; lit = b ∷ [] }, s)

-- `Scan`.
unfoldable pub scan : Scanner → Token × Scanner
scan s =
    let (b, s1) = read s in
    if is_non_zero_digit b
    then scan_msg_len (record (unread s1) { ready = false })
    else scan_byte b s1
