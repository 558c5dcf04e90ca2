-- ===== src/OctetCounting/Scanner/Split.antt =====
-- Every token of octetcounting/scanner.go against the bytes that it takes from the reader.
use go_syslog.Base.{
  ℕ, ◌≡◌, refl, sym, ap, ◌∙◌, ◌⊎◌, inl, inr, Option, none, some, [], ◌∷◌, ◌++◌, Bytes, Bool, false,
  append_assoc, length, take-append-drop, arith, Bool-cases, ltb, ◌==◌, ◌&&◌, ==_iff, Except, ok,
  err,
}
use go_syslog.Reader.{Reader, peek, discard}
use go_syslog.Strconv.{NumError, parse_uint}
use go_syslog.OctetCounting.Tokens.{TokenType, illegal, eof, lf, ws, msglen, syslogmsg, Token}
use go_syslog.OctetCounting.Scanner.{
  Scanner, max_int, max_uint, is_non_zero_digit, check_length, digit_run, scan_msg_len,
  scan_syslog_msg, scan_byte, scan,
}

-- How a token of a type, with its literal, splits the input into what is read and what is left.
abbrev pub Splits : TokenType → Bytes → Bytes → Bytes → Type 0
Splits msglen lit before after = (before ≡ lit ++ after) ⊎ (before ≡ lit ++ (0 ∷ after))
Splits syslogmsg lit before after = before ≡ lit ++ after
Splits lf lit before after = before ≡ 10 ∷ after
Splits ws lit before after = before ≡ 32 ∷ after
Splits illegal lit before after = (taken : Bytes) × (before ≡ taken ++ after)
Splits eof lit before after = (before ≡ after) ⊎ (before ≡ 0 ∷ after)

digit_run-splits :
    (bs : Bytes) (r : Reader) (buf : Bytes)
    → (buf ++ bs ≡ (digit_run r buf bs).0 ++ (digit_run r buf bs).1.rest)
      ⊎ (buf ++ bs ≡ (digit_run r buf bs).0 ++ (0 ∷ (digit_run r buf bs).1.rest))
unfolding digit_run
digit_run-splits [] r buf = inl refl
digit_run-splits (b ∷ bs) r buf = ground (
  arith,
  digit_run-splits bs (record r { rest = bs; last = some b }) (buf ++ (b ∷ [])),
  append_assoc buf (b ∷ []) bs,
)

abbrev SplitsFrom : Bytes → Token × Scanner → Type 0
SplitsFrom before (tok, s) = Splits tok.typ tok.lit before s.r.rest

scan_syslog_msg-splits : (s : Scanner) → SplitsFrom s.r.rest (scan_syslog_msg s)
unfolding scan_syslog_msg peek discard
scan_syslog_msg-splits s = elim (Bool-cases (ltb max_int s.msglen)) [
  | inl above ↦ rw above ([], refl)
  | inr fits ↦ elim (Bool-cases (ltb s.r.size s.msglen)) [
    | inl large ↦ rw (fits, large) (inl refl)
    | inr _ ↦ elim (Bool-cases (ltb (length s.r.rest) s.msglen)) [
      | inl short ↦ ground arith
      | inr enough ↦ ground (arith, take-append-drop s.msglen s.r.rest)
    ]
  ]
]

-- A scanner by its fields.
abbrev at : Bytes → Option ℕ → ℕ → ℕ → Bool → ℕ → Scanner
at rest last size len ready maxlen = record {
  r = record { rest = rest; last = last; size = size };
  msglen = len;
  ready = ready;
  maxlen = maxlen;
}

-- The literal and the split of a run of digits, whatever the length says.
check_length-splits :
    (before buf : Bytes) (s : Scanner) (e : Except NumError ℕ)
    → (before ≡ buf ++ s.r.rest) ⊎ (before ≡ buf ++ (0 ∷ s.r.rest))
    → SplitsFrom before (check_length buf s e)
check_length-splits before buf s (err e) (inl h) = (buf, h)
check_length-splits before buf s (err e) (inr h) =
    (buf ++ (0 ∷ []), h ∙ sym (append_assoc buf (0 ∷ []) s.r.rest))
check_length-splits before buf s (ok l) h = elim (Bool-cases (ltb s.maxlen l)) [
  | inl above ↦ rw above (elim h [
    | inl h ↦ (buf, h)
    | inr h ↦ (buf ++ (0 ∷ []), h ∙ sym (append_assoc buf (0 ∷ []) s.r.rest))
  ])
  | inr fits ↦ rw fits h
]

scan_msg_len-splits :
    (b : ℕ) (bs : Bytes) (last : Option ℕ) (size len : ℕ) (ready : Bool) (max : ℕ)
    → SplitsFrom (b ∷ bs) (scan_msg_len (at (b ∷ bs) last size len ready max))
unfolding scan_msg_len
scan_msg_len-splits b bs last size len ready max =
    let r : Reader = record { rest = bs; last = some b; size = size } in
    let (buf, r') = digit_run r (b ∷ []) bs in
    check_length-splits (b ∷ bs) buf (record { r = r'; msglen = len; ready = ready; maxlen = max })
      (parse_uint max_uint buf) (digit_run-splits bs r (b ∷ []))

scan_byte-splits :
    (b : ℕ) (bs : Bytes) (size len : ℕ) (ready : Bool) (max : ℕ)
    → SplitsFrom (b ∷ bs) (scan_byte b (at bs (some b) size len ready max))
unfolding scan_byte
scan_byte-splits b bs size len ready max = elim (Bool-cases (b == 0)) [
  | inl e ↦ rw e (inr (ap (λ (x : ℕ). x ∷ bs) ((==_iff b 0).0 e)))
  | inr n0 ↦ elim (Bool-cases (b == 10)) [
    | inl e ↦ rw (n0, e) (ap (λ (x : ℕ). x ∷ bs) ((==_iff b 10).0 e))
    | inr n1 ↦ elim (Bool-cases (b == 32)) [
      | inl e ↦ rw (n0, n1, e) (ap (λ (x : ℕ). x ∷ bs) ((==_iff b 32).0 e))
      | inr n2 ↦ elim (Bool-cases (b == 60 && (ltb 0 len && ready))) [
        | inl e ↦ rw (n0, n1, n2, e) (scan_syslog_msg-splits (at (b ∷ bs) none size len ready max))
        | inr e ↦ rw (n0, n1, n2, e) (b ∷ [], refl)
      ]
    ]
  ]
]

pub scan-Splits : (s : Scanner) → Splits (scan s).0.typ (scan s).0.lit s.r.rest (scan s).1.r.rest
unfolding scan scan_byte
scan-Splits s = cases s.r.rest s.r.last s.r.size s.msglen s.ready s.maxlen
  where
    cases :
        (bs : Bytes) (last : Option ℕ) (size len : ℕ) (ready : Bool) (max : ℕ)
        → SplitsFrom bs (scan (at bs last size len ready max))
    cases [] last size len ready max = inl refl
    cases (b ∷ bs) last size len ready max = elim (Bool-cases (is_non_zero_digit b)) [
      | inl d ↦ rw d (scan_msg_len-splits b bs none size len false max)
      | inr d ↦ rw d (scan_byte-splits b bs size len ready max)
    ]
