-- ===== src/OctetCounting/Parser/Termination.antt =====
-- The loop of octetcounting/parser.go ends: a round that is followed by another has read a byte.
use go_syslog.Base.{
  ℕ, zero, suc, ◌≤◌, ◌<◌, ◌≡◌, refl, ap, inl, inr, Option, some, List, [], ◌∷◌, ◌++◌, Bytes, true,
  false, length, length-append, arith, Bool-cases,
}
use go_syslog.Syslog.{Result}
use go_syslog.OctetCounting.Tokens.{TokenType, illegal, eof, lf, ws, msglen, syslogmsg, Token}
use go_syslog.OctetCounting.Scanner.{Scanner, scan, new_scanner}
use go_syslog.OctetCounting.Scanner.Split.{Splits, scan-Splits}
use go_syslog.OctetCounting.Parser.{
  Parser, ParseError, next, parse, deliver, separator, first, second, third, round, run,
  with_results, parse_stream,
}

abbrev pub left : Scanner → ℕ
left s = length s.r.rest

Splits-le :
    (t : TokenType) (lit before after : Bytes)
    → Splits t lit before after
    → length after ≤ length before
Splits-le illegal lit before after (taken, e) =
    omega (arith, ap length e, length-append taken after)
Splits-le eof lit before after (inl e) = omega (arith, ap length e)
Splits-le eof lit before after (inr e) = omega (arith, ap length e)
Splits-le lf lit before after e = omega (arith, ap length e)
Splits-le ws lit before after e = omega (arith, ap length e)
Splits-le msglen lit before after (inl e) = omega (arith, ap length e, length-append lit after)
Splits-le msglen lit before after (inr e) =
    omega (arith, ap length e, length-append lit (0 ∷ after))
Splits-le syslogmsg lit before after e = omega (arith, ap length e, length-append lit after)

Splits-ws-lt :
    (t : TokenType) (lit before after : Bytes)
    → t ≡ ws
    → Splits t lit before after
    → length after < length before
Splits-ws-lt ws lit before after _ e = omega (arith, ap length e)
Splits-ws-lt _ lit before after h e = cc

pub scan-le : (s : Scanner) → left (scan s).1 ≤ left s
scan-le s = Splits-le (scan s).0.typ (scan s).0.lit s.r.rest (scan s).1.r.rest (scan-Splits s)

pub scan_ws-lt : (s : Scanner) → (scan s).0.typ ≡ ws → left (scan s).1 < left s
scan_ws-lt s h =
    Splits-ws-lt (scan s).0.typ (scan s).0.lit s.r.rest (scan s).1.r.rest h (scan-Splits s)

module _ {M E : Type 0} where
  next-le : (p : Parser M E) → left (next p).1.s ≤ left p.s
  unfolding next
  next-le p = ground (arith, scan-le p.s)

  next_fresh : (p : Parser M E) → (next p).1.stepback ≡ false
  unfolding next
  next_fresh p = ground arith

  next_ws-lt :
      (p : Parser M E) → p.stepback ≡ false → (next p).0.typ ≡ ws → left (next p).1.s < left p.s
  unfolding next
  next_ws-lt p f h = ground (arith, scan_ws-lt p.s)

  separator-le :
      (t : TokenType) (p : Parser M E) (out : List (Result M (ParseError E)))
      → left (separator t p out).after.s ≤ left p.s
  separator-le eof p out = omega arith
  separator-le lf p out = omega arith
  separator-le _ p out = omega arith

  deliver-le :
      (p : Parser M E) (result : Result M (ParseError E))
      → left (deliver p result).after.s ≤ left p.s
  deliver-le p result =
      ground (arith, next-le p, separator-le (next p).0.typ (next p).1 (result ∷ []))

  third-le :
      (t : TokenType) (tok : Token) (p : Parser M E) → left (third t tok p).after.s ≤ left p.s
  third-le syslogmsg tok p = deliver-le p (parse p tok.lit)
  third-le _ tok p = ground arith

  -- The second token of a round that goes on is a space.
  second-lt :
      (t : TokenType) (tok : Token) (p : Parser M E) (n : ℕ)
      → (t ≡ ws → left p.s < n)
      → (second t tok p).again ≡ true
      → left (second t tok p).after.s < n
  second-lt ws tok p n h a =
      omega (arith, h refl, next-le p, third-le (next p).0.typ (next p).0 (next p).1)
  second-lt illegal tok p n h a = cc
  second-lt _ tok p n h a = cc

  first-lt :
      (t : TokenType) (tok : Token) (p : Parser M E)
      → p.stepback ≡ false
      → (first t tok p).again ≡ true
      → left (first t tok p).after.s < left p.s
  first-lt msglen tok p f a =
      second-lt (next p).0.typ (next p).0 (next p).1 (left p.s) (next_ws-lt p f) a
  first-lt illegal tok p f a = cc
  first-lt _ tok p f a = cc

  -- A round that another follows leaves fewer bytes to read.
  pub round-lt : (p : Parser M E) → (round p).again ≡ true → left (round p).after.s < left p.s
  unfolding round
  round-lt p a =
      omega (arith, next-le p, first-lt (next p).0.typ (next p).0 (next p).1 (next_fresh p) a)

  with_results-some :
      (out : List (Result M (ParseError E)))
      (o : Option (List (Result M (ParseError E)) × Parser M E))
      → (r : List (Result M (ParseError E)) × Parser M E) × (o ≡ some r)
      → (r : List (Result M (ParseError E)) × Parser M E) × (with_results out o ≡ some r)
  with_results-some out o ((later, p), e) = ((out ++ later, p), rw e)

  -- More rounds than bytes are enough.
  pub run_total :
      (fuel : ℕ) (p : Parser M E)
      → left p.s < fuel
      → (r : List (Result M (ParseError E)) × Parser M E) × (run fuel p ≡ some r)
  unfolding run
  run_total zero p h = absurd (omega arith)
  run_total (suc fuel) p h = elim (Bool-cases (round p).again) [
    | inl more ↦
        rw (more, run)
          (with_results-some (round p).emitted (run fuel (round p).after)
            (run_total fuel (round p).after (omega (arith, round-lt p more))))
    | inr done ↦ rw (done, run) (((round p).emitted, (round p).after), refl)
  ]

  -- `Parse` returns on every input, whatever the message machine and the parser's state are.
  pub parse_stream_total :
      (pooled : Option ℕ) (p : Parser M E) (source : Bytes)
      → (r : List (Result M (ParseError E)) × Parser M E) × (parse_stream pooled p source ≡ some r)
  unfolding parse_stream new_scanner
  parse_stream_total pooled p source =
      run_total (suc (length source))
        (record p { s = new_scanner pooled source p.max_message_length }) (omega arith)
