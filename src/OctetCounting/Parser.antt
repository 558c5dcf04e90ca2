-- ===== src/OctetCounting/Parser.antt =====
-- octetcounting/parser.go: the loop over the tokens. What the listener is handed is the list of
-- the results, in order. Errors are values that carry the arguments of the messages.
pub mod Termination
pub mod Results
pub mod Stream
use go_syslog.Base.{
  ends_in, drop_last, ℕ, zero, suc, Option, none, some, List, [], ◌∷◌, ◌++◌, Bytes, Bool, true,
  false, ◌&&◌, length, leb, ltb, ◌==◌, if◌then◌else◌, equal,
}
use go_syslog.Base.Int.{ℤ}
use go_syslog.Syslog.{Machine, Result}
use go_syslog.OctetCounting.Tokens.{TokenType, illegal, eof, lf, ws, msglen, syslogmsg, Token}
use go_syslog.OctetCounting.Scanner.{
  Scanner, new_scanner, scan, max_int, err_msg_invalid_length, err_msg_too_large,
  err_msg_exceeds_int_limit,
}

pub data ParseError (E : Type 0) : Type 0 where
  invalid_length exceeds_int_limit : ParseError E
  too_large : ℕ → ℤ → ParseError E
  expecting : Token → TokenType → ParseError E
  expecting_octets : Token → ℕ → ParseError E
  inner : E → ParseError E

-- The fields of `parser` that `Parse` reads or writes.
pub record Parser (M E : Type 0) : Type 0 where
  pub max_message_length : ℤ
  pub s : Scanner
  pub internal : Machine M E
  pub last : Token
  pub stepback : Bool
  pub strip_trailing_nl : Bool

-- What one round of the loop hands to the listener, and whether another round follows.
pub record Round (M E : Type 0) : Type 0 where
  pub emitted : List (Result M (ParseError E))
  pub again : Bool
  pub after : Parser M E

-- One trailing newline, with a carriage return in front of it, is framing and not content.
unfoldable pub strip_newline : Bytes → Bytes
unfolding ends_in drop_last
strip_newline input =
    if ends_in 10 input
    then (let input' = drop_last input in if ends_in 13 input' then drop_last input' else input')
    else input

module _ {M E : Type 0} where
  abbrev wrap : Option M × Option E → Result M (ParseError E)
  wrap (m, none) = record { message = m; error = none }
  wrap (m, some e) = record { message = m; error = some (inner e) }

  -- `parse`.
  unfoldable pub parse : Parser M E → Bytes → Result M (ParseError E)
  unfolding strip_newline
  parse p input =
      wrap (p.internal.parse (if p.strip_trailing_nl then strip_newline input else input))

  -- `p.scan`, with `unscan` below.
  unfoldable pub next : Parser M E → Token × Parser M E
  next p =
      if p.stepback
      then (p.last, record p { stepback = false })
      else let (tok, s') = scan p.s in (tok, record p { s = s'; last = tok })

  abbrev pub unscan : Parser M E → Parser M E
  unscan p = record p { stepback = true }

  abbrev pub failure : ParseError E → Result M (ParseError E)
  failure e = record { message = none; error = some e }

  -- A result is emitted and the loop is left.
  abbrev pub stop : Parser M E → Result M (ParseError E) → Round M E
  stop p result = record { emitted = result ∷ []; again = false; after = p }

  -- The error of the message machine is kept, if it reports one.
  abbrev error_or : ParseError E → Result M (ParseError E) → Result M (ParseError E)
  error_or e result = elim result.error [
    | none ↦ record { message = result.message; error = some e }
    | some x ↦ result
  ]

  -- The error for an ILLEGAL token where a MSGLEN is due.
  unfoldable pub illegal_error : Parser M E → Token → ParseError E
  illegal_error p tok =
      if equal tok.lit err_msg_invalid_length
      then invalid_length
      else if equal tok.lit err_msg_too_large
      then too_large p.s.msglen p.max_message_length
      else if equal tok.lit err_msg_exceeds_int_limit
      then exceeds_int_limit
      else expecting tok msglen

  -- A round behind the message: another frame follows unless the input ends here.
  abbrev separator : TokenType → Parser M E → List (Result M (ParseError E)) → Round M E
  separator eof p out = record { emitted = out; again = false; after = p }
  separator lf p out = record { emitted = out; again = true; after = p }
  separator other p out = record { emitted = out; again = true; after = unscan p }

  abbrev deliver : Parser M E → Result M (ParseError E) → Round M E
  deliver p result =
      if p.internal.has_best_effort
      then (let (tok, p') = next p in separator tok.typ p' (result ∷ []))
      else elim result.error [
        | none ↦ let (tok, p') = next p in separator tok.typ p' (result ∷ [])
        | some e ↦ stop p (failure e)
      ]

  -- Third token; `int(p.s.msglen)` is negative above the range of `int`.
  abbrev third : TokenType → Token → Parser M E → Round M E
  third syslogmsg tok p = deliver p (parse p tok.lit)
  third other tok p =
      let e : ParseError E = expecting_octets tok p.s.msglen in
      if (ltb (length tok.lit) p.s.msglen && leb p.s.msglen max_int) && p.internal.has_best_effort
      then stop p (error_or e (parse p tok.lit))
      else stop p (failure e)

  abbrev second : TokenType → Token → Parser M E → Round M E
  second ws tok p = let (tok', p') = next p in third tok'.typ tok' p'
  second other tok p = stop p (failure (expecting tok ws))

  abbrev first : TokenType → Token → Parser M E → Round M E
  first msglen tok p = let (tok', p') = next p in second tok'.typ tok' p'
  first illegal tok p = stop p (failure (illegal_error p tok))
  first other tok p = stop p (failure (expecting tok msglen))

  -- The body of the loop of `run`.
  unfoldable pub round : Parser M E → Round M E
  round p = let (tok, p') = next p in first tok.typ tok p'

  abbrev pub with_results :
      List (Result M (ParseError E))
      → Option (List (Result M (ParseError E)) × Parser M E)
      → Option (List (Result M (ParseError E)) × Parser M E)
  with_results out none = none
  with_results out (some (later, p)) = some (out ++ later, p)

  -- `run` with a bound on the rounds; `none` means that the bound was too small.
  unfoldable pub run : ℕ → Parser M E → Option (List (Result M (ParseError E)) × Parser M E)
  run zero p = none
  run (suc fuel) p =
      let step : Round M E = round p in
      elim step.again [
        | true ↦ with_results step.emitted (run fuel step.after)
        | false ↦ some (step.emitted, step.after)
      ]

  -- `Parse`: a round reads one byte at least, so the length of the input bounds the rounds.
  unfoldable pub parse_stream :
      Option ℕ → Parser M E → Bytes → Option (List (Result M (ParseError E)) × Parser M E)
  parse_stream pooled p source =
      run (suc (length source)) (record p { s = new_scanner pooled source p.max_message_length })
