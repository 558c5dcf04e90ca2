-- ===== src/OctetCounting/Parser/Results.antt =====
-- What octetcounting/parser.go is to hand to its listener for a stream of frames of RFC 6587.
use go_syslog.Base.{
  ℕ, ◌≤◌, ◌==◌, Option, none, some, List, [], ◌∷◌, ◌++◌, Bytes, Bool, true, false, length,
  if◌then◌else◌,
}
use go_syslog.Strconv.Decimal.{decimal}
use go_syslog.Syslog.{Machine, Result}
use go_syslog.OctetCounting.Tokens.{eof, msglen}
use go_syslog.OctetCounting.Parser.{ParseError, expecting, inner}

-- A message, and whether a line feed stands behind its frame.
abbrev pub Frame : Type 0
Frame = Bytes × Bool

-- MSGLEN SP SYSLOG-MSG, as RFC 6587 has it.
unfoldable pub encode : List Frame → Bytes
encode [] = []
encode ((m, nl) ∷ fs) =
    decimal (length m) ++ (32 ∷ (m ++ (if nl then 10 ∷ encode fs else encode fs)))

-- A message that starts with `<` and has at most `max` bytes.
pub data IsFramable (max : ℕ) : Bytes → Type 0 where
  framable : {m : Bytes} → length (60 ∷ m) ≤ max → IsFramable max (60 ∷ m)

-- What the listener is handed for an answer of the message machine, and for an error alone.
abbrev pub handed : {M E : Type 0} → Option M × Option E → Result M (ParseError E)
handed (m, none) = record { message = m; error = none }
handed (m, some e) = record { message = m; error = some (inner e) }

abbrev pub error_alone : {M E : Type 0} → ParseError E → Result M (ParseError E)
error_alone e = record { message = none; error = some e }

-- A text without a line feed at its end, nor a carriage return in front of that.
abbrev pub chomped : Bytes → Bytes
chomped [] = []
chomped (c ∷ []) = if c == 10 then [] else c ∷ []
chomped (c ∷ d ∷ []) = if d == 10 then (if c == 13 then [] else c ∷ []) else c ∷ d ∷ []
chomped (c ∷ d ∷ e ∷ cs) = c ∷ chomped (d ∷ e ∷ cs)

module _ {M E : Type 0} (machine : Machine M E) (strip : Bool) where
  -- What the message machine makes of a message without its trailing newline.
  abbrev pub outcome : Bytes → Result M (ParseError E)
  outcome m = handed (machine.parse (if strip then chomped m else m))

  abbrev no_frame : Result M (ParseError E)
  no_frame = error_alone (expecting (record { typ = eof; lit = [] }) msglen)

  -- A line feed is taken to announce another frame.
  abbrev pub announced :
      Bool → List Frame → List (Result M (ParseError E)) → List (Result M (ParseError E))
  announced true [] later = no_frame ∷ []
  announced true (f ∷ fs) later = later
  announced false fs later = later

  abbrev pub after :
      Result M (ParseError E) → List (Result M (ParseError E)) → List (Result M (ParseError E))
  after r later =
      if machine.has_best_effort
      then r ∷ later
      else elim r.error [ none ↦ r ∷ later | some e ↦ error_alone e ∷ [] ]

  -- What the listener is handed for a stream of frames: in best effort mode the outcome of every
  -- message; in strict mode those up to the first message that is refused, whose error is the last.
  unfoldable pub results : List Frame → List (Result M (ParseError E))
  results [] = []
  results ((m, nl) ∷ fs) = after (outcome m) (announced nl fs (results fs))
