-- ===== src/Rfc5424/Automaton/Columns.antt =====
-- Where the automaton of rfc5424/machine.go reports an error: inside the input or at its end.
pub mod Body
pub mod Run
use go_syslog.Base.{
  ℕ, zero, suc, ◌+◌, ◌≤◌, ◌≡◌, refl, Option, none, some, List, [], ◌∷◌, ◌++◌, Bytes, Bool, true,
  false, length, length-drop, arith, ◌==◌, if◌then◌else◌,
}
use go_syslog.Rfc5424.Automaton.Steps.{
  Cursor, cursor, Step, go, stop, accept, panic, ErrorKind, ◌>>=◌, byte, byte_at, is_digit,
}
use go_syslog.Rfc5424.Automaton.Header.{
  version, version_at, version_end, message_body, chain, field_at, hostname, appname, proc_id,
  msg_id, pri, prival, Prival, next_prival,
}
use go_syslog.Rfc5424.Automaton.Timestamp.{
  one, pair, pair_at, digits, fraction_at, offset_at, full_time, set_timestamp, timestamp,
  timestamp_at,
}
use go_syslog.Rfc5424.Automaton.FreeForm.{msg, msg_at, msg_compliant, utf8, utf8_end, next_utf8}
use go_syslog.Rfc5424.Automaton.StructuredData.{
  State, Current, Move, elements, end_of, on_move, after_nil, structured_data_at, structured_data,
}
use go_syslog.Rfc5424.Builder.Store.{Elements}
use go_syslog.Rfc5424.Grammar.{ValueState, graph}
use go_syslog.Common.Utf8.{within}
use go_syslog.Rfc5424.Message.{Draft}

module _ {Time : Type 0} (total : ℕ) where
  -- A part goes on at a byte of the input, or notes an error at one, or at the end.
  abbrev pub Within : Step Time → Type 0
  Within (go c) = c.at + length c.rest ≡ total
  Within (stop k p out) = p ≤ total
  Within other = Unit

  pub Within-bind :
      (s : Step Time) (f : Cursor Time → Step Time)
      → Within s
      → ((c : Cursor Time) → c.at + length c.rest ≡ total → Within (f c))
      → Within (s >>= f)
  Within-bind (go c) f h k = k c h
  Within-bind (stop e p out) f h k = h
  Within-bind (accept out) f h k = tt
  Within-bind panic f h k = tt

  pub Within-if : (b : Bool) (x y : Step Time) → Within x → Within y → Within (if b then x else y)
  Within-if true x y h k = h
  Within-if false x y h k = k

  byte_at-Within :
      (ok : ℕ → Bool) (k : ErrorKind) (p : ℕ) (cs : Bytes) (out : Draft Time Elements)
      → p + length cs ≡ total
      → Within (byte_at ok k p cs out)
  byte_at-Within ok k p [] out h = omega arith
  byte_at-Within ok k p (c ∷ cs) out h = Within-if (ok c) _ _ (omega arith) (omega arith)

  -- A part that stays within.
  abbrev pub Stays : (Cursor Time → Step Time) → Type 0
  Stays f = (c : Cursor Time) → c.at + length c.rest ≡ total → Within (f c)

  pub byte-Stays : (ok : ℕ → Bool) (k : ErrorKind) → Stays (byte ok k)
  unfolding byte
  byte-Stays ok k c h = byte_at-Within ok k c.at c.rest c.output h

  next_prival-Within :
      (next : Prival → Step Time) (b : Bool) (p : ℕ) (cs : Bytes) (out : Draft Time Elements)
      (o : Option Prival)
      → suc p + length cs ≡ total
      → ((st : Prival) → Within (next st))
      → Within (next_prival next b p cs out o)
  next_prival-Within next true p cs out o h k = h
  next_prival-Within next false p cs out none h k = omega arith
  next_prival-Within next false p cs out (some st) h k = k st

  prival-Within :
      (st : Prival) (text : Bytes) (p : ℕ) (cs : Bytes) (out : Draft Time Elements)
      → p + length cs ≡ total
      → Within (prival st text p cs out)
  unfolding prival
  prival-Within st text p [] out h = omega arith
  prival-Within st text p (c ∷ cs) out h =
      next_prival-Within _ _ p cs _ _ (omega arith)
        (λ st'. prival-Within st' (text ++ (c ∷ [])) (suc p) cs _ (omega arith))

  pub pri-Stays : Stays pri
  unfolding pri
  pri-Stays c h =
      Within-bind _ _ (byte-Stays _ _ c h) (λ d k. prival-Within _ [] d.at d.rest d.output k)

  version_end-Within :
      (n : ℕ) (text : Bytes) (p : ℕ) (out : Draft Time Elements)
      → p ≤ total
      → Within (version_end n text p out)
  version_end-Within zero text p out h = h
  version_end-Within (suc zero) text p out h = h
  version_end-Within (suc (suc n)) text p out h = h

  version-Within :
      (n : ℕ) (text : Bytes) (p : ℕ) (cs : Bytes) (out : Draft Time Elements)
      → p + length cs ≡ total
      → Within (version n text p cs out)
  unfolding version
  version-Within n text p [] out h = version_end-Within n text p out (omega arith)
  version-Within zero text p (c ∷ cs) out h = Within-if (c == 32) _ _ (omega arith) (omega arith)
  version-Within (suc n) text p (c ∷ cs) out h =
      let ih = version-Within n (text ++ (c ∷ [])) (suc p) cs _ (omega arith) in
      Within-if (c == 32) _ _ (omega arith) (Within-if (is_digit c) _ _ ih (omega arith))

  version_at-Within :
      (p : ℕ) (cs : Bytes) (out : Draft Time Elements)
      → p + length cs ≡ total
      → Within (version_at p cs out)
  version_at-Within p [] out h = omega arith
  version_at-Within p (c ∷ cs) out h =
      Within-if (within 49 57 c) _ _ (version-Within 2 _ (suc p) cs out (omega arith)) (omega arith)

  pub message_body-Stays : Stays message_body
  unfolding message_body
  message_body-Stays c h = version_at-Within c.at c.rest c.output h

  chain-Within :
      (k : ErrorKind) (set : Bytes → Draft Time Elements → Draft Time Elements) (n : ℕ)
      (text : Bytes) (p : ℕ) (cs : Bytes) (out : Draft Time Elements)
      → p + length cs ≡ total
      → Within (chain k set n text p cs out)
  unfolding chain
  chain-Within k set n text p [] out h = omega arith
  chain-Within k set zero text p (c ∷ cs) out h =
      Within-if (c == 32) _ _ (omega arith) (omega arith)
  chain-Within k set (suc n) text p (c ∷ cs) out h =
      let ih = chain-Within k set n (text ++ (c ∷ [])) (suc p) cs out (omega arith) in
      Within-if (c == 32) _ _ (omega arith) (Within-if (graph c) _ _ ih (omega arith))

  pub field_at-Within :
      (k : ErrorKind) (set : Bytes → Draft Time Elements → Draft Time Elements) (n p : ℕ)
      (cs : Bytes) (out : Draft Time Elements)
      → p + length cs ≡ total
      → Within (field_at k set n p cs out)
  field_at-Within k set n p [] out h = omega arith
  field_at-Within k set n p (c ∷ cs) out h =
      Within-if (graph c) _ _ (chain-Within k set n _ (suc p) cs out (omega arith)) (omega arith)
