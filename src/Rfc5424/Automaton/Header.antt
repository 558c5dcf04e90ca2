-- ===== src/Rfc5424/Automaton/Header.antt =====
-- The automaton of rfc5424/machine.go on the PRI part, the version and the fields.
use go_syslog.Base.{
  ℕ, zero, suc, ◌%◌, Option, none, some, [], ◌∷◌, ◌++◌, Bytes, Bool, true, false, ◌==◌,
  if◌then◌else◌,
}
use go_syslog.Common.Decimal.{unsafe_utf8_decimal_code_points_to_int}
use go_syslog.Base.Int.{bits}
use go_syslog.Common.Utf8.{within}
use go_syslog.Rfc5424.Automaton.Steps.{
  ErrorKind, err_prival, err_pri, err_version, err_hostname, err_appname, err_proc_id, err_msg_id,
  err_parse, Cursor, cursor, Step, go, stop, ◌>>=◌, byte, is_digit,
}
use go_syslog.Rfc5424.Builder.Store.{Elements}
use go_syslog.Rfc5424.Grammar.{graph}
use go_syslog.Rfc5424.Message.{Draft}

-- `int` to `uint8` and `uint16`, by its low bits.
abbrev pub value_of : ℕ → Bytes → ℕ
value_of max text = bits (unsafe_utf8_decimal_code_points_to_int text) % max

-- The states 2, 593, 594, 595 and 3.
pub data Prival : Type 0 where
  empty one two nineteen close : Prival

abbrev pub prival_step : Prival → ℕ → Option Prival
prival_step empty c =
    if c == 48
    then some close
    else if c == 49
    then some one
    else if within 50 57 c
    then some two
    else none
prival_step one c = if within 48 56 c then some two else if c == 57 then some nineteen else none
prival_step two c = if is_digit c then some close else none
prival_step nineteen c = if within 48 49 c then some close else none
prival_step close c = none

abbrev pub closes : Prival → ℕ → Bool
closes empty c = false
closes other c = c == 62

abbrev pub version_error : ℕ → ErrorKind
version_error (suc (suc n)) = err_parse
version_error n = err_version

module _ {Time : Type 0} where
  abbrev pub set_prival : Bytes → Draft Time Elements → Draft Time Elements
  set_prival text out = record out { priority = value_of 256 text; priority_set = true }

  -- The action of a state, whatever the byte is that it is left with.
  abbrev pub leave_prival : Prival → Bytes → Draft Time Elements → Draft Time Elements
  leave_prival empty text out = out
  leave_prival other text out = set_prival text out

  abbrev pub next_prival :
      (Prival → Step Time) → Bool → ℕ → Bytes → Draft Time Elements → Option Prival → Step Time
  next_prival next true p cs out o = go (cursor (suc p) cs out)
  next_prival next false p cs out none = stop err_prival p out
  next_prival next false p cs out (some st) = next st

  unfoldable pub prival : Prival → Bytes → ℕ → Bytes → Draft Time Elements → Step Time
  unfolding unsafe_utf8_decimal_code_points_to_int
  prival st text p [] out = stop err_prival p out
  prival st text p (c ∷ cs) out =
      next_prival (λ st'. prival st' (text ++ (c ∷ [])) (suc p) cs (leave_prival st text out))
        (closes st c) p cs (leave_prival st text out) (prival_step st c)

  -- `pri`.
  unfoldable pub pri : Cursor Time → Step Time
  unfolding prival byte
  pri c = byte (λ b. b == 60) err_pri c >>= (λ d. prival empty [] d.at d.rest d.output)

  abbrev pub set_version : Bytes → Draft Time Elements → Draft Time Elements
  set_version text out = record out { version = value_of 65536 text }

  abbrev pub version_end : ℕ → Bytes → ℕ → Draft Time Elements → Step Time
  version_end (suc (suc n)) text p out = stop err_parse p (set_version text out)
  version_end n text p out = stop err_version p out

  -- The states 5, 591 and 592, by the digits that may follow. What a state does is done with any
  -- byte that it is left with; at the end of the input only the first state does it.
  unfoldable pub version : ℕ → Bytes → ℕ → Bytes → Draft Time Elements → Step Time
  unfolding unsafe_utf8_decimal_code_points_to_int
  version n text p [] out = version_end n text p out
  version zero text p (c ∷ cs) out =
      if c == 32
      then go (cursor (suc p) cs (set_version text out))
      else stop err_version p (set_version text out)
  version (suc n) text p (c ∷ cs) out =
      let later = version n (text ++ (c ∷ [])) (suc p) cs (set_version text out) in
      if c == 32
      then go (cursor (suc p) cs (set_version text out))
      else if is_digit c
      then later
      else stop (version_error (suc n)) p (set_version text out)

  abbrev pub version_at : ℕ → Bytes → Draft Time Elements → Step Time
  version_at p [] out = stop err_version p out
  version_at p (c ∷ cs) out =
      if within 49 57 c then version 2 (c ∷ []) (suc p) cs out else stop err_version p out

  -- `message_body`: the version.
  unfoldable pub message_body : Cursor Time → Step Time
  unfolding version
  message_body c = version_at c.at c.rest c.output

  -- A chain of states that count the bytes of a field, which a space ends.
  unfoldable pub chain :
      ErrorKind
      → (Bytes → Draft Time Elements → Draft Time Elements)
      → ℕ
      → Bytes
      → ℕ
      → Bytes
      → Draft Time Elements
      → Step Time
  chain k set n text p [] out = stop k p out
  chain k set zero text p (c ∷ cs) out =
      if c == 32 then go (cursor (suc p) cs (set text out)) else stop k p out
  chain k set (suc n) text p (c ∷ cs) out =
      let later = chain k set n (text ++ (c ∷ [])) (suc p) cs out in
      if c == 32
      then go (cursor (suc p) cs (set text out))
      else if graph c
      then later
      else stop k p out

  abbrev pub field_at :
      ErrorKind
      → (Bytes → Draft Time Elements → Draft Time Elements)
      → ℕ
      → ℕ
      → Bytes
      → Draft Time Elements
      → Step Time
  field_at k set n p [] out = stop k p out
  field_at k set n p (c ∷ cs) out =
      if graph c then chain k set n (c ∷ []) (suc p) cs out else stop k p out

  -- `hostname`, `appname`, `procid` and `msgid`, each with the space behind it.
  unfoldable pub hostname : Cursor Time → Step Time
  unfolding chain
  hostname c =
      field_at err_hostname (λ text out. record out { hostname = text }) 254 c.at c.rest c.output

  unfoldable pub appname : Cursor Time → Step Time
  unfolding chain
  appname c =
      field_at err_appname (λ text out. record out { appname = text }) 47 c.at c.rest c.output

  unfoldable pub proc_id : Cursor Time → Step Time
  unfolding chain
  proc_id c =
      field_at err_proc_id (λ text out. record out { proc_id = text }) 127 c.at c.rest c.output

  unfoldable pub msg_id : Cursor Time → Step Time
  unfolding chain
  msg_id c = field_at err_msg_id (λ text out. record out { msg_id = text }) 31 c.at c.rest c.output
