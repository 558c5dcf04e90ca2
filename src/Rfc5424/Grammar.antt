-- ===== src/Rfc5424/Grammar.antt =====
-- The grammars that the automaton of rfc5424/builder.go recognises, one for each entry point: its
-- chains of states that count the bytes of a field, its states for a timestamp, and those for a
-- parameter's value.
use go_syslog.Base.{
  ℕ, zero, suc, Option, none, some, List, [], ◌∷◌, Bytes, Bool, true, false, ◌&&◌, ◌||◌, ltb, ◌==◌,
  if◌then◌else◌,
}
use go_syslog.Common.Utf8.{within}

-- `graph`, and a character of `sdname`.
abbrev pub graph : ℕ → Bool
graph c = within 33 126 c

abbrev pub sd_name_char : ℕ → Bool
sd_name_char c = c == 33 || (within 35 60 c || (within 62 92 c || within 94 126 c))

-- A chain of final states: each takes one more byte, and the last takes none.
unfoldable pub run_field : (ℕ → Bool) → ℕ → Bytes → Bool
run_field ok n [] = true
run_field ok zero (c ∷ cs) = false
run_field ok (suc n) (c ∷ cs) = ok c && run_field ok n cs

-- The first state of a chain is not final.
unfoldable pub accepts : (ℕ → Bool) → ℕ → Bytes → Bool
unfolding run_field
accepts ok n [] = false
accepts ok n (c ∷ cs) = run_field ok n (c ∷ cs)

-- The entry points of the fields.
abbrev pub hostname_field : Bytes → Bool
hostname_field v = accepts graph 255 v

abbrev pub appname_field : Bytes → Bool
appname_field v = accepts graph 48 v

abbrev pub proc_id_field : Bytes → Bool
proc_id_field v = accepts graph 128 v

abbrev pub msg_id_field : Bytes → Bool
msg_id_field v = accepts graph 32 v

abbrev pub sd_id_field : Bytes → Bool
sd_id_field v = accepts sd_name_char 32 v

abbrev pub sd_param_name_field : Bytes → Bool
sd_param_name_field v = accepts sd_name_char 32 v

-- The states for a timestamp: what is left behind each part of it.
infixl 5 ◌>>=◌
abbrev ◌>>=◌ : Option Bytes → (Bytes → Option Bytes) → Option Bytes
none >>= f = none
some rest >>= f = f rest

abbrev digit : ℕ → Bool
digit c = within 48 57 c

abbrev byte : (ℕ → Bool) → Bytes → Option Bytes
byte ok [] = none
byte ok (c ∷ cs) = if ok c then some cs else none

abbrev pair : (ℕ → ℕ → Bool) → Bytes → Option Bytes
pair ok [] = none
pair ok (c ∷ []) = none
pair ok (c ∷ d ∷ cs) = if ok c d then some cs else none

abbrev month : ℕ → ℕ → Bool
month c d = (c == 48 && within 49 57 d) || (c == 49 && within 48 50 d)

abbrev month_day : ℕ → ℕ → Bool
month_day c d =
    (c == 48 && within 49 57 d) || ((within 49 50 c && digit d) || (c == 51 && within 48 49 d))

abbrev hour : ℕ → ℕ → Bool
hour c d = (within 48 49 c && digit d) || (c == 50 && within 48 51 d)

abbrev sexagesimal : ℕ → ℕ → Bool
sexagesimal c d = within 48 53 c && digit d

-- At most `n` more digits.
unfoldable pub digits : ℕ → Bytes → Bytes
digits n [] = []
digits zero (c ∷ cs) = c ∷ cs
digits (suc n) (c ∷ cs) = if digit c then digits n cs else c ∷ cs

abbrev fraction : Bytes → Option Bytes
fraction [] = some []
fraction (c ∷ cs) = if c == 46 then (byte digit cs >>= λ r. some (digits 5 r)) else some (c ∷ cs)

abbrev offset : Bytes → Option Bytes
offset [] = none
offset (c ∷ cs) =
    if c == 90
    then some cs
    else if c == 43 || c == 45
    then (pair hour cs >>= λ r. byte (λ x. x == 58) r >>= λ r. pair sexagesimal r)
    else none

abbrev at_end : Option Bytes → Bool
at_end none = false
at_end (some []) = true
at_end (some (c ∷ cs)) = false

-- `fulldate 'T' fulltime`.
unfoldable pub timestamp_field : Bytes → Bool
unfolding digits
timestamp_field v = at_end (do
  r ← byte digit v
  r ← byte digit r
  r ← byte digit r
  r ← byte digit r
  r ← byte (λ x. x == 45) r
  r ← pair month r
  r ← byte (λ x. x == 45) r
  r ← pair month_day r
  r ← byte (λ x. x == 84) r
  r ← pair hour r
  r ← byte (λ x. x == 58) r
  r ← pair sexagesimal r
  r ← byte (λ x. x == 58) r
  r ← pair sexagesimal r
  r ← fraction r
  offset r)

-- The states 583 (and 582), 44, 45 and 46 to 51.
pub data ValueState : Type 0 where
  ready backslash tail1 e0 tail2 ed f0 tail3 f4 : ValueState

abbrev go : Bool → ValueState → Option (ValueState × Bool)
go true st = some (st, false)
go false st = none

-- A byte in the state `ready`: the next state, and whether it is a backslash to note.
abbrev from_ready : ℕ → Option (ValueState × Bool)
from_ready c =
    if c == 34 || c == 93
    then none
    else if c == 92
    then some (backslash, true)
    else if ltb c 128
    then some (ready, false)
    else if within 194 223 c
    then some (tail1, false)
    else if c == 224
    then some (e0, false)
    else if c == 237
    then some (ed, false)
    else if within 225 239 c
    then some (tail2, false)
    else if c == 240
    then some (f0, false)
    else if within 241 243 c
    then some (tail3, false)
    else if c == 244
    then some (f4, false)
    else none

unfoldable pub value_step : ValueState → ℕ → Option (ValueState × Bool)
value_step ready c = from_ready c
value_step backslash c = go (c == 34 || within 92 93 c) ready
value_step tail1 c = go (within 128 191 c) ready
value_step e0 c = go (within 160 191 c) tail1
value_step tail2 c = go (within 128 191 c) tail1
value_step ed c = go (within 128 159 c) tail1
value_step f0 c = go (within 144 191 c) tail2
value_step tail3 c = go (within 128 191 c) tail2
value_step f4 c = go (within 128 143 c) tail2

abbrev pub mark : Bool → ℕ → Option (List ℕ) → Option (List ℕ)
mark b p none = none
mark true p (some ps) = some (p ∷ ps)
mark false p (some ps) = some ps

abbrev pub resume :
    (ValueState → Option (List ℕ)) → ℕ → Option (ValueState × Bool) → Option (List ℕ)
resume next p none = none
resume next p (some (st, b)) = mark b p (next st)

abbrev scan_end : ValueState → Option (List ℕ)
scan_end ready = some []
scan_end other = none

-- The run over a value from a position on: the positions of its backslashes, if it is accepted.
unfoldable pub scan_value : ValueState → ℕ → Bytes → Option (List ℕ)
unfolding value_step
scan_value st p [] = scan_end st
scan_value st p (c ∷ cs) = resume (λ st'. scan_value st' (suc p) cs) p (value_step st c)

-- A byte of UTF-8 without delimiters, in the states 613 and 596 to 602 of rfc5424/machine.go.
abbrev plain_step : ValueState → ℕ → Option (ValueState × Bool) → Option ValueState
plain_step ready c none = if ltb c 128 then some ready else none
plain_step st c none = none
plain_step st c (some (st', true)) = some ready
plain_step st c (some (st', false)) = some st'

unfoldable pub utf8_step : ValueState → ℕ → Option ValueState
unfolding value_step
utf8_step st c = plain_step st c (value_step st c)
