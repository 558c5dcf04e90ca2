-- ===== src/Rfc5424/Automaton/StructuredData.antt =====
-- The automaton of rfc5424/machine.go on the structured data.
use go_syslog.Base.{
  ℕ, zero, suc, Option, none, some, List, [], ◌∷◌, ◌++◌, Bytes, Bool, true, false, ◌==◌,
  if◌then◌else◌,
}
use go_syslog.Base.Maps.{find, assign, delete}
use go_syslog.Common.Escape.{remove_bytes}
use go_syslog.Rfc5424.Automaton.Steps.{
  ErrorKind, err_structured_data, err_sd_id, err_sd_id_duplicated, err_sd_param, err_escape,
  err_parse, Cursor, cursor, Step, go, stop, accept, panic,
}
use go_syslog.Rfc5424.Builder.Store.{Elements, put}
use go_syslog.Rfc5424.Grammar.{sd_name_char, ValueState, ready, backslash, value_step}
use go_syslog.Rfc5424.Message.{Draft}

-- The states 17; 18 and 64 to 94; 19; 20 to 51; 52; 53, 54 and 56 to 63; 55; 606. A name carries the
-- bytes that may follow and its text, a value the position that it starts at, its text and the
-- positions of its backslashes.
pub data State : Type 0 where
  id_start param_start equals value_end element_end : State
  id name : ℕ → Bytes → State
  value : ValueState → ℕ → Bytes → List ℕ → State

-- `currentelem` and `currentparam`.
pub record Current : Type 0 where
  pub elem : Bytes
  pub param : Bytes

abbrev pub is_empty : Elements → Bool
is_empty [] = true
is_empty (x ∷ xs) = false

-- One transition: to a state, out of the structured data by the space behind it, or to an error.
pub data Move (Time : Type 0) : Type 0 where
  next : State → Current → Draft Time Elements → Move Time
  leave : Draft Time Elements → Move Time
  failed : ErrorKind → Draft Time Elements → Move Time
  broken : Move Time

-- The value without its backslashes.
abbrev pub stripped : ℕ → Bytes → List ℕ → Option Bytes
stripped pb text [] = some text
stripped pb text (p ∷ ps) = remove_bytes text (p ∷ ps) pb

module _ {Time : Type 0} where
  -- `err_sdid`.
  abbrev pub fail_id : Current → Draft Time Elements → Move Time
  fail_id cur out =
      let els = delete cur.elem out.structured_data in
      failed err_sd_id (record out {
        structured_data = els;
        has_elements = if is_empty els then false else out.has_elements;
      })

  abbrev pub fail_param_in :
      Current → Draft Time Elements → Option (List (Bytes × Bytes)) → Move Time
  fail_param_in cur out none = failed err_sd_param out
  fail_param_in cur out (some params) = failed err_sd_param (record out {
    structured_data = assign cur.elem (delete cur.param params) out.structured_data;
  })

  -- `err_sdparam`.
  abbrev pub fail_param : Current → Draft Time Elements → Move Time
  fail_param cur out = fail_param_in cur out (find cur.elem out.structured_data)

  -- `set_id`, and what follows it where there is no duplicate.
  abbrev pub set_id_in :
      Bytes
      → Current
      → Draft Time Elements
      → (Current → Draft Time Elements → Move Time)
      → Option (List (Bytes × Bytes))
      → Move Time
  set_id_in text cur out f (some params) = failed err_sd_id_duplicated out
  set_id_in text cur out f none =
      f (record cur { elem = text })
        (record out { structured_data = assign text [] out.structured_data; has_elements = true })

  abbrev pub set_id :
      Bytes
      → Current
      → Draft Time Elements
      → (Current → Draft Time Elements → Move Time)
      → Move Time
  set_id text cur out f = set_id_in text cur out f (find text out.structured_data)

  abbrev pub store : Current → Draft Time Elements → Option Elements → Move Time
  store cur out none = broken
  store cur out (some els) = next value_end cur (record out { structured_data = els })

  abbrev pub store_text : Current → Draft Time Elements → Option Bytes → Move Time
  store_text cur out none = broken
  store_text cur out (some text) =
      store cur out (put cur.elem cur.param text (some out.structured_data))

  -- `set_paramvalue`.
  abbrev pub set_param_value : ℕ → Bytes → List ℕ → Current → Draft Time Elements → Move Time
  set_param_value pb text marks cur out =
      if out.has_elements
      then store_text cur out (stripped pb text marks)
      else next value_end cur out

  -- The error of a value: in the states of a character it is that of the parameter.
  abbrev pub fail_value : ValueState → Current → Draft Time Elements → Move Time
  fail_value ready cur out = failed err_escape out
  fail_value backslash cur out = failed err_escape out
  fail_value other cur out = fail_param cur out

  abbrev pub in_value :
      ValueState
      → ℕ
      → Bytes
      → List ℕ
      → ℕ
      → ℕ
      → Current
      → Draft Time Elements
      → Option (ValueState × Bool)
      → Move Time
  in_value st pb text marks c p cur out none = fail_value st cur out
  in_value st pb text marks c p cur out (some (st', true)) =
      next (value st' pb (text ++ (c ∷ [])) (marks ++ (p ∷ []))) cur out
  in_value st pb text marks c p cur out (some (st', false)) =
      next (value st' pb (text ++ (c ∷ [])) marks) cur out

  abbrev pub at_quote :
      ValueState → ℕ → Bytes → List ℕ → ℕ → ℕ → Current → Draft Time Elements → Move Time
  at_quote ready pb text marks c p cur out =
      if c == 34
      then set_param_value pb text marks cur out
      else in_value ready pb text marks c p cur out (value_step ready c)
  at_quote st pb text marks c p cur out = in_value st pb text marks c p cur out (value_step st c)

  -- One more byte of a name, or of an id: none behind the last.
  abbrev pub id_byte : ℕ → Bytes → ℕ → Current → Draft Time Elements → Move Time
  id_byte zero text c cur out = set_id text cur out fail_id
  id_byte (suc n) text c cur out =
      if sd_name_char c then next (id n (text ++ (c ∷ []))) cur out else set_id text cur out fail_id

  abbrev pub name_byte : ℕ → Bytes → ℕ → Current → Draft Time Elements → Move Time
  name_byte zero text c cur out = fail_param cur out
  name_byte (suc n) text c cur out =
      if sd_name_char c then next (name n (text ++ (c ∷ []))) cur out else fail_param cur out

  -- A byte at a position.
  unfoldable pub step : State → ℕ → ℕ → Current → Draft Time Elements → Move Time
  unfolding delete find assign remove_bytes value_step put
  step id_start c p cur out =
      if sd_name_char c then next (id 31 (c ∷ [])) cur out else fail_id cur out
  step (id n text) c p cur out =
      if c == 32
      then set_id text cur out (λ cur out. next param_start cur out)
      else if c == 93
      then set_id text cur out (λ cur out. next element_end cur out)
      else id_byte n text c cur out
  step param_start c p cur out =
      if sd_name_char c then next (name 31 (c ∷ [])) cur out else fail_param cur out
  step (name n text) c p cur out =
      if c == 61 then next equals (record cur { param = text }) out else name_byte n text c cur out
  step equals c p cur out =
      if c == 34 then next (value ready (suc p) [] []) cur out else fail_param cur out
  step (value st pb text marks) c p cur out = at_quote st pb text marks c p cur out
  step value_end c p cur out =
      if c == 32
      then next param_start cur out
      else if c == 93
      then next element_end cur out
      else fail_param cur out
  step element_end c p cur out =
      if c == 32
      then leave out
      else if c == 91
      then next id_start cur out
      else failed err_structured_data out

  -- The end of the input.
  unfoldable pub finish : State → Current → Draft Time Elements → Move Time
  unfolding delete find assign
  finish id_start cur out = fail_id cur out
  finish (id n text) cur out = set_id text cur out fail_id
  finish (value st pb text marks) cur out = fail_value st cur out
  finish element_end cur out = leave out
  finish other cur out = fail_param cur out

  abbrev pub end_of : ℕ → Move Time → Step Time
  end_of p (next st cur out) = panic
  end_of p (leave out) = accept out
  end_of p (failed k out) = stop k p out
  end_of p broken = panic

  abbrev pub on_move :
      (State → Current → Draft Time Elements → Step Time) → ℕ → Bytes → Move Time → Step Time
  on_move f p cs (next st cur out) = f st cur out
  on_move f p cs (leave out) = go (cursor (suc p) cs out)
  on_move f p cs (failed k out) = stop k p out
  on_move f p cs broken = panic

  unfoldable pub elements : State → ℕ → Bytes → Current → Draft Time Elements → Step Time
  unfolding step finish
  elements st p [] cur out = end_of p (finish st cur out)
  elements st p (c ∷ cs) cur out =
      on_move (λ st' cur' out'. elements st' (suc p) cs cur' out') p cs (step st c p cur out)

  -- Behind the nil value: the end, or the space.
  abbrev pub after_nil : ℕ → Bytes → Draft Time Elements → Step Time
  after_nil p [] out = accept out
  after_nil p (c ∷ cs) out = if c == 32 then go (cursor (suc p) cs out) else stop err_parse p out

  abbrev pub structured_data_at : Current → ℕ → Bytes → Draft Time Elements → Step Time
  structured_data_at cur p [] out = stop err_structured_data p out
  structured_data_at cur p (c ∷ cs) out =
      let found = elements id_start (suc p) cs cur (record out { structured_data = [] }) in
      if c == 45
      then after_nil (suc p) cs out
      else if c == 91
      then found
      else stop err_structured_data p out

  -- `structureddata`, with the space behind it; what is current before is left of another message.
  unfoldable pub structured_data : Current → Cursor Time → Step Time
  unfolding elements
  structured_data cur c = structured_data_at cur c.at c.rest c.output
