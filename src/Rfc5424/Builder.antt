-- ===== src/Rfc5424/Builder.antt =====
-- rfc5424/builder.go: the operations that build a message, and `String`.
-- A message is a value, each operation returns the one that it leaves; `none` is a panic. A Go map
-- is an association list.
pub mod Store
pub mod Print
pub mod Values
pub mod Laws
pub mod Bounds
pub mod Kept
pub mod Detected
pub mod Order
mod Tests
use go_syslog.Base.{
  ℕ, Option, none, some, List, [], ◌∷◌, Bytes, codes, Bool, true, false, equal, if◌then◌else◌,
}
use go_syslog.Base.Maps.{find}
use go_syslog.Common.{valid_priority, valid_version}
use go_syslog.Rfc5424.Builder.Store.{
  Elements, elements_of, add_element, put, find_parameter, strip_backslashes,
}
use go_syslog.Rfc5424.Grammar.{
  timestamp_field, hostname_field, appname_field, proc_id_field, msg_id_field, sd_id_field,
  sd_param_name_field, ValueState, ready, scan_value,
}
use go_syslog.Rfc5424.Message.{SyslogMessage}
use go_syslog.Syslog.Message.{Base, compute_from_priority}

-- `entrypoint`.
pub data Entrypoint : Type 0 where
  timestamp hostname appname procid msgid sdid sdpn sdpv msg : Entrypoint

-- The methods of `Builder` that set something, with their arguments.
pub data Operation : Type 0 where
  op_priority op_version : ℕ → Operation
  op_timestamp op_hostname op_appname op_proc_id op_msg_id op_element_id op_message :
      Bytes → Operation
  op_parameter : Bytes → Bytes → Bytes → Operation

infixl 5 ◌>>=◌
abbrev pub ◌>>=◌ {ℓ} : {A B : Type ℓ} → Option A → (A → Option B) → Option B
none >>= f = none
some a >>= f = f a

-- What a final state's action does with the text: nothing if it is the nil value.
abbrev pub unless_nil : Bytes → Option Bytes → Option Bytes
unless_nil s old = if equal s (codes "-") then old else some s

abbrev pub set_text : Bytes → Option Bytes → Option Bytes
set_text [] old = old
set_text (c ∷ cs) old = some (c ∷ cs)

module _ {Time : Type 0} where
  abbrev pub with_base : SyslogMessage Time Elements → Base Time → SyslogMessage Time Elements
  with_base sm base = record sm { base = base }

  abbrev pub with_elements :
      SyslogMessage Time Elements → Option Elements → Option (SyslogMessage Time Elements)
  with_elements sm none = none
  with_elements sm (some elements) = some (record sm { structured_data = some elements })

  abbrev pub store_value :
      Bytes
      → Bytes
      → SyslogMessage Time Elements
      → Option Bytes
      → Option (SyslogMessage Time Elements)
  store_value id name sm none = none
  store_value id name sm (some text) = with_elements sm (put id name text sm.structured_data)

  -- The run of the parameter's value: rejected, or the positions of its backslashes.
  abbrev pub set_value :
      Bytes
      → Bytes
      → Bytes
      → SyslogMessage Time Elements
      → Option (List ℕ)
      → Option (SyslogMessage Time Elements)
  set_value id name value sm none = some sm
  set_value id name value sm (some backslashes) =
      store_value id name sm (strip_backslashes backslashes value)

  abbrev pub store_time : SyslogMessage Time Elements → Option Time → SyslogMessage Time Elements
  store_time sm none = sm
  store_time sm (some t) = with_base sm (record sm.base { timestamp = some t })

  -- `if _, ok := m[k]; ok`, then `f`.
  abbrev pub if_found {ℓ} :
      {V : Type ℓ}
      → Option V
      → (SyslogMessage Time Elements → Option (SyslogMessage Time Elements))
      → SyslogMessage Time Elements
      → Option (SyslogMessage Time Elements)
  if_found none f sm = some sm
  if_found (some v) f sm = f sm

  -- `SetPriority`, `SetVersion`.
  unfoldable pub set_priority : ℕ → SyslogMessage Time Elements → SyslogMessage Time Elements
  unfolding valid_priority compute_from_priority
  set_priority value sm =
      if valid_priority value then with_base sm (compute_from_priority value sm.base) else sm

  unfoldable pub set_version : ℕ → SyslogMessage Time Elements → SyslogMessage Time Elements
  unfolding valid_version
  set_version value sm = if valid_version value then record sm { version = value } else sm

  module _ (parse_time : Bytes → Option Time) where
    -- `setWithCtx`: the text is taken if the automaton stops in a final state of the entry point.
    unfoldable pub set_with_ctx :
        Entrypoint
        → Bytes
        → Bytes
        → Bytes
        → SyslogMessage Time Elements
        → Option (SyslogMessage Time Elements)
    unfolding equal timestamp_field scan_value
    set_with_ctx timestamp value id name sm =
        some (if timestamp_field value then store_time sm (parse_time value) else sm)
    set_with_ctx hostname value id name sm = some (
        if hostname_field value
        then with_base sm (record sm.base { hostname = unless_nil value sm.base.hostname })
        else sm)
    set_with_ctx appname value id name sm = some (
        if appname_field value
        then with_base sm (record sm.base { appname = unless_nil value sm.base.appname })
        else sm)
    set_with_ctx procid value id name sm = some (
        if proc_id_field value
        then with_base sm (record sm.base { proc_id = unless_nil value sm.base.proc_id })
        else sm)
    set_with_ctx msgid value id name sm = some (
        if msg_id_field value
        then with_base sm (record sm.base { msg_id = unless_nil value sm.base.msg_id })
        else sm)
    set_with_ctx sdid value id name sm =
        if sd_id_field value
        then with_elements sm (some (add_element value (elements_of sm.structured_data)))
        else some sm
    set_with_ctx sdpn value id name sm =
        if sd_param_name_field value
        then with_elements sm (put id value [] sm.structured_data)
        else some sm
    set_with_ctx sdpv value id name sm = set_value id name value sm (scan_value ready 0 value)
    set_with_ctx msg value id name sm =
        some (with_base sm (record sm.base { message = set_text value sm.base.message }))

    -- `set`.
    abbrev pub set :
        Entrypoint → Bytes → SyslogMessage Time Elements → Option (SyslogMessage Time Elements)
    set from value sm = set_with_ctx from value [] [] sm

    -- What is done if the element is there: `SetParameter` gives it the name, then the value.
    abbrev pub set_name :
        Bytes → Bytes → Bytes → SyslogMessage Time Elements → Option (SyslogMessage Time Elements)
    set_name id name value sm = set_with_ctx sdpn name id [] sm >>= (λ sm.
        if_found (find_parameter id name (elements_of sm.structured_data))
          (set_with_ctx sdpv value id name) sm)

    -- `SetParameter`.
    unfoldable pub set_parameter :
        Bytes → Bytes → Bytes → SyslogMessage Time Elements → Option (SyslogMessage Time Elements)
    unfolding set_with_ctx find
    set_parameter id name value sm =
        set sdid id sm
        >>= (λ sm. if_found (find id (elements_of sm.structured_data)) (set_name id name value) sm)

    -- An operation of the interface `Builder`.
    unfoldable pub perform :
        Operation → SyslogMessage Time Elements → Option (SyslogMessage Time Elements)
    unfolding set_with_ctx set_parameter set_priority set_version
    perform (op_timestamp value) sm = set timestamp value sm
    perform (op_hostname value) sm = set hostname value sm
    perform (op_appname value) sm = set appname value sm
    perform (op_proc_id value) sm = set procid value sm
    perform (op_msg_id value) sm = set msgid value sm
    perform (op_element_id value) sm = set sdid value sm
    perform (op_parameter id name value) sm = set_parameter id name value sm
    perform (op_message value) sm = set msg value sm
    perform (op_priority value) sm = some (set_priority value sm)
    perform (op_version value) sm = some (set_version value sm)

    -- A chain of calls.
    unfoldable pub build :
        List Operation → SyslogMessage Time Elements → Option (SyslogMessage Time Elements)
    unfolding perform
    build [] sm = some sm
    build (op ∷ ops) sm = perform op sm >>= build ops
