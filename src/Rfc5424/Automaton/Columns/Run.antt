-- ===== src/Rfc5424/Automaton/Columns/Run.antt =====
-- The column of the error that a whole run of the automaton reports.
use go_syslog.Base.{
  inl, inr, Bool-cases, ℕ, ◌+◌, ◌≤◌, ◌≡◌, Option, none, some, Bytes, not, ◌&&◌, length, arith,
}
use go_syslog.Rfc5424.Automaton.{start, body, run, has_priority, parse_input, outcome}
use go_syslog.Rfc5424.Automaton.Columns.{
  Within, Within-if, pri-Stays, message_body-Stays, field_at-Within,
}
use go_syslog.Rfc5424.Automaton.Steps.{Cursor, cursor, Step, go, stop, accept, panic, ErrorKind}
use go_syslog.Rfc5424.Automaton.Header.{hostname, appname, proc_id, msg_id}
use go_syslog.Rfc5424.Automaton.Timestamp.{timestamp}
use go_syslog.Rfc5424.Automaton.FreeForm.{msg}
use go_syslog.Rfc5424.Automaton.StructuredData.{Current, structured_data}
use go_syslog.Rfc5424.Builder.Store.{Elements}
use go_syslog.Rfc5424.Automaton.Sound.{parse_input-IsValid}
use mathlib.Core.Option
use mathlib.Core.Option.{some-injective}
use mathlib.Core.Path.{subst}
use go_syslog.Rfc5424.Machine.{Config, Run, parse}
use go_syslog.Rfc5424.Message.{SyslogMessage, minimal}
use go_syslog.Rfc5424.Automaton.Columns.Body.{
  then-Within, timestamp_at-Within, structured_data_at-Within, msg_at-Within,
}

-- The column of an error is that of a byte of the input, or of its end.
abbrev pub InColumns : ℕ → Option (ErrorKind × ℕ) → Type 0
InColumns total none = Unit
InColumns total (some (k, p)) = p ≤ total

module _ {Time : Type 0} (parse_time : Bytes → Option Time) (zero_time : Time) where
  body-Within :
      (total : ℕ) (m : Config) (cur : Current) (c : Cursor Time)
      → c.at + length c.rest ≡ total
      → Within total (body parse_time zero_time m cur c)
  unfolding body timestamp hostname appname proc_id msg_id structured_data msg
  body-Within n m cur c h =
      let version = message_body-Stays n c h in
      let time =
        then-Within n _ _ version
          (λ c h. timestamp_at-Within n parse_time c.at c.rest c.output h) in
      let host = then-Within n _ _ time (λ c h. field_at-Within n _ _ 254 c.at c.rest c.output h) in
      let app = then-Within n _ _ host (λ c h. field_at-Within n _ _ 47 c.at c.rest c.output h) in
      let proc = then-Within n _ _ app (λ c h. field_at-Within n _ _ 127 c.at c.rest c.output h) in
      let id = then-Within n _ _ proc (λ c h. field_at-Within n _ _ 31 c.at c.rest c.output h) in
      let elements =
        then-Within n _ _ id (λ c h. structured_data_at-Within n cur c.at c.rest c.output h) in
      then-Within n _ _ elements (λ c h. msg_at-Within n m.compliant_msg c.at c.rest c.output h)

  run-Within :
      (m : Config) (cur : Current) (input : Bytes)
      → Within (length input) (run parse_time zero_time m cur input)
  unfolding run
  run-Within m cur input =
      let n = length input in
      let c : Cursor Time = cursor 0 input (start parse_time zero_time m) in
      Within-if n (m.optional_priority && not (has_priority input)) _ _
        (body-Within n m cur c (omega arith))
        (then-Within n _ _ (pri-Stays n c (omega arith)) (body-Within n m cur))

  -- What is left behind.
  abbrev Reports : ℕ → Option (Run Time Elements (ErrorKind × ℕ)) → Type 0
  Reports total none = Unit
  Reports total (some left) = InColumns total left.err

  outcome-Reports :
      (total : ℕ) (s : Step Time) → Within total s → Reports total (outcome parse_time zero_time s)
  unfolding outcome
  outcome-Reports n (go c) h = tt
  outcome-Reports n (stop k p out) h = h
  outcome-Reports n (accept out) h = tt
  outcome-Reports n panic h = tt

  parse-InColumns :
      (total : ℕ) (m : Config) (input : Bytes) (left : Run Time Elements (ErrorKind × ℕ))
      → InColumns total left.err
      → InColumns total (parse (λ _ _. left) m input).1
  unfolding parse
  parse-InColumns n m input left h = elim (Bool-cases left.final) [
    | inl y ↦ rw y tt
    | inr k ↦ elim (Bool-cases (m.best_effort && minimal left.output)) [
      | inl y ↦ rw (k, y) h
      | inr j ↦ rw (k, j) h
    ]
  ]

  map-InColumns :
      (total : ℕ) (m : Config) (input : Bytes) (o : Option (Run Time Elements (ErrorKind × ℕ)))
      (result : Option (SyslogMessage Time Elements) × Option (ErrorKind × ℕ))
      → Reports total o
      → Option.map (λ left. parse (λ _ _. left) m input) o ≡ some result
      → InColumns total result.1
  map-InColumns n m input none result h e = absurd (ground (arith, e))
  map-InColumns n m input (some left) result h e =
      subst (λ r. InColumns n r.1) (some-injective (parse (λ _ _. left) m input) result e)
        (parse-InColumns n m input left h)

  -- `Parse` of the rfc5424 machine returns, and an error that it returns is reported at a column of
  -- the input, or at its end.
  pub parse_input-InColumns :
      (m : Config) (cur : Current) (input : Bytes)
      → (result : Option (SyslogMessage Time Elements) × Option (ErrorKind × ℕ)) × (parse_input
            parse_time zero_time m cur input
          ≡ some result)
        × InColumns (length input) result.1
  unfolding parse_input
  parse_input-InColumns m cur input =
      let (result, e, v) = parse_input-IsValid parse_time zero_time m cur input in
      (
        result,
        e,
        map-InColumns (length input) m input
            (outcome parse_time zero_time (run parse_time zero_time m cur input)) result
            (outcome-Reports (length input) _ (run-Within m cur input)) e,
      )
