-- ===== src/Rfc5424/Automaton/Sound.antt =====
-- What `Parse` of rfc5424/machine.go returns, with its automaton.
use go_syslog.Base.{
  inl, inr, Bool-cases, ℕ, ◌≡◌, refl, Option, none, some, Bytes, true, not, ◌&&◌, arith,
}
use go_syslog.Rfc5424.Automaton.{start, body, run, outcome, parse_input, has_priority}
use go_syslog.Rfc5424.Automaton.Fine.{
  PriGood, Good, Fine, Fine-bind, Fine-if, hostname-Fine, appname-Fine, proc_id-Fine, msg_id-Fine,
  msg-Fine,
}
use go_syslog.Rfc5424.Automaton.Known.Whole.{structured_data-Fine}
use go_syslog.Rfc5424.Automaton.Numbers.{pri-Fine, message_body-Fine}
use go_syslog.Rfc5424.Automaton.Steps.{Cursor, cursor, Step, go, stop, accept, panic, ErrorKind}
use go_syslog.Rfc5424.Automaton.StructuredData.{Current}
use go_syslog.Rfc5424.Automaton.Times.{timestamp-Fine}
use go_syslog.Rfc5424.Builder.Store.{Elements}
use go_syslog.Rfc5424.Machine.{Config, Run, parse}
use go_syslog.Rfc5424.Message.{
  Draft, SyslogMessage, minimal, export, valid, minimal-valid, valid-export,
}

module _ {Time : Type 0} (parse_time : Bytes → Option Time) (zero_time : Time) where
  body-Fine :
      (m : Config) (cur : Current) (c : Cursor Time)
      → PriGood c.output
      → Fine Good (body parse_time zero_time m cur c)
  unfolding body
  body-Fine m cur c h =
      let version = message_body-Fine c h in
      let time = Fine-bind Good Good _ _ version (λ c g. timestamp-Fine parse_time c g) in
      let host = Fine-bind Good Good _ _ time hostname-Fine in
      let app = Fine-bind Good Good _ _ host appname-Fine in
      let proc = Fine-bind Good Good _ _ app proc_id-Fine in
      let id = Fine-bind Good Good _ _ proc msg_id-Fine in
      let elements = Fine-bind Good Good _ _ id (structured_data-Fine cur) in
      Fine-bind Good Good _ _ elements (msg-Fine m.compliant_msg)

  run-Fine :
      (m : Config) (cur : Current) (input : Bytes)
      → Fine Good (run parse_time zero_time m cur input)
  unfolding run
  run-Fine m cur input =
      let c : Cursor Time = cursor 0 input (start parse_time zero_time m) in
      let unset : PriGood c.output = λ e. absurd (ground (arith, e)) in
      Fine-if Good (m.optional_priority && not (has_priority input)) _ _ (body-Fine m cur c unset)
        (Fine-bind PriGood Good _ _ (pri-Fine c unset) (body-Fine m cur))

  -- What is left behind, if it is final, exports to a valid message.
  abbrev Accepts : Run Time Elements (ErrorKind × ℕ) → Type 0
  Accepts left = left.final ≡ true → valid (export left.output) ≡ true

  Good-valid : (out : Draft Time Elements) → Good out → valid (export out) ≡ true
  Good-valid out (v, p) = ground (arith, valid-export out, v, p)

  outcome-Fine :
      (s : Step Time)
      → Fine Good s
      → (left : Run Time Elements (ErrorKind × ℕ)) × (outcome parse_time zero_time s ≡ some left)
        × Accepts left
  unfolding outcome
  outcome-Fine (go c) g = (_, refl, λ _. Good-valid c.output g)
  outcome-Fine (stop k p out) g = (_, refl, λ e. absurd (ground (arith, e)))
  outcome-Fine (accept out) g = (_, refl, λ _. Good-valid out g)
  outcome-Fine panic g = absurd g

  -- A message, if there is one, is valid.
  abbrev pub IsValid : Option (SyslogMessage Time Elements) × Option (ErrorKind × ℕ) → Type 0
  IsValid (none, e) = Unit
  IsValid (some msg, e) = valid msg ≡ true

  parse-IsValid :
      (m : Config) (input : Bytes) (left : Run Time Elements (ErrorKind × ℕ))
      → Accepts left
      → IsValid (parse (λ _ _. left) m input)
  unfolding parse
  parse-IsValid m input left h = elim (Bool-cases left.final) [
    | inl y ↦ rw y (h y)
    | inr n ↦ elim (Bool-cases (m.best_effort && minimal left.output)) [
      | inl y ↦
          let least : minimal left.output ≡ true = ground (arith, y) in
          rw (n, y) (minimal-valid left.output least)
      | inr k ↦ rw (n, k) tt
    ]
  ]

  -- `Parse` of the rfc5424 machine never panics, and a message that it returns is valid, whether it
  -- comes with an error or without, and whatever an earlier message left behind.
  pub parse_input-IsValid :
      (m : Config) (cur : Current) (input : Bytes)
      → (result : Option (SyslogMessage Time Elements) × Option (ErrorKind × ℕ)) × (parse_input
            parse_time zero_time m cur input
          ≡ some result)
        × IsValid result
  unfolding parse_input
  parse_input-IsValid m cur input =
      let (left, e, h) =
        outcome-Fine (run parse_time zero_time m cur input) (run-Fine m cur input) in
      (parse (λ _ _. left) m input, rw e refl, parse-IsValid m input left h)
