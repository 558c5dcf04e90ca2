-- ===== src/Rfc5424/Automaton.antt =====
-- The automaton of rfc5424/machine.go, by the parts of a message. Its error actions end the run:
-- they go to the state that skips the rest of the line, from which no other state is reached, so the
-- first error is the one that is left. A position is the index of a byte.
pub mod Steps
pub mod Header
pub mod Timestamp
pub mod StructuredData
pub mod FreeForm
mod Tests
pub mod Cleaned
pub mod Fine
pub mod Numbers
pub mod Times
pub mod Known
pub mod Sound
pub mod Columns
use go_syslog.Base.{
  ℕ, Option, none, some, [], ◌∷◌, Bytes, Bool, true, false, not, ◌&&◌, ◌==◌, if◌then◌else◌,
}
use go_syslog.Rfc5424.Automaton.StructuredData.{Current, structured_data}
use go_syslog.Rfc5424.Automaton.Header.{pri, message_body, hostname, appname, proc_id, msg_id}
use go_syslog.Rfc5424.Automaton.FreeForm.{msg}
use go_syslog.Rfc5424.Automaton.Steps.{
  ErrorKind, Cursor, cursor, Step, go, stop, accept, panic, ◌>>=◌,
}
use go_syslog.Rfc5424.Automaton.Timestamp.{timestamp}
use go_syslog.Rfc5424.Builder.Store.{Elements}
use go_syslog.Rfc5424.Machine.{Config, Run, parse}
use go_syslog.Rfc5424.Message.{Draft, SyslogMessage}
use mathlib.Core.Option

abbrev has_priority : Bytes → Bool
has_priority [] = false
has_priority (c ∷ cs) = c == 60

module _ {Time : Type 0} (parse_time : Bytes → Option Time) (zero_time : Time) where
  -- `&syslogMessage{priorityOptional: m.optionalPriority}`.
  abbrev start : Config → Draft Time Elements
  start m = record {
    priority_set = false;
    priority_optional = m.optional_priority;
    timestamp_set = false;
    has_elements = false;
    priority = 0;
    version = 0;
    timestamp = zero_time;
    hostname = [];
    appname = [];
    proc_id = [];
    msg_id = [];
    structured_data = [];
    message = [];
  }

  -- `header_fields sp structureddata (sp msg)?`.
  unfoldable pub body : Config → Current → Cursor Time → Step Time
  unfolding message_body timestamp hostname appname proc_id msg_id structured_data msg
  body m cur c =
      message_body c
      >>= timestamp parse_time
      >>= hostname
      >>= appname
      >>= proc_id
      >>= msg_id
      >>= structured_data cur
      >>= msg m.compliant_msg

  -- `main`, or its part behind the priority.
  unfoldable pub run : Config → Current → Bytes → Step Time
  unfolding pri body
  run m cur input =
      if m.optional_priority && not (has_priority input)
      then body m cur (cursor 0 input (start m))
      else (pri (cursor 0 input (start m)) >>= body m cur)

  -- What a run leaves behind for `Parse`; `none` is a panic. A part that goes on has the end to come.
  unfoldable pub outcome : Step Time → Option (Run Time Elements (ErrorKind × ℕ))
  outcome (go c) = some (record { final = true; output = c.output; err = none })
  outcome (stop k p out) = some (record { final = false; output = out; err = some (k, p) })
  outcome (accept out) = some (record { final = true; output = out; err = none })
  outcome panic = none

  -- `Parse` of the machine with its automaton.
  unfoldable pub parse_input :
      Config
      → Current
      → Bytes
      → Option (Option (SyslogMessage Time Elements) × Option (ErrorKind × ℕ))
  unfolding run outcome parse
  parse_input m cur input =
      Option.map (λ left. parse (λ m input. left) m input) (outcome (run m cur input))
