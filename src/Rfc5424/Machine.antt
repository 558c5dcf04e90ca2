-- ===== src/Rfc5424/Machine.antt =====
-- rfc5424/machine.go around its generated automaton, rfc5424/options.go and rfc5424/parser.go.
-- `exec` is the automaton: what it leaves behind on a configuration and an input.
pub mod Laws
use go_syslog.Base.{Option, none, some, Bytes, Bool, true, false, not, ◌&&◌, if◌then◌else◌}
use go_syslog.Rfc5424.Message.{Draft, SyslogMessage, minimal, export}

-- The fields of `machine` that outlive a call of `Parse`.
pub record Config : Type 0 where
  pub best_effort : Bool
  pub compliant_msg : Bool
  pub optional_priority : Bool

-- `&machine{}`.
abbrev pub initial : Config
initial = record { best_effort = false; compliant_msg = false; optional_priority = false }

-- `WithBestEffort`, `WithCompliantMsg` and `WithOptionalPriority`.
abbrev pub with_best_effort : Config → Config
with_best_effort m = record m { best_effort = true }

abbrev pub with_compliant_msg : Config → Config
with_compliant_msg m = record m { compliant_msg = true }

abbrev pub with_optional_priority : Config → Config
with_optional_priority m = record m { optional_priority = true }

-- `HasBestEffort`.
abbrev pub has_best_effort : Config → Bool
has_best_effort m = m.best_effort

-- The state of the automaton at the end of a run: whether it is a final state, what was read, and
-- the error noted.
pub record Run (Time SD E : Type 0) : Type 0 where
  pub final : Bool
  pub output : Draft Time SD
  pub err : Option E

module _ {Time SD E : Type 0} (exec : Config → Bytes → Run Time SD E) where
  abbrev finish : Config → Run Time SD E → Option (SyslogMessage Time SD) × Option E
  finish m run =
      if not run.final
      then (if m.best_effort && minimal run.output
          then (some (export run.output), run.err)
          else (none, run.err))
      else (some (export run.output), none)

  -- `Parse` of the machine.
  unfoldable pub parse : Config → Bytes → Option (SyslogMessage Time SD) × Option E
  parse m input = finish m (exec m input)

  abbrev guarded :
      Config → Option (SyslogMessage Time SD) × Option E → Option (SyslogMessage Time SD) × Option E
  guarded m (msg, none) = (msg, none)
  guarded m (msg, some e) = if m.best_effort then (msg, some e) else (none, some e)

  -- `Parse` of the parser with a mutex, under the lock.
  unfoldable pub locked_parse : Config → Bytes → Option (SyslogMessage Time SD) × Option E
  locked_parse m input = guarded m (parse m input)
