-- ===== src/Rfc3164/Machine.antt =====
-- rfc3164/machine.go around its generated automaton, and rfc3164/parser.go.
-- `exec` is the automaton: what it leaves behind on a configuration and an input.
pub mod Laws
use go_syslog.Base.{Option, none, some, Bytes, Bool, true, false, not, ◌&&◌, if◌then◌else◌}
use go_syslog.Base.Int.{ℤ, pos}
use go_syslog.Rfc3164.Message.{Draft, YearOperator, operate, minimal, export}
use go_syslog.Syslog.Message.{Base}

-- The fields of `machine` that outlive a call of `Parse`; `Location` stands for time.Location.
pub record Config (Location : Type 0) : Type 0 where
  pub best_effort : Bool
  pub yyyy : ℤ
  pub rfc3339 : Bool
  pub secfrac : Bool
  pub msgcount : Bool
  pub sequence : Bool
  pub cisco_hostname : Bool
  pub lenient_day : Bool
  pub newline : Bool
  pub optional_priority : Bool
  pub loc : Option Location
  pub timezone : Option Location

-- The state of the automaton at the end of a run: whether it is a final state, what was read, and
-- the error noted.
pub record Run (Time E : Type 0) : Type 0 where
  pub final : Bool
  pub output : Draft Time
  pub err : Option E

module _ {Location : Type 0} where
  -- `&machine{}`.
  abbrev pub initial : Config Location
  initial = record {
    best_effort = false;
    yyyy = pos 0;
    rfc3339 = false;
    secfrac = false;
    msgcount = false;
    sequence = false;
    cisco_hostname = false;
    lenient_day = false;
    newline = false;
    optional_priority = false;
    loc = none;
    timezone = none;
  }

  -- The setters of the machine, by the names of the source.
  abbrev pub with_best_effort : Config Location → Config Location
  with_best_effort m = record m { best_effort = true }

  abbrev pub with_optional_priority : Config Location → Config Location
  with_optional_priority m = record m { optional_priority = true }

  abbrev pub with_year : ℤ → YearOperator → Config Location → Config Location
  with_year now o m = record m { yyyy = operate now o }

  abbrev pub with_timezone : Option Location → Config Location → Config Location
  with_timezone loc m = record m { loc = loc }

  abbrev pub with_locale_timezone : Option Location → Config Location → Config Location
  with_locale_timezone loc m = record m { timezone = loc }

  abbrev pub with_rfc3339 : Config Location → Config Location
  with_rfc3339 m = record m { rfc3339 = true }

  abbrev pub with_second_fractions : Config Location → Config Location
  with_second_fractions m = record m { secfrac = true }

  abbrev pub with_message_counter : Config Location → Config Location
  with_message_counter m = record m { msgcount = true }

  abbrev pub with_sequence_number : Config Location → Config Location
  with_sequence_number m = record m { sequence = true }

  abbrev pub with_cisco_hostname : Config Location → Config Location
  with_cisco_hostname m = record m { cisco_hostname = true }

  abbrev pub with_lenient_day : Config Location → Config Location
  with_lenient_day m = record m { lenient_day = true }

  abbrev pub with_embedded_newlines : Config Location → Config Location
  with_embedded_newlines m = record m { newline = true }

  -- `HasBestEffort`.
  abbrev pub has_best_effort : Config Location → Bool
  has_best_effort m = m.best_effort

module _ {Location Time E : Type 0} (exec : Config Location → Bytes → Run Time E) where
  abbrev finish : Config Location → Run Time E → Option (Base Time) × Option E
  finish m run =
      if not run.final
      then (if m.best_effort && minimal run.output
          then (some (export run.output), run.err)
          else (none, run.err))
      else (some (export run.output), none)

  -- `Parse` of the machine.
  unfoldable pub parse : Config Location → Bytes → Option (Base Time) × Option E
  parse m input = finish m (exec m input)

  abbrev guarded : Config Location → Option (Base Time) × Option E → Option (Base Time) × Option E
  guarded m (msg, none) = (msg, none)
  guarded m (msg, some e) = if m.best_effort then (msg, some e) else (none, some e)

  -- `Parse` of the parser with a mutex, under the lock.
  unfoldable pub locked_parse : Config Location → Bytes → Option (Base Time) × Option E
  locked_parse m input = guarded m (parse m input)
