-- ===== src/Machines/Library.antt =====
-- rfc3164/options.go, rfc5424/options.go and ciscoios/flags.go: the options of the library.
-- One that asserts the type of the machine panics on the other type, and leaves it as it was.
use go_syslog.Base.{ℕ, ◌/◌, ◌%◌, Bool, true, false, Option, if◌then◌else◌, ◌==◌}
use go_syslog.Base.Int.{ℤ}
use go_syslog.Rfc3164.Message.{YearOperator}
use go_syslog.Rfc3164.Machine as Machine3164
use go_syslog.Rfc5424.Machine as Machine5424
use go_syslog.Machines.{returned, panicked, MachineOption}

-- `ciscoios.Component`: a set of flags, as a number.
abbrev pub all : ℕ
all = 0

abbrev pub disable_message_counter : ℕ
disable_message_counter = 1

abbrev pub disable_sequence_number : ℕ
disable_sequence_number = 2

abbrev pub disable_hostname : ℕ
disable_hostname = 4

abbrev pub disable_second_fractions : ℕ
disable_second_fractions = 8

-- `flags&flag == 0`, for a flag of one bit.
abbrev pub lacks : ℕ → ℕ → Bool
lacks flags flag = flags / flag % 2 == 0

module _ {Location : Type 0} where
  -- An option that asserts `m.(*machine)` of rfc3164.
  abbrev only_rfc3164 :
      (Machine3164.Config Location → Machine3164.Config Location) → MachineOption Location
  only_rfc3164 f = record { on_rfc3164 = λ m. returned (f m); on_rfc5424 = λ m. panicked m }

  -- An option that asserts `m.(*machine)` of rfc5424.
  abbrev only_rfc5424 : (Machine5424.Config → Machine5424.Config) → MachineOption Location
  only_rfc5424 f = record { on_rfc3164 = λ m. panicked m; on_rfc5424 = λ m. returned (f m) }

  -- `WithBestEffort` of both packages: it goes through the interface.
  abbrev pub with_best_effort : MachineOption Location
  with_best_effort = record {
    on_rfc3164 = λ m. returned (Machine3164.with_best_effort m);
    on_rfc5424 = λ m. returned (Machine5424.with_best_effort m);
  }

  abbrev pub with_year : ℤ → YearOperator → MachineOption Location
  with_year now o = only_rfc3164 (Machine3164.with_year now o)

  abbrev pub with_timezone : Option Location → MachineOption Location
  with_timezone loc = only_rfc3164 (Machine3164.with_timezone loc)

  abbrev pub with_locale_timezone : Option Location → MachineOption Location
  with_locale_timezone loc = only_rfc3164 (Machine3164.with_locale_timezone loc)

  abbrev pub with_lenient_day : MachineOption Location
  with_lenient_day = only_rfc3164 Machine3164.with_lenient_day

  abbrev pub with_embedded_newlines : MachineOption Location
  with_embedded_newlines = only_rfc3164 Machine3164.with_embedded_newlines

  abbrev pub with_rfc3339 : MachineOption Location
  with_rfc3339 = only_rfc3164 Machine3164.with_rfc3339

  abbrev pub with_second_fractions : MachineOption Location
  with_second_fractions = only_rfc3164 Machine3164.with_second_fractions

  abbrev pub with_message_counter : MachineOption Location
  with_message_counter = only_rfc3164 Machine3164.with_message_counter

  abbrev pub with_sequence_number : MachineOption Location
  with_sequence_number = only_rfc3164 Machine3164.with_sequence_number

  abbrev pub with_cisco_hostname : MachineOption Location
  with_cisco_hostname = only_rfc3164 Machine3164.with_cisco_hostname

  -- `WithOptionalPriority` of rfc3164, and of rfc5424.
  abbrev pub with_optional_priority_rfc3164 : MachineOption Location
  with_optional_priority_rfc3164 = only_rfc3164 Machine3164.with_optional_priority

  abbrev pub with_optional_priority_rfc5424 : MachineOption Location
  with_optional_priority_rfc5424 = only_rfc5424 Machine5424.with_optional_priority

  abbrev pub with_compliant_msg : MachineOption Location
  with_compliant_msg = only_rfc5424 Machine5424.with_compliant_msg

  -- The four steps of `WithCiscoIOSComponents`.
  abbrev unless :
      Bool
      → (Machine3164.Config Location → Machine3164.Config Location)
      → Machine3164.Config Location
      → Machine3164.Config Location
  unless true f m = f m
  unless false f m = m

  unfoldable pub components : ℕ → Machine3164.Config Location → Machine3164.Config Location
  components flags m =
      let m1 = unless (lacks flags disable_message_counter) Machine3164.with_message_counter m in
      let m2 = unless (lacks flags disable_sequence_number) Machine3164.with_sequence_number m1 in
      let m3 = unless (lacks flags disable_hostname) Machine3164.with_cisco_hostname m2 in
      unless (lacks flags disable_second_fractions) Machine3164.with_second_fractions m3

  -- With every component disabled no assertion is made, so nothing panics.
  abbrev pub with_cisco_ios_components : ℕ → MachineOption Location
  with_cisco_ios_components flags = record {
    on_rfc3164 = λ m. returned (components flags m);
    on_rfc5424 = λ m. if flags % 16 == 15 then returned m else panicked m;
  }
