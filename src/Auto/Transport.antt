-- ===== src/Auto/Transport.antt =====
-- What octetcounting/parser.go and nontransparent/parser_auto.go have in common in `NewParserAuto`:
-- the auto machine inside, from the options for its two formats.
pub mod Laws
use go_syslog.Base.{Option, none, some, List, [], ◌∷◌, Bool, true, false, if◌then◌else◌}
use go_syslog.Machines.{MachineOption}
use go_syslog.Auto.Machine.{
  Auto, AutoOption, rfc3164_options, rfc5424_options, no_fallback_option, new_machine,
  with_best_effort,
}

module _ {Location : Type 0} where
  -- The options that are given to `auto.NewMachine`.
  abbrev pub auto_opts :
      Bool
      → List (MachineOption Location)
      → List (MachineOption Location)
      → List (AutoOption Location)
  auto_opts no_fallback opts3164 opts5424 =
      rfc3164_options opts3164
      ∷ rfc5424_options opts5424
      ∷ (if no_fallback then no_fallback_option ∷ [] else [])

  abbrev pub lenient : Bool → Option (Auto Location) → Option (Auto Location)
  lenient best none = none
  lenient best (some a) = if best then with_best_effort a else some a

  -- The machine inside; `none` is a panic.
  unfoldable pub transport_machine :
      Bool
      → Bool
      → List (MachineOption Location)
      → List (MachineOption Location)
      → Option (Auto Location)
  transport_machine no_fallback best opts3164 opts5424 =
      lenient best (new_machine (auto_opts no_fallback opts3164 opts5424))
