-- ===== src/OctetCounting/Settings.antt =====
-- The setters and the constructors of octetcounting/parser.go, and the options of options.go and
-- auto/options.go that call the setters. The listener is left out: what it is handed is the list
-- that `Parse` gives. A constructor that yields no machine is one that panicked.
pub mod Laws
use go_syslog.Base.{Option, none, some, List, [], ◌∷◌, ◌++◌, Bool, true, false, if◌then◌else◌}
use go_syslog.Base.Int.{ℤ, pos}
use go_syslog.Machines.{MachineOption, new_rfc3164, new_rfc5424}
use go_syslog.Machines.Library as Library
use go_syslog.Rfc3164.Machine as Machine3164
use go_syslog.Rfc5424.Machine as Machine5424
use go_syslog.Options.{Parser, ParserOption, configure}
use go_syslog.Auto.Machine.{Auto, safe_machine_options}
use go_syslog.Auto.Transport.{transport_machine}
use go_syslog.OctetCounting.Scanner.{default_max_size}

-- The fields of `parser` that its options set.
pub record Settings (Location : Type 0) : Type 0 where
  pub max_message_length : ℤ
  pub best_effort : Bool
  pub internal_opts : List (MachineOption Location)
  pub rfc3164_opts : List (MachineOption Location)
  pub rfc5424_opts : List (MachineOption Location)
  pub no_fallback : Bool

module _ {Location : Type 0} where
  -- `&parser{…}`.
  abbrev pub defaults : Settings Location
  defaults = record {
    max_message_length = pos default_max_size;
    best_effort = false;
    internal_opts = [];
    rfc3164_opts = [];
    rfc5424_opts = [];
    no_fallback = false;
  }

  -- The setters, by the names of the source.
  abbrev pub set_rfc3164_options :
      List (MachineOption Location) → Settings Location → Settings Location
  set_rfc3164_options opts p = record p { rfc3164_opts = p.rfc3164_opts ++ opts }

  abbrev pub set_rfc5424_options :
      List (MachineOption Location) → Settings Location → Settings Location
  set_rfc5424_options opts p = record p { rfc5424_opts = p.rfc5424_opts ++ opts }

  abbrev pub set_no_fallback : Settings Location → Settings Location
  set_no_fallback p = record p { no_fallback = true }

  abbrev pub with_best_effort : Settings Location → Settings Location
  with_best_effort p = record p { best_effort = true }

  abbrev pub with_machine_options :
      List (MachineOption Location) → Settings Location → Settings Location
  with_machine_options opts p = record p { internal_opts = p.internal_opts ++ opts }

  abbrev pub with_max_message_length : ℤ → Settings Location → Settings Location
  with_max_message_length length p = record p { max_message_length = length }

  -- The parser as the options see it.
  abbrev pub configurable : Parser Location (Settings Location)
  configurable = record {
    with_best_effort = with_best_effort;
    with_machine_options = with_machine_options;
    with_max_message_length = with_max_message_length;
    auto = some (record {
      set_rfc3164_options = set_rfc3164_options;
      set_rfc5424_options = set_rfc5424_options;
      set_no_fallback = set_no_fallback;
    });
  }

  -- The loop over the options, from which the three constructors go on.
  abbrev pub configured : List (ParserOption Location (Settings Location)) → Settings Location
  configured opts = configure configurable opts defaults

  -- `NewParser` behind its loop: the machine inside.
  unfoldable pub new_parser : Settings Location → Option Machine5424.Config
  new_parser p = new_rfc5424 (
      if p.best_effort then p.internal_opts ++ (Library.with_best_effort ∷ []) else p.internal_opts)

  -- `NewParserRFC3164` behind its loop.
  unfoldable pub new_parser_rfc3164 : Settings Location → Option (Machine3164.Config Location)
  new_parser_rfc3164 p =
      let opts : List (MachineOption Location) =
        if p.best_effort
        then p.internal_opts ++ (Library.with_best_effort ∷ [])
        else p.internal_opts in
      new_rfc3164 (opts ++ (Library.with_embedded_newlines ∷ []))

  -- The options that `NewParserAuto` gives to the two formats.
  abbrev pub opts3164 : Settings Location → List (MachineOption Location)
  opts3164 p =
      Library.with_embedded_newlines ∷ (safe_machine_options p.internal_opts ++ p.rfc3164_opts)

  abbrev pub opts5424 : Settings Location → List (MachineOption Location)
  opts5424 p = safe_machine_options p.internal_opts ++ p.rfc5424_opts

  -- `NewParserAuto` behind its loop.
  unfoldable pub new_parser_auto : Settings Location → Option (Auto Location)
  new_parser_auto p = transport_machine p.no_fallback p.best_effort (opts3164 p) (opts5424 p)
