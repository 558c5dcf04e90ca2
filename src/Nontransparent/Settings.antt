-- ===== src/Nontransparent/Settings.antt =====
-- The setters and the constructors of nontransparent/parser.go and parser_auto.go. A constructor
-- that yields no machine is one that panicked.
pub mod Laws
use go_syslog.Base.{ℕ, Option, none, some, List, [], ◌∷◌, ◌++◌, Bool, true, false, if◌then◌else◌}
use go_syslog.Base.Int.{ℤ}
use go_syslog.Machines.{MachineOption, new_rfc3164, new_rfc5424}
use go_syslog.Machines.Library as Library
use go_syslog.Rfc3164.Machine as Machine3164
use go_syslog.Rfc5424.Machine as Machine5424
use go_syslog.Options.{Parser, ParserOption, configure}
use go_syslog.Auto.Machine.{Auto, safe_machine_options}
use go_syslog.Auto.Transport.{transport_machine}
use go_syslog.Nontransparent.Trailer.{TrailerType, lf, value}

-- The fields of `machine` that its options set.
pub record Settings (Location : Type 0) : Type 0 where
  pub trailertyp : TrailerType
  pub trailer : ℕ
  pub best_effort : Bool
  pub internal_opts : List (MachineOption Location)
  pub rfc3164_opts : List (MachineOption Location)
  pub rfc5424_opts : List (MachineOption Location)
  pub no_fallback : Bool

-- `byte(trailer)`, where `Value` yields -1 with its error.
abbrev byte_or : Option ℕ → ℕ
byte_or none = 255
byte_or (some b) = b

module _ {Location : Type 0} where
  -- `&machine{…}`.
  abbrev pub defaults : Settings Location
  defaults = record {
    trailertyp = lf;
    trailer = 0;
    best_effort = false;
    internal_opts = [];
    rfc3164_opts = [];
    rfc5424_opts = [];
    no_fallback = false;
  }

  -- The setters, by the names of the source.
  abbrev pub set_rfc3164_options :
      List (MachineOption Location) → Settings Location → Settings Location
  set_rfc3164_options opts m = record m { rfc3164_opts = m.rfc3164_opts ++ opts }

  abbrev pub set_rfc5424_options :
      List (MachineOption Location) → Settings Location → Settings Location
  set_rfc5424_options opts m = record m { rfc5424_opts = m.rfc5424_opts ++ opts }

  abbrev pub set_no_fallback : Settings Location → Settings Location
  set_no_fallback m = record m { no_fallback = true }

  abbrev pub with_best_effort : Settings Location → Settings Location
  with_best_effort m = record m { best_effort = true }

  abbrev pub with_machine_options :
      List (MachineOption Location) → Settings Location → Settings Location
  with_machine_options opts m = record m { internal_opts = m.internal_opts ++ opts }

  abbrev pub with_max_message_length : ℤ → Settings Location → Settings Location
  with_max_message_length length m = m

  abbrev set_trailer : TrailerType → Option ℕ → Settings Location → Settings Location
  set_trailer t none m = m
  set_trailer t (some b) m = record m { trailer = b; trailertyp = t }

  -- `WithTrailer`: an unknown type is ignored.
  abbrev pub with_trailer : TrailerType → ParserOption Location (Settings Location)
  with_trailer t = ParserOption.own (set_trailer t (value t))

  -- The parser as the options see it.
  abbrev pub configurable : Parser Location (Settings Location)
  configurable = record {
    with_best_effort = with_best_effort;
    with_machine_options = with_machine_options;
    with_max_message_length = with_max_message_length;
    auto = some (record {
      set_rfc3164_options = set_rfc3164_options;
      set_rfc5424_options = set_rfc5424_options;
      set_no_fallback = set_no_fallback;
    });
  }

  -- What the three constructors do first: the options, and the byte of the trailer.
  unfoldable pub configured : List (ParserOption Location (Settings Location)) → Settings Location
  configured opts =
      let m = configure configurable opts defaults in
      record m { trailer = byte_or (value m.trailertyp) }

  -- The options of the machine in `NewParser` and in `NewParserRFC3164`.
  abbrev pub internal_opts_of : Settings Location → List (MachineOption Location)
  internal_opts_of m =
      if m.best_effort then m.internal_opts ++ (Library.with_best_effort ∷ []) else m.internal_opts

  -- The machine inside that `NewParser` builds.
  unfoldable pub new_parser : Settings Location → Option Machine5424.Config
  new_parser m = new_rfc5424 (internal_opts_of m)

  -- The machine inside that `NewParserRFC3164` builds.
  unfoldable pub new_parser_rfc3164 : Settings Location → Option (Machine3164.Config Location)
  new_parser_rfc3164 m = new_rfc3164 (internal_opts_of m)

  -- The machine inside that `NewParserAuto` builds.
  unfoldable pub new_parser_auto : Settings Location → Option (Auto Location)
  new_parser_auto m =
      transport_machine m.no_fallback m.best_effort
        (safe_machine_options m.internal_opts ++ m.rfc3164_opts)
        (safe_machine_options m.internal_opts ++ m.rfc5424_opts)
