-- ===== src/Rfc5424/Automaton/Tests.antt =====
-- Messages that the automaton of rfc5424 reads.
use go_syslog.Base.{ℕ, ◌≡◌, refl, Option, none, some, [], ◌∷◌, Bytes, codes, equal}
use go_syslog.Rfc5424.Automaton.{parse_input}
use go_syslog.Rfc5424.Automaton.StructuredData.{Current}
use go_syslog.Base.{length}
use go_syslog.Rfc5424.Automaton.Columns.Run.{InColumns, parse_input-InColumns}
use go_syslog.Rfc5424.Automaton.Sound.{IsValid, parse_input-IsValid}
use go_syslog.Common.{valid_version, valid_priority}
use go_syslog.Rfc5424.Automaton.Steps.{ErrorKind, err_sd_id}
use go_syslog.Rfc5424.Builder.Store.{Elements}
use go_syslog.Rfc5424.Machine.{initial, with_best_effort}
use go_syslog.Rfc5424.Message.{SyslogMessage, minimal, export, present, non_empty}
use go_syslog.Common.Escape.{remove_loop}
use go_syslog.Syslog.Message.{empty}

-- Every text is a timestamp.
abbrev any_time : Bytes → Option Bytes
any_time text = some text

abbrev nothing : Current
nothing = record { elem = []; param = [] }

abbrev full : Bytes
full = codes "<34>1 2003-10-11T22:14:15.003Z host app 12 - [id a=\"y\" b=\"x\\]\"][k] m n"

abbrev full_message : SyslogMessage Bytes Elements
full_message = record {
  base = record empty {
    priority = some 34;
    facility = some 4;
    severity = some 2;
    timestamp = some (codes "2003-10-11T22:14:15.003Z");
    hostname = some (codes "host");
    appname = some (codes "app");
    proc_id = some (codes "12");
    message = some (codes "m n");
  };
  version = 1;
  structured_data =
      some (
        (codes "id", (codes "a", codes "y") ∷ (codes "b", codes "x]") ∷ []) ∷ (codes "k", []) ∷ []);
}

parse-full : parse_input any_time [] initial nothing full ≡ some (some full_message, none)
unfolding parse_input equal remove_loop export present non_empty
parse-full = refl

-- A second element that ends badly takes the first one with it.
parse-lost :
    parse_input any_time []
      (with_best_effort initial)
      nothing
      (codes "<34>1 - - - - - [id a=\"y\"][")
    ≡ some (
      some (record full_message {
        base = record empty { priority = some 34; facility = some 4; severity = some 2 };
        structured_data = none;
      }),
      some (err_sd_id, 27),
    )
unfolding parse_input equal remove_loop export present non_empty minimal valid_version
    valid_priority
parse-lost = refl

parse_input-IsValid_example :
    (result : Option (SyslogMessage Bytes Elements) × Option (ErrorKind × ℕ)) × (parse_input
        any_time [] initial nothing full
      ≡ some result)
    × IsValid any_time [] result
parse_input-IsValid_example = parse_input-IsValid any_time [] initial nothing full

parse_input-InColumns_example :
    (result : Option (SyslogMessage Bytes Elements) × Option (ErrorKind × ℕ)) × (parse_input
        any_time [] initial nothing full
      ≡ some result)
    × InColumns (length full) result.1
parse_input-InColumns_example = parse_input-InColumns any_time [] initial nothing full
