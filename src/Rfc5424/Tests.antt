-- ===== src/Rfc5424/Tests.antt =====
-- Messages of rfc5424 from an automaton that always stops behind the header.
use go_syslog.Base.{ℕ, ◌≡◌, refl, some, [], Bytes, codes, true, false}
use go_syslog.Common.{valid_priority, valid_version}
use go_syslog.Rfc5424.Message.{Draft, minimal, export, valid, minimal-valid}
use go_syslog.Rfc5424.Machine.{Config, Run, initial, with_best_effort, parse}
use go_syslog.Rfc5424.Machine.Laws.{parse-partial}

abbrev header : Draft Unit Unit
header = record {
  priority_set = true;
  priority_optional = false;
  timestamp_set = false;
  has_elements = false;
  priority = 34;
  version = 1;
  timestamp = tt;
  hostname = codes "-";
  appname = codes "su";
  proc_id = [];
  msg_id = [];
  structured_data = tt;
  message = [];
}

header-minimal : minimal header ≡ true
unfolding minimal valid_version valid_priority
header-minimal = refl

minimal-valid_example : valid (export header) ≡ true
minimal-valid_example = minimal-valid header header-minimal

abbrev stops : Config → Bytes → Run Unit Unit ℕ
stops m input = record { final = false; output = header; err = some 5 }

parse_stops :
    parse stops (with_best_effort initial) (codes "<34>1 - su") ≡ (some (export header), some 5)
unfolding parse minimal valid_version valid_priority
parse_stops = refl

parse-partial_example :
    ((with_best_effort initial).best_effort ≡ true) × (valid (export header) ≡ true)
parse-partial_example =
    parse-partial stops (with_best_effort initial) (codes "<34>1 - su") (export header) 5
      parse_stops
