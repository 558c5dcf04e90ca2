-- ===== src/Rfc3164/Tests.antt =====
-- Messages of rfc3164 from an automaton that always stops behind the header.
use go_syslog.Base.{ℕ, ◌≡◌, refl, some, [], Bytes, codes, true, false}
use go_syslog.Common.{valid_priority}
use go_syslog.Rfc3164.Message.{Draft, minimal, export, valid, minimal-valid_rfc3164}
use go_syslog.Rfc3164.Machine.{Config, Run, initial, with_best_effort, parse}
use go_syslog.Rfc3164.Machine.Laws.{parse-partial_rfc3164}

abbrev header : Draft Unit
header = record {
  priority_set = true;
  timestamp_set = false;
  msgcount_set = false;
  sequence_set = true;
  priority_optional = false;
  priority = 34;
  msgcount = 0;
  sequence = 12;
  timestamp = tt;
  hostname = codes "-";
  tag = codes "su";
  content = [];
  message = [];
}

header-minimal : minimal header ≡ true
unfolding minimal valid_priority
header-minimal = refl

minimal-valid_rfc3164_example : valid (export header) ≡ true
minimal-valid_rfc3164_example = minimal-valid_rfc3164 header header-minimal

abbrev stops : Config Unit → Bytes → Run Unit ℕ
stops m input = record { final = false; output = header; err = some 5 }

parse_stops :
    parse stops (with_best_effort initial) (codes "<34>1 - su") ≡ (some (export header), some 5)
unfolding parse minimal valid_priority
parse_stops = refl

parse-partial_rfc3164_example :
    ((with_best_effort {Location = Unit} initial).best_effort ≡ true)
    × (valid (export header) ≡ true)
parse-partial_rfc3164_example =
    parse-partial_rfc3164 stops (with_best_effort initial) (codes "<34>1 - su") (export header) 5
      parse_stops
