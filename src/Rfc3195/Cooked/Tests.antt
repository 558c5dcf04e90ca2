-- ===== src/Rfc3195/Cooked/Tests.antt =====
-- An entry of the COOKED profile, with parameters that read no XML and every timestamp.
use go_syslog.Base.{ℕ, ◌≡◌, refl, Option, [], Bytes, codes, equal, Except, ok, err, arith}
use go_syslog.Base.Int.{ℤ}
use go_syslog.Strconv.{parse_uint, atoi, digits_loop}
use go_syslog.Strconv.Decimal.{decimal}
use go_syslog.Rfc5424.Message.{non_empty}
use go_syslog.Rfc3195.Cooked.{
  Entry, CookedMessage, CookedParser, initial, with_best_effort, with_priority, attribute, filled,
  process_entry,
}
use go_syslog.Rfc3195.Cooked.Laws.{
  message_for, IsCooked, accepted, process_entry-IsCooked, process_entry-decimal,
}

abbrev no_xml : Bytes → Except ℕ Entry
no_xml b = err 1

abbrev stamped : Option (Unit {0}) → Bytes → Except ℕ Bytes
stamped loc b = ok b

abbrev same_year : ℤ → Bytes → Bytes
same_year year b = b

abbrev entry : Entry
entry = record {
  name = codes "entry";
  facility = codes "80";
  severity = codes "6";
  timestamp = [];
  tag = codes "su";
  device_fqdn = [];
  device_ip = codes "10.0.0.1";
  path_id = [];
  content = codes "hello";
}

abbrev parser : CookedParser Unit
parser = with_best_effort initial

abbrev cooked : CookedMessage Bytes
cooked = filled entry (with_priority 80 6)

entry_processed : process_entry no_xml stamped same_year parser entry ≡ accepted cooked
unfolding process_entry attribute atoi parse_uint digits_loop filled non_empty equal
entry_processed = refl

process_entry-IsCooked_example : IsCooked cooked
process_entry-IsCooked_example =
    process_entry-IsCooked no_xml stamped same_year parser entry cooked entry_processed

decimal_80 : codes "80" ≡ decimal 80
unfolding decimal
decimal_80 = refl

decimal_6 : codes "6" ≡ decimal 6
unfolding decimal
decimal_6 = refl

process_entry-decimal_example :
    process_entry no_xml stamped same_year parser entry ≡ accepted (message_for entry 80 6)
process_entry-decimal_example =
    process_entry-decimal no_xml stamped same_year parser entry 80 6 decimal_80 decimal_6 refl
      (omega arith) (omega arith)
