-- ===== src/OctetCounting/Tests.antt =====
-- Runs of the octet counting parser.
use go_syslog.Base.{
  ◌-◌, ◌^◌, arith, All, ℕ, Option, none, some, List, [], ◌∷◌, Bytes, codes, Bool, true, false, ◌≡◌,
  refl, equal, if◌then◌else◌,
}
use go_syslog.Base.Int.{pos}
use go_syslog.Syslog.{Machine, Result}
use go_syslog.OctetCounting.Tokens.{illegal}
use go_syslog.OctetCounting.Scanner.{
  Scanner, new_scanner, scan, scan_byte, scan_msg_len, scan_syslog_msg, digit_run,
}
use go_syslog.OctetCounting.Parser.Results.{Frame, IsFramable, framable, encode, results}
use go_syslog.OctetCounting.Parser.Stream.{parse_stream-encode}
use go_syslog.OctetCounting.Parser.Termination.{parse_stream_total}
use go_syslog.Base.{◌⊎◌}
use go_syslog.Machines.{new_rfc3164, new_rfc5424, apply_all}
use go_syslog.Machines.Library as Library
use go_syslog.Rfc3164.Machine as Machine3164
use go_syslog.Rfc5424.Machine as Machine5424
use go_syslog.Auto.Machine.{Auto}
use go_syslog.Auto.Machine.Safe.{Built}
use go_syslog.OctetCounting.Settings.{
  Settings, defaults, new_parser, new_parser_rfc3164, new_parser_auto,
}
use go_syslog.OctetCounting.Settings.Laws.{new_parser_rfc3164-newline, new_parser_auto-Built}
use go_syslog.Strconv.{parse_uint}
use go_syslog.Reader.{peek, discard}
use go_syslog.OctetCounting.Parser.{
  Parser, ParseError, parse_stream, too_large, run, round, next, parse, illegal_error,
}

-- A machine that takes every text but "<bad" as it stands.
abbrev pub accepting : Bool → Machine Bytes ℕ
accepting best = record {
  parse = λ b. if equal b (codes "<bad") then (none, some 7) else (some b, none);
  has_best_effort = best;
}

abbrev pub start : Bool → Parser Bytes ℕ
start best = record {
  max_message_length = pos 100;
  s = new_scanner none [] (pos 100);
  internal = accepting best;
  last = record { typ = illegal; lit = [] };
  stepback = false;
  strip_trailing_nl = true;
}

abbrev outcomes :
    Option (List (Result Bytes (ParseError ℕ)) × Parser Bytes ℕ)
    → Option (List (Result Bytes (ParseError ℕ)))
outcomes none = none
outcomes (some (out, _)) = some out

abbrev message_of : Bytes → Result Bytes (ParseError ℕ)
message_of b = record { message = some b; error = none }

abbrev failed : ParseError ℕ → Result Bytes (ParseError ℕ)
failed e = record { message = none; error = some e }

two_frames :
    outcomes (parse_stream none (start false) (codes "4 <1>a\n5 <2>b\n"))
    ≡ some (message_of (codes "<1>a") ∷ message_of (codes "<2>b") ∷ [])
unfolding parse_stream run round next parse illegal_error scan scan_byte scan_msg_len
    scan_syslog_msg digit_run new_scanner parse_uint peek discard equal
two_frames = refl

too_long :
    outcomes (parse_stream none (start false) (codes "101 <1>a"))
    ≡ some (failed (too_large 101 (pos 100)) ∷ [])
unfolding parse_stream run round next parse illegal_error scan scan_byte scan_msg_len
    scan_syslog_msg digit_run new_scanner parse_uint peek discard equal
too_long = refl

abbrev frames : List Frame
frames = (codes "<2>b", false) ∷ (codes "<bad", true) ∷ []

frames-IsFramable : All (λ (g : Frame). IsFramable 100 g.0) ((codes "<1>a", true) ∷ frames)
frames-IsFramable = (framable (omega arith), (framable (omega arith), (framable (omega arith), tt)))

parse_stream-encode_example :
    (p' : Parser Bytes ℕ) × (parse_stream none
        (start false)
        (encode ((codes "<1>a", true) ∷ frames))
      ≡ some (results (accepting false) true ((codes "<1>a", true) ∷ frames), p'))
    × (p'.stepback ≡ false)
parse_stream-encode_example =
    parse_stream-encode none (start false) 99 (codes "<1>a", true) frames refl refl (omega arith)
      frames-IsFramable

parse_stream_total_example :
    (r : List (Result Bytes (ParseError ℕ)) × Parser Bytes ℕ) × (parse_stream
        (some 40)
        (start true)
        (codes "4 <1>a\n7 <2>")
      ≡ some r)
parse_stream_total_example = parse_stream_total (some 40) (start true) (codes "4 <1>a\n7 <2>")

abbrev at_length : Scanner
at_length = new_scanner none (codes "12 <1>abcdefghi") (pos 100)

-- With the largest limit, the size of the buffer wraps around, and the buffer is the smallest.
buffer_wrapped : (new_scanner none [] (pos (2 ^ 63 - 1))).r.size ≡ 16
unfolding new_scanner
buffer_wrapped = refl

-- Settings with an option that panics on an rfc5424 machine among the generic ones.
abbrev settings : Settings Unit
settings = record defaults {
  best_effort = true;
  internal_opts = Library.with_rfc3339 ∷ [];
  rfc5424_opts = Library.with_compliant_msg ∷ [];
}

new_parser_auto-Built_example :
    (a : Auto Unit) × (new_parser_auto settings ≡ some a)
    × Built a
    × ((settings.best_effort ≡ false) ⊎ (a.best_effort ≡ true))
new_parser_auto-Built_example =
    new_parser_auto-Built settings tt ((λ m. (Machine5424.with_compliant_msg m, refl)), tt)

abbrev built3164 : Machine3164.Config Unit
built3164 = record Machine3164.initial { best_effort = true; rfc3339 = true; newline = true }

settings_rfc3164 : new_parser_rfc3164 settings ≡ some built3164
unfolding new_parser_rfc3164 new_rfc3164 apply_all
settings_rfc3164 = refl

new_parser_rfc3164-newline_example :
    (built3164.newline ≡ true) × ((settings.best_effort ≡ false) ⊎ (built3164.best_effort ≡ true))
new_parser_rfc3164-newline_example = new_parser_rfc3164-newline settings built3164 settings_rfc3164

abbrev compliant : Settings Unit
compliant = record defaults { best_effort = true; internal_opts = Library.with_compliant_msg ∷ [] }

abbrev built5424 : Machine5424.Config
built5424 = record { best_effort = true; compliant_msg = true; optional_priority = false }

compliant_rfc5424 : new_parser compliant ≡ some built5424
unfolding new_parser new_rfc5424 apply_all
compliant_rfc5424 = refl
