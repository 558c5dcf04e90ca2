-- ===== src/Rfc5424/Machine/Laws.antt =====
-- What `Parse` of rfc5424/machine.go and of rfc5424/parser.go return around any automaton.
use go_syslog.Base.{◌≡◌, some, Bytes, true, arith}
use go_syslog.Rfc5424.Message.{SyslogMessage, valid, minimal-valid}
use go_syslog.Rfc5424.Machine.{Config, Run, finish, parse, guarded, locked_parse}

module _ {Time SD E : Type 0} (exec : Config → Bytes → Run Time SD E) where
  guarded-finish :
      (m : Config) (run : Run Time SD E) → guarded exec m (finish exec m run) ≡ finish exec m run
  guarded-finish m run = ground arith

  -- The parser with a mutex returns what its machine returns: the message that it would withhold
  -- in strict mode is not there in the first place.
  pub locked_parse-parse :
      (m : Config) (input : Bytes) → locked_parse exec m input ≡ parse exec m input
  unfolding locked_parse parse
  locked_parse-parse m input = guarded-finish m (exec m input)

  finish-partial :
      (m : Config) (run : Run Time SD E) (msg : SyslogMessage Time SD) (e : E)
      → finish exec m run ≡ (some msg, some e)
      → (m.best_effort ≡ true) × (valid msg ≡ true)
  finish-partial m run msg e h = ground (arith, minimal-valid run.output)

  -- A message that comes with an error comes from a machine in best effort mode, and is valid.
  pub parse-partial :
      (m : Config) (input : Bytes) (msg : SyslogMessage Time SD) (e : E)
      → parse exec m input ≡ (some msg, some e)
      → (m.best_effort ≡ true) × (valid msg ≡ true)
  unfolding parse
  parse-partial m input msg e h = finish-partial m (exec m input) msg e h
