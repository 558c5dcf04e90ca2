-- ===== src/Rfc3164/Machine/Laws.antt =====
-- What `Parse` of rfc3164/machine.go and of rfc3164/parser.go return around any automaton.
use go_syslog.Base.{◌≡◌, some, Bytes, true, arith}
use go_syslog.Rfc3164.Message.{valid, minimal-valid_rfc3164}
use go_syslog.Syslog.Message.{Base}
use go_syslog.Rfc3164.Machine.{Config, Run, finish, parse, guarded, locked_parse}

module _ {Location Time E : Type 0} (exec : Config Location → Bytes → Run Time E) where
  guarded-finish :
      (m : Config Location) (run : Run Time E)
      → guarded exec m (finish exec m run) ≡ finish exec m run
  guarded-finish m run = ground arith

  -- The parser with a mutex returns what its machine returns: the message that it would withhold
  -- in strict mode is not there in the first place.
  pub locked_parse-parse_rfc3164 :
      (m : Config Location) (input : Bytes) → locked_parse exec m input ≡ parse exec m input
  unfolding locked_parse parse
  locked_parse-parse_rfc3164 m input = guarded-finish m (exec m input)

  finish-partial :
      (m : Config Location) (run : Run Time E) (msg : Base Time) (e : E)
      → finish exec m run ≡ (some msg, some e)
      → (m.best_effort ≡ true) × (valid msg ≡ true)
  finish-partial m run msg e h = ground (arith, minimal-valid_rfc3164 run.output)

  -- A message that comes with an error comes from a machine in best effort mode, and is valid.
  pub parse-partial_rfc3164 :
      (m : Config Location) (input : Bytes) (msg : Base Time) (e : E)
      → parse exec m input ≡ (some msg, some e)
      → (m.best_effort ≡ true) × (valid msg ≡ true)
  unfolding parse
  parse-partial_rfc3164 m input msg e h = finish-partial m (exec m input) msg e h
