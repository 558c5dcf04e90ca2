-- ===== src/Options.antt =====
-- options.go, and the part of auto/options.go that reaches a framing parser: the options of the
-- parsers, over the setters that a parser has. `P` is the type of the parsers of one package.
use go_syslog.Base.{Option, none, some, List, [], ◌∷◌}
use go_syslog.Base.Int.{ℤ}
use go_syslog.Machines.{MachineOption}

-- `AutoParserConfigurer`.
pub record AutoParserConfigurer (Location P : Type 0) : Type 0 where
  pub set_rfc3164_options : List (MachineOption Location) → P → P
  pub set_rfc5424_options : List (MachineOption Location) → P → P
  pub set_no_fallback : P → P

-- The setters of `Parser`, and those of `AutoParserConfigurer` if the type has them. `WithListener`
-- is left out: what the listener is handed is the list that `Parse` gives.
pub record Parser (Location P : Type 0) : Type 0 where
  pub with_best_effort : P → P
  pub with_machine_options : List (MachineOption Location) → P → P
  pub with_max_message_length : ℤ → P → P
  pub auto : Option (AutoParserConfigurer Location P)

-- `ParserOption`: those of syslog, those of auto, and those of the parser's own package.
pub data ParserOption (Location P : Type 0) : Type 0 where
  best_effort without_parser_fallback : ParserOption Location P
  max_message_length : ℤ → ParserOption Location P
  machine_options rfc3164_machine_options rfc5424_machine_options :
      List (MachineOption Location) → ParserOption Location P
  own : (P → P) → ParserOption Location P

module _ {Location P : Type 0} (parser : Parser Location P) where
  abbrev with_auto :
      (AutoParserConfigurer Location P → P → P) → Option (AutoParserConfigurer Location P) → P → P
  with_auto set none p = p
  with_auto set (some ap) p = set ap p

  -- The call of an option.
  unfoldable pub apply : ParserOption Location P → P → P
  apply best_effort p = parser.with_best_effort p
  apply (max_message_length length) p = parser.with_max_message_length length p
  apply (machine_options opts) p = parser.with_machine_options opts p
  apply (rfc3164_machine_options opts) p =
      with_auto (λ ap. ap.set_rfc3164_options opts) parser.auto p
  apply (rfc5424_machine_options opts) p =
      with_auto (λ ap. ap.set_rfc5424_options opts) parser.auto p
  apply without_parser_fallback p = with_auto (λ ap. ap.set_no_fallback) parser.auto p
  apply (own set) p = set p

  -- The loop over the options that every constructor starts with.
  unfoldable pub configure : List (ParserOption Location P) → P → P
  configure [] p = p
  configure (opt ∷ opts) p = configure opts (apply opt p)
