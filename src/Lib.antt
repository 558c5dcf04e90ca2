-- ===== src/Lib.antt =====
-- go-syslog: models of its parsers of syslog messages, and what they guarantee.
--
-- The program has three layers. The message machines (rfc5424, rfc3164, and auto, which tries both)
-- turn the bytes of one message into a message and an error. The framing parsers (octetcounting,
-- nontransparent and rfc3195) cut a stream into messages, give each to a machine, and hand a result
-- for each to a listener. The builder of rfc5424 makes messages and prints them. What the layers share
-- stands in syslog.go and in common.
--
-- The files, and what they model:
--   Base, Base/*          lists, tests and results that the other files share
--   Strconv, Strconv/*    strconv.ParseUint in base ten and strconv.Atoi, by their documentation
--   Reader                bufio.Reader and io.ReadFull as far as the program calls them
--   Common, Common/*      common/functions.go, common/facility.go, common/severity.go
--   Syslog, Syslog/*      syslog.go: Machine, Result and Base
--   Rfc5424, Rfc5424/*    rfc5424/syslog_message.go, machine.go (Machine for what stands around its
--                         automaton, Automaton for the automaton itself), options.go, parser.go and
--                         builder.go with its automaton (Builder, and Grammar for what it recognises)
--   Rfc3164, Rfc3164/*    rfc3164/syslog_message.go, year.go, and machine.go and parser.go around the
--                         generated automaton
--   Machines, Machines/*  rfc3164/options.go, rfc5424/options.go, ciscoios/flags.go and the loops of
--                         the two constructors NewMachine
--   Options               options.go, and the options of auto/options.go for framing parsers
--   Auto, Auto/*          auto/detect.go, format.go, errors.go, machine.go and options.go, and the auto
--                         machine inside a framing parser (Transport)
--   Rfc3195, Rfc3195/*    rfc3195/frame.go, raw.go, cooked.go and cooked_message.go
--   OctetCounting, ...    octetcounting/tokens.go, scanner.go and parser.go
--   Nontransparent, ...   nontransparent/parser.go, parser_auto.go and trailer_type.go
-- A module Tests holds runs on concrete inputs and applies the theorems to them.
--
-- State is passed explicitly: a setter or a method that changes its receiver is a function from the
-- receiver to the receiver. What a parser emits to its listener is the list of its results. Errors
-- are values that carry the arguments of their messages. A text is the list of its bytes. An option
-- of a machine may panic on a machine of the wrong package, so it yields an Effect; a constructor
-- that does not recover from that yields `none`. The mutex of the two parsers of messages is not
-- modelled: a call is a function.
--
-- Numbers are natural numbers. Where an `int` may wrap around, its 64 bits are kept by `% 2 ^ 64` and
-- read as a signed number by `to_int`, and an `int` that may be negative, as the limits are, is an
-- integer. What a theorem says is emitted is written out apart from the model's own functions, as in
-- OctetCounting/Parser/Results and Auto/Machine/Tiers. The loops of Parse run on
-- fuel, one more than the bytes of the input: every round that another follows takes a byte, and the
-- theorems on totality show that the fuel is enough.
--
-- The driver of the nontransparent parser is another package, leodido/ragel-machinery: it calls Exec,
-- OnErr, OnEOF and OnCompletion, and its work on a stream is a sequence of these calls, which stands
-- in the statements. A Go map is an association list in which a key is found once, in the order of its
-- assignments. A call of the builder that would panic, on a pointer to a map that is nil, on an
-- element that is missing or on a slice out of range, yields `none`. A nil map that code outside the
-- package stores behind that pointer, or as an element, is taken for an empty one.
--
-- The automata of rfc5424 are modelled from the generated Go code. Its states fall into parts: a chain
-- of states that counts the bytes of a field is a recursion on the number of bytes that may follow,
-- and the rest are data types of states. In the parser an error ends a run: the state that skips the
-- rest of the line leads nowhere else. The name of the element and of the parameter that a run starts
-- with are what an earlier message left, so they are arguments.
--
-- Not modelled: the automaton that ragel generates for rfc3164/machine.go, which stands as a parameter
-- that says what a run leaves behind; the text of an error of time.Parse; readers that fail otherwise
-- than by ending; and the helpers for tests.
pub mod Base
pub mod Strconv
pub mod Reader
pub mod Common
pub mod Syslog
pub mod Rfc5424
pub mod Rfc3164
pub mod Machines
pub mod Options
pub mod Auto
pub mod Rfc3195
pub mod OctetCounting
pub mod Nontransparent
