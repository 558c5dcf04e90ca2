-- ===== src/Rfc3195/Raw.antt =====
-- rfc3195/raw.go: the RAW profile. A syslog message is the payload of an ANS frame, with a CRLF
-- behind it; a NUL frame or an ERR frame ends the exchange. Errors are values that carry the
-- arguments of the messages.
pub mod Laws
use go_syslog.Base.{
  Option, none, some, List, [], ◌∷◌, ◌++◌, Bytes, Bool, true, false, not, ◌&&◌, if◌then◌else◌,
}
use go_syslog.Base.Int.{ℤ, pos}
use go_syslog.Options.{Parser, ParserOption, configure}
use go_syslog.Reader.{trim_crlf}
use go_syslog.Syslog.{Machine, Result}
use go_syslog.Machines.{MachineOption, new_rfc3164, new_rfc5424}
use go_syslog.Machines.Library as Library
use go_syslog.Rfc3164.Machine as Machine3164
use go_syslog.Rfc5424.Machine as Machine5424
use go_syslog.Rfc3195.Frame.{Frame, FrameType, FrameError, msg, rpy, err_type, ans, nul, seq}
use go_syslog.Rfc3195.Loop as Loop

pub data RawError (E : Type 0) : Type 0 where
  scan_error : FrameError → RawError E
  err_frame : Bytes → RawError E
  inner : E → RawError E

-- The fields of `parser`, less its listener; `I` is the type of the machine inside.
pub record RawParser (Location I : Type 0) : Type 0 where
  pub best_effort : Bool
  pub max_message_length : ℤ
  pub internal : Option I
  pub internal_opts : List (MachineOption Location)

module _ {Location I : Type 0} where
  -- The parser behind `&parser{…}`, and the setters that its options call.
  abbrev pub initial : RawParser Location I
  initial = record {
    best_effort = false;
    max_message_length = pos 0;
    internal = none;
    internal_opts = [];
  }

  abbrev pub with_best_effort : RawParser Location I → RawParser Location I
  with_best_effort p = record p { best_effort = true }

  abbrev pub has_best_effort : RawParser Location I → Bool
  has_best_effort p = p.best_effort

  abbrev pub with_machine_options :
      List (MachineOption Location) → RawParser Location I → RawParser Location I
  with_machine_options opts p = record p { internal_opts = p.internal_opts ++ opts }

  abbrev pub with_max_message_length : ℤ → RawParser Location I → RawParser Location I
  with_max_message_length n p = record p { max_message_length = n }

  -- The parser as the options see it; it does not implement `AutoParserConfigurer`.
  abbrev pub configurable : Parser Location (RawParser Location I)
  configurable = record {
    with_best_effort = with_best_effort;
    with_machine_options = with_machine_options;
    with_max_message_length = with_max_message_length;
    auto = none;
  }

  -- The end of both constructors, with `best` the option of the package of the machine.
  abbrev build :
      MachineOption Location
      → (List (MachineOption Location) → Option I)
      → RawParser Location I
      → RawParser Location I
  build best new p =
      let opts : List (MachineOption Location) =
        if p.best_effort then p.internal_opts ++ (best ∷ []) else p.internal_opts in
      record p { internal_opts = opts; internal = new opts }

module _ {Location : Type 0} where
  -- `NewParser` and `NewParserRFC3164`; a machine that is missing is a constructor that panicked.
  unfoldable pub new_parser :
      List (ParserOption Location (RawParser Location Machine5424.Config))
      → RawParser Location Machine5424.Config
  new_parser opts = build Library.with_best_effort new_rfc5424 (configure configurable opts initial)

  unfoldable pub new_parser_rfc3164 :
      List (ParserOption Location (RawParser Location (Machine3164.Config Location)))
      → RawParser Location (Machine3164.Config Location)
  new_parser_rfc3164 opts =
      build Library.with_best_effort new_rfc3164 (configure configurable opts initial)

module _ {M E : Type 0} (best_effort : Bool) (internal : Machine M E) where
  -- The result of a message, without the message if it has an error and best effort is off.
  abbrev pub result_of : Option M × Option E → Result M (RawError E)
  result_of (m, none) = record { message = m; error = none }
  result_of (m, some e) = record {
    message = (if not best_effort then none else m);
    error = some (inner e);
  }

  abbrev emit_of : Bytes → List (Result M (RawError E))
  emit_of [] = []
  emit_of (b ∷ bs) = result_of (internal.parse (b ∷ bs)) ∷ []

  -- `processANS`.
  unfoldable pub process_ans : Frame → List (Result M (RawError E))
  process_ans frame = emit_of (trim_crlf frame.payload)

  abbrev failure : RawError E → Result M (RawError E)
  failure e = record { message = none; error = some e }

  -- What the loop does with a frame, by its type: what it emits, and whether it reads on.
  abbrev handle_type : FrameType → Frame → List (Result M (RawError E)) × Bool
  handle_type ans frame = (process_ans frame, true)
  handle_type nul frame = ([], false)
  handle_type err_type frame = (failure (err_frame frame.payload) ∷ [], false)
  handle_type seq frame = ([], true)
  handle_type msg frame = ([], true)
  handle_type rpy frame = ([], true)

  abbrev pub handle : Frame → List (Result M (RawError E)) × Bool
  handle frame = handle_type frame.typ frame

  abbrev pub report : FrameError → Result M (RawError E)
  report e = failure (scan_error e)

  -- `Parse`.
  unfoldable pub parse : ℤ → Bytes → Option (List (Result M (RawError E)))
  parse max_message_length source = Loop.parse handle report max_message_length source
