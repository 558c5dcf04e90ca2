-- ===== src/Rfc3195/Cooked.antt =====
-- rfc3195/cooked.go and rfc3195/cooked_message.go: the COOKED profile. A frame carries an XML
-- element, and an <entry> element carries a message. The decoder of encoding/xml, the parser of
-- timestamps of package time and the change of a timestamp's year are parameters. What is emitted
-- is a list of events: a result for the listener, or an element for the listener of raw elements.
mod Tests
pub mod Laws
use go_syslog.Base.{
  ℕ, ◌+◌, ◌*◌, ◌%◌, Option, none, some, List, [], ◌∷◌, Bytes, codes, Bool, true, false, not, ◌&&◌,
  ◌||◌, equal, ltb, leb, if◌then◌else◌, Except, ok, err,
}
use go_syslog.Base.Int.{ℤ, pos, negsuc, ltb_ℤ}
use go_syslog.Machines.{MachineOption}
use go_syslog.Options.{Parser, ParserOption, configure}
use go_syslog.Strconv.{atoi}
use go_syslog.Syslog.{Result}
use go_syslog.Syslog.Message.{Base, empty}
use go_syslog.Rfc5424.Message.{non_empty}
use go_syslog.Rfc3195.Frame.{Frame, FrameType, FrameError, msg, rpy, err_type, ans, nul, seq}
use go_syslog.Rfc3195.Loop as Loop

-- `xmlEntry`; `name` is the local name of the element.
pub record Entry : Type 0 where
  pub name : Bytes
  pub facility : Bytes
  pub severity : Bytes
  pub timestamp : Bytes
  pub tag : Bytes
  pub device_fqdn : Bytes
  pub device_ip : Bytes
  pub path_id : Bytes
  pub content : Bytes

-- `CookedMessage`.
pub record CookedMessage (Time : Type 0) : Type 0 where
  pub base : Base Time
  pub device_fqdn : Option Bytes
  pub device_ip : Option Bytes
  pub path_id : Option Bytes

-- The errors, over those of the XML decoder and of the parser of timestamps.
pub data CookedError (X T : Type 0) : Type 0 where
  scan_error : FrameError → CookedError X T
  err_frame invalid_facility invalid_severity : Bytes → CookedError X T
  invalid_xml : X → CookedError X T
  invalid_timestamp : Bytes → T → CookedError X T

-- What reaches one of the two listeners.
pub data Event (Time X T : Type 0) : Type 0 where
  result : Result (CookedMessage Time) (CookedError X T) → Event Time X T
  raw_element : Bytes → Bytes → Event Time X T

-- The fields of `cookedParser`, less its listeners; `raw_emit` says whether that of raw elements
-- is set.
pub record CookedParser (Location : Type 0) : Type 0 where
  pub best_effort : Bool
  pub max_message_length : ℤ
  pub raw_emit : Bool
  pub year : ℤ
  pub timezone : Option Location

module _ {Location : Type 0} where
  -- `&cookedParser{…}`, and the options and setters.
  abbrev pub initial : CookedParser Location
  initial = record {
    best_effort = false;
    max_message_length = pos 0;
    raw_emit = false;
    year = pos 0;
    timezone = none;
  }

  abbrev pub with_raw_element_listener : CookedParser Location → CookedParser Location
  with_raw_element_listener p = record p { raw_emit = true }

  abbrev pub with_cooked_year : ℤ → CookedParser Location → CookedParser Location
  with_cooked_year year p = if ltb_ℤ (pos 0) year then record p { year = year } else p

  abbrev pub with_cooked_timezone : Option Location → CookedParser Location → CookedParser Location
  with_cooked_timezone loc p = record p { timezone = loc }

  abbrev pub with_best_effort : CookedParser Location → CookedParser Location
  with_best_effort p = record p { best_effort = true }

  abbrev pub has_best_effort : CookedParser Location → Bool
  has_best_effort p = p.best_effort

  abbrev pub with_max_message_length : ℤ → CookedParser Location → CookedParser Location
  with_max_message_length length p = record p { max_message_length = length }

module _ {Location : Type 0} where
  -- `WithMachineOptions` does nothing: there is no machine inside.
  abbrev pub with_machine_options :
      List (MachineOption Location) → CookedParser Location → CookedParser Location
  with_machine_options opts p = p

  -- The parser as the options see it; it does not implement `AutoParserConfigurer`.
  abbrev pub configurable : Parser Location (CookedParser Location)
  configurable = record {
    with_best_effort = with_best_effort;
    with_machine_options = with_machine_options;
    with_max_message_length = with_max_message_length;
    auto = none;
  }

  -- `NewCookedParser`.
  unfoldable pub new_cooked_parser :
      List (ParserOption Location (CookedParser Location)) → CookedParser Location
  new_cooked_parser opts = configure configurable opts initial

-- An attribute that `Atoi` reads as a number from 0 to a maximum.
abbrev within : ℕ → Option ℤ → Option ℕ
within max none = none
within max (some (negsuc n)) = none
within max (some (pos n)) = if ltb max n then none else some n

unfoldable pub attribute : ℕ → Bytes → Option ℕ
attribute max s = within max (atoi s)

-- The hostname: the name of the device, or its address.
abbrev pub or_else : Option Bytes → Option Bytes → Option Bytes
or_else (some s) o = some s
or_else none o = o

module _ {Time : Type 0} where
  -- The message with its facility and its severity; the priority is a uint8, set only where the
  -- two fit it.
  abbrev pub with_priority : ℕ → ℕ → Base Time
  with_priority fac sev = record empty {
    facility = some fac;
    severity = some sev;
    priority = if leb fac 23 && leb sev 7 then some ((fac * 8 + sev) % 256) else none;
  }

  abbrev bare : Base Time → CookedMessage Time
  bare b = record { base = b; device_fqdn = none; device_ip = none; path_id = none }

  -- The rest of the fields of an entry.
  unfoldable pub filled : Entry → Base Time → CookedMessage Time
  filled e b =
      let fqdn : Option Bytes = non_empty e.device_fqdn in
      let ip : Option Bytes = non_empty e.device_ip in
      record {
        base = record b {
          appname = non_empty e.tag;
          hostname = or_else fqdn ip;
          message = non_empty e.content;
        };
        device_fqdn = fqdn;
        device_ip = ip;
        path_id = non_empty e.path_id;
      }

module _ {Location Time X T : Type 0} (unmarshal : Bytes → Except X Entry)
    (parse_stamp : Option Location → Bytes → Except T Time) (set_year : ℤ → Time → Time) where
  abbrev emit_result : CookedMessage Time → Result (CookedMessage Time) (CookedError X T)
  emit_result m = record { message = some m; error = none }

  -- `emitError`.
  abbrev emit_error :
      CookedParser Location
      → CookedError X T
      → CookedMessage Time
      → Result (CookedMessage Time) (CookedError X T)
  emit_error p e partial = record {
    message = (if p.best_effort then some partial else none);
    error = some e;
  }

  -- The timestamp with the year of the parser, if that is set.
  abbrev dated : CookedParser Location → Except T Time → Except T (Option Time)
  dated p (err e) = err e
  dated p (ok t) = ok (some (if ltb_ℤ (pos 0) p.year then set_year p.year t else t))

  abbrev stamp : CookedParser Location → Bytes → Except T (Option Time)
  stamp p [] = ok none
  stamp p (c ∷ s) = dated p (parse_stamp p.timezone (c ∷ s))

  abbrev on_stamp :
      CookedParser Location
      → Entry
      → Base Time
      → Except T (Option Time)
      → Result (CookedMessage Time) (CookedError X T)
  on_stamp p e b (err x) = emit_error p (invalid_timestamp e.timestamp x) (bare b)
  on_stamp p e b (ok t) = emit_result (filled e (record b { timestamp = t }))

  abbrev on_severity :
      CookedParser Location → Entry → ℕ → Option ℕ → Result (CookedMessage Time) (CookedError X T)
  on_severity p e fac none = emit_error p (invalid_severity e.severity) (bare empty)
  on_severity p e fac (some sev) = on_stamp p e (with_priority fac sev) (stamp p e.timestamp)

  abbrev on_facility :
      CookedParser Location → Entry → Option ℕ → Result (CookedMessage Time) (CookedError X T)
  on_facility p e none = emit_error p (invalid_facility e.facility) (bare empty)
  on_facility p e (some fac) = on_severity p e fac (attribute 9 e.severity)

  -- `processEntry`.
  unfoldable pub process_entry :
      CookedParser Location → Entry → Result (CookedMessage Time) (CookedError X T)
  process_entry p e = on_facility p e (attribute 255 e.facility)

  abbrev is_metadata : Bytes → Bool
  is_metadata name =
      equal name (codes "iam") || (equal name (codes "path") || equal name (codes "ok"))

  abbrev on_element : CookedParser Location → Bytes → Except X Entry → List (Event Time X T)
  on_element p payload (err x) =
      result (record { message = none; error = some (invalid_xml x) }) ∷ []
  on_element p payload (ok e) =
      if equal e.name (codes "entry")
      then result (process_entry p e) ∷ []
      else if is_metadata e.name && p.raw_emit
      then raw_element e.name payload ∷ []
      else []

  -- `processPayload`.
  unfoldable pub process_payload : CookedParser Location → Bytes → List (Event Time X T)
  process_payload p [] = []
  process_payload p (b ∷ bs) = on_element p (b ∷ bs) (unmarshal (b ∷ bs))

  abbrev failure : CookedError X T → Event Time X T
  failure e = result (record { message = none; error = some e })

  -- What the loop does with a frame, by its type: what it emits, and whether it reads on.
  abbrev handle_type : CookedParser Location → FrameType → Frame → List (Event Time X T) × Bool
  handle_type p ans frame = (process_payload p frame.payload, true)
  handle_type p msg frame = (process_payload p frame.payload, true)
  handle_type p nul frame = ([], false)
  handle_type p err_type frame = (failure (err_frame frame.payload) ∷ [], false)
  handle_type p seq frame = ([], true)
  handle_type p rpy frame = ([], true)

  abbrev pub handle : CookedParser Location → Frame → List (Event Time X T) × Bool
  handle p frame = handle_type p frame.typ frame

  abbrev pub report : FrameError → Event Time X T
  report e = failure (scan_error e)

  -- `Parse`.
  unfoldable pub parse : CookedParser Location → Bytes → Option (List (Event Time X T))
  parse p source = Loop.parse (handle p) report p.max_message_length source
