-- ===== src/Rfc3195/Frame.antt =====
-- rfc3195/frame.go: the scanner of BEEP frames. Its state is the bytes that its reader has left.
-- An `int` option that is not positive means no limit, so the limit is a number, 0 for none. The
-- source ends with io.EOF; one that fails otherwise is not modelled.
pub mod Sound
pub mod RoundTrip
pub mod Progress
use go_syslog.Base.{
  ◌>>=◌, ℕ, ◌*◌, Option, none, some, List, [], ◌∷◌, Bytes, codes, Bool, true, false, not, ◌&&◌,
  equal, length, ltb, ◌==◌, if◌then◌else◌, Except, ok, err, map_err,
}
use go_syslog.Strconv.{NumError, parse_uint}
use go_syslog.Reader.{read_line, read_full}
use go_syslog.Rfc3195.Fields.{fields}

-- `FrameType`.
pub data FrameType : Type 0 where
  msg rpy err_type ans nul seq : FrameType

-- `frameTypeNames`, and `FrameType.String` at a declared constant.
abbrev pub frame_type_string : FrameType → Bytes
frame_type_string msg = codes "MSG"
frame_type_string rpy = codes "RPY"
frame_type_string err_type = codes "ERR"
frame_type_string ans = codes "ANS"
frame_type_string nul = codes "NUL"
frame_type_string seq = codes "SEQ"

-- `keywordToType`.
unfoldable pub keyword_to_type : Bytes → Option FrameType
unfolding equal
keyword_to_type k =
    if equal k (codes "MSG")
    then some msg
    else if equal k (codes "RPY")
    then some rpy
    else if equal k (codes "ERR")
    then some err_type
    else if equal k (codes "ANS")
    then some ans
    else if equal k (codes "NUL")
    then some nul
    else if equal k (codes "SEQ")
    then some seq
    else none

-- `Frame`; a nil payload is the empty one, as a payload of size 0 is nil.
pub record Frame : Type 0 where
  pub typ : FrameType
  pub channel : ℕ
  pub msgno : ℕ
  pub more : Bool
  pub seqno : ℕ
  pub size : ℕ
  pub ansno : ℕ
  pub payload : Bytes
  pub ackno : ℕ
  pub window : ℕ

abbrev pub max_int31 : ℕ
max_int31 = 2147483647

abbrev pub max_uint32 : ℕ
max_uint32 = 4294967295

abbrev pub max_header_len : ℕ
max_header_len = 128

abbrev pub default_max_payload_size : ℕ
default_max_payload_size = 2 * 1024 * 1024

-- The names of the numbers in the errors.
pub data Field : Type 0 where
  channel msgno seqno size ansno ackno window : Field

-- The errors of the scanner, with the arguments of their messages; `eof` is io.EOF.
pub data FrameError : Type 0 where
  eof reading_header missing_crlf empty_header reading_trailer : FrameError
  header_too_long : ℕ → FrameError
  unknown_keyword : Bytes → FrameError
  field_count : FrameType → ℕ → ℕ → FrameError
  invalid_number : Field → Bytes → NumError → FrameError
  exceeds_int31 : Field → Bytes → ℕ → FrameError
  invalid_continuation nul_continuation : FrameError
  nul_size : ℕ → FrameError
  payload_too_large : ℕ → ℕ → FrameError
  reading_payload : ℕ → FrameError
  bad_trailer : Bytes → FrameError

-- A statement of which only the error matters.
infixl 5 ◌>>◌
abbrev ◌>>◌ :
    {B : Type 0} → Except FrameError (Unit {0}) → Except FrameError B → Except FrameError B
err e >> next = err e
ok _ >> next = next

-- `if bad { return error }`.
abbrev refuse_if : Bool → FrameError → Except FrameError (Unit {0})
refuse_if true e = err e
refuse_if false e = ok tt

-- `parseUint32`.
unfoldable pub parse_uint32 : Bytes → Field → Except FrameError ℕ
parse_uint32 b name = map_err (invalid_number name b) (parse_uint max_uint32 b)

-- `parseInt31`.
unfoldable pub parse_int31 : Bytes → Field → Except FrameError ℕ
parse_int31 b name = do
  v ← map_err (invalid_number name b) (parse_uint max_uint32 b)
  refuse_if (ltb max_int31 v) (exceeds_int31 name b v)
  ok v

-- `parseContinuation`.
unfoldable pub parse_continuation : Bytes → Except FrameError Bool
parse_continuation (c ∷ []) =
    if c == 42 then ok true else if c == 46 then ok false else err invalid_continuation
parse_continuation _ = err invalid_continuation

abbrev pub no_frame : Frame
no_frame = record {
  typ = msg;
  channel = 0;
  msgno = 0;
  more = false;
  seqno = 0;
  size = 0;
  ansno = 0;
  payload = [];
  ackno = 0;
  window = 0;
}

-- `parseSEQ`.
unfoldable pub parse_seq : List Bytes → Except FrameError Frame
parse_seq (keyword ∷ c ∷ a ∷ w ∷ []) = do
  channel' ← parse_int31 c channel
  ackno' ← parse_uint32 a ackno
  window' ← parse_uint32 w window
  ok (record no_frame { typ = seq; channel = channel'; ackno = ackno'; window = window' })
parse_seq other = err (field_count seq 4 (length other))

abbrev is_nul : FrameType → Bool
is_nul nul = true
is_nul other = false

-- The rules for NUL frames and the limit on payloads, before any payload is read.
unfoldable pub check_header : ℕ → Frame → Except FrameError Frame
check_header limit f = do
  refuse_if (is_nul f.typ && f.more) nul_continuation
  refuse_if (is_nul f.typ && not (f.size == 0)) (nul_size f.size)
  refuse_if (ltb 0 limit && ltb limit f.size) (payload_too_large f.size limit)
  ok f

-- The header of a data frame; `ansno` is read for ANS frames only.
unfoldable pub parse_header : ℕ → FrameType → List Bytes → Except FrameError Frame
parse_header limit ans (keyword ∷ c ∷ m ∷ k ∷ q ∷ z ∷ a ∷ []) = do
  channel' ← parse_int31 c channel
  msgno' ← parse_int31 m msgno
  more' ← parse_continuation k
  seqno' ← parse_uint32 q seqno
  size' ← parse_int31 z size
  ansno' ← parse_int31 a ansno
  check_header limit (record no_frame {
    typ = ans;
    channel = channel';
    msgno = msgno';
    more = more';
    seqno = seqno';
    size = size';
    ansno = ansno';
  })
parse_header limit ans other = err (field_count ans 7 (length other))
parse_header limit ft (keyword ∷ c ∷ m ∷ k ∷ q ∷ z ∷ []) = do
  channel' ← parse_int31 c channel
  msgno' ← parse_int31 m msgno
  more' ← parse_continuation k
  seqno' ← parse_uint32 q seqno
  size' ← parse_int31 z size
  check_header limit (record no_frame {
    typ = ft;
    channel = channel';
    msgno = msgno';
    more = more';
    seqno = seqno';
    size = size';
  })
parse_header limit ft other = err (field_count ft 6 (length other))

-- `END` and CRLF.
abbrev pub trailer : Bytes
trailer = 69 ∷ 78 ∷ 68 ∷ 13 ∷ 10 ∷ []

-- The payload and the trailer behind a header.
unfoldable pub read_body : Frame → Bytes → Except FrameError Frame × Bytes
read_body f source =
    let (payload, full, rest) = read_full f.size source in
    let (t, whole, rest') = read_full 5 rest in
    if not full
    then (err (reading_payload f.size), rest)
    else if not whole
    then (err reading_trailer, rest')
    else if not (equal t trailer)
    then (err (bad_trailer t), rest')
    else (ok (record f { payload = payload }), rest')

abbrev with_header : Except FrameError Frame → Bytes → Except FrameError Frame × Bytes
with_header (err e) source = (err e, source)
with_header (ok f) source = read_body f source

-- `parseDataFrame`.
unfoldable pub parse_data_frame :
    ℕ → FrameType → List Bytes → Bytes → Except FrameError Frame × Bytes
parse_data_frame limit ft fs source = with_header (parse_header limit ft fs) source

abbrev dispatch :
    ℕ → Bytes → Option FrameType → List Bytes → Bytes → Except FrameError Frame × Bytes
dispatch limit keyword none fs source = (err (unknown_keyword keyword), source)
dispatch limit keyword (some seq) fs source = (parse_seq fs, source)
dispatch limit keyword (some ft) fs source = parse_data_frame limit ft fs source

abbrev on_fields : ℕ → List Bytes → Bytes → Except FrameError Frame × Bytes
on_fields limit [] source = (err empty_header, source)
on_fields limit (keyword ∷ fs) source =
    dispatch limit keyword (keyword_to_type keyword) (keyword ∷ fs) source

-- The line without its CRLF, if it ends in one.
unfoldable pub strip_crlf : Bytes → Option Bytes
strip_crlf [] = none
strip_crlf (a ∷ []) = none
strip_crlf (a ∷ b ∷ []) = if a == 13 && b == 10 then some [] else none
strip_crlf (a ∷ b ∷ c ∷ cs) = elim (strip_crlf (b ∷ c ∷ cs)) [
  | none ↦ none
  | some line ↦ some (a ∷ line)
]

abbrev on_line : ℕ → Option Bytes → Bytes → Except FrameError Frame × Bytes
on_line limit none source = (err missing_crlf, source)
on_line limit (some line) source = on_fields limit (fields line) source

-- `Scan`: the frame or the error, and the bytes left.
unfoldable pub scan : ℕ → Bytes → Except FrameError Frame × Bytes
scan limit source =
    let (line, found, rest) = read_line source in
    if not found
    then (if length line == 0 then (err eof, rest) else (err reading_header, rest))
    else if ltb max_header_len (length line)
    then (err (header_too_long (length line)), rest)
    else on_line limit (strip_crlf line) rest
