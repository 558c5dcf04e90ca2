-- ===== src/Rfc3195/Frame/RoundTrip.antt =====
-- Frames written as RFC 3080 and RFC 3081 have them, and that rfc3195/frame.go reads them back.
use go_syslog.Base.{
  le→ltb_not, equal_iff, ℕ, ◌+◌, ◌≤◌, ◌<◌, ◌≡◌, ◌≢◌, refl, sym, ap, ◌∙◌, some, List, [], ◌∷◌, ◌++◌,
  Bytes, Bool, true, false, All, arith, length, ok, append_assoc, length-append, take-length-append,
  drop-length-append,
}
use go_syslog.Strconv.Decimal.{
  IsDigit, decimal, parse_uint-decimal, decimal-digits, decimal-ne-nil, length-decimal,
}
use go_syslog.Reader.{read_line, read_full}
use go_syslog.Rfc3195.Fields.Laws.{IsPlain, IsWord, join, fields-join}
use go_syslog.Rfc3195.Frame.Sound.{IsSound}
use go_syslog.Rfc3195.Frame.{
  FrameType, msg, rpy, err_type, ans, nul, seq, Frame, Field, channel, msgno, seqno, size, ansno,
  ackno, window, max_int31, max_uint32, parse_uint32, parse_int31, parse_continuation, parse_seq,
  check_header, parse_header, read_body, no_frame, parse_data_frame, scan, frame_type_string,
  keyword_to_type, strip_crlf, trailer, on_fields,
}

abbrev more_sign : Bool → Bytes
more_sign true = 42 ∷ []
more_sign false = 46 ∷ []

abbrev numbers : Frame → List Bytes
numbers f =
    decimal f.channel ∷ decimal f.msgno ∷ more_sign f.more ∷ decimal f.seqno ∷ decimal f.size ∷ []

-- The words of a header.
abbrev pub header_words : FrameType → Frame → List Bytes
header_words ans f = frame_type_string ans ∷ (numbers f ++ (decimal f.ansno ∷ []))
header_words seq f =
    frame_type_string seq ∷ decimal f.channel ∷ decimal f.ackno ∷ decimal f.window ∷ []
header_words ft f = frame_type_string ft ∷ numbers f

abbrev body : FrameType → Frame → Bytes
body seq f = []
body ft f = f.payload ++ trailer

-- A header line, and for data frames the payload and the trailer.
pub encode : Frame → Bytes
encode f = join (header_words f.typ f) ++ (13 ∷ 10 ∷ body f.typ f)

parse_uint32-decimal :
    (n : ℕ) (name : Field) → n ≤ max_uint32 → parse_uint32 (decimal n) name ≡ ok n
unfolding parse_uint32
parse_uint32-decimal n name h = rw (parse_uint-decimal max_uint32 n h)

parse_int31-decimal : (n : ℕ) (name : Field) → n ≤ max_int31 → parse_int31 (decimal n) name ≡ ok n
unfolding parse_int31
parse_int31-decimal n name h = rw (parse_uint-decimal max_uint32 n (omega arith)) (ground arith)

parse_continuation-more_sign : (b : Bool) → parse_continuation (more_sign b) ≡ ok b
unfolding parse_continuation
parse_continuation-more_sign true = refl
parse_continuation-more_sign false = refl

All-IsPlain : (ds : Bytes) → All IsDigit ds → All IsPlain ds
All-IsPlain [] h = tt
All-IsPlain (d ∷ ds) (h, hs) = (ground arith, All-IsPlain ds hs)

decimal-IsWord : (n : ℕ) → IsWord (decimal n)
decimal-IsWord n = (decimal-ne-nil n, All-IsPlain (decimal n) (decimal-digits n))

more_sign-IsWord : (b : Bool) → IsWord (more_sign b)
more_sign-IsWord true = (cc, omega arith)
more_sign-IsWord false = (cc, omega arith)

frame_type_string-IsWord : (ft : FrameType) → IsWord (frame_type_string ft)
frame_type_string-IsWord msg = (cc, omega arith)
frame_type_string-IsWord _ = (cc, omega arith)

All-IsWord-append : (xs ys : List Bytes) → All IsWord xs → All IsWord ys → All IsWord (xs ++ ys)
All-IsWord-append [] ys h k = k
All-IsWord-append (x ∷ xs) ys (h, hs) k = (h, All-IsWord-append xs ys hs k)

numbers-IsWord : (f : Frame) → All IsWord (numbers f)
numbers-IsWord f = (
  decimal-IsWord f.channel,
  (
    decimal-IsWord f.msgno,
    (more_sign-IsWord f.more, (decimal-IsWord f.seqno, (decimal-IsWord f.size, tt))),
  ),
)

header_words-IsWord : (ft : FrameType) (f : Frame) → All IsWord (header_words ft f)
header_words-IsWord ans f = (
  frame_type_string-IsWord ans,
  All-IsWord-append (numbers f) (decimal f.ansno ∷ []) (numbers-IsWord f)
      (decimal-IsWord f.ansno, tt),
)
header_words-IsWord seq f = (
  frame_type_string-IsWord seq,
  (decimal-IsWord f.channel, (decimal-IsWord f.ackno, (decimal-IsWord f.window, tt))),
)
header_words-IsWord msg f = (frame_type_string-IsWord msg, numbers-IsWord f)
header_words-IsWord rpy f = (frame_type_string-IsWord rpy, numbers-IsWord f)
header_words-IsWord err_type f = (frame_type_string-IsWord err_type, numbers-IsWord f)
header_words-IsWord nul f = (frame_type_string-IsWord nul, numbers-IsWord f)

keyword_to_type-string : (ft : FrameType) → keyword_to_type (frame_type_string ft) ≡ some ft
unfolding keyword_to_type
keyword_to_type-string msg = refl
keyword_to_type-string _ = refl

plain-line : (w : Bytes) → All IsPlain w → All (λ c. c ≢ 10) w
plain-line [] h = tt
plain-line (c ∷ w) (h, hs) = (omega arith, plain-line w hs)

All-line-append :
    (xs ys : Bytes) → All (λ c. c ≢ 10) xs → All (λ c. c ≢ 10) ys → All (λ c. c ≢ 10) (xs ++ ys)
All-line-append [] ys h k = k
All-line-append (x ∷ xs) ys (h, hs) k = (h, All-line-append xs ys hs k)

join-line : (ws : List Bytes) → All IsWord ws → All (λ c. c ≢ 10) (join ws)
unfolding join
join-line [] h = tt
join-line (w ∷ []) ((n, p), h) = plain-line w p
join-line (w ∷ v ∷ ws) ((n, p), h) =
    All-line-append w (32 ∷ join (v ∷ ws)) (plain-line w p) (omega arith, join-line (v ∷ ws) h)

read_line_lem :
    (l rest : Bytes)
    → All (λ c. c ≢ 10) l
    → read_line (l ++ (13 ∷ 10 ∷ rest)) ≡ (l ++ (13 ∷ 10 ∷ []), true, rest)
unfolding read_line
read_line_lem [] rest h = refl
read_line_lem (c ∷ l) rest (h, hs) = ground (arith, read_line_lem l rest hs)

strip_crlf_lem : (l : Bytes) → strip_crlf (l ++ (13 ∷ 10 ∷ [])) ≡ some l
unfolding strip_crlf
strip_crlf_lem [] = refl
strip_crlf_lem (a ∷ []) = refl
strip_crlf_lem (a ∷ b ∷ []) = refl
strip_crlf_lem (a ∷ b ∷ c ∷ l) = ground (arith, strip_crlf_lem (b ∷ c ∷ l))

abbrev total : List Bytes → ℕ
total [] = 0
total (w ∷ ws) = length w + 1 + total ws

length-join : (ws : List Bytes) → length (join ws) ≤ total ws
unfolding join
length-join [] = omega arith
length-join (w ∷ []) = omega arith
length-join (w ∷ v ∷ ws) = omega (arith, length-append w (32 ∷ join (v ∷ ws)), length-join (v ∷ ws))

digits_le : (n : ℕ) → n ≤ max_uint32 → length (decimal n) ≤ 10
digits_le n h = length-decimal n 9 (omega arith)

-- A header line is cut into its words.
scan_line :
    (limit : ℕ) (ws : List Bytes) (rest : Bytes)
    → All IsWord ws
    → total ws ≤ 126
    → scan limit (join ws ++ (13 ∷ 10 ∷ rest)) ≡ on_fields limit ws rest
unfolding scan
scan_line limit ws rest h k =
    let l = join ws in
    let short : length (l ++ (13 ∷ 10 ∷ [])) ≤ 128 =
      omega (arith, length-append l (13 ∷ 10 ∷ []), length-join ws) in
    rw (read_line_lem l rest (join-line ws h), le→ltb_not short, strip_crlf_lem l, fields-join ws h)

read_full-append : (xs rest : Bytes) → read_full (length xs) (xs ++ rest) ≡ (xs, true, rest)
unfolding read_full
read_full-append xs rest =
    ground (arith, length-append xs rest, take-length-append xs rest, drop-length-append xs rest)

read_body-append :
    (f : Frame) (payload rest : Bytes)
    → length payload ≡ f.size
    → read_body f (payload ++ (trailer ++ rest)) ≡ (ok (record f { payload = payload }), rest)
unfolding read_body
read_body-append f payload rest e =
    let p : read_full f.size (payload ++ (trailer ++ rest)) ≡ (payload, true, trailer ++ rest) =
      ap (λ n. read_full n (payload ++ (trailer ++ rest))) (sym e)
      ∙ read_full-append payload (trailer ++ rest) in
    rw (p, read_full-append trailer rest, (equal_iff trailer trailer).1 refl)

-- The header that is read, before its payload.
abbrev bare : Frame → Frame
bare f = record f { payload = [] }

check_header_ok :
    (limit : ℕ) (g : Frame)
    → (g.typ ≡ nul → g.more ≡ false)
    → (g.typ ≡ nul → g.size ≡ 0)
    → (0 < limit → g.size ≤ limit)
    → check_header limit g ≡ ok g
unfolding check_header
check_header_ok limit g h k l = ground arith

-- The fields of a sound data frame that a header of six words leaves at their zero.
six_fields :
    (limit : ℕ) (ft : FrameType) (f : Frame)
    → IsSound limit f
    → f.typ ≡ ft
    → ft ≢ ans
    → ft ≢ seq
    → record no_frame {
      typ = ft;
      channel = f.channel;
      msgno = f.msgno;
      more = f.more;
      seqno = f.seqno;
      size = f.size;
    }
      ≡ bare f
six_fields limit ft f w e n m =
    let a = w.only_ans (λ t. n (sym e ∙ t)) in
    let s = w.only_seq (λ t. m (sym e ∙ t)) in ground arith

seven_fields :
    (limit : ℕ) (f : Frame)
    → IsSound limit f
    → f.typ ≡ ans
    → record no_frame {
      typ = ans;
      channel = f.channel;
      msgno = f.msgno;
      more = f.more;
      seqno = f.seqno;
      size = f.size;
      ansno = f.ansno;
    }
      ≡ bare f
seven_fields limit f w e = let s = w.only_seq (λ t. cc (sym e ∙ t)) in ground arith

header_six :
    (limit : ℕ) (ft : FrameType) (f : Frame)
    → IsSound limit f
    → f.typ ≡ ft
    → ft ≢ ans
    → ft ≢ seq
    → parse_header limit ft (frame_type_string ft ∷ numbers f) ≡ ok (bare f)
unfolding parse_header
header_six limit ans f w e n m = absurd (n refl)
header_six limit seq f w e n m = absurd (m refl)
header_six limit _ f w e n m =
    rw
      (
        parse_int31-decimal f.channel channel w.channel_range,
        parse_int31-decimal f.msgno msgno w.msgno_range,
        parse_continuation-more_sign f.more,
        parse_uint32-decimal f.seqno seqno w.seqno_range,
        parse_int31-decimal f.size size w.size_range,
      )
      (ap (check_header limit) (six_fields limit _ f w e n m)
        ∙ check_header_ok limit (bare f) w.nul_complete w.nul_empty w.within_limit)

header_seven :
    (limit : ℕ) (f : Frame)
    → IsSound limit f
    → f.typ ≡ ans
    → parse_header limit ans (frame_type_string ans ∷ (numbers f ++ (decimal f.ansno ∷ [])))
      ≡ ok (bare f)
unfolding parse_header
header_seven limit f w e =
    rw
      (
        parse_int31-decimal f.channel channel w.channel_range,
        parse_int31-decimal f.msgno msgno w.msgno_range,
        parse_continuation-more_sign f.more,
        parse_uint32-decimal f.seqno seqno w.seqno_range,
        parse_int31-decimal f.size size w.size_range,
        parse_int31-decimal f.ansno ansno w.ansno_range,
      )
      (ap (check_header limit) (seven_fields limit f w e)
        ∙ check_header_ok limit (bare f) w.nul_complete w.nul_empty w.within_limit)

empty_of_length : (xs : Bytes) → length xs ≡ 0 → xs ≡ []
empty_of_length [] h = refl
empty_of_length (x ∷ xs) h = absurd (omega arith)

seq_fields :
    (limit : ℕ) (f : Frame)
    → IsSound limit f
    → f.typ ≡ seq
    → record no_frame { typ = seq; channel = f.channel; ackno = f.ackno; window = f.window } ≡ f
seq_fields limit f w e =
    let a = w.only_ans (λ t. cc (sym e ∙ t)) in
    let b = w.seq_bare e in let p = empty_of_length f.payload (omega arith) in ground arith

seq_words :
    (limit : ℕ) (f : Frame) → IsSound limit f → f.typ ≡ seq → parse_seq (header_words seq f) ≡ ok f
unfolding parse_seq
seq_words limit f w e =
    rw
      (
        parse_int31-decimal f.channel channel w.channel_range,
        parse_uint32-decimal f.ackno ackno w.ackno_range,
        parse_uint32-decimal f.window window w.window_range,
      )
      (ap ok (seq_fields limit f w e))

data_frame :
    (limit : ℕ) (ft : FrameType) (ws : List Bytes) (f : Frame) (rest : Bytes)
    → parse_header limit ft ws ≡ ok (bare f)
    → length f.payload ≡ f.size
    → parse_data_frame limit ft ws ((f.payload ++ trailer) ++ rest) ≡ (ok f, rest)
unfolding parse_data_frame
data_frame limit ft ws f rest e l =
    rw (e, append_assoc f.payload trailer rest) (read_body-append (bare f) f.payload rest l)

on_header_words :
    (limit : ℕ) (ft : FrameType) (f : Frame) (rest : Bytes)
    → IsSound limit f
    → f.typ ≡ ft
    → on_fields limit (header_words ft f) (body ft f ++ rest) ≡ (ok f, rest)
on_header_words limit ans f rest w e =
    rw (keyword_to_type-string ans)
      (data_frame limit ans (header_words ans f) f rest (header_seven limit f w e) w.payload_length)
on_header_words limit seq f rest w e = rw (keyword_to_type-string seq, seq_words limit f w e)
on_header_words limit msg f rest w e = rw (keyword_to_type-string msg) (
    data_frame limit msg (header_words msg f) f rest (header_six limit msg f w e (cc) (cc))
      w.payload_length)
on_header_words limit rpy f rest w e = rw (keyword_to_type-string rpy) (
    data_frame limit rpy (header_words rpy f) f rest (header_six limit rpy f w e (cc) (cc))
      w.payload_length)
on_header_words limit err_type f rest w e = rw (keyword_to_type-string err_type) (
    data_frame limit err_type (header_words err_type f) f rest
      (header_six limit err_type f w e (cc) (cc)) w.payload_length)
on_header_words limit nul f rest w e = rw (keyword_to_type-string nul) (
    data_frame limit nul (header_words nul f) f rest (header_six limit nul f w e (cc) (cc))
      w.payload_length)

length-more_sign : (b : Bool) → length (more_sign b) ≡ 1
length-more_sign true = refl
length-more_sign false = refl

header_total :
    (limit : ℕ) (ft : FrameType) (f : Frame) → IsSound limit f → total (header_words ft f) ≤ 126
header_total limit ans f w = omega (
  arith,
  digits_le f.channel (omega arith),
  digits_le f.msgno (omega arith),
  length-more_sign f.more,
  digits_le f.seqno w.seqno_range,
  digits_le f.size (omega arith),
  digits_le f.ansno (omega arith),
)
header_total limit seq f w = omega (
  arith,
  digits_le f.channel (omega arith),
  digits_le f.ackno w.ackno_range,
  digits_le f.window w.window_range,
)
header_total limit msg f w = omega (
  arith,
  digits_le f.channel (omega arith),
  digits_le f.msgno (omega arith),
  length-more_sign f.more,
  digits_le f.seqno w.seqno_range,
  digits_le f.size (omega arith),
)
header_total limit _ f w = omega (
  arith,
  digits_le f.channel (omega arith),
  digits_le f.msgno (omega arith),
  length-more_sign f.more,
  digits_le f.seqno w.seqno_range,
  digits_le f.size (omega arith),
)

-- `Scan` reads back every sound frame that the formats of the RFCs write, with what follows it.
pub scan-encode :
    (limit : ℕ) (f : Frame) (rest : Bytes)
    → IsSound limit f
    → scan limit (encode f ++ rest) ≡ (ok f, rest)
unfolding encode
scan-encode limit f rest w =
    let ws = header_words f.typ f in
    rw (append_assoc (join ws) (13 ∷ 10 ∷ body f.typ f) rest) (
      scan_line limit ws (body f.typ f ++ rest) (header_words-IsWord f.typ f)
        (header_total limit f.typ f w)
      ∙ on_header_words limit f.typ f rest w refl)
