-- ===== src/Rfc3195/Tests.antt =====
-- Frames on the wire of rfc3195, read and written.
use go_syslog.Base.{
  ℕ, ◌<◌, ◌≡◌, ◌++◌, refl, none, some, List, [], ◌∷◌, Bytes, false, codes, length, map, equal,
  if◌then◌else◌, arith, All, ok,
}
use go_syslog.Base.Int.{pos}
use go_syslog.Syslog.{Machine, Result}
use go_syslog.Strconv.{parse_uint}
use go_syslog.Reader.{read_line, read_full}
use go_syslog.Rfc3195.Fields.{fields, fields_loop, space_width}
use go_syslog.Rfc3195.Fields.Laws.{IsWord, join, fields-join}
use go_syslog.Rfc3195.Frame.{
  Frame, ans, scan, parse_header, parse_data_frame, keyword_to_type, parse_uint32, parse_int31,
  parse_continuation, read_body, check_header, strip_crlf,
}
use go_syslog.Rfc3195.Frame.Sound.{IsSound, scan-IsSound}
use go_syslog.Rfc3195.Frame.Progress.{scan-lt}
use go_syslog.Rfc3195.Frame.RoundTrip.{encode, scan-encode}
use go_syslog.Rfc3195.Loop.{limit_of}
use go_syslog.Rfc3195.Loop as Loop
use go_syslog.Rfc3195.Loop.Laws.{encode_all, emitted, parse_total, parse-encode_all}
use go_syslog.Rfc3195.Raw.{RawError, handle, report, parse}
use go_syslog.Rfc3195.Raw.Laws.{due, Carries, parse-carried}

-- An answer on channel 1 with the number `n`.
abbrev answer : ℕ → Bytes → Frame
answer n payload = record {
  typ = ans;
  channel = 1;
  msgno = 0;
  more = false;
  seqno = 7;
  size = length payload;
  ansno = n;
  payload = payload;
  ackno = 0;
  window = 0;
}

abbrev hello : Bytes
hello = codes "<1>hello" ++ (13 ∷ 10 ∷ [])

abbrev wire : Bytes
wire = codes "ANS 1 0 . 7 10 3" ++ (13 ∷ 10 ∷ (hello ++ (codes "END" ++ (13 ∷ 10 ∷ codes "NUL 1"))))

scanned : scan 100 wire ≡ (ok (answer 3 hello), codes "NUL 1")
unfolding scan read_line read_full fields fields_loop space_width keyword_to_type parse_data_frame
    parse_header parse_uint32 parse_int31 parse_continuation read_body check_header strip_crlf
    parse_uint equal
scanned = refl

scan_ok : (scan 100 wire).0 ≡ ok (answer 3 hello)
scan_ok = rw scanned

hello-IsSound : IsSound 100 (answer 3 hello)
hello-IsSound = scan-IsSound 100 wire scan_ok

scan-IsSound_example : IsSound 100 (answer 3 hello)
scan-IsSound_example = scan-IsSound 100 wire scan_ok

scan-lt_example : length (scan 100 wire).1 < length wire
scan-lt_example = scan-lt 100 wire {f = answer 3 hello} scan_ok

scan-encode_example :
    scan 100 (encode (answer 3 hello) ++ codes "NUL 1") ≡ (ok (answer 3 hello), codes "NUL 1")
scan-encode_example = scan-encode 100 (answer 3 hello) (codes "NUL 1") hello-IsSound

fields-join_example : fields (join (codes "ANS" ∷ codes "10" ∷ [])) ≡ codes "ANS" ∷ codes "10" ∷ []
fields-join_example = fields-join (codes "ANS" ∷ codes "10" ∷ []) (ans_IsWord, (ten_IsWord, tt))
  where
    ans_IsWord : IsWord (codes "ANS")
    ans_IsWord = (cc, ground arith)

    ten_IsWord : IsWord (codes "10")
    ten_IsWord = (cc, ground arith)

-- A machine that takes every text but "<bad" as it stands.
abbrev accepting : Machine Bytes ℕ
accepting = record {
  parse = λ b. if equal b (codes "<bad") then (none, some 7) else (some b, none);
  has_best_effort = false;
}

parse_total_example :
    (r : List (Result Bytes (RawError ℕ))) × (Loop.parse
        (handle false accepting)
        (report false accepting)
        (pos 100)
        wire
      ≡ some r)
parse_total_example = parse_total (handle false accepting) (report false accepting) (pos 100) wire

abbrev sent : List Frame
sent = answer 3 hello ∷ []

sent-IsSound : All (IsSound (limit_of (pos 100))) sent
sent-IsSound = (hello-IsSound, tt)

parse-encode_all_example :
    Loop.parse (handle false accepting) (report false accepting) (pos 100) (encode_all sent)
    ≡ some (emitted (handle false accepting) (report false accepting) sent)
parse-encode_all_example =
    parse-encode_all (handle false accepting) (report false accepting) (pos 100) sent sent-IsSound

sent-Carries : Carries sent (codes "<1>hello" ∷ [])
unfolding Carries
sent-Carries = (refl, refl, cc, tt)

parse-carried_example :
    parse false accepting (pos 100) (encode_all sent)
    ≡ some (map (λ m. due false (accepting.parse m)) (codes "<1>hello" ∷ []))
parse-carried_example =
    parse-carried false accepting (pos 100) sent (codes "<1>hello" ∷ []) sent-IsSound sent-Carries
