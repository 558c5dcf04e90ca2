-- ===== src/Rfc3195/Frame/Progress.antt =====
-- The bytes that the scanner of rfc3195/frame.go takes.
use go_syslog.Base.{
  ℕ, ◌≤◌, ◌<◌, ◌≡◌, refl, inl, inr, Option, none, some, List, [], ◌∷◌, Bytes, true, false, arith,
  length, Except, ok, err, Bool-cases, length-drop,
}
use go_syslog.Reader.{read_line, read_full}
use go_syslog.Rfc3195.Fields.{fields}
use go_syslog.Rfc3195.Frame.{
  FrameType, msg, rpy, err_type, ans, nul, seq, Frame, FrameError, parse_header, with_header,
  read_body, parse_data_frame, scan, keyword_to_type, strip_crlf, dispatch, on_fields, on_line, eof,
}

read_line-lt :
    (source : Bytes) → (read_line source).1 ≡ true → length (read_line source).2 < length source
unfolding read_line
read_line-lt [] h = cc
read_line-lt (b ∷ bs) h = ground (arith, read_line-lt bs)

read_line_end :
    (source : Bytes)
    → (read_line source).1 ≡ false
    → ((read_line source).0 ≡ source) × ((read_line source).2 ≡ [])
unfolding read_line
read_line_end [] h = (refl, refl)
read_line_end (b ∷ bs) h = ground (arith, read_line_end bs)

read_full-le : (n : ℕ) (source : Bytes) → length (read_full n source).2 ≤ length source
unfolding read_full
read_full-le n source = ground (arith, length-drop n source)

read_body-le : (f : Frame) (source : Bytes) → length (read_body f source).1 ≤ length source
unfolding read_body
read_body-le f source =
    ground (arith, read_full-le f.size source, read_full-le 5 (read_full f.size source).2)

with_header-le :
    (r : Except FrameError Frame) (source : Bytes) → length (with_header r source).1 ≤ length source
with_header-le (ok f) source = read_body-le f source
with_header-le (err e) source = omega arith

dispatch-le :
    (limit : ℕ) (keyword : Bytes) (o : Option FrameType) (fs : List Bytes) (source : Bytes)
    → length (dispatch limit keyword o fs source).1 ≤ length source
unfolding parse_data_frame
dispatch-le limit keyword none fs source = omega arith
dispatch-le limit keyword (some seq) fs source = omega arith
dispatch-le limit keyword (some msg) fs source = with_header-le (parse_header limit msg fs) source
dispatch-le limit keyword (some rpy) fs source = with_header-le (parse_header limit rpy fs) source
dispatch-le limit keyword (some err_type) fs source =
    with_header-le (parse_header limit err_type fs) source
dispatch-le limit keyword (some ans) fs source = with_header-le (parse_header limit ans fs) source
dispatch-le limit keyword (some nul) fs source = with_header-le (parse_header limit nul fs) source

on_line-le :
    (limit : ℕ) (o : Option Bytes) (source : Bytes)
    → length (on_line limit o source).1 ≤ length source
on_line-le limit none source = omega arith
on_line-le limit (some line) source = on_fields-le (fields line)
  where
    on_fields-le : (fs : List Bytes) → length (on_fields limit fs source).1 ≤ length source
    on_fields-le [] = omega arith
    on_fields-le (keyword ∷ fs) =
        dispatch-le limit keyword (keyword_to_type keyword) (keyword ∷ fs) source

-- A scan takes a byte at least, unless the source is at its end.
-- A frame that `Scan` returns has taken one byte at least.
pub scan-lt :
    (limit : ℕ) (source : Bytes) {f : Frame}
    → (scan limit source).0 ≡ ok f
    → length (scan limit source).1 < length source
unfolding scan
scan-lt limit source h = elim (Bool-cases (read_line source).1) [
  | inl f ↦ rw f (
      ground (
        arith,
        read_line-lt source,
        on_line-le limit (strip_crlf (read_line source).0) (read_line source).2,
      ))
  | inr f ↦ ground arith
]

pub scan-nil : (limit : ℕ) → scan limit [] ≡ (err eof, [])
unfolding scan read_line
scan-nil limit = refl
