-- ===== src/Rfc3195/Frame/Sound.antt =====
-- What rfc3195/frame.go guarantees of a frame that it returns.
use mathlib.Core.Option.{none}
use go_syslog.Reader.{read_line, read_full}
use go_syslog.Base.{
  length-take, ◌==◌, ltb, Bool-cases, refl, some, List, Option, ◌∷◌, err, inr, inl, Except,
  Except-cases, ℕ, ◌≤◌, ◌<◌, ◌≡◌, ◌≢◌, [], Bytes, false, arith, length, ok,
}
use go_syslog.Common.Decimal.{parse_uint_sound}
use go_syslog.Rfc3195.Frame.{
  err_type, max_header_len, rpy, msg, read_line, fields, window, strip_crlf, keyword_to_type, ackno,
  read_full, scan, parse_seq, parse_data_frame, read_body, FrameType, on_fields, on_line, dispatch,
  check_header, FrameError, parse_header, channel, msgno, seqno, size, ansno, ans, nul, seq, Frame,
  Field, max_int31, max_uint32, parse_uint32, parse_int31,
}

-- The ranges of RFC 3080 and RFC 3081, the payload in full and within the limit, and no content in
-- a NUL frame or in the fields of another type.
pub record IsSound (limit : ℕ) (f : Frame) : Type 0 where
  pub channel_range : f.channel ≤ max_int31
  pub msgno_range : f.msgno ≤ max_int31
  pub seqno_range : f.seqno ≤ max_uint32
  pub size_range : f.size ≤ max_int31
  pub ansno_range : f.ansno ≤ max_int31
  pub ackno_range : f.ackno ≤ max_uint32
  pub window_range : f.window ≤ max_uint32
  pub payload_length : length f.payload ≡ f.size
  pub within_limit : 0 < limit → f.size ≤ limit
  pub nul_complete : f.typ ≡ nul → f.more ≡ false
  pub nul_empty : f.typ ≡ nul → f.size ≡ 0
  pub only_ans : f.typ ≢ ans → f.ansno ≡ 0
  pub only_seq : f.typ ≢ seq → (f.ackno ≡ 0) × (f.window ≡ 0)
  pub seq_bare : f.typ ≡ seq → (f.msgno ≡ 0) × (f.more ≡ false) × (f.seqno ≡ 0) × (f.size ≡ 0)

-- A property of the value, if there is one.
abbrev Ensures : {A : Type 0} → (A → Type 0) → Except FrameError A → Type 0
Ensures P (ok a) = P a
Ensures P (err e) = Unit

parse_uint32-le : (b : Bytes) (name : Field) {v : ℕ} → parse_uint32 b name ≡ ok v → v ≤ max_uint32
unfolding parse_uint32
parse_uint32-le b name {v} h = ground (arith, parse_uint_sound b max_uint32 {n = v})

parse_int31-le : (b : Bytes) (name : Field) {v : ℕ} → parse_int31 b name ≡ ok v → v ≤ max_int31
unfolding parse_int31
parse_int31-le b name {v} h = ground arith

err_ne_ok : {A : Type 0} {e : FrameError} {a : A} → ¬ (◌≡◌ {A = Except FrameError A} (err e) (ok a))
err_ne_ok h = cc

uint32-Ensures : (b : Bytes) (name : Field) → Ensures (λ v. v ≤ max_uint32) (parse_uint32 b name)
uint32-Ensures b name = elim (Except-cases (parse_uint32 b name)) [
  | inl (v, e) ↦ rw e (parse_uint32-le b name e)
  | inr (x, e) ↦ rw e tt
]

int31-Ensures : (b : Bytes) (name : Field) → Ensures (λ v. v ≤ max_int31) (parse_int31 b name)
int31-Ensures b name = elim (Except-cases (parse_int31 b name)) [
  | inl (v, e) ↦ rw e (parse_int31-le b name e)
  | inr (x, e) ↦ rw e tt
]

-- What a header says, before the payload is read.
record IsHeader (limit : ℕ) (f : Frame) : Type 0 where
  channel_range : f.channel ≤ max_int31
  msgno_range : f.msgno ≤ max_int31
  seqno_range : f.seqno ≤ max_uint32
  size_range : f.size ≤ max_int31
  ansno_range : f.ansno ≤ max_int31
  no_ackno : f.ackno ≡ 0
  no_window : f.window ≡ 0
  no_payload : f.payload ≡ []
  within_limit : 0 < limit → f.size ≤ limit
  nul_complete : f.typ ≡ nul → f.more ≡ false
  nul_empty : f.typ ≡ nul → f.size ≡ 0
  only_ans : f.typ ≢ ans → f.ansno ≡ 0
  not_seq : f.typ ≢ seq

parse_ans_header_lem :
    (limit : ℕ) (keyword c m k q z a : Bytes) {f : Frame}
    → parse_header limit ans (keyword ∷ c ∷ m ∷ k ∷ q ∷ z ∷ a ∷ []) ≡ ok f
    → IsHeader limit f
unfolding parse_header check_header
parse_ans_header_lem limit keyword c m k q z a {f} h = ground (
  arith,
  int31-Ensures c channel,
  int31-Ensures m msgno,
  uint32-Ensures q seqno,
  int31-Ensures z size,
  int31-Ensures a ansno,
)

parse_six_header_lem :
    (limit : ℕ) (ft : FrameType) (keyword c m k q z : Bytes) {f : Frame}
    → ft ≢ seq
    → ft ≢ ans
    → parse_header limit ft (keyword ∷ c ∷ m ∷ k ∷ q ∷ z ∷ []) ≡ ok f
    → IsHeader limit f
unfolding parse_header check_header
parse_six_header_lem limit ans keyword c m k q z n l h = absurd (l refl)
parse_six_header_lem limit seq keyword c m k q z n l h = absurd (n refl)
parse_six_header_lem limit _ keyword c m k q z n l h = ground (
  arith,
  int31-Ensures c channel,
  int31-Ensures m msgno,
  uint32-Ensures q seqno,
  int31-Ensures z size,
)

parse_header_lem :
    (limit : ℕ) (ft : FrameType) (fs : List Bytes) {f : Frame}
    → ft ≢ seq
    → parse_header limit ft fs ≡ ok f
    → IsHeader limit f
unfolding parse_header
parse_header_lem limit ans (keyword ∷ c ∷ m ∷ k ∷ q ∷ z ∷ a ∷ []) n h =
    parse_ans_header_lem limit keyword c m k q z a h
parse_header_lem limit ans _ n h = cc
parse_header_lem limit seq fs n h = absurd (n refl)
parse_header_lem limit msg (keyword ∷ c ∷ m ∷ k ∷ q ∷ z ∷ []) n h =
    parse_six_header_lem limit msg keyword c m k q z n (cc) h
parse_header_lem limit msg _ n h = cc
parse_header_lem limit rpy (keyword ∷ c ∷ m ∷ k ∷ q ∷ z ∷ []) n h =
    parse_six_header_lem limit rpy keyword c m k q z n (cc) h
parse_header_lem limit rpy _ n h = cc
parse_header_lem limit err_type (keyword ∷ c ∷ m ∷ k ∷ q ∷ z ∷ []) n h =
    parse_six_header_lem limit err_type keyword c m k q z n (cc) h
parse_header_lem limit err_type _ n h = cc
parse_header_lem limit nul (keyword ∷ c ∷ m ∷ k ∷ q ∷ z ∷ []) n h =
    parse_six_header_lem limit nul keyword c m k q z n (cc) h
parse_header_lem limit nul _ n h = cc

read_body-IsSound :
    (limit : ℕ) (f : Frame) (source : Bytes) {g : Frame}
    → IsHeader limit f
    → (read_body f source).0 ≡ ok g
    → IsSound limit g
unfolding read_body read_full
read_body-IsSound limit f source {g} w h = ground (arith, length-take f.size source)

data_frame-IsSound :
    (limit : ℕ) (ft : FrameType) (fs : List Bytes) (source : Bytes) {g : Frame}
    → ft ≢ seq
    → (parse_data_frame limit ft fs source).0 ≡ ok g
    → IsSound limit g
unfolding parse_data_frame
data_frame-IsSound limit ft fs source n h = elim (Except-cases (parse_header limit ft fs)) [
  | inl (f, e) ↦ read_body-IsSound limit f source (parse_header_lem limit ft fs n e) (rw e at h)
  | inr (x, e) ↦ absurd (err_ne_ok (rw e at h))
]

parse_seq-IsSound :
    (limit : ℕ) (fs : List Bytes) {g : Frame} → parse_seq fs ≡ ok g → IsSound limit g
unfolding parse_seq
parse_seq-IsSound limit (keyword ∷ c ∷ a ∷ w ∷ []) h =
    ground (arith, int31-Ensures c channel, uint32-Ensures a ackno, uint32-Ensures w window)
parse_seq-IsSound limit _ h = cc

dispatch-IsSound :
    (limit : ℕ) (keyword : Bytes) (o : Option FrameType) (fs : List Bytes) (source : Bytes)
    {g : Frame}
    → (dispatch limit keyword o fs source).0 ≡ ok g
    → IsSound limit g
dispatch-IsSound limit keyword none fs source h = cc
dispatch-IsSound limit keyword (some seq) fs source h = parse_seq-IsSound limit fs h
dispatch-IsSound limit keyword (some msg) fs source h =
    data_frame-IsSound limit msg fs source (cc) h
dispatch-IsSound limit keyword (some rpy) fs source h =
    data_frame-IsSound limit rpy fs source (cc) h
dispatch-IsSound limit keyword (some err_type) fs source h =
    data_frame-IsSound limit err_type fs source (cc) h
dispatch-IsSound limit keyword (some ans) fs source h =
    data_frame-IsSound limit ans fs source (cc) h
dispatch-IsSound limit keyword (some nul) fs source h =
    data_frame-IsSound limit nul fs source (cc) h

on_fields-IsSound :
    (limit : ℕ) (fs : List Bytes) (source : Bytes) {g : Frame}
    → (on_fields limit fs source).0 ≡ ok g
    → IsSound limit g
on_fields-IsSound limit [] source h = cc
on_fields-IsSound limit (keyword ∷ fs) source h =
    dispatch-IsSound limit keyword (keyword_to_type keyword) (keyword ∷ fs) source h

on_line-IsSound :
    (limit : ℕ) (o : Option Bytes) (source : Bytes) {g : Frame}
    → (on_line limit o source).0 ≡ ok g
    → IsSound limit g
on_line-IsSound limit none source h = cc
on_line-IsSound limit (some line) source h = on_fields-IsSound limit (fields line) source h

-- Every frame that `Scan` returns is sound, whatever the input.
pub scan-IsSound :
    (limit : ℕ) (source : Bytes) {g : Frame} → (scan limit source).0 ≡ ok g → IsSound limit g
unfolding scan
scan-IsSound limit source h = elim (Bool-cases (read_line source).1) [
  | inl f ↦ elim (Bool-cases (ltb max_header_len (length (read_line source).0))) [
    | inl l ↦ absurd (err_ne_ok (rw (f, l) at h))
    | inr s ↦
        on_line-IsSound limit (strip_crlf (read_line source).0) (read_line source).2
          (rw (f, s) at h)
  ]
  | inr f ↦ elim (Bool-cases (length (read_line source).0 == 0)) [
    | inl l ↦ absurd (err_ne_ok (rw (f, l) at h))
    | inr s ↦ absurd (err_ne_ok (rw (f, s) at h))
  ]
]
