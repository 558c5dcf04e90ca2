-- ===== src/Rfc3195/Cooked/Laws.antt =====
-- The messages that rfc3195/cooked.go makes of entries.
use mathlib.Core.Path.{subst}
use go_syslog.Base.{
  ◌%◌, ◌-◌, ◌^◌, ℕ, ◌+◌, ◌*◌, ◌≤◌, ◌<◌, ◌≡◌, ◌≢◌, refl, ap, ◌∙◌, inl, inr, Option, none, some, [],
  ◌∷◌, Bytes, ◌&&◌, leb, if◌then◌else◌, Except, ok, err, All, arith, Option-cases,
}
use go_syslog.Base.Int.{ℤ, pos}
use go_syslog.Strconv.{parse_uint, atoi}
use go_syslog.Strconv.Decimal.{IsDigit, decimal, decimal-digits, decimal-ne-nil, parse_uint-decimal}
use go_syslog.Syslog.{Result}
use go_syslog.Syslog.Message.{valid}
use go_syslog.Rfc3195.Cooked.{
  Entry, CookedMessage, CookedError, CookedParser, attribute, or_else, process_entry, filled,
  with_priority, on_stamp, on_severity, on_facility, stamp,
}
use go_syslog.Common.{valid_priority}
use go_syslog.Rfc5424.Message.{non_empty}
use go_syslog.Base.{equal}

attribute-le : (max : ℕ) (s : Bytes) {n : ℕ} → attribute max s ≡ some n → n ≤ max
unfolding attribute
attribute-le max s h = ground arith

atoi-digits :
    (s : Bytes) {n : ℕ}
    → s ≢ []
    → All IsDigit s
    → parse_uint (2 ^ 63 - 1) s ≡ ok n
    → atoi s ≡ some (pos n)
unfolding atoi
atoi-digits [] ne h e = absurd (ne refl)
atoi-digits (c ∷ s) ne (h, hs) e = ground arith

attribute-decimal : (max n : ℕ) → n ≤ max → max < 1000 → attribute max (decimal n) ≡ some n
unfolding attribute
attribute-decimal max n h k =
    rw
      (atoi-digits (decimal n) (decimal-ne-nil n) (decimal-digits n)
        (parse_uint-decimal (2 ^ 63 - 1) n (omega arith)))
      (ground arith)

-- What holds of every message that comes without an error: its facility and its severity are in
-- the ranges of RFC 3195, its priority is theirs, without a wrap, and set only where they are in
-- the ranges of syslog, which is just where the message is valid, and its hostname is the name of
-- the device, or else its address.
pub record IsCooked {Time : Type 0} (m : CookedMessage Time) : Type 0 where
  pub fac : ℕ
  pub sev : ℕ
  pub facility : m.base.facility ≡ some fac
  pub severity : m.base.severity ≡ some sev
  pub fac_range : fac ≤ 255
  pub sev_range : sev ≤ 9
  pub priority : m.base.priority ≡ (if leb fac 23 && leb sev 7 then some (fac * 8 + sev) else none)
  pub validity : valid m.base ≡ (leb fac 23 && leb sev 7)
  pub hostname : m.base.hostname ≡ or_else m.device_fqdn m.device_ip

filled-IsCooked :
    {Time : Type 0} (e : Entry) (f s : ℕ) (t : Option Time)
    → f ≤ 255
    → s ≤ 9
    → IsCooked (filled e (record (with_priority f s) { timestamp = t }))
unfolding filled valid valid_priority
filled-IsCooked e f s t h k = record {
  fac = f;
  sev = s;
  facility = refl;
  severity = refl;
  fac_range = h;
  sev_range = k;
  priority = ground arith;
  validity = ground arith;
  hostname = refl;
}

-- The result of a message without an error.
abbrev pub accepted :
    {Time X T : Type 0} → CookedMessage Time → Result (CookedMessage Time) (CookedError X T)
accepted m = record { message = some m; error = none }

-- A field of a message for an attribute of an entry, which is not there if it is empty.
abbrev pub given : Bytes → Option Bytes
given [] = none
given (c ∷ s) = some (c ∷ s)

-- The first of two attributes that is there.
abbrev pub given_first : Bytes → Bytes → Option Bytes
given_first [] other = given other
given_first (c ∷ s) other = some (c ∷ s)

-- The priority of a facility and a severity that syslog has.
abbrev pub priority_for : ℕ → ℕ → Option ℕ
priority_for f s = if leb f 23 && leb s 7 then some (f * 8 + s) else none

-- The message that an entry without a timestamp stands for, with a facility and a severity.
abbrev pub message_for : {Time : Type 0} → Entry → ℕ → ℕ → CookedMessage Time
message_for e f s = record {
  base = record {
    facility = some f;
    severity = some s;
    priority = priority_for f s;
    message_counter = none;
    sequence = none;
    timestamp = none;
    hostname = given_first e.device_fqdn e.device_ip;
    appname = given e.tag;
    proc_id = none;
    msg_id = none;
    message = given e.content;
  };
  device_fqdn = given e.device_fqdn;
  device_ip = given e.device_ip;
  path_id = given e.path_id;
}

non_empty-given : (s : Bytes) → non_empty s ≡ given s
unfolding non_empty equal
non_empty-given [] = refl
non_empty-given (c ∷ s) = refl

or_else-given : (s o : Bytes) → or_else (non_empty s) (non_empty o) ≡ given_first s o
unfolding non_empty equal
or_else-given [] [] = refl
or_else-given [] (c ∷ o) = refl
or_else-given (c ∷ s) o = refl

priority_of-for :
    (f s : ℕ) → (if leb f 23 && leb s 7 then some ((f * 8 + s) % 256) else none) ≡ priority_for f s
priority_of-for f s = ground arith

filled-message_for :
    {Time : Type 0} (e : Entry) (f s : ℕ)
    → filled {Time = Time} e (with_priority f s) ≡ message_for e f s
unfolding filled
filled-message_for e f s =
    rw
      (
        non_empty-given e.tag,
        non_empty-given e.content,
        or_else-given e.device_fqdn e.device_ip,
        non_empty-given e.device_fqdn,
        non_empty-given e.device_ip,
        non_empty-given e.path_id,
        priority_of-for f s,
      )
      refl

module _ {Location Time X T : Type 0} (unmarshal : Bytes → Except X Entry)
    (parse_stamp : Option Location → Bytes → Except T Time) (set_year : ℤ → Time → Time) where
  on_stamp-IsCooked :
      (p : CookedParser Location) (e : Entry) (f s : ℕ) (o : Except T (Option Time))
      (m : CookedMessage Time)
      → f ≤ 255
      → s ≤ 9
      → on_stamp unmarshal parse_stamp set_year p e (with_priority f s) o ≡ accepted m
      → IsCooked m
  on_stamp-IsCooked p e f s (err x) m h k q = absurd cc
  on_stamp-IsCooked p e f s (ok t) m h k q =
      let made : CookedMessage Time = filled e (record (with_priority f s) { timestamp = t }) in
      subst (λ (x : CookedMessage Time). IsCooked x)
        (ap (λ r. elim r.message [ none ↦ made | some x ↦ x ]) q) (filled-IsCooked e f s t h k)

  -- Every message that `processEntry` emits without an error has a facility and a severity in the
  -- ranges of RFC 3195, the priority of these where syslog has one, and no other, is valid just
  -- there, and has the name of the device, or else its address, for a hostname.
  pub process_entry-IsCooked :
      (p : CookedParser Location) (e : Entry) (m : CookedMessage Time)
      → process_entry unmarshal parse_stamp set_year p e ≡ accepted m
      → IsCooked m
  unfolding process_entry
  process_entry-IsCooked p e m q = elim (Option-cases (attribute 255 e.facility)) [
    | inl n ↦ absurd (cc (ap (λ r. r.error) (rw n at q)))
    | inr (f, a) ↦ elim (Option-cases (attribute 9 e.severity)) [
      | inl n ↦ absurd (cc (ap (λ r. r.error) (rw (a, n) at q)))
      | inr (s, b) ↦
          on_stamp-IsCooked p e f s (stamp unmarshal parse_stamp set_year p e.timestamp) m
            (attribute-le 255 e.facility a) (attribute-le 9 e.severity b) (rw (a, b) at q)
    ]
  ]

  -- An entry whose facility and severity are written in decimal, up to 255 and 9, and that has no
  -- timestamp, is emitted without an error, as a message with these, with their priority where
  -- syslog has one, with the name of the device or else its address for a hostname, with the tag,
  -- the content and the device and path of the entry, where these are not empty, and with nothing
  -- else.
  pub process_entry-decimal :
      (p : CookedParser Location) (e : Entry) (f s : ℕ)
      → e.facility ≡ decimal f
      → e.severity ≡ decimal s
      → e.timestamp ≡ []
      → f ≤ 255
      → s ≤ 9
      → process_entry unmarshal parse_stamp set_year p e ≡ accepted (message_for e f s)
  unfolding process_entry
  process_entry-decimal p e f s a b t h k =
      let a' : attribute 255 e.facility ≡ some f =
        ap (attribute 255) a ∙ attribute-decimal 255 f h (omega arith) in
      let b' : attribute 9 e.severity ≡ some s =
        ap (attribute 9) b ∙ attribute-decimal 9 s k (omega arith) in
      ap (on_facility unmarshal parse_stamp set_year p e) a'
      ∙ ap (on_severity unmarshal parse_stamp set_year p e f) b'
      ∙ ap
          (λ x.
            on_stamp unmarshal parse_stamp set_year p e (with_priority f s)
              (stamp unmarshal parse_stamp set_year p x))
          t
      ∙ ap accepted (filled-message_for e f s)
