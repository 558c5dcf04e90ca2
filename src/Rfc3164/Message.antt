-- ===== src/Rfc3164/Message.antt =====
-- rfc3164/syslog_message.go and rfc3164/year.go.
use go_syslog.Base.{
  ℕ, Option, none, some, [], Bytes, Bool, true, false, not, ◌&&◌, ◌≡◌, equal, if◌then◌else◌, arith,
}
use go_syslog.Base.Int.{ℤ}
use go_syslog.Common.{valid_priority}
use go_syslog.Syslog.Message.{Base, empty, compute_from_priority}
use go_syslog.Rfc5424.Message.{present, non_empty, when}

-- `YearOperator` and its two strategies.
pub data YearOperator : Type 0 where
  current_year : YearOperator
  year : ℤ → YearOperator

-- `Apply`, with the year that the clock shows.
abbrev pub apply : ℤ → YearOperator → ℤ
apply now current_year = now
apply now (year yyyy) = yyyy

-- `YearOperation.Operate`.
abbrev pub operate : ℤ → YearOperator → ℤ
operate now o = apply now o

-- `syslogMessage`, what the state machine fills in.
pub record Draft (Time : Type 0) : Type 0 where
  pub priority_set : Bool
  pub timestamp_set : Bool
  pub msgcount_set : Bool
  pub sequence_set : Bool
  pub priority_optional : Bool
  pub priority : ℕ
  pub msgcount : ℕ
  pub sequence : ℕ
  pub timestamp : Time
  pub hostname : Bytes
  pub tag : Bytes
  pub content : Bytes
  pub message : Bytes

abbrev both {ℓ κ} : {A : Type ℓ} {B : Type κ} → Option A → Option B → Bool
both (some a) (some b) = true
both (some a) none = false
both none b = false

abbrev priority_or : Option ℕ → Bool → Bool
priority_or (some priority) b = valid_priority priority
priority_or none b = b

module _ {Time : Type 0} where
  -- `minimal`.
  unfoldable pub minimal : Draft Time → Bool
  unfolding equal
  minimal sm =
      if sm.priority_set
      then valid_priority sm.priority
      else sm.priority_optional && (sm.timestamp_set && not (equal sm.message []))

  -- `export`; `SyslogMessage` holds a `Base` and nothing else.
  unfoldable pub export : Draft Time → Base Time
  unfolding compute_from_priority
  export sm =
      let start : Base Time =
        if sm.priority_set then compute_from_priority sm.priority empty else empty in
      record start {
        message_counter = when sm.msgcount_set sm.msgcount;
        sequence = when sm.sequence_set sm.sequence;
        timestamp = when sm.timestamp_set sm.timestamp;
        hostname = present sm.hostname;
        appname = present sm.tag;
        proc_id = present sm.content;
        message = non_empty sm.message;
      }

  -- `Valid`.
  unfoldable pub valid : Base Time → Bool
  valid sm = priority_or sm.priority (both sm.timestamp sm.message)

  -- A minimal draft exports to a valid message.
  pub minimal-valid_rfc3164 : (sm : Draft Time) → minimal sm ≡ true → valid (export sm) ≡ true
  unfolding minimal valid export non_empty
  minimal-valid_rfc3164 sm h = ground arith
