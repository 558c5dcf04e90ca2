-- ===== src/Syslog/Message.antt =====
-- syslog.go: `Base`, the fields that the messages of all formats have. A `*uint8` is an optional
-- number below 256, and `Time` stands for time.Time.
pub mod Laws
use go_syslog.Base.{ℕ, ◌/◌, ◌%◌, Option, none, some, Bytes, Bool, false}
use go_syslog.Common.{valid_priority}
use go_syslog.Common.Tables.{
  lookup, index, facility, facility_keywords, severity_messages, severity_levels,
  severity_levels_short,
}
use mathlib.Core.Option

pub record Base (Time : Type 0) : Type 0 where
  pub facility : Option ℕ
  pub severity : Option ℕ
  pub priority : Option ℕ
  pub message_counter : Option ℕ
  pub sequence : Option ℕ
  pub timestamp : Option Time
  pub hostname : Option Bytes
  pub appname : Option Bytes
  pub proc_id : Option Bytes
  pub msg_id : Option Bytes
  pub message : Option Bytes

abbrev pub valid_of : Option ℕ → Bool
valid_of none = false
valid_of (some priority) = valid_priority priority

abbrev keyword_or : ℕ → Option Bytes → Bytes
keyword_or f none = index f facility
keyword_or f (some keyword) = keyword

module _ {Time : Type 0} where
  -- `&Base{}`.
  abbrev pub empty : Base Time
  empty = record {
    facility = none;
    severity = none;
    priority = none;
    message_counter = none;
    sequence = none;
    timestamp = none;
    hostname = none;
    appname = none;
    proc_id = none;
    msg_id = none;
    message = none;
  }

  -- `Valid`.
  unfoldable pub valid : Base Time → Bool
  unfolding valid_priority
  valid m = valid_of m.priority

  -- `ComputeFromPriority`, on a uint8.
  unfoldable pub compute_from_priority : ℕ → Base Time → Base Time
  compute_from_priority value m = record m {
    priority = some value;
    facility = some (value / 8);
    severity = some (value % 8);
  }

  -- `FacilityMessage`.
  unfoldable pub facility_message : Base Time → Option Bytes
  unfolding index
  facility_message m = Option.map (λ f. index f facility) m.facility

  -- `FacilityLevel`: the keyword, or the message where no keyword is defined.
  unfoldable pub facility_level : Base Time → Option Bytes
  unfolding lookup index
  facility_level m = Option.map (λ f. keyword_or f (lookup f facility_keywords)) m.facility

  -- `SeverityMessage`.
  unfoldable pub severity_message : Base Time → Option Bytes
  unfolding index
  severity_message m = Option.map (λ s. index s severity_messages) m.severity

  -- `SeverityLevel`.
  unfoldable pub severity_level : Base Time → Option Bytes
  unfolding index
  severity_level m = Option.map (λ s. index s severity_levels) m.severity

  -- `SeverityShortLevel`.
  unfoldable pub severity_short_level : Base Time → Option Bytes
  unfolding index
  severity_short_level m = Option.map (λ s. index s severity_levels_short) m.severity
