-- ===== src/Rfc5424/Message.antt =====
-- rfc5424/syslog_message.go.
use go_syslog.Base.{
  ℕ, Option, none, some, [], Bytes, codes, Bool, true, false, not, ◌&&◌, ◌≡◌, equal, if◌then◌else◌,
  arith,
}
use go_syslog.Common.{valid_priority, valid_version}
use go_syslog.Syslog.Message.{Base, empty, compute_from_priority}

-- `syslogMessage`, what the state machine fills in; `SD` stands for the map of maps.
pub record Draft (Time SD : Type 0) : Type 0 where
  pub priority_set : Bool
  pub priority_optional : Bool
  pub timestamp_set : Bool
  pub has_elements : Bool
  pub priority : ℕ
  pub version : ℕ
  pub timestamp : Time
  pub hostname : Bytes
  pub appname : Bytes
  pub proc_id : Bytes
  pub msg_id : Bytes
  pub structured_data : SD
  pub message : Bytes

-- `SyslogMessage`.
pub record SyslogMessage (Time SD : Type 0) : Type 0 where
  pub base : Base Time
  pub version : ℕ
  pub structured_data : Option SD

-- A text that is neither the nil value nor empty.
unfoldable pub present : Bytes → Option Bytes
unfolding equal
present s = if not (equal s (codes "-")) && not (equal s []) then some s else none

-- A text that is not empty.
unfoldable pub non_empty : Bytes → Option Bytes
unfolding equal
non_empty s = if not (equal s []) then some s else none

abbrev pub when {ℓ} : {A : Type ℓ} → Bool → A → Option A
when true a = some a
when false a = none

abbrev priority_or_absent : Option ℕ → Bool
priority_or_absent none = true
priority_or_absent (some priority) = valid_priority priority

module _ {Time SD : Type 0} where
  -- `minimal`.
  unfoldable pub minimal : Draft Time SD → Bool
  minimal sm =
      if not (valid_version sm.version)
      then false
      else if sm.priority_set
      then valid_priority sm.priority
      else sm.priority_optional

  -- `export`.
  unfoldable pub export : Draft Time SD → SyslogMessage Time SD
  unfolding compute_from_priority
  export sm =
      let start : Base Time =
        if sm.priority_set then compute_from_priority sm.priority empty else empty in
      record {
        base = record start {
          timestamp = when sm.timestamp_set sm.timestamp;
          hostname = present sm.hostname;
          appname = present sm.appname;
          proc_id = present sm.proc_id;
          msg_id = present sm.msg_id;
          message = non_empty sm.message;
        };
        version = sm.version;
        structured_data = when sm.has_elements sm.structured_data;
      }

  -- `Valid`.
  unfoldable pub valid : SyslogMessage Time SD → Bool
  valid sm = if not (valid_version sm.version) then false else priority_or_absent sm.base.priority

  -- An exported draft is valid if and only if its version is, and its priority where it was set.
  pub valid-export :
      (sm : Draft Time SD)
      → valid (export sm) ≡ (
          valid_version sm.version
          && (if sm.priority_set then valid_priority sm.priority else true))
  unfolding valid export
  valid-export sm = ground arith

  -- A minimal draft exports to a valid message.
  pub minimal-valid : (sm : Draft Time SD) → minimal sm ≡ true → valid (export sm) ≡ true
  unfolding minimal
  minimal-valid sm h = ground (arith, valid-export sm)
