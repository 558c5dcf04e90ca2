-- ===== src/Syslog.antt =====
-- syslog.go: the interface of the message machines, and what a parser hands to its listener.
-- A machine is seen through its two observers. What it may keep between two calls of `Parse` is not
-- seen here: `parse` is a function; an error is a value of the machine's own type.
mod Tests
pub mod Message
use go_syslog.Base.{Bytes, Option, Bool}

-- `Machine`: `Parse` and `HasBestEffort`.
pub record Machine (M E : Type 0) : Type 0 where
  pub parse : Bytes → Option M × Option E
  pub has_best_effort : Bool

-- `Result`, the outcomes obtained parsing a syslog message; `none` is Go's nil.
pub record Result (M E : Type 0) : Type 0 where
  pub message : Option M
  pub error : Option E
