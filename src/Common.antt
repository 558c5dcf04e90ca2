-- ===== src/Common.antt =====
-- common: the tables of facilities and severities and the helpers that the parsers share.
mod Tests
pub mod Tables
pub mod Utf8
pub mod Escape
pub mod Decimal
use go_syslog.Base.{ℕ, Bool, ◌&&◌, leb}
use go_syslog.Base.Int.{ℤ, pos, ltb_ℤ}

-- `InBetween`; the program calls it at numbers that are never negative.
unfoldable pub in_between : ℕ → ℕ → ℕ → Bool
in_between val min max = leb min val && leb val max

-- `ValidPriority`.
unfoldable pub valid_priority : ℕ → Bool
unfolding in_between
valid_priority priority = in_between priority 0 191

-- `ValidVersion`.
unfoldable pub valid_version : ℕ → Bool
unfolding in_between
valid_version version = in_between version 1 999
