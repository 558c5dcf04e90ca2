-- ===== src/Syslog/Message/Laws.antt =====
-- What syslog.go makes of a priority.
use go_syslog.Base.{ltb, ℕ, ◌+◌, ◌*◌, ◌<◌, ◌≡◌, ◌/◌, ◌%◌, refl, some, arith}
use go_syslog.Common.{valid_priority}
use go_syslog.Syslog.Message.{Base, compute_from_priority, valid}

module _ {Time : Type 0} where
  -- `ComputeFromPriority` splits a priority: the facility and the severity give it back, the
  -- severity is one of the eight, the facility is one of the 24 where the priority is in range,
  -- and the message is valid just where it is.
  pub compute_from_priority-splits :
      (value : ℕ) (m : Base Time)
      → (f : ℕ) × (s : ℕ) × ((compute_from_priority value m).facility ≡ some f)
        × ((compute_from_priority value m).severity ≡ some s)
        × (f * 8 + s ≡ value)
        × (s < 8)
        × (valid (compute_from_priority value m) ≡ ltb f 24)
  unfolding compute_from_priority valid valid_priority
  compute_from_priority-splits value m =
      (value / 8, value % 8, refl, refl, omega arith, omega arith, ground arith)
