-- ===== src/Syslog/Tests.antt =====
-- A priority, split and put together.
use go_syslog.Base.{ℕ, ◌+◌, ◌*◌, ◌<◌, ◌≡◌, some, ltb}
use go_syslog.Syslog.Message.{Base, empty, compute_from_priority, valid}
use go_syslog.Syslog.Message.Laws.{compute_from_priority-splits}

abbrev urgent : Base Unit
urgent = compute_from_priority 165 empty

compute_from_priority-splits_example :
    (f : ℕ) × (s : ℕ) × (urgent.facility ≡ some f)
    × (urgent.severity ≡ some s)
    × (f * 8 + s ≡ 165)
    × (s < 8)
    × (valid urgent ≡ ltb f 24)
compute_from_priority-splits_example = compute_from_priority-splits {Time = Unit} 165 empty
