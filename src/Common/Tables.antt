-- ===== src/Common/Tables.antt =====
-- common/facility.go and common/severity.go: the tables, as association lists.
use go_syslog.Base.{ℕ, List, [], ◌∷◌, Option, none, some, Bytes, codes, ◌==◌, if◌then◌else◌}

abbrev pub Table : Type 0
Table = List (ℕ × Bytes)

-- A Go map read with `v, ok := m[k]`.
unfoldable pub lookup : ℕ → Table → Option Bytes
lookup k [] = none
lookup k ((j, v) ∷ t) = if k == j then some v else lookup k t

abbrev value_or_empty : Option Bytes → Bytes
value_or_empty none = []
value_or_empty (some v) = v

-- A Go map read with `m[k]`: the empty string where the key is missing.
unfoldable pub index : ℕ → Table → Bytes
unfolding lookup
index k t = value_or_empty (lookup k t)

abbrev pub facility : Table
facility =
    (0, codes "kernel messages")
    ∷ (1, codes "user-level messages")
    ∷ (2, codes "mail system messages")
    ∷ (3, codes "system daemons messages")
    ∷ (4, codes "authorization messages")
    ∷ (5, codes "messages generated internally by syslogd")
    ∷ (6, codes "line printer subsystem messages")
    ∷ (7, codes "network news subsystem messages")
    ∷ (8, codes "UUCP subsystem messages")
    ∷ (9, codes "clock daemon messages")
    ∷ (10, codes "security/authorization messages")
    ∷ (11, codes "ftp daemon messages")
    ∷ (12, codes "NTP subsystem messages")
    ∷ (13, codes "audit messages")
    ∷ (14, codes "console messages")
    ∷ (15, codes "clock daemon messages")
    ∷ (16, codes "local use 0 (local0)")
    ∷ (17, codes "local use 1 (local1)")
    ∷ (18, codes "local use 2 (local2)")
    ∷ (19, codes "local use 3 (local3)")
    ∷ (20, codes "local use 4 (local4)")
    ∷ (21, codes "local use 5 (local5)")
    ∷ (22, codes "local use 6 (local6)")
    ∷ (23, codes "local use 7 (local7)")
    ∷ []

abbrev pub facility_keywords : Table
facility_keywords =
    (0, codes "kern")
    ∷ (1, codes "user")
    ∷ (2, codes "mail")
    ∷ (3, codes "daemon")
    ∷ (4, codes "auth")
    ∷ (5, codes "syslog")
    ∷ (6, codes "lpr")
    ∷ (7, codes "news")
    ∷ (8, codes "uucp")
    ∷ (9, codes "cron")
    ∷ (10, codes "authpriv")
    ∷ (11, codes "ftp")
    ∷ (12, codes "ntp")
    ∷ (13, codes "security")
    ∷ (14, codes "console")
    ∷ (15, codes "cron2")
    ∷ (16, codes "local0")
    ∷ (17, codes "local1")
    ∷ (18, codes "local2")
    ∷ (19, codes "local3")
    ∷ (20, codes "local4")
    ∷ (21, codes "local5")
    ∷ (22, codes "local6")
    ∷ (23, codes "local7")
    ∷ []

abbrev pub severity_messages : Table
severity_messages =
    (0, codes "system is unusable")
    ∷ (1, codes "action must be taken immediately")
    ∷ (2, codes "critical conditions")
    ∷ (3, codes "error conditions")
    ∷ (4, codes "warning conditions")
    ∷ (5, codes "normal but significant condition")
    ∷ (6, codes "informational messages")
    ∷ (7, codes "debug-level messages")
    ∷ []

abbrev pub severity_levels : Table
severity_levels =
    (0, codes "emergency")
    ∷ (1, codes "alert")
    ∷ (2, codes "critical")
    ∷ (3, codes "error")
    ∷ (4, codes "warning")
    ∷ (5, codes "notice")
    ∷ (6, codes "informational")
    ∷ (7, codes "debug")
    ∷ []

abbrev pub severity_levels_short : Table
severity_levels_short =
    (0, codes "emerg")
    ∷ (1, codes "alert")
    ∷ (2, codes "crit")
    ∷ (3, codes "err")
    ∷ (4, codes "warning")
    ∷ (5, codes "notice")
    ∷ (6, codes "info")
    ∷ (7, codes "debug")
    ∷ []
