-- ===== src/OctetCounting.antt =====
-- octetcounting: the octet counting transport (RFC 5425, RFC 6587).
pub mod Settings
pub mod Tokens
pub mod Scanner
pub mod Parser
mod Tests
