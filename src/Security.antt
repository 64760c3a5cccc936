-- ===== src/Security.antt =====
-- Who may do what: permission words, sessions and tokens (security/*.go).
pub mod Perm
pub mod Session
mod Tests
