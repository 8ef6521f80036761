-- ===== src/Security.antt =====
-- security/: the read-only guard that every query passes before a driver sees it.
pub mod SqlGuard
pub mod Redaction
