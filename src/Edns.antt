-- ===== src/Edns.antt =====
-- The EDNS options that the server answers: internal/cookie/cookie.go (Cookie) and
-- internal/dnsutil/ecs.go (Ecs).
pub mod Bytes
pub mod Cookie
pub mod Ecs
mod Tests
