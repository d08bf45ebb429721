-- ===== src/Tools.antt =====
-- backend/saz/tools: the tools that send requests to other systems, behind the guard of
-- backend/saz/security/url_guard.py.
pub mod UrlGuard
pub mod Http
pub mod Sent
mod Tests
