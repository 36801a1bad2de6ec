-- ===== src/Authflow.antt =====
-- internal/modules/authflow: sessions in sealed cookies and the OAuth login.
pub mod User
pub mod Cookies
pub mod Sessions
pub mod Handler
