-- ===== src/Session.antt =====
-- include/session.hpp, include/auth.hpp, include/http_auth.hpp and the hashers: sessions and who is logged in.
pub mod Auth
pub mod Csrf
pub mod Handle
pub mod Hash
pub mod Pbkdf2
pub mod Store
