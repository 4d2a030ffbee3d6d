-- ===== src/Server.antt =====
-- src/http_server.cpp and include/http_server.hpp: from the bytes of a socket to an answer.
pub mod Request
pub mod Response
pub mod Reading
pub mod Client
